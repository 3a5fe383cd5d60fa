-- ===== src/Plan/DomainMap/Traversal.antt =====
-- `remove_subtree` and `bfs` of src/plan/domain_map.rs.
use mmat.Prelude.{
  ℕ, zero, suc, Bool, true, false, not, Option, none, some, List, [], ◌∷◌, ◌++◌, ◌==◌,
  if◌then◌else◌, retain, unwrap_or,
}
use mmat.Prelude.Map
use mmat.Prelude.Map.{Map}
use mmat.Prelude.Search.{open_edges}
use mmat.Plan.DomainMap.{DomainNodeId, DomainNode, DomainTree, get}

-- `children.retain(|child_id| *child_id != id)`
abbrev drop_child : DomainNodeId → DomainNode → DomainNode
drop_child id node = record node {
  children = retain (λ child_id. not (child_id == id)) node.children;
}

-- `if let Some(parent_id) = node.parent && let Some(parent) = …`
abbrev unlink : DomainNodeId → Option DomainNodeId → Map DomainNode → Map DomainNode
unlink id none nodes = nodes
unlink id (some parent_id) nodes = Map.update parent_id (drop_child id) nodes

-- `remove_subtree` on a stack of pending calls: the recursive calls for the children are made one
-- after the other, and what they return is dropped. Each call that finds its node removes it, so
-- the calls are bounded by the child links of the map; `none` means that the fuel ran out.
unfoldable pub remove_pending : ℕ → DomainTree → List DomainNodeId → Option DomainTree
remove_pending zero tree pending = none
remove_pending (suc fuel) tree [] = some tree
remove_pending (suc fuel) tree (id ∷ pending) = elim (id == tree.root) [
  | true ↦ remove_pending fuel tree pending
  | false ↦ elim (get tree id) [
    | none ↦ remove_pending fuel tree pending
    | some node ↦
        remove_pending fuel
          (record tree { nodes = unlink id node.parent (Map.remove id tree.nodes) })
          (node.children ++ pending)
  ]
]

abbrev pub child_edges : DomainNode → List DomainNodeId
child_edges node = node.children

unfoldable pub remove_subtree : DomainNodeId → DomainTree → DomainTree × Bool
unfolding remove_pending
remove_subtree id tree = if id == tree.root then (tree, false) else elim (get tree id) [
  | none ↦ (tree, false)
  | some _ ↦ (
    unwrap_or tree
        (remove_pending (suc (suc (open_edges child_edges [] tree.nodes))) tree (id ∷ [])),
    true,
  )
]

-- `bfs` on fuel: `queue.pop()` takes the last id and `queue.insert(0, …)` puts ids in front, so
-- the list, whose head is the next id to be taken, grows at its end.
unfoldable pub bfs_loop : ℕ → Map DomainNode → List DomainNodeId → Option (List DomainNode)
bfs_loop zero nodes queue = none
bfs_loop (suc fuel) nodes [] = some []
bfs_loop (suc fuel) nodes (id ∷ queue) = elim (Map.get nodes id) [
  | none ↦ bfs_loop fuel nodes queue
  | some node ↦ elim (bfs_loop fuel nodes (queue ++ node.children)) [
    | none ↦ none
    | some rest ↦ some (node ∷ rest)
  ]
]

unfoldable pub bfs : ℕ → DomainTree → Option (List DomainNode)
unfolding bfs_loop
bfs fuel tree = bfs_loop fuel tree.nodes (tree.root ∷ [])
