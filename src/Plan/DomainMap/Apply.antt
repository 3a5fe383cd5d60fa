-- ===== src/Plan/DomainMap/Apply.antt =====
-- `apply_discovery_output` of src/plan/domain_map.rs: what a discovery output does to a tree.
use mmat.Prelude.{
  ℕ, ◌+◌, ◌≡◌, refl, inl, inr, ◌&&◌, some, List, [], ◌++◌, append-nil, arith, ltb, length,
  Bool-cases, if◌then◌else◌,
}
use mmat.Prelude.Map
use mmat.Prelude.Map.{get-update}
use mmat.Plan.Discovery.{DiscoveryOutput}
use mmat.Plan.DomainMap.{
  DomainNodeId, DomainNode, DomainTree, ready, get, update_node, is_empty, add_children,
  record_output, apply_discovery_output,
}
use mmat.Plan.DomainMap.WellFormed.{IsWellFormed}
use mmat.Plan.DomainMap.Update.{update_node-IsWellFormed}
use mmat.Plan.DomainMap.Growth.{
  IsSupply, drawn, add_children-IsWellFormed, add_children-room, add_children-no_room,
}

module _ (uuid : ℕ → ℕ) (n : ℕ) (node_id : DomainNodeId) (output : DiscoveryOutput)
    (tree : DomainTree) where
  abbrev applied : DomainTree × List DomainNodeId
  applied = apply_discovery_output uuid n node_id output tree

  -- With new ids from the generator, `apply_discovery_output` keeps a tree well formed: among
  -- other things no node is deeper than the configured maximum.
  pub apply_discovery_output-IsWellFormed :
      IsSupply uuid n tree → IsWellFormed tree → IsWellFormed applied.0
  unfolding apply_discovery_output
  apply_discovery_output-IsWellFormed s w =
      elim (Bool-cases (Map.contains_key tree.nodes node_id)) [
        | inl known ↦
            rw (apply_discovery_output, known)
              (update_node-IsWellFormed node_id
                (record_output output (add_children uuid n node_id output.sub_domains tree).1)
                (λ m. (refl, refl, refl, refl)) _
                (add_children-IsWellFormed uuid node_id n output.sub_domains tree s w))
        | inr unknown ↦ rw (apply_discovery_output, unknown) w
      ]

  -- The ids of the children that a node gets: one for each sub-domain, or none at full depth.
  abbrev pub child_ids : DomainNode → List DomainNodeId
  child_ids node =
      if ltb tree.config.max_depth (node.depth + 1)
      then []
      else drawn uuid n (length output.sub_domains)

  -- The node itself afterwards.
  abbrev pub node_after : DomainNode → DomainNode
  node_after node = record node {
    children = node.children ++ child_ids node;
    discovery_output = some output;
    status =
        (if output.ready_for_solution && is_empty (child_ids node) then ready else node.status);
  }

  -- Applied to a node of the tree, with new ids from the generator, `apply_discovery_output`
  -- returns the ids of its new children: one for each sub-domain in order, or none if they would
  -- be too deep. It appends them to the node's children, records the output, and marks the node
  -- ready exactly if the output is ready and no child was added.
  pub apply_discovery_output_lem :
      (node : DomainNode)
      → IsSupply uuid n tree
      → get tree node_id ≡ some node
      → (applied.1 ≡ child_ids node) × (get applied.0 node_id ≡ some (node_after node))
  unfolding apply_discovery_output update_node
  apply_discovery_output_lem node s found =
      elim (Bool-cases (ltb tree.config.max_depth (node.depth + 1))) [
        | inl full ↦
            let e =
              add_children-no_room uuid node_id n output.sub_domains tree node found
                (ground arith) in
            (
              ground (arith, e),
              ground (
                arith,
                e,
                append-nil node.children,
                get-update node_id node_id (record_output output []) tree.nodes,
              ),
            )
        | inr room ↦
            let (ids, here) =
              add_children-room uuid node_id n output.sub_domains tree node s found
                (ground arith) in
            (
              ground (arith, ids),
              ground (
                arith,
                ids,
                here,
                get-update node_id node_id
                    (record_output output (add_children uuid n node_id output.sub_domains tree).1)
                    (add_children uuid n node_id output.sub_domains tree).0.nodes,
              ),
            )
      ]
