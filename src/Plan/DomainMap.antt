-- ===== src/Plan/DomainMap.antt =====
-- The domain tree: src/plan/domain_map.rs. A node id is a UUID, kept as the number that it is, so
-- that `==` and the derived order are those of numbers; `Uuid::new_v4` is an argument of the
-- operations that call it. The proofs are in the modules below.
pub mod Depends
pub mod Acyclic
pub mod WellFormed
mod Update
mod Growth
pub mod Apply
pub mod Traversal
mod Tests
use mmat.Prelude.{
  ℕ, zero, suc, ◌+◌, ◌<◌, String, Bool, true, false, not, ◌||◌, Option, none, some, List, [], ◌∷◌,
  ◌++◌, ltb, ◌==◌, if◌then◌else◌, contains, length, retain, unwrap_or,
}
use mmat.Prelude.Map
use mmat.Prelude.Map.{Map}
use mmat.Prelude.Search.{open_edges}
use mmat.Plan.Discovery.{DiscoveryOutput, SubDomainSuggestion, BigPicture}

abbrev pub DomainNodeId : Type 0
DomainNodeId = ℕ

pub data KnowledgeVisibility : Type 0 where
  public private : KnowledgeVisibility

pub data DomainNodeStatus : Type 0 where
  discovering ready knowledge_materialised solutions_collected solution_chosen : DomainNodeStatus
  architect_complete delivering complete replanning : DomainNodeStatus

pub record DomainNode : Type 0 where
  pub id : DomainNodeId
  pub name : String
  pub description : String
  pub depth : ℕ
  pub parent : Option DomainNodeId
  pub children : List DomainNodeId
  pub dependencies : List DomainNodeId
  pub knowledge_collections : List String
  pub knowledge_visibility : KnowledgeVisibility
  pub status : DomainNodeStatus
  pub discovery_output : Option DiscoveryOutput

pub record DomainTreeConfig : Type 0 where
  pub max_depth : ℕ
  pub max_cascade_depth : ℕ

pub record DomainTree : Type 0 where
  pub root : DomainNodeId
  pub nodes : Map DomainNode
  pub config : DomainTreeConfig
  pub big_picture : Option BigPicture

abbrev pub default_config : DomainTreeConfig
default_config = record { max_depth = 3; max_cascade_depth = 3 }

-- the node that `new` inserts
abbrev pub new_root : ℕ → String → String → DomainNode
new_root uuid root_name root_description = record {
  id = uuid;
  name = root_name;
  description = root_description;
  depth = 0;
  parent = none;
  children = [];
  dependencies = [];
  knowledge_collections = [];
  knowledge_visibility = public;
  status = discovering;
  discovery_output = none;
}

-- `uuid` is what `DomainNodeId::new()` returns.
unfoldable pub new : ℕ → String → String → DomainTree
new uuid root_name root_description = record {
  root = uuid;
  nodes = Map.insert uuid (new_root uuid root_name root_description) [];
  config = default_config;
  big_picture = none;
}

unfoldable pub with_config : ℕ → String → String → DomainTreeConfig → DomainTree
unfolding new
with_config uuid root_name root_description config =
    let tree = new uuid root_name root_description in record tree { config = config }

pub set_big_picture : BigPicture → DomainTree → DomainTree
set_big_picture big_picture tree = record tree { big_picture = some big_picture }

abbrev pub get : DomainTree → DomainNodeId → Option DomainNode
get tree id = Map.get tree.nodes id

-- `root`; `none` is the panic of its `expect`.
abbrev pub root_node : DomainTree → Option DomainNode
root_node tree = get tree tree.root

unfoldable pub update_node : DomainNodeId → (DomainNode → DomainNode) → DomainTree → DomainTree
update_node id change tree = record tree { nodes = Map.update id change tree.nodes }

-- the node that `add_child` inserts
abbrev new_child : ℕ → DomainNodeId → DomainNode → String → String → DomainNode
new_child uuid parent_id parent name description = record {
  id = uuid;
  name = name;
  description = description;
  depth = parent.depth + 1;
  parent = some parent_id;
  children = [];
  dependencies = [];
  knowledge_collections = [];
  knowledge_visibility = private;
  status = discovering;
  discovery_output = none;
}

-- `children.push(child_id)`
abbrev push_child : DomainNodeId → DomainNode → DomainNode
push_child child_id node = record node { children = node.children ++ child_id ∷ [] }

unfoldable pub add_child :
    ℕ → DomainNodeId → String → String → DomainTree → DomainTree × Option DomainNodeId
add_child uuid parent_id name description tree = elim (get tree parent_id) [
  | none ↦ (tree, none)
  | some parent ↦ if ltb tree.config.max_depth (parent.depth + 1) then (tree, none) else (
    record tree {
      nodes =
          Map.update parent_id (push_child uuid)
            (Map.insert uuid (new_child uuid parent_id parent name description) tree.nodes);
    },
    some uuid,
  )
]

-- `if let Some(child_id) = … { new_children.push(child_id) }` before the rest of the loop.
collect_child :
    (ℕ → DomainTree × List DomainNodeId) → ℕ → Option DomainNodeId → DomainTree × List DomainNodeId
collect_child rest n none = rest n
collect_child rest n (some child_id) = let (tree, ids) = rest (suc n) in (tree, child_id ∷ ids)

-- The loop of `apply_discovery_output` over the suggested sub-domains. `uuid n` is the n-th id
-- that `Uuid::new_v4` returns; `n` ids have been drawn.
pub add_children :
    (ℕ → ℕ)
    → ℕ
    → DomainNodeId
    → List SubDomainSuggestion
    → DomainTree
    → DomainTree × List DomainNodeId
unfolding collect_child
add_children uuid n node_id [] tree = (tree, [])
add_children uuid n node_id (sub ∷ subs) tree =
    let (tree', added) = add_child (uuid n) node_id sub.name sub.description tree in
    collect_child (λ m. add_children uuid m node_id subs tree') n added

abbrev pub is_empty {ℓ} : {A : Type ℓ} → List A → Bool
is_empty [] = true
is_empty (x ∷ xs) = false

-- `node.discovery_output = …; if … { node.status = Ready }`
abbrev record_output : DiscoveryOutput → List DomainNodeId → DomainNode → DomainNode
record_output output new_children node = record node {
  discovery_output = some output;
  status =
      (if output.ready_for_solution
        then (if is_empty new_children then ready else node.status)
        else node.status);
}

unfoldable pub apply_discovery_output :
    (ℕ → ℕ) → ℕ → DomainNodeId → DiscoveryOutput → DomainTree → DomainTree × List DomainNodeId
unfolding add_children update_node
apply_discovery_output uuid n node_id output tree =
    if Map.contains_key tree.nodes node_id
    then (let (tree', new_children) = add_children uuid n node_id output.sub_domains tree in
        (update_node node_id (record_output output new_children) tree', new_children))
    else (tree, [])

abbrev pub dependencies : DomainTree → DomainNodeId → Option (List DomainNodeId)
dependencies tree id = elim (get tree id) [ none ↦ none | some node ↦ some node.dependencies ]

abbrev pub node_edges : DomainNode → List DomainNodeId
node_edges node = node.dependencies

-- The `for` loop in `depends_on`: `none` for `return true`, else the stack with the pushes made.
-- The head of the list is the top of the stack.
push_dependencies :
    DomainNodeId → List DomainNodeId → List DomainNodeId → Option (List DomainNodeId)
push_dependencies target_id [] stack = some stack
push_dependencies target_id (dependency ∷ more) stack =
    if dependency == target_id then none else push_dependencies target_id more (dependency ∷ stack)

-- The `while let Some(id) = stack.pop()` loop on fuel; `none` means that the fuel ran out. The
-- order of `visited` is never read.
pub depends_loop :
    ℕ → Map DomainNode → DomainNodeId → List DomainNodeId → List DomainNodeId → Option Bool
unfolding push_dependencies
depends_loop zero nodes target_id stack visited = none
depends_loop (suc fuel) nodes target_id [] visited = some false
depends_loop (suc fuel) nodes target_id (id ∷ stack) visited = elim (contains visited id) [
  | true ↦ depends_loop fuel nodes target_id stack visited
  | false ↦ elim (Map.get nodes id) [
    | none ↦ depends_loop fuel nodes target_id stack (id ∷ visited)
    | some node ↦ elim (push_dependencies target_id node.dependencies stack) [
      | none ↦ some true
      | some stack' ↦ depends_loop fuel nodes target_id stack' (id ∷ visited)
    ]
  ]
]

-- An id is popped once for each push, and a node's dependencies are pushed once.
unfoldable pub depends_on : DomainTree → DomainNodeId → DomainNodeId → Bool
unfolding depends_loop
depends_on tree node_id target_id = unwrap_or false (
    depends_loop (suc (suc (open_edges node_edges [] tree.nodes))) tree.nodes target_id
      (node_id ∷ []) [])

-- `node.dependencies.push(dependency_id)`
abbrev push_dependency : DomainNodeId → DomainNode → DomainNode
push_dependency dependency_id node = record node {
  dependencies = node.dependencies ++ dependency_id ∷ [];
}

unfoldable pub add_dependency : DomainNodeId → DomainNodeId → DomainTree → DomainTree × Bool
unfolding update_node
add_dependency node_id dependency_id tree =
    if node_id == dependency_id
      || not (Map.contains_key tree.nodes node_id)
      || not (Map.contains_key tree.nodes dependency_id)
      || depends_on tree dependency_id node_id
    then (tree, false)
    else elim (dependencies tree node_id) [
      | none ↦ (tree, false)
      | some declared ↦
          if contains declared dependency_id
          then (tree, false)
          else (update_node node_id (push_dependency dependency_id) tree, true)
    ]

unfoldable pub is_leaf : DomainTree → DomainNodeId → Bool
is_leaf tree id = elim (get tree id) [ none ↦ false | some node ↦ is_empty node.children ]

unfoldable pub leaves : DomainTree → List DomainNode
leaves tree = retain (λ node. is_empty node.children) (Map.values tree.nodes)

unfoldable pub at_depth : DomainTree → ℕ → List DomainNode
at_depth tree depth = retain (λ node. node.depth == depth) (Map.values tree.nodes)
