-- ===== src/Deliver/DeliveryGraph.antt =====
-- The delivery graph: src/deliver/delivery_graph.rs. A `HashMap` is an association list in the
-- order in which the code iterates over it; the theorems hold for every order. The batches and the
-- progress summary are in Batches.antt and Progress.antt. The proofs are in the modules below.
pub mod Cycles
pub mod Valid
use mmat.Prelude.{
  ℕ, zero, suc, String, Bool, true, false, not, Option, none, some, List, [], ◌∷◌, ◌++◌, Result, ok,
  err, unwrap_or, ◌==◌, if◌then◌else◌, contains,
}
use mmat.Prelude.Map
use mmat.Prelude.Map.{Map}
use mmat.Prelude.Search.{open_edges}
use mmat.Plan.DomainMap.{DomainNodeId}

pub data DeliveryGraphError : Type 0 where
  cycle_detected : DeliveryGraphError
  node_not_found : DomainNodeId → DeliveryGraphError
  duplicate_node : DomainNodeId → DeliveryGraphError

pub data DeliveryJobStatus : Type 0 where
  pending running succeeded failed : DeliveryJobStatus

abbrev pub as_str : DeliveryJobStatus → String
as_str pending = "pending"
as_str running = "running"
as_str succeeded = "succeeded"
as_str failed = "failed"

pub record DeliveryNodeProgress : Type 0 where
  pub domain_node_id : DomainNodeId
  pub status : DeliveryJobStatus
  pub error : Option String

pub record DeliveryBatchProgress : Type 0 where
  pub index : ℕ
  pub active : Bool
  pub completed : Bool
  pub nodes : List DeliveryNodeProgress

pub record DeliveryProgress : Type 0 where
  pub total_batches : ℕ
  pub active_batch_index : Option ℕ
  pub completed_batches : ℕ
  pub total_nodes : ℕ
  pub succeeded_nodes : ℕ
  pub failed_nodes : ℕ
  pub pending_nodes : ℕ
  pub running_nodes : ℕ
  pub batches : List DeliveryBatchProgress

pub record DeliveryNode : Type 0 where
  pub domain_node_id : DomainNodeId
  pub dependencies : List DomainNodeId
  pub status : DeliveryJobStatus
  pub error : Option String

pub record DeliveryBatch : Type 0 where
  pub index : ℕ
  pub nodes : List DomainNodeId

pub record DeliveryGraph : Type 0 where
  pub nodes : Map DeliveryNode
  pub batches : List DeliveryBatch
  pub active_batch_index : Option ℕ

abbrev pub new_node : DomainNodeId → DeliveryNode
new_node domain_node_id = record {
  domain_node_id = domain_node_id;
  dependencies = [];
  status = pending;
  error = none;
}

abbrev pub empty : DeliveryGraph
empty = record { nodes = []; batches = []; active_batch_index = none }

abbrev pub Fallible : Type 0
Fallible = Result DeliveryGraphError DeliveryGraph

unfoldable pub add_node : DomainNodeId → DeliveryGraph → Fallible
add_node domain_node_id graph =
    if Map.contains_key graph.nodes domain_node_id
    then err (duplicate_node domain_node_id)
    else ok
        (record graph { nodes = Map.insert domain_node_id (new_node domain_node_id) graph.nodes })

abbrev pub node_edges : DeliveryNode → List DomainNodeId
node_edges node = node.dependencies

-- The `while let Some(current) = queue.pop_front()` loop of `would_create_cycle` on fuel; `none`
-- means that the fuel ran out. The order of `visited`, a `HashSet`, is never read.
pub cycle_loop :
    ℕ → Map DeliveryNode → DomainNodeId → List DomainNodeId → List DomainNodeId → Option Bool
cycle_loop zero nodes from queue visited = none
cycle_loop (suc fuel) nodes from [] visited = some false
cycle_loop (suc fuel) nodes from (current ∷ queue) visited = elim (current == from) [
  | true ↦ some true
  | false ↦ elim (contains visited current) [
    | true ↦ cycle_loop fuel nodes from queue visited
    | false ↦ elim (Map.get nodes current) [
      | none ↦ cycle_loop fuel nodes from queue (current ∷ visited)
      | some node ↦ cycle_loop fuel nodes from (queue ++ node.dependencies) (current ∷ visited)
    ]
  ]
]

unfoldable pub would_create_cycle : DomainNodeId → DomainNodeId → DeliveryGraph → Bool
unfolding cycle_loop
would_create_cycle from to graph =
    unwrap_or false
      (cycle_loop (suc (suc (open_edges node_edges [] graph.nodes))) graph.nodes from (to ∷ []) [])

-- `if !node.dependencies.contains(&dependency_id) { node.dependencies.push(dependency_id) }`
abbrev pub push_dependency : DomainNodeId → DeliveryNode → DeliveryNode
push_dependency dependency_id node = record node {
  dependencies =
      (if contains node.dependencies dependency_id
        then node.dependencies
        else node.dependencies ++ dependency_id ∷ []);
}

unfoldable pub update_node :
    DomainNodeId → (DeliveryNode → DeliveryNode) → DeliveryGraph → DeliveryGraph
update_node node_id change graph = record graph { nodes = Map.update node_id change graph.nodes }

unfoldable pub add_dependency : DomainNodeId → DomainNodeId → DeliveryGraph → Fallible
unfolding update_node
add_dependency node_id dependency_id graph =
    if not (Map.contains_key graph.nodes node_id)
    then err (node_not_found node_id)
    else if not (Map.contains_key graph.nodes dependency_id)
    then err (node_not_found dependency_id)
    else if node_id == dependency_id
    then err cycle_detected
    else if would_create_cycle node_id dependency_id graph
    then err cycle_detected
    else ok (update_node node_id (push_dependency dependency_id) graph)

unfoldable pub set_status : DomainNodeId → DeliveryJobStatus → DeliveryGraph → DeliveryGraph
unfolding update_node
set_status node_id status graph =
    update_node node_id (λ node. record node { status = status }) graph

unfoldable pub set_error : DomainNodeId → String → DeliveryGraph → DeliveryGraph
unfolding update_node
set_error node_id error graph =
    update_node node_id (λ node. record node { error = some error; status = failed }) graph
