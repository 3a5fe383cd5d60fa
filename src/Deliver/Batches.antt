-- ===== src/Deliver/Batches.antt =====
-- The batches of a delivery graph: `compute_batches`, `from_domain_tree`, `active_batch` and
-- `advance_batch` of src/deliver/delivery_graph.rs. Where an `expect` or an underflow would panic,
-- the model returns `none`. The proofs are in the modules below.
mod Degrees
mod Counted
mod Release
mod Rounds
mod Loop
pub mod Schedule
pub mod Cyclic
mod LeafNodes
mod FromTree
mod Tests
use mmat.Prelude.{
  ℕ, zero, suc, ◌+◌, Option, none, some, List, [], ◌∷◌, ◌++◌, map, ok, err, and_then, option_then,
  unwrap_or, ltb, ◌==◌, if◌then◌else◌, contains, length, get_elem?,
}
use mmat.Prelude.Map
use mmat.Prelude.Map.{Map}
use mmat.Plan.DomainMap.{DomainNodeId, DomainNode, DomainTree, leaves, dependencies}
use mmat.Deliver.DeliveryGraph.{
  cycle_detected, duplicate_node, DeliveryNode, DeliveryBatch, DeliveryGraph, Fallible, empty,
  add_node, add_dependency,
}

-- `in_degree.entry(id).or_insert(0)`
abbrev pub or_insert_zero : DomainNodeId → Map ℕ → Map ℕ
or_insert_zero id in_degree = elim (Map.get in_degree id) [
  | none ↦ Map.insert id 0 in_degree
  | some _ ↦ in_degree
]

-- `dependents.entry(dep).or_default().push(id)`
abbrev pub push_dependent :
    DomainNodeId → DomainNodeId → Map (List DomainNodeId) → Map (List DomainNodeId)
push_dependent dep id dependents =
    Map.insert dep (unwrap_or [] (Map.get dependents dep) ++ id ∷ []) dependents

abbrev pub Degrees : Type 0
Degrees = Map ℕ

abbrev pub Dependents : Type 0
Dependents = Map (List DomainNodeId)

-- The body of the first loop of `compute_batches` over one node's dependencies.
pub collect_dependencies :
    DomainNodeId → List DomainNodeId → Degrees × Dependents → Degrees × Dependents
collect_dependencies id [] tables = tables
collect_dependencies id (dep ∷ deps) (in_degree, dependents) =
    collect_dependencies id deps (or_insert_zero dep in_degree, push_dependent dep id dependents)

pub collect : Map DeliveryNode → Degrees × Dependents → Degrees × Dependents
unfolding collect_dependencies
collect [] tables = tables
collect ((id, node) ∷ nodes) (in_degree, dependents) =
    collect nodes
      (collect_dependencies id node.dependencies (or_insert_zero id in_degree, dependents))

-- `*in_degree.get_mut(id).expect("node should exist") += 1`, once for each dependency.
pub add_degree : DomainNodeId → List DomainNodeId → Degrees → Option Degrees
add_degree id [] in_degree = some in_degree
add_degree id (_ ∷ deps) in_degree = elim (Map.get in_degree id) [
  | none ↦ none
  | some degree ↦ add_degree id deps (Map.insert id (suc degree) in_degree)
]

pub count_degrees : Map DeliveryNode → Degrees → Option Degrees
unfolding add_degree
count_degrees [] in_degree = some in_degree
count_degrees ((id, node) ∷ nodes) in_degree =
    option_then (add_degree id node.dependencies in_degree) (count_degrees nodes)

-- The ids with in-degree zero, in the order in which they came into the map. The code takes them in
-- any order, which decides the order inside the batches only.
abbrev pub sources : Degrees → List DomainNodeId
sources [] = []
sources ((id, degree) ∷ in_degree) =
    let rest = sources in_degree in if degree == 0 then id ∷ rest else rest

-- `*degree -= 1; if *degree == 0 { queue.push_back(*dependent) }` for the dependents of one node.
pub release : List DomainNodeId → Degrees × List DomainNodeId → Option (Degrees × List DomainNodeId)
release [] state = some state
release (dependent ∷ more) (in_degree, queue) = elim (Map.get in_degree dependent) [
  | none ↦ none
  | some zero ↦ none
  | some (suc degree) ↦ release more (
    Map.insert dependent degree in_degree,
    (if degree == 0 then queue ++ dependent ∷ [] else queue),
  )
]

-- The loop over the nodes of one batch.
pub release_batch :
    Dependents
    → List DomainNodeId
    → Degrees × List DomainNodeId
    → Option (Degrees × List DomainNodeId)
unfolding release
release_batch dependents [] state = some state
release_batch dependents (node_id ∷ more) state =
    option_then (release (unwrap_or [] (Map.get dependents node_id)) state)
      (release_batch dependents more)

-- The `while !queue.is_empty()` loop on fuel, with the batches and the count of processed ids so
-- far. `none` means a panic, or that the fuel ran out.
pub batch_loop :
    ℕ
    → Dependents
    → Degrees
    → List DomainNodeId
    → List DeliveryBatch
    → ℕ
    → Option (List DeliveryBatch × ℕ)
unfolding release_batch
batch_loop zero dependents in_degree queue batches processed = none
batch_loop (suc fuel) dependents in_degree [] batches processed = some (batches, processed)
batch_loop (suc fuel) dependents in_degree (id ∷ queue) batches processed =
    elim (release_batch dependents (id ∷ queue) (in_degree, [])) [
      | none ↦ none
      | some (in_degree', queue') ↦
          batch_loop fuel dependents in_degree' queue'
            (batches ++ record { index = length batches; nodes = id ∷ queue } ∷ [])
            (processed + length (id ∷ queue))
    ]

-- The test after the loop.
pub finish_batches : DeliveryGraph → List DeliveryBatch × ℕ → Fallible
finish_batches graph (batches, processed) =
    if processed == length graph.nodes
    then ok (record graph { batches = batches })
    else err cycle_detected

unfoldable pub compute_batches : DeliveryGraph → Option Fallible
unfolding collect count_degrees batch_loop finish_batches
compute_batches graph =
    let (in_degree, dependents) = collect graph.nodes ([], []) in
    option_then (count_degrees graph.nodes in_degree) λ degrees.
      option_then
        (batch_loop (suc (suc (length degrees))) dependents degrees (sources degrees) [] 0)
        (λ result. some (finish_batches graph result))

-- `graph.add_node(*leaf_id).map_err(…)?` for each leaf
pub add_nodes : List DomainNodeId → DeliveryGraph → Fallible
unfolding add_node
add_nodes [] graph = ok graph
add_nodes (leaf_id ∷ leaf_ids) graph = elim (add_node leaf_id graph) [
  | ok graph' ↦ add_nodes leaf_ids graph'
  | err _ ↦ err (duplicate_node leaf_id)
]

-- The loop over the dependencies of one leaf; those that are no leaves are passed over.
pub add_leaf_dependencies :
    List DomainNodeId → DomainNodeId → List DomainNodeId → DeliveryGraph → Fallible
unfolding add_dependency
add_leaf_dependencies leaf_ids leaf_id [] graph = ok graph
add_leaf_dependencies leaf_ids leaf_id (dep_id ∷ deps) graph =
    and_then (if contains leaf_ids dep_id then add_dependency leaf_id dep_id graph else ok graph)
      (add_leaf_dependencies leaf_ids leaf_id deps)

-- The loop over the leaves.
pub add_edges : DomainTree → List DomainNodeId → List DomainNodeId → DeliveryGraph → Fallible
unfolding add_leaf_dependencies
add_edges tree leaf_ids [] graph = ok graph
add_edges tree leaf_ids (leaf_id ∷ more) graph =
    and_then
      (add_leaf_dependencies leaf_ids leaf_id (unwrap_or [] (dependencies tree leaf_id)) graph)
      (add_edges tree leaf_ids more)

-- `tree.leaves().iter().map(|node| node.id)`
abbrev pub leaf_ids_of : DomainTree → List DomainNodeId
leaf_ids_of tree = map (λ (node : DomainNode). node.id) (leaves tree)

-- The graph before its batches are computed.
pub graph_of_leaves : DomainTree → Fallible
unfolding add_nodes add_edges
graph_of_leaves tree =
    and_then (add_nodes (leaf_ids_of tree) empty)
      (add_edges tree (leaf_ids_of tree) (leaf_ids_of tree))

-- `None` stands for a panic, as in `compute_batches`.
pub from_domain_tree : DomainTree → Option Fallible
unfolding graph_of_leaves
from_domain_tree tree = elim (graph_of_leaves tree) [
  | ok graph ↦ compute_batches graph
  | err error ↦ some (err error)
]

unfoldable pub active_batch : DeliveryGraph → Option DeliveryBatch
active_batch graph = option_then graph.active_batch_index (get_elem? graph.batches)

unfoldable pub advance_batch : DeliveryGraph → DeliveryGraph
advance_batch graph = record graph {
  active_batch_index = elim graph.active_batch_index [
    | some index ↦ if ltb (index + 1) (length graph.batches) then some (index + 1) else some index
    | none ↦ if ltb 0 (length graph.batches) then some 0 else none
  ];
}
