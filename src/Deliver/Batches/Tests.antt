-- ===== src/Deliver/Batches/Tests.antt =====
-- Small delivery graphs, what the operations do on them, and the theorems at them.
use mmat.Prelude.{
  ℕ, ◌+◌, ◌≡◌, refl, ◌⊎◌, inl, inr, true, none, some, List, [], ◌∷◌, ◌++◌, ◌≢◌, ◌∙◌, arith, ◌∈◌, ok,
  err, ==_iff,
}
use mmat.Prelude.Map
use mmat.Prelude.Reach.{Reach, Reach-cases, IsAcyclic}
use mmat.Plan.DomainMap.{DomainTree, DomainNode, new_root}
use mmat.Plan.DomainMap.Depends
use mmat.Deliver.DeliveryGraph.{
  DeliveryBatchProgress, DeliveryJobStatus, pending, running, cycle_detected, duplicate_node,
  DeliveryNode, DeliveryBatch, DeliveryGraph, new_node, add_node, would_create_cycle,
  add_dependency, set_status, set_error,
}
use mmat.Deliver.DeliveryGraph.Cycles.{dependency_edges, would_create_cycle_iff}
use mmat.Deliver.DeliveryGraph.Valid.{
  IsClosedGraph, IsValidGraph, IsAdded, IsAddable, added, add_node-IsAdded, add_node-IsValidGraph,
  add_dependency_ok_iff, add_dependency-IsValidGraph,
}
use mmat.Deliver.Progress.{progress, tally}
use mmat.Deliver.Progress.Totals.{
  nodes_with, same_status, progress-set_status, progress-completed_batches,
}
use mmat.Deliver.Batches.{compute_batches, from_domain_tree, advance_batch}
use mmat.Deliver.Batches.Cyclic.{Schedules, compute_batches_lem}
use mmat.Deliver.Batches.FromTree.{IsLeafGraph, from_domain_tree_lem}

program : Unit {0}
unfolding add_node would_create_cycle add_dependency compute_batches from_domain_tree set_status
    set_error advance_batch progress
program = tt

abbrev node : ℕ → List ℕ → DeliveryNode
node id deps = record { domain_node_id = id; dependencies = deps; status = pending; error = none }

-- A diamond: 4 after 2 and 3, both after 1.
abbrev diamond : DeliveryGraph
diamond = record {
  nodes =
      (4, node 4 (2 ∷ 3 ∷ [])) ∷ (1, node 1 []) ∷ (2, node 2 (1 ∷ [])) ∷ (3, node 3 (1 ∷ [])) ∷ [];
  batches = [];
  active_batch_index = none;
}

abbrev diamond_batches : List DeliveryBatch
diamond_batches =
    record { index = 0; nodes = 1 ∷ [] }
    ∷ record { index = 1; nodes = 2 ∷ 3 ∷ [] }
    ∷ record { index = 2; nodes = 4 ∷ [] }
    ∷ []

three_batches : compute_batches diamond ≡ some (ok (record diamond { batches = diamond_batches }))
unfolding program
three_batches = refl

cycle_refused : add_dependency 1 4 diamond ≡ err cycle_detected
unfolding program
cycle_refused = refl

abbrev loop : DeliveryGraph
loop = record {
  nodes = (1, node 1 (2 ∷ [])) ∷ (2, node 2 (1 ∷ [])) ∷ [];
  batches = [];
  active_batch_index = none;
}

cycle_detected_in_loop : compute_batches loop ≡ some (err cycle_detected)
unfolding program
cycle_detected_in_loop = refl

abbrev pair : DeliveryGraph
pair = record {
  nodes = (1, node 1 []) ∷ (2, node 2 (1 ∷ [])) ∷ [];
  batches = record { index = 0; nodes = 1 ∷ [] } ∷ record { index = 1; nodes = 2 ∷ [] } ∷ [];
  active_batch_index = some 0;
}

pair_edges : (a b : ℕ) → b ∈ dependency_edges pair a → (a ≡ 2) × (b ≡ 1)
pair_edges a b e = ground (arith, ==_iff 2 a, ==_iff 1 a, ==_iff 1 b)

pair-IsClosedGraph : IsClosedGraph pair
pair-IsClosedGraph = record {
  nodup = (refl, (refl, tt));
  known = λ n m h. ground (arith, pair_edges n m h, ==_iff 1 m);
}

pair-IsAcyclic : IsAcyclic (dependency_edges pair)
pair-IsAcyclic a (b, e, p) = elim (Reach-cases p) [
  | inl same ↦ absurd (omega (arith, pair_edges a b e, same))
  | inr (c, f, q) ↦ absurd (omega (arith, pair_edges a b e, pair_edges b c f))
]

compute_batches_lem_example :
    (IsAcyclic (dependency_edges pair) × Schedules pair)
    ⊎ ((¬ (IsAcyclic (dependency_edges pair))) × (compute_batches pair ≡ some (err cycle_detected)))
compute_batches_lem_example = compute_batches_lem pair pair-IsClosedGraph

would_create_cycle_iff_example :
    (would_create_cycle 1 2 pair ≡ true → Reach (dependency_edges pair) 2 1)
    × (Reach (dependency_edges pair) 2 1 → would_create_cycle 1 2 pair ≡ true)
would_create_cycle_iff_example = would_create_cycle_iff 1 2 pair

abbrev triple : DeliveryGraph
triple = record pair { nodes = pair.nodes ++ (3, new_node 3) ∷ [] }

triple-IsValidGraph : IsValidGraph triple
unfolding program
triple-IsValidGraph = add_node-IsValidGraph 3 pair triple refl (pair-IsClosedGraph, pair-IsAcyclic)

add_node-IsAdded_example :
    (((known : DeliveryNode) × (Map.get triple.nodes 4 ≡ some known))
      × (add_node 4 triple ≡ err (duplicate_node 4)))
    ⊎ ((Map.get triple.nodes 4 ≡ none)
        × ((more : DeliveryGraph) × (add_node 4 triple ≡ ok more) × IsAdded 4 triple more))
add_node-IsAdded_example = add_node-IsAdded 4 triple triple-IsValidGraph

duplicate_refused : add_node 3 triple ≡ err (duplicate_node 3)
unfolding program
duplicate_refused = refl

add_dependency_ok_iff_example :
    (add_dependency 3 2 triple ≡ ok (added 3 2 triple) → IsAddable 3 2 triple)
    × (IsAddable 3 2 triple → add_dependency 3 2 triple ≡ ok (added 3 2 triple))
add_dependency_ok_iff_example = add_dependency_ok_iff 3 2 triple

add_dependency-IsValidGraph_example : IsValidGraph (added 3 2 triple)
unfolding program
add_dependency-IsValidGraph_example =
    add_dependency-IsValidGraph 3 2 triple (added 3 2 triple) refl triple-IsValidGraph

progress-set_status_example :
    ((progress pair).succeeded_nodes
        + (progress pair).failed_nodes
        + (progress pair).pending_nodes
        + (progress pair).running_nodes
      ≡ (progress pair).total_nodes)
    × ((progress (set_status 2 running pair)).total_nodes ≡ (progress pair).total_nodes)
    × ((status : DeliveryJobStatus)
        → nodes_with status (progress (set_status 2 running pair)) + same_status pending status
          ≡ nodes_with status (progress pair) + same_status running status)
progress-set_status_example = progress-set_status 2 running pair (node 2 (1 ∷ [])) refl

progress-completed_batches_example :
    (progress pair).completed_batches
    ≡ tally (λ (batch : DeliveryBatchProgress). batch.completed) (progress pair).batches
progress-completed_batches_example =
    progress-completed_batches pair
      (λ a h. ground (arith, ==_iff 1 a), (λ a h. ground (arith, ==_iff 2 a), tt))

abbrev domain_node : ℕ → List ℕ → List ℕ → DomainNode
domain_node id children deps = record (new_root id "node" "") {
  children = children;
  dependencies = deps;
}

-- A root with two leaves, the second after the first and after the root.
abbrev tree : DomainTree
tree = record {
  root = 10;
  nodes =
      (10, domain_node 10 (11 ∷ 12 ∷ []) [])
      ∷ (11, domain_node 11 [] [])
      ∷ (12, domain_node 12 [] (11 ∷ 10 ∷ []))
      ∷ [];
  config = record { max_depth = 3; max_cascade_depth = 3 };
  big_picture = none;
}

tree_edges : (a b : ℕ) → b ∈ Depends.dependency_edges tree a → (a ≡ 12) × (b ≢ 12)
tree_edges a b e =
    ground (arith, ==_iff 10 a, ==_iff 11 a, ==_iff 12 a, ==_iff 11 b, ==_iff 10 b, ==_iff 12 b)

tree-IsAcyclic : IsAcyclic (Depends.dependency_edges tree)
tree-IsAcyclic a (b, e, p) = elim (Reach-cases p) [
  | inl same ↦ absurd ((tree_edges a b e).1 (same ∙ (tree_edges a b e).0))
  | inr (c, f, q) ↦ absurd ((tree_edges a b e).1 (tree_edges b c f).0)
]

from_domain_tree_lem_example :
    (graph : DeliveryGraph) × (from_domain_tree tree ≡ some (ok graph)) × IsLeafGraph tree graph
from_domain_tree_lem_example =
    from_domain_tree_lem tree (refl, (refl, (refl, tt))) (refl, (refl, (refl, tt))) tree-IsAcyclic
