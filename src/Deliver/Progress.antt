-- ===== src/Deliver/Progress.antt =====
-- The progress summary of a delivery graph: `progress` of src/deliver/delivery_graph.rs.
pub mod Totals
use mmat.Prelude.{ℕ, Bool, true, false, none, some, List, [], ◌∷◌, map, ◌==◌, length, retain, all}
use mmat.Prelude.Map
use mmat.Prelude.Map.{Map}
use mmat.Plan.DomainMap.{DomainNodeId}
use mmat.Deliver.DeliveryGraph.{
  DeliveryNodeProgress, DeliveryBatchProgress, DeliveryProgress, DeliveryJobStatus, pending,
  running, succeeded, failed, DeliveryNode, DeliveryBatch, DeliveryGraph,
}

abbrev is_pending : DeliveryNode → Bool
is_pending node = elim node.status [ pending ↦ true | _ ↦ false ]

abbrev is_running : DeliveryNode → Bool
is_running node = elim node.status [ running ↦ true | _ ↦ false ]

abbrev is_succeeded : DeliveryNode → Bool
is_succeeded node = elim node.status [ succeeded ↦ true | _ ↦ false ]

abbrev is_failed : DeliveryNode → Bool
is_failed node = elim node.status [ failed ↦ true | _ ↦ false ]

-- `matches!(status, Succeeded | Failed)`
abbrev pub is_terminal : DeliveryJobStatus → Bool
is_terminal succeeded = true
is_terminal failed = true
is_terminal _ = false

-- One counter of the loop over `self.nodes.values()`.
abbrev pub tally {ℓ} : {A : Type ℓ} → (A → Bool) → List A → ℕ
tally p xs = length (retain p xs)

-- The filter that `completed_batches` counts by.
abbrev pub batch_is_completed : Map DeliveryNode → DeliveryBatch → Bool
batch_is_completed nodes batch =
    all batch.nodes (λ node_id. elim (Map.get nodes node_id) [
      | none ↦ false
      | some node ↦ is_terminal node.status
    ])

-- `batch.nodes.iter().filter_map(…)`
abbrev pub node_progress : Map DeliveryNode → List DomainNodeId → List DeliveryNodeProgress
node_progress nodes [] = []
node_progress nodes (node_id ∷ node_ids) =
    let rest = node_progress nodes node_ids in
    elim (Map.get nodes node_id) [
      | none ↦ rest
      | some node ↦
          record { domain_node_id = node_id; status = node.status; error = node.error } ∷ rest
    ]

abbrev pub batch_progress : DeliveryGraph → DeliveryBatch → DeliveryBatchProgress
batch_progress graph batch =
    let nodes = node_progress graph.nodes batch.nodes in
    record {
      index = batch.index;
      active = elim graph.active_batch_index [ none ↦ false | some index ↦ index == batch.index ];
      completed = all nodes (λ node. is_terminal node.status);
      nodes = nodes;
    }

unfoldable pub progress : DeliveryGraph → DeliveryProgress
progress graph =
    let nodes = Map.values graph.nodes in
    record {
      total_batches = length graph.batches;
      active_batch_index = graph.active_batch_index;
      completed_batches = tally (batch_is_completed graph.nodes) graph.batches;
      total_nodes = length graph.nodes;
      succeeded_nodes = tally is_succeeded nodes;
      failed_nodes = tally is_failed nodes;
      pending_nodes = tally is_pending nodes;
      running_nodes = tally is_running nodes;
      batches = map (batch_progress graph) graph.batches;
    }
