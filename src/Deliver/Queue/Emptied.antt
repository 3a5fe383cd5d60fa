-- ===== src/Deliver/Queue/Emptied.antt =====
-- What `execute_delivery_graph` of src/deliver/queue.rs leaves of a project's pending jobs.
use mmat.Prelude.{ℕ, ◌+◌, ◌-◌, ◌≤◌, ◌≡◌, true, List, [], ◌∷◌, length}
use mmat.Deliver.DeliveryGraph.{DeliveryBatch, DeliveryGraph}
use mmat.Deliver.Queue.{ProjectId, Rows}
use mmat.Deliver.Queue.Worker.{World}
use mmat.Deliver.Queue.Columns.{ids, waiting}
use mmat.Deliver.Queue.Futures.{is_running_at}

abbrev pub number_of_nodes : List DeliveryBatch → ℕ
number_of_nodes [] = 0
number_of_nodes (batch ∷ batches) = length batch.nodes + number_of_nodes batches

module _ (project_id : ProjectId) (world : World) where
  -- What is left of the table.
  pub record IsExecuted (count : ℕ) (before after : Rows) : Type 0 where
    pub same_ids : ids after ≡ ids before
    pub fewer : waiting project_id after ≤ waiting project_id before - count
    pub none_left_running :
        (id : ℕ) → is_running_at id after ≡ true → is_running_at id before ≡ true
