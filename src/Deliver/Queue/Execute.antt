-- ===== src/Deliver/Queue/Execute.antt =====
-- `execute_delivery_graph` of src/deliver/queue.rs. The futures of a batch run side by side; what
-- they do to the table is modelled in the order in which they finish, which is an argument.
use mmat.Prelude.{ℕ, suc, ◌+◌, Option, none, some, List, [], ◌∷◌, ◌++◌, Result, ok, err}
use mmat.Plan.DomainMap.{DomainNodeId}
use mmat.Deliver.DeliveryGraph.{DeliveryBatch, DeliveryGraph}
use mmat.Deliver.Queue.{
  ProjectId, BuildQueueError, BuildJob, BuildWorkerEvent, job_started, queue_changed, Rows,
  list_for_project, next_pending, mark_running,
}
use mmat.Deliver.Queue.Worker.{World, mark_result, finished_event}

-- A job that was started, with its number.
abbrev pub Future : Type 0
Future = ℕ × BuildJob

-- The order in which the futures of a batch finish.
abbrev pub FinishOrder : Type 0
FinishOrder = List Future → List Future

-- The table, the events so far, and the number of the next job.
pub record Progress : Type 0 where
  pub rows : Rows
  pub events : List BuildWorkerEvent
  pub jobs : ℕ

abbrev pub emit : List BuildWorkerEvent → Progress → Progress
emit more progress = record progress { events = progress.events ++ more }

-- The `for _node_id in &batch.nodes` loop: the futures it has pushed.
unfoldable pub start_jobs :
    ProjectId
    → World
    → List DomainNodeId
    → List Future
    → Progress
    → Result BuildQueueError (List Future) × Progress
start_jobs project_id world [] futures progress = (ok futures, progress)
start_jobs project_id world (_ ∷ node_ids) futures progress =
    elim (next_pending project_id progress.rows) [
      | none ↦ start_jobs project_id world node_ids futures progress
      | some job ↦
          elim (mark_running (world.now (progress.jobs + progress.jobs)) job.id progress.rows) [
            | err error ↦ (err error, progress)
            | ok rows ↦
                start_jobs project_id world node_ids (futures ++ (progress.jobs, job) ∷ [])
                  (record {
                    rows = rows;
                    events =
                        progress.events
                        ++ job_started project_id job.id
                          ∷ queue_changed project_id (list_for_project project_id rows)
                          ∷ [];
                    jobs = suc progress.jobs;
                  })
          ]
    ]

-- The bodies of the futures; `let _ = …` drops an error of the table.
unfoldable pub finish_jobs : ProjectId → World → List Future → Progress → Progress
finish_jobs project_id world [] progress = progress
finish_jobs project_id world ((n, job) ∷ futures) progress =
    let rows : Rows = elim (mark_result world n job progress.rows) [
      | ok rows ↦ rows
      | err _ ↦ progress.rows
    ] in
    finish_jobs project_id world futures (record progress {
      rows = rows;
      events =
          progress.events
          ++ finished_event world n project_id job
            ∷ queue_changed project_id (list_for_project project_id rows)
            ∷ [];
    })

-- The loop over the batches, with the active batch at its end.
unfoldable pub execute_batches :
    ProjectId
    → World
    → FinishOrder
    → List DeliveryBatch
    → Option ℕ
    → Progress
    → Result BuildQueueError (Unit {0}) × Option ℕ × Progress
unfolding start_jobs finish_jobs
execute_batches project_id world order [] active progress = (ok tt, none, progress)
execute_batches project_id world order (batch ∷ batches) active progress =
    let noted =
      emit (queue_changed project_id (list_for_project project_id progress.rows) ∷ []) progress in
    let (started, progress') = start_jobs project_id world batch.nodes [] noted in
    elim started [
      | err error ↦ (err error, some batch.index, progress')
      | ok futures ↦
          execute_batches project_id world order batches (some batch.index)
            (finish_jobs project_id world (order futures) progress')
    ]

unfoldable pub execute_delivery_graph :
    ProjectId
    → World
    → FinishOrder
    → Rows
    → DeliveryGraph
    → Result BuildQueueError (Unit {0}) × DeliveryGraph × Progress
unfolding execute_batches
execute_delivery_graph project_id world order rows graph =
    let (result, active, progress) =
      execute_batches project_id world order graph.batches graph.active_batch_index
        (record { rows = rows; events = []; jobs = 0 }) in
    (result, record graph { active_batch_index = active }, progress)
