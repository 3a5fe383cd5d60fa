-- ===== src/Deliver/Queue/Worker.antt =====
-- The worker loops of src/deliver/queue.rs. No other client writes to the table while a loop runs.
use mmat.Prelude.{
  ℕ, zero, suc, ◌+◌, String, Option, none, some, List, [], ◌∷◌, ◌++◌, Result, ok, err,
}
use mmat.Deliver.Queue.{
  ProjectId, BuildQueueError, BuildJob, BuildWorkerEvent, job_started, job_finished, queue_changed,
  succeeded, failed, Rows, list_for_project, next_pending, mark_running, mark_succeeded,
  mark_failed,
}

-- What drives the worker: the clock, read for the n-th time, and the engine, whose n-th run returns
-- an error message or succeeds.
pub record World : Type 0 where
  pub now : ℕ → ℕ
  pub run : ℕ → BuildJob → Option String

-- `match engine.run(&job).await { … }`, in round `n` of the loop.
abbrev pub mark_result : World → ℕ → BuildJob → Rows → Result BuildQueueError Rows
mark_result world n job rows = elim (world.run n job) [
  | none ↦ mark_succeeded (world.now (n + n + 1)) job.id rows
  | some error ↦ mark_failed (world.now (n + n + 1)) job.id error rows
]

-- The `while let` loop of `drain_project_queue` on fuel, from round `n`, with the table at its end;
-- `none` means that the fuel ran out.
unfoldable pub drain_project_queue :
    ℕ → ProjectId → World → ℕ → Rows → Option (Result BuildQueueError (Unit {0}) × Rows)
drain_project_queue zero project_id world n rows = none
drain_project_queue (suc fuel) project_id world n rows = elim (next_pending project_id rows) [
  | none ↦ some (ok tt, rows)
  | some job ↦ elim (mark_running (world.now (n + n)) job.id rows) [
    | err error ↦ some (err error, rows)
    | ok rows' ↦ elim (mark_result world n job rows') [
      | err error ↦ some (err error, rows')
      | ok rows'' ↦ drain_project_queue fuel project_id world (suc n) rows''
    ]
  ]
]

-- The event after a run.
abbrev pub finished_event : World → ℕ → ProjectId → BuildJob → BuildWorkerEvent
finished_event world n project_id job = elim (world.run n job) [
  | none ↦ job_finished project_id job.id succeeded none
  | some error ↦ job_finished project_id job.id failed (some error)
]

-- `drain_project_queue_with_events`, with the events emitted so far.
unfoldable pub drain_project_queue_with_events :
    ℕ
    → ProjectId
    → World
    → ℕ
    → Rows
    → List BuildWorkerEvent
    → Option (Result BuildQueueError (Unit {0}) × Rows × List BuildWorkerEvent)
drain_project_queue_with_events zero project_id world n rows events = none
drain_project_queue_with_events (suc fuel) project_id world n rows events =
    elim (next_pending project_id rows) [
      | none ↦ some (ok tt, rows, events)
      | some job ↦ elim (mark_running (world.now (n + n)) job.id rows) [
        | err error ↦ some (err error, rows, events)
        | ok rows' ↦
            let started =
              events
              ++ job_started project_id job.id
                ∷ queue_changed project_id (list_for_project project_id rows')
                ∷ [] in
            elim (mark_result world n job rows') [
              | err error ↦ some (err error, rows', started)
              | ok rows'' ↦ drain_project_queue_with_events fuel project_id world (suc n) rows'' (
                  started
                  ++ finished_event world n project_id job
                    ∷ queue_changed project_id (list_for_project project_id rows'')
                    ∷ [])
            ]
      ]
    ]
