-- ===== src/Deliver/Queue.antt =====
-- The build queue: src/deliver/queue.rs, and `DesignHandoff` of src/plan/mod.rs. The table
-- `build_jobs` is the list of its rows in the order of insertion; the statements on it are written
-- out, with ties of `ORDER BY created_at` in that order. Job ids and project ids are only compared,
-- so that numbers stand for them. The clock and the generated ids are arguments. The
-- proofs are in the modules below.
pub mod Worker
pub mod Columns
pub mod Oldest
pub mod Drain
pub mod Changes
pub mod Execute
pub mod Futures
pub mod Emptied
mod Tests
use mmat.Prelude.{
  ℕ, zero, suc, ◌+◌, String, Bool, true, false, ◌&&◌, Option, none, some, List, [], ◌∷◌, ◌++◌, map,
  Result, ok, err, leb, ◌==◌, if◌then◌else◌, retain, any, length,
}
use mmat.Plan.DomainMap.{DomainNodeId}

abbrev pub BuildJobId : Type 0
BuildJobId = ℕ

abbrev pub ProjectId : Type 0
ProjectId = ℕ

pub record DesignHandoff : Type 0 where
  pub design_run_id : ℕ
  pub prompt : String
  pub architect_plan : String
  pub knowledge_collections : List String

-- The errors of SQLite, of input and output and of serde_json are kept as their texts.
pub data BuildQueueError : Type 0 where
  sqlite io json : String → BuildQueueError
  not_found : BuildJobId → BuildQueueError
  unknown_status : String → BuildQueueError

pub data BuildJobStatus : Type 0 where
  pending running succeeded failed : BuildJobStatus

pub record BuildJob : Type 0 where
  pub id : BuildJobId
  pub project_id : ProjectId
  pub domain_node_id : Option DomainNodeId
  pub status : BuildJobStatus
  pub handoff : DesignHandoff
  pub error : Option String
  pub created_at : ℕ
  pub updated_at : ℕ
  pub started_at : Option ℕ
  pub completed_at : Option ℕ

pub data BuildWorkerEvent : Type 0 where
  queue_changed : ProjectId → List BuildJob → BuildWorkerEvent
  job_started : ProjectId → BuildJobId → BuildWorkerEvent
  job_finished : ProjectId → BuildJobId → BuildJobStatus → Option String → BuildWorkerEvent

abbrev pub as_str : BuildJobStatus → String
as_str pending = "pending"
as_str running = "running"
as_str succeeded = "succeeded"
as_str failed = "failed"

abbrev pub Rows : Type 0
Rows = List BuildJob

abbrev pub is_pending : BuildJobStatus → Bool
is_pending pending = true
is_pending _ = false

abbrev pub is_running : BuildJobStatus → Bool
is_running running = true
is_running _ = false

unfoldable pub enqueue_with_domain_node :
    BuildJobId
    → ℕ
    → ℕ
    → ProjectId
    → DesignHandoff
    → Option DomainNodeId
    → Rows
    → Result BuildQueueError (Rows × BuildJob)
enqueue_with_domain_node generated created updated project_id handoff domain_node_id rows =
    let job : BuildJob = record {
      id = generated;
      project_id = project_id;
      domain_node_id = domain_node_id;
      status = pending;
      handoff = handoff;
      error = none;
      created_at = created;
      updated_at = updated;
      started_at = none;
      completed_at = none;
    } in
    if any rows (λ row. row.id == generated)
    then err (sqlite "UNIQUE constraint failed: build_jobs.id")
    else ok (rows ++ job ∷ [], job)

unfoldable pub enqueue :
    BuildJobId → ℕ → ℕ → ProjectId → DesignHandoff → Rows → Result BuildQueueError (Rows × BuildJob)
unfolding enqueue_with_domain_node
enqueue generated created updated project_id handoff rows =
    enqueue_with_domain_node generated created updated project_id handoff none rows

-- `ORDER BY created_at ASC`
abbrev pub insert_by_age : BuildJob → Rows → Rows
insert_by_age job [] = job ∷ []
insert_by_age job (row ∷ rows) =
    if leb job.created_at row.created_at then job ∷ row ∷ rows else row ∷ insert_by_age job rows

abbrev pub order_by_age : Rows → Rows
order_by_age [] = []
order_by_age (row ∷ rows) = insert_by_age row (order_by_age rows)

abbrev pub list_for_project : ProjectId → Rows → Rows
list_for_project project_id rows = order_by_age (retain (λ row. row.project_id == project_id) rows)

-- `WHERE project_id = ?1 AND status = 'pending'`
abbrev pub is_waiting : ProjectId → BuildJob → Bool
is_waiting project_id row = row.project_id == project_id && is_pending row.status

-- `LIMIT 1`
abbrev pub first_row : Rows → Option BuildJob
first_row [] = none
first_row (row ∷ rows) = some row

abbrev pub next_pending : ProjectId → Rows → Option BuildJob
next_pending project_id rows = first_row (order_by_age (retain (is_waiting project_id) rows))

abbrev pub coalesce {ℓ} : {A : Type ℓ} → Option A → Option A → Option A
coalesce (some value) old = some value
coalesce none old = old

-- `SET status = ?2, error = COALESCE(?3, error), …`
abbrev pub set_columns :
    BuildJobStatus → Option String → Option ℕ → Option ℕ → ℕ → BuildJob → BuildJob
set_columns status error started_at completed_at updated_at row = record row {
  status = status;
  error = coalesce error row.error;
  started_at = coalesce started_at row.started_at;
  completed_at = coalesce completed_at row.completed_at;
  updated_at = updated_at;
}

-- `UPDATE build_jobs SET … WHERE id = ?1`
abbrev pub update_rows : BuildJobId → (BuildJob → BuildJob) → Rows → Rows
update_rows job_id change [] = []
update_rows job_id change (row ∷ rows) =
    (if row.id == job_id then change row else row) ∷ update_rows job_id change rows

abbrev pub update_status :
    BuildJobId
    → BuildJobStatus
    → Option String
    → Option ℕ
    → Option ℕ
    → ℕ
    → Rows
    → Result BuildQueueError Rows
update_status job_id status error started_at completed_at updated_at rows =
    if any rows (λ row. row.id == job_id)
    then ok (update_rows job_id (set_columns status error started_at completed_at updated_at) rows)
    else err (not_found job_id)

abbrev pub mark_running : ℕ → BuildJobId → Rows → Result BuildQueueError Rows
mark_running now job_id rows = update_status job_id running none (some now) none now rows

abbrev pub mark_succeeded : ℕ → BuildJobId → Rows → Result BuildQueueError Rows
mark_succeeded now job_id rows = update_status job_id succeeded none none (some now) now rows

abbrev pub mark_failed : ℕ → BuildJobId → String → Rows → Result BuildQueueError Rows
mark_failed now job_id error rows =
    update_status job_id failed (some error) none (some now) now rows

-- `WHERE project_id = ?1 AND status = 'running'`
abbrev pub is_stale : ProjectId → BuildJob → Bool
is_stale project_id row = row.project_id == project_id && is_running row.status

abbrev pub recover_rows : ProjectId → ℕ → Rows → Rows
recover_rows project_id now [] = []
recover_rows project_id now (row ∷ rows) =
    (if is_stale project_id row
      then record row { status = pending; error = none; started_at = none; updated_at = now }
      else row)
    ∷ recover_rows project_id now rows

-- The second component is the number of rows changed.
abbrev pub recover_stale_running : ProjectId → ℕ → Rows → Rows × ℕ
recover_stale_running project_id now rows =
    (recover_rows project_id now rows, length (retain (is_stale project_id) rows))
