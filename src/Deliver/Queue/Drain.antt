-- ===== src/Deliver/Queue/Drain.antt =====
-- What the worker loops of src/deliver/queue.rs leave in the table.
use mmat.Prelude.{
  ℕ, zero, suc, ◌+◌, ◌<◌, ◌≡◌, refl, sym, subst, ap, ◌∙◌, inl, inr, String, true, false, Option,
  none, some, List, [], ◌∷◌, arith, ◌==◌, ==_iff, if◌then◌else◌, any, Result, ok, Bool-cases,
  Option-cases, Result-cases,
}
use mathlib.Core.Option
use mmat.Prelude.Nodup.{IsNodup}
use mmat.Deliver.Queue.{
  BuildJob, BuildQueueError, BuildWorkerEvent, running, succeeded, failed, Rows, is_waiting,
  next_pending, set_columns, update_rows, mark_running,
}
use mmat.Deliver.Queue.Worker.{
  World, mark_result, drain_project_queue, drain_project_queue_with_events,
}
use mmat.Deliver.Queue.Columns.{
  ids, get_job, waiting, any-get_job, ids-update_rows, get_job-update_rows, waiting-update_rows_le,
  waiting-update_rows_lt,
}
use mmat.Deliver.Queue.Oldest.{next_pending-none, IsNext, next_pending-IsNext}

-- What a round does to the row of its job.
abbrev pub start_columns : World → ℕ → BuildJob → BuildJob
start_columns world n row =
    set_columns running none (some (world.now (n + n))) none (world.now (n + n)) row

abbrev pub columns_of : Option String → ℕ → BuildJob → BuildJob
columns_of none now row = set_columns succeeded none none (some now) now row
columns_of (some error) now row = set_columns failed (some error) none (some now) now row

abbrev pub result_columns : World → ℕ → BuildJob → BuildJob → BuildJob
result_columns world n job row = columns_of (world.run n job) (world.now (n + n + 1)) row

-- The row as the columns of round `n` leave it.
abbrev pub after_run : World → ℕ → BuildJob → BuildJob
after_run world n job = result_columns world n job (start_columns world n job)

-- The row that a run of a job should leave, its own columns written out: the times are those of the
-- clock when the run starts and when it ends, and the engine's message replaces an older one.
abbrev pub ran_row : World → ℕ → BuildJob → BuildJob
ran_row world n job = record {
  id = job.id;
  project_id = job.project_id;
  domain_node_id = job.domain_node_id;
  handoff = job.handoff;
  status = (elim (world.run n job) [ none ↦ succeeded | some message ↦ failed ]);
  error = (elim (world.run n job) [ none ↦ job.error | some message ↦ some message ]);
  created_at = job.created_at;
  updated_at = world.now (n + n + 1);
  started_at = some (world.now (n + n));
  completed_at = some (world.now (n + n + 1));
}

after_run_lem :
    (world : World) (n : ℕ) (job : BuildJob) → after_run world n job ≡ ran_row world n job
after_run_lem world n job = elim (Option-cases (world.run n job)) [
  | inl e ↦ rw (after_run, ran_row, e) refl
  | inr (error, e) ↦ rw (after_run, ran_row, e) refl
]

pub result_columns-idle :
    (world : World) (n project_id : ℕ) (job row : BuildJob)
    → is_waiting project_id (result_columns world n job row) ≡ false
result_columns-idle world n project_id job row = elim (Option-cases (world.run n job)) [
  | inl e ↦ ground arith
  | inr (error, e) ↦ ground arith
]

pub result_columns-id :
    (world : World) (n : ℕ) (job row : BuildJob) → (result_columns world n job row).id ≡ row.id
result_columns-id world n job row = elim (Option-cases (world.run n job)) [
  | inl e ↦ ground arith
  | inr (error, e) ↦ ground arith
]

module _ (project_id : ℕ) (world : World) where
  -- One round on the table.
  module _ (n : ℕ) (job : BuildJob) (rows : Rows) where
    abbrev started : Rows
    started = update_rows job.id (start_columns world n) rows

    abbrev finished : Rows
    finished = update_rows job.id (result_columns world n job) started

    mark_running-started :
        get_job job.id rows ≡ some job → mark_running (world.now (n + n)) job.id rows ≡ ok started
    mark_running-started e = ground (arith, any-get_job job.id rows job)

    get_job-started :
        (j : ℕ)
        → get_job j started ≡ (
            if job.id == j
            then Option.map (start_columns world n) (get_job j rows)
            else get_job j rows)
    get_job-started j = get_job-update_rows job.id (start_columns world n) (λ row. refl) j rows

    get_job-finished :
        get_job job.id rows ≡ some job
        → (j : ℕ)
        → get_job j finished
          ≡ (if job.id == j then some (after_run world n job) else get_job j rows)
    get_job-finished e j = ground (
      arith,
      get_job-started j,
      get_job-update_rows job.id (result_columns world n job) (result_columns-id world n job) j
          started,
      ==_iff job.id j,
    )

    mark_result-finished :
        get_job job.id rows ≡ some job → mark_result world n job started ≡ ok finished
    mark_result-finished e =
        let there : any started (λ row. row.id == job.id) ≡ true =
          any-get_job job.id started (start_columns world n job)
            (ground (arith, get_job-started job.id, ==_iff job.id job.id)) in
        let update : Option String → Result BuildQueueError Rows =
          λ o. ok (update_rows job.id (columns_of o (world.now (n + n + 1))) started) in
        elim (Option-cases (world.run n job)) [
          | inl h ↦ rw (mark_result, h, there) (ap update (sym h))
          | inr (error, h) ↦ rw (mark_result, h, there) (ap update (sym h))
        ]

    ids-finished : ids finished ≡ ids rows
    ids-finished =
        ids-update_rows job.id (result_columns world n job) (result_columns-id world n job) started
        ∙ ids-update_rows job.id (start_columns world n) (λ row. refl) rows

    waiting-finished :
        get_job job.id rows ≡ some job
        → is_waiting project_id job ≡ true
        → waiting project_id finished < waiting project_id rows
    waiting-finished e w = omega (
      arith,
      waiting-update_rows_lt job.id (start_columns world n) (λ row. refl) project_id
          (λ row. ground arith) rows job e w,
      waiting-update_rows_le job.id (result_columns world n job) (result_columns-id world n job)
          project_id (λ row. result_columns-idle world n project_id job row) started,
    )

  -- What a drain should leave.
  pub record IsDrained (before after : Rows) : Type 0 where
    pub none_waiting : next_pending project_id after ≡ none
    pub same_ids : ids after ≡ ids before
    pub ran :
        (id : ℕ) (job : BuildJob)
        → get_job id before ≡ some job
        → is_waiting project_id job ≡ true
        → (n : ℕ) × (get_job id after ≡ some (ran_row world n job))
    pub kept :
        (id : ℕ) (job : BuildJob)
        → get_job id before ≡ some job
        → is_waiting project_id job ≡ false
        → get_job id after ≡ some job

  IsDrained-round :
      (n : ℕ) (job : BuildJob) (rows after : Rows)
      → IsNext project_id rows job
      → IsDrained (finished n job rows) after
      → IsDrained rows after
  IsDrained-round n job rows after next d = record {
    none_waiting = d.none_waiting;
    same_ids = d.same_ids ∙ ids-finished n job rows;
    ran = λ id other found w. elim (Bool-cases (job.id == id)) [
      | inl this ↦ (
        n,
        d.kept id (after_run world n other)
              (ground
                (arith, next.stored, get_job-finished n job rows next.stored id, ==_iff job.id id))
              (result_columns-idle world n project_id other (start_columns world n other))
            ∙ ap some (after_run_lem world n other),
      )
      | inr away ↦ d.ran id other (ground (arith, get_job-finished n job rows next.stored id)) w
    ];
    kept = λ id other found w. elim (Bool-cases (job.id == id)) [
      | inl this ↦ absurd (ground (arith, next.stored, next.waits, ==_iff job.id id))
      | inr away ↦ d.kept id other (ground (arith, get_job-finished n job rows next.stored id)) w
    ];
  }

  -- With unique ids and fuel for one round more than there are pending jobs of the project,
  -- `drain_project_queue` ends without an error. Afterwards no job of the project is pending. The
  -- row of each job that was pending is what one run leaves of it: it has succeeded, or failed with the
  -- message of the engine, with the times at which the run started and ended; its other columns,
  -- and without a message its error, are as before. All other rows are as before.
  pub drain_project_queue_lem :
      (fuel n : ℕ) (rows : Rows)
      → IsNodup (ids rows)
      → waiting project_id rows < fuel
      → (after : Rows) × (drain_project_queue fuel project_id world n rows ≡ some (ok tt, after))
        × IsDrained rows after
  unfolding drain_project_queue
  drain_project_queue_lem zero n rows u h = absurd (omega arith)
  drain_project_queue_lem (suc fuel) n rows u h =
      elim (Option-cases (next_pending project_id rows)) [
        | inl e ↦ (
          rows,
          rw (drain_project_queue, e) refl,
          record {
            none_waiting = e;
            same_ids = refl;
            ran = λ id job found w. absurd (
                ground
                  (arith, none_waits id job rows (next_pending-none project_id rows e) found w));
            kept = λ id job found w. found;
          },
        )
        | inr (job, e) ↦
            let next = next_pending-IsNext project_id rows job u e in
            let (after, ran, d) =
              drain_project_queue_lem fuel (suc n) (finished n job rows)
                (subst IsNodup (sym (ids-finished n job rows)) u)
                (omega (arith, waiting-finished n job rows next.stored next.waits)) in
            (
              after,
              rw
                  (
                    drain_project_queue,
                    e,
                    mark_running-started n job rows next.stored,
                    mark_result-finished n job rows next.stored,
                  )
                  ran,
              IsDrained-round n job rows after next d,
            )
      ]
    where
      none_waits :
          (id : ℕ) (job : BuildJob) (xs : Rows)
          → waiting project_id xs ≡ 0
          → get_job id xs ≡ some job
          → is_waiting project_id job ≡ true
          → ⊥
      none_waits id job [] z found w = absurd (ground arith)
      none_waits id job (x ∷ xs) z found w = absurd (ground (arith, none_waits id job xs))

  -- With the same fuel, `drain_project_queue_with_events` leaves the same table and returns the same
  -- result as `drain_project_queue`, or both run out of fuel.
  pub drain_project_queue_with_events-rows :
      (fuel n : ℕ) (rows : Rows) (events : List BuildWorkerEvent)
      → Option.map
          (λ result. (result.0, result.1))
          (drain_project_queue_with_events fuel project_id world n rows events)
        ≡ drain_project_queue fuel project_id world n rows
  unfolding drain_project_queue drain_project_queue_with_events
  drain_project_queue_with_events-rows zero n rows events = refl
  drain_project_queue_with_events-rows (suc fuel) n rows events =
      elim (Option-cases (next_pending project_id rows)) [
        | inl e ↦ rw (drain_project_queue, drain_project_queue_with_events, e) refl
        | inr (job, e) ↦ elim (Result-cases (mark_running (world.now (n + n)) job.id rows)) [
          | inl (error, h) ↦ rw (drain_project_queue, drain_project_queue_with_events, e, h) refl
          | inr (rows', h) ↦ elim (Result-cases (mark_result world n job rows')) [
            | inl (error, k) ↦
                rw (drain_project_queue, drain_project_queue_with_events, e, h, k) refl
            | inr (rows'', k) ↦
                rw (drain_project_queue, drain_project_queue_with_events, e, h, k)
                  (drain_project_queue_with_events-rows fuel (suc n) rows'' _)
          ]
        ]
      ]
