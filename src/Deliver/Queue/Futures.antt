-- ===== src/Deliver/Queue/Futures.antt =====
-- One batch of `execute_delivery_graph` of src/deliver/queue.rs: the jobs that are started, and the
-- ends of their futures.
use mmat.Prelude.{
  ℕ, suc, ◌+◌, ◌-◌, ◌≤◌, ◌≡◌, refl, sym, subst, ap, ◌∙◌, inl, inr, true, false, Option, none, some,
  List, [], ◌∷◌, ◌++◌, ◌||◌, Bool, String, arith, ==_iff, ==_refl, ◌==◌, any, length, ok, err,
  Bool-cases, Option-cases,
}
use mmat.Prelude.Nodup.{IsNodup}
use mmat.Deliver.Queue.{
  ProjectId, BuildJob, job_started, queue_changed, Rows, is_running, list_for_project, next_pending,
  update_rows, mark_running,
}
use mmat.Deliver.Queue.Worker.{World, mark_result}
use mmat.Deliver.Queue.Columns.{
  ids, get_job, waiting, any-get_job, get_job-update_rows, ids-update_rows, waiting-update_rows_le,
  waiting-update_rows_lt,
}
use mmat.Deliver.Queue.Oldest.{next_pending-none, next_pending-IsNext}
use mmat.Deliver.Queue.Drain.{
  start_columns, columns_of, result_columns, result_columns-id, result_columns-idle,
}
use mmat.Deliver.Queue.Execute.{Future, Progress, start_jobs, finish_jobs}

-- Whether a future is for the job of this id, and whether this job is running.
abbrev pub has_future : List Future → ℕ → Bool
has_future futures id = any futures (λ future. future.1.id == id)

abbrev pub is_running_at : ℕ → Rows → Bool
is_running_at id rows = elim (get_job id rows) [ none ↦ false | some row ↦ is_running row.status ]

has_future-append :
    (futures : List Future) (n : ℕ) (job : BuildJob) (id : ℕ)
    → has_future (futures ++ (n, job) ∷ []) id ≡ (has_future futures id || job.id == id)
has_future-append [] n job id = ground arith
has_future-append (first ∷ futures) n job id = ground (arith, has_future-append futures n job id)

module _ (project_id : ProjectId) (world : World) where
  -- The table keeps its ids, and this many of its pending jobs are gone, if it had them.
  pub record IsReduced (count : ℕ) (before after : Rows) : Type 0 where
    pub same_ids : ids after ≡ ids before
    pub fewer : waiting project_id after ≤ waiting project_id before - count

  -- The futures are kept, and only their jobs have been set to running.
  pub record IsStarted (futures : List Future) (before : Rows) (more : List Future) (after : Rows)
      : Type 0 where
    pub kept : (id : ℕ) → has_future futures id ≡ true → has_future more id ≡ true
    pub running :
        (id : ℕ)
        → is_running_at id after ≡ true
        → has_future more id ≡ false
        → is_running_at id before ≡ true

  pub start_jobs-IsReduced :
      (nodes : List ℕ) (futures : List Future) (progress : Progress)
      → IsNodup (ids progress.rows)
      → (more : List Future) × (after : Progress) × (start_jobs project_id world nodes futures
            progress
          ≡ (ok more, after))
        × IsReduced (length nodes) progress.rows after.rows
        × IsStarted futures progress.rows more after.rows
  unfolding start_jobs
  start_jobs-IsReduced [] futures progress u = (
    futures,
    progress,
    refl,
    record { same_ids = refl; fewer = omega arith },
    record { kept = λ id h. h; running = λ id r h. r },
  )
  start_jobs-IsReduced (node ∷ nodes) futures progress u =
      elim (Option-cases (next_pending project_id progress.rows)) [
        | inl e ↦
            let (more, after, started, r, s) = start_jobs-IsReduced nodes futures progress u in
            (
              more,
              after,
              rw (start_jobs, e) started,
              record {
                same_ids = r.same_ids;
                fewer = omega (arith, r.fewer, next_pending-none project_id progress.rows e);
              },
              s,
            )
        | inr (job, e) ↦
            let n = progress.jobs in
            let next = next_pending-IsNext project_id progress.rows job u e in
            let rows : Rows = update_rows job.id (start_columns world n) progress.rows in
            let marked : mark_running (world.now (n + n)) job.id progress.rows ≡ ok rows =
              ground (arith, any-get_job job.id progress.rows job, next.stored) in
            let same : ids rows ≡ ids progress.rows =
              ids-update_rows job.id (start_columns world n) (λ row. refl) progress.rows in
            let (more, after, started, r, s) =
              start_jobs-IsReduced nodes (futures ++ (n, job) ∷ [])
                (record {
                  rows = rows;
                  events =
                      progress.events
                      ++ job_started project_id job.id
                        ∷ queue_changed project_id (list_for_project project_id rows)
                        ∷ [];
                  jobs = suc n;
                })
                (subst IsNodup (sym same) u) in
            (
              more,
              after,
              rw (start_jobs, e, marked) started,
              record {
                same_ids = r.same_ids ∙ same;
                fewer = omega (
                  arith,
                  r.fewer,
                  waiting-update_rows_lt job.id (start_columns world n) (λ row. refl) project_id
                      (λ row. ground arith) progress.rows job next.stored next.waits,
                );
              },
              record {
                kept = λ id h. s.kept id (ground (arith, has_future-append futures n job id));
                running = λ id left away.
                    let here =
                      s.kept job.id
                        (ground (arith, has_future-append futures n job job.id, ==_refl job.id)) in
                    ground (
                      arith,
                      s.running id left away,
                      here,
                      ==_iff job.id id,
                      get_job-update_rows job.id (start_columns world n) (λ row. refl) id
                          progress.rows,
                    );
              },
            )
      ]

  abbrev update : ℕ → BuildJob → Rows → Option String → Rows
  update n job rows ended = update_rows job.id (columns_of ended (world.now (n + n + 1))) rows

  -- The end of one future.
  mark_result-cases :
      (n : ℕ) (job : BuildJob) (rows : Rows)
      → (elim (mark_result world n job rows) [ ok rows' ↦ rows' | err error ↦ rows ])
        ≡ (elim (any rows (λ row. row.id == job.id)) [
          | true ↦ update_rows job.id (result_columns world n job) rows
          | false ↦ rows
        ])
  mark_result-cases n job rows = elim (Option-cases (world.run n job)) [
    | inl e ↦ elim (Bool-cases (any rows (λ row. row.id == job.id))) [
      | inl f ↦ rw (mark_result, e, f) (ap (update n job rows) (sym e))
      | inr f ↦ rw (mark_result, e, f) refl
    ]
    | inr (error, e) ↦ elim (Bool-cases (any rows (λ row. row.id == job.id))) [
      | inl f ↦ rw (mark_result, e, f) (ap (update n job rows) (sym e))
      | inr f ↦ rw (mark_result, e, f) refl
    ]
  ]

  mark_result-IsReduced :
      (n : ℕ) (job : BuildJob) (rows : Rows)
      → IsReduced 0 rows
          (elim (mark_result world n job rows) [ ok rows' ↦ rows' | err error ↦ rows ])
  mark_result-IsReduced n job rows =
      subst (IsReduced 0 rows) (sym (mark_result-cases n job rows))
        (elim (Bool-cases (any rows (λ row. row.id == job.id))) [
          | inr f ↦ rw f (record { same_ids = refl; fewer = omega arith })
          | inl f ↦ rw f (record {
            same_ids =
                ids-update_rows job.id (result_columns world n job) (result_columns-id world n job)
                  rows;
            fewer = omega (
              arith,
              waiting-update_rows_le job.id (result_columns world n job)
                  (result_columns-id world n job) project_id
                  (λ row. result_columns-idle world n project_id job row) rows,
            );
          })
        ])

  result_columns-ended :
      (n : ℕ) (job row : BuildJob) → is_running (result_columns world n job row).status ≡ false
  result_columns-ended n job row = elim (Option-cases (world.run n job)) [
    | inl e ↦ ground arith
    | inr (error, e) ↦ ground arith
  ]

  -- A job that is running after the end of a future was running before, and it is another one.
  mark_result-ended :
      (n : ℕ) (job : BuildJob) (rows : Rows) (id : ℕ)
      → is_running_at id
          (elim (mark_result world n job rows) [ ok rows' ↦ rows' | err error ↦ rows ])
        ≡ true
      → (is_running_at id rows ≡ true) × ((job.id == id) ≡ false)
  mark_result-ended n job rows id left =
      let left' = subst (λ r. is_running_at id r ≡ true) (mark_result-cases n job rows) left in
      elim (Bool-cases (any rows (λ row. row.id == job.id))) [
        | inr f ↦ elim (Option-cases (get_job id rows)) [
          | inl g ↦ absurd (ground (arith, left', f, g))
          | inr (row, g) ↦ ground (arith, left', f, g, any-get_job id rows row, ==_iff job.id id)
        ]
        | inl f ↦ elim (Option-cases (get_job id rows)) [
          | inl g ↦ ground (
            arith,
            left',
            f,
            g,
            get_job-update_rows job.id (result_columns world n job) (result_columns-id world n job)
                id rows,
          )
          | inr (row, g) ↦ ground (
            arith,
            left',
            f,
            g,
            result_columns-ended n job row,
            get_job-update_rows job.id (result_columns world n job) (result_columns-id world n job)
                id rows,
          )
        ]
      ]

  pub finish_jobs-ended :
      (futures : List Future) (progress : Progress) (id : ℕ)
      → is_running_at id (finish_jobs project_id world futures progress).rows ≡ true
      → (is_running_at id progress.rows ≡ true) × (has_future futures id ≡ false)
  unfolding finish_jobs
  finish_jobs-ended [] progress id left = (left, refl)
  finish_jobs-ended ((n, job) ∷ futures) progress id left =
      let (rest, away) = finish_jobs-ended futures _ id left in
      let (before, other) = mark_result-ended n job progress.rows id rest in
      (before, rw (other, away) refl)

  pub finish_jobs-IsReduced :
      (futures : List Future) (progress : Progress)
      → IsReduced 0 progress.rows (finish_jobs project_id world futures progress).rows
  unfolding finish_jobs
  finish_jobs-IsReduced [] progress = record { same_ids = refl; fewer = omega arith }
  finish_jobs-IsReduced ((n, job) ∷ futures) progress =
      let first = mark_result-IsReduced n job progress.rows in
      let rest = finish_jobs-IsReduced futures _ in
      record {
        same_ids = rest.same_ids ∙ first.same_ids;
        fewer = omega (arith, first.fewer, rest.fewer);
      }
