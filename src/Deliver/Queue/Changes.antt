-- ===== src/Deliver/Queue/Changes.antt =====
-- `enqueue_with_domain_node` and `recover_stale_running` of src/deliver/queue.rs.
use mmat.Prelude.{
  ℕ, suc, ◌+◌, ◌≡◌, refl, false, ◌||◌, Option, none, some, [], ◌∷◌, ◌++◌, arith, ◌==◌, ==_iff,
  if◌then◌else◌, any, retain, length, ok, contains,
}
use mmat.Prelude.Nodup.{IsNodup}
use mmat.Deliver.Queue.{
  DesignHandoff, BuildJob, pending, Rows, is_waiting, is_stale, enqueue_with_domain_node,
  recover_stale_running,
}
use mmat.Deliver.Queue.Columns.{ids, get_job, waiting}

any-ids : (id : ℕ) (rows : Rows) → any rows (λ row. row.id == id) ≡ contains (ids rows) id
any-ids id [] = refl
any-ids id (row ∷ rows) = ground (arith, any-ids id rows)

ids-append :
    (rows : Rows) (job : BuildJob)
    → IsNodup (ids rows)
    → contains (ids rows) job.id ≡ false
    → IsNodup (ids (rows ++ job ∷ []))
ids-append [] job u new = (refl, tt)
ids-append (row ∷ rows) job u new =
    (ground (arith, u.0, apart rows), ids-append rows job u.1 (ground arith))
  where
    apart :
        (xs : Rows)
        → contains (ids (xs ++ job ∷ [])) row.id ≡ (contains (ids xs) row.id || job.id == row.id)
    apart [] = ground arith
    apart (x ∷ xs) = ground (arith, apart xs)

get_job-append :
    (rows : Rows) (job : BuildJob) (j : ℕ)
    → contains (ids rows) job.id ≡ false
    → get_job j (rows ++ job ∷ []) ≡ (if job.id == j then some job else get_job j rows)
get_job-append [] job j new = refl
get_job-append (row ∷ rows) job j new =
    ground
      (arith, get_job-append rows job j, ==_iff row.id j, ==_iff job.id j, ==_iff row.id job.id)

waiting-append :
    (project_id : ℕ) (rows : Rows) (job : BuildJob)
    → waiting project_id (rows ++ job ∷ [])
      ≡ waiting project_id rows + (if is_waiting project_id job then 1 else 0)
waiting-append project_id [] job = ground arith
waiting-append project_id (row ∷ rows) job = ground (arith, waiting-append project_id rows job)

module _ (generated created updated project_id : ℕ) (handoff : DesignHandoff)
    (domain_node_id : Option ℕ) (rows : Rows) where
  -- What adding a job should do.
  pub record IsEnqueued (after : Rows) (job : BuildJob) : Type 0 where
    pub nodup : IsNodup (ids rows) → IsNodup (ids after)
    pub stored : (j : ℕ) → get_job j after ≡ (if generated == j then some job else get_job j rows)
    pub one_more : waiting project_id after ≡ suc (waiting project_id rows)
    pub carries : job.handoff ≡ handoff

  -- With an id that is not in the table, `enqueue_with_domain_node` stores a job with the handoff
  -- under this id, as one more pending job of the project; other jobs stay, and ids stay unique.
  pub enqueue_with_domain_node_lem :
      contains (ids rows) generated ≡ false
      → (after : Rows) × (job : BuildJob) × (enqueue_with_domain_node generated created updated
            project_id handoff domain_node_id rows
          ≡ ok (after, job))
        × IsEnqueued after job
  unfolding enqueue_with_domain_node
  enqueue_with_domain_node_lem new =
      let job : BuildJob = record {
        id = generated;
        project_id = project_id;
        domain_node_id = domain_node_id;
        status = pending;
        handoff = handoff;
        error = none;
        created_at = created;
        updated_at = updated;
        started_at = none;
        completed_at = none;
      } in
      (
        rows ++ job ∷ [],
        job,
        ground (arith, any-ids generated rows),
        record {
          nodup = λ u. ids-append rows job u new;
          stored = λ j. get_job-append rows job j new;
          one_more =
              ground (arith, waiting-append project_id rows job, ==_iff project_id project_id);
          carries = refl;
        },
      )

module _ (project_id now : ℕ) where
  -- A row that was running when its worker died.
  abbrev pub reset : BuildJob → BuildJob
  reset row = record row { status = pending; error = none; started_at = none; updated_at = now }

  -- What the recovery should do.
  pub record IsRecovered (before : Rows) (result : Rows × ℕ) : Type 0 where
    pub no_stale : length (retain (is_stale project_id) result.0) ≡ 0
    pub more_waiting : waiting project_id result.0 ≡ waiting project_id before + result.1
    pub same_ids : ids result.0 ≡ ids before
    pub rows :
        (id : ℕ) (job : BuildJob)
        → get_job id before ≡ some job
        → get_job id result.0 ≡ some (if is_stale project_id job then reset job else job)

  -- `recover_stale_running` makes every running job of the project pending again, without its
  -- error and start time, and leaves all other rows; the number that it returns is the number of
  -- jobs that are pending now and were not before.
  pub recover_stale_running-IsRecovered :
      (before : Rows) → IsRecovered before (recover_stale_running project_id now before)
  recover_stale_running-IsRecovered [] = record {
    no_stale = refl;
    more_waiting = refl;
    same_ids = refl;
    rows = λ id job found. absurd (ground arith);
  }
  recover_stale_running-IsRecovered (row ∷ before) =
      let r = recover_stale_running-IsRecovered before in
      record {
        no_stale = ground (arith, r.no_stale);
        more_waiting = ground (arith, r.more_waiting);
        same_ids = ground (arith, r.same_ids);
        rows = λ id job found. ground (arith, r.rows id job);
      }
