-- ===== src/Deliver/Queue/Oldest.antt =====
-- `next_pending` of src/deliver/queue.rs: the oldest pending job of the project.
use mmat.Prelude.{
  ℕ, ◌≤◌, ◌≡◌, refl, subst, ap, ◌∙◌, inl, inr, Bool, true, none, some, [], ◌∷◌, arith, leb, ◌==◌,
  ==_iff, if◌then◌else◌, retain, length, contains, Bool-cases, Option-cases,
}
use mmat.Prelude.Nodup.{IsNodup}
use mmat.Deliver.Queue.{
  BuildJob, Rows, is_waiting, insert_by_age, order_by_age, first_row, next_pending,
}
use mmat.Deliver.Queue.Columns.{ids, get_job, waiting}

-- All rows have the property.
abbrev AreAll : (BuildJob → Type 0) → Rows → Type 0
AreAll P [] = Unit
AreAll P (row ∷ rows) = P row × AreAll P rows

AreAll-map :
    (P Q : BuildJob → Type 0) (rows : Rows)
    → ((row : BuildJob) → P row → Q row)
    → AreAll P rows
    → AreAll Q rows
AreAll-map P Q [] f all = tt
AreAll-map P Q (row ∷ rows) f (p, all) = (f row p, AreAll-map P Q rows f all)

AreAll-retain :
    (P : BuildJob → Type 0) (p : BuildJob → Bool) (rows : Rows)
    → AreAll P rows
    → AreAll P (retain p rows)
AreAll-retain P p [] all = tt
AreAll-retain P p (row ∷ rows) (h, all) = elim (Bool-cases (p row)) [
  | inl e ↦ rw e (h, AreAll-retain P p rows all)
  | inr e ↦ rw e (AreAll-retain P p rows all)
]

retain-AreAll : (p : BuildJob → Bool) (rows : Rows) → AreAll (λ row. p row ≡ true) (retain p rows)
retain-AreAll p [] = tt
retain-AreAll p (row ∷ rows) = elim (Bool-cases (p row)) [
  | inl e ↦ rw e (e, retain-AreAll p rows)
  | inr e ↦ rw e (retain-AreAll p rows)
]

first_row-insert_by_age :
    (job : BuildJob) (rows : Rows)
    → first_row (insert_by_age job rows) ≡ elim (first_row rows) [
      | none ↦ some job
      | some row ↦ if leb job.created_at row.created_at then some job else some row
    ]
first_row-insert_by_age job [] = refl
first_row-insert_by_age job (row ∷ rows) = ground arith

-- The first row in order of age is one of the rows.
first_row-P :
    (P : BuildJob → Type 0) (rows : Rows) (job : BuildJob)
    → AreAll P rows
    → first_row (order_by_age rows) ≡ some job
    → P job
first_row-P P [] job all e = absurd (ground arith)
first_row-P P (row ∷ rows) job (p, all) e =
    let step = first_row-insert_by_age row (order_by_age rows) in
    elim (Option-cases (first_row (order_by_age rows))) [
      | inl absent ↦ subst P (ground arith) p
      | inr (old, found) ↦ elim (Bool-cases (leb row.created_at old.created_at)) [
        | inl younger ↦ subst P (ground arith) p
        | inr older ↦ first_row-P P rows job all (ground arith)
      ]
    ]

no_first_row : (rows : Rows) → first_row (order_by_age rows) ≡ none → length rows ≡ 0
no_first_row [] e = refl
no_first_row (row ∷ rows) e =
    absurd (ground (arith, first_row-insert_by_age row (order_by_age rows)))

-- The first row in order of age is as old as any.
first_row-AreAll :
    (rows : Rows) (job : BuildJob)
    → first_row (order_by_age rows) ≡ some job
    → AreAll (λ row. job.created_at ≤ row.created_at) rows
first_row-AreAll [] job e = tt
first_row-AreAll (row ∷ rows) job e =
    let step = first_row-insert_by_age row (order_by_age rows) in
    elim (Option-cases (first_row (order_by_age rows))) [
      | inl absent ↦ (ground arith, empty rows (no_first_row rows absent))
      | inr (old, found) ↦ (
        ground arith,
        AreAll-map (λ r. old.created_at ≤ r.created_at) (λ r. job.created_at ≤ r.created_at) rows
            (λ r h. ground arith) (first_row-AreAll rows old found),
      )
    ]
  where
    empty : (xs : Rows) → length xs ≡ 0 → AreAll (λ r. job.created_at ≤ r.created_at) xs
    empty [] h = tt
    empty (x ∷ xs) h = absurd (omega arith)

AreAll-get_job :
    (P : BuildJob → Type 0) (p : BuildJob → Bool) (rows : Rows) (id : ℕ) (job : BuildJob)
    → AreAll P (retain p rows)
    → get_job id rows ≡ some job
    → p job ≡ true
    → P job
AreAll-get_job P p [] id job all e h = absurd (ground arith)
AreAll-get_job P p (row ∷ rows) id job all e h = elim (Bool-cases (row.id == id)) [
  | inl this ↦
      let same : row ≡ job = ground arith in
      let listed = rw (ap p same ∙ h) at all in subst P same listed.0
  | inr other ↦ elim (Bool-cases (p row)) [
    | inl kept ↦ AreAll-get_job P p rows id job (rw kept at all).1 (ground arith) h
    | inr dropped ↦ AreAll-get_job P p rows id job (rw dropped at all) (ground arith) h
  ]
]

get_job-own :
    (rows : Rows)
    → IsNodup (ids rows)
    → AreAll (λ row. (contains (ids rows) row.id ≡ true) × (get_job row.id rows ≡ some row)) rows
get_job-own [] u = tt
get_job-own (row ∷ rows) u = (
  (ground (arith, ==_iff row.id row.id), ground (arith, ==_iff row.id row.id)),
  AreAll-map (λ r. (contains (ids rows) r.id ≡ true) × (get_job r.id rows ≡ some r))
      (λ r. (contains (ids (row ∷ rows)) r.id ≡ true) × (get_job r.id (row ∷ rows) ≡ some r)) rows
      (λ r h. (ground (arith, h.0), ground (arith, h.0, h.1, u.0, ==_iff row.id r.id)))
      (get_job-own rows u.1),
)

module _ (project_id : ℕ) (rows : Rows) where
  -- If no job is next, none waits.
  pub next_pending-none : next_pending project_id rows ≡ none → waiting project_id rows ≡ 0
  next_pending-none e = no_first_row (retain (is_waiting project_id) rows) e

  -- The next job, in a table with unique ids.
  pub record IsNext (job : BuildJob) : Type 0 where
    pub stored : get_job job.id rows ≡ some job
    pub waits : is_waiting project_id job ≡ true
    pub oldest :
        (id : ℕ) (other : BuildJob)
        → get_job id rows ≡ some other
        → is_waiting project_id other ≡ true
        → job.created_at ≤ other.created_at

  -- In a table with unique ids, the job that `next_pending` returns is stored under its id, is a
  -- pending job of the project, and is as old as every pending job of the project.
  pub next_pending-IsNext :
      (job : BuildJob) → IsNodup (ids rows) → next_pending project_id rows ≡ some job → IsNext job
  next_pending-IsNext job u e = record {
    stored =
        (first_row-P (λ row. (contains (ids rows) row.id ≡ true) × (get_job row.id rows ≡ some row))
          (retain (is_waiting project_id) rows) job
          (AreAll-retain
            (λ row. (contains (ids rows) row.id ≡ true) × (get_job row.id rows ≡ some row))
            (is_waiting project_id) rows (get_job-own rows u))
          e).1;
    waits =
        first_row-P (λ row. is_waiting project_id row ≡ true) (retain (is_waiting project_id) rows)
          job (retain-AreAll (is_waiting project_id) rows) e;
    oldest = λ id other found w.
        AreAll-get_job (λ row. job.created_at ≤ row.created_at) (is_waiting project_id) rows id
          other (first_row-AreAll (retain (is_waiting project_id) rows) job e) found w;
  }
