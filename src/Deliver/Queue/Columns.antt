-- ===== src/Deliver/Queue/Columns.antt =====
-- The statements on the table of src/deliver/queue.rs: what an update leaves.
use mmat.Prelude.{
  ℕ, ◌≤◌, ◌<◌, ◌≡◌, refl, true, false, Option, none, some, List, [], ◌∷◌, arith, ◌==◌, ==_iff,
  if◌then◌else◌, retain, any, length, contains,
}
use mathlib.Core.Option
use mmat.Deliver.Queue.{BuildJob, Rows, is_waiting, update_rows}

abbrev pub ids : Rows → List ℕ
ids [] = []
ids (row ∷ rows) = row.id ∷ ids rows

abbrev pub get_job : ℕ → Rows → Option BuildJob
get_job id [] = none
get_job id (row ∷ rows) = if row.id == id then some row else get_job id rows

abbrev pub waiting : ℕ → Rows → ℕ
waiting project_id rows = length (retain (is_waiting project_id) rows)

pub any-get_job :
    (id : ℕ) (rows : Rows) (job : BuildJob)
    → get_job id rows ≡ some job
    → any rows (λ row. row.id == id) ≡ true
any-get_job id [] job e = absurd (ground arith)
any-get_job id (row ∷ rows) job e = ground (arith, any-get_job id rows job)

pub get_job-absent :
    (id : ℕ) (rows : Rows) → contains (ids rows) id ≡ false → get_job id rows ≡ none
get_job-absent id [] h = refl
get_job-absent id (row ∷ rows) h = ground (arith, get_job-absent id rows)

-- An update that keeps the id of each row.
module _ (id : ℕ) (change : BuildJob → BuildJob)
    (keeps : (row : BuildJob) → (change row).id ≡ row.id) where
  pub ids-update_rows : (rows : Rows) → ids (update_rows id change rows) ≡ ids rows
  ids-update_rows [] = refl
  ids-update_rows (row ∷ rows) = ground (arith, ids-update_rows rows, keeps row)

  pub get_job-update_rows :
      (j : ℕ) (rows : Rows)
      → get_job j (update_rows id change rows)
        ≡ (if id == j then Option.map change (get_job j rows) else get_job j rows)
  get_job-update_rows j [] = ground arith
  get_job-update_rows j (row ∷ rows) =
      ground (
        arith,
        get_job-update_rows j rows,
        keeps row,
        ==_iff row.id j,
        ==_iff id j,
        ==_iff row.id id,
      )

  -- If no changed row waits, no more rows wait than before, and one less if the row waited.
  module _ (project_id : ℕ)
      (idle : (row : BuildJob) → is_waiting project_id (change row) ≡ false) where
    pub waiting-update_rows_le :
        (rows : Rows) → waiting project_id (update_rows id change rows) ≤ waiting project_id rows
    waiting-update_rows_le [] = omega arith
    waiting-update_rows_le (row ∷ rows) = ground (arith, waiting-update_rows_le rows, idle row)

    pub waiting-update_rows_lt :
        (rows : Rows) (job : BuildJob)
        → get_job id rows ≡ some job
        → is_waiting project_id job ≡ true
        → waiting project_id (update_rows id change rows) < waiting project_id rows
    waiting-update_rows_lt [] job e w = absurd (ground arith)
    waiting-update_rows_lt (row ∷ rows) job e w =
        ground (arith, waiting-update_rows_le rows, waiting-update_rows_lt rows job, idle row)
