-- ===== src/LiveView/State/Entries.antt =====
-- The entries of a map that is changed by `entry(key).or_default()`, in src/liveview/state.rs.
use mmat.Prelude.{
  ℕ, ◌≡◌, refl, subst, ap, ◌∙◌, inl, inr, true, false, some, arith, ◌==◌, ==_iff, if◌then◌else◌,
  Bool-cases, Option-cases,
}
use mmat.Prelude.Map
use mmat.Prelude.Map.{Map, get-insert}
use mmat.LiveView.State.{entry_or, change_entry}

pub entry_or-change_entry {ℓ} :
    {V : Type ℓ} (default : V) (key j : ℕ) (change : V → V) (m : Map V)
    → entry_or default j (change_entry default key change m)
      ≡ (if key == j then change (entry_or default key m) else entry_or default j m)
entry_or-change_entry default key j change m = elim (Bool-cases (key == j)) [
  | inl same ↦ ground (arith, get-insert key j (change (entry_or default key m)) m)
  | inr other ↦ ground (arith, get-insert key j (change (entry_or default key m)) m)
]

-- The entry of another key, and of the same one.
pub change_entry_other {ℓ} :
    {V : Type ℓ} (default : V) (key j : ℕ) (change : V → V) (m : Map V)
    → (key == j) ≡ false
    → entry_or default j (change_entry default key change m) ≡ entry_or default j m
change_entry_other default key j change m other =
    rw (entry_or-change_entry default key j change m, other) refl

pub change_entry_same {ℓ} :
    {V : Type ℓ} (default : V) (key j : ℕ) (change : V → V) (m : Map V)
    → (key == j) ≡ true
    → entry_or default j (change_entry default key change m) ≡ change (entry_or default j m)
change_entry_same default key j change m same =
    rw (entry_or-change_entry default key j change m, same)
      (ap (λ i. change (entry_or default i m)) ((==_iff key j).0 same))

-- A view of the entries that the change does not alter.
pub change_entry_kept {ℓ ℓ'} :
    {V : Type ℓ} {X : Type ℓ'} (view : V → X) (default : V) (key j : ℕ) (change : V → V) (m : Map V)
    → ((v : V) → view (change v) ≡ view v)
    → view (entry_or default j (change_entry default key change m)) ≡ view (entry_or default j m)
change_entry_kept view default key j change m keeps = elim (Bool-cases (key == j)) [
  | inl same ↦
      ap view (change_entry_same default key j change m same) ∙ keeps (entry_or default j m)
  | inr other ↦ ap view (change_entry_other default key j change m other)
]

module _ {V : Type 0} (P : V → Type 0) (default : V) (p : P default) where
  abbrev pub AreAll : Map V → Type 0
  AreAll m = (key : ℕ) (v : V) → Map.get m key ≡ some v → P v

  pub entry_or-P : (m : Map V) (key : ℕ) → AreAll m → P (entry_or default key m)
  entry_or-P m key all = elim (Option-cases (Map.get m key)) [
    | inl e ↦ rw e p
    | inr (v, e) ↦ rw e (all key v e)
  ]

  pub change_entry-AreAll :
      (key : ℕ) (change : V → V) (m : Map V)
      → AreAll m
      → P (change (entry_or default key m))
      → AreAll (change_entry default key change m)
  change_entry-AreAll key change m all new j v e = elim (Bool-cases (key == j)) [
    | inl same ↦ subst P (ground (arith, get-insert key j (change (entry_or default key m)) m)) new
    | inr other ↦ all j v (ground (arith, get-insert key j (change (entry_or default key m)) m))
  ]
