-- ===== src/Prelude/Placed.antt =====
-- How many entries of a list are in a set of ids.
use Prim.Native.Nat.{ℕ, suc, ◌+◌, ◌≤◌}
use mathlib.Core.Path.{◌≡◌, refl}
use mathlib.Core.Bool.{false}
use mathlib.Core.Logic.{inl, inr}
use mathlib.Core.List.{List, [], ◌∷◌, ◌++◌}
use native.Mathlib.Omega.{arith}
use mmat.Prelude.Tests.{==_iff, if◌then◌else◌, Bool-cases}
use mmat.Prelude.Lists.{contains, ◌∈◌, length, count, contains-append}
use mmat.Prelude.Nodup.{IsDisjoint}

abbrev pub placed : List ℕ → List ℕ → ℕ
placed set [] = 0
placed set (x ∷ xs) = (if contains set x then 1 else 0) + placed set xs

pub placed_le : (set xs : List ℕ) → placed set xs ≤ length xs
placed_le set [] = omega arith
placed_le set (x ∷ xs) = ground (arith, placed_le set xs)

pub placed-nil : (xs : List ℕ) → placed [] xs ≡ 0
placed-nil [] = refl
placed-nil (x ∷ xs) = ground (arith, placed-nil xs)

pub placed-cons :
    (a : ℕ) (set xs : List ℕ)
    → contains set a ≡ false
    → placed (a ∷ set) xs ≡ count a xs + placed set xs
placed-cons a set [] new = refl
placed-cons a set (x ∷ xs) new = ground (arith, placed-cons a set xs new, ==_iff a x, ==_iff x a)

pub placed-append :
    (xs ys zs : List ℕ) → IsDisjoint xs ys → placed (xs ++ ys) zs ≡ placed xs zs + placed ys zs
placed-append xs ys [] d = refl
placed-append xs ys (z ∷ zs) d =
    ground (arith, placed-append xs ys zs d, contains-append xs ys z, d z)

pub mem_of_placed : (set xs : List ℕ) (a : ℕ) → placed set xs ≡ length xs → a ∈ xs → a ∈ set
mem_of_placed set [] a e h = absurd (ground arith)
mem_of_placed set (x ∷ xs) a e h =
    ground (arith, placed_le set xs, mem_of_placed set xs a, ==_iff x a)

-- An entry outside the set, where not all entries are in it.
pub outside :
    (set xs : List ℕ)
    → suc (placed set xs) ≤ length xs
    → (a : ℕ) × (a ∈ xs) × (contains set a ≡ false)
outside set [] h = absurd (omega arith)
outside set (x ∷ xs) h = elim (Bool-cases (contains set x)) [
  | inr away ↦ (x, ground (arith, ==_iff x x), away)
  | inl there ↦ let (a, m, away) = outside set xs (ground arith) in (a, ground arith, away)
]
