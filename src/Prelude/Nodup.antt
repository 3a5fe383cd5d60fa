-- ===== src/Prelude/Nodup.antt =====
-- Lists of ids in which no id occurs twice, and the pigeonhole principle on them.
use Prim.Native.Nat.{ℕ, suc, ◌≤◌}
use mathlib.Core.Path.{◌≡◌}
use mathlib.Core.Bool.{false}
use mathlib.Core.Logic.{inl, inr}
use mathlib.Core.List.{List, [], ◌∷◌, ◌++◌}
use native.Mathlib.Omega.{arith}
use mmat.Prelude.Tests.{◌==◌, if◌then◌else◌, Bool-cases}
use mmat.Prelude.Lists.{contains, ◌∈◌, length, contains-append}

abbrev pub IsNodup : List ℕ → Type 0
IsNodup [] = Unit
IsNodup (x ∷ xs) = (contains xs x ≡ false) × IsNodup xs

abbrev pub Subset : List ℕ → List ℕ → Type 0
Subset xs ys = (a : ℕ) → a ∈ xs → a ∈ ys

-- Every id of the second list is outside the first.
abbrev pub IsDisjoint : List ℕ → List ℕ → Type 0
IsDisjoint xs ys = (a : ℕ) → a ∈ ys → contains xs a ≡ false

abbrev delete : ℕ → List ℕ → List ℕ
delete a [] = []
delete a (x ∷ xs) = if x == a then xs else x ∷ delete a xs

length-delete : (a : ℕ) (xs : List ℕ) → a ∈ xs → suc (length (delete a xs)) ≡ length xs
length-delete a [] h = absurd (ground arith)
length-delete a (x ∷ xs) h = ground (arith, length-delete a xs)

contains-delete_ne : (a b : ℕ) (xs : List ℕ) → (a == b) ≡ false → b ∈ xs → b ∈ delete a xs
contains-delete_ne a b [] n h = h
contains-delete_ne a b (x ∷ xs) n h = ground (arith, contains-delete_ne a b xs)

-- A list without repetition is no longer than a list that holds all of its ids.
pub length_le_of_subset : (xs ys : List ℕ) → IsNodup xs → Subset xs ys → length xs ≤ length ys
length_le_of_subset [] ys n s = omega arith
length_le_of_subset (x ∷ xs) ys n s =
    let here : x ∈ ys = s x (ground arith) in
    omega (arith, length-delete x ys here, length_le_of_subset xs (delete x ys) n.1 others)
  where
    others : Subset xs (delete x ys)
    others a h = elim (Bool-cases (x == a)) [
      | inl e ↦ absurd (ground (arith, n.0))
      | inr e ↦ contains-delete_ne x a ys e (s a (ground arith))
    ]

-- If it is as long, it holds all of them.
pub subset_of_length :
    (xs ys : List ℕ) → IsNodup xs → Subset xs ys → length ys ≤ length xs → Subset ys xs
subset_of_length xs ys n s le a h = elim (Bool-cases (contains xs a)) [
  | inl e ↦ e
  | inr e ↦
      absurd (omega (arith, length_le_of_subset (a ∷ xs) ys (e, n) (λ b k. ground (arith, s b))))
]

pub IsNodup-append :
    (xs ys : List ℕ) → IsNodup xs → IsNodup ys → IsDisjoint xs ys → IsNodup (xs ++ ys)
IsNodup-append [] ys nx ny d = ny
IsNodup-append (x ∷ xs) ys nx ny d = (
  ground (arith, contains-append xs ys x, d x),
  IsNodup-append xs ys nx.1 ny (λ a h. ground (arith, d a h)),
)
