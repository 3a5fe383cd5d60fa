-- ===== src/Prelude/Reach.antt =====
-- Directed graphs given by a successor list for each id: paths, closed sets, and one more edge.
use Prim.Native.Nat.{ℕ}
use mathlib.Core.Path.{◌≡◌, refl}
use mathlib.Core.Logic.{◌⊎◌, inl, inr}
use mathlib.Core.List.{List}
use mmat.Prelude.Lists.{◌∈◌}

-- A path of zero or more edges.
pub data Reach (next : ℕ → List ℕ) : ℕ → ℕ → Type 0 where
  here : (a : ℕ) → Reach next a a
  step : {a b c : ℕ} → b ∈ next a → Reach next b c → Reach next a c

-- A path of one or more edges.
abbrev pub Reach⁺ : (ℕ → List ℕ) → ℕ → ℕ → Type 0
Reach⁺ next a c = (b : ℕ) × (b ∈ next a) × Reach next b c

abbrev pub IsAcyclic : (ℕ → List ℕ) → Type 0
IsAcyclic next = (a : ℕ) → ¬ (Reach⁺ next a a)

module _ {next : ℕ → List ℕ} where
  pub Reach-trans : {a b c : ℕ} → Reach next a b → Reach next b c → Reach next a c
  Reach-trans (here a) q = q
  Reach-trans (step e p) q = step e (Reach-trans p q)

  pub Reach-cases : {a c : ℕ} → Reach next a c → (a ≡ c) ⊎ Reach⁺ next a c
  Reach-cases (here a) = inl refl
  Reach-cases (step {a} {b} e p) = inr (b, e, p)

  -- A set of ids that is closed under successors holds whatever is reached from it.
  pub Reach-closed :
      (P : ℕ → Type 0)
      → ((a b : ℕ) → P a → b ∈ next a → P b)
      → {a c : ℕ} → Reach next a c
      → P a
      → P c
  Reach-closed P closed (here a) h = h
  Reach-closed P closed (step {a} {b} e p) h = Reach-closed P closed p (closed a b h e)

-- `wider` has the edges of `next`, and perhaps the edge from `from` to `to`.
module _ (next wider : ℕ → List ℕ) (from to : ℕ)
    (extra : (a b : ℕ) → b ∈ wider a → (b ∈ next a) ⊎ ((a ≡ from) × (b ≡ to))) where
  Reach-split : {a c : ℕ} → Reach wider a c → Reach next a c ⊎ (Reach next a from × Reach next to c)
  Reach-split (here a) = inl (here a)
  Reach-split (step {a} {b} e p) = elim (extra a b e) [
    | inl old ↦ elim (Reach-split p) [ inl q ↦ inl (step old q) | inr q ↦ inr (step old q.0, q.1) ]
    | inr new ↦ elim (Reach-split p) [
      | inl q ↦ inr (rw (new.0) (here from), rw (← new.1) q)
      | inr q ↦ inr (rw (new.0) (here from), q.1)
    ]
  ]

  -- An edge closes no cycle if its end does not lead back to its start.
  pub IsAcyclic-extend : IsAcyclic next → ¬ (Reach next to from) → IsAcyclic wider
  IsAcyclic-extend acyclic free a (b, e, p) = elim (extra a b e) [
    | inl old ↦ elim (Reach-split p) [
      | inl q ↦ acyclic a (b, old, q)
      | inr q ↦ free (Reach-trans q.1 (step old q.0))
    ]
    | inr new ↦ elim (Reach-split p) [
      | inl q ↦ free (rw (← new.1, ← new.0) q)
      | inr q ↦ free (rw new.1 at q.0)
    ]
  ]

-- A graph with fewer edges has fewer paths.
module _ {less more : ℕ → List ℕ} (sub : (a b : ℕ) → b ∈ less a → b ∈ more a) where
  pub Reach-map : {a c : ℕ} → Reach less a c → Reach more a c
  Reach-map (here a) = here a
  Reach-map (step {a} {b} e p) = step (sub a b e) (Reach-map p)

  pub Reach⁺-map : (a : ℕ) {c : ℕ} → Reach⁺ less a c → Reach⁺ more a c
  Reach⁺-map a (b, e, p) = (b, sub a b e, Reach-map p)
