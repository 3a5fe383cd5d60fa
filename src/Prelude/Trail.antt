-- ===== src/Prelude/Trail.antt =====
-- A finite graph without cycles: a walk cannot go on for ever.
use Prim.Native.Nat.{ℕ, zero, suc, ◌+◌, ◌<◌}
use mathlib.Core.Path.{◌≡◌, refl, subst}
use mathlib.Core.Bool.{false}
use mathlib.Core.Logic.{inl, inr}
use mathlib.Core.List.{List, [], ◌∷◌}
use native.Mathlib.Omega.{arith}
use mmat.Prelude.Tests.{◌==◌, ==_iff, Bool-cases}
use mmat.Prelude.Lists.{contains, ◌∈◌, length}
use mmat.Prelude.Nodup.{IsNodup, Subset, length_le_of_subset}
use mmat.Prelude.Reach.{Reach, here, step, Reach-trans, IsAcyclic}

module _ {next : ℕ → List ℕ} (acyclic : IsAcyclic next) (P : ℕ → Type 0) (ids : List ℕ)
    (finite : (a : ℕ) → P a → a ∈ ids) (onward : (a : ℕ) → P a → (b : ℕ) × (b ∈ next a) × P b) where
  -- The walk so far, its last id first.
  record IsTrail (last : ℕ) (trail : List ℕ) : Type 0 where
    stands : P last
    listed : last ∈ trail
    nodup : IsNodup trail
    known : Subset trail ids
    leads : (a : ℕ) → a ∈ trail → Reach next a last

  IsTrail-extend :
      (a b : ℕ) (trail : List ℕ)
      → b ∈ next a
      → P b
      → contains trail b ≡ false
      → IsTrail a trail
      → IsTrail b (b ∷ trail)
  IsTrail-extend a b trail e pb new t = record {
    stands = pb;
    listed = ground (arith, ==_iff b b);
    nodup = (new, t.nodup);
    known = λ c h. elim (Bool-cases (b == c)) [
      | inl same ↦ subst (λ x. x ∈ ids) ((==_iff b c).0 same) (finite b pb)
      | inr other ↦ t.known c (ground arith)
    ];
    leads = λ c h. elim (Bool-cases (b == c)) [
      | inl same ↦ subst (λ x. Reach next x b) ((==_iff b c).0 same) (here b)
      | inr other ↦ Reach-trans (t.leads c (ground arith)) (step e (here b))
    ];
  }

  walk_ends : (fuel a : ℕ) (trail : List ℕ) → length ids < fuel + length trail → ¬ (IsTrail a trail)
  walk_ends zero a trail h t = omega (arith, length_le_of_subset trail ids t.nodup t.known)
  walk_ends (suc fuel) a trail h t =
      let (b, e, pb) = onward a t.stands in
      elim (Bool-cases (contains trail b)) [
        | inl again ↦ acyclic a (b, e, t.leads b again)
        | inr new ↦ walk_ends fuel b (b ∷ trail) (omega arith) (IsTrail-extend a b trail e pb new t)
      ]

  -- Nothing can have the property.
  pub no_walk : (a : ℕ) → ¬ (P a)
  no_walk a pa = walk_ends (suc (length ids)) a (a ∷ []) (omega arith) (record {
    stands = pa;
    listed = ground (arith, ==_iff a a);
    nodup = (refl, tt);
    known = λ c h. subst (λ x. x ∈ ids) ((==_iff a c).0 (ground arith)) (finite a pa);
    leads = λ c h. subst (λ x. Reach next x a) ((==_iff a c).0 (ground arith)) (here a);
  })
