-- ===== src/Deliver/Batches/Counted.antt =====
-- The in-degrees after the second loop of `compute_batches` of src/deliver/delivery_graph.rs, and
-- the first queue.
use mmat.Prelude.{
  ℕ, suc, ◌+◌, ◌≡◌, refl, inl, inr, Bool, false, Option, none, some, List, [], ◌∷◌, arith, ◌==◌,
  ==_iff, contains, ◌∈◌, length, Bool-cases, Option-cases, if◌then◌else◌,
}
use mmat.Prelude.Map
use mmat.Prelude.Map.{Map, get-insert, contains-keys, contains_of_get}
use mmat.Prelude.Nodup.{IsNodup}
use mmat.Deliver.DeliveryGraph.{DeliveryNode}
use mmat.Deliver.Batches.{Degrees, add_degree, count_degrees, sources}
use mmat.Deliver.Batches.Degrees.{sum_at, IsNodup-keys_insert}

-- `more` is `in_degree` with `f n` added to the entry of each id `n`.
pub record IsRaised (f : ℕ → ℕ) (in_degree more : Degrees) : Type 0 where
  pub nodup : IsNodup (Map.keys more)
  pub absent : (n : ℕ) → Map.get in_degree n ≡ none → Map.get more n ≡ none
  pub raised : (n d : ℕ) → Map.get in_degree n ≡ some d → Map.get more n ≡ some (d + f n)

add_degree-IsRaised :
    (id : ℕ) (deps : List ℕ) (in_degree : Degrees)
    → IsNodup (Map.keys in_degree)
    → id ∈ Map.keys in_degree
    → (more : Degrees) × (add_degree id deps in_degree ≡ some more)
      × IsRaised (λ n. if id == n then length deps else 0) in_degree more
unfolding add_degree
add_degree-IsRaised id [] in_degree u k =
    (in_degree, refl, record { nodup = u; absent = λ n e. e; raised = λ n d e. ground arith })
add_degree-IsRaised id (dep ∷ deps) in_degree u k = elim (Option-cases (Map.get in_degree id)) [
  | inl e ↦ absurd (ground (arith, contains-keys in_degree id))
  | inr (d, e) ↦
      let next = Map.insert id (suc d) in_degree in
      let (more, done, r) =
        add_degree-IsRaised id deps next (IsNodup-keys_insert id (suc d) in_degree u) (
          ground
            (arith, contains-keys next id, get-insert id id (suc d) in_degree, ==_iff id id)) in
      (
        more,
        rw (add_degree, e) done,
        record {
          nodup = r.nodup;
          absent =
              λ n h. r.absent n (ground (arith, get-insert id n (suc d) in_degree, ==_iff id n));
          raised = λ n c h. elim (Bool-cases (id == n)) [
            | inl same ↦
                ground (arith, r.raised n (suc d), get-insert id n (suc d) in_degree, ==_iff id n)
            | inr other ↦
                ground (arith, r.raised n c, get-insert id n (suc d) in_degree, ==_iff id n)
          ];
        },
      )
]

pub count_degrees-IsRaised :
    (nodes : Map DeliveryNode) (in_degree : Degrees)
    → IsNodup (Map.keys in_degree)
    → ((n : ℕ) → n ∈ Map.keys nodes → n ∈ Map.keys in_degree)
    → (more : Degrees) × (count_degrees nodes in_degree ≡ some more)
      × IsRaised (λ n. sum_at n (λ node. length node.dependencies) nodes) in_degree more
unfolding count_degrees
count_degrees-IsRaised [] in_degree u k =
    (in_degree, refl, record { nodup = u; absent = λ n e. e; raised = λ n d e. ground arith })
count_degrees-IsRaised ((id, node) ∷ nodes) in_degree u k =
    let (mid, first, r) =
      add_degree-IsRaised id node.dependencies in_degree u (k id (ground (arith, ==_iff id id))) in
    let (more, done, s) = count_degrees-IsRaised nodes mid r.nodup λ n h.
      elim (Option-cases (Map.get in_degree n)) [
        | inl e ↦ absurd (ground (arith, k n, contains-keys in_degree n))
        | inr (d, e) ↦ contains_of_get mid n _ (r.raised n d e)
      ] in
    (
      more,
      ground (arith, first, done),
      record {
        nodup = s.nodup;
        absent = λ n e. s.absent n (r.absent n e);
        raised = λ n d e. ground (
          arith,
          s.raised n (d + (if id == n then length node.dependencies else 0)) (r.raised n d e),
        );
      },
    )

abbrev pub is_zero : Option ℕ → Bool
is_zero none = false
is_zero (some d) = d == 0

contains-sources-keys :
    (in_degree : Degrees) (n : ℕ) → n ∈ sources in_degree → n ∈ Map.keys in_degree
contains-sources-keys [] n h = h
contains-sources-keys ((id, d) ∷ in_degree) n h = ground (arith, contains-sources-keys in_degree n)

-- The first queue holds the ids with in-degree zero.
pub contains-sources :
    (in_degree : Degrees) (n : ℕ)
    → IsNodup (Map.keys in_degree)
    → contains (sources in_degree) n ≡ is_zero (Map.get in_degree n)
contains-sources [] n u = refl
contains-sources ((id, d) ∷ in_degree) n u =
    ground
      (arith, contains-sources in_degree n u.1, contains-sources-keys in_degree n, u.0, ==_iff id n)

pub IsNodup-sources :
    (in_degree : Degrees) → IsNodup (Map.keys in_degree) → IsNodup (sources in_degree)
IsNodup-sources [] u = tt
IsNodup-sources ((id, d) ∷ in_degree) u = elim (Bool-cases (d == 0)) [
  | inl e ↦
      rw e (ground (arith, contains-sources-keys in_degree id, u.0), IsNodup-sources in_degree u.1)
  | inr e ↦ rw e (IsNodup-sources in_degree u.1)
]
