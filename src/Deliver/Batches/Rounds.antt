-- ===== src/Deliver/Batches/Rounds.antt =====
-- The main loop of `compute_batches` of src/deliver/delivery_graph.rs: its invariant, and what it
-- returns.
use mmat.Prelude.{
  ℕ, ◌+◌, ◌-◌, ◌≤◌, ◌≡◌, refl, inl, inr, false, ◌||◌, some, List, [], ◌∷◌, ◌++◌, arith, ==_iff,
  contains, ◌∈◌, contains-append, length, count, Bool-cases, Option-cases,
}
use mmat.Prelude.Map
use mmat.Prelude.Map.{Map}
use mmat.Prelude.Nodup.{IsNodup, IsNodup-append, IsDisjoint}
use mmat.Prelude.Placed.{placed, placed_le, placed-append}
use mmat.Deliver.Batches.{Degrees, Dependents}
use mmat.Deliver.Batches.Degrees.{count_of}
use mmat.Deliver.Batches.Counted.{is_zero}
use mmat.Deliver.Batches.Release.{CanRelease, IsReleased, dependents_of, count-dependents_of}

pub IsNodup-parts :
    (xs ys : List ℕ) → IsNodup (xs ++ ys) → IsNodup xs × IsNodup ys × IsDisjoint xs ys
IsNodup-parts [] ys u = (tt, u, λ a h. refl)
IsNodup-parts (x ∷ xs) ys u =
    let (ux, uy, d) = IsNodup-parts xs ys u.1 in
    (
      (ground (arith, u.0, contains-append xs ys x), ux),
      uy,
      λ a h. ground (arith, d a h, u.0, contains-append xs ys x, ==_iff x a),
    )

-- `deps` gives the dependencies of each id, `ids` are the ids of the graph.
module _ (ids : List ℕ) (deps : ℕ → List ℕ) where
  -- Between two rounds: `done` are the ids in the batches so far, and `queue` is the next batch.
  pub record IsRound (done queue : List ℕ) (in_degree : Degrees) : Type 0 where
    pub degree :
        (n d : ℕ) → Map.get in_degree n ≡ some d → d + placed done (deps n) ≡ length (deps n)
    pub present : (n : ℕ) → n ∈ ids → (d : ℕ) × (Map.get in_degree n ≡ some d)
    pub known : (n d : ℕ) → Map.get in_degree n ≡ some d → n ∈ ids
    pub zero_iff : (n : ℕ) → (contains done n || contains queue n) ≡ is_zero (Map.get in_degree n)
    pub nodup : IsNodup (done ++ queue)

  module _ (dependents : Dependents)
      (listed : (m n : ℕ) → n ∈ ids → count_of dependents m n ≡ count m (deps n))
      (unlisted : (m n : ℕ) → contains ids n ≡ false → count_of dependents m n ≡ 0) where
    count-unlisted :
        (n : ℕ) (batch : List ℕ)
        → contains ids n ≡ false
        → IsNodup batch
        → count n (dependents_of dependents batch) ≡ 0
    count-unlisted n batch away u =
        count-dependents_of dependents n [] (λ m. unlisted m n away) batch u

    module _ (done queue : List ℕ) (in_degree : Degrees) (r : IsRound done queue in_degree) where
      parts : IsNodup done × IsNodup queue × IsDisjoint done queue
      parts = IsNodup-parts done queue r.nodup

      count-queue :
          (n d : ℕ)
          → Map.get in_degree n ≡ some d
          → count n (dependents_of dependents queue) ≡ placed queue (deps n)
      count-queue n d e =
          count-dependents_of dependents n (deps n) (λ m. listed m n (r.known n d e)) queue parts.1

      count-queue_le :
          (n d : ℕ) → Map.get in_degree n ≡ some d → count n (dependents_of dependents queue) ≤ d
      count-queue_le n d e = omega (
        arith,
        count-queue n d e,
        r.degree n d e,
        placed-append done queue (deps n) parts.2,
        placed_le (done ++ queue) (deps n),
      )

      pub IsRound-CanRelease : CanRelease (dependents_of dependents queue) in_degree
      IsRound-CanRelease n h = elim (Bool-cases (contains ids n)) [
        | inl there ↦ let (d, e) = r.present n there in (d, e, count-queue_le n d e)
        | inr away ↦ absurd (omega (arith, count-unlisted n queue away parts.1))
      ]

      module _ (after : Degrees) (queue' : List ℕ)
          (s : IsReleased (dependents_of dependents queue) in_degree [] after queue') where
        next-degree :
            (n d : ℕ)
            → Map.get after n ≡ some d
            → d + placed (done ++ queue) (deps n) ≡ length (deps n)
        next-degree n d e = elim (Option-cases (Map.get in_degree n)) [
          | inl absent ↦ absurd (ground (arith, s.absent n absent))
          | inr (c, before) ↦
              let same : d ≡ c - count n (dependents_of dependents queue) =
                ground (arith, s.lowered n c before) in
              omega (
                arith,
                same,
                count-queue n c before,
                count-queue_le n c before,
                r.degree n c before,
                placed-append done queue (deps n) parts.2,
              )
        ]

        next-zero_iff :
            (n : ℕ) → (contains (done ++ queue) n || contains queue' n) ≡ is_zero (Map.get after n)
        next-zero_iff n = elim (Option-cases (Map.get in_degree n)) [
          | inl absent ↦
              ground
                (arith, s.absent n absent, s.queued n, r.zero_iff n, contains-append done queue n)
          | inr (c, before) ↦ ground (
            arith,
            s.lowered n c before,
            s.queued n,
            r.zero_iff n,
            contains-append done queue n,
            count-queue_le n c before,
          )
        ]

        next-IsDisjoint : IsDisjoint (done ++ queue) queue'
        next-IsDisjoint n h = ground (arith, s.queued n, r.zero_iff n, contains-append done queue n)

        pub IsRound-next : IsRound (done ++ queue) queue' after
        IsRound-next = record {
          degree = next-degree;
          present = λ n h.
              let (d, e) = r.present n h in
              (d - count n (dependents_of dependents queue), s.lowered n d e);
          known = λ n d e. elim (Option-cases (Map.get in_degree n)) [
            | inl absent ↦ absurd (ground (arith, s.absent n absent))
            | inr (c, before) ↦ r.known n c before
          ];
          zero_iff = next-zero_iff;
          nodup = IsNodup-append (done ++ queue) queue' r.nodup s.nodup next-IsDisjoint;
        }
