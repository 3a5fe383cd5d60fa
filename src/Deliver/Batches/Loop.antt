-- ===== src/Deliver/Batches/Loop.antt =====
-- What the main loop of `compute_batches` of src/deliver/delivery_graph.rs returns.
use mmat.Prelude.{
  ℕ, zero, suc, ◌+◌, ◌≤◌, ◌<◌, ◌≡◌, refl, ap, subst, ◌∙◌, inl, inr, false, some, List, [], ◌∷◌,
  ◌++◌, append_assoc, append-nil, arith, contains, ◌∈◌, length, length-append, count, Option-cases,
}
use mmat.Prelude.Map
use mmat.Prelude.Nodup.{Subset, length_le_of_subset}
use mmat.Prelude.Placed.{mem_of_placed}
use mmat.Deliver.DeliveryGraph.{DeliveryBatch}
use mmat.Deliver.Batches.{Degrees, Dependents, batch_loop}
use mmat.Deliver.Batches.Degrees.{count_of}
use mmat.Deliver.Batches.Release.{release_batch-IsReleased}
use mmat.Deliver.Batches.Rounds.{IsRound, IsRound-CanRelease, IsRound-next, IsNodup-parts}

-- The ids of all batches, in order.
abbrev pub batched : List DeliveryBatch → List ℕ
batched [] = []
batched (batch ∷ batches) = batch.nodes ++ batched batches

-- The dependencies of each id stand in an earlier batch, or in `done`.
abbrev pub IsLayered : (ℕ → List ℕ) → List ℕ → List DeliveryBatch → Type 0
IsLayered deps done [] = Unit
IsLayered deps done (batch ∷ batches) =
    ((n : ℕ) → n ∈ batch.nodes → Subset (deps n) done)
    × IsLayered deps (done ++ batch.nodes) batches

-- The batches are numbered from `start`.
abbrev pub IsNumbered : ℕ → List DeliveryBatch → Type 0
IsNumbered start [] = Unit
IsNumbered start (batch ∷ batches) = (batch.index ≡ start) × IsNumbered (suc start) batches

module _ (ids : List ℕ) (deps : ℕ → List ℕ) where
  pub IsRound-Subset :
      (done queue : List ℕ) (in_degree : Degrees)
      → IsRound ids deps done queue in_degree
      → Subset done ids
  IsRound-Subset done queue in_degree r n h = elim (Option-cases (Map.get in_degree n)) [
    | inl absent ↦ absurd (ground (arith, r.zero_iff n))
    | inr (d, e) ↦ r.known n d e
  ]

  IsRound-length_le :
      (done queue : List ℕ) (in_degree : Degrees)
      → IsRound ids deps done queue in_degree
      → length done ≤ length ids
  IsRound-length_le done queue in_degree r =
      length_le_of_subset done ids (IsNodup-parts done queue r.nodup).0
        (IsRound-Subset done queue in_degree r)

  queue-deps :
      (done queue : List ℕ) (in_degree : Degrees)
      → IsRound ids deps done queue in_degree
      → (n : ℕ) → n ∈ queue
      → Subset (deps n) done
  queue-deps done queue in_degree r n h m dep = elim (Option-cases (Map.get in_degree n)) [
    | inl absent ↦ absurd (ground (arith, r.zero_iff n))
    | inr (d, e) ↦ mem_of_placed done (deps n) m (ground (arith, r.degree n d e, r.zero_iff n)) dep
  ]

  -- What the loop adds to the batches, and the invariant at its end.
  pub record IsFinished (dependents : Dependents) (done : List ℕ) (start : ℕ)
      (batches : List DeliveryBatch) : Type 0 where
    pub in_degree : Degrees
    pub round : IsRound ids deps (done ++ batched batches) [] in_degree
    pub layered : IsLayered deps done batches
    pub numbered : IsNumbered start batches

  module _ (dependents : Dependents)
      (listed : (m n : ℕ) → n ∈ ids → count_of dependents m n ≡ count m (deps n))
      (unlisted : (m n : ℕ) → contains ids n ≡ false → count_of dependents m n ≡ 0) where
    abbrev Finishes : ℕ → List ℕ → List ℕ → Degrees → List DeliveryBatch → ℕ → Type 0
    Finishes fuel done queue in_degree before processed =
        (batches : List DeliveryBatch) × (batch_loop fuel dependents in_degree queue before
            processed
          ≡ some (before ++ batches, processed + length (batched batches)))
        × IsFinished dependents done (length before) batches

    -- With fuel for each id that is not yet in a batch, the loop ends, and it does not panic.
    pub batch_loop-IsFinished :
        (fuel : ℕ) (done queue : List ℕ) (in_degree : Degrees) (before : List DeliveryBatch)
        (processed : ℕ)
        → IsRound ids deps done queue in_degree
        → length ids < fuel + length done
        → Finishes fuel done queue in_degree before processed
    unfolding batch_loop
    batch_loop-IsFinished zero done queue in_degree before processed r h =
        absurd (omega (arith, IsRound-length_le done queue in_degree r))
    batch_loop-IsFinished (suc fuel) done [] in_degree before processed r h = (
      [],
      rw (append-nil before) (ground arith),
      record { in_degree = in_degree; round = rw (append-nil done) r; layered = tt; numbered = tt },
    )
    batch_loop-IsFinished (suc fuel) done (id ∷ queue) in_degree before processed r h =
        let batch : DeliveryBatch = record { index = length before; nodes = id ∷ queue } in
        let can =
          IsRound-CanRelease ids deps dependents listed unlisted done (id ∷ queue) in_degree r in
        let (after, queue', released, s) =
          release_batch-IsReleased dependents (id ∷ queue) in_degree can in
        let (batches, ran, f) =
          batch_loop-IsFinished fuel (done ++ id ∷ queue) queue' after (before ++ batch ∷ [])
            (processed + length (id ∷ queue))
            (IsRound-next ids deps dependents listed unlisted done (id ∷ queue) in_degree r after
              queue' s)
            (omega (arith, length-append done (id ∷ queue))) in
        (
          batch ∷ batches,
          rw (batch_loop, released)
              (ran
                ∙ ap some (
                    ap
                      (λ (l : List DeliveryBatch).
                        (l, processed + length (id ∷ queue) + length (batched batches)))
                      (append_assoc before (batch ∷ []) batches)
                    ∙ ap (λ (k : ℕ). (before ++ batch ∷ batches, k))
                        (omega (arith, length-append (id ∷ queue) (batched batches))))),
          record {
            in_degree = f.in_degree;
            round =
                subst (λ l. IsRound ids deps l [] f.in_degree)
                  (append_assoc done (id ∷ queue) (batched batches)) f.round;
            layered = (queue-deps done (id ∷ queue) in_degree r, f.layered);
            numbered = (
              refl,
              subst (λ k. IsNumbered k batches) (omega (arith, length-append before (batch ∷ [])))
                  f.numbered,
            );
          },
        )
