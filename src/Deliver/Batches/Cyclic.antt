-- ===== src/Deliver/Batches/Cyclic.antt =====
-- The two results of `compute_batches` of src/deliver/delivery_graph.rs: a complete schedule, or
-- the cycle error.
use mmat.Prelude.{
  ℕ, ◌≡◌, ◌⊎◌, inl, inr, false, some, List, [], ◌∷◌, ◌++◌, arith, ◌==◌, ==_iff, contains, ◌∈◌,
  contains-append, length, ok, err, Bool-cases, Option-cases,
}
use mmat.Prelude.Map
use mmat.Prelude.Map.{length-keys, contains_of_get}
use mmat.Prelude.Nodup.{IsNodup, Subset, length_le_of_subset, subset_of_length}
use mmat.Prelude.Placed.{outside}
use mmat.Prelude.Reach.{Reach⁺, Reach-closed, IsAcyclic}
use mmat.Prelude.Trail.{no_walk}
use mmat.Deliver.DeliveryGraph.{cycle_detected, DeliveryBatch, DeliveryGraph}
use mmat.Deliver.DeliveryGraph.Cycles.{dependency_edges}
use mmat.Deliver.DeliveryGraph.Valid.{IsClosedGraph}
use mmat.Deliver.Batches.{finish_batches, compute_batches}
use mmat.Deliver.Batches.Rounds.{IsNodup-parts}
use mmat.Deliver.Batches.Loop.{batched, IsLayered, IsNumbered, IsFinished, IsRound-Subset}
use mmat.Deliver.Batches.Schedule.{returns, ids, deps, tables}

-- Every node in exactly one batch, behind its dependencies; the batches are numbered from zero.
pub record IsSchedule (graph : DeliveryGraph) (batches : List DeliveryBatch) : Type 0 where
  pub nodup : IsNodup (batched batches)
  pub complete : (n : ℕ) → contains (batched batches) n ≡ contains (Map.keys graph.nodes) n
  pub layered : IsLayered (dependency_edges graph) [] batches
  pub numbered : IsNumbered 0 batches

-- `compute_batches` sets the batches to a schedule, and nothing else.
abbrev pub Schedules : DeliveryGraph → Type 0
Schedules graph =
    (batches : List DeliveryBatch) × (compute_batches graph
      ≡ some (ok (record graph { batches = batches })))
    × IsSchedule graph batches

-- No cycle passes through ids that stand in layers.
layered-no_cycle :
    (next : ℕ → List ℕ) (done : List ℕ) (batches : List DeliveryBatch)
    → IsLayered next done batches
    → ((a b : ℕ) → a ∈ done → b ∈ next a → b ∈ done)
    → ((a : ℕ) → a ∈ done → ¬ (Reach⁺ next a a))
    → (a : ℕ) → a ∈ (done ++ batched batches)
    → ¬ (Reach⁺ next a a)
layered-no_cycle next done [] l closed free a h = free a (ground (arith, contains-append done [] a))
layered-no_cycle next done (batch ∷ batches) l closed free a h =
    layered-no_cycle next (done ++ batch.nodes) batches l.1
      (λ x y hx e. elim (Bool-cases (contains done x)) [
        | inl old ↦ ground (arith, closed x y, contains-append done batch.nodes y)
        | inr new ↦ ground (
          arith,
          l.0 x (ground (arith, contains-append done batch.nodes x)) y e,
          contains-append done batch.nodes y,
        )
      ])
      (λ x hx cycle. elim (Bool-cases (contains done x)) [
        | inl old ↦ free x old cycle
        | inr new ↦
            let (b, e, p) = cycle in
            let first : b ∈ done = l.0 x (ground (arith, contains-append done batch.nodes x)) b e in
            absurd (ground (arith, Reach-closed (λ y. y ∈ done) closed p first))
      ])
      a
      (ground (
        arith,
        contains-append done (batch.nodes ++ batched batches) a,
        contains-append batch.nodes (batched batches) a,
        contains-append (done ++ batch.nodes) (batched batches) a,
        contains-append done batch.nodes a,
      ))

module _ (graph : DeliveryGraph) (g : IsClosedGraph graph) where
  -- An id outside the batches has a dependency outside the batches.
  onward :
      (batches : List DeliveryBatch)
      → IsFinished (ids graph g) (deps graph g) (tables graph g).1 [] 0 batches
      → (a : ℕ) → (a ∈ Map.keys graph.nodes) × (contains (batched batches) a ≡ false)
      → (b : ℕ) × (b ∈ dependency_edges graph a)
        × ((b ∈ Map.keys graph.nodes) × (contains (batched batches) b ≡ false))
  onward batches f a (h, away) =
      let (d, e) = f.round.present a h in
      let (b, m, out) =
        outside (batched batches) (dependency_edges graph a)
          (ground (arith, f.round.degree a d e, f.round.zero_iff a)) in
      (b, m, (g.known a b m, out))

  no_rest :
      (batches : List DeliveryBatch)
      → IsFinished (ids graph g) (deps graph g) (tables graph g).1 [] 0 batches
      → IsAcyclic (dependency_edges graph)
      → Subset (Map.keys graph.nodes) (batched batches)
  no_rest batches f acyclic a h = elim (Bool-cases (contains (batched batches) a)) [
    | inl there ↦ there
    | inr away ↦ absurd (
        no_walk acyclic (λ x. (x ∈ Map.keys graph.nodes) × (contains (batched batches) x ≡ false))
          (Map.keys graph.nodes) (λ x px. px.0) (onward batches f) a (h, away))
  ]

  batched-Subset :
      (batches : List DeliveryBatch)
      → IsFinished (ids graph g) (deps graph g) (tables graph g).1 [] 0 batches
      → Subset (batched batches) (Map.keys graph.nodes)
  batched-Subset batches f =
      IsRound-Subset (ids graph g) (deps graph g) (batched batches) [] f.in_degree f.round

  batched-IsNodup :
      (batches : List DeliveryBatch)
      → IsFinished (ids graph g) (deps graph g) (tables graph g).1 [] 0 batches
      → IsNodup (batched batches)
  batched-IsNodup batches f = (IsNodup-parts (batched batches) [] f.round.nodup).0

  IsFinished-IsSchedule :
      (batches : List DeliveryBatch)
      → IsFinished (ids graph g) (deps graph g) (tables graph g).1 [] 0 batches
      → length (batched batches) ≡ length graph.nodes
      → IsSchedule graph batches
  IsFinished-IsSchedule batches f e = record {
    nodup = batched-IsNodup batches f;
    complete = λ n. elim (Bool-cases (contains (batched batches) n)) [
      | inl there ↦ ground (arith, batched-Subset batches f n there)
      | inr away ↦ elim (Bool-cases (contains (Map.keys graph.nodes) n)) [
        | inl known ↦ absurd (
            ground (
              arith,
              subset_of_length (batched batches) (Map.keys graph.nodes) (batched-IsNodup batches f)
                  (batched-Subset batches f) (omega (arith, length-keys graph.nodes)) n known,
            ))
        | inr strange ↦ ground arith
      ]
    ];
    layered = f.layered;
    numbered = f.numbered;
  }

  IsSchedule-IsAcyclic :
      (batches : List DeliveryBatch) → IsSchedule graph batches → IsAcyclic (dependency_edges graph)
  IsSchedule-IsAcyclic batches s a (b, e, p) =
      layered-no_cycle (dependency_edges graph) [] batches s.layered
        (λ x y h. absurd (ground arith)) (λ x h. absurd (ground arith)) a
        (ground (arith, s.complete a, source_known a b e)) (b, e, p)
    where
      source_known : (x y : ℕ) → y ∈ dependency_edges graph x → x ∈ Map.keys graph.nodes
      source_known x y h = elim (Option-cases (Map.get graph.nodes x)) [
        | inl absent ↦ absurd (ground arith)
        | inr (node, known) ↦ contains_of_get graph.nodes x node known
      ]

  -- On a graph with one node under each id, whose dependencies are nodes of the graph,
  -- `compute_batches` always ends without a panic. If the dependencies have no cycle, it only sets
  -- the batches, and these hold every node exactly once, each node in a later batch than all of
  -- its dependencies, numbered from zero. If they have a cycle, it returns `CycleDetected`.
  pub compute_batches_lem :
      (IsAcyclic (dependency_edges graph) × Schedules graph)
      ⊎ ((¬ (IsAcyclic (dependency_edges graph)))
          × (compute_batches graph ≡ some (err cycle_detected)))
  unfolding finish_batches
  compute_batches_lem =
      let (batches, ran, f) = returns graph g in
      elim (Bool-cases (length (batched batches) == length graph.nodes)) [
        | inl all ↦
            let s = IsFinished-IsSchedule batches f ((==_iff _ _).0 all) in
            inl (IsSchedule-IsAcyclic batches s, (batches, rw all at ran, s))
        | inr fewer ↦ inr (
          λ acyclic. absurd (
              ground (
                arith,
                length_le_of_subset (batched batches) (Map.keys graph.nodes)
                    (batched-IsNodup batches f) (batched-Subset batches f),
                length_le_of_subset (Map.keys graph.nodes) (batched batches) g.nodup
                    (no_rest batches f acyclic),
                length-keys graph.nodes,
                ==_iff (length (batched batches)) (length graph.nodes),
              )),
          rw fewer at ran,
        )
      ]
