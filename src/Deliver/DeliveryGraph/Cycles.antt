-- ===== src/Deliver/DeliveryGraph/Cycles.antt =====
-- `would_create_cycle` of src/deliver/delivery_graph.rs decides whether a path of dependencies
-- leads from the end of a new edge back to its start.
use mmat.Prelude.{
  ℕ, zero, suc, ◌+◌, ◌<◌, ◌≡◌, ◌≢◌, refl, subst, ◌↔◌, inl, inr, true, false, ◌||◌, none, some, List,
  [], ◌∷◌, ◌++◌, arith, ◌==◌, ==_iff, contains, ◌∈◌, contains-append, length, length-append,
  Bool-cases, Option-cases,
}
use mmat.Prelude.Map
use mmat.Prelude.Map.{Map}
use mmat.Prelude.Reach.{Reach, here, step, Reach-closed}
use mmat.Prelude.Search.{successors, open_edges, open_edges-cons_le, open_edges-visit}
use mmat.Deliver.DeliveryGraph.{
  DeliveryNode, DeliveryGraph, node_edges, cycle_loop, would_create_cycle,
}

module _ (nodes : Map DeliveryNode) (from : ℕ) where
  abbrev next : ℕ → List ℕ
  next = successors node_edges nodes

  cycle_loop-ne-none :
      (fuel : ℕ) (queue visited : List ℕ)
      → length queue + open_edges node_edges visited nodes < fuel
      → cycle_loop fuel nodes from queue visited ≢ none
  unfolding cycle_loop
  cycle_loop-ne-none zero queue visited h = absurd (omega arith)
  cycle_loop-ne-none (suc fuel) [] visited h = ground arith
  cycle_loop-ne-none (suc fuel) (id ∷ queue) visited h = elim (Bool-cases (id == from)) [
    | inl found ↦ rw (cycle_loop, found) (ground arith)
    | inr away ↦ elim (Bool-cases (contains visited id)) [
      | inl old ↦ rw (cycle_loop, away, old) (cycle_loop-ne-none fuel queue visited (omega arith))
      | inr new ↦ elim (Option-cases (Map.get nodes id)) [
        | inl absent ↦
            rw (cycle_loop, away, new, absent)
              (cycle_loop-ne-none fuel queue (id ∷ visited)
                (omega (arith, open_edges-cons_le node_edges id visited nodes)))
        | inr (node, known) ↦
            rw (cycle_loop, away, new, known)
              (cycle_loop-ne-none fuel (queue ++ node.dependencies) (id ∷ visited) (
                omega (
                  arith,
                  open_edges-visit node_edges id visited nodes node new known,
                  length-append queue node.dependencies,
                )))
      ]
    ]
  ]

  abbrev Hits : List ℕ → Type 0
  Hits queue = (a : ℕ) × (a ∈ queue) × Reach next a from

  cycle_loop_sound :
      (fuel : ℕ) (queue visited : List ℕ)
      → cycle_loop fuel nodes from queue visited ≡ some true
      → Hits queue
  unfolding cycle_loop
  cycle_loop_sound zero queue visited h = absurd (ground arith)
  cycle_loop_sound (suc fuel) [] visited h = absurd (ground arith)
  cycle_loop_sound (suc fuel) (id ∷ queue) visited h = elim (Bool-cases (id == from)) [
    | inl found ↦ (id, ground arith, subst (Reach next id) ((==_iff id from).0 found) (here id))
    | inr away ↦ elim (Bool-cases (contains visited id)) [
      | inl old ↦
          let (a, m, p) = cycle_loop_sound fuel queue visited (rw (cycle_loop, away, old) at h) in
          (a, ground arith, p)
      | inr new ↦ elim (Option-cases (Map.get nodes id)) [
        | inl absent ↦
            let (a, m, p) =
              cycle_loop_sound fuel queue (id ∷ visited)
                (rw (cycle_loop, away, new, absent) at h) in
            (a, ground arith, p)
        | inr (node, known) ↦
            let (a, m, p) =
              cycle_loop_sound fuel (queue ++ node.dependencies) (id ∷ visited)
                (rw (cycle_loop, away, new, known) at h) in
            elim (Bool-cases (contains queue a)) [
              | inl waiting ↦ (a, ground arith, p)
              | inr dep ↦ (
                id,
                ground arith,
                step {b = a} (ground (arith, contains-append queue node.dependencies a)) p,
              )
            ]
      ]
    ]
  ]

  record IsOpen (queue visited : List ℕ) : Type 0 where
    follows : (a b : ℕ) → a ∈ visited → b ∈ next a → (contains visited b || contains queue b) ≡ true
    misses : contains visited from ≡ false

  abbrev Covers : List ℕ → List ℕ → Type 0
  Covers queue visited =
      (final : List ℕ) × ((a b : ℕ) → a ∈ final → b ∈ next a → b ∈ final)
      × (contains final from ≡ false)
      × ((a : ℕ) → (contains visited a || contains queue a) ≡ true → a ∈ final)

  IsOpen-visit :
      (id : ℕ) (queue visited : List ℕ)
      → (id == from) ≡ false
      → IsOpen (id ∷ queue) visited
      → IsOpen (queue ++ next id) (id ∷ visited)
  IsOpen-visit id queue visited away o = record {
    follows =
        λ a b ha e. ground (arith, o.follows a b, ==_iff id a, contains-append queue (next id) b);
    misses = ground (arith, o.misses);
  }

  cycle_loop_complete :
      (fuel : ℕ) (queue visited : List ℕ)
      → IsOpen queue visited
      → cycle_loop fuel nodes from queue visited ≡ some false
      → Covers queue visited
  unfolding cycle_loop
  cycle_loop_complete zero queue visited o h = absurd (ground arith)
  cycle_loop_complete (suc fuel) [] visited o h =
      (visited, λ a b ha e. ground (arith, o.follows a b ha e), o.misses, λ a ha. ground arith)
  cycle_loop_complete (suc fuel) (id ∷ queue) visited o h = elim (Bool-cases (id == from)) [
    | inl found ↦ absurd (ground arith)
    | inr away ↦ elim (Bool-cases (contains visited id)) [
      | inl old ↦
          let (final, closed, misses, holds) =
            cycle_loop_complete fuel queue visited
              (record {
                follows = λ a b ha e. ground (arith, o.follows a b ha e);
                misses = o.misses;
              })
              (rw (cycle_loop, away, old) at h) in
          (final, closed, misses, λ a ha. holds a (ground (arith, ==_iff id a)))
      | inr new ↦ elim (Option-cases (Map.get nodes id)) [
        | inl absent ↦
            let (final, closed, misses, holds) =
              cycle_loop_complete fuel queue (id ∷ visited)
                (record {
                  follows = λ a b ha e. ground (arith, o.follows a b, ==_iff id a);
                  misses = ground (arith, o.misses);
                })
                (rw (cycle_loop, away, new, absent) at h) in
            (final, closed, misses, λ a ha. holds a (ground arith))
        | inr (node, known) ↦
            let (final, closed, misses, holds) =
              cycle_loop_complete fuel (queue ++ node.dependencies) (id ∷ visited)
                (ground (arith, IsOpen-visit id queue visited away o))
                (rw (cycle_loop, away, new, known) at h) in
            (
              final,
              closed,
              misses,
              λ a ha. holds a (ground (arith, contains-append queue node.dependencies a)),
            )
      ]
    ]
  ]

abbrev pub dependency_edges : DeliveryGraph → ℕ → List ℕ
dependency_edges graph = successors node_edges graph.nodes

module _ (from to : ℕ) (graph : DeliveryGraph) where
  abbrev search_fuel : ℕ
  search_fuel = suc (suc (open_edges node_edges [] graph.nodes))

  -- The search of `would_create_cycle` ends within its fuel.
  pub would_create_cycle-terminates : cycle_loop search_fuel graph.nodes from (to ∷ []) [] ≢ none
  would_create_cycle-terminates =
      cycle_loop-ne-none graph.nodes from search_fuel (to ∷ []) [] (omega arith)

  would_create_cycle_sound :
      would_create_cycle from to graph ≡ true → Reach (dependency_edges graph) to from
  unfolding would_create_cycle
  would_create_cycle_sound h =
      let (a, m, p) = cycle_loop_sound graph.nodes from search_fuel (to ∷ []) [] (ground arith) in
      subst (λ x. Reach (dependency_edges graph) x from) (ground arith) p

  would_create_cycle_complete :
      would_create_cycle from to graph ≡ false → ¬ (Reach (dependency_edges graph) to from)
  unfolding would_create_cycle
  would_create_cycle_complete h p =
      let (final, closed, misses, holds) =
        cycle_loop_complete graph.nodes from search_fuel (to ∷ []) []
          (record { follows = λ a b ha. absurd (ground arith); misses = refl })
          (ground (arith, would_create_cycle-terminates)) in
      let last : from ∈ final = Reach-closed (λ x. x ∈ final) closed p (holds to (ground arith)) in
      absurd (ground arith)

  -- `would_create_cycle` returns `true` exactly when a path of zero or more dependencies leads
  -- from the end of the edge back to its start.
  pub would_create_cycle_iff :
      (would_create_cycle from to graph ≡ true) ↔ Reach (dependency_edges graph) to from
  would_create_cycle_iff = (
    would_create_cycle_sound,
    λ p. elim (Bool-cases (would_create_cycle from to graph)) [
      | inl found ↦ found
      | inr free ↦ absurd (would_create_cycle_complete free p)
    ],
  )
