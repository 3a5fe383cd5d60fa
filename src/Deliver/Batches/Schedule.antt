-- ===== src/Deliver/Batches/Schedule.antt =====
-- `compute_batches` of src/deliver/delivery_graph.rs puts every node into one batch, behind its
-- dependencies, and refuses exactly the graphs with a cycle.
use mmat.Prelude.{
  ℕ, suc, ◌≤◌, ◌≡◌, ap, subst, inl, inr, false, some, List, [], ◌∷◌, arith, ◌==◌, ==_iff, contains,
  ◌∈◌, length, count, Bool-cases, Option-cases,
}
use mmat.Prelude.Map
use mmat.Prelude.Map.{Map, contains-keys, contains_of_get, length-keys}
use mmat.Prelude.Nodup.{IsNodup, length_le_of_subset}
use mmat.Prelude.Placed.{placed-nil}
use mmat.Prelude.Search.{successors}
use mmat.Deliver.DeliveryGraph.{DeliveryNode, DeliveryBatch, DeliveryGraph, node_edges}
use mmat.Deliver.DeliveryGraph.Cycles.{dependency_edges}
use mmat.Deliver.DeliveryGraph.Valid.{IsClosedGraph}
use mmat.Deliver.Batches.{Degrees, Dependents, collect, sources, finish_batches, compute_batches}
use mmat.Deliver.Batches.Degrees.{
  sum_at, sum_at-get, sum_at-absent, IsFilled, AreKnown, collect-IsFilled, collect-keeps, count_of,
  count_of-collect,
}
use mmat.Deliver.Batches.Counted.{
  IsRaised, count_degrees-IsRaised, contains-sources, IsNodup-sources,
}
use mmat.Deliver.Batches.Rounds.{IsRound}
use mmat.Deliver.Batches.Loop.{batched, IsFinished, batch_loop-IsFinished}

AreKnown-of_edges :
    (known : List ℕ) (nodes : Map DeliveryNode)
    → IsNodup (Map.keys nodes)
    → ((n : ℕ) → n ∈ Map.keys nodes → n ∈ known)
    → ((n m : ℕ) → m ∈ successors node_edges nodes n → m ∈ known)
    → AreKnown known nodes
AreKnown-of_edges known [] u k e = tt
AreKnown-of_edges known ((id, node) ∷ nodes) u k e = (
  k id (ground (arith, ==_iff id id)),
  λ m h. e id m (ground (arith, ==_iff id id)),
  AreKnown-of_edges known nodes u.1 (λ n h. k n (ground arith))
      λ n m h. elim (Bool-cases (id == n)) [
        | inl same ↦ absurd (ground (arith, u.0, contains-keys nodes n, ==_iff id n))
        | inr other ↦ e n m (ground arith)
      ],
)

module _ (graph : DeliveryGraph) (g : IsClosedGraph graph) where
  abbrev pub ids : List ℕ
  ids = Map.keys graph.nodes

  abbrev pub deps : ℕ → List ℕ
  deps = dependency_edges graph

  abbrev pub tables : Degrees × Dependents
  tables = collect graph.nodes ([], [])

  filled : IsFilled ids tables.0
  filled =
      collect-IsFilled ids graph.nodes [] []
        (AreKnown-of_edges ids graph.nodes g.nodup (λ n h. h) g.known)
        (record { zeros = λ n d e. absurd (ground arith); nodup = tt })

  keeps : (n : ℕ) → n ∈ ids → n ∈ Map.keys tables.0
  keeps n h = collect-keeps n graph.nodes [] [] (ground arith)

  sum_at-deps :
      (n : ℕ) (f : List ℕ → ℕ)
      → n ∈ ids
      → sum_at n (λ node. f node.dependencies) graph.nodes ≡ f (deps n)
  sum_at-deps n f h = elim (Option-cases (Map.get graph.nodes n)) [
    | inl absent ↦ absurd (ground (arith, contains-keys graph.nodes n))
    | inr (node, e) ↦
        ground (arith, sum_at-get n (λ node. f node.dependencies) graph.nodes node g.nodup e)
  ]

  listed : (m n : ℕ) → n ∈ ids → count_of tables.1 m n ≡ count m (deps n)
  listed m n h = omega (arith, count_of-collect m n graph.nodes [] [], sum_at-deps n (count m) h)

  unlisted : (m n : ℕ) → contains ids n ≡ false → count_of tables.1 m n ≡ 0
  unlisted m n h = omega (
    arith,
    count_of-collect m n graph.nodes [] [],
    sum_at-absent n (λ node. count m node.dependencies) graph.nodes h,
  )

  abbrev Raised : Degrees → Type 0
  Raised = IsRaised (λ n. sum_at n (λ node. length node.dependencies) graph.nodes) tables.0

  raised :
      (degrees : Degrees)
      → Raised degrees
      → (n : ℕ) → n ∈ ids
      → Map.get degrees n ≡ some (length (deps n))
  raised degrees r n h = elim (Option-cases (Map.get tables.0 n)) [
    | inl absent ↦ absurd (ground (arith, keeps n h, contains-keys tables.0 n))
    | inr (d, e) ↦ ground (arith, r.raised n d e, filled.zeros n d e, sum_at-deps n length h)
  ]

  unraised : (degrees : Degrees) → Raised degrees → (n d : ℕ) → Map.get degrees n ≡ some d → n ∈ ids
  unraised degrees r n d h = elim (Option-cases (Map.get tables.0 n)) [
    | inl absent ↦ absurd (ground (arith, r.absent n absent))
    | inr (c, e) ↦ (filled.zeros n c e).1
  ]

  first-IsRound :
      (degrees : Degrees) → Raised degrees → IsRound ids deps [] (sources degrees) degrees
  first-IsRound degrees r = record {
    degree =
        λ n d e. ground (arith, raised degrees r n (unraised degrees r n d e), placed-nil (deps n));
    present = λ n h. (length (deps n), raised degrees r n h);
    known = unraised degrees r;
    zero_iff = λ n. contains-sources degrees n r.nodup;
    nodup = IsNodup-sources degrees r.nodup;
  }

  length_le-degrees : (degrees : Degrees) → Raised degrees → length ids ≤ length degrees
  length_le-degrees degrees r =
      subst (λ k. length ids ≤ k) (length-keys degrees)
        (length_le_of_subset ids (Map.keys degrees) g.nodup
          (λ n h. contains_of_get degrees n (length (deps n)) (raised degrees r n h)))

  abbrev pub Returns : Type 0
  Returns =
      (batches : List DeliveryBatch) × (compute_batches graph
        ≡ some (finish_batches graph (batches, length (batched batches))))
      × IsFinished ids deps tables.1 [] 0 batches

  pub returns : Returns
  unfolding compute_batches
  returns =
      let (degrees, counted, r) = count_degrees-IsRaised graph.nodes tables.0 filled.nodup keeps in
      let (batches, ran, f) =
        batch_loop-IsFinished ids deps tables.1 listed unlisted (suc (suc (length degrees))) []
          (sources degrees) degrees [] 0 (first-IsRound degrees r)
          (omega (arith, length_le-degrees degrees r)) in
      (
        batches,
        rw (counted, ran) (ap (λ (k : ℕ). some (finish_batches graph (batches, k))) (omega arith)),
        f,
      )
