-- ===== src/Deliver/Batches/Release.antt =====
-- One round of `compute_batches` of src/deliver/delivery_graph.rs: the in-degrees fall, and the ids
-- whose in-degree reaches zero are queued.
use mmat.Prelude.{
  ℕ, zero, suc, ◌-◌, ◌≤◌, ◌<◌, ◌≡◌, refl, inl, inr, Bool, false, ◌&&◌, ◌||◌, Option, none, some,
  List, [], ◌∷◌, ◌++◌, arith, ltb, ◌==◌, ==_iff, contains, ◌∈◌, contains-append, count,
  count-append, unwrap_or, option_then, Bool-cases, Option-cases, if◌then◌else◌,
}
use mmat.Prelude.Map
use mmat.Prelude.Map.{Map, get-insert}
use mmat.Prelude.Nodup.{IsNodup, IsNodup-append}
use mmat.Prelude.Placed.{placed, placed-cons, placed-nil}
use mmat.Deliver.Batches.{Degrees, Dependents, release, release_batch}
use mmat.Deliver.Batches.Degrees.{count_of}

-- Each id of `dependents` has an entry, which can be lowered as often as the id occurs.
abbrev pub CanRelease : List ℕ → Degrees → Type 0
CanRelease dependents in_degree =
    (n : ℕ)
    → 0 < count n dependents
    → (d : ℕ) × (Map.get in_degree n ≡ some d) × (count n dependents ≤ d)

-- Whether lowering by the occurrences of `n` takes its entry to zero.
abbrev pub hits : List ℕ → ℕ → Option ℕ → Bool
hits dependents n none = false
hits dependents n (some d) = ltb 0 (count n dependents) && count n dependents == d

pub record IsReleased (dependents : List ℕ) (in_degree : Degrees) (queue : List ℕ) (after : Degrees)
    (queue' : List ℕ) : Type 0 where
  pub absent : (n : ℕ) → Map.get in_degree n ≡ none → Map.get after n ≡ none
  pub lowered :
      (n d : ℕ) → Map.get in_degree n ≡ some d → Map.get after n ≡ some (d - count n dependents)
  pub queued :
      (n : ℕ) → contains queue' n ≡ (contains queue n || hits dependents n (Map.get in_degree n))
  pub nodup : IsNodup queue'

abbrev Releases : List ℕ → Degrees → List ℕ → Type 0
Releases dependents in_degree queue =
    (after : Degrees) × (queue' : List ℕ) × (release dependents (in_degree, queue)
      ≡ some (after, queue'))
    × IsReleased dependents in_degree queue after queue'

-- The ids in the queue have in-degree zero.
abbrev AreZero : Degrees → List ℕ → Type 0
AreZero in_degree queue = (n : ℕ) → n ∈ queue → Map.get in_degree n ≡ some 0

module _ (x d : ℕ) (rest : List ℕ) (in_degree : Degrees)
    (entry : Map.get in_degree x ≡ some (suc d)) where
  abbrev lower : Degrees
  lower = Map.insert x d in_degree

  abbrev push : List ℕ → List ℕ
  push queue = if d == 0 then queue ++ x ∷ [] else queue

  CanRelease-lower : CanRelease (x ∷ rest) in_degree → CanRelease rest lower
  CanRelease-lower can n h =
      let (c, e, le) = can n (ground arith) in
      elim (Bool-cases (x == n)) [
        | inl same ↦
            (d, ground (arith, get-insert x n d in_degree, ==_iff x n), ground (arith, ==_iff x n))
        | inr other ↦ (c, ground (arith, get-insert x n d in_degree, ==_iff x n), ground arith)
      ]

  AreZero-lower : (queue : List ℕ) → AreZero in_degree queue → AreZero lower (push queue)
  AreZero-lower queue z n h =
      ground (arith, get-insert x n d in_degree, ==_iff x n, z n, contains-append queue (x ∷ []) n)

  IsNodup-push : (queue : List ℕ) → AreZero in_degree queue → IsNodup queue → IsNodup (push queue)
  IsNodup-push queue z u = elim (Bool-cases (d == 0)) [
    | inl e ↦ rw e (
        IsNodup-append queue (x ∷ []) u (refl, tt)
          (λ a h. elim (Bool-cases (contains queue a)) [
            | inl old ↦ absurd (ground (arith, z a old, ==_iff x a))
            | inr new ↦ new
          ]))
    | inr e ↦ rw e u
  ]

  IsReleased-lower :
      (queue : List ℕ) (after : Degrees) (queue' : List ℕ)
      → count x rest ≤ d
      → IsReleased rest lower (push queue) after queue'
      → IsReleased (x ∷ rest) in_degree queue after queue'
  IsReleased-lower queue after queue' le r = record {
    absent = λ n e. r.absent n (ground (arith, get-insert x n d in_degree, ==_iff x n));
    lowered = λ n c e. elim (Bool-cases (x == n)) [
      | inl same ↦ ground (arith, r.lowered n d, get-insert x n d in_degree, ==_iff x n)
      | inr other ↦ ground (arith, r.lowered n c, get-insert x n d in_degree, ==_iff x n)
    ];
    queued = λ n. elim (Bool-cases (x == n)) [
      | inl same ↦ ground (
        arith,
        r.queued n,
        get-insert x n d in_degree,
        ==_iff x n,
        contains-append queue (x ∷ []) n,
      )
      | inr other ↦ ground (
        arith,
        r.queued n,
        get-insert x n d in_degree,
        ==_iff x n,
        contains-append queue (x ∷ []) n,
      )
    ];
    nodup = r.nodup;
  }

-- The first id of the list has a positive entry.
entry :
    (x : ℕ) (rest : List ℕ) (in_degree : Degrees)
    → CanRelease (x ∷ rest) in_degree
    → (d : ℕ) × (Map.get in_degree x ≡ some (suc d)) × (count x rest ≤ d)
entry x rest in_degree can = go (can x (ground (arith, ==_iff x x)))
  where
    go :
        (d : ℕ) × (Map.get in_degree x ≡ some d) × (count x (x ∷ rest) ≤ d)
        → (d : ℕ) × (Map.get in_degree x ≡ some (suc d)) × (count x rest ≤ d)
    go (zero, e, le) = absurd (ground (arith, ==_iff x x))
    go (suc d, e, le) = (d, e, ground (arith, ==_iff x x))

release-Releases :
    (dependents : List ℕ) (in_degree : Degrees) (queue : List ℕ)
    → CanRelease dependents in_degree
    → AreZero in_degree queue
    → IsNodup queue
    → Releases dependents in_degree queue
unfolding release
release-Releases [] in_degree queue can z u = (
  in_degree,
  queue,
  refl,
  record {
    absent = λ n e. e;
    lowered = λ n d e. ground arith;
    queued = λ n. ground arith;
    nodup = u;
  },
)
release-Releases (x ∷ rest) in_degree queue can z u =
    let (d, e, le) = entry x rest in_degree can in
    let (after, queue', done, r) =
      release-Releases rest (lower x d rest in_degree e) (push x d rest in_degree e queue)
        (CanRelease-lower x d rest in_degree e can) (AreZero-lower x d rest in_degree e queue z)
        (IsNodup-push x d rest in_degree e queue z u) in
    (
      after,
      queue',
      rw (release, e) done,
      IsReleased-lower x d rest in_degree e queue after queue' le r,
    )

-- The dependents of all nodes of a batch, in the order in which the code goes through them.
abbrev pub dependents_of : Dependents → List ℕ → List ℕ
dependents_of dependents [] = []
dependents_of dependents (m ∷ batch) =
    unwrap_or [] (Map.get dependents m) ++ dependents_of dependents batch

release-append :
    (xs ys : List ℕ) (state : Degrees × List ℕ)
    → release (xs ++ ys) state ≡ option_then (release xs state) (release ys)
unfolding release
release-append [] ys state = refl
release-append (x ∷ xs) ys (in_degree, queue) = elim (Option-cases (Map.get in_degree x)) [
  | inl e ↦ rw (release, e)
  | inr (zero, e) ↦ rw (release, e)
  | inr (suc d, e) ↦ rw (release, e) (release-append xs ys _)
]

release_batch-release :
    (dependents : Dependents) (batch : List ℕ) (state : Degrees × List ℕ)
    → release_batch dependents batch state ≡ release (dependents_of dependents batch) state
unfolding release_batch release
release_batch-release dependents [] state = refl
release_batch-release dependents (m ∷ batch) state =
    let now = unwrap_or [] (Map.get dependents m) in
    rw (release-append now (dependents_of dependents batch) state)
      (elim (Option-cases (release now state)) [
        | inl e ↦ rw e
        | inr (state', e) ↦ rw e (release_batch-release dependents batch state')
      ])

-- One round, where every dependent has room.
pub release_batch-IsReleased :
    (dependents : Dependents) (batch : List ℕ) (in_degree : Degrees)
    → CanRelease (dependents_of dependents batch) in_degree
    → (after : Degrees) × (queue' : List ℕ) × (release_batch dependents batch (in_degree, [])
        ≡ some (after, queue'))
      × IsReleased (dependents_of dependents batch) in_degree [] after queue'
release_batch-IsReleased dependents batch in_degree can =
    rw (release_batch-release dependents batch (in_degree, [])) (
      release-Releases (dependents_of dependents batch) in_degree [] can
        (λ n h. absurd (ground arith)) tt)

-- A node is released once for each of its dependencies that is in the batch.
pub count-dependents_of :
    (dependents : Dependents) (n : ℕ) (deps : List ℕ)
    → ((m : ℕ) → count_of dependents m n ≡ count m deps)
    → (batch : List ℕ) → IsNodup batch
    → count n (dependents_of dependents batch) ≡ placed batch deps
count-dependents_of dependents n deps h [] u = omega (arith, placed-nil deps)
count-dependents_of dependents n deps h (m ∷ batch) u = omega (
  arith,
  count-append n (unwrap_or [] (Map.get dependents m)) (dependents_of dependents batch),
  h m,
  count-dependents_of dependents n deps h batch u.1,
  placed-cons m batch deps u.0,
)
