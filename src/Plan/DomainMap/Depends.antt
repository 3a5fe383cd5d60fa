-- ===== src/Plan/DomainMap/Depends.antt =====
-- `depends_on` of src/plan/domain_map.rs decides whether a path of dependencies leads from one
-- node to another.
use mmat.Prelude.{
  ℕ, zero, suc, ◌+◌, ◌<◌, ◌≡◌, ◌≢◌, refl, subst, ◌↔◌, inl, inr, true, false, ◌||◌, none, some, List,
  [], ◌∷◌, arith, ◌==◌, ==_iff, contains, ◌∈◌, length, Bool-cases, Option-cases,
}
use mmat.Prelude.Map
use mmat.Prelude.Map.{Map}
use mmat.Prelude.Reach.{here, step, Reach⁺}
use mmat.Prelude.Search.{
  successors, open_edges, open_edges-cons_le, open_edges-visit, IsClosed, not-Reach⁺,
}
use mmat.Plan.DomainMap.{
  DomainNode, DomainTree, node_edges, push_dependencies, depends_loop, depends_on,
}

push_dependencies-none :
    (target : ℕ) (deps stack : List ℕ) → push_dependencies target deps stack ≡ none → target ∈ deps
unfolding push_dependencies
push_dependencies-none target [] stack h = absurd (ground arith)
push_dependencies-none target (d ∷ deps) stack h =
    ground (arith, push_dependencies-none target deps (d ∷ stack))

contains-ne : (xs : List ℕ) (a b : ℕ) → contains xs a ≡ false → b ∈ xs → (b == a) ≡ false
contains-ne [] a b h m = absurd (ground arith)
contains-ne (x ∷ xs) a b h m = ground (arith, contains-ne xs a b)

record IsPushed (target : ℕ) (deps stack stack' : List ℕ) : Type 0 where
  misses : contains deps target ≡ false
  holds : (a : ℕ) → contains stack' a ≡ (contains deps a || contains stack a)
  size : length stack' ≡ length deps + length stack

push_dependencies-some :
    (target : ℕ) (deps stack stack' : List ℕ)
    → push_dependencies target deps stack ≡ some stack'
    → IsPushed target deps stack stack'
unfolding push_dependencies
push_dependencies-some target [] stack stack' h = record {
  misses = refl;
  holds = λ a. ground arith;
  size = ground arith;
}
push_dependencies-some target (d ∷ deps) stack stack' h = elim (Bool-cases (d == target)) [
  | inl e ↦ absurd (ground arith)
  | inr e ↦
      let p = push_dependencies-some target deps (d ∷ stack) stack' (rw e at h) in
      record {
        misses = ground (arith, p.misses);
        holds = λ a. ground (arith, p.holds a);
        size = omega (arith, p.size);
      }
]

module _ (nodes : Map DomainNode) (target : ℕ) where
  abbrev next : ℕ → List ℕ
  next = successors node_edges nodes

  -- With the fuel that `depends_on` gives, the loop ends.
  depends_loop-ne-none :
      (fuel : ℕ) (stack visited : List ℕ)
      → length stack + open_edges node_edges visited nodes < fuel
      → depends_loop fuel nodes target stack visited ≢ none
  unfolding depends_loop
  depends_loop-ne-none zero stack visited h = absurd (omega arith)
  depends_loop-ne-none (suc fuel) [] visited h = ground arith
  depends_loop-ne-none (suc fuel) (id ∷ stack) visited h = elim (Bool-cases (contains visited id)) [
    | inl old ↦ rw (depends_loop, old) (depends_loop-ne-none fuel stack visited (omega arith))
    | inr new ↦ elim (Option-cases (Map.get nodes id)) [
      | inl absent ↦
          rw (depends_loop, new, absent)
            (depends_loop-ne-none fuel stack (id ∷ visited)
              (omega (arith, open_edges-cons_le node_edges id visited nodes)))
      | inr (node, found) ↦ elim (Option-cases (push_dependencies target node.dependencies stack)) [
        | inl hit ↦ rw (depends_loop, new, found, hit) (ground arith)
        | inr (stack', pushed) ↦
            rw (depends_loop, new, found, pushed)
              (depends_loop-ne-none fuel stack' (id ∷ visited) (
                omega (
                  arith,
                  open_edges-visit node_edges id visited nodes node new found,
                  (push_dependencies-some target node.dependencies stack stack' pushed).size,
                )))
      ]
    ]
  ]

  abbrev Hits : List ℕ → Type 0
  Hits stack = (a : ℕ) × (a ∈ stack) × Reach⁺ next a target

  Reach⁺-of_edge : (id : ℕ) → target ∈ next id → Reach⁺ next id target
  Reach⁺-of_edge id e = (target, e, here target)

  -- A hit on the stack that a visit leaves behind is a hit on the stack before.
  Hits-of_pushed :
      (id : ℕ) (node : DomainNode) (stack stack' : List ℕ)
      → Map.get nodes id ≡ some node
      → IsPushed target node.dependencies stack stack'
      → Hits stack'
      → Hits (id ∷ stack)
  Hits-of_pushed id node stack stack' found p (a, m, r) =
      elim (Bool-cases (contains node.dependencies a)) [
        | inl dep ↦ (id, ground arith, (a, ground arith, step r.1 r.2))
        | inr other ↦ (a, ground (arith, p.holds a), r)
      ]

  -- A search that returns `true` has found a path from the stack.
  depends_loop_sound :
      (fuel : ℕ) (stack visited : List ℕ)
      → depends_loop fuel nodes target stack visited ≡ some true
      → Hits stack
  unfolding depends_loop
  depends_loop_sound zero stack visited h = absurd (ground arith)
  depends_loop_sound (suc fuel) [] visited h = absurd (ground arith)
  depends_loop_sound (suc fuel) (id ∷ stack) visited h = elim (Bool-cases (contains visited id)) [
    | inl old ↦
        let (a, m, r) = depends_loop_sound fuel stack visited (rw (depends_loop, old) at h) in
        (a, ground arith, r)
    | inr new ↦ elim (Option-cases (Map.get nodes id)) [
      | inl absent ↦
          let (a, m, r) =
            depends_loop_sound fuel stack (id ∷ visited) (rw (depends_loop, new, absent) at h) in
          (a, ground arith, r)
      | inr (node, found) ↦ elim (Option-cases (push_dependencies target node.dependencies stack)) [
        | inl hit ↦ (
          id,
          ground arith,
          Reach⁺-of_edge id
              (ground (arith, push_dependencies-none target node.dependencies stack hit)),
        )
        | inr (stack', pushed) ↦
            Hits-of_pushed id node stack stack' found
              (push_dependencies-some target node.dependencies stack stack' pushed)
              (depends_loop_sound fuel stack' (id ∷ visited)
                (rw (depends_loop, new, found, pushed) at h))
      ]
    ]
  ]

  -- What a search has seen: the ids it has visited, whose edges it has followed, and its stack.
  record IsOpen (stack visited : List ℕ) : Type 0 where
    follows : (a b : ℕ) → a ∈ visited → b ∈ next a → (contains visited b || contains stack b) ≡ true
    misses : (a b : ℕ) → a ∈ visited → b ∈ next a → (b == target) ≡ false

  abbrev Covers : List ℕ → List ℕ → Type 0
  Covers stack visited =
      (final : List ℕ) × IsClosed next target final
      × ((a : ℕ) → (contains visited a || contains stack a) ≡ true → a ∈ final)

  IsOpen-skip :
      (id : ℕ) (stack visited : List ℕ)
      → id ∈ visited
      → IsOpen (id ∷ stack) visited
      → IsOpen stack visited
  IsOpen-skip id stack visited old o = record {
    follows = λ a b ha e. ground (arith, o.follows a b ha e);
    misses = o.misses;
  }

  IsOpen-absent :
      (id : ℕ) (stack visited : List ℕ)
      → Map.get nodes id ≡ none
      → IsOpen (id ∷ stack) visited
      → IsOpen stack (id ∷ visited)
  IsOpen-absent id stack visited absent o = record {
    follows = λ a b ha e. ground (arith, o.follows a b, ==_iff id a);
    misses = λ a b ha e. ground (arith, o.misses a b, ==_iff id a);
  }

  IsOpen-visit :
      (id : ℕ) (node : DomainNode) (stack stack' visited : List ℕ)
      → Map.get nodes id ≡ some node
      → IsPushed target node.dependencies stack stack'
      → IsOpen (id ∷ stack) visited
      → IsOpen stack' (id ∷ visited)
  IsOpen-visit id node stack stack' visited found p o = record {
    follows = λ a b ha e. ground (arith, o.follows a b, ==_iff id a, p.holds b);
    misses = λ a b ha e.
        ground (arith, o.misses a b, ==_iff id a, p.misses, contains-ne node.dependencies target b);
  }

  -- A search that returns `false` has covered its stack by a set that no edge leaves.
  depends_loop_complete :
      (fuel : ℕ) (stack visited : List ℕ)
      → IsOpen stack visited
      → depends_loop fuel nodes target stack visited ≡ some false
      → Covers stack visited
  unfolding depends_loop
  depends_loop_complete zero stack visited o h = absurd (ground arith)
  depends_loop_complete (suc fuel) [] visited o h = (
    visited,
    record { stays = λ a b ha e. ground (arith, o.follows a b ha e); misses = o.misses },
    λ a ha. ground arith,
  )
  depends_loop_complete (suc fuel) (id ∷ stack) visited o h =
      elim (Bool-cases (contains visited id)) [
        | inl old ↦
            let (final, closed, holds) =
              depends_loop_complete fuel stack visited (IsOpen-skip id stack visited old o)
                (rw (depends_loop, old) at h) in
            (final, closed, λ a ha. holds a (ground (arith, ==_iff id a)))
        | inr new ↦ elim (Option-cases (Map.get nodes id)) [
          | inl absent ↦
              let (final, closed, holds) =
                depends_loop_complete fuel stack (id ∷ visited)
                  (IsOpen-absent id stack visited absent o) (rw (depends_loop, new, absent) at h) in
              (final, closed, λ a ha. holds a (ground arith))
          | inr (node, found) ↦
              elim (Option-cases (push_dependencies target node.dependencies stack)) [
                | inl hit ↦ absurd (ground arith)
                | inr (stack', pushed) ↦
                    let p = push_dependencies-some target node.dependencies stack stack' pushed in
                    let (final, closed, holds) =
                      depends_loop_complete fuel stack' (id ∷ visited)
                        (IsOpen-visit id node stack stack' visited found p o)
                        (rw (depends_loop, new, found, pushed) at h) in
                    (final, closed, λ a ha. holds a (ground (arith, p.holds a)))
              ]
        ]
      ]

abbrev pub dependency_edges : DomainTree → ℕ → List ℕ
dependency_edges tree = successors node_edges tree.nodes

module _ (tree : DomainTree) (node_id target_id : ℕ) where
  abbrev search_fuel : ℕ
  search_fuel = suc (suc (open_edges node_edges [] tree.nodes))

  -- The search of `depends_on` ends within its fuel.
  pub depends_on-terminates : depends_loop search_fuel tree.nodes target_id (node_id ∷ []) [] ≢ none
  depends_on-terminates =
      depends_loop-ne-none tree.nodes target_id search_fuel (node_id ∷ []) [] (omega arith)

  depends_on_sound :
      depends_on tree node_id target_id ≡ true → Reach⁺ (dependency_edges tree) node_id target_id
  unfolding depends_on
  depends_on_sound h =
      let (a, m, r) =
        depends_loop_sound tree.nodes target_id search_fuel (node_id ∷ []) [] (ground arith) in
      subst (λ x. Reach⁺ (dependency_edges tree) x target_id) (ground arith) r

  depends_on_complete :
      depends_on tree node_id target_id ≡ false
      → ¬ (Reach⁺ (dependency_edges tree) node_id target_id)
  unfolding depends_on
  depends_on_complete h =
      let (final, closed, holds) =
        depends_loop_complete tree.nodes target_id search_fuel (node_id ∷ []) []
          (record {
            follows = λ a b ha. absurd (ground arith);
            misses = λ a b ha. absurd (ground arith);
          })
          (ground (arith, depends_on-terminates)) in
      not-Reach⁺ closed node_id (holds node_id (ground arith))

  -- `depends_on` returns `true` exactly when a path of one or more dependencies leads from the
  -- first node to the second.
  pub depends_on_iff :
      (depends_on tree node_id target_id ≡ true) ↔ Reach⁺ (dependency_edges tree) node_id target_id
  depends_on_iff = (
    depends_on_sound,
    λ r. elim (Bool-cases (depends_on tree node_id target_id)) [
      | inl yes_it ↦ yes_it
      | inr no_it ↦ absurd (depends_on_complete no_it r)
    ],
  )
