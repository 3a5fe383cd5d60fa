-- ===== src/Plan/Backflow/Cascade.antt =====
-- What `compute` of src/plan/backflow.rs marks as affected.
use mmat.Prelude.{
  ℕ, zero, suc, ◌+◌, ◌≤◌, ◌<◌, ◌≡◌, refl, ◌↔◌, inl, inr, true, false, ◌||◌, some, List, [], ◌∷◌,
  arith, ◌==◌, ==_iff, leb, contains, ◌∈◌, length, any, Bool-cases, Option-cases,
}
use mmat.Prelude.Map
use mmat.Prelude.Map.{Map, get-insert, contains-keys, contains-keys_insert, contains_of_get}
use mmat.Prelude.Reach.{Reach, Reach-closed}
use mmat.Plan.DomainMap.{DomainNode, DomainTree}
use mmat.Plan.Backflow.{
  BackflowEvent, is_critical, with_cascade_depth, push_dependents, cascade_loop, edge_count,
  compute, is_affected, halted,
}
use mmat.Plan.Backflow.Walks.{
  dependents, Walk, start, Walk-Reach, AreWalks, push_dependents-AreWalks, contains-push_dependents,
  pending_edges, pending_edges_le, pending_edges-visit, pending_edges-cons_le,
}

module _ (nodes : Map DomainNode) (event : BackflowEvent) (max_depth : ℕ) where
  abbrev source : ℕ
  source = event.source_node_id

  -- Between two rounds of the loop.
  record IsCascading (stack : List (ℕ × ℕ)) (visited : List ℕ) (affected : Map BackflowEvent)
      : Type 0 where
    walks : AreWalks (dependents nodes) source max_depth stack
    events :
        (a : ℕ) (e : BackflowEvent)
        → Map.get affected a ≡ some e
        → Walk (dependents nodes) source a e.cascade_depth
          × (e.cascade_depth ≤ max_depth)
          × (e ≡ with_cascade_depth e.cascade_depth event)
    same : (a : ℕ) → contains visited a ≡ contains (Map.keys affected) a
    follows :
        (a b : ℕ) (e : BackflowEvent)
        → Map.get affected a ≡ some e
        → e.cascade_depth < max_depth
        → b ∈ dependents nodes a
        → (contains visited b || contains (Map.keys stack) b) ≡ true
    origin : (contains visited source || contains (Map.keys stack) source) ≡ true

  module _ (id depth : ℕ) (stack : List (ℕ × ℕ)) (visited : List ℕ) (affected : Map BackflowEvent)
      (c : IsCascading ((id, depth) ∷ stack) visited affected) where
    IsCascading-skip : contains visited id ≡ true → IsCascading stack visited affected
    IsCascading-skip old = record {
      walks = c.walks.2;
      events = c.events;
      same = c.same;
      follows = λ a b e h d m. ground (arith, c.follows a b e h d m, ==_iff id b);
      origin = ground (arith, c.origin, ==_iff id source);
    }

    abbrev more : Map BackflowEvent
    more = Map.insert id (with_cascade_depth depth event) affected

    IsCascading-visit :
        (stack' : List (ℕ × ℕ))
        → AreWalks (dependents nodes) source max_depth stack'
        → ((b : ℕ) → b ∈ Map.keys stack → b ∈ Map.keys stack')
        → ((b : ℕ) → depth < max_depth → b ∈ dependents nodes id → b ∈ Map.keys stack')
        → IsCascading stack' (id ∷ visited) more
    IsCascading-visit stack' walks kept pushed = record {
      walks = walks;
      events = λ a e h. elim (Bool-cases (id == a)) [
        | inl this ↦ this_event a e this h
        | inr other ↦
            c.events a e (ground (arith, get-insert id a (with_cascade_depth depth event) affected))
      ];
      same = λ a.
          ground
            (arith, c.same a, contains-keys_insert id a (with_cascade_depth depth event) affected);
      follows = λ a b e h d m. elim (Bool-cases (id == a)) [
        | inl this ↦ ground (
          arith,
          pushed b,
          get-insert id a (with_cascade_depth depth event) affected,
          ==_iff id a,
        )
        | inr other ↦ ground (
          arith,
          kept b,
          c.follows a b e,
          get-insert id a (with_cascade_depth depth event) affected,
        )
      ];
      origin = ground (arith, c.origin, kept source);
    }
      where
        this_event :
            (a : ℕ) (e : BackflowEvent)
            → (id == a) ≡ true
            → Map.get more a ≡ some e
            → Walk (dependents nodes) source a e.cascade_depth
              × (e.cascade_depth ≤ max_depth)
              × (e ≡ with_cascade_depth e.cascade_depth event)
        this_event a e this h =
            let e_is : with_cascade_depth depth event ≡ e =
              ground (arith, get-insert id a (with_cascade_depth depth event) affected) in
            rw (← e_is, ← (==_iff id a).0 this) (c.walks.0, c.walks.1, refl)

  abbrev Cascades : ℕ → List (ℕ × ℕ) → List ℕ → Map BackflowEvent → Type 0
  Cascades fuel stack visited affected =
      (final : Map BackflowEvent) × (seen : List ℕ) × (cascade_loop fuel nodes event max_depth stack
          visited affected
        ≡ some final)
      × IsCascading [] seen final

  -- With fuel for the stack and for each dependency not answered yet, the loop ends.
  cascade_loop-Cascades :
      (fuel : ℕ) (stack : List (ℕ × ℕ)) (visited : List ℕ) (affected : Map BackflowEvent)
      → IsCascading stack visited affected
      → length stack + pending_edges visited nodes < fuel
      → Cascades fuel stack visited affected
  unfolding cascade_loop
  cascade_loop-Cascades zero stack visited affected c h = absurd (omega arith)
  cascade_loop-Cascades (suc fuel) [] visited affected c h = (affected, visited, refl, c)
  cascade_loop-Cascades (suc fuel) ((id, depth) ∷ stack) visited affected c h =
      elim (Bool-cases (contains visited id)) [
        | inl old ↦
            let (final, seen, ran, r) =
              cascade_loop-Cascades fuel stack visited affected
                (IsCascading-skip id depth stack visited affected c old) (omega arith) in
            (final, seen, rw (cascade_loop, old) ran, r)
        | inr new ↦ elim (Bool-cases (leb max_depth depth)) [
          | inl deep ↦
              let (final, seen, ran, r) =
                cascade_loop-Cascades fuel stack (id ∷ visited)
                  (Map.insert id (with_cascade_depth depth event) affected)
                  (IsCascading-visit id depth stack visited affected c stack c.walks.2 (λ b m. m)
                    (λ b d m. absurd (ground arith)))
                  (omega (arith, pending_edges-cons_le id visited nodes new)) in
              (final, seen, rw (cascade_loop, new, deep) ran, r)
          | inr shallow ↦
              let (final, seen, ran, r) =
                cascade_loop-Cascades fuel (push_dependents id depth nodes stack) (id ∷ visited)
                  (Map.insert id (with_cascade_depth depth event) affected)
                  (IsCascading-visit id depth stack visited affected c
                    (push_dependents id depth nodes stack)
                    (push_dependents-AreWalks (dependents nodes) source max_depth id depth nodes
                      stack c.walks.0 (ground arith) (λ a m. m) c.walks.2)
                    (λ b m. ground (arith, contains-push_dependents id depth b nodes stack))
                    (λ b d m. ground (arith, contains-push_dependents id depth b nodes stack)))
                  (omega (arith, pending_edges-visit id depth visited nodes stack new)) in
              (final, seen, rw (cascade_loop, new, shallow) ran, r)
        ]
      ]

  IsCascading-start : IsCascading ((source, 0) ∷ []) [] []
  IsCascading-start = record {
    walks = (start, omega arith, tt);
    events = λ a e h. absurd (ground arith);
    same = λ a. refl;
    follows = λ a b e h. absurd (ground arith);
    origin = ground (arith, ==_iff source source);
  }

module _ (tree : DomainTree) (event : BackflowEvent) (max_depth : ℕ)
    (severe : is_critical event.severity ≡ true) where
  computed :
      (seen : List ℕ) × IsCascading tree.nodes event max_depth [] seen
        (compute tree event max_depth).affected_nodes
  unfolding compute
  computed =
      let (final, seen, ran, r) =
        cascade_loop-Cascades tree.nodes event max_depth (suc (suc (edge_count tree.nodes)))
          ((event.source_node_id, 0) ∷ []) [] [] (IsCascading-start tree.nodes event max_depth)
          (omega (arith, pending_edges_le [] tree.nodes)) in
      (seen, rw (severe, ran) r)

  -- A node that a critical event affects lies on a chain of dependents from the source, of exactly
  -- the length that its event records, and this is at most `max_depth`. The event is otherwise the
  -- source event.
  pub compute_sound :
      (a : ℕ) (e : BackflowEvent)
      → Map.get (compute tree event max_depth).affected_nodes a ≡ some e
      → Walk (dependents tree.nodes) event.source_node_id a e.cascade_depth
        × (e.cascade_depth ≤ max_depth)
        × (e ≡ with_cascade_depth e.cascade_depth event)
  compute_sound = computed.1.events

  below :
      (affected : Map BackflowEvent) (a : ℕ) (e : BackflowEvent)
      → any (Map.values affected) (λ other. leb max_depth other.cascade_depth) ≡ false
      → Map.get affected a ≡ some e
      → e.cascade_depth < max_depth
  below [] a e h g = absurd (ground arith)
  below ((id, other) ∷ affected) a e h g = ground (arith, below affected a e)

  -- If the cascade of a critical event does not halt, it affects exactly the nodes that depend on
  -- the source over zero or more dependencies.
  pub compute_iff :
      halted (compute tree event max_depth) max_depth ≡ false
      → (a : ℕ)
      → (is_affected (compute tree event max_depth) a ≡ true)
        ↔ Reach (dependents tree.nodes) event.source_node_id a
  compute_iff free a = (
    λ h. elim (Option-cases (Map.get (compute tree event max_depth).affected_nodes a)) [
      | inl absent ↦ absurd (ground arith)
      | inr (e, found) ↦ Walk-Reach (compute_sound a e found).0
    ],
    λ p. ground (
      arith,
      Reach-closed (λ x. x ∈ Map.keys (compute tree event max_depth).affected_nodes) closed p first,
      contains-keys (compute tree event max_depth).affected_nodes a,
    ),
  )
    where
      first : event.source_node_id ∈ Map.keys (compute tree event max_depth).affected_nodes
      first = ground (arith, computed.1.origin, computed.1.same event.source_node_id)

      closed :
          (x y : ℕ)
          → x ∈ Map.keys (compute tree event max_depth).affected_nodes
          → y ∈ dependents tree.nodes x
          → y ∈ Map.keys (compute tree event max_depth).affected_nodes
      closed x y h m =
          elim (Option-cases (Map.get (compute tree event max_depth).affected_nodes x)) [
            | inl absent ↦
                absurd
                  (ground (arith, contains-keys (compute tree event max_depth).affected_nodes x))
            | inr (e, found) ↦ ground (
              arith,
              computed.1.follows x y e found
                  (below (compute tree event max_depth).affected_nodes x e free found) m,
              computed.1.same y,
            )
          ]
