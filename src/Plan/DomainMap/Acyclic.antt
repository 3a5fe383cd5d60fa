-- ===== src/Plan/DomainMap/Acyclic.antt =====
-- The dependency edges of a domain tree never form a cycle: `add_dependency` of
-- src/plan/domain_map.rs.
use mmat.Prelude.{
  ℕ, ◌≡◌, ◌↔◌, inl, inr, true, false, ◌||◌, [], ◌∷◌, ◌&&◌, arith, ◌==◌, ==_iff, contains, ◌∈◌,
  contains-append, Bool-cases, sym, subst,
}
use mmat.Prelude.Map
use mmat.Prelude.Map.{get-update, contains-keys}
use mmat.Prelude.Reach.{
  Reach, Reach-cases, Reach⁺-map, here, step, Reach⁺, IsAcyclic, IsAcyclic-extend,
}
use mmat.Plan.DomainMap.{DomainTree, add_dependency, push_dependency, depends_on, update_node}
use mmat.Plan.DomainMap.Depends.{dependency_edges, depends_on_iff}

module _ (a b : ℕ) (tree : DomainTree) where
  abbrev pub after : DomainTree
  after = (add_dependency a b tree).0

  -- The tests that an accepted edge has passed.
  pub record IsAccepted : Type 0 where
    pub from_exists : a ∈ Map.keys tree.nodes
    pub to_exists : b ∈ Map.keys tree.nodes
    pub undeclared : contains (dependency_edges tree a) b ≡ false
    pub free : ¬ (Reach (dependency_edges tree) b a)

  add_dependency-distinct : (add_dependency a b tree).1 ≡ true → (a == b) ≡ false
  unfolding add_dependency
  add_dependency-distinct h = ground arith

  add_dependency-undepended : (add_dependency a b tree).1 ≡ true → depends_on tree b a ≡ false
  unfolding add_dependency
  add_dependency-undepended h = ground arith

  not-Reach : (a == b) ≡ false → depends_on tree b a ≡ false → ¬ (Reach (dependency_edges tree) b a)
  not-Reach ne free p = elim (Reach-cases p) [
    | inl e ↦ absurd (ground (arith, ==_iff a b))
    | inr q ↦ absurd (ground (arith, (depends_on_iff tree b a).1 q))
  ]

  add_dependency-IsAccepted : (add_dependency a b tree).1 ≡ true → IsAccepted
  unfolding add_dependency
  add_dependency-IsAccepted h = record {
    from_exists = ground (arith, contains-keys tree.nodes a);
    to_exists = ground (arith, contains-keys tree.nodes b);
    undeclared = ground arith;
    free = not-Reach (add_dependency-distinct h) (add_dependency-undepended h);
  }

  -- An edge that passes the tests is added.
  accepts : IsAccepted → (add_dependency a b tree).1 ≡ true
  unfolding add_dependency
  accepts acc =
      let undepended : depends_on tree b a ≡ false = elim (Bool-cases (depends_on tree b a)) [
        | inl e ↦ absurd (acc.free (of_plus ((depends_on_iff tree b a).0 e)))
        | inr e ↦ e
      ] in
      ground (
        arith,
        undepended,
        distinct,
        acc.from_exists,
        acc.to_exists,
        acc.undeclared,
        contains-keys tree.nodes a,
        contains-keys tree.nodes b,
      )
    where
      of_plus : Reach⁺ (dependency_edges tree) b a → Reach (dependency_edges tree) b a
      of_plus (c, e, p) = step e p

      distinct : (a == b) ≡ false
      distinct = elim (Bool-cases (a == b)) [
        | inl e ↦ absurd (
            acc.free
              (subst (λ x. Reach (dependency_edges tree) b x) (sym ((==_iff a b).0 e)) (here b)))
        | inr e ↦ e
      ]

  -- `add_dependency` returns `true` exactly for an undeclared edge between two nodes of the tree
  -- whose end does not lead back to its start, over zero or more edges.
  pub add_dependency-accepts_iff : ((add_dependency a b tree).1 ≡ true) ↔ IsAccepted
  add_dependency-accepts_iff = (add_dependency-IsAccepted, accepts)

  -- The edges afterwards are the edges before and, if the result is `true`, the new one.
  pub dependency_edges-add_dependency :
      (x y : ℕ)
      → contains (dependency_edges after x) y ≡ (
          contains (dependency_edges tree x) y || ((add_dependency a b tree).1 && x == a && y == b))
  unfolding add_dependency update_node
  dependency_edges-add_dependency x y = ground (
    arith,
    get-update a x (push_dependency b) tree.nodes,
    contains-append (dependency_edges tree x) (b ∷ []) y,
    ==_iff x a,
    ==_iff a x,
    ==_iff b y,
    ==_iff y b,
  )

  -- If the dependencies form no cycle, they form none after `add_dependency`, whatever it returns.
  pub add_dependency-IsAcyclic :
      IsAcyclic (dependency_edges tree) → IsAcyclic (dependency_edges after)
  add_dependency-IsAcyclic acyclic = elim (Bool-cases (add_dependency a b tree).1) [
    | inl added ↦
        IsAcyclic-extend (dependency_edges tree) (dependency_edges after) a b
          (λ x y e. ground (arith, dependency_edges-add_dependency x y, ==_iff x a, ==_iff y b))
          acyclic (add_dependency-IsAccepted added).free
    | inr refused ↦ λ x p.
        acyclic x (Reach⁺-map (λ u v e. ground (arith, dependency_edges-add_dependency u v)) x p)
  ]
