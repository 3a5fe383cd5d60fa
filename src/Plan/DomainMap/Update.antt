-- ===== src/Plan/DomainMap/Update.antt =====
-- A change of one node that leaves its place in the domain tree alone keeps the tree well formed.
use mmat.Prelude.{ℕ, ◌≡◌, refl, sym, ◌∙◌, inl, inr, some, arith, ◌==◌, Bool-cases, Option-cases}
use mmat.Prelude.Map.{get-update}
use mmat.Plan.DomainMap.{DomainNodeId, DomainNode, DomainTree, get, update_node}
use mmat.Plan.DomainMap.WellFormed.{IsWellFormed}

-- A change of a node that leaves its place in the tree alone.
abbrev pub KeepsPlace : (DomainNode → DomainNode) → Type 0
KeepsPlace change =
    (n : DomainNode)
    → ((change n).id ≡ n.id)
      × ((change n).parent ≡ n.parent)
      × ((change n).depth ≡ n.depth)
      × ((change n).children ≡ n.children)

module _ (id : DomainNodeId) (change : DomainNode → DomainNode) (keeps : KeepsPlace change)
    (tree : DomainTree) where
  abbrev updated : DomainTree
  updated = update_node id change tree

  get-updated :
      (k : ℕ) (n : DomainNode)
      → get tree k ≡ some n
      → (n' : DomainNode) × (get updated k ≡ some n')
        × (n'.parent ≡ n.parent)
        × (n'.depth ≡ n.depth)
        × (n'.children ≡ n.children)
  unfolding update_node
  get-updated k n e = elim (Bool-cases (id == k)) [
    | inl here ↦ (
      change n,
      ground (arith, get-update id k change tree.nodes),
      (keeps n).1,
      (keeps n).2,
      (keeps n).3,
    )
    | inr away ↦ (n, ground (arith, get-update id k change tree.nodes), refl, refl, refl)
  ]

  get-before :
      (k : ℕ) (n' : DomainNode)
      → get updated k ≡ some n'
      → (n : DomainNode) × (get tree k ≡ some n)
        × (n'.id ≡ n.id)
        × (n'.parent ≡ n.parent)
        × (n'.depth ≡ n.depth)
        × (n'.children ≡ n.children)
  unfolding update_node
  get-before k n' e = elim (Option-cases (get tree k)) [
    | inl absent ↦ absurd (ground (arith, get-update id k change tree.nodes))
    | inr (n, found) ↦ elim (Bool-cases (id == k)) [
      | inl here ↦
          let same : n' ≡ change n = ground (arith, get-update id k change tree.nodes) in
          (
            n,
            found,
            rw same (keeps n).0,
            rw same (keeps n).1,
            rw same (keeps n).2,
            rw same (keeps n).3,
          )
      | inr away ↦
          let same : n' ≡ n = ground (arith, get-update id k change tree.nodes) in
          (n, found, rw same, rw same, rw same, rw same)
    ]
  ]

  pub update_node-IsWellFormed : IsWellFormed tree → IsWellFormed updated
  unfolding update_node
  update_node-IsWellFormed w = record {
    root_exists =
        let (n, e, d, p) = w.root_exists in
        let (n', e', p', d', _) = get-updated tree.root n e in (n', e', d' ∙ d, p' ∙ p);
    own_id = λ k n' e'. let (n, e, i, _, _, _) = get-before k n' e' in i ∙ w.own_id k n e;
    depth_bound = λ k n' e'.
        let (n, e, _, _, d, _) = get-before k n' e' in omega (arith, d, w.depth_bound k n e);
    child_linked = λ k n' c e' mem.
        let (n, e, _, _, d, cs) = get-before k n' e' in
        let (m, em, pm, dm) = w.child_linked k n c e (rw cs at mem) in
        let (m', em', pm', dm', _) = get-updated c m em in
        (m', em', pm' ∙ pm, omega (arith, d, dm, dm'));
    parent_linked = λ k n' p e' up.
        let (n, e, _, pn, _, _) = get-before k n' e' in
        let (q, eq, mem) = w.parent_linked k n p e (sym pn ∙ up) in
        let (q', eq', _, _, cs) = get-updated p q eq in (q', eq', rw cs mem);
  }
