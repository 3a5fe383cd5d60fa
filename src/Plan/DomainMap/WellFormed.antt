-- ===== src/Plan/DomainMap/WellFormed.antt =====
-- The shape of a domain tree, and that `new`, `add_child` and `apply_discovery_output` of
-- src/plan/domain_map.rs keep it.
use mmat.Prelude.{
  ℕ, ◌+◌, ◌≤◌, ◌≡◌, refl, subst, ◌∙◌, ◌⊎◌, inl, inr, String, none, some, [], ◌∷◌, arith, ◌==◌,
  ==_iff, contains, ◌∈◌, contains-append, Bool-cases, Option-cases, if◌then◌else◌,
}
use mmat.Prelude.Map
use mmat.Prelude.Map.{get-update, get-insert, contains-keys}
use mmat.Plan.DomainMap.{
  DomainNode, DomainTree, DomainTreeConfig, with_config, get, new_root, new_child, push_child,
  add_child,
}

pub record IsWellFormed (tree : DomainTree) : Type 0 where
  pub root_exists :
      (n : DomainNode) × (get tree tree.root ≡ some n) × (n.depth ≡ 0) × (n.parent ≡ none)
  pub own_id : (k : ℕ) (n : DomainNode) → get tree k ≡ some n → n.id ≡ k
  pub depth_bound : (k : ℕ) (n : DomainNode) → get tree k ≡ some n → n.depth ≤ tree.config.max_depth
  pub child_linked :
      (k : ℕ) (n : DomainNode) (c : ℕ)
      → get tree k ≡ some n
      → c ∈ n.children
      → (m : DomainNode) × (get tree c ≡ some m) × (m.parent ≡ some k) × (m.depth ≡ n.depth + 1)
  pub parent_linked :
      (k : ℕ) (n : DomainNode) (p : ℕ)
      → get tree k ≡ some n
      → n.parent ≡ some p
      → (q : DomainNode) × (get tree p ≡ some q) × (k ∈ q.children)

-- A new tree is well formed.
pub with_config-IsWellFormed :
    (uuid : ℕ) (name description : String) (config : DomainTreeConfig)
    → IsWellFormed (with_config uuid name description config)
unfolding with_config
with_config-IsWellFormed uuid name description config = record {
  root_exists = (new_root uuid name description, ground arith, refl, refl);
  own_id = λ k n e. ground (arith, ==_iff uuid k);
  depth_bound = λ k n e. ground arith;
  child_linked = λ k n c e m. absurd (ground arith);
  parent_linked = λ k n p e m. absurd (ground arith);
}

-- An id that no node of the tree has.
abbrev pub IsFresh : ℕ → DomainTree → Type 0
IsFresh uuid tree = get tree uuid ≡ none

module _ (uuid parent_id : ℕ) (name description : String) (tree : DomainTree) where
  abbrev pub grown : DomainTree
  grown = (add_child uuid parent_id name description tree).0

  -- `add_child` adds nothing, or it adds the child under a parent with room below it.
  pub record IsAdded : Type 0 where
    pub parent : DomainNode
    pub found : get tree parent_id ≡ some parent
    pub room : parent.depth + 1 ≤ tree.config.max_depth
    pub same_root : grown.root ≡ tree.root
    pub same_config : grown.config ≡ tree.config
    pub lookup :
        (j : ℕ)
        → get grown j ≡ (
            if uuid == j
            then some (new_child uuid parent_id parent name description)
            else if parent_id == j
            then some (push_child uuid parent)
            else get tree j)

  pub add_child-some :
      IsFresh uuid tree
      → (added : ℕ) → (add_child uuid parent_id name description tree).1 ≡ some added
      → IsAdded
  unfolding add_child
  add_child-some fresh added h = elim (Option-cases (get tree parent_id)) [
    | inl absent ↦ absurd (ground arith)
    | inr (parent, found) ↦ record {
      parent = parent;
      found = found;
      room = ground arith;
      same_root = ground arith;
      same_config = ground arith;
      lookup = λ j. ground (
        arith,
        get-update parent_id j (push_child uuid)
            (Map.insert uuid (new_child uuid parent_id parent name description) tree.nodes),
        get-insert uuid j (new_child uuid parent_id parent name description) tree.nodes,
        ==_iff uuid j,
        ==_iff parent_id j,
      );
    }
  ]

  pub add_child-none : (add_child uuid parent_id name description tree).1 ≡ none → grown ≡ tree
  unfolding add_child
  add_child-none h = ground arith

  module _ (added : IsAdded) (fresh : IsFresh uuid tree) where
    -- A node of the tree before, as `add_child` leaves it.
    abbrev Kept : ℕ → DomainNode → Type 0
    Kept j n =
        (n' : DomainNode) × (get grown j ≡ some n')
        × (n'.id ≡ n.id)
        × (n'.parent ≡ n.parent)
        × (n'.depth ≡ n.depth)
        × ((c : ℕ) → c ∈ n.children → c ∈ n'.children)

    kept : (j : ℕ) (n : DomainNode) → get tree j ≡ some n → Kept j n
    kept j n e = elim (Bool-cases (parent_id == j)) [
      | inl here ↦ (
        push_child uuid n,
        ground (arith, added.lookup j, added.found, ==_iff uuid j, ==_iff parent_id j),
        refl,
        refl,
        refl,
        λ c m. ground (arith, contains-append n.children (uuid ∷ []) c),
      )
      | inr away ↦ (n, ground (arith, added.lookup j, ==_iff uuid j), refl, refl, refl, λ c m. m)
    ]

    -- A node of the tree after is the child, the parent with one more child, or a node before.
    abbrev Origin : ℕ → DomainNode → Type 0
    Origin j n =
        ((uuid ≡ j) × (n ≡ new_child uuid parent_id added.parent name description))
        ⊎ ((parent_id ≡ j) × (n ≡ push_child uuid added.parent))
        ⊎ (get tree j ≡ some n)

    origin : (j : ℕ) (n : DomainNode) → get grown j ≡ some n → Origin j n
    origin j n e = ground (arith, added.lookup j, ==_iff uuid j, ==_iff parent_id j)

    module _ (w : IsWellFormed tree) where
      linked_before :
          (k : ℕ) (n : DomainNode) (c : ℕ)
          → get tree k ≡ some n
          → c ∈ n.children
          → (m : DomainNode) × (get grown c ≡ some m)
            × (m.parent ≡ some k)
            × (m.depth ≡ n.depth + 1)
      linked_before k n c e mem =
          let (m, em, pm, dm) = w.child_linked k n c e mem in
          let (m', em', _, pm', dm', _) = kept c m em in (m', em', pm' ∙ pm, dm' ∙ dm)

      grown-child_linked :
          (k : ℕ) (n : DomainNode) (c : ℕ)
          → get grown k ≡ some n
          → c ∈ n.children
          → (m : DomainNode) × (get grown c ≡ some m)
            × (m.parent ≡ some k)
            × (m.depth ≡ n.depth + 1)
      grown-child_linked k n c e mem = elim (origin k n e) [
        | inl child ↦ absurd (ground arith)
        | inr (inr old) ↦ linked_before k n c old mem
        | inr (inl (at, same)) ↦ elim (Bool-cases (contains added.parent.children c)) [
          | inl before ↦
              let (m, em, pm, dm) = linked_before parent_id added.parent c added.found before in
              (m, em, ground arith, ground arith)
          | inr new ↦ (
            new_child uuid parent_id added.parent name description,
            ground (
              arith,
              added.lookup c,
              contains-append added.parent.children (uuid ∷ []) c,
              ==_iff uuid c,
            ),
            ground arith,
            ground arith,
          )
        ]
      ]

      parent_before :
          (k : ℕ) (n : DomainNode) (p : ℕ)
          → get tree k ≡ some n
          → n.parent ≡ some p
          → (q : DomainNode) × (get grown p ≡ some q) × (k ∈ q.children)
      parent_before k n p e up =
          let (q, eq, mem) = w.parent_linked k n p e up in
          let (q', eq', _, _, _, more) = kept p q eq in (q', eq', more k mem)

      grown-parent_linked :
          (k : ℕ) (n : DomainNode) (p : ℕ)
          → get grown k ≡ some n
          → n.parent ≡ some p
          → (q : DomainNode) × (get grown p ≡ some q) × (k ∈ q.children)
      grown-parent_linked k n p e up = elim (origin k n e) [
        | inr (inr old) ↦ parent_before k n p old up
        | inr (inl (at, same)) ↦
            subst (λ j. (q : DomainNode) × (get grown p ≡ some q) × (j ∈ q.children)) at
              (parent_before parent_id added.parent p added.found (ground arith))
        | inl (at, same) ↦ (
          push_child uuid added.parent,
          ground (arith, added.lookup p, added.found, ==_iff uuid p, ==_iff parent_id p),
          ground (arith, contains-append added.parent.children (uuid ∷ []) k, ==_iff uuid k),
        )
      ]

      grown-root_exists :
          (n : DomainNode) × (get grown grown.root ≡ some n) × (n.depth ≡ 0) × (n.parent ≡ none)
      grown-root_exists =
          let (n, e, d, p) = w.root_exists in
          let (n', e', _, p', d', _) = kept tree.root n e in
          (n', rw added.same_root e', d' ∙ d, p' ∙ p)

      IsAdded-IsWellFormed : IsWellFormed grown
      IsAdded-IsWellFormed = record {
        root_exists = grown-root_exists;
        own_id = λ k n e.
            ground
              (arith, origin k n e, w.own_id k n, w.own_id parent_id added.parent, added.found);
        depth_bound = λ k n e. ground (
          arith,
          origin k n e,
          w.depth_bound k n,
          w.depth_bound parent_id added.parent,
          added.found,
          added.room,
          added.same_config,
        );
        child_linked = grown-child_linked;
        parent_linked = grown-parent_linked;
      }

  -- With an id that is new to the tree, `add_child` keeps a tree well formed, whether it adds the
  -- child or refuses it.
  pub add_child-IsWellFormed : IsWellFormed tree → IsFresh uuid tree → IsWellFormed grown
  add_child-IsWellFormed w fresh =
      elim (Option-cases (add_child uuid parent_id name description tree).1) [
        | inl refused ↦ rw (add_child-none refused) w
        | inr (c, e) ↦ IsAdded-IsWellFormed (add_child-some fresh c e) fresh w
      ]
