-- ===== src/Plan/DomainMap/Growth.antt =====
-- `apply_discovery_output` of src/plan/domain_map.rs grows a well-formed tree by the suggested
-- sub-domains.
use mmat.Prelude.{
  ℕ, zero, suc, ◌+◌, ◌≤◌, ◌<◌, ◌≡◌, refl, subst, sym, ap, ◌∙◌, inl, inr, String, none, some, List,
  [], ◌∷◌, ◌++◌, append_assoc, append-nil, arith, ==_iff, length, Option-cases,
}
use mmat.Plan.Discovery.{SubDomainSuggestion}
use mmat.Plan.DomainMap.{
  DomainNodeId, DomainNode, DomainTree, get, push_child, add_child, add_children,
}
use mmat.Plan.DomainMap.WellFormed.{
  IsWellFormed, IsFresh, IsAdded, grown, add_child-some, add_child-none, add_child-IsWellFormed,
}

-- The ids that `Uuid::new_v4` returns from the n-th on are new: no node of the tree has one of
-- them, and no two are equal.
pub record IsSupply (uuid : ℕ → ℕ) (n : ℕ) (tree : DomainTree) : Type 0 where
  pub unused : (m : ℕ) → n ≤ m → IsFresh (uuid m) tree
  pub distinct : (i j : ℕ) → uuid i ≡ uuid j → i ≡ j

-- The ids of `k` new nodes.
abbrev pub drawn : (ℕ → ℕ) → ℕ → ℕ → List ℕ
drawn uuid n zero = []
drawn uuid n (suc k) = uuid n ∷ drawn uuid (suc n) k

module _ (uuid : ℕ → ℕ) (node_id : DomainNodeId) where
  IsSupply-grown :
      (n : ℕ) (name description : String) (tree : DomainTree)
      → IsSupply uuid n tree
      → IsAdded (uuid n) node_id name description tree
      → IsSupply uuid (suc n) (grown (uuid n) node_id name description tree)
  IsSupply-grown n name description tree s added = record {
    unused = λ m le. ground (
      arith,
      added.lookup (uuid m),
      added.found,
      s.unused m (omega arith),
      ==_iff (uuid n) (uuid m),
      ==_iff node_id (uuid m),
      s.distinct n m,
    );
    distinct = s.distinct;
  }

  module _ (n : ℕ) (sub : SubDomainSuggestion) (subs : List SubDomainSuggestion)
      (tree : DomainTree) where
    abbrev pub added_tree : DomainTree
    added_tree = grown (uuid n) node_id sub.name sub.description tree

    add_children-refused :
        (add_child (uuid n) node_id sub.name sub.description tree).1 ≡ none
        → add_children uuid n node_id (sub ∷ subs) tree ≡ add_children uuid n node_id subs tree
    unfolding add_children
    add_children-refused e =
        rw (add_children, e) (rw (add_child-none (uuid n) node_id sub.name sub.description tree e))

    add_children-added :
        (c : ℕ)
        → (add_child (uuid n) node_id sub.name sub.description tree).1 ≡ some c
        → add_children uuid n node_id (sub ∷ subs) tree ≡ (
          (add_children uuid (suc n) node_id subs added_tree).0,
          c ∷ (add_children uuid (suc n) node_id subs added_tree).1,
        )
    unfolding add_children
    add_children-added c e = rw (add_children, e)

  pub add_children-IsWellFormed :
      (n : ℕ) (subs : List SubDomainSuggestion) (tree : DomainTree)
      → IsSupply uuid n tree
      → IsWellFormed tree
      → IsWellFormed (add_children uuid n node_id subs tree).0
  unfolding add_children
  add_children-IsWellFormed n [] tree s w = w
  add_children-IsWellFormed n (sub ∷ subs) tree s w =
      let fresh = s.unused n (omega arith) in
      elim (Option-cases (add_child (uuid n) node_id sub.name sub.description tree).1) [
        | inl refused ↦
            subst (λ r. IsWellFormed r.0) (sym (add_children-refused n sub subs tree refused))
              (add_children-IsWellFormed n subs tree s w)
        | inr (c, e) ↦
            subst (λ r. IsWellFormed r.0) (sym (add_children-added n sub subs tree c e))
              (add_children-IsWellFormed (suc n) subs (added_tree n sub subs tree)
                (IsSupply-grown n sub.name sub.description tree s
                  (add_child-some (uuid n) node_id sub.name sub.description tree fresh c e))
                (add_child-IsWellFormed (uuid n) node_id sub.name sub.description tree w fresh))
      ]

  -- The parent with the children that a run of `add_children` gives it.
  abbrev pub with_children : DomainNode → List DomainNodeId → DomainNode
  with_children parent ids = record parent { children = parent.children ++ ids }

  -- With room below the node, each sub-domain becomes a child, in order.
  pub add_children-room :
      (n : ℕ) (subs : List SubDomainSuggestion) (tree : DomainTree) (parent : DomainNode)
      → IsSupply uuid n tree
      → get tree node_id ≡ some parent
      → parent.depth + 1 ≤ tree.config.max_depth
      → ((add_children uuid n node_id subs tree).1 ≡ drawn uuid n (length subs))
        × (get (add_children uuid n node_id subs tree).0 node_id
            ≡ some (with_children parent (drawn uuid n (length subs))))
  unfolding add_children
  add_children-room n [] tree parent s found room = (refl, rw append-nil found)
  add_children-room n (sub ∷ subs) tree parent s found room =
      let fresh = s.unused n (omega arith) in
      let e : (add_child (uuid n) node_id sub.name sub.description tree).1 ≡ some (uuid n) =
        unfold add_child in ground arith in
      let added = add_child-some (uuid n) node_id sub.name sub.description tree fresh (uuid n) e in
      let after = added_tree n sub subs tree in
      let (ids, here) =
        add_children-room (suc n) subs after (push_child (uuid n) parent)
          (IsSupply-grown n sub.name sub.description tree s added)
          (ground (
            arith,
            added.lookup node_id,
            added.found,
            fresh,
            ==_iff (uuid n) node_id,
            ==_iff node_id node_id,
          ))
          (ground (arith, added.same_config)) in
      (
        ap (λ r. r.1) (add_children-added n sub subs tree (uuid n) e) ∙ ap (λ l. uuid n ∷ l) ids,
        ap (λ r. get r.0 node_id) (add_children-added n sub subs tree (uuid n) e)
            ∙ here
            ∙ ap (λ l. some (record parent { children = l }))
                (append_assoc parent.children (uuid n ∷ []) (drawn uuid (suc n) (length subs))),
      )

  -- Without room, no sub-domain is added.
  pub add_children-no_room :
      (n : ℕ) (subs : List SubDomainSuggestion) (tree : DomainTree) (parent : DomainNode)
      → get tree node_id ≡ some parent
      → tree.config.max_depth < parent.depth + 1
      → add_children uuid n node_id subs tree ≡ (tree, [])
  unfolding add_children
  add_children-no_room n [] tree parent found full = refl
  add_children-no_room n (sub ∷ subs) tree parent found full =
      add_children-refused n sub subs tree (unfold add_child in ground arith)
      ∙ add_children-no_room n subs tree parent found full
