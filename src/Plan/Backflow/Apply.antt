-- ===== src/Plan/Backflow/Apply.antt =====
-- `apply_to_domain_tree` of src/plan/backflow.rs.
use mmat.Prelude.{
  ℕ, ◌≡◌, refl, inl, inr, Bool, false, ◌||◌, ◌&&◌, none, some, List, [], ◌∷◌, ◌++◌, arith, ◌==◌,
  ==_iff, if◌then◌else◌, contains, contains-append, Option-cases,
}
use mmat.Prelude.Map
use mmat.Prelude.Map.{contains-keys, get-update}
use mathlib.Core.Option
use mmat.Plan.DomainMap.{replanning, DomainNode, DomainTree, get, update_node}
use mmat.Plan.Backflow.{
  BackflowCascade, BackflowApplication, is_affected, halted, insert_sorted, sort,
  has_delivery_state, apply_nodes, apply_to_domain_tree,
}

contains-insert_sorted :
    (id a : ℕ) (ids : List ℕ) → contains (insert_sorted id ids) a ≡ (id == a || contains ids a)
contains-insert_sorted id a [] = refl
contains-insert_sorted id a (other ∷ ids) = ground (arith, contains-insert_sorted id a ids)

contains-sort : (a : ℕ) (ids : List ℕ) → contains (sort ids) a ≡ contains ids a
contains-sort a [] = refl
contains-sort a (id ∷ ids) =
    ground (arith, contains-sort a ids, contains-insert_sorted id a (sort ids))

abbrev pub set_replanning : DomainNode → DomainNode
set_replanning node = record node { status = replanning }

-- Whether the node of an id exists, and whether it has a delivery to invalidate.
abbrev pub exists_at : DomainTree → ℕ → Bool
exists_at tree id = Map.contains_key tree.nodes id

abbrev pub delivers_at : DomainTree → ℕ → Bool
delivers_at tree id = elim (get tree id) [
  | none ↦ false
  | some node ↦ has_delivery_state node.status
]

-- What the loop over `ids` does to the tree and to the lists that it fills.
record IsApplied (affects : ℕ → Bool) (tree : DomainTree) (application : BackflowApplication)
    (result : DomainTree × BackflowApplication) : Type 0 where
  nodes :
      (k : ℕ)
      → get result.0 k ≡ (if affects k then Option.map set_replanning (get tree k) else get tree k)
  replanning :
      (k : ℕ)
      → contains result.1.replanning_nodes k
        ≡ (contains application.replanning_nodes k || (affects k && exists_at tree k))
  invalidated :
      (k : ℕ)
      → contains result.1.invalidated_delivery_nodes k
        ≡ (contains application.invalidated_delivery_nodes k || (affects k && delivers_at tree k))

apply_nodes-IsApplied :
    (ids : List ℕ) (tree : DomainTree) (application : BackflowApplication)
    → IsApplied (contains ids) tree application (apply_nodes ids tree application)
unfolding apply_nodes update_node
apply_nodes-IsApplied [] tree application = record {
  nodes = λ k. refl;
  replanning = λ k. ground arith;
  invalidated = λ k. ground arith;
}
apply_nodes-IsApplied (id ∷ ids) tree application = elim (Option-cases (get tree id)) [
  | inl absent ↦
      let r = apply_nodes-IsApplied ids tree application in
      rw (apply_nodes, absent)
        (record {
          nodes = λ k. ground (arith, r.nodes k, ==_iff id k);
          replanning = λ k. ground (arith, r.replanning k, ==_iff id k);
          invalidated = λ k. ground (arith, r.invalidated k, ==_iff id k);
        })
  | inr (node, found) ↦
      let r = apply_nodes-IsApplied ids (update_node id set_replanning tree) (record application {
        invalidated_delivery_nodes =
            (if has_delivery_state node.status
              then application.invalidated_delivery_nodes ++ id ∷ []
              else application.invalidated_delivery_nodes);
        replanning_nodes = application.replanning_nodes ++ id ∷ [];
      }) in
      rw (apply_nodes, found)
        (record {
          nodes = λ k.
              ground (arith, r.nodes k, ==_iff id k, get-update id k set_replanning tree.nodes);
          replanning = λ k. ground (
            arith,
            r.replanning k,
            ==_iff id k,
            get-update id k set_replanning tree.nodes,
            contains-append application.replanning_nodes (id ∷ []) k,
          );
          invalidated = λ k. ground (
            arith,
            r.invalidated k,
            ==_iff id k,
            get-update id k set_replanning tree.nodes,
            contains-append application.invalidated_delivery_nodes (id ∷ []) k,
          );
        })
]

-- What a cascade should do to a tree.
pub record IsReplanned (cascade : BackflowCascade) (tree : DomainTree)
    (result : DomainTree × BackflowApplication) : Type 0 where
  pub nodes :
      (k : ℕ)
      → get result.0 k
        ≡ (if is_affected cascade k then Option.map set_replanning (get tree k) else get tree k)
  pub replanning :
      (k : ℕ) → contains result.1.replanning_nodes k ≡ (is_affected cascade k && exists_at tree k)
  pub invalidated :
      (k : ℕ)
      → contains result.1.invalidated_delivery_nodes k
        ≡ (is_affected cascade k && delivers_at tree k)
  pub review : result.1.human_review_required ≡ halted cascade tree.config.max_cascade_depth
  pub root : result.0.root ≡ tree.root
  pub config : result.0.config ≡ tree.config
  pub big_picture : result.0.big_picture ≡ tree.big_picture

apply_nodes-review :
    (ids : List ℕ) (tree : DomainTree) (application : BackflowApplication)
    → (apply_nodes ids tree application).1.human_review_required ≡ application.human_review_required
unfolding apply_nodes
apply_nodes-review [] tree application = refl
apply_nodes-review (id ∷ ids) tree application = elim (Option-cases (get tree id)) [
  | inl absent ↦ rw (apply_nodes, absent) (apply_nodes-review ids tree application)
  | inr (node, found) ↦ rw (apply_nodes, found) (apply_nodes-review ids _ _)
]

-- The loop changes the nodes only.
apply_nodes-tree :
    (ids : List ℕ) (tree : DomainTree) (application : BackflowApplication)
    → ((apply_nodes ids tree application).0.root ≡ tree.root)
      × ((apply_nodes ids tree application).0.config ≡ tree.config)
      × ((apply_nodes ids tree application).0.big_picture ≡ tree.big_picture)
unfolding apply_nodes update_node
apply_nodes-tree [] tree application = (refl, refl, refl)
apply_nodes-tree (id ∷ ids) tree application = elim (Option-cases (get tree id)) [
  | inl absent ↦ rw (apply_nodes, absent) (apply_nodes-tree ids tree application)
  | inr (node, found) ↦
      rw (apply_nodes, found) (apply_nodes-tree ids (update_node id set_replanning tree) _)
]

-- `apply_to_domain_tree` sets exactly the affected nodes of the tree to `Replanning` and changes no
-- other field or node, nor the tree's root, configuration or big picture; `replanning_nodes` lists these nodes, `invalidated_delivery_nodes` those of
-- them that were delivering or complete, and human review is required exactly if the cascade
-- halts at the tree's cascade depth.
pub apply_to_domain_tree-IsReplanned :
    (cascade : BackflowCascade) (tree : DomainTree)
    → IsReplanned cascade tree (apply_to_domain_tree cascade tree)
unfolding apply_to_domain_tree
apply_to_domain_tree-IsReplanned cascade tree =
    let ids = Map.keys cascade.affected_nodes in
    let fresh : BackflowApplication = record {
      replanning_nodes = [];
      invalidated_delivery_nodes = [];
      human_review_required = halted cascade tree.config.max_cascade_depth;
    } in
    let r = apply_nodes-IsApplied (sort ids) tree fresh in
    let (root, config, big_picture) = apply_nodes-tree (sort ids) tree fresh in
    record {
      nodes = λ k.
          ground (arith, r.nodes k, contains-sort k ids, contains-keys cascade.affected_nodes k);
      replanning = λ k.
          ground
            (arith, r.replanning k, contains-sort k ids, contains-keys cascade.affected_nodes k);
      invalidated = λ k.
          ground
            (arith, r.invalidated k, contains-sort k ids, contains-keys cascade.affected_nodes k);
      review = apply_nodes-review (sort ids) tree fresh;
      root = root;
      config = config;
      big_picture = big_picture;
    }
