-- ===== src/Deliver/Batches/FromTree.antt =====
-- `from_domain_tree` of src/deliver/delivery_graph.rs on a domain tree without cycles.
use mmat.Prelude.{
  ℕ, ◌≡◌, refl, sym, subst, inl, inr, ◌||◌, ◌&&◌, some, List, [], ◌∷◌, arith, ◌==◌, ==_iff,
  contains, ◌∈◌, ok, unwrap_or, Bool-cases, Option-cases,
}
use mmat.Prelude.Map
use mmat.Prelude.Map.{Map, get-insert, contains-keys, contains_of_get, contains-keys_insert}
use mmat.Prelude.Nodup.{IsNodup}
use mmat.Prelude.Reach.{Reach-map, IsAcyclic}
use mmat.Plan.DomainMap.{DomainTree, leaves, dependencies}
use mmat.Plan.DomainMap.Depends
use mmat.Deliver.DeliveryGraph.{DeliveryGraph, empty}
use mmat.Deliver.DeliveryGraph.Cycles.{dependency_edges}
use mmat.Deliver.DeliveryGraph.Valid.{
  IsValidGraph, IsAddable, added, add_dependency_ok_iff, contains-dependency_edges-added,
  keys-added, added-IsValidGraph,
}
use mmat.Deliver.Batches.{
  add_leaf_dependencies, add_edges, leaf_ids_of, graph_of_leaves, from_domain_tree,
}
use mmat.Deliver.Batches.LeafNodes.{HaveOwnIds, IsNodup-leaf_ids_in, add_nodes-IsAddedNodes}
use mmat.Deliver.Batches.Cyclic.{IsSchedule, compute_batches_lem}

module _ (tree : DomainTree) (leaf_ids : List ℕ)
    (acyclic : IsAcyclic (Depends.dependency_edges tree)) where
  -- A graph on the leaves with dependencies of the tree only.
  record IsPart (graph : DeliveryGraph) : Type 0 where
    valid : IsValidGraph graph
    keys : (a : ℕ) → contains (Map.keys graph.nodes) a ≡ contains leaf_ids a
    within : (a b : ℕ) → b ∈ dependency_edges graph a → b ∈ Depends.dependency_edges tree a

  IsPart-IsAddable :
      (a b : ℕ) (graph : DeliveryGraph)
      → IsPart graph
      → a ∈ leaf_ids
      → b ∈ leaf_ids
      → b ∈ Depends.dependency_edges tree a
      → IsAddable a b graph
  IsPart-IsAddable a b graph p ha hb e = record {
    node = ground (arith, p.keys a, contains-keys graph.nodes a);
    dependency = ground (arith, p.keys b, contains-keys graph.nodes b);
    free = λ path. acyclic a (b, e, Reach-map p.within path);
  }

  IsPart-added :
      (a b : ℕ) (graph : DeliveryGraph)
      → IsPart graph
      → IsAddable a b graph
      → b ∈ Depends.dependency_edges tree a
      → IsPart (added a b graph)
  IsPart-added a b graph p can e = record {
    valid = added-IsValidGraph a b graph can p.valid;
    keys = λ x.
        subst (λ l. contains l x ≡ contains leaf_ids x) (sym (keys-added a b graph)) (p.keys x);
    within = λ x y h. ground (
      arith,
      contains-dependency_edges-added a b graph x y can,
      p.within x y,
      ==_iff a x,
      ==_iff b y,
    );
  }

  -- The loop over the dependencies of one leaf.
  add_leaf_dependencies-IsPart :
      (leaf_id : ℕ) (deps : List ℕ) (graph : DeliveryGraph)
      → leaf_id ∈ leaf_ids
      → ((b : ℕ) → b ∈ deps → b ∈ Depends.dependency_edges tree leaf_id)
      → IsPart graph
      → (more : DeliveryGraph) × (add_leaf_dependencies leaf_ids leaf_id deps graph ≡ ok more)
        × IsPart more
        × ((a b : ℕ)
            → contains (dependency_edges more a) b ≡ (
                contains (dependency_edges graph a) b
                || (leaf_id == a && contains deps b && contains leaf_ids b)))
  unfolding add_leaf_dependencies
  add_leaf_dependencies-IsPart leaf_id [] graph leaf sub p = (graph, refl, p, λ a b. ground arith)
  add_leaf_dependencies-IsPart leaf_id (dep ∷ deps) graph leaf sub p =
      elim (Bool-cases (contains leaf_ids dep)) [
        | inl both ↦
            let edge = sub dep (ground (arith, ==_iff dep dep)) in
            let can = IsPart-IsAddable leaf_id dep graph p leaf both edge in
            let (more, ran, q, edges) =
              add_leaf_dependencies-IsPart leaf_id deps (added leaf_id dep graph) leaf
                (λ b h. sub b (ground arith)) (IsPart-added leaf_id dep graph p can edge) in
            (
              more,
              rw (add_leaf_dependencies, both, (add_dependency_ok_iff leaf_id dep graph).1 can) ran,
              q,
              λ a b. ground (
                arith,
                edges a b,
                contains-dependency_edges-added leaf_id dep graph a b can,
                ==_iff dep b,
              ),
            )
        | inr inner ↦
            let (more, ran, q, edges) =
              add_leaf_dependencies-IsPart leaf_id deps graph leaf (λ b h. sub b (ground arith))
                p in
            (
              more,
              rw (add_leaf_dependencies, inner) ran,
              q,
              λ a b. ground (arith, edges a b, ==_iff dep b),
            )
      ]

  dependencies-edges :
      (a : ℕ) → unwrap_or [] (dependencies tree a) ≡ Depends.dependency_edges tree a
  dependencies-edges a = elim (Option-cases (Map.get tree.nodes a)) [
    | inl absent ↦ ground arith
    | inr (node, e) ↦ ground arith
  ]

  -- The loop over the leaves.
  add_edges-IsPart :
      (ids : List ℕ) (graph : DeliveryGraph)
      → ((a : ℕ) → a ∈ ids → a ∈ leaf_ids)
      → IsPart graph
      → (more : DeliveryGraph) × (add_edges tree leaf_ids ids graph ≡ ok more)
        × IsPart more
        × ((a b : ℕ)
            → contains (dependency_edges more a) b ≡ (
                contains (dependency_edges graph a) b
                || (contains ids a
                    && contains (Depends.dependency_edges tree a) b
                    && contains leaf_ids b)))
  unfolding add_edges
  add_edges-IsPart [] graph sub p = (graph, refl, p, λ a b. ground arith)
  add_edges-IsPart (id ∷ ids) graph sub p =
      let deps = unwrap_or [] (dependencies tree id) in
      let (mid, first, q, edges) =
        add_leaf_dependencies-IsPart id deps graph (sub id (ground (arith, ==_iff id id)))
          (λ b h. ground (arith, dependencies-edges id)) p in
      let (more, rest, r, others) = add_edges-IsPart ids mid (λ a h. sub a (ground arith)) q in
      (
        more,
        rw (add_edges, first) rest,
        r,
        λ a b. ground (arith, edges a b, others a b, dependencies-edges id, ==_iff id a),
      )

-- The leaves of the tree, the dependencies between them, and a schedule of all of them.
pub record IsLeafGraph (tree : DomainTree) (graph : DeliveryGraph) : Type 0 where
  pub keys : (a : ℕ) → contains (Map.keys graph.nodes) a ≡ contains (leaf_ids_of tree) a
  pub edges :
      (a b : ℕ)
      → contains (dependency_edges graph a) b ≡ (
          contains (leaf_ids_of tree) a
          && contains (Depends.dependency_edges tree a) b
          && contains (leaf_ids_of tree) b)
  pub schedule : IsSchedule graph graph.batches

-- The graph of a tree with unique ids and without dependency cycles.
module _ (tree : DomainTree) (own : HaveOwnIds tree.nodes) (unique : IsNodup (Map.keys tree.nodes))
    (acyclic : IsAcyclic (Depends.dependency_edges tree)) where
  no_leaf_twice : IsNodup (leaf_ids_of tree)
  unfolding leaves
  no_leaf_twice = IsNodup-leaf_ids_in tree.nodes own unique

  empty-IsValidGraph : IsValidGraph empty
  empty-IsValidGraph = (
    record { nodup = tt; known = λ n m h. absurd (ground arith) },
    λ a (b, e, p). absurd (ground arith),
  )

  abbrev Builds : Type 0
  Builds =
      (graph : DeliveryGraph) × (graph_of_leaves tree ≡ ok graph)
      × IsPart tree (leaf_ids_of tree) acyclic graph
      × ((a b : ℕ)
          → contains (dependency_edges graph a) b ≡ (
              contains (leaf_ids_of tree) a
              && contains (Depends.dependency_edges tree a) b
              && contains (leaf_ids_of tree) b))

  builds : Builds
  unfolding graph_of_leaves
  builds =
      let (nodes, first, r) =
        add_nodes-IsAddedNodes (leaf_ids_of tree) empty no_leaf_twice (λ a h. refl)
          empty-IsValidGraph in
      let (graph, ran, p, edges) =
        add_edges-IsPart tree (leaf_ids_of tree) acyclic (leaf_ids_of tree) nodes (λ a h. h)
          (record {
            valid = r.valid;
            keys = λ a. ground (arith, r.keys a);
            within = λ a b e. absurd (ground (arith, r.edges a b e));
          }) in
      (graph, rw first ran, p, λ a b. ground (arith, edges a b, r.edges a b))

  -- For a tree with one node under each id, its own, whose dependencies form no cycle,
  -- `from_domain_tree` returns a graph, without an error and without a panic. Its nodes are the
  -- leaves of the tree, its dependencies are those of the tree between two leaves, and its batches
  -- hold every node exactly once, each node in a later batch than all of its dependencies.
  pub from_domain_tree_lem :
      (graph : DeliveryGraph) × (from_domain_tree tree ≡ some (ok graph)) × IsLeafGraph tree graph
  unfolding from_domain_tree
  from_domain_tree_lem =
      let (graph, built, p, edges) = builds in
      elim (compute_batches_lem graph p.valid.0) [
        | inl (loopless, (batches, ran, s)) ↦ (
          record graph { batches = batches },
          rw (from_domain_tree, built) ran,
          record {
            keys = p.keys;
            edges = edges;
            schedule = record {
              nodup = s.nodup;
              complete = s.complete;
              layered = s.layered;
              numbered = s.numbered;
            };
          },
        )
        | inr (cyclic, ran) ↦ absurd (cyclic p.valid.1)
      ]
