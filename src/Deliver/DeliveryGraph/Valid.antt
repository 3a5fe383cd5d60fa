-- ===== src/Deliver/DeliveryGraph/Valid.antt =====
-- Building a delivery graph, `add_node` and `add_dependency` of src/deliver/delivery_graph.rs: the
-- nodes stay unique, dependencies stay inside the graph, and no cycle arises.
use mmat.Prelude.{
  ℕ, ◌≡◌, refl, sym, subst, ◌↔◌, ◌⊎◌, inl, inr, true, false, ◌||◌, ◌&&◌, none, [], ◌∷◌, arith, ◌==◌,
  ==_iff, ==_refl, contains, ◌∈◌, contains-append, ok, err, some, Bool-cases, Option-cases,
}
use mmat.Prelude.Map
use mmat.Prelude.Map.{
  Map, get-insert, get-update, keys-update, contains-keys, contains_of_get, contains-keys_insert,
}
use mmat.Prelude.Nodup.{IsNodup}
use mmat.Prelude.Reach.{Reach, here, IsAcyclic, IsAcyclic-extend, Reach⁺-map}
use mmat.Deliver.DeliveryGraph.{
  pending, duplicate_node, DeliveryNode, DeliveryGraph, new_node, add_node, would_create_cycle,
  push_dependency, update_node, add_dependency,
}
use mmat.Deliver.DeliveryGraph.Cycles.{dependency_edges, would_create_cycle_iff}

-- One node under each id, and dependencies on nodes of the graph only.
pub record IsClosedGraph (graph : DeliveryGraph) : Type 0 where
  pub nodup : IsNodup (Map.keys graph.nodes)
  pub known : (n m : ℕ) → m ∈ dependency_edges graph n → m ∈ Map.keys graph.nodes

-- What `compute_batches` needs of a graph.
abbrev pub IsValidGraph : DeliveryGraph → Type 0
IsValidGraph graph = IsClosedGraph graph × IsAcyclic (dependency_edges graph)

IsNodup-keys_insert :
    (k : ℕ) (v : DeliveryNode) (m : Map DeliveryNode)
    → IsNodup (Map.keys m)
    → IsNodup (Map.keys (Map.insert k v m))
IsNodup-keys_insert k v [] u = (refl, tt)
IsNodup-keys_insert k v ((j, w) ∷ m) u =
    ground (arith, IsNodup-keys_insert k v m, contains-keys_insert k j v m, ==_iff k j)

module _ (id : ℕ) (graph more : DeliveryGraph) (added : add_node id graph ≡ ok more) where
  pub add_node-nodes : more.nodes ≡ Map.insert id (new_node id) graph.nodes
  unfolding add_node
  add_node-nodes = ground arith

  add_node-fresh : Map.get graph.nodes id ≡ none
  unfolding add_node
  add_node-fresh = ground arith

  pub add_node-edges : (a b : ℕ) → b ∈ dependency_edges more a → b ∈ dependency_edges graph a
  add_node-edges a b e = ground (arith, add_node-nodes, get-insert id a (new_node id) graph.nodes)

  -- The graph stays valid.
  pub add_node-IsValidGraph : IsValidGraph graph → IsValidGraph more
  add_node-IsValidGraph (closed, acyclic) = (
    record {
      nodup =
          subst (λ nodes. IsNodup (Map.keys nodes)) (sym add_node-nodes)
            (IsNodup-keys_insert id (new_node id) graph.nodes closed.nodup);
      known = λ n m h. ground (
        arith,
        add_node-nodes,
        closed.known n m (add_node-edges n m h),
        contains-keys_insert id m (new_node id) graph.nodes,
      );
    },
    λ a cycle. acyclic a (Reach⁺-map add_node-edges a cycle),
  )

-- What a graph becomes when a node is added to it.
pub record IsAdded (id : ℕ) (graph more : DeliveryGraph) : Type 0 where
  pub valid : IsValidGraph more
  pub node :
      Map.get more.nodes id
      ≡ some (record { domain_node_id = id; dependencies = []; status = pending; error = none })
  pub others :
      (other : ℕ) → (id == other) ≡ false → Map.get more.nodes other ≡ Map.get graph.nodes other
  pub same_batches : more.batches ≡ graph.batches
  pub same_active : more.active_batch_index ≡ graph.active_batch_index

-- Take a graph with one node under each id, dependencies on its own nodes only, and no cycle. If a
-- node has the id already, `add_node` refuses the id as a duplicate. Otherwise it returns such a
-- graph again: the id has a pending node without dependencies and without an error, and all other
-- nodes, the batches and the active batch are as before.
pub add_node-IsAdded :
    (id : ℕ) (graph : DeliveryGraph)
    → IsValidGraph graph
    → (((node : DeliveryNode) × (Map.get graph.nodes id ≡ some node))
        × (add_node id graph ≡ err (duplicate_node id)))
      ⊎ ((Map.get graph.nodes id ≡ none)
          × ((more : DeliveryGraph) × (add_node id graph ≡ ok more) × IsAdded id graph more))
unfolding add_node
add_node-IsAdded id graph valid = elim (Option-cases (Map.get graph.nodes id)) [
  | inr (node, e) ↦ inl ((node, e), ground (arith, e))
  | inl e ↦
      let more : DeliveryGraph = record graph { nodes = Map.insert id (new_node id) graph.nodes } in
      let added : add_node id graph ≡ ok more = ground (arith, e) in
      inr (
        e,
        (
          more,
          added,
          record {
            valid = add_node-IsValidGraph id graph more added valid;
            node = rw (get-insert id id (new_node id) graph.nodes, ==_refl id) refl;
            others = λ other different.
                rw (get-insert id other (new_node id) graph.nodes, different) refl;
            same_batches = refl;
            same_active = refl;
          },
        ),
      )
]

module _ (node_id dependency_id : ℕ) (graph : DeliveryGraph) where
  -- What `add_dependency` asks for before it adds the edge.
  pub record IsAddable : Type 0 where
    pub node : Map.contains_key graph.nodes node_id ≡ true
    pub dependency : Map.contains_key graph.nodes dependency_id ≡ true
    pub free : ¬ (Reach (dependency_edges graph) dependency_id node_id)

  abbrev pub added : DeliveryGraph
  added = update_node node_id (push_dependency dependency_id) graph

  add_dependency-IsAddable : add_dependency node_id dependency_id graph ≡ ok added → IsAddable
  unfolding add_dependency
  add_dependency-IsAddable h = record {
    node = ground arith;
    dependency = ground arith;
    free = λ p. absurd (ground (arith, (would_create_cycle_iff node_id dependency_id graph).1 p));
  }

  adds : IsAddable → add_dependency node_id dependency_id graph ≡ ok added
  unfolding add_dependency
  adds a =
      let no_cycle : would_create_cycle node_id dependency_id graph ≡ false =
        elim (Bool-cases (would_create_cycle node_id dependency_id graph)) [
          | inl e ↦ absurd (a.free ((would_create_cycle_iff node_id dependency_id graph).0 e))
          | inr e ↦ e
        ] in
      let distinct : (node_id == dependency_id) ≡ false =
        elim (Bool-cases (node_id == dependency_id)) [
          | inl e ↦ absurd (
              a.free (
                subst (λ x. Reach (dependency_edges graph) dependency_id x)
                  (sym ((==_iff node_id dependency_id).0 e)) (here dependency_id)))
          | inr e ↦ e
        ] in
      ground (arith, no_cycle, distinct, a.node, a.dependency)

  -- `add_dependency` adds the edge exactly when both nodes are in the graph and no path of zero or
  -- more dependencies leads from the dependency back to the node.
  pub add_dependency_ok_iff : (add_dependency node_id dependency_id graph ≡ ok added) ↔ IsAddable
  add_dependency_ok_iff = (add_dependency-IsAddable, adds)

  dependency_edges-added :
      (x y : ℕ)
      → y ∈ dependency_edges added x
      → (y ∈ dependency_edges graph x) ⊎ ((x ≡ node_id) × (y ≡ dependency_id))
  unfolding update_node
  dependency_edges-added x y e = ground (
    arith,
    get-update node_id x (push_dependency dependency_id) graph.nodes,
    contains-append (dependency_edges graph x) (dependency_id ∷ []) y,
    ==_iff node_id x,
    ==_iff dependency_id y,
  )

  -- The new edge is there, and the others stay.
  pub contains-dependency_edges-added :
      (x y : ℕ)
      → IsAddable
      → contains (dependency_edges added x) y
        ≡ (contains (dependency_edges graph x) y || (node_id == x && dependency_id == y))
  unfolding update_node
  contains-dependency_edges-added x y a = ground (
    arith,
    a.node,
    get-update node_id x (push_dependency dependency_id) graph.nodes,
    contains-append (dependency_edges graph x) (dependency_id ∷ []) y,
    ==_iff node_id x,
    ==_iff dependency_id y,
  )

  pub keys-added : Map.keys added.nodes ≡ Map.keys graph.nodes
  unfolding update_node
  keys-added = keys-update node_id (push_dependency dependency_id) graph.nodes

  pub added-IsValidGraph : IsAddable → IsValidGraph graph → IsValidGraph added
  added-IsValidGraph a (closed, acyclic) = (
    record {
      nodup = subst IsNodup (sym keys-added) closed.nodup;
      known = λ n m h.
          subst (λ l. m ∈ l) (sym keys-added)
            (elim (dependency_edges-added n m h) [
              | inl old ↦ closed.known n m old
              | inr new ↦ ground (arith, a.dependency, contains-keys graph.nodes m)
            ]);
    },
    IsAcyclic-extend (dependency_edges graph) (dependency_edges added) node_id dependency_id
        dependency_edges-added acyclic a.free,
  )

  add_dependency-ok :
      (more : DeliveryGraph) → add_dependency node_id dependency_id graph ≡ ok more → more ≡ added
  unfolding add_dependency
  add_dependency-ok more h = ground arith

  -- If a graph has one node under each id, dependencies on its own nodes only, and no cycle, then so
  -- has the graph that `add_dependency` returns.
  pub add_dependency-IsValidGraph :
      (more : DeliveryGraph)
      → add_dependency node_id dependency_id graph ≡ ok more
      → IsValidGraph graph
      → IsValidGraph more
  add_dependency-IsValidGraph more h valid =
      let same = add_dependency-ok more h in
      subst IsValidGraph (sym same)
        (added-IsValidGraph (add_dependency-IsAddable (rw same at h)) valid)
