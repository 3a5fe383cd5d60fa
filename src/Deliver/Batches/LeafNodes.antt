-- ===== src/Deliver/Batches/LeafNodes.antt =====
-- The first loop of `from_domain_tree` of src/deliver/delivery_graph.rs: the leaves become nodes.
use mmat.Prelude.{
  ℕ, ◌≡◌, refl, inl, inr, false, ◌||◌, List, [], ◌∷◌, map, arith, ==_iff, contains, ◌∈◌, ok,
  Bool-cases, retain,
}
use mmat.Prelude.Map
use mmat.Prelude.Map.{Map, get-insert, contains-keys, contains_of_get, contains-keys_insert}
use mmat.Prelude.Nodup.{IsNodup}
use mmat.Plan.DomainMap
use mmat.Plan.DomainMap.{DomainNode, DomainTree, leaves, dependencies}
use mmat.Deliver.DeliveryGraph.{DeliveryGraph, new_node, add_node}
use mmat.Deliver.DeliveryGraph.Cycles.{dependency_edges}
use mmat.Deliver.DeliveryGraph.Valid.{
  IsValidGraph, add_node-nodes, add_node-edges, add_node-IsValidGraph,
}
use mmat.Deliver.Batches.{add_nodes}

-- Each node of a map has its key as its id.
abbrev pub HaveOwnIds : Map DomainNode → Type 0
HaveOwnIds [] = Unit
HaveOwnIds ((k, node) ∷ nodes) = (node.id ≡ k) × HaveOwnIds nodes

abbrev pub leaf_ids_in : Map DomainNode → List ℕ
leaf_ids_in nodes =
    map (λ (node : DomainNode). node.id)
      (retain (λ node. DomainMap.is_empty node.children) (Map.values nodes))

pub contains-leaf_ids_in :
    (a : ℕ) (nodes : Map DomainNode) → HaveOwnIds nodes → a ∈ leaf_ids_in nodes → a ∈ Map.keys nodes
contains-leaf_ids_in a [] own h = h
contains-leaf_ids_in a ((k, node) ∷ nodes) own h =
    ground (arith, contains-leaf_ids_in a nodes own.1, own.0)

pub IsNodup-leaf_ids_in :
    (nodes : Map DomainNode)
    → HaveOwnIds nodes
    → IsNodup (Map.keys nodes)
    → IsNodup (leaf_ids_in nodes)
IsNodup-leaf_ids_in [] own u = tt
IsNodup-leaf_ids_in ((k, node) ∷ nodes) own u =
    elim (Bool-cases (DomainMap.is_empty node.children)) [
      | inl leaf ↦ rw leaf (
        ground (arith, contains-leaf_ids_in node.id nodes own.1, own.0, u.0),
        IsNodup-leaf_ids_in nodes own.1 u.1,
      )
      | inr inner ↦ rw inner (IsNodup-leaf_ids_in nodes own.1 u.1)
    ]

-- What `add_nodes` does to a graph without any of the ids.
pub record IsAddedNodes (ids : List ℕ) (graph more : DeliveryGraph) : Type 0 where
  pub valid : IsValidGraph more
  pub keys :
      (a : ℕ)
      → contains (Map.keys more.nodes) a ≡ (contains (Map.keys graph.nodes) a || contains ids a)
  pub edges : (a b : ℕ) → b ∈ dependency_edges more a → b ∈ dependency_edges graph a

add_node-ok :
    (id : ℕ) (graph : DeliveryGraph)
    → contains (Map.keys graph.nodes) id ≡ false
    → (more : DeliveryGraph) × (add_node id graph ≡ ok more)
unfolding add_node
add_node-ok id graph new = (
  record graph { nodes = Map.insert id (new_node id) graph.nodes },
  ground (arith, contains-keys graph.nodes id),
)

pub add_nodes-IsAddedNodes :
    (ids : List ℕ) (graph : DeliveryGraph)
    → IsNodup ids
    → ((a : ℕ) → a ∈ ids → contains (Map.keys graph.nodes) a ≡ false)
    → IsValidGraph graph
    → (more : DeliveryGraph) × (add_nodes ids graph ≡ ok more) × IsAddedNodes ids graph more
unfolding add_nodes
add_nodes-IsAddedNodes [] graph u new valid =
    (graph, refl, record { valid = valid; keys = λ a. ground arith; edges = λ a b e. e })
add_nodes-IsAddedNodes (id ∷ ids) graph u new valid =
    let (mid, first) = add_node-ok id graph (new id (ground (arith, ==_iff id id))) in
    let (more, rest, r) =
      add_nodes-IsAddedNodes ids mid u.1
        (λ a h. ground (
          arith,
          new a,
          u.0,
          ==_iff id a,
          add_node-nodes id graph mid first,
          contains-keys_insert id a (new_node id) graph.nodes,
        ))
        (add_node-IsValidGraph id graph mid first valid) in
    (
      more,
      rw (add_nodes, first) rest,
      record {
        valid = r.valid;
        keys = λ a. ground (
          arith,
          r.keys a,
          add_node-nodes id graph mid first,
          contains-keys_insert id a (new_node id) graph.nodes,
        );
        edges = λ a b e. add_node-edges id graph mid first a b (r.edges a b e);
      },
    )
