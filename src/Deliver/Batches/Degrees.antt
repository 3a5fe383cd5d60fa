-- ===== src/Deliver/Batches/Degrees.antt =====
-- The tables that `compute_batches` of src/deliver/delivery_graph.rs fills before its main loop:
-- the in-degrees, the dependents and the first queue.
use mmat.Prelude.{
  ℕ, ◌+◌, ◌≡◌, refl, inl, inr, true, false, ◌||◌, some, List, [], ◌∷◌, ◌++◌, arith, ◌==◌, ==_iff,
  contains, ◌∈◌, count, count-append, unwrap_or, Option-cases, if◌then◌else◌,
}
use mmat.Prelude.Map
use mmat.Prelude.Map.{Map, get-insert, contains-keys, contains-keys_insert}
use mmat.Prelude.Nodup.{IsNodup, Subset}
use mmat.Deliver.DeliveryGraph.{DeliveryNode}
use mmat.Deliver.Batches.{
  Degrees, Dependents, or_insert_zero, push_dependent, collect_dependencies, collect,
}

-- A sum over the nodes stored under one id.
abbrev pub sum_at : ℕ → (DeliveryNode → ℕ) → Map DeliveryNode → ℕ
sum_at n f [] = 0
sum_at n f ((id, node) ∷ nodes) = (if id == n then f node else 0) + sum_at n f nodes

pub sum_at-absent :
    (n : ℕ) (f : DeliveryNode → ℕ) (nodes : Map DeliveryNode)
    → contains (Map.keys nodes) n ≡ false
    → sum_at n f nodes ≡ 0
sum_at-absent n f [] h = refl
sum_at-absent n f ((id, node) ∷ nodes) h = ground (arith, sum_at-absent n f nodes)

-- With one node under each id, the sum is that node's value.
pub sum_at-get :
    (n : ℕ) (f : DeliveryNode → ℕ) (nodes : Map DeliveryNode) (node : DeliveryNode)
    → IsNodup (Map.keys nodes)
    → Map.get nodes n ≡ some node
    → sum_at n f nodes ≡ f node
sum_at-get n f [] node u h = absurd (ground arith)
sum_at-get n f ((id, w) ∷ nodes) node u h =
    ground (arith, sum_at-get n f nodes node u.1, sum_at-absent n f nodes, ==_iff id n, u.0)

pub IsNodup-keys_insert :
    (k v : ℕ) (m : Map ℕ) → IsNodup (Map.keys m) → IsNodup (Map.keys (Map.insert k v m))
IsNodup-keys_insert k v [] u = (refl, tt)
IsNodup-keys_insert k v ((j, w) ∷ m) u =
    ground (arith, IsNodup-keys_insert k v m, contains-keys_insert k j v m, ==_iff k j)

-- What the first loop keeps of the in-degrees: they are all zero, of known ids, one for each id.
pub record IsFilled (known : List ℕ) (in_degree : Degrees) : Type 0 where
  pub zeros : (n d : ℕ) → Map.get in_degree n ≡ some d → (d ≡ 0) × (n ∈ known)
  pub nodup : IsNodup (Map.keys in_degree)

get-or_insert_zero :
    (id n : ℕ) (in_degree : Degrees)
    → contains (Map.keys (or_insert_zero id in_degree)) n
      ≡ (id == n || contains (Map.keys in_degree) n)
get-or_insert_zero id n in_degree =
    ground (arith, contains-keys_insert id n 0 in_degree, contains-keys in_degree n, ==_iff id n)

-- The ids of the nodes, and of their dependencies, are known.
abbrev pub AreKnown : List ℕ → Map DeliveryNode → Type 0
AreKnown known [] = Unit
AreKnown known ((id, node) ∷ nodes) =
    (id ∈ known) × Subset node.dependencies known × AreKnown known nodes

module _ (known : List ℕ) where
  or_insert_zero-IsFilled :
      (id : ℕ) (in_degree : Degrees)
      → id ∈ known
      → IsFilled known in_degree
      → IsFilled known (or_insert_zero id in_degree)
  or_insert_zero-IsFilled id in_degree k f = elim (Option-cases (Map.get in_degree id)) [
    | inr (d, e) ↦ rw (or_insert_zero, e) f
    | inl e ↦
        rw (or_insert_zero, e)
          (record {
            zeros = λ n d h. ground (arith, f.zeros n d, get-insert id n 0 in_degree, ==_iff id n);
            nodup = IsNodup-keys_insert id 0 in_degree f.nodup;
          })
  ]

abbrev pub count_of : Dependents → ℕ → ℕ → ℕ
count_of dependents m n = count n (unwrap_or [] (Map.get dependents m))

count_of-push_dependent :
    (dep id m n : ℕ) (dependents : Dependents)
    → count_of (push_dependent dep id dependents) m n
      ≡ count_of dependents m n + (if dep == m then (if id == n then 1 else 0) else 0)
count_of-push_dependent dep id m n dependents = ground (
  arith,
  get-insert dep m (unwrap_or [] (Map.get dependents dep) ++ id ∷ []) dependents,
  count-append n (unwrap_or [] (Map.get dependents dep)) (id ∷ []),
  ==_iff dep m,
)

-- What the first loop does to the two tables, for one node and for all.
module _ (known : List ℕ) where
  collect_dependencies-IsFilled :
      (id : ℕ) (deps : List ℕ) (in_degree : Degrees) (dependents : Dependents)
      → Subset deps known
      → IsFilled known in_degree
      → IsFilled known (collect_dependencies id deps (in_degree, dependents)).0
  unfolding collect_dependencies
  collect_dependencies-IsFilled id [] in_degree dependents s f = f
  collect_dependencies-IsFilled id (dep ∷ deps) in_degree dependents s f =
      collect_dependencies-IsFilled id deps (or_insert_zero dep in_degree)
        (push_dependent dep id dependents) (λ a h. s a (ground arith))
        (or_insert_zero-IsFilled known dep in_degree (s dep (ground (arith, ==_iff dep dep))) f)

  pub collect-IsFilled :
      (nodes : Map DeliveryNode) (in_degree : Degrees) (dependents : Dependents)
      → AreKnown known nodes
      → IsFilled known in_degree
      → IsFilled known (collect nodes (in_degree, dependents)).0
  unfolding collect
  collect-IsFilled [] in_degree dependents k f = f
  collect-IsFilled ((id, node) ∷ nodes) in_degree dependents k f =
      collect-IsFilled nodes
        (collect_dependencies id node.dependencies (or_insert_zero id in_degree, dependents)).0
        (collect_dependencies id node.dependencies (or_insert_zero id in_degree, dependents)).1 k.2
        (collect_dependencies-IsFilled id node.dependencies (or_insert_zero id in_degree) dependents
          k.1 (or_insert_zero-IsFilled known id in_degree k.0 f))

collect_dependencies-keeps :
    (id n : ℕ) (deps : List ℕ) (in_degree : Degrees) (dependents : Dependents)
    → n ∈ Map.keys in_degree
    → n ∈ Map.keys (collect_dependencies id deps (in_degree, dependents)).0
unfolding collect_dependencies
collect_dependencies-keeps id n [] in_degree dependents h = h
collect_dependencies-keeps id n (dep ∷ deps) in_degree dependents h =
    collect_dependencies-keeps id n deps (or_insert_zero dep in_degree)
      (push_dependent dep id dependents) (ground (arith, get-or_insert_zero dep n in_degree))

pub collect-keeps :
    (n : ℕ) (nodes : Map DeliveryNode) (in_degree : Degrees) (dependents : Dependents)
    → (contains (Map.keys nodes) n || contains (Map.keys in_degree) n) ≡ true
    → n ∈ Map.keys (collect nodes (in_degree, dependents)).0
unfolding collect
collect-keeps n [] in_degree dependents h = h
collect-keeps n ((id, node) ∷ nodes) in_degree dependents h =
    collect-keeps n nodes
      (collect_dependencies id node.dependencies (or_insert_zero id in_degree, dependents)).0
      (collect_dependencies id node.dependencies (or_insert_zero id in_degree, dependents)).1
      (ground (
        arith,
        collect_dependencies-keeps id n node.dependencies (or_insert_zero id in_degree) dependents,
        get-or_insert_zero id n in_degree,
      ))

count_of-collect_dependencies :
    (id m n : ℕ) (deps : List ℕ) (in_degree : Degrees) (dependents : Dependents)
    → count_of (collect_dependencies id deps (in_degree, dependents)).1 m n
      ≡ count_of dependents m n + (if id == n then count m deps else 0)
unfolding collect_dependencies
count_of-collect_dependencies id m n [] in_degree dependents = ground arith
count_of-collect_dependencies id m n (dep ∷ deps) in_degree dependents = ground (
  arith,
  count_of-collect_dependencies id m n deps (or_insert_zero dep in_degree)
      (push_dependent dep id dependents),
  count_of-push_dependent dep id m n dependents,
)

-- A node is listed among the dependents of `m` as often as it lists `m` among its dependencies.
pub count_of-collect :
    (m n : ℕ) (nodes : Map DeliveryNode) (in_degree : Degrees) (dependents : Dependents)
    → count_of (collect nodes (in_degree, dependents)).1 m n
      ≡ count_of dependents m n + sum_at n (λ node. count m node.dependencies) nodes
unfolding collect
count_of-collect m n [] in_degree dependents = omega arith
count_of-collect m n ((id, node) ∷ nodes) in_degree dependents = omega (
  arith,
  count_of-collect m n nodes
      (collect_dependencies id node.dependencies (or_insert_zero id in_degree, dependents)).0
      (collect_dependencies id node.dependencies (or_insert_zero id in_degree, dependents)).1,
  count_of-collect_dependencies id m n node.dependencies (or_insert_zero id in_degree) dependents,
)
