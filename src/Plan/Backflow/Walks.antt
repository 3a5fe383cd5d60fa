-- ===== src/Plan/Backflow/Walks.antt =====
-- The nodes that depend on a node, and the walks along them, for `compute` of
-- src/plan/backflow.rs.
use mmat.Prelude.{
  ℕ, ◌+◌, ◌-◌, ◌≤◌, ◌<◌, ◌≡◌, inl, inr, false, ◌||◌, List, [], ◌∷◌, arith, ==_iff, if◌then◌else◌,
  contains, ◌∈◌, count, length, Bool-cases,
}
use mmat.Prelude.Map
use mmat.Prelude.Map.{Map}
use mmat.Prelude.Placed.{placed, placed_le, placed-cons}
use mmat.Prelude.Reach.{Reach, here, step, Reach-trans}
use mmat.Plan.DomainMap.{DomainNode}
use mmat.Plan.Backflow.{push_dependents, edge_count}

-- The ids of the nodes whose dependencies hold `id`.
abbrev pub dependents : Map DomainNode → ℕ → List ℕ
dependents [] id = []
dependents ((key, node) ∷ nodes) id =
    let rest = dependents nodes id in if contains node.dependencies id then node.id ∷ rest else rest

-- A path of the given number of edges.
pub data Walk (next : ℕ → List ℕ) (source : ℕ) : ℕ → ℕ → Type 0 where
  start : Walk next source source 0
  extend : {b c d : ℕ} → Walk next source b d → c ∈ next b → Walk next source c (d + 1)

pub Walk-Reach : {next : ℕ → List ℕ} {a c d : ℕ} → Walk next a c d → Reach next a c
Walk-Reach {a} start = here a
Walk-Reach (extend {b} {c} w e) = Reach-trans (Walk-Reach w) (step e (here c))

-- The pairs on the stack, with the depths within the bound, all lie on walks from the source.
abbrev pub AreWalks : (ℕ → List ℕ) → ℕ → ℕ → List (ℕ × ℕ) → Type 0
AreWalks next source max_depth [] = Unit
AreWalks next source max_depth ((id, depth) ∷ stack) =
    Walk next source id depth × (depth ≤ max_depth) × AreWalks next source max_depth stack

pub push_dependents-AreWalks :
    (next : ℕ → List ℕ) (source max_depth id depth : ℕ) (nodes : Map DomainNode)
    (stack : List (ℕ × ℕ))
    → Walk next source id depth
    → depth + 1 ≤ max_depth
    → ((c : ℕ) → c ∈ dependents nodes id → c ∈ next id)
    → AreWalks next source max_depth stack
    → AreWalks next source max_depth (push_dependents id depth nodes stack)
push_dependents-AreWalks next source max_depth id depth [] stack w le sub all = all
push_dependents-AreWalks next source max_depth id depth ((key, node) ∷ nodes) stack w le sub all =
    elim (Bool-cases (contains node.dependencies id)) [
      | inl depends ↦ rw depends (
          push_dependents-AreWalks next source max_depth id depth nodes
            ((node.id, depth + 1) ∷ stack) w le (λ c h. sub c (ground arith))
            (extend w (sub node.id (ground (arith, ==_iff node.id node.id))), le, all))
      | inr not ↦ rw not (
          push_dependents-AreWalks next source max_depth id depth nodes stack w le
            (λ c h. sub c (ground arith)) all)
    ]

-- The stack afterwards holds the stack before and the dependents.
pub contains-push_dependents :
    (id depth a : ℕ) (nodes : Map DomainNode) (stack : List (ℕ × ℕ))
    → contains (Map.keys (push_dependents id depth nodes stack)) a
      ≡ (contains (Map.keys stack) a || contains (dependents nodes id) a)
contains-push_dependents id depth a [] stack = ground arith
contains-push_dependents id depth a ((key, node) ∷ nodes) stack = ground (
  arith,
  contains-push_dependents id depth a nodes stack,
  contains-push_dependents id depth a nodes ((node.id, depth + 1) ∷ stack),
)

-- The dependencies that no visited node has answered yet.
abbrev pub pending_edges : List ℕ → Map DomainNode → ℕ
pending_edges visited [] = 0
pending_edges visited ((key, node) ∷ nodes) =
    (length node.dependencies - placed visited node.dependencies) + pending_edges visited nodes

pub pending_edges_le :
    (visited : List ℕ) (nodes : Map DomainNode) → pending_edges visited nodes ≤ edge_count nodes
pending_edges_le visited [] = omega arith
pending_edges_le visited ((key, node) ∷ nodes) = omega (arith, pending_edges_le visited nodes)

pub pending_edges-visit :
    (id depth : ℕ) (visited : List ℕ) (nodes : Map DomainNode) (stack : List (ℕ × ℕ))
    → contains visited id ≡ false
    → length (push_dependents id depth nodes stack) + pending_edges (id ∷ visited) nodes
      ≤ length stack + pending_edges visited nodes
pending_edges-visit id depth visited [] stack new = omega arith
pending_edges-visit id depth visited ((key, node) ∷ nodes) stack new =
    let cons = placed-cons id visited node.dependencies new in
    let within = placed_le (id ∷ visited) node.dependencies in
    elim (Bool-cases (contains node.dependencies id)) [
      | inl depends ↦ rw depends (
          omega (
            arith,
            pending_edges-visit id depth visited nodes ((node.id, depth + 1) ∷ stack) new,
            cons,
            within,
            count_pos id node.dependencies depends,
          ))
      | inr not ↦
          rw not (omega (arith, pending_edges-visit id depth visited nodes stack new, cons, within))
    ]
  where
    count_pos : (a : ℕ) (xs : List ℕ) → a ∈ xs → 0 < count a xs
    count_pos a [] h = absurd (ground arith)
    count_pos a (x ∷ xs) h = ground (arith, count_pos a xs)

pub pending_edges-cons_le :
    (id : ℕ) (visited : List ℕ) (nodes : Map DomainNode)
    → contains visited id ≡ false
    → pending_edges (id ∷ visited) nodes ≤ pending_edges visited nodes
pending_edges-cons_le id visited [] new = omega arith
pending_edges-cons_le id visited ((key, node) ∷ nodes) new = omega (
  arith,
  pending_edges-cons_le id visited nodes new,
  placed-cons id visited node.dependencies new,
)
