-- ===== src/Prelude/Search.antt =====
-- What the graph searches share: the successors of an id in a map of nodes, and the number of
-- edges that a search has not followed yet, which bounds how long it runs.
use Prim.Native.Nat.{ℕ, ◌+◌, ◌≤◌}
use mathlib.Core.Path.{◌≡◌}
use mathlib.Core.Bool.{false}
use mathlib.Core.Option.{none, some}
use mathlib.Core.List.{List, [], ◌∷◌}
use native.Mathlib.Omega.{arith}
use mmat.Prelude.Tests.{◌==◌, if◌then◌else◌}
use mmat.Prelude.Lists.{contains, ◌∈◌, length}
use mmat.Prelude.Map
use mmat.Prelude.Map.{Map}
use mmat.Prelude.Reach.{Reach⁺, Reach-closed}

module _ {ℓ} {V : Type ℓ} (edges : V → List ℕ) where
  abbrev pub successors : Map V → ℕ → List ℕ
  successors nodes id = elim (Map.get nodes id) [ none ↦ [] | some node ↦ edges node ]

  -- The number of edges of the nodes outside `visited`.
  abbrev pub open_edges : List ℕ → Map V → ℕ
  open_edges visited [] = 0
  open_edges visited ((id, node) ∷ nodes) =
      (if contains visited id then 0 else length (edges node)) + open_edges visited nodes

  pub open_edges-cons_le :
      (id : ℕ) (visited : List ℕ) (nodes : Map V)
      → open_edges (id ∷ visited) nodes ≤ open_edges visited nodes
  open_edges-cons_le id visited [] = omega arith
  open_edges-cons_le id visited ((j, w) ∷ nodes) =
      ground (arith, open_edges-cons_le id visited nodes)

  pub open_edges-visit :
      (id : ℕ) (visited : List ℕ) (nodes : Map V) (node : V)
      → contains visited id ≡ false
      → Map.get nodes id ≡ some node
      → open_edges (id ∷ visited) nodes + length (edges node) ≤ open_edges visited nodes
  open_edges-visit id visited [] node new e = absurd (ground arith)
  open_edges-visit id visited ((j, w) ∷ nodes) node new e =
      ground
        (arith, open_edges-cons_le id visited nodes, open_edges-visit id visited nodes node new)

-- A set of ids that a search ended with: closed under successors, and no edge leads to `target`.
pub record IsClosed (next : ℕ → List ℕ) (target : ℕ) (final : List ℕ) : Type 0 where
  pub stays : (a b : ℕ) → a ∈ final → b ∈ next a → b ∈ final
  pub misses : (a b : ℕ) → a ∈ final → b ∈ next a → (b == target) ≡ false

pub not-Reach⁺ :
    {next : ℕ → List ℕ} {target : ℕ} {final : List ℕ}
    → IsClosed next target final
    → (a : ℕ) → a ∈ final
    → ¬ (Reach⁺ next a target)
not-Reach⁺ {next} {target} {final} c a h (b, e, p) = absurd (ground (arith, last.1))
  where
    last : (target ∈ final) × ((target == target) ≡ false)
    last =
        Reach-closed (λ x. (x ∈ final) × ((x == target) ≡ false))
          (λ x y hx ey. (c.stays x y hx.0 ey, c.misses x y hx.0 ey)) p
          (c.stays a b h e, c.misses a b h e)
