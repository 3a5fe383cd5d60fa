-- ===== src/Plan/Backflow/Tests.antt =====
-- Small cascades, and the theorems at them.
use mmat.Prelude.{ℕ, ◌≤◌, ◌≡◌, refl, true, false, none, List, [], ◌∷◌}
use mmat.Prelude.Map
use mmat.Prelude.Reach.{Reach}
use mmat.Plan.DomainMap.{delivering, DomainNode, DomainTree, new_root}
use mmat.Plan.Backflow.{
  critical, BackflowEvent, event_new, with_cascade_depth, compute, is_affected,
  apply_to_domain_tree,
}
use mmat.Plan.Backflow.Walks.{dependents, Walk}
use mmat.Plan.Backflow.Cascade.{compute_sound, compute_iff}
use mmat.Plan.Backflow.Apply.{IsReplanned, apply_to_domain_tree-IsReplanned}

program : Unit {0}
unfolding compute apply_to_domain_tree
program = tt

abbrev node : ℕ → List ℕ → DomainNode
node id deps = record (new_root id "node" "") { dependencies = deps; status = delivering }

-- 1 depends on 0, 2 on both of them, and 3 on 2. The map lists 2 before 1.
abbrev tree : DomainTree
tree = record {
  root = 0;
  nodes =
      (0, node 0 []) ∷ (2, node 2 (0 ∷ 1 ∷ [])) ∷ (1, node 1 (0 ∷ [])) ∷ (3, node 3 (2 ∷ [])) ∷ [];
  config = record { max_depth = 3; max_cascade_depth = 3 };
  big_picture = none;
}

abbrev event : BackflowEvent
event = event_new 0 critical "service boundary was wrong"

all_affected : Map.keys (compute tree event 4).affected_nodes ≡ 0 ∷ 1 ∷ 2 ∷ 3 ∷ []
unfolding program
all_affected = refl

-- Node 3 is two dependencies away from node 0, but with the bound two the cascade misses it: the
-- stack visits node 2 first by way of node 1, at depth two.
near_node_missed : is_affected (compute tree event 2) 3 ≡ false
unfolding program
near_node_missed = refl

-- With the entries of nodes 1 and 2 the other way round it is found.
abbrev same_tree : DomainTree
same_tree = record tree {
  nodes =
      (0, node 0 []) ∷ (1, node 1 (0 ∷ [])) ∷ (2, node 2 (0 ∷ 1 ∷ [])) ∷ (3, node 3 (2 ∷ [])) ∷ [];
}

near_node_found : is_affected (compute same_tree event 2) 3 ≡ true
unfolding program
near_node_found = refl

compute_sound_example :
    Walk (dependents tree.nodes) 0 3 3
    × (3 ≤ 4)
    × (with_cascade_depth 3 event ≡ with_cascade_depth 3 event)
unfolding program
compute_sound_example = compute_sound tree event 4 refl 3 (with_cascade_depth 3 event) refl

compute_iff_example :
    (is_affected (compute tree event 4) 3 ≡ true → Reach (dependents tree.nodes) 0 3)
    × (Reach (dependents tree.nodes) 0 3 → is_affected (compute tree event 4) 3 ≡ true)
unfolding program
compute_iff_example = compute_iff tree event 4 refl refl 3

apply_to_domain_tree-IsReplanned_example :
    IsReplanned (compute tree event 4) tree (apply_to_domain_tree (compute tree event 4) tree)
apply_to_domain_tree-IsReplanned_example =
    apply_to_domain_tree-IsReplanned (compute tree event 4) tree
