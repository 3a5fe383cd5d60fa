-- ===== src/Plan/DomainMap/Tests.antt =====
-- Small trees, what the operations do on them, and the theorems at them.
use mmat.Prelude.{ℕ, ◌+◌, ◌≡◌, refl, true, false, none, some, [], ◌∷◌, arith}
use mmat.Prelude.Map
use mmat.Prelude.Reach.{Reach⁺, IsAcyclic}
use mmat.Plan.Discovery.{DiscoveryOutput}
use mmat.Plan.DomainMap.{
  DomainNode, DomainTree, get, new, new_root, with_config, add_child, add_children, add_dependency,
  apply_discovery_output, depends_on, leaves, at_depth,
}
use mmat.Plan.DomainMap.Traversal.{remove_subtree, bfs}
use mmat.Plan.DomainMap.Depends.{dependency_edges, depends_on_iff}
use mmat.Plan.DomainMap.Acyclic.{
  add_dependency-accepts_iff, add_dependency-IsAcyclic, after, IsAccepted,
}
use mmat.Plan.DomainMap.WellFormed.{IsWellFormed, with_config-IsWellFormed, add_child-IsWellFormed}
use mmat.Plan.DomainMap.Growth.{IsSupply}
use mmat.Plan.DomainMap.Apply.{
  apply_discovery_output-IsWellFormed, apply_discovery_output_lem, child_ids, node_after,
}

program : Unit {0}
unfolding new with_config add_child add_children add_dependency apply_discovery_output depends_on
    remove_subtree bfs leaves at_depth
program = tt

abbrev shallow : DomainTree
unfolding program
shallow = with_config 100 "Root" "Root desc" (record { max_depth = 1; max_cascade_depth = 3 })

abbrev root_node : DomainNode
root_node = new_root 100 "Root" "Root desc"

abbrev output : DiscoveryOutput
output = record {
  assistant_message = "";
  ready_for_solution = true;
  problem_statement = "Build a platform";
  goals = [];
  constraints = [];
  assumptions = [];
  risks = [];
  notes = [];
  recommended_path = "";
  open_questions = [];
  sub_domains =
      record { name = "Ingestion"; description = "" }
      ∷ record { name = "Storage"; description = "" }
      ∷ [];
  big_picture = none;
  chosen_approach = "";
}

abbrev ids : ℕ → ℕ
ids n = n + 101

abbrev grown_tree : DomainTree
unfolding program
grown_tree = (apply_discovery_output ids 0 100 output shallow).0

abbrev linked : DomainTree
unfolding program
linked = (add_dependency 102 101 grown_tree).0

two_children : (apply_discovery_output ids 0 100 output shallow).1 ≡ 101 ∷ 102 ∷ []
unfolding program
two_children = refl

too_deep : (apply_discovery_output ids 2 101 output grown_tree).1 ≡ []
unfolding program
too_deep = refl

cycle_refused : (add_dependency 101 102 linked).1 ≡ false
unfolding program
cycle_refused = refl

again_refused : (add_dependency 102 101 linked).1 ≡ false
unfolding program
again_refused = refl

removed : Map.keys (remove_subtree 102 linked).0.nodes ≡ 100 ∷ 101 ∷ []
unfolding program
removed = refl

supply : IsSupply ids 0 shallow
unfolding program
supply = record { unused = λ m le. ground arith; distinct = λ i j e. omega arith }

shallow-IsWellFormed : IsWellFormed shallow
unfolding program
shallow-IsWellFormed =
    with_config-IsWellFormed 100 "Root" "Root desc"
      (record { max_depth = 1; max_cascade_depth = 3 })

apply_discovery_output-IsWellFormed_example :
    IsWellFormed (apply_discovery_output ids 0 100 output shallow).0
apply_discovery_output-IsWellFormed_example =
    apply_discovery_output-IsWellFormed ids 0 100 output shallow supply shallow-IsWellFormed

apply_discovery_output_lem_example :
    ((apply_discovery_output ids 0 100 output shallow).1
      ≡ child_ids ids 0 100 output shallow root_node)
    × (get (apply_discovery_output ids 0 100 output shallow).0 100
        ≡ some (node_after ids 0 100 output shallow root_node))
unfolding program
apply_discovery_output_lem_example =
    apply_discovery_output_lem ids 0 100 output shallow root_node supply refl

depends_on_iff_example :
    ((depends_on linked 102 101 ≡ true) → Reach⁺ (dependency_edges linked) 102 101)
    × (Reach⁺ (dependency_edges linked) 102 101 → (depends_on linked 102 101 ≡ true))
depends_on_iff_example = depends_on_iff linked 102 101

add_dependency-accepts_iff_example :
    ((add_dependency 101 102 linked).1 ≡ true → IsAccepted 101 102 linked)
    × (IsAccepted 101 102 linked → (add_dependency 101 102 linked).1 ≡ true)
add_dependency-accepts_iff_example = add_dependency-accepts_iff 101 102 linked

shallow-IsAcyclic : IsAcyclic (dependency_edges shallow)
unfolding program
shallow-IsAcyclic a (b, e, p) = absurd (ground arith)

add_dependency-IsAcyclic_example : IsAcyclic (dependency_edges (after 101 101 shallow))
add_dependency-IsAcyclic_example = add_dependency-IsAcyclic 101 101 shallow shallow-IsAcyclic

add_child-IsWellFormed_example : IsWellFormed (add_child 101 100 "Child" "" shallow).0
unfolding program
add_child-IsWellFormed_example =
    add_child-IsWellFormed 101 100 "Child" "" shallow shallow-IsWellFormed refl
