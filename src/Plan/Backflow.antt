-- ===== src/Plan/Backflow.antt =====
-- Architectural backflow: src/plan/backflow.rs. A critical event cascades from its source to the
-- nodes that depend on it. The proofs are in the modules below.
pub mod Walks
pub mod Cascade
pub mod Apply
mod Tests
use mmat.Prelude.{
  ℕ, zero, suc, ◌+◌, String, Bool, true, false, Option, none, some, List, [], ◌∷◌, ◌++◌, unwrap_or,
  leb, ◌==◌, if◌then◌else◌, contains, length, any,
}
use mmat.Prelude.Map
use mmat.Prelude.Map.{Map}
use mmat.Plan.DomainMap.{
  DomainNodeId, DomainNodeStatus, delivering, complete, replanning, DomainNode, DomainTree, get,
  update_node,
}

pub data BackflowSeverity : Type 0 where
  minor moderate major critical : BackflowSeverity

pub data BackflowRouteTarget : Type 0 where
  delivery architect solution_selection domain_mapping : BackflowRouteTarget

pub record BackflowEvent : Type 0 where
  pub source_node_id : DomainNodeId
  pub severity : BackflowSeverity
  pub reason : String
  pub cascade_depth : ℕ

pub record BackflowCascade : Type 0 where
  pub affected_nodes : Map BackflowEvent

pub record BackflowApplication : Type 0 where
  pub replanning_nodes : List DomainNodeId
  pub invalidated_delivery_nodes : List DomainNodeId
  pub human_review_required : Bool

abbrev pub label : BackflowSeverity → String
label minor = "Minor"
label moderate = "Moderate"
label major = "Major"
label critical = "Critical"

abbrev pub route_target : BackflowSeverity → BackflowRouteTarget
route_target minor = delivery
route_target moderate = architect
route_target major = solution_selection
route_target critical = domain_mapping

abbrev pub is_critical : BackflowSeverity → Bool
is_critical critical = true
is_critical _ = false

abbrev pub event_new : DomainNodeId → BackflowSeverity → String → BackflowEvent
event_new source_node_id severity reason = record {
  source_node_id = source_node_id;
  severity = severity;
  reason = reason;
  cascade_depth = 0;
}

abbrev pub with_cascade_depth : ℕ → BackflowEvent → BackflowEvent
with_cascade_depth depth event = record event { cascade_depth = depth }

-- The `for` loop over `tree.nodes.values()`; the stack has its top first.
abbrev pub push_dependents :
    DomainNodeId → ℕ → Map DomainNode → List (DomainNodeId × ℕ) → List (DomainNodeId × ℕ)
push_dependents node_id depth [] stack = stack
push_dependents node_id depth ((key, node) ∷ nodes) stack =
    push_dependents node_id depth nodes
      (if contains node.dependencies node_id then (node.id, depth + 1) ∷ stack else stack)

-- The `while let Some((node_id, depth)) = queue.pop()` loop on fuel; `none` means that the fuel ran
-- out. The order of `visited`, a `HashSet`, is never read.
pub cascade_loop :
    ℕ
    → Map DomainNode
    → BackflowEvent
    → ℕ
    → List (DomainNodeId × ℕ)
    → List DomainNodeId
    → Map BackflowEvent
    → Option (Map BackflowEvent)
cascade_loop zero nodes source_event max_depth stack visited affected = none
cascade_loop (suc fuel) nodes source_event max_depth [] visited affected = some affected
cascade_loop (suc fuel) nodes source_event max_depth ((node_id, depth) ∷ stack) visited affected =
    elim (contains visited node_id) [
      | true ↦ cascade_loop fuel nodes source_event max_depth stack visited affected
      | false ↦
          cascade_loop fuel nodes source_event max_depth
            (if leb max_depth depth then stack else push_dependents node_id depth nodes stack)
            (node_id ∷ visited)
            (Map.insert node_id (with_cascade_depth depth source_event) affected)
    ]

-- The number of dependencies that all nodes declare.
abbrev pub edge_count : Map DomainNode → ℕ
edge_count [] = 0
edge_count ((key, node) ∷ nodes) = length node.dependencies + edge_count nodes

unfoldable pub compute : DomainTree → BackflowEvent → ℕ → BackflowCascade
unfolding cascade_loop
compute tree source_event max_depth =
    if is_critical source_event.severity
    then record {
      affected_nodes = unwrap_or [] (
          cascade_loop (suc (suc (edge_count tree.nodes))) tree.nodes source_event max_depth
            ((source_event.source_node_id, 0) ∷ []) [] []);
    }
    else record { affected_nodes = Map.insert source_event.source_node_id source_event [] }

abbrev pub compute_for_tree : DomainTree → BackflowEvent → BackflowCascade
compute_for_tree tree source_event = compute tree source_event tree.config.max_cascade_depth

abbrev pub is_affected : BackflowCascade → DomainNodeId → Bool
is_affected cascade node_id = Map.contains_key cascade.affected_nodes node_id

abbrev pub halted : BackflowCascade → ℕ → Bool
halted cascade max_depth =
    any (Map.values cascade.affected_nodes) (λ event. leb max_depth event.cascade_depth)

abbrev pub requires_human_review : BackflowCascade → ℕ → Bool
requires_human_review cascade max_depth = halted cascade max_depth

-- `affected.sort()`
abbrev pub insert_sorted : DomainNodeId → List DomainNodeId → List DomainNodeId
insert_sorted id [] = id ∷ []
insert_sorted id (other ∷ ids) =
    if leb id other then id ∷ other ∷ ids else other ∷ insert_sorted id ids

abbrev pub sort : List DomainNodeId → List DomainNodeId
sort [] = []
sort (id ∷ ids) = insert_sorted id (sort ids)

-- `matches!(node.status, Delivering | Complete)`
abbrev pub has_delivery_state : DomainNodeStatus → Bool
has_delivery_state delivering = true
has_delivery_state complete = true
has_delivery_state _ = false

-- The loop over the sorted ids.
pub apply_nodes :
    List DomainNodeId → DomainTree → BackflowApplication → DomainTree × BackflowApplication
unfolding update_node
apply_nodes [] tree application = (tree, application)
apply_nodes (node_id ∷ node_ids) tree application = elim (get tree node_id) [
  | none ↦ apply_nodes node_ids tree application
  | some node ↦
      apply_nodes node_ids (update_node node_id (λ node. record node { status = replanning }) tree)
        (record application {
          invalidated_delivery_nodes =
              (if has_delivery_state node.status
                then application.invalidated_delivery_nodes ++ node_id ∷ []
                else application.invalidated_delivery_nodes);
          replanning_nodes = application.replanning_nodes ++ node_id ∷ [];
        })
]

unfoldable pub apply_to_domain_tree :
    BackflowCascade → DomainTree → DomainTree × BackflowApplication
unfolding apply_nodes
apply_to_domain_tree cascade tree =
    apply_nodes (sort (Map.keys cascade.affected_nodes)) tree (record {
      replanning_nodes = [];
      invalidated_delivery_nodes = [];
      human_review_required = requires_human_review cascade tree.config.max_cascade_depth;
    })
