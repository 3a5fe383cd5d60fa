-- ===== src/Deliver/Engine.antt =====
-- The parts of src/deliver/engine.rs that compute on plans: the order of the tasks and the plan of a
-- remediation pass.
pub mod Ordered
pub mod Steps
pub mod Tasks
pub mod Run
pub mod Ends
pub mod Delivered
pub mod Executed
pub mod Outcomes
pub mod Severity
pub mod Repeated
mod Tests
use mmat.Prelude.{
  ℕ, zero, suc, String, Bool, true, false, Option, none, some, List, [], ◌∷◌, ◌++◌, Result, ok, err,
  map, all, contains, length, if◌then◌else◌, unwrap_or,
}
use mmat.Plan.Backflow.{BackflowEvent}
use mmat.Deliver.Models.{ItemId, TaskCard, ExecutionPlan, RemediationItem, FinalReview}

-- The errors of serde_json, of input and output and of the artefact store are kept as their texts.
pub data DeliveryError : Type 0 where
  config workflow workspace command model : String → DeliveryError
  json io artefact : String → DeliveryError
  backflow : BackflowEvent → DeliveryError

abbrev pub card_ids : List TaskCard → List ItemId
card_ids [] = []
card_ids (card ∷ cards) = card.id ∷ card_ids cards

-- `item.dependencies.iter().all(|dependency| completed_ids.contains(…))`
abbrev pub is_ready : List ItemId → TaskCard → Bool
is_ready completed_ids card = all card.dependencies (contains completed_ids)

-- `remaining.iter().position(…)`, and `remaining.remove(index)` with what it leaves.
unfoldable pub take_ready : List ItemId → List TaskCard → Option (TaskCard × List TaskCard)
take_ready completed_ids [] = none
take_ready completed_ids (card ∷ cards) = elim (is_ready completed_ids card) [
  | true ↦ some (card, cards)
  | false ↦ elim (take_ready completed_ids cards) [
    | none ↦ none
    | some (found, rest) ↦ some (found, card ∷ rest)
  ]
]

abbrev pub no_order : DeliveryError
no_order = workflow "task card dependencies contain a cycle or missing dependency"

-- The `while !remaining.is_empty()` loop on fuel; `none` means that the fuel ran out.
unfoldable pub order_loop :
    ℕ → List TaskCard → List TaskCard → Option (Result DeliveryError (List TaskCard))
unfolding take_ready
order_loop zero ordered remaining = none
order_loop (suc fuel) ordered [] = some (ok ordered)
order_loop (suc fuel) ordered (card ∷ cards) = elim (take_ready (card_ids ordered) (card ∷ cards)) [
  | none ↦ some (err no_order)
  | some (found, rest) ↦ order_loop fuel (ordered ++ found ∷ []) rest
]

unfoldable pub ordered_task_cards : List TaskCard → Option (Result DeliveryError (List TaskCard))
unfolding order_loop
ordered_task_cards task_cards = order_loop (suc (length task_cards)) [] task_cards

abbrev pub remediation_card : RemediationItem → TaskCard
remediation_card item = record {
  id = item.id;
  source = "final_review";
  milestone_id = none;
  title = item.title;
  objective = item.description;
  contract_refs = item.related_item_ids;
  acceptance_criteria = item.acceptance_criteria;
  expected_files = [];
  verification_commands =
      "cargo fmt --all" ∷ "cargo check" ∷ "cargo test" ∷ "cargo clippy -- -D warnings" ∷ [];
  dependencies = [];
  rollback_notes = "Revert the remediation changes." ∷ [];
}

-- The summary is formatted by `describe`.
abbrev pub remediation_plan : (String → String) → ExecutionPlan → FinalReview → ExecutionPlan
remediation_plan describe plan review = record {
  summary = describe review.summary;
  milestones = [];
  task_cards = map remediation_card review.remediation_items;
  risks = plan.risks;
}
