-- ===== src/Deliver/Models.antt =====
-- The data of the build engine: src/deliver/models.rs. Ids of tasks and milestones are only compared,
-- so that a number stands for each.
use mmat.Prelude.{Bool, String, ℕ, Option, List}
use mmat.Deliver.Queue.{DesignHandoff}

abbrev pub ItemId : Type 0
ItemId = ℕ

pub record ExecutionMilestone : Type 0 where
  pub id : ItemId
  pub title : String
  pub objective : String
  pub task_card_ids : List ItemId

pub record TaskCard : Type 0 where
  pub id : ItemId
  pub source : String
  pub milestone_id : Option ItemId
  pub title : String
  pub objective : String
  pub contract_refs : List String
  pub acceptance_criteria : List String
  pub expected_files : List String
  pub verification_commands : List String
  pub dependencies : List ItemId
  pub rollback_notes : List String

pub record ExecutionPlan : Type 0 where
  pub summary : String
  pub milestones : List ExecutionMilestone
  pub task_cards : List TaskCard
  pub risks : List String

pub record FileDelta : Type 0 where
  pub path : String
  pub action : String
  pub content : Option String

pub record ImplementationDelta : Type 0 where
  pub summary : String
  pub rationale : List String
  pub changes : List FileDelta

pub record StageFinding : Type 0 where
  pub severity : String
  pub category : String
  pub message : String

pub record StageReview : Type 0 where
  pub summary : String
  pub findings : List StageFinding

pub record CommandEvidence : Type 0 where
  pub command : String
  pub outcome : String

pub record ImplementationItemResult : Type 0 where
  pub item_id : ItemId
  pub source : String
  pub milestone_id : Option ItemId
  pub title : String
  pub objective : String
  pub summary : String
  pub contract_refs : List String
  pub changed_files : List String
  pub rationale : List String
  pub commands_run : List CommandEvidence
  pub reviewer_findings : List StageFinding
  pub manual_checks : List String
  pub known_gaps : List String
  pub scope_deviation : Option String
  pub worktree_name : String

pub record ImplementationTaskInput : Type 0 where
  pub handoff : DesignHandoff
  pub plan : ExecutionPlan
  pub work_item : TaskCard
  pub completed_items : List ImplementationItemResult
  pub prior_feedback : List StageFinding

pub record ImplementationDraft : Type 0 where
  pub input : ImplementationTaskInput
  pub worktree_name : String
  pub delta : ImplementationDelta

pub record FinalReviewInput : Type 0 where
  pub handoff : DesignHandoff
  pub plan : ExecutionPlan
  pub completed_items : List ImplementationItemResult

pub record EvidenceLog : Type 0 where
  pub task_results : List ImplementationItemResult

pub record RemediationItem : Type 0 where
  pub id : ItemId
  pub title : String
  pub description : String
  pub acceptance_criteria : List String
  pub related_item_ids : List String

pub record FinalReview : Type 0 where
  pub summary : String
  pub ready : Bool
  pub strengths : List String
  pub findings : List StageFinding
  pub remediation_items : List RemediationItem
  pub next_step : String

pub record DeliveryOutcome : Type 0 where
  pub status : String
  pub plan : ExecutionPlan
  pub completed_items : List ImplementationItemResult
  pub final_review : FinalReview
  pub next_step : String
