-- ===== src/Deliver/Engine/Tests.antt =====
-- Small plans, and the theorem at one.
use mmat.Prelude.{ℕ, ◌≡◌, refl, none, some, List, [], ◌∷◌, ok, err, true, false, String}
use mmat.Plan.Backflow.{critical}
use mmat.Deliver.Queue.{BuildJob, running}
use mmat.Deliver.Models.{
  TaskCard, ExecutionPlan, StageFinding, ImplementationItemResult, FinalReview,
}
use mmat.Deliver.Engine.Steps.{Services, exited, State}
use mmat.Deliver.Engine.Tasks.{item_result, execute_task_cards}
use mmat.Deliver.Engine.Run.{severity_loop, backflow_severity_from_findings, remediation_summary}
use mmat.Deliver.Engine.Severity.{rank, highest, backflow_severity_from_findings-highest}
use mmat.Deliver.Engine.Repeated.{execute_task_cards-repeated}
use mmat.Deliver.Engine.{remediation_plan, no_order, take_ready, order_loop, ordered_task_cards}
use mmat.Deliver.Engine.Ordered.{Orders, ordered_task_cards_lem}

program : Unit {0}
unfolding take_ready order_loop ordered_task_cards
program = tt

abbrev card : ℕ → List ℕ → TaskCard
card id dependencies = record {
  id = id;
  source = "plan";
  milestone_id = none;
  title = "";
  objective = "";
  contract_refs = [];
  acceptance_criteria = [];
  expected_files = [];
  verification_commands = [];
  dependencies = dependencies;
  rollback_notes = [];
}

abbrev cards : List TaskCard
cards = card 2 (1 ∷ []) ∷ card 1 [] ∷ card 3 (1 ∷ 2 ∷ []) ∷ []

in_order :
    ordered_task_cards cards ≡ some (ok (card 1 [] ∷ card 2 (1 ∷ []) ∷ card 3 (1 ∷ 2 ∷ []) ∷ []))
unfolding program
in_order = refl

missing : ordered_task_cards (card 1 (9 ∷ []) ∷ []) ≡ some (err no_order)
unfolding program
missing = refl

ordered_task_cards_lem_example : Orders cards (ordered_task_cards cards)
ordered_task_cards_lem_example = ordered_task_cards_lem cards

abbrev plan : ExecutionPlan
plan = record { summary = "plan"; milestones = []; task_cards = cards; risks = [] }

abbrev review : FinalReview
review = record {
  summary = "fine";
  ready = true;
  strengths = [];
  findings = [];
  remediation_items = [];
  next_step = "merge";
}

-- Every call is answered, and every draft is accepted.
abbrev world : Services
world = record {
  display = λ n. "n";
  open_store = λ n. none;
  write_artefact = λ n value. none;
  build_agent = λ n. ok tt;
  plan = λ n handoff. ok plan;
  draft = λ n root input. ok (record { summary = "done"; rationale = []; changes = [] });
  review = λ n stage draft. ok (record { summary = "good"; findings = [] });
  final_review = λ n input. ok review;
  create_baseline_snapshot = λ n name. ok name;
  prepare_worktree = λ n name. ok name;
  apply_file_deltas = λ n root delta. none;
  merge_item_worktree = λ n root name delta. ok [];
  remove_directory = λ n root. none;
  cargo = λ n root args. exited true "";
}

abbrev job : BuildJob
job = record {
  id = 1;
  project_id = 7;
  domain_node_id = some 5;
  status = running;
  handoff = record {
    design_run_id = 1;
    prompt = "build";
    architect_plan = "";
    knowledge_collections = [];
  };
  error = none;
  created_at = 10;
  updated_at = 10;
  started_at = none;
  completed_at = none;
}

abbrev start : State
start = record { calls = 0; artefacts = [] }

abbrev finding : String → StageFinding
finding severity = record { severity = severity; category = "quality"; message = "a message" }

highest_wins :
    backflow_severity_from_findings (finding "Moderate" ∷ finding "CRITICAL" ∷ finding "minor" ∷ [])
    ≡ critical
unfolding backflow_severity_from_findings severity_loop
highest_wins = refl

backflow_severity_from_findings-highest_example :
    rank (backflow_severity_from_findings (finding "Moderate" ∷ finding "CRITICAL" ∷ []))
    ≡ highest (finding "Moderate" ∷ finding "CRITICAL" ∷ [])
backflow_severity_from_findings-highest_example =
    backflow_severity_from_findings-highest (finding "Moderate" ∷ finding "CRITICAL" ∷ [])

abbrev result : ImplementationItemResult
result =
    item_result (card 2 []) (record { summary = "done"; rationale = []; changes = [] }) [] [] "1-2"

abbrev again : FinalReview
again = record review {
  ready = false;
  remediation_items =
      record {
        id = 2;
        title = "Fix";
        description = "Fix it";
        acceptance_criteria = [];
        related_item_ids = [];
      }
      ∷ [];
}

execute_task_cards-repeated_example :
    execute_task_cards world job
      (remediation_plan remediation_summary plan again)
      (result ∷ [])
      start
    ≡ (start, ok (result ∷ []))
execute_task_cards-repeated_example =
    execute_task_cards-repeated world job plan again (result ∷ []) start (refl, tt)
