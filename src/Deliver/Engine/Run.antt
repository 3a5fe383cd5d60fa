-- ===== src/Deliver/Engine/Run.antt =====
-- A delivery: `BuildEngine::run` of src/deliver/engine.rs.
use Prim.Native.Char.{code}
use Prim.Native.String
use Prim.Native.String.{String}
use mmat.Prelude.{
  ℕ, zero, suc, ◌+◌, Bool, true, false, ◌&&◌, ◌||◌, Option, none, some, List, [], ◌∷◌, leb, ◌==◌,
  if◌then◌else◌,
}
use mmat.Plan.Backflow.{BackflowSeverity, minor, moderate, major, critical, event_new}
use mmat.Plan.DomainMap.{DomainNodeId}
use mmat.Deliver.Queue.{BuildJob}
use mmat.Deliver.Models.{
  TaskCard, ExecutionPlan, StageFinding, RemediationItem, ImplementationItemResult, FinalReview,
  DeliveryOutcome,
}
use mmat.Deliver.Engine.{DeliveryError, workflow, artefact, backflow, remediation_plan}
use mmat.Deliver.Engine.Steps.{
  execution_plan, task_card, evidence_log, final_review, outcome, agent_error, Services,
  out_of_fuel, Step, pure, stop, raise, ask, ◌>>=◌, ◌>>◌, or_error, unless,
}
use mmat.Deliver.Engine.Tasks.{write, build_agent, execute_task_cards}

abbrev pub max_remediation_passes : ℕ
max_remediation_passes = 3

-- The code point of `to_ascii_lowercase`
abbrev pub lower : ℕ → ℕ
lower n = if leb 65 n && leb n 90 then n + 32 else n

-- `text.to_ascii_lowercase() == name`
abbrev pub is_named : String → String → Bool
is_named String.[] String.[] = true
is_named String.[] (String.◌∷◌ d name) = false
is_named (String.◌∷◌ c text) String.[] = false
is_named (String.◌∷◌ c text) (String.◌∷◌ d name) = lower (code c) == code d && is_named text name

-- `"moderate" if severity < Moderate`
abbrev pub raise_to_moderate : BackflowSeverity → BackflowSeverity
raise_to_moderate minor = moderate
raise_to_moderate severity = severity

-- The loop over the findings, from the severity so far.
unfoldable pub severity_loop : BackflowSeverity → List StageFinding → BackflowSeverity
severity_loop severity [] = severity
severity_loop severity (finding ∷ findings) =
    let after_major = severity_loop major findings in
    let after_moderate = severity_loop (raise_to_moderate severity) findings in
    let after_other = severity_loop severity findings in
    if is_named finding.severity "critical"
    then critical
    else if is_named finding.severity "major"
    then after_major
    else if is_named finding.severity "moderate"
    then after_moderate
    else after_other

unfoldable pub backflow_severity_from_findings : List StageFinding → BackflowSeverity
unfolding severity_loop
backflow_severity_from_findings findings = severity_loop minor findings

abbrev pub delivery_outcome :
    String → ExecutionPlan → List ImplementationItemResult → FinalReview → DeliveryOutcome
delivery_outcome status plan completed_items review = record {
  status = status;
  plan = plan;
  completed_items = completed_items;
  final_review = review;
  next_step = review.next_step;
}

abbrev pub no_items : List RemediationItem → Bool
no_items [] = true
no_items (item ∷ items) = false

abbrev pub remediation_summary : String → String
remediation_summary summary = String.◌++◌ "Remediation for final review: " summary

-- The error of a delivery that the final review does not accept.
abbrev pub refusal : Services → ℕ → FinalReview → Option DomainNodeId → DeliveryError
refusal world remediation_pass review (some node_id) = backflow (
    event_new node_id (backflow_severity_from_findings review.findings) (
      String.◌++◌ "delivery failed after " (
        String.◌++◌ (world.display remediation_pass)
          (String.◌++◌ " remediation pass(es): " review.summary))))
refusal world remediation_pass review none =
    workflow (String.◌++◌ "final review did not accept the delivery: " review.summary)

module _ (world : Services) (job : BuildJob) where
  unfoldable pub write_cards : List TaskCard → Step (Unit {0})
  unfolding write
  write_cards [] = pure tt
  write_cards (card ∷ cards) = write world (task_card card) >> write_cards cards

  unfoldable pub plan_implementation : Step ExecutionPlan
  unfolding build_agent
  plan_implementation = do
    build_agent world
    ask (λ n. or_error agent_error (world.plan n job.handoff))

  unfoldable pub ask_final_review : ExecutionPlan → List ImplementationItemResult → Step FinalReview
  unfolding build_agent
  ask_final_review plan completed_items = do
    build_agent world
    ask (λ n. or_error agent_error (
        world.final_review n
          (record { handoff = job.handoff; plan = plan; completed_items = completed_items })))

  -- What follows the final review, by whether it is ready and whether there is another round;
  -- `again` is that round.
  unfoldable pub conclude :
      Bool
      → Bool
      → ℕ
      → ExecutionPlan
      → List ImplementationItemResult
      → FinalReview
      → Step (Unit {0})
      → Step (Unit {0})
  unfolding write
  conclude true over remediation_pass plan items review again =
      write world (outcome (delivery_outcome "succeeded" plan items review))
  conclude false true remediation_pass plan items review again = do
    write world (outcome (delivery_outcome "failed" plan items review))
    raise (refusal world remediation_pass review job.domain_node_id)
  conclude false false remediation_pass plan items review again = do
    write world (execution_plan (remediation_plan remediation_summary plan review))
    again

  abbrev pub is_over : ℕ → FinalReview → Bool
  is_over remediation_pass review =
      no_items review.remediation_items || leb max_remediation_passes (remediation_pass + 1)

  -- The `loop` on fuel, from the number of remediation passes so far.
  unfoldable pub run_loop : ℕ → ℕ → ExecutionPlan → List ImplementationItemResult → Step (Unit {0})
  unfolding write execute_task_cards ask_final_review conclude
  run_loop zero remediation_pass plan completed_items = stop out_of_fuel
  run_loop (suc fuel) remediation_pass plan completed_items = do
    items ← execute_task_cards world job plan completed_items
    write world (evidence_log (record { task_results = items }))
    review ← ask_final_review plan items
    write world (final_review review)
    conclude review.ready (is_over remediation_pass review) remediation_pass plan items review (
        run_loop fuel (remediation_pass + 1) (remediation_plan remediation_summary plan review)
          items)

  unfoldable pub run : Step (Unit {0})
  unfolding plan_implementation write write_cards run_loop
  run = do
    ask (λ n. unless artefact (world.open_store n))
    plan ← plan_implementation
    write world (execution_plan plan)
    write_cards plan.task_cards
    run_loop max_remediation_passes 0 plan []
