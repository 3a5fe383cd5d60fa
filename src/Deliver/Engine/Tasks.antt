-- ===== src/Deliver/Engine/Tasks.antt =====
-- The tasks of a delivery: `execute_task_card` and `execute_task_cards` of src/deliver/engine.rs with
-- what they call. What is only logged is left out.
use Prim.Native.Char.{Char, code}
use Prim.Native.String
use Prim.Native.String.{String}
use mmat.Prelude.{
  ℕ, zero, suc, ◌+◌, Bool, true, false, ◌&&◌, ◌||◌, none, some, List, [], ◌∷◌, ◌++◌, any, Result,
  ok, err, leb, ◌==◌, if◌then◌else◌,
}
use mmat.Deliver.Queue.{BuildJob}
use mmat.Deliver.Models.{
  TaskCard, ExecutionPlan, FileDelta, ImplementationDelta, StageFinding, CommandEvidence,
  ImplementationItemResult, ImplementationTaskInput, ImplementationDraft,
}
use mmat.Deliver.Engine.{DeliveryError, workflow, workspace, command, artefact, ordered_task_cards}
use mmat.Deliver.Engine.Steps.{
  Artefact, task_result, agent_error, not_started, exited, CargoOutput, Services, stopped,
  out_of_fuel, Step, pure, stop, raise, ask, ◌>>=◌, ◌>>◌, or_error, unless,
}

abbrev pub implementation_retry_limit : ℕ
implementation_retry_limit = 3

-- `is_ascii_alphanumeric`, or `-` (45) or `_` (95)
abbrev pub is_name_char : Char → Bool
is_name_char c =
    let n = code c in
    (leb 48 n && leb n 57)
    || (leb 65 n && leb n 90)
    || (leb 97 n && leb n 122)
    || n == 45
    || n == 95

abbrev pub sanitise_chars : String → String
sanitise_chars String.[] = String.[]
sanitise_chars (String.◌∷◌ c s) =
    let rest = sanitise_chars s in
    if is_name_char c then String.◌∷◌ c rest else String.◌++◌ "_" rest

abbrev pub is_empty : String → Bool
is_empty String.[] = true
is_empty (String.◌∷◌ c s) = false

abbrev pub sanitise_worktree_name : String → String
sanitise_worktree_name name =
    let output = sanitise_chars name in if is_empty output then "delivery-job" else output

-- `join("; ")`
abbrev pub join : List String → String
join [] = ""
join (text ∷ []) = text
join (text ∷ next ∷ texts) = String.◌++◌ text (String.◌++◌ "; " (join (next ∷ texts)))

abbrev pub messages : List StageFinding → List String
messages [] = []
messages (finding ∷ findings) = finding.message ∷ messages findings

abbrev pub changed_paths : List FileDelta → List String
changed_paths [] = []
changed_paths (change ∷ changes) = change.path ∷ changed_paths changes

abbrev pub cargo_evidence : String → CargoOutput → Result DeliveryError CommandEvidence
cargo_evidence label (not_started error) =
    err (command (String.◌++◌ label (String.◌++◌ " failed to start: " error)))
cargo_evidence label (exited true summary) = ok (record { command = label; outcome = "passed" })
cargo_evidence label (exited false summary) =
    err (command (String.◌++◌ label (String.◌++◌ " failed: " summary)))

abbrev pub item_result :
    TaskCard
    → ImplementationDelta
    → List FileDelta
    → List CommandEvidence
    → String
    → ImplementationItemResult
item_result card delta merged_changes commands_run worktree_name = record {
  item_id = card.id;
  source = card.source;
  milestone_id = card.milestone_id;
  title = card.title;
  objective = card.objective;
  summary = delta.summary;
  contract_refs = card.contract_refs;
  changed_files = changed_paths merged_changes;
  rationale = delta.rationale;
  commands_run = commands_run;
  reviewer_findings = [];
  manual_checks = card.acceptance_criteria;
  known_gaps = [];
  scope_deviation = none;
  worktree_name = worktree_name;
}

-- `return Ok(…)`, or `prior_feedback.extend(findings)` and `continue`
unfoldable pub or_retry :
    Result (List StageFinding) ImplementationItemResult
    → (List StageFinding → Step ImplementationItemResult)
    → Step ImplementationItemResult
or_retry (ok result) again = pure result
or_retry (err findings) again = again findings

module _ (world : Services) where
  unfoldable pub write : Artefact → Step (Unit {0})
  write value s = elim (world.write_artefact s.calls value) [
    | none ↦ (record { calls = suc s.calls; artefacts = value ∷ s.artefacts }, ok tt)
    | some error ↦ (record s { calls = suc s.calls }, err (stopped (artefact error)))
  ]

  unfoldable pub run_cargo_command : String → String → List String → Step CommandEvidence
  run_cargo_command root label args = ask (λ n. cargo_evidence label (world.cargo n root args))

  unfoldable pub build_agent : Step (Unit {0})
  build_agent = ask (λ n. or_error agent_error (world.build_agent n))

  unfoldable pub implementation_draft :
      String → ImplementationTaskInput → String → Step ImplementationDraft
  unfolding build_agent
  implementation_draft worktree_root input worktree_name = do
    build_agent
    delta ← ask (λ n. or_error agent_error (world.draft n worktree_root input))
    pure (record { input = input; worktree_name = worktree_name; delta = delta })

  unfoldable pub validate_draft : ImplementationDraft → Step (List StageFinding)
  unfolding build_agent
  validate_draft draft = do
    build_agent
    peer ← ask (λ n. or_error agent_error (world.review n "peer review" draft))
    contract ← ask (λ n. or_error agent_error (world.review n "contract validation" draft))
    pure (peer.findings ++ contract.findings)

  unfoldable pub run_commands : String → Step (List CommandEvidence)
  unfolding run_cargo_command
  run_commands root = do
    fmt ← run_cargo_command root "cargo fmt --all" ("fmt" ∷ "--all" ∷ [])
    check ← run_cargo_command root "cargo check" ("check" ∷ [])
    test ← run_cargo_command root "cargo test" ("test" ∷ [])
    clippy ←
        run_cargo_command root "cargo clippy -- -D warnings"
          ("clippy" ∷ "--" ∷ "-D" ∷ "warnings" ∷ [])
    pure (fmt ∷ check ∷ test ∷ clippy ∷ [])

  -- After the reviews without a finding.
  unfoldable pub merge_draft :
      TaskCard
      → String
      → String
      → ImplementationDelta
      → List CommandEvidence
      → Step ImplementationItemResult
  merge_draft card baseline_root worktree_name delta commands_run = do
    merged_changes ←
        ask
          (λ n. or_error workspace (world.merge_item_worktree n baseline_root worktree_name delta))
    ask (λ n. unless workspace (world.remove_directory n baseline_root))
    pure (item_result card delta merged_changes commands_run worktree_name)

  -- A draft with findings is refused: its worktree and its baseline are removed, and the results of
  -- that are ignored.
  unfoldable pub judge_draft :
      TaskCard
      → String
      → String
      → ImplementationDelta
      → List CommandEvidence
      → List StageFinding
      → Step (Result (List StageFinding) ImplementationItemResult)
  unfolding merge_draft
  judge_draft card baseline_root worktree_name delta commands_run [] = do
    result ← merge_draft card baseline_root worktree_name delta commands_run
    pure (ok result)
  judge_draft card baseline_root worktree_name delta commands_run (finding ∷ findings) = do
    ask (λ n. ok tt)
    ask (λ n. ok tt)
    pure (err (finding ∷ findings))

  module _ (job : BuildJob) (plan : ExecutionPlan) where
    abbrev pub worktree_name : TaskCard → String
    worktree_name card =
        sanitise_worktree_name
          (String.◌++◌ (world.display job.id) (String.◌++◌ "-" (world.display card.id)))

    -- One attempt: the result, or the findings that refuse the draft.
    unfoldable pub attempt_card :
        TaskCard
        → List ImplementationItemResult
        → List StageFinding
        → ℕ
        → Step (Result (List StageFinding) ImplementationItemResult)
    unfolding implementation_draft validate_draft run_commands judge_draft
    attempt_card card completed_items prior_feedback attempt = do
      baseline_root ← ask (λ n. or_error workspace (
          world.create_baseline_snapshot n (
            String.◌++◌ "baseline-"
              (String.◌++◌ (worktree_name card) (String.◌++◌ "-" (world.display attempt))))))
      worktree_root ← ask (λ n. or_error workspace (world.prepare_worktree n (worktree_name card)))
      draft ←
          implementation_draft worktree_root
            (record {
              handoff = job.handoff;
              plan = plan;
              work_item = card;
              completed_items = completed_items;
              prior_feedback = prior_feedback;
            })
            (worktree_name card)
      ask (λ n. unless workspace (world.apply_file_deltas n worktree_root draft.delta))
      commands_run ← run_commands worktree_root
      findings ← validate_draft draft
      judge_draft card baseline_root (worktree_name card) draft.delta commands_run findings

    -- `for attempt in 0..IMPLEMENTATION_RETRY_LIMIT`, with the attempts that are left.
    unfoldable pub attempt_loop :
        ℕ
        → ℕ
        → TaskCard
        → List ImplementationItemResult
        → List StageFinding
        → Step ImplementationItemResult
    unfolding attempt_card or_retry
    attempt_loop zero attempt card completed_items prior_feedback = raise (
        workflow (
          String.◌++◌ "task " (
            String.◌++◌ (world.display card.id) (
              String.◌++◌ " failed validation after 3 attempt(s): "
                (join (messages prior_feedback))))))
    attempt_loop (suc left) attempt card completed_items prior_feedback =
        attempt_card card completed_items prior_feedback attempt >>= λ ended.
        or_retry ended (λ findings.
          attempt_loop left (attempt + 1) card completed_items (prior_feedback ++ findings))

    unfoldable pub execute_task_card :
        TaskCard → List ImplementationItemResult → Step ImplementationItemResult
    unfolding attempt_loop
    execute_task_card card completed_items =
        attempt_loop implementation_retry_limit 0 card completed_items []

    -- The `for` loop over the ordered cards
    unfoldable pub execute_cards :
        List TaskCard → List ImplementationItemResult → Step (List ImplementationItemResult)
    unfolding execute_task_card write
    execute_cards [] completed = pure completed
    execute_cards (card ∷ cards) completed =
        elim (any completed (λ item. item.item_id == card.id)) [
          | true ↦ execute_cards cards completed
          | false ↦ do
            result ← execute_task_card card completed
            write (task_result result)
            execute_cards cards (completed ++ result ∷ [])
        ]

    unfoldable pub execute_task_cards :
        List ImplementationItemResult → Step (List ImplementationItemResult)
    unfolding execute_cards
    execute_task_cards completed_items = elim (ordered_task_cards plan.task_cards) [
      | none ↦ stop out_of_fuel
      | some (err error) ↦ raise error
      | some (ok cards) ↦ execute_cards cards completed_items
    ]
