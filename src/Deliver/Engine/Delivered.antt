-- ===== src/Deliver/Engine/Delivered.antt =====
-- What a task's result says: every result of `execute_task_cards` of src/deliver/engine.rs is checked.
use mmat.Prelude.{
  ℕ, zero, suc, ◌+◌, ◌≡◌, refl, inl, inr, String, true, false, List, [], ◌∷◌, ◌++◌, Result, ok, err,
  Option-cases,
}
use mmat.Deliver.Queue.{BuildJob}
use mmat.Deliver.Models.{
  TaskCard, ExecutionPlan, ImplementationDelta, StageFinding, CommandEvidence,
  ImplementationItemResult, ImplementationTaskInput, ImplementationDraft,
}
use mmat.Deliver.Engine.{DeliveryError, workspace}
use mmat.Deliver.Engine.Steps.{Artefact, CargoOutput, not_started, exited, Services, Step}
use mmat.Deliver.Engine.Tasks.{
  write, run_cargo_command, cargo_evidence, build_agent, implementation_draft, validate_draft,
  run_commands, merge_draft, judge_draft, or_retry, attempt_card, attempt_loop, execute_task_card,
}
use mmat.Deliver.Engine.Ends.{
  Ends, Anything, Answers, pure-Ends, raise-Ends, ask-Ends, bind-Ends, then-Ends, agent-Answers,
  workspace-Answers, unless-Answers,
}

abbrev pub passed : String → CommandEvidence
passed label = record { command = label; outcome = "passed" }

abbrev pub all_passed : List CommandEvidence
all_passed =
    passed "cargo fmt --all"
    ∷ passed "cargo check"
    ∷ passed "cargo test"
    ∷ passed "cargo clippy -- -D warnings"
    ∷ []

-- A run of cargo in a worktree that exited with success.
abbrev pub HasPassed : Services → String → List String → Type 0
HasPassed world root args =
    (n : ℕ) × (summary : String) × (world.cargo n root args ≡ exited true summary)

-- Formatted, compiled, tested and linted in a worktree, each with success.
pub record IsTested (world : Services) (root : String) : Type 0 where
  pub formatted : HasPassed world root ("fmt" ∷ "--all" ∷ [])
  pub compiled : HasPassed world root ("check" ∷ [])
  pub tested : HasPassed world root ("test" ∷ [])
  pub linted : HasPassed world root ("clippy" ∷ "--" ∷ "-D" ∷ "warnings" ∷ [])

-- Evidence of the four commands, and the worktree in which they passed.
abbrev pub IsEvidence : Services → List CommandEvidence → Type 0
IsEvidence world commands = (commands ≡ all_passed) × ((root : String) × IsTested world root)

-- The result of a card.
abbrev pub IsDone : Services → TaskCard → ImplementationItemResult → Type 0
IsDone world card item = (item.item_id ≡ card.id) × IsEvidence world item.commands_run

cargo-Answers :
    (label : String) (output : CargoOutput)
    → Answers
        (λ evidence.
          (evidence ≡ passed label) × ((summary : String) × (output ≡ exited true summary)))
        (cargo_evidence label output)
cargo-Answers label (not_started error) = refl
cargo-Answers label (exited true summary) = (refl, (summary, refl))
cargo-Answers label (exited false summary) = refl

Answers-map :
    {A : Type 0} {P Q : A → Type 0} (answer : Result DeliveryError A)
    → ((a : A) → P a → Q a)
    → Answers P answer
    → Answers Q answer
Answers-map (ok a) h p = h a p
Answers-map (err error) h p = p

-- The result of an attempt.
abbrev pub IsDoneIfOk :
    Services → TaskCard → Result (List StageFinding) ImplementationItemResult → Type 0
IsDoneIfOk world card (ok item) = IsDone world card item
IsDoneIfOk world card (err findings) = Unit {0}

or_retry-Ends :
    (world : Services) (card : TaskCard)
    (ended : Result (List StageFinding) ImplementationItemResult)
    (again : List StageFinding → Step ImplementationItemResult)
    → IsDoneIfOk world card ended
    → ((findings : List StageFinding) → Ends (IsDone world card) (again findings))
    → Ends (IsDone world card) (or_retry ended again)
unfolding or_retry
or_retry-Ends world card (ok item) again done retried = pure-Ends item done
or_retry-Ends world card (err findings) again done retried = retried findings

module _ (world : Services) where
  pub write-Ends : (value : Artefact) → Ends Anything (write world value)
  unfolding write
  write-Ends value = record {
    ends = λ s. elim (Option-cases (world.write_artefact s.calls value)) [
      | inl e ↦ rw (write, e) tt
      | inr (error, e) ↦ rw (write, e) refl
    ];
  }

  pub build_agent-Ends : Ends Anything (build_agent world)
  unfolding build_agent
  build_agent-Ends = ask-Ends _ (λ n. agent-Answers (world.build_agent n))

  run_cargo_command-Ends :
      (root label : String) (args : List String)
      → Ends
          (λ evidence. (evidence ≡ passed label) × HasPassed world root args)
          (run_cargo_command world root label args)
  unfolding run_cargo_command
  run_cargo_command-Ends root label args = ask-Ends _ (λ n.
      Answers-map (cargo_evidence label (world.cargo n root args))
        (λ evidence (same, (summary, e)). (same, (n, summary, e)))
        (cargo-Answers label (world.cargo n root args)))

  run_commands-Ends : (root : String) → Ends (IsEvidence world) (run_commands world root)
  unfolding run_commands
  run_commands-Ends root = bind-Ends (run_cargo_command-Ends root _ _) (λ fmt a.
      bind-Ends (run_cargo_command-Ends root _ _) (λ check b.
        bind-Ends (run_cargo_command-Ends root _ _) (λ test c.
          bind-Ends (run_cargo_command-Ends root _ _) (λ clippy d. pure-Ends _ (
            cc (a.0, b.0, c.0, d.0),
            (root, record { formatted = a.1; compiled = b.1; tested = c.1; linted = d.1 }),
          )))))

  implementation_draft-Ends :
      (root : String) (input : ImplementationTaskInput) (name : String)
      → Ends Anything (implementation_draft world root input name)
  unfolding implementation_draft
  implementation_draft-Ends root input name = then-Ends build_agent-Ends (
      bind-Ends {Q = Anything} (ask-Ends _ (λ n. agent-Answers (world.draft n root input)))
        (λ delta h. pure-Ends _ tt))

  validate_draft-Ends : (draft : ImplementationDraft) → Ends Anything (validate_draft world draft)
  unfolding validate_draft
  validate_draft-Ends draft = then-Ends build_agent-Ends (
      bind-Ends {Q = Anything}
        (ask-Ends _ (λ n. agent-Answers (world.review n "peer review" draft)))
        (λ peer h.
          bind-Ends {Q = Anything}
            (ask-Ends _ (λ n. agent-Answers (world.review n "contract validation" draft)))
            (λ contract k. pure-Ends _ tt)))

  merge_draft-Ends :
      (card : TaskCard) (root name : String) (delta : ImplementationDelta)
      (commands_run : List CommandEvidence)
      → IsEvidence world commands_run
      → Ends (IsDone world card) (merge_draft world card root name delta commands_run)
  unfolding merge_draft
  merge_draft-Ends card root name delta commands_run h =
      bind-Ends {Q = Anything}
        (ask-Ends _ (λ n. workspace-Answers (world.merge_item_worktree n root name delta)))
        (λ changes a.
          then-Ends {Q = Anything}
            (ask-Ends _
              (λ n. unless-Answers workspace (λ text. refl) (world.remove_directory n root)))
            (pure-Ends _ (refl, h)))

  judge_draft-Ends :
      (card : TaskCard) (root name : String) (delta : ImplementationDelta)
      (commands_run : List CommandEvidence) (findings : List StageFinding)
      → IsEvidence world commands_run
      → Ends (IsDoneIfOk world card) (judge_draft world card root name delta commands_run findings)
  unfolding judge_draft
  judge_draft-Ends card root name delta commands_run [] h =
      bind-Ends (merge_draft-Ends card root name delta commands_run h)
        (λ item done. pure-Ends _ done)
  judge_draft-Ends card root name delta commands_run (finding ∷ findings) h =
      then-Ends {Q = Anything} (ask-Ends _ (λ n. tt))
        (then-Ends {Q = Anything} (ask-Ends _ (λ n. tt)) (pure-Ends _ tt))

  module _ (job : BuildJob) (plan : ExecutionPlan) where
    attempt_card-Ends :
        (card : TaskCard) (completed : List ImplementationItemResult) (feedback : List StageFinding)
        (attempt : ℕ)
        → Ends (IsDoneIfOk world card) (attempt_card world job plan card completed feedback attempt)
    unfolding attempt_card
    attempt_card-Ends card completed feedback attempt =
        bind-Ends {Q = Anything}
          (ask-Ends _ (λ n. workspace-Answers (world.create_baseline_snapshot n _)))
          (λ baseline a.
            bind-Ends {Q = Anything}
              (ask-Ends _ (λ n. workspace-Answers (world.prepare_worktree n _)))
              (λ root b. bind-Ends (implementation_draft-Ends root _ _) (λ draft c.
                then-Ends {Q = Anything}
                  (ask-Ends _ (λ n.
                    unless-Answers workspace (λ text. refl)
                      (world.apply_file_deltas n root draft.delta)))
                  (bind-Ends (run_commands-Ends root) (λ commands d.
                    bind-Ends (validate_draft-Ends draft) (λ findings e.
                      judge_draft-Ends card baseline _ draft.delta commands findings d))))))

    attempt_loop-Ends :
        (left attempt : ℕ) (card : TaskCard) (completed : List ImplementationItemResult)
        (feedback : List StageFinding)
        → Ends
            (IsDone world card)
            (attempt_loop world job plan left attempt card completed feedback)
    unfolding attempt_loop
    attempt_loop-Ends zero attempt card completed feedback = raise-Ends _ refl
    attempt_loop-Ends (suc left) attempt card completed feedback =
        bind-Ends (attempt_card-Ends card completed feedback attempt) (λ ended done.
          or_retry-Ends world card ended _ done (λ findings.
            attempt_loop-Ends left (attempt + 1) card completed (feedback ++ findings)))

    pub execute_task_card-Ends :
        (card : TaskCard) (completed : List ImplementationItemResult)
        → Ends (IsDone world card) (execute_task_card world job plan card completed)
    unfolding execute_task_card
    execute_task_card-Ends card completed = attempt_loop-Ends 3 0 card completed []
