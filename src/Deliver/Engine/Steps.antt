-- ===== src/Deliver/Engine/Steps.antt =====
-- A step of src/deliver/engine.rs: what it calls outside, what it writes and how it ends. The language
-- model, the worktrees, cargo and the artefact store are a parameter: each call is answered by what
-- `Services` has for the number of calls made so far.
use mmat.Prelude.{ℕ, suc, String, Bool, Option, none, some, List, Result, ok, err}
use mmat.Deliver.Models.{
  TaskCard, ExecutionPlan, FileDelta, ImplementationDelta, StageReview, ImplementationItemResult,
  ImplementationTaskInput, ImplementationDraft, FinalReviewInput, EvidenceLog, FinalReview,
  DeliveryOutcome,
}
use mmat.Deliver.Queue.{DesignHandoff}
use mmat.Deliver.Engine.{DeliveryError, config, workflow, model, json}

-- What is written to the artefact store, by `write_json` and `write_key_json`.
pub data Artefact : Type 0 where
  execution_plan : ExecutionPlan → Artefact
  task_card : TaskCard → Artefact
  task_result : ImplementationItemResult → Artefact
  evidence_log : EvidenceLog → Artefact
  final_review : FinalReview → Artefact
  outcome : DeliveryOutcome → Artefact

-- The errors of `build_agent`, of the model and of its answer.
pub data AgentError : Type 0 where
  config_error workflow_error model_error json_error : String → AgentError

abbrev pub agent_error : AgentError → DeliveryError
agent_error (config_error text) = config text
agent_error (workflow_error text) = workflow text
agent_error (model_error text) = model text
agent_error (json_error text) = json text

-- How `cargo` ends: not at all, or with its success and a summary of what it printed.
pub data CargoOutput : Type 0 where
  not_started : String → CargoOutput
  exited : Bool → String → CargoOutput

pub record Services : Type 0 where
  -- The text of a number, and of an id.
  pub display : ℕ → String
  pub open_store : ℕ → Option String
  pub write_artefact : ℕ → Artefact → Option String
  pub build_agent : ℕ → Result AgentError (Unit {0})
  pub plan : ℕ → DesignHandoff → Result AgentError ExecutionPlan
  pub draft : ℕ → String → ImplementationTaskInput → Result AgentError ImplementationDelta
  pub review : ℕ → String → ImplementationDraft → Result AgentError StageReview
  pub final_review : ℕ → FinalReviewInput → Result AgentError FinalReview
  pub create_baseline_snapshot : ℕ → String → Result String String
  pub prepare_worktree : ℕ → String → Result String String
  pub apply_file_deltas : ℕ → String → ImplementationDelta → Option String
  pub merge_item_worktree :
      ℕ → String → String → ImplementationDelta → Result String (List FileDelta)
  pub remove_directory : ℕ → String → Option String
  pub cargo : ℕ → String → List String → CargoOutput

-- The calls made so far, and the artefacts that are written, newest first.
pub record State : Type 0 where
  pub calls : ℕ
  pub artefacts : List Artefact

-- A loop that is out of fuel is no error of the program.
pub data Stop : Type 0 where
  stopped : DeliveryError → Stop
  out_of_fuel : Stop

abbrev pub Step : Type 0 → Type 0
Step A = State → State × Result Stop A

module _ {A : Type 0} where
  unfoldable pub pure : A → Step A
  pure a s = (s, ok a)

  unfoldable pub stop : Stop → Step A
  stop why s = (s, err why)

  unfoldable pub raise : DeliveryError → Step A
  raise error s = (s, err (stopped error))

abbrev pub raised : {A : Type 0} → Result DeliveryError A → Result Stop A
raised (ok a) = ok a
raised (err error) = err (stopped error)

-- A call outside.
unfoldable pub ask : {A : Type 0} → (ℕ → Result DeliveryError A) → Step A
ask answer s = (record s { calls = suc s.calls }, raised (answer s.calls))

infixl 5 ◌>>=◌ ◌>>◌
unfoldable pub ◌>>=◌ : {A B : Type 0} → Step A → (A → Step B) → Step B
◌>>=◌ m f s = let (s', r) = m s in elim r [ ok a ↦ f a s' | err why ↦ (s', err why) ]

unfoldable pub ◌>>◌ : {A B : Type 0} → Step A → Step B → Step B
m >> k = m >>= λ _. k

-- `map_err` with the error's constructor
abbrev pub or_error : {E A : Type 0} → (E → DeliveryError) → Result E A → Result DeliveryError A
or_error wrap (ok a) = ok a
or_error wrap (err error) = err (wrap error)

abbrev pub unless : (String → DeliveryError) → Option String → Result DeliveryError (Unit {0})
unless wrap none = ok tt
unless wrap (some error) = err (wrap error)
