-- ===== src/LiveView/State/Snapshot.antt =====
-- A new `UiState` and what it shows: `new`, `with_projects_and_conversation_store` and `snapshot` of
-- src/liveview/state.rs. Loading from the conversation store succeeds.
use mmat.Prelude.{
  ℕ, ◌+◌, String, Bool, true, false, ◌&&◌, ◌||◌, not, Option, none, some, List, [], ◌∷◌, ltb, ◌==◌,
  if◌then◌else◌, unwrap_or, length, find,
}
use mathlib.Core.Option
use text.Mathlib.Text
use mmat.Prelude.Map
use mmat.Prelude.Map.{Map}
use mmat.Plan.DomainMap.{DomainNodeId}
use mmat.Deliver.DeliveryGraph.{DeliveryGraph}
use mmat.Deliver.Queue.{ProjectId, pending, running, failed, BuildJobStatus, as_str}
use mmat.Projects.{ProjectConfig, placeholder_id}
use mmat.LiveView.Conversation.{Conversation}
use mmat.LiveView.State.{
  UiEventEntry, PendingPrompt, BuildJobSnapshot, RunSummary, DomainNodeUiSnapshot,
  BackflowNotificationSnapshot, DomainUiState, ProjectUiState, UiState, default_project,
  project_state,
}

abbrev pub dummy_project : ProjectConfig
dummy_project = record {
  id = placeholder_id;
  name = "";
  root = [];
  data_dir = [];
  enabled = false;
  qdrant_collection_prefix = [];
  repo_label = none;
}

abbrev pub new : UiState
new = record {
  projects = [];
  active_project_id = dummy_project.id;
  project_states = [];
  conversation_store = none;
  pending_initial_input = none;
  initial_input_consumed = false;
  next_event_id = 0;
  version = 0;
  version_receivers = 0;
  cancel = false;
  cancel_receivers = 0;
  prompts = [];
  replies = [];
}

-- `ConversationHistoryStore::load`, where there is a store.
abbrev pub load : Option (Map Conversation) → ProjectId → Option Conversation
load store project_id =
    Option.map (λ conversations. unwrap_or [] (Map.get conversations project_id)) store

abbrev pub restored : Option (Map Conversation) → ProjectConfig → ProjectUiState
restored store project = record default_project {
  conversation_history = unwrap_or [] (load store project.id);
}

-- `collect()`, after the entries that are there
abbrev pub restore :
    Option (Map Conversation) → List ProjectConfig → Map ProjectUiState → Map ProjectUiState
restore store [] states = states
restore store (project ∷ projects) states =
    restore store projects (Map.insert project.id (restored store project) states)

abbrev pub first : List ProjectConfig → Option ProjectConfig
first [] = none
first (project ∷ projects) = some project

abbrev pub with_projects_and_conversation_store :
    List ProjectConfig → Option (Map Conversation) → UiState
with_projects_and_conversation_store projects conversation_store = record new {
  projects = projects;
  active_project_id =
      unwrap_or dummy_project.id (Option.map (λ project. project.id) (first projects));
  project_states = restore conversation_store projects [];
  conversation_store = conversation_store;
}

abbrev pub with_projects : List ProjectConfig → UiState
with_projects projects = with_projects_and_conversation_store projects none

pub data ComposerMode : Type 0 where
  initial_prompt reply working : ComposerMode

pub record PendingPromptSnapshot : Type 0 where
  pub question : String
  pub choices : Option (List String)

pub record DomainUiStateSnapshot : Type 0 where
  pub node_id : DomainNodeId
  pub conversation : Conversation
  pub pending_prompt : Option PendingPromptSnapshot
  pub composer_mode : ComposerMode
  pub run_summary : Option RunSummary
  pub phase : Option String

pub record ProjectWorkerSnapshot : Type 0 where
  pub project_id : ProjectId
  pub project_name : String
  pub pending : ℕ
  pub running : ℕ
  pub failed : ℕ

pub record UiSnapshot : Type 0 where
  pub projects : List ProjectConfig
  pub active_project : ProjectConfig
  pub history : List UiEventEntry
  pub conversation : Conversation
  pub pending_prompt : Option PendingPromptSnapshot
  pub composer_mode : ComposerMode
  pub run_summary : Option RunSummary
  pub queue : List BuildJobSnapshot
  pub worker_summary : List ProjectWorkerSnapshot
  pub message_queue_count : ℕ
  pub step_interrupted : Bool
  pub is_first_boot : Bool
  pub domain_tree_nodes : List DomainNodeUiSnapshot
  pub domain_states : Map DomainUiStateSnapshot
  pub delivery_graph : Option DeliveryGraph
  pub backflow_notifications : List BackflowNotificationSnapshot
  pub open_domain_tabs : List DomainNodeId
  pub active_domain_node_id : Option DomainNodeId

abbrev pub prompt_snapshot : PendingPrompt → PendingPromptSnapshot
prompt_snapshot prompt = record { question = prompt.question; choices = prompt.choices }

abbrev pub is_some {ℓ} : {A : Type ℓ} → Option A → Bool
is_some none = false
is_some (some x) = true

abbrev pub domain_state_snapshot : DomainNodeId → DomainUiState → DomainUiStateSnapshot
domain_state_snapshot node_id state = record {
  node_id = node_id;
  conversation = state.conversation_history;
  pending_prompt = Option.map prompt_snapshot state.pending_prompt;
  composer_mode = (if is_some state.pending_prompt then reply else working);
  run_summary = state.run_summary;
  phase = state.phase;
}

abbrev pub domain_snapshots : Map DomainUiState → Map DomainUiStateSnapshot
domain_snapshots [] = []
domain_snapshots ((node_id, state) ∷ states) =
    (node_id, domain_state_snapshot node_id state) ∷ domain_snapshots states

-- The jobs with a status: `filter(|job| job.status == …).count()`
abbrev pub count_status : BuildJobStatus → List BuildJobSnapshot → ℕ
count_status status [] = 0
count_status status (job ∷ jobs) =
    let rest = count_status status jobs in
    if Text.◌==◌ job.status (as_str status) then rest + 1 else rest

abbrev pub worker_snapshot : ProjectConfig → List BuildJobSnapshot → Option ProjectWorkerSnapshot
worker_snapshot project queue =
    let pending = count_status pending queue in
    let running = count_status running queue in
    let failed = count_status failed queue in
    if ltb 0 (pending + running + failed)
    then some (record {
      project_id = project.id;
      project_name = project.name;
      pending = pending;
      running = running;
      failed = failed;
    })
    else none

abbrev pub worker_summary : List ProjectConfig → Map ProjectUiState → List ProjectWorkerSnapshot
worker_summary [] states = []
worker_summary (project ∷ projects) states =
    let rest = worker_summary projects states in
    elim (Map.get states project.id) [
      | none ↦ rest
      | some state ↦ elim (worker_snapshot project state.queue) [
        | none ↦ rest
        | some worker ↦ worker ∷ rest
      ]
    ]

abbrev pub is_empty_list {ℓ} : {A : Type ℓ} → List A → Bool
is_empty_list [] = true
is_empty_list (x ∷ xs) = false

-- The `active_project` of a snapshot
abbrev pub shown_project : UiState → ProjectConfig
shown_project state =
    elim (find (λ project. project.id == state.active_project_id) state.projects) [
      | some project ↦ project
      | none ↦ unwrap_or dummy_project (first state.projects)
    ]

-- The state of the active domain node in `domain_states`
abbrev pub active_domain_state : ProjectUiState → Option DomainUiStateSnapshot
active_domain_state current = elim current.active_domain_node_id [
  | none ↦ none
  | some id ↦ Map.get (domain_snapshots current.domain_states) id
]

abbrev pub shown_conversation : ProjectUiState → Conversation
shown_conversation current =
    if not (is_empty_list current.domain_tree_nodes)
    then unwrap_or [] (Option.map (λ state. state.conversation) (active_domain_state current))
    else current.conversation_history

abbrev pub shown_prompt : ProjectUiState → Option PendingPromptSnapshot
shown_prompt current =
    if not (is_empty_list current.domain_tree_nodes)
    then elim (active_domain_state current) [ none ↦ none | some state ↦ state.pending_prompt ]
    else Option.map prompt_snapshot current.pending_prompt

abbrev pub shown_summary : ProjectUiState → Option RunSummary
shown_summary current =
    if not (is_empty_list current.domain_tree_nodes)
    then elim (active_domain_state current) [ none ↦ none | some state ↦ state.run_summary ]
    else current.run_summary

-- A project without a state is shown as the default one: each field's `unwrap_or_default`.
abbrev pub snapshot : UiState → UiSnapshot
snapshot state =
    let active_project = shown_project state in
    let current = project_state active_project.id state in
    let has_pending_input =
      not state.initial_input_consumed && is_some state.pending_initial_input in
    let pending_prompt = shown_prompt current in
    record {
      projects = state.projects;
      active_project = active_project;
      history = current.event_history;
      conversation = shown_conversation current;
      pending_prompt = pending_prompt;
      composer_mode =
          (if has_pending_input
            then initial_prompt
            else if is_some pending_prompt || current.step_interrupted
            then reply
            else working);
      run_summary = shown_summary current;
      queue = current.queue;
      worker_summary = worker_summary state.projects state.project_states;
      message_queue_count = length current.message_queue;
      step_interrupted = current.step_interrupted;
      is_first_boot = is_empty_list state.projects;
      domain_tree_nodes = current.domain_tree_nodes;
      domain_states = domain_snapshots current.domain_states;
      delivery_graph = current.delivery_graph;
      backflow_notifications = current.backflow_notifications;
      open_domain_tabs = current.open_domain_tabs;
      active_domain_node_id = current.active_domain_node_id;
    }

abbrev pub active_project : UiState → ProjectConfig
active_project state = (snapshot state).active_project
