-- ===== src/LiveView/State.antt =====
-- The shared state of the live view: `UiState` of src/liveview/state.rs. Each method locks what it
-- uses, and becomes a function on the whole state; methods run one after the other. A `watch` channel keeps its value when a send
-- finds no receiver; the number of receivers is part of the state. The other end of a `mpsc` or
-- `oneshot` channel is known by a number, `alive` says whether it is still there, and what it gets
-- is kept in the state. A save to the conversation store succeeds.
pub mod Methods
pub mod Talk
pub mod Send
pub mod Calls
pub mod Snapshot
pub mod Entries
pub mod Capped
pub mod Keeps
pub mod Mirrored
pub mod Restart
pub mod Replies
pub mod Streams
pub mod Register
pub mod Messages
pub mod Events
mod Tests
use mmat.Prelude.{
  ℕ, suc, ◌+◌, String, Bool, true, false, ◌&&◌, ◌||◌, not, Option, none, some, List, [], ◌∷◌, ◌++◌,
  map, ltb, ◌==◌, if◌then◌else◌, unwrap_or, length, any,
}
use mathlib.Core.Option
use mmat.Prelude.Map
use mmat.Prelude.Map.{Map}
use mmat.Plan.DomainMap.{DomainNodeId}
use mmat.Deliver.DeliveryGraph.{DeliveryGraph}
use mmat.Deliver.Queue.{ProjectId, BuildJob, BuildJobId, as_str}
use mmat.Projects.{ProjectConfig, placeholder_id}
use mmat.LiveView.Texts.{is_empty}
use mmat.LiveView.Conversation.{
  user_message, queued_user_message, assistant_question, assistant_message, tool_use,
  ConversationEntry, Conversation, push_capped, push_conversation_entry, is_skipped,
  add_message_delta, add_reasoning_delta, finish_open_entries, finish_or_remove_incomplete_message,
  add_message, add_question, deliver_queued,
}

pub record ProjectPrompt : Type 0 where
  pub project_id : ProjectId
  pub prompt : String

pub data UiEvent : Type 0 where
  log : String → String → UiEvent
  step_started : String → UiEvent
  step_completed : String → ℕ → UiEvent
  step_failed : String → String → UiEvent
  component_started component_completed component_failed : String → String → UiEvent

pub record UiEventEntry : Type 0 where
  pub id : ℕ
  pub event : UiEvent

-- The receiving end of a channel.
abbrev pub Receiver : Type 0
Receiver = ℕ

pub record PendingPrompt : Type 0 where
  pub question : String
  pub choices : Option (List String)
  pub reply : Receiver

pub record BuildJobSnapshot : Type 0 where
  pub id : BuildJobId
  pub status : String
  pub prompt : String
  pub error : Option String

abbrev pub job_snapshot : BuildJob → BuildJobSnapshot
job_snapshot job = record {
  id = job.id;
  status = as_str job.status;
  prompt = job.handoff.prompt;
  error = job.error;
}

pub record RunSummary : Type 0 where
  pub project_id : ProjectId
  pub run_id : String
  pub project_root : String
  pub run_root : String
  pub prompt : String
  pub status : String
  pub current_stage : String
  pub next_step : Option String

pub record DomainNodeUiSnapshot : Type 0 where
  pub node_id : DomainNodeId
  pub name : String
  pub status : String
  pub phase : String
  pub depth : ℕ

pub record BackflowNotificationSnapshot : Type 0 where
  pub node_id : DomainNodeId
  pub severity : String
  pub reason : String
  pub cascade_depth : ℕ

pub record DomainUiState : Type 0 where
  pub conversation_history : Conversation
  pub pending_prompt : Option PendingPrompt
  pub run_summary : Option RunSummary
  pub phase : Option String

pub record ProjectUiState : Type 0 where
  pub event_history : List UiEventEntry
  pub conversation_history : Conversation
  pub pending_prompt : Option PendingPrompt
  pub run_summary : Option RunSummary
  pub queue : List BuildJobSnapshot
  pub message_queue : List String
  pub domain_states : Map DomainUiState
  pub domain_tree_nodes : List DomainNodeUiSnapshot
  pub delivery_graph : Option DeliveryGraph
  pub backflow_notifications : List BackflowNotificationSnapshot
  pub open_domain_tabs : List DomainNodeId
  pub active_domain_node_id : Option DomainNodeId
  pub step_interrupted : Bool
  pub last_prompt : Option String

pub record UiState : Type 0 where
  pub projects : List ProjectConfig
  pub active_project_id : ProjectId
  pub project_states : Map ProjectUiState
  pub conversation_store : Option (Map Conversation)
  pub pending_initial_input : Option Receiver
  pub initial_input_consumed : Bool
  pub next_event_id : ℕ
  pub version : ℕ
  pub version_receivers : ℕ
  pub cancel : Bool
  pub cancel_receivers : ℕ
  -- What the receivers of prompts and replies got, oldest first.
  pub prompts : List (Receiver × ProjectPrompt)
  pub replies : List (Receiver × String)

abbrev pub default_domain : DomainUiState
default_domain = record {
  conversation_history = [];
  pending_prompt = none;
  run_summary = none;
  phase = none;
}

abbrev pub default_project : ProjectUiState
default_project = record {
  event_history = [];
  conversation_history = [];
  pending_prompt = none;
  run_summary = none;
  queue = [];
  message_queue = [];
  domain_states = [];
  domain_tree_nodes = [];
  delivery_graph = none;
  backflow_notifications = [];
  open_domain_tabs = [];
  active_domain_node_id = none;
  step_interrupted = false;
  last_prompt = none;
}

-- `entry(key).or_default()`, as it is and changed
abbrev pub entry_or {ℓ} : {V : Type ℓ} → V → ℕ → Map V → V
entry_or default key m = unwrap_or default (Map.get m key)

abbrev pub change_entry {ℓ} : {V : Type ℓ} → V → ℕ → (V → V) → Map V → Map V
change_entry default key change m = Map.insert key (change (entry_or default key m)) m

abbrev pub project_state : ProjectId → UiState → ProjectUiState
project_state project_id state = entry_or default_project project_id state.project_states

abbrev pub change_project : ProjectId → (ProjectUiState → ProjectUiState) → UiState → UiState
change_project project_id change state = record state {
  project_states = change_entry default_project project_id change state.project_states;
}

abbrev pub change_domain :
    DomainNodeId → (DomainUiState → DomainUiState) → ProjectUiState → ProjectUiState
change_domain node_id change project = record project {
  domain_states = change_entry default_domain node_id change project.domain_states;
}

abbrev pub persist_project_conversation : ProjectId → Conversation → UiState → UiState
persist_project_conversation project_id conversation state = record state {
  conversation_store = Option.map (Map.insert project_id conversation) state.conversation_store;
}

-- `saturating_add(1)` on a `u64`
abbrev pub saturating_suc : ℕ → ℕ
saturating_suc n = if ltb n 18446744073709551615 then n + 1 else n

abbrev pub bump_version : UiState → UiState
bump_version state = record state {
  version = (if state.version_receivers == 0 then state.version else saturating_suc state.version);
}

-- The methods that set a field of a project, and say so.
abbrev pub set_project : ProjectId → (ProjectUiState → ProjectUiState) → UiState → UiState
set_project project_id change state = bump_version (change_project project_id change state)
