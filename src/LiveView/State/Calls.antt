-- ===== src/LiveView/State/Calls.antt =====
-- Any sequence of method calls on a `UiState` of src/liveview/state.rs, one after the other. The methods without a
-- project id call those with the id of the active project, and are covered by them.
use mmat.Prelude.{ℕ, String, Bool, false, Option, List, [], ◌∷◌, ok, err, ◌==◌}
use mmat.Plan.DomainMap.{DomainNodeId}
use mmat.Deliver.DeliveryGraph.{DeliveryGraph}
use mmat.Deliver.Queue.{ProjectId, BuildJob}
use mmat.Projects.{PathBuf}
use mmat.Projects.Paths.{ProjectRegistryError, Environment}
use mmat.Projects.Collections.{Chars}
use mmat.Projects.Registry.{ProjectRegistryStore}
use mmat.LiveView.State
use mmat.LiveView.State.{
  UiEvent, Receiver, PendingPrompt, RunSummary, DomainNodeUiSnapshot, BackflowNotificationSnapshot,
  UiState,
}
use mmat.LiveView.State.Methods
use mmat.LiveView.State.Talk
use mmat.LiveView.State.Send
use mmat.LiveView.State.Register

pub data Action : Type 0 where
  subscribe subscribe_cancel unsubscribe unsubscribe_cancel interrupt_step reset_interrupt
        bump_version :
      Action
  prepare_initial_input : Receiver → Action
  set_project_run_summary : ProjectId → RunSummary → Action
  set_step_interrupted clear_step_interrupted drain_message_queue : ProjectId → Action
  queue_message : ProjectId → String → Action
  set_project_domain_tree_nodes : ProjectId → List DomainNodeUiSnapshot → Action
  set_project_delivery_graph : ProjectId → Option DeliveryGraph → Action
  set_project_backflow_notifications : ProjectId → List BackflowNotificationSnapshot → Action
  set_project_open_domain_tabs : ProjectId → List DomainNodeId → Action
  set_project_active_domain_node_id : ProjectId → Option DomainNodeId → Action
  set_project_domain_node_phase : ProjectId → DomainNodeId → String → Action
  record_project_domain_user_message : ProjectId → DomainNodeId → String → Action
  record_project_domain_assistant_message : ProjectId → DomainNodeId → String → Action
  set_project_domain_pending_prompt : ProjectId → DomainNodeId → Option PendingPrompt → Action
  set_project_domain_run_summary : ProjectId → DomainNodeId → RunSummary → Action
  record_project_user_message : ProjectId → String → Action
  record_project_assistant_message_delta : ProjectId → String → Action
  record_project_assistant_reasoning_delta : ProjectId → String → Action
  finish_project_assistant_reasoning : ProjectId → Action
  record_project_domain_assistant_message_delta : ProjectId → DomainNodeId → String → Action
  record_project_domain_assistant_reasoning_delta : ProjectId → DomainNodeId → String → Action
  finish_project_domain_assistant_reasoning : ProjectId → DomainNodeId → Action
  record_project_tool_use : ProjectId → String → String → Action
  record_project_assistant_message : ProjectId → String → Action
  set_project_pending_prompt : ProjectId → Option PendingPrompt → Action
  set_project_last_prompt : ProjectId → String → Action
  switch_project : ProjectId → Action
  set_project_queue : ProjectId → List BuildJob → Action
  send_initial_input send_project_prompt send_pending_prompt : (Receiver → Bool) → String → Action

abbrev pub apply_action : Action → UiState → UiState
apply_action subscribe = Methods.subscribe
apply_action subscribe_cancel = Methods.subscribe_cancel
apply_action unsubscribe = Methods.unsubscribe
apply_action unsubscribe_cancel = Methods.unsubscribe_cancel
apply_action interrupt_step = Methods.interrupt_step
apply_action reset_interrupt = Methods.reset_interrupt
apply_action bump_version = State.bump_version
apply_action (prepare_initial_input sender) = Methods.prepare_initial_input sender
apply_action (set_project_run_summary p summary) = Methods.set_project_run_summary p summary
apply_action (set_step_interrupted p) = Methods.set_step_interrupted p
apply_action (clear_step_interrupted p) = Methods.clear_step_interrupted p
apply_action (drain_message_queue p) = λ state. (Methods.drain_message_queue p state).0
apply_action (queue_message p text) = Methods.queue_message p text
apply_action (set_project_domain_tree_nodes p nodes) = Methods.set_project_domain_tree_nodes p nodes
apply_action (set_project_delivery_graph p graph) = Methods.set_project_delivery_graph p graph
apply_action (set_project_backflow_notifications p notes) =
    Methods.set_project_backflow_notifications p notes
apply_action (set_project_open_domain_tabs p tabs) = Methods.set_project_open_domain_tabs p tabs
apply_action (set_project_active_domain_node_id p node) =
    Methods.set_project_active_domain_node_id p node
apply_action (set_project_domain_node_phase p n phase) =
    Methods.set_project_domain_node_phase p n phase
apply_action (record_project_domain_user_message p n text) =
    Methods.record_project_domain_user_message p n text
apply_action (record_project_domain_assistant_message p n text) =
    Methods.record_project_domain_assistant_message p n text
apply_action (set_project_domain_pending_prompt p n prompt) =
    Methods.set_project_domain_pending_prompt p n prompt
apply_action (set_project_domain_run_summary p n summary) =
    Methods.set_project_domain_run_summary p n summary
apply_action (record_project_user_message p text) = Talk.record_project_user_message p text
apply_action (record_project_assistant_message_delta p delta) =
    Talk.record_project_assistant_message_delta p delta
apply_action (record_project_assistant_reasoning_delta p delta) =
    Talk.record_project_assistant_reasoning_delta p delta
apply_action (finish_project_assistant_reasoning p) = Talk.finish_project_assistant_reasoning p
apply_action (record_project_domain_assistant_message_delta p n delta) =
    Talk.record_project_domain_assistant_message_delta p n delta
apply_action (record_project_domain_assistant_reasoning_delta p n delta) =
    Talk.record_project_domain_assistant_reasoning_delta p n delta
apply_action (finish_project_domain_assistant_reasoning p n) =
    Talk.finish_project_domain_assistant_reasoning p n
apply_action (record_project_tool_use p name arguments) =
    Talk.record_project_tool_use p name arguments
apply_action (record_project_assistant_message p text) =
    Talk.record_project_assistant_message p text
apply_action (set_project_pending_prompt p prompt) = Talk.set_project_pending_prompt p prompt
apply_action (set_project_last_prompt p prompt) = Methods.set_project_last_prompt p prompt
apply_action (switch_project p) = λ state. (Methods.switch_project p state).0
apply_action (set_project_queue p jobs) = Methods.set_project_queue p jobs
apply_action (send_initial_input alive text) = λ state. (Send.send_initial_input alive text state).0
apply_action (send_project_prompt alive text) =
    λ state. (Send.send_project_prompt alive text state).0
apply_action (send_pending_prompt alive text) =
    λ state. (Send.send_pending_prompt alive text state).0

-- Two methods are set apart: `push_project_event` alone changes the history of events, and
-- `register_project` alone saves a conversation that is not the one shown.
pub data Call : Type 0 where
  push_project_event : ProjectId → UiEvent → Call
  register_project :
      Environment
      → Option PathBuf
      → (ProjectId → Chars)
      → (ProjectRegistryError → String)
      → ProjectId
      → ℕ
      → String
      → PathBuf
      → Option ProjectRegistryStore
      → Call
  action : Action → Call

abbrev pub apply : Call → UiState → UiState
apply (push_project_event p event) = Methods.push_project_event p event
apply (register_project env data_path id_text describe id now name root registry) = λ state.
    (Register.register_project env data_path id_text describe id now name root registry state).1
apply (action a) = apply_action a

abbrev pub run : List Call → UiState → UiState
run [] state = state
run (call ∷ calls) state = run calls (apply call state)

-- Whether a call registers a project under this id.
abbrev pub registers : ProjectId → Call → Bool
registers watched (register_project env data_path id_text describe id now name root registry) =
    elim (Register.registered env data_path id_text describe id now name root registry) [
      | err error ↦ false
      | ok (registry', project) ↦ project.id == watched
    ]
registers watched _ = false
