-- ===== src/LiveView/State/Methods.antt =====
-- The methods of `UiState` in src/liveview/state.rs that change it.
use mmat.Prelude.{
  ℕ, suc, ◌+◌, ◌-◌, ◌%◌, String, Bool, true, false, Option, none, some, List, [], ◌∷◌, ◌++◌, map,
  ◌==◌, if◌then◌else◌, any,
}
use mmat.Prelude.Map
use mmat.Prelude.Map.{Map}
use mmat.Plan.DomainMap.{DomainNodeId}
use mmat.Deliver.DeliveryGraph.{DeliveryGraph}
use mmat.Deliver.Queue.{ProjectId, BuildJob}
use mmat.LiveView.Conversation.{
  user_message, queued_user_message, assistant_question, assistant_message, ConversationEntry,
  Conversation, push_capped, push_conversation_entry, deliver_queued,
}
use mmat.LiveView.State.{
  UiEvent, Receiver, PendingPrompt, job_snapshot, RunSummary, DomainNodeUiSnapshot,
  BackflowNotificationSnapshot, ProjectUiState, UiState, project_state, change_project,
  change_domain, persist_project_conversation, bump_version, set_project,
}

abbrev pub subscribe : UiState → UiState
subscribe state = record state { version_receivers = suc state.version_receivers }

abbrev pub subscribe_cancel : UiState → UiState
subscribe_cancel state = record state { cancel_receivers = suc state.cancel_receivers }

-- A receiver of `subscribe`, or of `subscribe_cancel`, is dropped.
abbrev pub unsubscribe : UiState → UiState
unsubscribe state = record state { version_receivers = state.version_receivers - 1 }

abbrev pub unsubscribe_cancel : UiState → UiState
unsubscribe_cancel state = record state { cancel_receivers = state.cancel_receivers - 1 }

abbrev pub prepare_initial_input : Receiver → UiState → UiState
prepare_initial_input sender state =
    bump_version (record state { pending_initial_input = some sender })

-- `cancel_tx.send(…)`
abbrev pub send_cancel : Bool → UiState → UiState
send_cancel value state = record state {
  cancel = (if state.cancel_receivers == 0 then state.cancel else value);
}

abbrev pub interrupt_step : UiState → UiState
interrupt_step state = bump_version (send_cancel true state)

abbrev pub step_interrupted : UiState → Bool
step_interrupted state = state.cancel

abbrev pub reset_interrupt : UiState → UiState
reset_interrupt state = send_cancel false state

-- `+= 1` on a `u64`, which wraps around unless the build checks for overflow.
abbrev pub next_event : ℕ → ℕ
next_event id = (id + 1) % 18446744073709551616

-- The lock on the number is released before the states are locked; without overlapping calls this is
-- one step.
abbrev pub push_project_event : ProjectId → UiEvent → UiState → UiState
push_project_event project_id event state =
    set_project project_id
      (λ project. record project {
        event_history =
            push_capped project.event_history (record { id = state.next_event_id; event = event });
      })
      (record state { next_event_id = next_event state.next_event_id })

abbrev pub push_event : UiEvent → UiState → UiState
push_event event state = push_project_event state.active_project_id event state

abbrev pub set_project_run_summary : ProjectId → RunSummary → UiState → UiState
set_project_run_summary project_id summary =
    set_project project_id (λ project. record project { run_summary = some summary })

abbrev pub set_run_summary : RunSummary → UiState → UiState
set_run_summary summary = set_project_run_summary summary.project_id summary

abbrev pub set_step_interrupted : ProjectId → UiState → UiState
set_step_interrupted project_id =
    set_project project_id (λ project. record project { step_interrupted = true })

abbrev pub clear_step_interrupted : ProjectId → UiState → UiState
clear_step_interrupted project_id =
    set_project project_id (λ project. record project { step_interrupted = false })

-- A change of a project's conversation that is saved and announced.
abbrev pub change_conversation : ProjectId → (Conversation → Conversation) → UiState → UiState
change_conversation project_id change state =
    let conversation = change (project_state project_id state).conversation_history in
    bump_version (
      persist_project_conversation project_id conversation (
        change_project project_id
          (λ project. record project { conversation_history = conversation }) state))

abbrev pub queue_message : ProjectId → String → UiState → UiState
queue_message project_id text state =
    change_conversation project_id (λ conv. push_conversation_entry conv (queued_user_message text))
      (change_project project_id
        (λ project. record project { message_queue = project.message_queue ++ text ∷ [] }) state)

-- The drained messages are the second component.
abbrev pub drain_message_queue : ProjectId → UiState → UiState × List String
drain_message_queue project_id state = elim (project_state project_id state).message_queue [
  | [] ↦ (change_project project_id (λ project. project) state, [])
  | text ∷ texts ↦ (
    change_conversation project_id deliver_queued
        (change_project project_id (λ project. record project { message_queue = [] }) state),
    text ∷ texts,
  )
]

abbrev pub set_project_domain_tree_nodes : ProjectId → List DomainNodeUiSnapshot → UiState → UiState
set_project_domain_tree_nodes project_id nodes =
    set_project project_id (λ project. record project { domain_tree_nodes = nodes })

abbrev pub set_project_delivery_graph : ProjectId → Option DeliveryGraph → UiState → UiState
set_project_delivery_graph project_id graph =
    set_project project_id (λ project. record project { delivery_graph = graph })

abbrev pub set_project_backflow_notifications :
    ProjectId → List BackflowNotificationSnapshot → UiState → UiState
set_project_backflow_notifications project_id notifications =
    set_project project_id (λ project. record project { backflow_notifications = notifications })

-- `for tab_id in &tabs { state.domain_states.entry(*tab_id).or_default(); }`
abbrev pub touch_domains : List DomainNodeId → ProjectUiState → ProjectUiState
touch_domains [] project = project
touch_domains (tab_id ∷ tabs) project =
    touch_domains tabs (change_domain tab_id (λ domain. domain) project)

abbrev pub set_project_open_domain_tabs : ProjectId → List DomainNodeId → UiState → UiState
set_project_open_domain_tabs project_id tabs =
    set_project project_id
      (λ project. record (touch_domains tabs project) { open_domain_tabs = tabs })

abbrev pub touch_active : Option DomainNodeId → ProjectUiState → ProjectUiState
touch_active none project = project
touch_active (some node_id) project = change_domain node_id (λ domain. domain) project

abbrev pub set_project_active_domain_node_id : ProjectId → Option DomainNodeId → UiState → UiState
set_project_active_domain_node_id project_id node_id =
    set_project project_id
      (λ project. record (touch_active node_id project) { active_domain_node_id = node_id })

-- `iter_mut().find(…)`: the first node with the id.
abbrev pub set_phase : DomainNodeId → String → List DomainNodeUiSnapshot → List DomainNodeUiSnapshot
set_phase node_id phase [] = []
set_phase node_id phase (node ∷ nodes) =
    let rest = set_phase node_id phase nodes in
    if node.node_id == node_id then record node { phase = phase } ∷ nodes else node ∷ rest

abbrev pub set_project_domain_node_phase : ProjectId → DomainNodeId → String → UiState → UiState
set_project_domain_node_phase project_id node_id phase = set_project project_id (λ project.
    record (change_domain node_id (λ domain. record domain { phase = some phase }) project) {
      domain_tree_nodes = set_phase node_id phase project.domain_tree_nodes;
    })

-- A change of a domain node's conversation; it is not saved.
abbrev pub change_domain_conversation :
    ProjectId → DomainNodeId → (Conversation → Conversation) → UiState → UiState
change_domain_conversation project_id node_id change = set_project project_id (
    change_domain node_id
      (λ domain. record domain { conversation_history = change domain.conversation_history }))

abbrev pub push_project_domain_conversation_entry :
    ProjectId → DomainNodeId → ConversationEntry → UiState → UiState
push_project_domain_conversation_entry project_id node_id entry =
    change_domain_conversation project_id node_id (λ conv. push_conversation_entry conv entry)

abbrev pub record_project_domain_user_message :
    ProjectId → DomainNodeId → String → UiState → UiState
record_project_domain_user_message project_id node_id text =
    push_project_domain_conversation_entry project_id node_id (user_message text)

abbrev pub record_project_domain_assistant_message :
    ProjectId → DomainNodeId → String → UiState → UiState
record_project_domain_assistant_message project_id node_id text =
    push_project_domain_conversation_entry project_id node_id (assistant_message text true)

abbrev pub ask : Option PendingPrompt → Conversation → Conversation
ask none conv = conv
ask (some prompt) conv = push_conversation_entry conv (assistant_question prompt.question)

abbrev pub set_project_domain_pending_prompt :
    ProjectId → DomainNodeId → Option PendingPrompt → UiState → UiState
set_project_domain_pending_prompt project_id node_id prompt = set_project project_id (
    change_domain node_id (λ domain. record domain {
      pending_prompt = prompt;
      conversation_history = ask prompt domain.conversation_history;
    }))

abbrev pub set_project_domain_run_summary :
    ProjectId → DomainNodeId → RunSummary → UiState → UiState
set_project_domain_run_summary project_id node_id summary =
    set_project project_id
      (change_domain node_id (λ domain. record domain { run_summary = some summary }))

abbrev pub set_project_last_prompt : ProjectId → String → UiState → UiState
set_project_last_prompt project_id prompt =
    change_project project_id (λ project. record project { last_prompt = some prompt })

abbrev pub project_last_prompt : ProjectId → UiState → Option String
project_last_prompt project_id state = elim (Map.get state.project_states project_id) [
  | none ↦ none
  | some project ↦ project.last_prompt
]

abbrev pub switch_project : ProjectId → UiState → UiState × Bool
switch_project project_id state =
    if any state.projects (λ project. project.id == project_id)
    then (bump_version (record state { active_project_id = project_id }), true)
    else (state, false)

abbrev pub set_project_queue : ProjectId → List BuildJob → UiState → UiState
set_project_queue project_id jobs =
    set_project project_id (λ project. record project { queue = map job_snapshot jobs })
