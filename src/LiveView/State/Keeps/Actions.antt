-- ===== src/LiveView/State/Keeps/Actions.antt =====
-- Every method of src/liveview/state.rs but `push_project_event` keeps a property that allows its parts.
use mmat.Prelude.{
  refl, inl, inr, true, false, ◌||◌, Option, none, some, [], ◌∷◌, ◌++◌, map, any, ◌==◌, Bool-cases,
}
use mmat.LiveView.Conversation.{
  user_message, queued_user_message, assistant_message, tool_use, add_message_delta,
  add_reasoning_delta, Conversation, is_skipped,
}
use mmat.LiveView.Texts.{is_empty}
use mmat.LiveView.Conversation.Capped.{
  IsCapped, push_capped-IsCapped, add_message_delta-IsCapped, add_reasoning_delta-IsCapped,
  add_question-IsCapped,
}
use mmat.LiveView.State.Keeps.{
  domain-IsMild, touch_domains-IsMild, touch_active-IsMild, Property, Holds, Keeps,
}
use mmat.LiveView.State.{
  job_snapshot, PendingPrompt, UiState, project_state, change_project, change_domain,
}
use mmat.LiveView.State.Methods.{change_conversation, ask, touch_domains, touch_active, set_phase}
use mmat.LiveView.State.Talk.{ask_project}
use mmat.LiveView.State.Methods
use mmat.LiveView.State.Calls.{
  subscribe, subscribe_cancel, unsubscribe, unsubscribe_cancel, interrupt_step, reset_interrupt,
  bump_version, prepare_initial_input, set_project_run_summary, set_step_interrupted,
  clear_step_interrupted, set_project_domain_tree_nodes, set_project_delivery_graph,
  set_project_backflow_notifications, set_project_last_prompt, set_project_queue,
  drain_message_queue, queue_message, set_project_open_domain_tabs,
  set_project_active_domain_node_id, set_project_domain_node_phase,
  record_project_domain_user_message, record_project_domain_assistant_message,
  set_project_domain_pending_prompt, set_project_domain_run_summary, record_project_user_message,
  record_project_assistant_message_delta, record_project_assistant_reasoning_delta,
  finish_project_assistant_reasoning, record_project_domain_assistant_message_delta,
  record_project_domain_assistant_reasoning_delta, finish_project_domain_assistant_reasoning,
  record_project_tool_use, record_project_assistant_message, set_project_pending_prompt,
  switch_project, send_initial_input, send_project_prompt, send_pending_prompt,
}
use mmat.LiveView.State.Calls.{
  Action, apply_action, subscribe, subscribe_cancel, unsubscribe, unsubscribe_cancel,
  interrupt_step, reset_interrupt, bump_version, prepare_initial_input, set_project_run_summary,
  set_step_interrupted, clear_step_interrupted, drain_message_queue, queue_message,
  set_project_domain_tree_nodes, set_project_delivery_graph, set_project_backflow_notifications,
  set_project_open_domain_tabs, set_project_active_domain_node_id, set_project_domain_node_phase,
  record_project_domain_user_message, record_project_domain_assistant_message,
  set_project_domain_pending_prompt, set_project_domain_run_summary, record_project_user_message,
  record_project_assistant_message_delta, record_project_assistant_reasoning_delta,
  finish_project_assistant_reasoning, record_project_domain_assistant_message_delta,
  record_project_domain_assistant_reasoning_delta, finish_project_domain_assistant_reasoning,
  record_project_tool_use, record_project_assistant_message, set_project_pending_prompt,
  set_project_last_prompt, switch_project, set_project_queue, send_initial_input,
  send_project_prompt, send_pending_prompt,
}
use mmat.LiveView.State.Keeps.Parts.{
  sets, sets_domain, says, says_domain, drains, edits_unless, edits_domain_unless, finishes,
  finishes_domain, answers, sends_input, sends_prompt, sends_reply,
}

ask-IsCapped :
    (prompt : Option PendingPrompt) (conv : Conversation)
    → IsCapped conv
    → IsCapped (ask prompt conv)
ask-IsCapped none conv c = c
ask-IsCapped (some prompt) conv c = push_capped-IsCapped conv _ c

ask_project-IsCapped :
    (prompt : Option PendingPrompt) (conv : Conversation)
    → IsCapped conv
    → IsCapped (ask_project prompt conv)
ask_project-IsCapped none conv c = c
ask_project-IsCapped (some prompt) conv c = add_question-IsCapped conv c prompt.question

module _ (P : Property) (keeps : Keeps P) where
  -- Every method but `push_project_event` keeps such a property.
  pub apply_action-Holds :
      (a : Action) (state : UiState) → Holds P state → Holds P (apply_action a state)
  apply_action-Holds subscribe state h = h
  apply_action-Holds subscribe_cancel state h = h
  apply_action-Holds unsubscribe state h = h
  apply_action-Holds unsubscribe_cancel state h = h
  apply_action-Holds interrupt_step state h = h
  apply_action-Holds reset_interrupt state h = h
  apply_action-Holds bump_version state h = h
  apply_action-Holds (prepare_initial_input sender) state h = h
  apply_action-Holds (set_project_run_summary p summary) state h =
      sets P keeps p (λ project. record project { run_summary = some summary }) state (λ q. refl)
        (λ q. refl) (λ q. refl) h
  apply_action-Holds (set_step_interrupted p) state h =
      sets P keeps p (λ project. record project { step_interrupted = true }) state (λ q. refl)
        (λ q. refl) (λ q. refl) h
  apply_action-Holds (clear_step_interrupted p) state h =
      sets P keeps p (λ project. record project { step_interrupted = false }) state (λ q. refl)
        (λ q. refl) (λ q. refl) h
  apply_action-Holds (set_project_domain_tree_nodes p nodes) state h =
      sets P keeps p (λ project. record project { domain_tree_nodes = nodes }) state (λ q. refl)
        (λ q. refl) (λ q. refl) h
  apply_action-Holds (set_project_delivery_graph p graph) state h =
      sets P keeps p (λ project. record project { delivery_graph = graph }) state (λ q. refl)
        (λ q. refl) (λ q. refl) h
  apply_action-Holds (set_project_backflow_notifications p notes) state h =
      sets P keeps p (λ project. record project { backflow_notifications = notes }) state
        (λ q. refl) (λ q. refl) (λ q. refl) h
  apply_action-Holds (set_project_last_prompt p prompt) state h =
      sets P keeps p (λ project. record project { last_prompt = some prompt }) state (λ q. refl)
        (λ q. refl) (λ q. refl) h
  apply_action-Holds (set_project_queue p jobs) state h =
      sets P keeps p (λ project. record project { queue = map job_snapshot jobs }) state (λ q. refl)
        (λ q. refl) (λ q. refl) h
  apply_action-Holds (drain_message_queue p) state h = drains P keeps p state h
  apply_action-Holds (queue_message p text) state h =
      says P keeps p (queued_user_message text)
        (change_project p
          (λ project. record project { message_queue = project.message_queue ++ text ∷ [] }) state)
        (sets P keeps p
          (λ project. record project { message_queue = project.message_queue ++ text ∷ [] }) state
          (λ q. refl) (λ q. refl) (λ q. refl) h)
  apply_action-Holds (set_project_open_domain_tabs p tabs) state h =
      keeps.project p (λ project. record (touch_domains tabs project) { open_domain_tabs = tabs })
        state
        (record {
          events = (touch_domains-IsMild tabs).events;
          conversation = (touch_domains-IsMild tabs).conversation;
          domains = (touch_domains-IsMild tabs).domains;
        })
        h
  apply_action-Holds (set_project_active_domain_node_id p node) state h =
      keeps.project p
        (λ project. record (touch_active node project) { active_domain_node_id = node }) state
        (record {
          events = (touch_active-IsMild node).events;
          conversation = (touch_active-IsMild node).conversation;
          domains = (touch_active-IsMild node).domains;
        })
        h
  apply_action-Holds (set_project_domain_node_phase p n phase) state h =
      keeps.project p
        (λ project.
          record (change_domain n (λ domain. record domain { phase = some phase }) project) {
            domain_tree_nodes = set_phase n phase project.domain_tree_nodes;
          })
        state
        (record {
          events = λ project. refl;
          conversation = λ project. refl;
          domains =
              (domain-IsMild n (λ domain. record domain { phase = some phase })
                (λ domain c. c)).domains;
        })
        h
  apply_action-Holds (record_project_domain_user_message p n text) state h =
      says_domain P keeps p n (user_message text) state h
  apply_action-Holds (record_project_domain_assistant_message p n text) state h =
      says_domain P keeps p n (assistant_message text true) state h
  apply_action-Holds (set_project_domain_pending_prompt p n prompt) state h =
      sets_domain P keeps p n
        (λ domain. record domain {
          pending_prompt = prompt;
          conversation_history = ask prompt domain.conversation_history;
        })
        state (λ domain c. ask-IsCapped prompt domain.conversation_history c) h
  apply_action-Holds (set_project_domain_run_summary p n summary) state h =
      sets_domain P keeps p n (λ domain. record domain { run_summary = some summary }) state
        (λ domain c. c) h
  apply_action-Holds (record_project_user_message p text) state h =
      says P keeps p (user_message text) state h
  apply_action-Holds (record_project_assistant_message_delta p delta) state h =
      edits_unless P keeps p (is_empty delta || is_skipped delta) (add_message_delta delta) state
        (λ conv c. add_message_delta-IsCapped conv c delta) h
  apply_action-Holds (record_project_assistant_reasoning_delta p delta) state h =
      edits_unless P keeps p (is_empty delta) (add_reasoning_delta delta) state
        (λ conv c. add_reasoning_delta-IsCapped conv c delta) h
  apply_action-Holds (finish_project_assistant_reasoning p) state h = finishes P keeps p state h
  apply_action-Holds (record_project_domain_assistant_message_delta p n delta) state h =
      edits_domain_unless P keeps p n (is_empty delta || is_skipped delta) (add_message_delta delta)
        state (λ conv c. add_message_delta-IsCapped conv c delta) h
  apply_action-Holds (record_project_domain_assistant_reasoning_delta p n delta) state h =
      edits_domain_unless P keeps p n (is_empty delta) (add_reasoning_delta delta) state
        (λ conv c. add_reasoning_delta-IsCapped conv c delta) h
  apply_action-Holds (finish_project_domain_assistant_reasoning p n) state h =
      finishes_domain P keeps p n state h
  apply_action-Holds (record_project_tool_use p name arguments) state h =
      says P keeps p (tool_use name arguments) state h
  apply_action-Holds (record_project_assistant_message p text) state h =
      answers P keeps p text state h
  apply_action-Holds (set_project_pending_prompt p prompt) state h =
      keeps.conversation p (ask_project prompt)
        (change_project p (λ project. record project { pending_prompt = prompt }) state)
        (ask_project-IsCapped prompt
          (project_state p (
            change_project p (λ project. record project { pending_prompt = prompt })
              state)).conversation_history)
        (sets P keeps p (λ project. record project { pending_prompt = prompt }) state (λ q. refl)
          (λ q. refl) (λ q. refl) h)
  apply_action-Holds (switch_project p) state h =
      elim (Bool-cases (any state.projects (λ project. project.id == p))) [
        | inl known ↦ rw (apply_action, Methods.switch_project, known) h
        | inr unknown ↦ rw (apply_action, Methods.switch_project, unknown) h
      ]
  apply_action-Holds (send_initial_input alive text) state h =
      sends_input P keeps alive text state h
  apply_action-Holds (send_project_prompt alive text) state h =
      sends_prompt P keeps alive text state h
  apply_action-Holds (send_pending_prompt alive text) state h =
      sends_reply P keeps alive text state h
