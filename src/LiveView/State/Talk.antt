-- ===== src/LiveView/State/Talk.antt =====
-- The methods of `UiState` in src/liveview/state.rs that record what is said.
use mmat.Prelude.{String, ◌||◌, Option, none, some, if◌then◌else◌}
use mmat.Plan.DomainMap.{DomainNodeId}
use mmat.Deliver.Queue.{ProjectId}
use mmat.LiveView.Texts.{is_empty}
use mmat.LiveView.Conversation.{
  user_message, tool_use, ConversationEntry, Conversation, push_conversation_entry, is_skipped,
  add_message_delta, add_reasoning_delta, finish_open_entries, finish_or_remove_incomplete_message,
  add_message, add_question,
}
use mmat.LiveView.State.{
  PendingPrompt, DomainUiState, UiState, default_domain, entry_or, project_state, change_project,
  change_domain,
}
use mmat.LiveView.State.Methods.{change_conversation, change_domain_conversation}

abbrev pub push_project_conversation_entry : ProjectId → ConversationEntry → UiState → UiState
push_project_conversation_entry project_id entry =
    change_conversation project_id (λ conv. push_conversation_entry conv entry)

abbrev pub record_project_user_message : ProjectId → String → UiState → UiState
record_project_user_message project_id text =
    push_project_conversation_entry project_id (user_message text)

abbrev pub record_user_message : String → UiState → UiState
record_user_message text state = record_project_user_message state.active_project_id text state

abbrev pub record_project_assistant_message_delta : ProjectId → String → UiState → UiState
record_project_assistant_message_delta project_id delta state =
    if is_empty delta || is_skipped delta
    then state
    else change_conversation project_id (add_message_delta delta) state

abbrev pub record_assistant_message_delta : String → UiState → UiState
record_assistant_message_delta delta state =
    record_project_assistant_message_delta state.active_project_id delta state

abbrev pub record_project_assistant_reasoning_delta : ProjectId → String → UiState → UiState
record_project_assistant_reasoning_delta project_id delta state =
    if is_empty delta
    then state
    else change_conversation project_id (add_reasoning_delta delta) state

abbrev pub record_assistant_reasoning_delta : String → UiState → UiState
record_assistant_reasoning_delta delta state =
    record_project_assistant_reasoning_delta state.active_project_id delta state

-- If nothing is changed, the project's entry is there all the same.
abbrev pub finish_project_assistant_reasoning : ProjectId → UiState → UiState
finish_project_assistant_reasoning project_id state =
    if (finish_open_entries (project_state project_id state).conversation_history).1
    then change_conversation project_id (λ conv. (finish_open_entries conv).0) state
    else change_project project_id (λ project. project) state

abbrev pub finish_assistant_reasoning : UiState → UiState
finish_assistant_reasoning state = finish_project_assistant_reasoning state.active_project_id state

abbrev pub record_project_domain_assistant_message_delta :
    ProjectId → DomainNodeId → String → UiState → UiState
record_project_domain_assistant_message_delta project_id node_id delta state =
    if is_empty delta || is_skipped delta
    then state
    else change_domain_conversation project_id node_id (add_message_delta delta) state

abbrev pub record_project_domain_assistant_reasoning_delta :
    ProjectId → DomainNodeId → String → UiState → UiState
record_project_domain_assistant_reasoning_delta project_id node_id delta state =
    if is_empty delta
    then state
    else change_domain_conversation project_id node_id (add_reasoning_delta delta) state

abbrev pub domain_state : ProjectId → DomainNodeId → UiState → DomainUiState
domain_state project_id node_id state =
    entry_or default_domain node_id (project_state project_id state).domain_states

abbrev pub finish_project_domain_assistant_reasoning : ProjectId → DomainNodeId → UiState → UiState
finish_project_domain_assistant_reasoning project_id node_id state =
    if (finish_open_entries (domain_state project_id node_id state).conversation_history).1
    then change_domain_conversation project_id node_id (λ conv. (finish_open_entries conv).0) state
    else change_project project_id (change_domain node_id (λ domain. domain)) state

abbrev pub record_project_tool_use : ProjectId → String → String → UiState → UiState
record_project_tool_use project_id name arguments =
    push_project_conversation_entry project_id (tool_use name arguments)

abbrev pub record_tool_use : String → String → UiState → UiState
record_tool_use name arguments state =
    record_project_tool_use state.active_project_id name arguments state

abbrev pub record_project_assistant_message : ProjectId → String → UiState → UiState
record_project_assistant_message project_id text state =
    if is_skipped text
    then elim (finish_or_remove_incomplete_message
        (project_state project_id state).conversation_history) [
          | none ↦ change_project project_id (λ project. project) state
          | some conv ↦ change_conversation project_id (λ _. conv) state
        ]
    else change_conversation project_id (add_message text) state

abbrev pub record_assistant_message : String → UiState → UiState
record_assistant_message text state =
    record_project_assistant_message state.active_project_id text state

abbrev pub ask_project : Option PendingPrompt → Conversation → Conversation
ask_project none conv = conv
ask_project (some prompt) conv = add_question prompt.question conv

abbrev pub set_project_pending_prompt : ProjectId → Option PendingPrompt → UiState → UiState
set_project_pending_prompt project_id prompt state =
    change_conversation project_id (ask_project prompt)
      (change_project project_id (λ project. record project { pending_prompt = prompt }) state)

abbrev pub set_pending_prompt : Option PendingPrompt → UiState → UiState
set_pending_prompt prompt state = set_project_pending_prompt state.active_project_id prompt state
