-- ===== src/LiveView/State/Messages.antt =====
-- The message queue of a project: `queue_message` and `drain_message_queue` of src/liveview/state.rs.
use mmat.Prelude.{
  ◌≡◌, refl, sym, ap, ◌∙◌, String, Bool, true, false, List, [], ◌∷◌, ◌++◌, ==_refl, any,
}
use mathlib.Core.List.{append_assoc, append-nil}
use mmat.LiveView.Conversation.{
  queued_user_message, user_message, assistant_question, assistant_reasoning, assistant_message,
  tool_use, ConversationEntry, Conversation, deliver_entry, deliver_queued, push_conversation_entry,
}
use mmat.LiveView.State.{
  ProjectId, ProjectUiState, UiState, default_project, project_state, change_project,
}
use mmat.LiveView.State.Entries.{change_entry_same}
use mmat.LiveView.State.Methods.{queue_message, drain_message_queue}

abbrev pub is_queued : ConversationEntry → Bool
is_queued (queued_user_message text) = true
is_queued _ = false

deliver_entry-is_queued : (entry : ConversationEntry) → is_queued (deliver_entry entry) ≡ false
deliver_entry-is_queued (user_message text) = refl
deliver_entry-is_queued (queued_user_message text) = refl
deliver_entry-is_queued (assistant_question text) = refl
deliver_entry-is_queued (assistant_reasoning text complete) = refl
deliver_entry-is_queued (assistant_message text complete) = refl
deliver_entry-is_queued (tool_use name arguments) = refl

deliver_queued-is_queued : (conv : Conversation) → any (deliver_queued conv) is_queued ≡ false
deliver_queued-is_queued [] = refl
deliver_queued-is_queued (entry ∷ conv) =
    rw (deliver_entry-is_queued entry) (deliver_queued-is_queued conv)

-- The messages are queued in this order.
abbrev pub queue_messages : ProjectId → List String → UiState → UiState
queue_messages id [] state = state
queue_messages id (text ∷ texts) state = queue_messages id texts (queue_message id text state)

module _ (id : ProjectId) where
  changed :
      (change : ProjectUiState → ProjectUiState) (state : UiState)
      → project_state id (change_project id change state) ≡ change (project_state id state)
  changed change state =
      change_entry_same default_project id id change state.project_states (==_refl id)

  queue_message-message_queue :
      (text : String) (state : UiState)
      → (project_state id (queue_message id text state)).message_queue
        ≡ (project_state id state).message_queue ++ text ∷ []
  queue_message-message_queue text state =
      let queue =
        λ (p : ProjectUiState). record p { message_queue = p.message_queue ++ text ∷ [] } in
      let conv =
        push_conversation_entry
          (project_state id (change_project id queue state)).conversation_history
          (queued_user_message text) in
      ap (λ p. p.message_queue)
        (changed (λ p. record p { conversation_history = conv }) (change_project id queue state))
      ∙ ap (λ p. p.message_queue) (changed queue state)

  queue_messages-message_queue :
      (texts : List String) (state : UiState)
      → (project_state id (queue_messages id texts state)).message_queue
        ≡ (project_state id state).message_queue ++ texts
  queue_messages-message_queue [] state = sym (append-nil (project_state id state).message_queue)
  queue_messages-message_queue (text ∷ texts) state =
      queue_messages-message_queue texts (queue_message id text state)
      ∙ ap (λ queue. queue ++ texts) (queue_message-message_queue text state)
      ∙ append_assoc (project_state id state).message_queue (text ∷ []) texts

  drained :
      (queue : List String) (state : UiState)
      → (project_state id state).message_queue ≡ queue
      → ((drain_message_queue id state).1 ≡ queue)
        × ((project_state id (drain_message_queue id state).0).message_queue ≡ [])
  drained [] state e =
      rw (drain_message_queue, e) (refl, ap (λ p. p.message_queue) (changed (λ p. p) state) ∙ e)
  drained (text ∷ texts) state e =
      let empty = λ (p : ProjectUiState). record p { message_queue = [] } in
      let conv =
        deliver_queued (project_state id (change_project id empty state)).conversation_history in
      rw (drain_message_queue, e)
        (
          refl,
          ap (λ p. p.message_queue)
                (changed (λ p. record p { conversation_history = conv })
                  (change_project id empty state))
              ∙ ap (λ p. p.message_queue) (changed empty state),
        )

  delivered :
      (text : String) (texts : List String) (state : UiState)
      → (project_state id state).message_queue ≡ text ∷ texts
      → (project_state id (drain_message_queue id state).0).conversation_history
        ≡ deliver_queued (project_state id state).conversation_history
  delivered text texts state e =
      let empty = λ (p : ProjectUiState). record p { message_queue = [] } in
      let conv =
        deliver_queued (project_state id (change_project id empty state)).conversation_history in
      rw (drain_message_queue, e)
        (ap (λ p. p.conversation_history)
            (changed (λ p. record p { conversation_history = conv })
              (change_project id empty state))
          ∙ ap (λ p. deliver_queued p.conversation_history) (changed empty state))

  drained_twice :
      (state : UiState) → (drain_message_queue id (drain_message_queue id state).0).1 ≡ []
  drained_twice state =
      let empty = (drained (project_state id state).message_queue state refl).1 in
      (drained [] (drain_message_queue id state).0 empty).0

  append_is_cons :
      (old : List String) (text : String) (texts : List String)
      → (first : String) × (rest : List String) × (old ++ text ∷ texts ≡ first ∷ rest)
  append_is_cons [] text texts = (text, texts, refl)
  append_is_cons (first ∷ rest) text texts = (first, rest ++ text ∷ texts, refl)

  -- At least one message is queued for a project, and then its queue is drained. What is drained
  -- is the messages that waited before, followed by the new ones in the order in which they were
  -- queued. The queue is then empty, the project's conversation shows no message as queued, and
  -- another drain gives nothing.
  pub drain_message_queue_lem :
      (text : String) (texts : List String) (state : UiState)
      → ((drain_message_queue id (queue_messages id (text ∷ texts) state)).1
          ≡ (project_state id state).message_queue ++ text ∷ texts)
        × ((project_state id
              (drain_message_queue id (queue_messages id (text ∷ texts) state)).0).message_queue
            ≡ [])
        × (any
              (project_state id
                (drain_message_queue id
                  (queue_messages id (text ∷ texts) state)).0).conversation_history
              is_queued
            ≡ false)
        × ((drain_message_queue id
              (drain_message_queue id (queue_messages id (text ∷ texts) state)).0).1
            ≡ [])
  drain_message_queue_lem text texts state =
      let queued = queue_messages id (text ∷ texts) state in
      let waiting = queue_messages-message_queue (text ∷ texts) state in
      let (first, rest, e) = append_is_cons (project_state id state).message_queue text texts in
      let (all, empty) = drained (first ∷ rest) queued (waiting ∙ e) in
      (
        all ∙ sym e,
        empty,
        ap (λ conv. any conv is_queued) (delivered first rest queued (waiting ∙ e))
            ∙ deliver_queued-is_queued (project_state id queued).conversation_history,
        drained_twice queued,
      )
