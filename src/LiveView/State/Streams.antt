-- ===== src/LiveView/State/Streams.antt =====
-- A streamed answer of a project: `record_project_assistant_message_delta` and
-- `record_project_assistant_message` of src/liveview/state.rs.
use Prim.Native.String.{String}
use mmat.Prelude.{
  ◌≡◌, refl, sym, ap, ◌∙◌, inl, inr, false, ◌||◌, not, List, [], ◌∷◌, ==_refl, retain, Bool-cases,
}
use mmat.LiveView.Texts.{is_empty}
use mmat.LiveView.Conversation.{
  assistant_message, Conversation, is_skipped, add_message_delta, add_message,
  push_conversation_entry,
}
use mmat.LiveView.Conversation.Stream.{stream, concat, IsSettled, stream_lem, add_message-stream}
use mmat.LiveView.State.{ProjectId, UiState, default_project, project_state}
use mmat.LiveView.State.Entries.{change_entry_same}
use mmat.LiveView.State.Methods.{change_conversation}
use mmat.LiveView.State.Talk.{
  record_project_assistant_message_delta, record_project_assistant_message,
}

abbrev pub record_deltas : ProjectId → List String → UiState → UiState
record_deltas id [] state = state
record_deltas id (delta ∷ deltas) state =
    record_deltas id deltas (record_project_assistant_message_delta id delta state)

-- The deltas that are not dropped.
abbrev pub shown : List String → List String
shown deltas = retain (λ delta. not (is_empty delta || is_skipped delta)) deltas

module _ (id : ProjectId) where
  abbrev pub conversation : UiState → Conversation
  conversation state = (project_state id state).conversation_history

  changed :
      (edit : Conversation → Conversation) (state : UiState)
      → conversation (change_conversation id edit state) ≡ edit (conversation state)
  changed edit state =
      let conv = edit (conversation state) in
      ap (λ p. p.conversation_history)
        (change_entry_same default_project id id
          (λ project. record project { conversation_history = conv }) state.project_states
          (==_refl id))

  record_deltas-conversation :
      (deltas : List String) (state : UiState)
      → conversation (record_deltas id deltas state) ≡ stream (shown deltas) (conversation state)
  record_deltas-conversation [] state = refl
  record_deltas-conversation (delta ∷ deltas) state =
      elim (Bool-cases (is_empty delta || is_skipped delta)) [
        | inl dropped ↦
            rw (record_project_assistant_message_delta, retain, dropped)
              (record_deltas-conversation deltas state)
        | inr kept ↦
            rw (record_project_assistant_message_delta, retain, kept)
              (record_deltas-conversation deltas
                  (change_conversation id (add_message_delta delta) state)
                ∙ ap (stream (shown deltas)) (changed (add_message_delta delta) state))
      ]

  -- Deltas of an answer are recorded for a project whose conversation does not end with an
  -- incomplete message, and not all of them are dropped as empty, blank or starting like JSON.
  -- Then the deltas that are not dropped have become one incomplete message at the end, their
  -- texts joined in order. When the whole answer is recorded next, and is itself not dropped, the
  -- conversation is the one that the whole answer alone leaves.
  pub streamed_answer_lem :
      (deltas rest : List String) (delta answer : String) (state : UiState)
      → IsSettled (conversation state)
      → shown deltas ≡ delta ∷ rest
      → is_skipped answer ≡ false
      → (conversation (record_deltas id deltas state)
          ≡ push_conversation_entry
              (conversation state)
              (assistant_message (concat (shown deltas)) false))
        × (conversation (record_project_assistant_message id answer (record_deltas id deltas state))
            ≡ conversation (record_project_assistant_message id answer state))
  streamed_answer_lem deltas rest delta answer state settled e whole =
      let streamed : conversation (record_deltas id deltas state)
          ≡ stream (delta ∷ rest) (conversation state) =
        record_deltas-conversation deltas state ∙ ap (λ ds. stream ds (conversation state)) e in
      (
        streamed ∙ (rw e (stream_lem delta rest (conversation state) settled)),
        rw (record_project_assistant_message, whole)
            (changed (add_message answer) (record_deltas id deltas state)
              ∙ ap (add_message answer) streamed
              ∙ add_message-stream delta rest (conversation state) settled answer
              ∙ sym (changed (add_message answer) state)),
      )
