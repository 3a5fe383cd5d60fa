-- ===== src/LiveView/State/Keeps/Parts.antt =====
-- The parts of the methods of src/liveview/state.rs keep a property that allows them.
use mmat.Prelude.{
  ℕ, ◌≡◌, refl, inl, inr, String, Bool, true, false, none, List, [], ◌∷◌, arith, if◌then◌else◌,
  Bool-cases, Option-cases,
}
use mmat.LiveView.Conversation.{
  add_message, user_message, ConversationEntry, Conversation, push_conversation_entry,
  finish_open_entries, finish_or_remove_incomplete_message, deliver_queued, is_skipped,
}
use mmat.LiveView.Conversation.Capped.{
  IsCapped, push_capped-IsCapped, length-deliver_queued, add_message-IsCapped,
  add_structured-IsCapped, finish-IsCapped,
}
use mmat.LiveView.State
use mmat.LiveView.State.Keeps.{fields-IsMild, domain-IsMild, Property, Holds, Keeps}
use mmat.LiveView.State.{
  DomainUiState, Receiver, job_snapshot, PendingPrompt, ProjectUiState, UiState, project_state,
  change_project, change_domain, set_project,
}
use mmat.LiveView.State.Methods.{change_conversation, ask, touch_domains, touch_active, set_phase}
use mmat.LiveView.State.Talk.{ask_project}
use mmat.LiveView.State.Send.{active_prompt}
use mmat.LiveView.State.Methods
use mmat.LiveView.State.Talk
use mmat.LiveView.State.Send

module _ (P : Property) (keeps : Keeps P) where
  pub sets :
      (id : ℕ) (change : ProjectUiState → ProjectUiState) (state : UiState)
      → ((project : ProjectUiState) → (change project).event_history ≡ project.event_history)
      → ((project : ProjectUiState)
          → (change project).conversation_history ≡ project.conversation_history)
      → ((project : ProjectUiState) → (change project).domain_states ≡ project.domain_states)
      → Holds P state
      → Holds P (change_project id change state)
  sets id change state e c d = keeps.project id change state (fields-IsMild change e c d)

  pub same :
      (id : ℕ) (state : UiState)
      → Holds P state
      → Holds P (change_project id (λ project. project) state)
  same id state = sets id (λ project. project) state (λ p. refl) (λ p. refl) (λ p. refl)

  pub sets_domain :
      (id node_id : ℕ) (change : DomainUiState → DomainUiState) (state : UiState)
      → ((domain : DomainUiState)
          → IsCapped domain.conversation_history
          → IsCapped (change domain).conversation_history)
      → Holds P state
      → Holds P (change_project id (change_domain node_id change) state)
  sets_domain id node_id change state c =
      keeps.project id (change_domain node_id change) state (domain-IsMild node_id change c)

  pub edits_domain :
      (id node_id : ℕ) (edit : Conversation → Conversation) (state : UiState)
      → ((conv : Conversation) → IsCapped conv → IsCapped (edit conv))
      → Holds P state
      → Holds P (Methods.change_domain_conversation id node_id edit state)
  edits_domain id node_id edit state c =
      sets_domain id node_id
        (λ domain. record domain { conversation_history = edit domain.conversation_history }) state
        (λ domain. c domain.conversation_history)

  pub says :
      (id : ℕ) (entry : ConversationEntry) (state : UiState)
      → Holds P state
      → Holds P (change_conversation id (λ conv. push_conversation_entry conv entry) state)
  says id entry state =
      keeps.conversation id (λ conv. push_conversation_entry conv entry) state
        (push_capped-IsCapped (project_state id state).conversation_history entry)

  pub says_domain :
      (id node_id : ℕ) (entry : ConversationEntry) (state : UiState)
      → Holds P state
      → Holds P (Methods.push_project_domain_conversation_entry id node_id entry state)
  says_domain id node_id entry state =
      edits_domain id node_id (λ conv. push_conversation_entry conv entry) state
        (λ conv h. push_capped-IsCapped conv entry h)

  pub drains :
      (id : ℕ) (state : UiState) → Holds P state → Holds P (Methods.drain_message_queue id state).0
  drains id state h = go (project_state id state).message_queue refl
    where
      go :
          (queue : List String)
          → (project_state id state).message_queue ≡ queue
          → Holds P (Methods.drain_message_queue id state).0
      go [] e = rw (Methods.drain_message_queue, e) (same id state h)
      go (text ∷ texts) e =
          rw (Methods.drain_message_queue, e)
            (keeps.conversation id deliver_queued
              (change_project id (λ project. record project { message_queue = [] }) state)
              (λ c. omega (
                arith,
                length-deliver_queued
                    (project_state id (
                      change_project id (λ p. record p { message_queue = [] })
                        state)).conversation_history,
              ))
              (sets id (λ project. record project { message_queue = [] }) state (λ p. refl)
                (λ p. refl) (λ p. refl) h))

  pub edits_unless :
      (id : ℕ) (skipped : Bool) (edit : Conversation → Conversation) (state : UiState)
      → ((conv : Conversation) → IsCapped conv → IsCapped (edit conv))
      → Holds P state
      → Holds P (if skipped then state else change_conversation id edit state)
  edits_unless id true edit state c h = h
  edits_unless id false edit state c h =
      keeps.conversation id edit state (c (project_state id state).conversation_history) h

  pub edits_domain_unless :
      (id node_id : ℕ) (skipped : Bool) (edit : Conversation → Conversation) (state : UiState)
      → ((conv : Conversation) → IsCapped conv → IsCapped (edit conv))
      → Holds P state
      → Holds P
          (if skipped then state else Methods.change_domain_conversation id node_id edit state)
  edits_domain_unless id node_id true edit state c h = h
  edits_domain_unless id node_id false edit state c h = edits_domain id node_id edit state c h

  pub finishes :
      (id : ℕ) (state : UiState)
      → Holds P state
      → Holds P (Talk.finish_project_assistant_reasoning id state)
  finishes id state h =
      elim (Bool-cases (finish_open_entries (project_state id state).conversation_history).1) [
        | inl e ↦
            rw (Talk.finish_project_assistant_reasoning, e)
              (edits_unless id false (λ conv. (finish_open_entries conv).0) state finish-IsCapped h)
        | inr e ↦ rw (Talk.finish_project_assistant_reasoning, e) (same id state h)
      ]

  pub finishes_domain :
      (id node_id : ℕ) (state : UiState)
      → Holds P state
      → Holds P (Talk.finish_project_domain_assistant_reasoning id node_id state)
  finishes_domain id node_id state h =
      elim (Bool-cases
        (finish_open_entries (Talk.domain_state id node_id state).conversation_history).1) [
          | inl e ↦
              rw (Talk.finish_project_domain_assistant_reasoning, e)
                (edits_domain id node_id (λ conv. (finish_open_entries conv).0) state
                  finish-IsCapped h)
          | inr e ↦
              rw (Talk.finish_project_domain_assistant_reasoning, e)
                (sets_domain id node_id (λ domain. domain) state (λ domain c. c) h)
        ]

  pub answers :
      (id : ℕ) (text : String) (state : UiState)
      → Holds P state
      → Holds P (Talk.record_project_assistant_message id text state)
  answers id text state h = elim (Bool-cases (is_skipped text)) [
    | inr shown ↦
        rw (Talk.record_project_assistant_message, shown)
          (edits_unless id false (add_message text) state
            (λ conv c. add_message-IsCapped conv c text) h)
    | inl skipped ↦
        let conv = (project_state id state).conversation_history in
        elim (Option-cases (finish_or_remove_incomplete_message conv)) [
          | inl e ↦ rw (Talk.record_project_assistant_message, skipped, e) (same id state h)
          | inr (conv', e) ↦
              rw (Talk.record_project_assistant_message, skipped, e)
                (keeps.conversation id (λ _. conv') state
                  (λ c. add_structured-IsCapped conv c conv' e) h)
        ]
  ]

  module _ (alive : State.Receiver → Bool) (text : String) (state : UiState)
      (h : Holds P state) where
    pub sends_input : Holds P (Send.send_initial_input alive text state).0
    sends_input = elim (Option-cases state.pending_initial_input) [
      | inl e ↦ rw (Send.send_initial_input, e) h
      | inr (sender, e) ↦
          let said = says state.active_project_id (user_message text) state h in
          elim (Bool-cases (alive sender)) [
            | inl a ↦ rw (Send.send_initial_input, e, a) said
            | inr a ↦ rw (Send.send_initial_input, e, a) said
          ]
    ]

    pub sends_prompt : Holds P (Send.send_project_prompt alive text state).0
    sends_prompt = elim (Option-cases state.pending_initial_input) [
      | inl e ↦ rw (Send.send_project_prompt, e) h
      | inr (sender, e) ↦ elim (Bool-cases (alive sender)) [
        | inl a ↦ rw (Send.send_project_prompt, e, a) h
        | inr a ↦ rw (Send.send_project_prompt, e, a) h
      ]
    ]

    pub sends_reply : Holds P (Send.send_pending_prompt alive text state).0
    sends_reply =
        let id = state.active_project_id in
        elim (Option-cases (active_prompt (project_state id state))) [
          | inr ((node_id, prompt), e) ↦
              let change = λ (p : ProjectUiState).
                change_domain node_id (λ domain. record domain { pending_prompt = none }) p in
              let said =
                says_domain id node_id (user_message text) (change_project id change state) (
                  sets_domain id node_id (λ domain. record domain { pending_prompt = none }) state
                    (λ domain c. c) h) in
              elim (Bool-cases (alive prompt.reply)) [
                | inl a ↦ rw (Send.send_pending_prompt, e, a) said
                | inr a ↦ rw (Send.send_pending_prompt, e, a) said
              ]
          | inl e ↦ elim (Option-cases (project_state id state).pending_prompt) [
            | inl f ↦ rw (Send.send_pending_prompt, e, f) (same id state h)
            | inr (prompt, f) ↦
                let change = λ (p : ProjectUiState). record p { pending_prompt = none } in
                let said =
                  says id (user_message text) (change_project id change state)
                    (sets id change state (λ p. refl) (λ p. refl) (λ p. refl) h) in
                elim (Bool-cases (alive prompt.reply)) [
                  | inl a ↦ rw (Send.send_pending_prompt, e, f, a) said
                  | inr a ↦ rw (Send.send_pending_prompt, e, f, a) said
                ]
          ]
        ]
