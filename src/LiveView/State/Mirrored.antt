-- ===== src/LiveView/State/Mirrored.antt =====
-- The conversation store holds the conversations that a `UiState` of src/liveview/state.rs shows,
-- so that a restart finds them, as long as no project is registered again.
use mmat.Prelude.{
  ℕ, ◌≡◌, refl, sym, ap, ◌∙◌, inl, inr, some, List, [], ◌∷◌, arith, ◌==◌, false, any, Bool-cases,
  Option-cases,
}
use mmat.Prelude.Map.{get-insert}
use mmat.Projects.{ProjectConfig}
use mmat.LiveView.Conversation.{Conversation, push_capped}
use mmat.LiveView.State.{
  ProjectId, ProjectUiState, UiState, default_project, entry_or, project_state, change_project,
}
use mmat.LiveView.State.Entries.{change_entry_same, change_entry_other, change_entry_kept}
use mmat.LiveView.State.Methods.{change_conversation}
use mmat.LiveView.State.Snapshot.{load}
use mmat.LiveView.State.Keeps.{Property, Keeps}
use mmat.LiveView.State.Keeps.Actions.{apply_action-Holds}
use mmat.LiveView.State.Register.{add_project, register_project-Holds}
use mmat.LiveView.State.Calls.{
  Call, push_project_event, register_project, action, apply, run, registers,
}

module _ (watched : ProjectId) where
  abbrev Mirror : Property
  Mirror states store next =
      load store watched ≡ some (entry_or default_project watched states).conversation_history

  -- What the store would load for the project is its conversation.
  abbrev pub IsMirrored : UiState → Type 0
  IsMirrored state =
      load state.conversation_store watched
      ≡ some (project_state watched state).conversation_history

  change_project-IsMirrored :
      (key : ℕ) (change : ProjectUiState → ProjectUiState) (state : UiState)
      → ((project : ProjectUiState)
          → (change project).conversation_history ≡ project.conversation_history)
      → IsMirrored state
      → IsMirrored (change_project key change state)
  change_project-IsMirrored key change state keeps m =
      m
      ∙ ap some (
          sym (
            change_entry_kept (λ p. p.conversation_history) default_project key watched change
              state.project_states keeps))

  change_conversation-IsMirrored :
      (key : ℕ) (edit : Conversation → Conversation) (state : UiState)
      → IsMirrored state
      → IsMirrored (change_conversation key edit state)
  change_conversation-IsMirrored key edit state m =
      let conv = edit (project_state key state).conversation_history in
      let set = λ (project : ProjectUiState). record project { conversation_history = conv } in
      elim (Option-cases state.conversation_store) [
        | inl f ↦ absurd (ground (arith, m, f))
        | inr (old, f) ↦ elim (Bool-cases (key == watched)) [
          | inl same ↦
              rw (load, f)
                (rw (get-insert key watched conv old, same)
                  (ap (λ p. some p.conversation_history)
                    (sym (
                      change_entry_same default_project key watched set state.project_states
                        same))))
          | inr other ↦
              rw (load, f)
                (rw (get-insert key watched conv old, other)
                  ((rw f at m)
                    ∙ ap (λ p. some p.conversation_history)
                        (sym (
                          change_entry_other default_project key watched set state.project_states
                            other))))
        ]
      ]

  Mirror-Keeps : Keeps Mirror
  Mirror-Keeps = record {
    project = λ key change state mild. change_project-IsMirrored key change state mild.conversation;
    conversation = λ key edit state capped. change_conversation-IsMirrored key edit state;
  }

  -- A project with another id is added.
  add_project-IsMirrored :
      (project : ProjectConfig) (state : UiState)
      → (project.id == watched) ≡ false
      → IsMirrored state
      → IsMirrored (add_project project state)
  add_project-IsMirrored project state other m =
      let shown =
        change_entry_other default_project project.id watched (λ entry. entry) state.project_states
          other in
      elim (Option-cases state.conversation_store) [
        | inl f ↦ absurd (ground (arith, m, f))
        | inr (old, f) ↦
            rw (load, f)
              (rw (get-insert project.id watched [] old, other)
                ((rw f at m) ∙ ap (λ p. some p.conversation_history) (sym shown)))
      ]

  -- Every method keeps them equal, unless it registers the watched project.
  apply-IsMirrored :
      (call : Call) (state : UiState)
      → registers watched call ≡ false
      → IsMirrored state
      → IsMirrored (apply call state)
  apply-IsMirrored (action a) state other m = apply_action-Holds Mirror Mirror-Keeps a state m
  apply-IsMirrored (register_project env data_path id_text describe id now name root registry) state
        other m =
      register_project-Holds env data_path id_text describe IsMirrored id now name root registry
        state m
        (λ registry' project e. add_project-IsMirrored project state (rw (registers, e) at other) m)
  apply-IsMirrored (push_project_event id event) state other m =
      change_project-IsMirrored id
        (λ project. record project {
          event_history =
              push_capped project.event_history
                (record { id = state.next_event_id; event = event });
        })
        state (λ project. refl) m

  pub run-IsMirrored :
      (calls : List Call) (state : UiState)
      → any calls (registers watched) ≡ false
      → IsMirrored state
      → IsMirrored (run calls state)
  run-IsMirrored [] state none_registers m = m
  run-IsMirrored (call ∷ calls) state none_registers m =
      run-IsMirrored calls (apply call state) (ground arith)
        (apply-IsMirrored call state (ground arith) m)
