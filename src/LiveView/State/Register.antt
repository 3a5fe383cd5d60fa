-- ===== src/LiveView/State/Register.antt =====
-- A new project in the live view: `UiState::register_project` of src/liveview/state.rs, with the
-- registry of src/project.rs. The text of an error is an argument.
use mmat.Prelude.{
  ℕ, ◌≡◌, refl, ap, String, Option, none, some, [], ◌∷◌, ◌++◌, Result, ok, err, inl, inr,
  Result-cases,
}
use mmat.Prelude.Map.{Map, get-insert}
use mmat.Deliver.Queue.{ProjectId}
use mmat.Projects.{PathBuf, ProjectConfig, default_id}
use mmat.Projects.Paths.{ProjectRegistryError, Environment, normalise_root}
use mmat.Projects.Collections.{Chars}
use mmat.Projects.Registry
use mmat.Projects.Registry.{ProjectRegistryStore, from_root, default_for_root}
use mmat.LiveView.Conversation.{Conversation}
use mmat.LiveView.State.{
  UiState, default_project, project_state, change_project, persist_project_conversation,
  bump_version,
}
use mmat.LiveView.State.Entries.{change_entry_same}
use mmat.LiveView.State.Snapshot.{load}

-- What is done with a configuration
abbrev pub add_project : ProjectConfig → UiState → UiState
add_project project state =
    let pushed =
      change_project project.id (λ entry. entry)
        (record state { projects = state.projects ++ project ∷ [] }) in
    bump_version (record (persist_project_conversation project.id [] pushed) {
      active_project_id = project.id;
    })

module _ (env : Environment) (data_path : Option PathBuf) (id_text : ProjectId → Chars)
    (describe : ProjectRegistryError → String) where
  abbrev pub registered :
      ProjectId
      → ℕ
      → String
      → PathBuf
      → Option ProjectRegistryStore
      → Result ProjectRegistryError (Option ProjectRegistryStore × ProjectConfig)
  registered id now name root none = elim (default_for_root env data_path id_text root) [
    | err error ↦ err error
    | ok project ↦ ok (none, project)
  ]
  registered id now name root (some store) =
      elim (Registry.register_project env data_path id_text id now (from_root name root) store) [
        | err error ↦ err error
        | ok (store', project) ↦ ok (some store', project)
      ]

  -- The registry, the state, and the result.
  abbrev pub register_project :
      ProjectId
      → ℕ
      → String
      → PathBuf
      → Option ProjectRegistryStore
      → UiState
      → Option ProjectRegistryStore × UiState × Result String ProjectId
  register_project id now name root registry state = elim (registered id now name root registry) [
    | err error ↦ (registry, state, err (describe error))
    | ok (registry', project) ↦ (registry', add_project project state, ok project.id)
  ]

  -- What holds of the state before, and after every addition to it, holds of the result.
  pub register_project-Holds :
      (P : UiState → Type 0) (id : ProjectId) (now : ℕ) (name : String) (root : PathBuf)
      (registry : Option ProjectRegistryStore) (state : UiState)
      → P state
      → ((registry' : Option ProjectRegistryStore) (project : ProjectConfig)
          → registered id now name root registry ≡ ok (registry', project)
          → P (add_project project state))
      → P (register_project id now name root registry state).1
  register_project-Holds P id now name root registry state before added =
      elim (Result-cases (registered id now name root registry)) [
        | inl (error, e) ↦ rw (register_project, e) before
        | inr ((registry', project), e) ↦ rw (register_project, e) (added registry' project e)
      ]

  -- Without a registry, every root that is accepted is registered as the project `default`. If that
  -- project is there already, the conversation store loses its conversation, while the live view
  -- goes on showing it.
  pub register_project-conversation :
      (id : ProjectId) (now : ℕ) (name : String) (root path : PathBuf) (state : UiState)
      (store : Map Conversation)
      → normalise_root env root ≡ ok path
      → state.conversation_store ≡ some store
      → ((register_project id now name root none state).2 ≡ ok default_id)
        × (load (register_project id now name root none state).1.conversation_store default_id
            ≡ some [])
        × ((project_state default_id
              (register_project id now name root none state).1).conversation_history
            ≡ (project_state default_id state).conversation_history)
  register_project-conversation id now name root path state store e f =
      rw (register_project, registered, default_for_root, e)
        (
          refl,
          (rw f (rw (get-insert default_id default_id [] store) refl)),
          ap (λ p. p.conversation_history)
              (change_entry_same default_project default_id default_id (λ p. p) state.project_states
                refl),
        )
