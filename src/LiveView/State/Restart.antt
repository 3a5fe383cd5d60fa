-- ===== src/LiveView/State/Restart.antt =====
-- A restart: `with_projects_and_conversation_store` of src/liveview/state.rs on the store that the
-- calls have left.
use mmat.Prelude.{
  ◌≡◌, refl, sym, ap, ◌∙◌, inl, inr, Bool, true, false, Option, some, List, [], ◌∷◌, ◌==◌, ==_iff,
  if◌then◌else◌, unwrap_or, any, Bool-cases,
}
use mmat.Prelude.Map
use mmat.Prelude.Map.{Map, get-insert}
use mmat.Deliver.Queue.{ProjectId}
use mmat.Projects.{ProjectConfig}
use mmat.LiveView.Conversation.{Conversation}
use mmat.LiveView.State.{ProjectUiState, default_project, project_state}
use mmat.LiveView.State.Calls.{Call, run, registers}
use mmat.LiveView.State.Snapshot.{load, restored, restore, with_projects_and_conversation_store}
use mmat.LiveView.State.Mirrored.{run-IsMirrored}

abbrev pub is_project : ProjectId → List ProjectConfig → Bool
is_project id projects = any projects (λ project. project.id == id)

get-restore :
    (store : Option (Map Conversation)) (projects : List ProjectConfig)
    (states : Map ProjectUiState) (id : ProjectId)
    → Map.get (restore store projects states) id ≡ (
        if is_project id projects
        then some (record default_project { conversation_history = unwrap_or [] (load store id) })
        else Map.get states id)
get-restore store [] states id = refl
get-restore store (project ∷ projects) states id =
    get-restore store projects (Map.insert project.id (restored store project) states) id
    ∙ (elim (Bool-cases (is_project id projects)) [
      | inl later ↦ rw later (elim (Bool-cases (project.id == id)) [
        | inl same ↦ rw same refl
        | inr other ↦ rw other refl
      ])
      | inr last ↦ rw last (
          rw (get-insert project.id id (restored store project) states)
            (elim (Bool-cases (project.id == id)) [
              | inl same ↦ rw same (
                  ap
                    (λ i. some (record default_project {
                      conversation_history = unwrap_or [] (load store i);
                    }))
                    ((==_iff project.id id).0 same))
              | inr other ↦ rw other refl
            ]))
    ])

restored_conversation :
    (store : Option (Map Conversation)) (projects : List ProjectConfig) (id : ProjectId)
    → is_project id projects ≡ true
    → (project_state id (with_projects_and_conversation_store projects store)).conversation_history
      ≡ unwrap_or [] (load store id)
restored_conversation store projects id known =
    let found = get-restore store projects [] id in
    ap (λ entry. (unwrap_or default_project entry).conversation_history) (rw known at found)

-- A live view is started with some projects and a conversation store; then methods are called on
-- it one after the other, in any order, and every save succeeds. Take one of the projects, and let
-- no call of `register_project` register a project under its id. If the live view is started again
-- with the same projects and what the store holds by then, this project has the conversation it had
-- before the restart.
pub restart_lem :
    (projects : List ProjectConfig) (store : Map Conversation) (calls : List Call) (id : ProjectId)
    → is_project id projects ≡ true
    → any calls (registers id) ≡ false
    → (project_state id (
        with_projects_and_conversation_store projects
          (run calls (with_projects_and_conversation_store projects (some store))
            ).conversation_store)).conversation_history
      ≡ (project_state id (
          run calls
            (with_projects_and_conversation_store projects (some store)))).conversation_history
restart_lem projects store calls id known none_registers =
    let start = with_projects_and_conversation_store projects (some store) in
    restored_conversation (run calls start).conversation_store projects id known
    ∙ ap (unwrap_or []) (
        run-IsMirrored id calls start none_registers
          (ap some (sym (restored_conversation (some store) projects id known))))
