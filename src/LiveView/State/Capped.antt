-- ===== src/LiveView/State/Capped.antt =====
-- No history of a `UiState` of src/liveview/state.rs ever grows beyond the cap.
use mmat.Prelude.{ℕ, ◌≡◌, some, List, [], ◌∷◌, arith}
use mmat.Prelude.Map
use mmat.Prelude.Map.{Map}
use mmat.Projects.{ProjectConfig}
use mmat.LiveView.Conversation.{push_capped}
use mmat.LiveView.Conversation.Capped.{IsCapped, push_capped-IsCapped}
use mmat.LiveView.State.{
  UiEventEntry, ProjectUiState, UiState, default_project, project_state, change_project,
}
use mmat.LiveView.State.Entries.{entry_or-P, change_entry-AreAll}
use mmat.LiveView.State.Keeps.{AreCapped, Property, Keeps}
use mmat.LiveView.State.Keeps.Actions.{apply_action-Holds}
use mmat.LiveView.State.Register.{add_project, register_project-Holds}
use mmat.LiveView.State.Calls.{Call, push_project_event, register_project, action, apply, run}

pub record IsCappedProject (project : ProjectUiState) : Type 0 where
  pub events : IsCapped project.event_history
  pub conversation : IsCapped project.conversation_history
  pub domains : AreCapped project.domain_states

default-IsCappedProject : IsCappedProject default_project
default-IsCappedProject = record {
  events = omega arith;
  conversation = omega arith;
  domains = λ id domain e. absurd (ground arith);
}

abbrev AreCappedProjects : Property
AreCappedProjects states store next =
    (id : ℕ) (project : ProjectUiState) → Map.get states id ≡ some project → IsCappedProject project

-- The histories of events and all conversations are at most as long as the cap.
abbrev pub IsCappedState : UiState → Type 0
IsCappedState state =
    (id : ℕ) (project : ProjectUiState)
    → Map.get state.project_states id ≡ some project
    → IsCappedProject project

project_state-IsCappedProject :
    (id : ℕ) (state : UiState) → IsCappedState state → IsCappedProject (project_state id state)
project_state-IsCappedProject id state =
    entry_or-P IsCappedProject default_project default-IsCappedProject state.project_states id

change_project-IsCappedState :
    (id : ℕ) (change : ProjectUiState → ProjectUiState) (state : UiState)
    → (IsCappedProject (project_state id state) → IsCappedProject (change (project_state id state)))
    → IsCappedState state
    → IsCappedState (change_project id change state)
change_project-IsCappedState id change state keeps c =
    change_entry-AreAll IsCappedProject default_project default-IsCappedProject id change
      state.project_states c (keeps (project_state-IsCappedProject id state c))

IsCappedState-Keeps : Keeps AreCappedProjects
IsCappedState-Keeps = record {
  project = λ id change state mild. change_project-IsCappedState id change state (λ c. record {
    events = rw (mild.events (project_state id state)) c.events;
    conversation = rw (mild.conversation (project_state id state)) c.conversation;
    domains = mild.domains (project_state id state) c.domains;
  });
  conversation = λ id edit state keeps.
      let conv = edit (project_state id state).conversation_history in
      change_project-IsCappedState id (λ project. record project { conversation_history = conv })
        state
        (λ c. record {
          events = c.events;
          conversation = keeps c.conversation;
          domains = c.domains;
        });
}

add_project-IsCappedState :
    (project : ProjectConfig) (state : UiState)
    → IsCappedState state
    → IsCappedState (add_project project state)
add_project-IsCappedState project state =
    change_project-IsCappedState project.id (λ entry. entry) state (λ c. c)

-- Every method keeps the histories within the cap.
apply-IsCappedState :
    (call : Call) (state : UiState) → IsCappedState state → IsCappedState (apply call state)
apply-IsCappedState (action a) state =
    apply_action-Holds AreCappedProjects IsCappedState-Keeps a state
apply-IsCappedState (register_project env data_path id_text describe id now name root registry)
      state =
    λ c.
      register_project-Holds env data_path id_text describe IsCappedState id now name root registry
        state c (λ registry' project e. add_project-IsCappedState project state c)
apply-IsCappedState (push_project_event id event) state =
    let entry : UiEventEntry = record { id = state.next_event_id; event = event } in
    change_project-IsCappedState id
      (λ project. record project { event_history = push_capped project.event_history entry }) state
      (λ c. record {
        events = push_capped-IsCapped (project_state id state).event_history entry c.events;
        conversation = c.conversation;
        domains = c.domains;
      })

-- Whatever methods are called on a state, one after the other, in whatever order, with whatever
-- arguments and receivers, `register_project` included: if no history has more than 256 entries at
-- the start, every history of events, every project's conversation and every domain node's
-- conversation has at most 256 entries afterwards.
pub run-IsCappedState :
    (calls : List Call) (state : UiState) → IsCappedState state → IsCappedState (run calls state)
run-IsCappedState [] state c = c
run-IsCappedState (call ∷ calls) state c =
    run-IsCappedState calls (apply call state) (apply-IsCappedState call state c)
