-- ===== src/LiveView/State/Tests.antt =====
-- Runs of the live view's state, src/liveview/state.rs, and of its theorems.
use mmat.Prelude.{
  ok, ℕ, ◌≡◌, refl, subst, inl, inr, Bool-cases, true, false, ◌==◌, none, some, List, [], ◌∷◌,
  arith, any,
}
use mmat.Prelude.Map.{Map}
use mmat.Projects.{ProjectConfig}
use mmat.LiveView.Conversation.{
  user_message, assistant_message, Conversation, push_conversation_entry,
}
use mmat.LiveView.State.{log, step_started, UiState, default_project, project_state}
use mathlib.Core.Option
use mmat.LiveView.State.Methods
use mmat.LiveView.State.Methods.{drain_message_queue}
use mmat.LiveView.State.Talk.{record_project_assistant_message, set_project_pending_prompt}
use mmat.LiveView.State.Calls
use mmat.LiveView.State.Calls.{
  Call, action, push_project_event, queue_message, record_project_user_message,
  record_project_assistant_message_delta, run, registers,
}
use mmat.LiveView.State.Snapshot.{with_projects_and_conversation_store, snapshot, working}
use mmat.Projects.{root_dir, normal, PathBuf, default_id}
use mmat.Projects.Paths.{
  Environment, normalise_root, normalised, check_base, normalize_path, normalize_loop,
}
use mmat.Projects.Registry.{default_for_root}
use mmat.LiveView.State.Snapshot.{load}
use mmat.LiveView.State.Register.{registered, register_project, register_project-conversation}
use mmat.LiveView.State.Capped.{IsCappedProject, IsCappedState, run-IsCappedState}
use mmat.LiveView.State.Restart.{restart_lem}
use mmat.LiveView.State.Messages.{is_queued, queue_messages, drain_message_queue_lem}
use mmat.LiveView.State.Streams.{record_deltas, shown, conversation, streamed_answer_lem}
use mmat.LiveView.Conversation.Stream.{concat}

abbrev project : ℕ → ProjectConfig
project id = record {
  id = id;
  name = "project";
  root = [];
  data_dir = [];
  enabled = true;
  qdrant_collection_prefix = [];
  repo_label = none;
}

abbrev projects : List ProjectConfig
projects = project 5 ∷ project 6 ∷ []

abbrev store : Map Conversation
store = (5, user_message "before" ∷ []) ∷ []

abbrev start : UiState
start = with_projects_and_conversation_store projects (some store)

abbrev calls : List Call
calls =
    action (record_project_user_message 5 "hello")
    ∷ push_project_event 6 (log "a" "b")
    ∷ action (record_project_assistant_message_delta 5 "Hi ")
    ∷ push_project_event 5 (step_started "plan")
    ∷ action (record_project_assistant_message_delta 5 "there")
    ∷ action (Calls.record_project_assistant_message 5 "Hi there")
    ∷ []

conversation_after :
    conversation 5 (run calls start)
    ≡ user_message "before" ∷ user_message "hello" ∷ assistant_message "Hi there" true ∷ []
conversation_after = refl

shows_active :
    ((snapshot (run calls start)).active_project.id ≡ 5)
    × ((snapshot (run calls start)).composer_mode ≡ working)
    × ((snapshot (run calls start)).is_first_boot ≡ false)
shows_active = (refl, refl, refl)

start-IsCappedState : IsCappedState start
start-IsCappedState id state e = elim (Bool-cases (5 == id)) [
  | inl five ↦
      let same : record default_project { conversation_history = user_message "before" ∷ [] }
          ≡ state =
        ground (arith, e, five) in
      subst IsCappedProject same (record {
        events = omega arith;
        conversation = omega arith;
        domains = λ id domain e. absurd (ground arith);
      })
  | inr other ↦ elim (Bool-cases (6 == id)) [
    | inl six ↦
        let same : default_project ≡ state = ground (arith, e, other, six) in
        subst IsCappedProject same (record {
          events = omega arith;
          conversation = omega arith;
          domains = λ id domain e. absurd (ground arith);
        })
    | inr none_left ↦ absurd (ground (arith, e, other, none_left))
  ]
]

abbrev env : Environment
env = record {
  project_path = none;
  current_dir = ok (root_dir ∷ []);
  exists = λ path. false;
  canonicalize = λ path. ok (root_dir ∷ []);
}

abbrev code : PathBuf
code = root_dir ∷ normal "code" ∷ []

normalised_code : normalise_root env code ≡ ok code
unfolding normalise_root normalised check_base normalize_path normalize_loop
normalised_code = refl

-- A project is registered between the other calls, under the id 1.
abbrev calls_and_project : List Call
calls_and_project =
    Calls.register_project env none (λ id. id ∷ []) (λ error. "error") 9 10 "Code" code none ∷ calls

run-IsCappedState_example : IsCappedState (run calls_and_project start)
run-IsCappedState_example = run-IsCappedState calls_and_project start start-IsCappedState

five_stays : any calls_and_project (registers 5) ≡ false
five_stays = rw (registers, registered, default_for_root, normalised_code) refl

restart_lem_example :
    (project_state 5 (
      with_projects_and_conversation_store projects
        (run calls_and_project (with_projects_and_conversation_store projects (some store))
          ).conversation_store)).conversation_history
    ≡ (project_state 5 (
        run calls_and_project
          (with_projects_and_conversation_store projects (some store)))).conversation_history
restart_lem_example = restart_lem projects store calls_and_project 5 refl five_stays

drain_message_queue_lem_example :
    ((drain_message_queue 5 (queue_messages 5 ("one" ∷ "two" ∷ []) start)).1 ≡ "one" ∷ "two" ∷ [])
    × ((project_state 5
          (drain_message_queue 5 (queue_messages 5 ("one" ∷ "two" ∷ []) start)).0).message_queue
        ≡ [])
    × (any
          (project_state 5
            (drain_message_queue 5
              (queue_messages 5 ("one" ∷ "two" ∷ []) start)).0).conversation_history
          is_queued
        ≡ false)
    × ((drain_message_queue 5
          (drain_message_queue 5 (queue_messages 5 ("one" ∷ "two" ∷ []) start)).0).1
        ≡ [])
drain_message_queue_lem_example = drain_message_queue_lem 5 "one" ("two" ∷ []) start

abbrev asked : UiState
asked =
    set_project_pending_prompt 5 (some (record { question = "Which?"; choices = none; reply = 9 }))
      start

-- Node 4 and the active node 3 have a prompt each, and the project has one.
abbrev asked_thrice : UiState
asked_thrice = Methods.set_project_active_domain_node_id 5 (some 3) (
    Methods.set_project_domain_pending_prompt 5 3
      (some (record { question = "Why?"; choices = none; reply = 8 }))
      (Methods.set_project_domain_pending_prompt 5 4
        (some (record { question = "When?"; choices = none; reply = 7 })) asked))

streamed_answer_lem_example :
    (conversation 5 (record_deltas 5 ("Hi " ∷ " " ∷ "there" ∷ []) start)
      ≡ push_conversation_entry
          (conversation 5 start)
          (assistant_message (concat (shown ("Hi " ∷ " " ∷ "there" ∷ []))) false))
    × (conversation 5 (
          record_project_assistant_message 5 "Hi there"
            (record_deltas 5 ("Hi " ∷ " " ∷ "there" ∷ []) start))
        ≡ conversation 5 (record_project_assistant_message 5 "Hi there" start))
streamed_answer_lem_example =
    streamed_answer_lem 5 ("Hi " ∷ " " ∷ "there" ∷ []) ("there" ∷ []) "Hi " "Hi there" start refl
      refl refl

abbrev saved : Map Conversation
saved = (1, user_message "before" ∷ []) ∷ []

abbrev default_view : UiState
default_view = with_projects_and_conversation_store (project 1 ∷ []) (some saved)

register_project-conversation_example :
    ((register_project env none
        (λ id. id ∷ [])
        (λ error. "error")
        9
        10
        "Code"
        code
        none
        default_view).2
      ≡ ok default_id)
    × (load
          (register_project env none
            (λ id. id ∷ [])
            (λ error. "error")
            9
            10
            "Code"
            code
            none
            default_view).1.conversation_store
          default_id
        ≡ some [])
    × ((project_state default_id
          (register_project env none
            (λ id. id ∷ [])
            (λ error. "error")
            9
            10
            "Code"
            code
            none
            default_view).1).conversation_history
        ≡ user_message "before" ∷ [])
register_project-conversation_example =
    register_project-conversation env none (λ id. id ∷ []) (λ error. "error") 9 10 "Code" code code
      default_view saved normalised_code refl
