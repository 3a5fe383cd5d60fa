-- ===== src/LiveView/State/Send.antt =====
-- The methods of `UiState` in src/liveview/state.rs that send on a channel.
use mmat.Prelude.{String, Bool, true, false, Option, none, some, [], ◌∷◌, ◌++◌, if◌then◌else◌}
use mmat.Prelude.Map
use mmat.Prelude.Map.{Map}
use mmat.Plan.DomainMap.{DomainNodeId}
use mmat.LiveView.State.{
  ProjectPrompt, Receiver, PendingPrompt, ProjectUiState, UiState, project_state, change_project,
  change_domain, bump_version,
}
use mmat.LiveView.State.Methods.{record_project_domain_user_message}
use mmat.LiveView.State.Talk.{record_project_user_message}

-- The prompt that `send_pending_prompt` takes from the active domain node.
abbrev pub active_prompt : ProjectUiState → Option (DomainNodeId × PendingPrompt)
active_prompt project = elim project.active_domain_node_id [
  | none ↦ none
  | some node_id ↦ elim (Map.get project.domain_states node_id) [
    | none ↦ none
    | some domain ↦ elim domain.pending_prompt [
      | none ↦ none
      | some prompt ↦ some (node_id, prompt)
    ]
  ]
]

module _ (alive : Receiver → Bool) where
  abbrev pub send_prompt : Receiver → ProjectPrompt → UiState → UiState × Bool
  send_prompt receiver prompt state =
      if alive receiver
      then (record state { prompts = state.prompts ++ (receiver, prompt) ∷ [] }, true)
      else (state, false)

  abbrev pub send_reply : Receiver → String → UiState → UiState × Bool
  send_reply receiver text state =
      if alive receiver
      then (record state { replies = state.replies ++ (receiver, text) ∷ [] }, true)
      else (state, false)

  abbrev pub send_initial_input : String → UiState → UiState × Bool
  send_initial_input text state = elim state.pending_initial_input [
    | none ↦ (state, false)
    | some sender ↦
        let project_id = state.active_project_id in
        let (sent, ok) =
          send_prompt sender (record { project_id = project_id; prompt = text })
            (record_project_user_message project_id text state) in
        (bump_version (record sent { initial_input_consumed = true }), ok)
  ]

  abbrev pub send_project_prompt : String → UiState → UiState × Bool
  send_project_prompt text state = elim state.pending_initial_input [
    | none ↦ (state, false)
    | some sender ↦
        let (sent, ok) =
          send_prompt sender (record { project_id = state.active_project_id; prompt = text })
            state in
        (bump_version sent, ok)
  ]

  abbrev pub send_pending_prompt : String → UiState → UiState × Bool
  send_pending_prompt text state =
      let project_id = state.active_project_id in
      let project = project_state project_id state in
      elim (active_prompt project) [
        | some (node_id, prompt) ↦
            let taken =
              change_project project_id
                (change_domain node_id (λ domain. record domain { pending_prompt = none })) state in
            let (sent, ok) =
              send_reply prompt.reply text
                (record_project_domain_user_message project_id node_id text taken) in
            (bump_version sent, ok)
        | none ↦ elim project.pending_prompt [
          | some prompt ↦
              let taken =
                change_project project_id (λ p. record p { pending_prompt = none }) state in
              let (sent, ok) =
                send_reply prompt.reply text (record_project_user_message project_id text taken) in
              (bump_version sent, ok)
          | none ↦ (change_project project_id (λ p. p) state, false)
        ]
      ]
