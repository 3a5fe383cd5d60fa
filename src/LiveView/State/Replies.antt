-- ===== src/LiveView/State/Replies.antt =====
-- The answer to a pending prompt: `send_pending_prompt` of src/liveview/state.rs.
use mmat.Prelude.{String, Bool, Option, none, some, List, [], ◌∷◌, ◌++◌, if◌then◌else◌}
use mathlib.Core.Option
use mmat.Prelude.Map
use mmat.LiveView.State.{Receiver, PendingPrompt, ProjectUiState}

-- The prompt of the active domain node, if there is such a node and it has one.
abbrev pub domain_prompt : ProjectUiState → Option PendingPrompt
domain_prompt project = Option.bind project.active_domain_node_id (λ node_id.
    Option.bind (Map.get project.domain_states node_id) (λ domain. domain.pending_prompt))

-- The prompt that the next answer is for: the active domain node's before the project's.
abbrev pub next_prompt : ProjectUiState → Option PendingPrompt
next_prompt project = elim (domain_prompt project) [
  | some prompt ↦ some prompt
  | none ↦ project.pending_prompt
]

abbrev pub answered :
    (Receiver → Bool) → PendingPrompt → String → List (Receiver × String) → List (Receiver × String)
answered alive prompt text replies =
    if alive prompt.reply then replies ++ (prompt.reply, text) ∷ [] else replies
