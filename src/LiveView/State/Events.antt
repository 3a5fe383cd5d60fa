-- ===== src/LiveView/State/Events.antt =====
-- The history of events of a project in src/liveview/state.rs, against the whole log.
use mmat.Prelude.{ℕ, zero, suc, ◌-◌, ◌≡◌, List, [], ◌∷◌, ◌==◌, if◌then◌else◌, length}
use mmat.LiveView.Conversation.{event_history_cap}
use mmat.LiveView.State.{ProjectId, UiEventEntry, default_project, entry_or}
use mmat.LiveView.State.Keeps.{Property, Keeps}
use mmat.LiveView.State.Methods.{next_event}
use mmat.LiveView.State.Calls.{Call, push_project_event, register_project, action}

abbrev pub drop {ℓ} : {A : Type ℓ} → ℕ → List A → List A
drop zero xs = xs
drop (suc n) [] = []
drop (suc n) (x ∷ xs) = drop n xs

-- The last entries, at most as many as the cap.
abbrev pub latest {ℓ} : {A : Type ℓ} → List A → List A
latest xs = drop (length xs - event_history_cap) xs

-- The log without a cap: the events that the calls push for a project. The events of all projects
-- are numbered in their order, from `next`, modulo 2^64.
abbrev pub pushed : ProjectId → ℕ → List Call → List UiEventEntry
pushed watched next [] = []
pushed watched next (action a ∷ calls) = pushed watched next calls
pushed watched next (register_project _ _ _ _ _ _ _ _ _ ∷ calls) = pushed watched next calls
pushed watched next (push_project_event id event ∷ calls) =
    let rest = pushed watched (next_event next) calls in
    if id == watched then record { id = next; event = event } ∷ rest else rest

module _ (watched : ProjectId) where
  abbrev Log : List UiEventEntry → ℕ → Property
  Log log from states store next =
      ((entry_or default_project watched states).event_history ≡ latest log) × (next ≡ from)
