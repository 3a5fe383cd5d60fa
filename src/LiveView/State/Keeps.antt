-- ===== src/LiveView/State/Keeps.antt =====
-- What a property of a `UiState` of src/liveview/state.rs has to allow so that every method but
-- `push_project_event` keeps it: changes of a project that leave its events and its conversation
-- alone, and changes of a project's conversation.
pub mod Parts
pub mod Actions
use mmat.Prelude.{
  ℕ, ◌≡◌, refl, Bool, true, false, Option, none, some, List, [], ◌∷◌, arith, if◌then◌else◌,
  unwrap_or,
}
use mmat.Prelude.Map
use mmat.Prelude.Map.{Map}
use mmat.Deliver.Queue.{ProjectId}
use mmat.LiveView.Conversation.{Conversation}
use mmat.LiveView.Conversation.Capped.{IsCapped}
use mmat.LiveView.State.{
  DomainUiState, ProjectUiState, UiState, default_domain, entry_or, project_state, change_project,
  change_domain,
}
use mmat.LiveView.State.Entries.{AreAll, entry_or-P, change_entry-AreAll}
use mmat.LiveView.State.Methods.{touch_domains, touch_active, change_conversation}

abbrev pub IsCappedDomain : DomainUiState → Type 0
IsCappedDomain domain = IsCapped domain.conversation_history

pub default-IsCappedDomain : IsCappedDomain default_domain
default-IsCappedDomain = omega arith

abbrev pub AreCapped : Map DomainUiState → Type 0
AreCapped domains =
    (id : ℕ) (domain : DomainUiState) → Map.get domains id ≡ some domain → IsCappedDomain domain

-- A change that leaves the events and the conversation alone, and the domain nodes'
-- conversations within the cap.
pub record IsMild (change : ProjectUiState → ProjectUiState) : Type 0 where
  pub events : (project : ProjectUiState) → (change project).event_history ≡ project.event_history
  pub conversation :
      (project : ProjectUiState)
      → (change project).conversation_history ≡ project.conversation_history
  pub domains :
      (project : ProjectUiState)
      → AreCapped project.domain_states
      → AreCapped (change project).domain_states

-- A change of other fields.
pub fields-IsMild :
    (change : ProjectUiState → ProjectUiState)
    → ((project : ProjectUiState) → (change project).event_history ≡ project.event_history)
    → ((project : ProjectUiState)
        → (change project).conversation_history ≡ project.conversation_history)
    → ((project : ProjectUiState) → (change project).domain_states ≡ project.domain_states)
    → IsMild change
fields-IsMild change e c d = record {
  events = e;
  conversation = c;
  domains = λ project h. rw (d project) h;
}

pub domain-IsMild :
    (id : ℕ) (change : DomainUiState → DomainUiState)
    → ((domain : DomainUiState) → IsCappedDomain domain → IsCappedDomain (change domain))
    → IsMild (change_domain id change)
domain-IsMild id change keeps = record {
  events = λ project. refl;
  conversation = λ project. refl;
  domains = λ project h.
      change_entry-AreAll IsCappedDomain default_domain default-IsCappedDomain id change
        project.domain_states h
        (keeps (entry_or default_domain id project.domain_states) (
          entry_or-P IsCappedDomain default_domain default-IsCappedDomain project.domain_states id
            h));
}

same_domain-IsMild : (id : ℕ) → IsMild (change_domain id (λ domain. domain))
same_domain-IsMild id = domain-IsMild id (λ domain. domain) (λ domain h. h)

pub touch_domains-IsMild : (tabs : List ℕ) → IsMild (touch_domains tabs)
touch_domains-IsMild [] =
    fields-IsMild (touch_domains []) (λ project. refl) (λ project. refl) (λ project. refl)
touch_domains-IsMild (id ∷ tabs) = record {
  events =
      λ project. (touch_domains-IsMild tabs).events (change_domain id (λ domain. domain) project);
  conversation = λ project.
      (touch_domains-IsMild tabs).conversation (change_domain id (λ domain. domain) project);
  domains = λ project h.
      (touch_domains-IsMild tabs).domains (change_domain id (λ domain. domain) project)
        ((same_domain-IsMild id).domains project h);
}

pub touch_active-IsMild : (id : Option ℕ) → IsMild (touch_active id)
touch_active-IsMild none =
    fields-IsMild (touch_active none) (λ project. refl) (λ project. refl) (λ project. refl)
touch_active-IsMild (some id) = same_domain-IsMild id

-- A property of what the methods change.
abbrev pub Property : Type 1
Property = Map ProjectUiState → Option (Map Conversation) → ℕ → Type 0

abbrev pub Holds : Property → UiState → Type 0
Holds P state = P state.project_states state.conversation_store state.next_event_id

pub record Keeps (P : Property) : Type 0 where
  pub project :
      (key : ProjectId) (change : ProjectUiState → ProjectUiState) (state : UiState)
      → IsMild change
      → Holds P state
      → Holds P (change_project key change state)
  pub conversation :
      (key : ProjectId) (edit : Conversation → Conversation) (state : UiState)
      → (IsCapped (project_state key state).conversation_history
          → IsCapped (edit (project_state key state).conversation_history))
      → Holds P state
      → Holds P (change_conversation key edit state)
