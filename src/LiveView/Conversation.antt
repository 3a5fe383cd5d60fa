-- ===== src/LiveView/Conversation.antt =====
-- The conversation of a project or a domain node: the `VecDeque<ConversationEntry>` of
-- src/liveview/state.rs and what the methods of `UiState` do to it, oldest entry first.
pub mod Capped
pub mod Stream
use Prim.Native.String
use Prim.Native.String.{String}
use mmat.Prelude.{
  ℕ, zero, suc, Bool, true, false, not, ◌&&◌, ◌||◌, Option, none, some, List, [], ◌∷◌, ◌++◌, map,
  leb, if◌then◌else◌, length, get_elem?, unwrap_or,
}
use mmat.LiveView.Texts.{is_empty, is_blank, trim_start, starts_with}

pub data ConversationEntry : Type 0 where
  user_message queued_user_message assistant_question : String → ConversationEntry
  assistant_reasoning assistant_message : String → Bool → ConversationEntry
  tool_use : String → String → ConversationEntry

abbrev pub Conversation : Type 0
Conversation = List ConversationEntry

abbrev pub event_history_cap : ℕ
event_history_cap = 256

-- `pop_front`
abbrev pub pop_front {ℓ} : {A : Type ℓ} → List A → List A
pop_front [] = []
pop_front (x ∷ xs) = xs

-- `if queue.len() >= CAP { queue.pop_front(); } queue.push_back(entry);`
abbrev pub push_capped {ℓ} : {A : Type ℓ} → List A → A → List A
push_capped queue entry =
    (if leb event_history_cap (length queue) then pop_front queue else queue) ++ entry ∷ []

abbrev pub push_conversation_entry : Conversation → ConversationEntry → Conversation
push_conversation_entry conv entry = push_capped conv entry

-- `if let … = conv.back_mut()`: `none` if the last entry is not of the form that `change` takes.
abbrev pub change_back :
    (ConversationEntry → Option ConversationEntry) → Conversation → Option Conversation
change_back change [] = none
change_back change (entry ∷ []) = elim (change entry) [
  | none ↦ none
  | some entry' ↦ some (entry' ∷ [])
]
change_back change (entry ∷ next ∷ conv) = elim (change_back change (next ∷ conv)) [
  | none ↦ none
  | some conv' ↦ some (entry ∷ conv')
]

abbrev pub extend_message : String → ConversationEntry → Option ConversationEntry
extend_message delta (assistant_message text false) =
    some (assistant_message (String.◌++◌ text delta) false)
extend_message delta _ = none

abbrev pub extend_reasoning : String → ConversationEntry → Option ConversationEntry
extend_reasoning delta (assistant_reasoning text false) =
    some (assistant_reasoning (String.◌++◌ text delta) false)
extend_reasoning delta _ = none

-- The test that `record_project_assistant_message_delta` returns on. 123 is `{` and 91 is `[`.
abbrev pub is_skipped : String → Bool
is_skipped text =
    let trimmed = trim_start text in
    is_empty trimmed || starts_with 123 trimmed || starts_with 91 trimmed

-- The rest of it: `back_mut`, or a new entry.
abbrev pub add_message_delta : String → Conversation → Conversation
add_message_delta delta conv =
    unwrap_or (push_conversation_entry conv (assistant_message delta false))
      (change_back (extend_message delta) conv)

abbrev pub add_reasoning_delta : String → Conversation → Conversation
add_reasoning_delta delta conv =
    unwrap_or (push_conversation_entry conv (assistant_reasoning delta false))
      (change_back (extend_reasoning delta) conv)

-- `conv.iter().rposition(…)`
abbrev pub rposition : (ConversationEntry → Bool) → Conversation → Option ℕ
rposition p [] = none
rposition p (entry ∷ conv) = elim (rposition p conv) [
  | some i ↦ some (suc i)
  | none ↦ if p entry then some 0 else none
]

-- `conv.remove(index)`
abbrev pub remove_at : ℕ → Conversation → Conversation
remove_at index [] = []
remove_at zero (entry ∷ conv) = conv
remove_at (suc index) (entry ∷ conv) = entry ∷ remove_at index conv

-- `if let Some(entry) = conv.get_mut(index) { … }`
abbrev pub change_at : (ConversationEntry → ConversationEntry) → ℕ → Conversation → Conversation
change_at change index [] = []
change_at change zero (entry ∷ conv) = change entry ∷ conv
change_at change (suc index) (entry ∷ conv) = entry ∷ change_at change index conv

abbrev pub is_open_reasoning : ConversationEntry → Bool
is_open_reasoning (assistant_reasoning text complete) = not complete
is_open_reasoning _ = false

abbrev pub is_open_message : ConversationEntry → Bool
is_open_message (assistant_message text complete) = not complete
is_open_message _ = false

-- `matches!(entry, AssistantReasoning { text, complete: false } if text.trim().is_empty())`
abbrev pub is_blank_reasoning : ConversationEntry → Bool
is_blank_reasoning (assistant_reasoning text complete) = not complete && is_blank text
is_blank_reasoning _ = false

-- `*complete = true`
abbrev pub set_complete : ConversationEntry → ConversationEntry
set_complete (assistant_reasoning text complete) = assistant_reasoning text true
set_complete (assistant_message text complete) = assistant_message text true
set_complete entry = entry

abbrev pub holds_at : (ConversationEntry → Bool) → ℕ → Conversation → Bool
holds_at p index conv = elim (get_elem? conv index) [ none ↦ false | some entry ↦ p entry ]

-- The two parts of `finish_project_assistant_reasoning`, with `changed`.
abbrev pub finish_reasoning : Conversation → Conversation × Bool
finish_reasoning conv = elim (rposition is_open_reasoning conv) [
  | none ↦ (conv, false)
  | some index ↦
      if holds_at is_blank_reasoning index conv
      then (remove_at index conv, true)
      else if holds_at is_open_reasoning index conv
      then (change_at set_complete index conv, true)
      else (conv, false)
]

abbrev pub finish_message : Conversation → Conversation × Bool
finish_message conv = elim (rposition is_open_message conv) [
  | none ↦ (conv, false)
  | some index ↦
      if holds_at is_open_message index conv
      then (change_at set_complete index conv, true)
      else (conv, false)
]

abbrev pub finish_open_entries : Conversation → Conversation × Bool
finish_open_entries conv =
    let (conv', reasoning_changed) = finish_reasoning conv in
    let (conv'', message_changed) = finish_message conv' in
    (conv'', reasoning_changed || message_changed)

-- `looks_like_structured_payload`; 34 is `"`.
abbrev pub looks_like_structured_payload : String → Bool
looks_like_structured_payload text =
    let trimmed = trim_start text in
    starts_with 123 trimmed || starts_with 91 trimmed || starts_with 34 trimmed

abbrev pub is_structured_message : ConversationEntry → Bool
is_structured_message (assistant_message text complete) = looks_like_structured_payload text
is_structured_message _ = false

abbrev pub is_message : ConversationEntry → Bool
is_message (assistant_message text complete) = true
is_message _ = false

-- `finish_or_remove_project_incomplete_assistant_message`: `none` if nothing was changed.
abbrev pub finish_or_remove_incomplete_message : Conversation → Option Conversation
finish_or_remove_incomplete_message conv = elim (rposition is_open_message conv) [
  | none ↦ none
  | some index ↦
      if holds_at is_structured_message index conv
      then some (remove_at index conv)
      else if holds_at is_message index conv
      then some (change_at set_complete index conv)
      else none
]

abbrev pub replace_message : String → ConversationEntry → Option ConversationEntry
replace_message text (assistant_message existing false) = some (assistant_message text true)
replace_message text _ = none

-- The second half of `record_project_assistant_message`.
abbrev pub add_message : String → Conversation → Conversation
add_message text conv =
    unwrap_or (push_conversation_entry conv (assistant_message text true))
      (change_back (replace_message text) conv)

-- In `set_project_pending_prompt`: an open reasoning at the end is completed.
abbrev pub complete_reasoning : ConversationEntry → Option ConversationEntry
complete_reasoning (assistant_reasoning text false) = some (assistant_reasoning text true)
complete_reasoning _ = none

abbrev pub add_question : String → Conversation → Conversation
add_question question conv =
    push_conversation_entry (unwrap_or conv (change_back complete_reasoning conv))
      (assistant_question question)

-- In `drain_message_queue`.
abbrev pub deliver_entry : ConversationEntry → ConversationEntry
deliver_entry (queued_user_message text) = user_message text
deliver_entry entry = entry

abbrev pub deliver_queued : Conversation → Conversation
deliver_queued conv = map deliver_entry conv
