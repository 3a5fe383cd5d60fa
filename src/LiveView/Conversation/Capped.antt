-- ===== src/LiveView/Conversation/Capped.antt =====
-- No operation lets a conversation outgrow the cap of src/liveview/state.rs.
use Prim.Native.String.{String}
use mmat.Prelude.{
  ℕ, zero, suc, ◌≤◌, ◌≡◌, refl, inl, inr, Option, some, List, [], ◌∷◌, arith, length, length-append,
  unwrap_or, Bool-cases, Option-cases,
}
use mmat.LiveView.Conversation.{
  ConversationEntry, Conversation, event_history_cap, push_capped, change_back, extend_message,
  extend_reasoning, add_message_delta, add_reasoning_delta, rposition, remove_at, change_at,
  is_open_reasoning, is_open_message, set_complete, holds_at, finish_reasoning, finish_message,
  finish_open_entries, finish_or_remove_incomplete_message, replace_message, add_message,
  complete_reasoning, add_question, deliver_queued, is_structured_message, is_message,
}

-- At most as long as the cap.
abbrev pub IsCapped {ℓ} : {A : Type ℓ} → List A → Type 0
IsCapped xs = length xs ≤ event_history_cap

pub push_capped-IsCapped {ℓ} :
    {A : Type ℓ} (queue : List A) (entry : A) → IsCapped queue → IsCapped (push_capped queue entry)
push_capped-IsCapped [] entry h = ground arith
push_capped-IsCapped (x ∷ queue) entry h =
    ground (arith, length-append queue (entry ∷ []), length-append (x ∷ queue) (entry ∷ []))

pub length-change_back :
    (change : ConversationEntry → Option ConversationEntry) (conv conv' : Conversation)
    → change_back change conv ≡ some conv'
    → length conv' ≡ length conv
length-change_back change [] conv' e = absurd (ground arith)
length-change_back change (entry ∷ []) conv' e = ground arith
length-change_back change (entry ∷ next ∷ conv) conv' e =
    elim (Option-cases (change_back change (next ∷ conv))) [
      | inl h ↦ absurd (ground arith)
      | inr (more, h) ↦ ground (arith, length-change_back change (next ∷ conv) more h)
    ]

length-remove_at_le :
    (index : ℕ) (conv : Conversation) → length (remove_at index conv) ≤ length conv
length-remove_at_le index [] = ground arith
length-remove_at_le zero (entry ∷ conv) = ground arith
length-remove_at_le (suc index) (entry ∷ conv) = omega (arith, length-remove_at_le index conv)

length-change_at :
    (change : ConversationEntry → ConversationEntry) (index : ℕ) (conv : Conversation)
    → length (change_at change index conv) ≡ length conv
length-change_at change index [] = refl
length-change_at change zero (entry ∷ conv) = refl
length-change_at change (suc index) (entry ∷ conv) =
    omega (arith, length-change_at change index conv)

pub length-deliver_queued : (conv : Conversation) → length (deliver_queued conv) ≡ length conv
length-deliver_queued [] = refl
length-deliver_queued (entry ∷ conv) = omega (arith, length-deliver_queued conv)

-- `back_mut` with a new entry as the other case.
change_back-IsCapped :
    (change : ConversationEntry → Option ConversationEntry) (conv other : Conversation)
    → IsCapped conv
    → IsCapped other
    → IsCapped (unwrap_or other (change_back change conv))
change_back-IsCapped change conv other h k = elim (Option-cases (change_back change conv)) [
  | inl e ↦ rw e k
  | inr (conv', e) ↦ rw e (omega (arith, length-change_back change conv conv' e))
]

module _ (conv : Conversation) (h : IsCapped conv) where
  pub add_message_delta-IsCapped : (delta : String) → IsCapped (add_message_delta delta conv)
  add_message_delta-IsCapped delta =
      change_back-IsCapped (extend_message delta) conv _ h (push_capped-IsCapped conv _ h)

  pub add_reasoning_delta-IsCapped : (delta : String) → IsCapped (add_reasoning_delta delta conv)
  add_reasoning_delta-IsCapped delta =
      change_back-IsCapped (extend_reasoning delta) conv _ h (push_capped-IsCapped conv _ h)

  pub add_message-IsCapped : (text : String) → IsCapped (add_message text conv)
  add_message-IsCapped text =
      change_back-IsCapped (replace_message text) conv _ h (push_capped-IsCapped conv _ h)

  pub add_question-IsCapped : (question : String) → IsCapped (add_question question conv)
  add_question-IsCapped question =
      push_capped-IsCapped (unwrap_or conv (change_back complete_reasoning conv)) _
        (change_back-IsCapped complete_reasoning conv conv h h)

  pub add_structured-IsCapped :
      (conv' : Conversation)
      → finish_or_remove_incomplete_message conv ≡ some conv'
      → IsCapped conv'
  add_structured-IsCapped conv' e = elim (Option-cases (rposition is_open_message conv)) [
    | inl none_open ↦ absurd (ground arith)
    | inr (index, found) ↦ elim (Bool-cases (holds_at is_structured_message index conv)) [
      | inl structured ↦ ground (arith, length-remove_at_le index conv)
      | inr plain ↦ elim (Bool-cases (holds_at is_message index conv)) [
        | inl message ↦ ground (arith, length-change_at set_complete index conv)
        | inr other ↦ absurd (ground arith)
      ]
    ]
  ]

finish_reasoning-length : (conv : Conversation) → length (finish_reasoning conv).0 ≤ length conv
finish_reasoning-length conv = elim (Option-cases (rposition is_open_reasoning conv)) [
  | inl e ↦ rw (finish_reasoning, e) (omega arith)
  | inr (index, e) ↦
      rw (finish_reasoning, e)
        (ground (arith, length-remove_at_le index conv, length-change_at set_complete index conv))
]

finish_message-length : (conv : Conversation) → length (finish_message conv).0 ≤ length conv
finish_message-length conv = elim (Option-cases (rposition is_open_message conv)) [
  | inl e ↦ rw (finish_message, e) (omega arith)
  | inr (index, e) ↦
      rw (finish_message, e) (ground (arith, length-change_at set_complete index conv))
]

pub finish-IsCapped : (conv : Conversation) → IsCapped conv → IsCapped (finish_open_entries conv).0
finish-IsCapped conv h =
    omega (arith, finish_reasoning-length conv, finish_message-length (finish_reasoning conv).0)
