-- ===== src/LiveView/Conversation/Stream.antt =====
-- A streamed answer: the deltas of a message and then the whole message, in src/liveview/state.rs.
use Prim.Native.String
use Prim.Native.String.{String}
use text.Mathlib.TextLemmas.{append_assoc as string_assoc, append-nil as string_nil}
use mmat.Prelude.{
  ◌≡◌, refl, sym, ap, ◌∙◌, false, Option, none, some, List, [], ◌∷◌, ◌++◌, arith, leb,
  if◌then◌else◌, length,
}
use mmat.LiveView.Conversation.{
  ConversationEntry, assistant_message, Conversation, event_history_cap, pop_front, push_capped,
  change_back, extend_message, add_message_delta, replace_message, add_message,
}

-- The message deltas of one answer, in order.
abbrev pub stream : List String → Conversation → Conversation
stream [] conv = conv
stream (delta ∷ deltas) conv = stream deltas (add_message_delta delta conv)

abbrev pub concat : List String → String
concat [] = ""
concat (text ∷ texts) = String.◌++◌ text (concat texts)

-- No answer is being streamed: the last entry is no incomplete message.
abbrev pub IsSettled : Conversation → Type 0
IsSettled conv = change_back (extend_message "") conv ≡ none

change_back-append :
    (change : ConversationEntry → Option ConversationEntry) (conv : Conversation)
    (entry : ConversationEntry)
    → change_back change (conv ++ entry ∷ [])
      ≡ elim (change entry) [ none ↦ none | some entry' ↦ some (conv ++ entry' ∷ []) ]
change_back-append change [] entry = refl
change_back-append change (first ∷ []) entry = ground arith
change_back-append change (first ∷ second ∷ conv) entry =
    ground (arith, change_back-append change (second ∷ conv) entry)

IsSettled-extend :
    (conv : Conversation) (delta : String)
    → IsSettled conv
    → change_back (extend_message delta) conv ≡ none
IsSettled-extend [] delta e = refl
IsSettled-extend (assistant_message text false ∷ []) delta e = absurd (ground arith)
IsSettled-extend (entry ∷ []) delta e = ground arith
IsSettled-extend (entry ∷ next ∷ conv) delta e =
    ground (arith, IsSettled-extend (next ∷ conv) delta)

IsSettled-replace :
    (conv : Conversation) (text : String)
    → IsSettled conv
    → change_back (replace_message text) conv ≡ none
IsSettled-replace [] text e = refl
IsSettled-replace (entry ∷ []) text e = ground arith
IsSettled-replace (entry ∷ next ∷ conv) text e =
    ground (arith, IsSettled-replace (next ∷ conv) text)

stream-open :
    (deltas : List String) (conv : Conversation) (text : String)
    → stream deltas (conv ++ assistant_message text false ∷ [])
      ≡ conv ++ assistant_message (String.◌++◌ text (concat deltas)) false ∷ []
stream-open [] conv text = ap (λ t. conv ++ assistant_message t false ∷ []) (sym (string_nil text))
stream-open (delta ∷ deltas) conv text =
    rw (change_back-append (extend_message delta) conv (assistant_message text false)) (
      stream-open deltas conv (String.◌++◌ text delta)
      ∙ ap (λ t. conv ++ assistant_message t false ∷ []) (string_assoc text delta (concat deltas)))

module _ (delta : String) (deltas : List String) (conv : Conversation)
    (settled : IsSettled conv) where
  -- The entries that stay when one more is pushed.
  abbrev kept : Conversation
  kept = if leb event_history_cap (length conv) then pop_front conv else conv

  -- Where no answer is being streamed, the deltas of an answer become one incomplete entry at the
  -- end, with their texts joined in order.
  pub stream_lem :
      stream (delta ∷ deltas) conv
      ≡ push_capped conv (assistant_message (String.◌++◌ delta (concat deltas)) false)
  stream_lem = rw (IsSettled-extend conv delta settled) (stream-open deltas kept delta)

  -- The complete answer replaces them.
  pub add_message-stream :
      (text : String) → add_message text (stream (delta ∷ deltas) conv) ≡ add_message text conv
  add_message-stream text = rw (
    stream_lem,
    IsSettled-replace conv text settled,
    change_back-append (replace_message text) kept
        (assistant_message (String.◌++◌ delta (concat deltas)) false),
  )
