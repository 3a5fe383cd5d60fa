-- ===== src/Deliver/Engine/Ordered.antt =====
-- `ordered_task_cards` of src/deliver/engine.rs.
use mmat.Prelude.{
  ℕ, zero, suc, ◌+◌, ◌<◌, ◌≡◌, refl, ◌⊎◌, inl, inr, Bool, true, false, Option, none, some, List, [],
  ◌∷◌, ◌++◌, ok, err, arith, length, retain, if◌then◌else◌, Bool-cases, Option-cases, append_assoc,
  append-nil, Result, subst, sym,
}
use mmat.Deliver.Models.{ItemId, TaskCard}
use mmat.Deliver.Engine.{
  card_ids, is_ready, take_ready, DeliveryError, no_order, order_loop, ordered_task_cards,
}

-- How many cards satisfy `p`.
abbrev pub number : (TaskCard → Bool) → List TaskCard → ℕ
number p cards = length (retain p cards)

-- Each card stands behind the cards that it depends on, or these are in `completed`.
abbrev pub IsOrdered : List TaskCard → List TaskCard → Type 0
IsOrdered done [] = Unit
IsOrdered done (card ∷ cards) =
    (is_ready (card_ids done) card ≡ true) × IsOrdered (done ++ card ∷ []) cards

-- Each card waits for something outside `completed`.
abbrev pub AreBlocked : List ItemId → List TaskCard → Type 0
AreBlocked completed [] = Unit
AreBlocked completed (card ∷ cards) = (is_ready completed card ≡ false) × AreBlocked completed cards

take_ready-AreBlocked :
    (completed : List ItemId) (cards : List TaskCard)
    → take_ready completed cards ≡ none
    → AreBlocked completed cards
unfolding take_ready
take_ready-AreBlocked completed [] e = tt
take_ready-AreBlocked completed (card ∷ cards) e = elim (Bool-cases (is_ready completed card)) [
  | inl ready ↦ absurd (ground arith)
  | inr blocked ↦ elim (Option-cases (take_ready completed cards)) [
    | inl h ↦ (blocked, take_ready-AreBlocked completed cards h)
    | inr (found, h) ↦ absurd (ground arith)
  ]
]

take_ready-ready :
    (completed : List ItemId) (cards : List TaskCard) (found : TaskCard) (rest : List TaskCard)
    → take_ready completed cards ≡ some (found, rest)
    → (is_ready completed found ≡ true)
      × (length cards ≡ suc (length rest))
      × ((p : TaskCard → Bool) → number p cards ≡ (if p found then 1 else 0) + number p rest)
unfolding take_ready
take_ready-ready completed [] found rest e = absurd (ground arith)
take_ready-ready completed (card ∷ cards) found rest e =
    elim (Bool-cases (is_ready completed card)) [
      | inl ready ↦ (ground arith, ground arith, λ p. ground arith)
      | inr blocked ↦ elim (Option-cases (take_ready completed cards)) [
        | inl h ↦ absurd (ground arith)
        | inr ((other, more), h) ↦
            let (ready, len, num) = take_ready-ready completed cards other more h in
            (ground arith, ground arith, λ p. ground (arith, num p))
      ]
    ]

number-append :
    (p : TaskCard → Bool) (xs ys : List TaskCard) → number p (xs ++ ys) ≡ number p xs + number p ys
number-append p [] ys = omega arith
number-append p (x ∷ xs) ys = ground (arith, number-append p xs ys)

IsOrdered-append :
    (done cards : List TaskCard) (card : TaskCard)
    → IsOrdered done cards
    → is_ready (card_ids (done ++ cards)) card ≡ true
    → IsOrdered done (cards ++ card ∷ [])
IsOrdered-append done [] card o ready =
    (subst (λ l. is_ready (card_ids l) card ≡ true) (append-nil done) ready, tt)
IsOrdered-append done (x ∷ cards) card o ready = (
  o.0,
  IsOrdered-append (done ++ x ∷ []) cards card o.1 (
      subst (λ l. is_ready (card_ids l) card ≡ true) (sym (append_assoc done (x ∷ []) cards))
        ready),
)

module _ (task_cards : List TaskCard) where
  -- The cards in an order that respects their dependencies.
  pub record IsOrder (ordered : List TaskCard) : Type 0 where
    pub layered : IsOrdered [] ordered
    pub same : (p : TaskCard → Bool) → number p ordered ≡ number p task_cards

  -- A start of an order that no other card can continue.
  pub record IsStuck (done rest : List TaskCard) : Type 0 where
    pub layered : IsOrdered [] done
    pub same : (p : TaskCard → Bool) → number p done + number p rest ≡ number p task_cards
    pub some_left : 0 < length rest
    pub blocked : AreBlocked (card_ids done) rest

  abbrev pub Orders : Option (Result DeliveryError (List TaskCard)) → Type 0
  Orders result =
      ((ordered : List TaskCard) × (result ≡ some (ok ordered)) × IsOrder ordered)
      ⊎ ((result ≡ some (err no_order))
          × ((done : List TaskCard) × (rest : List TaskCard) × IsStuck done rest))

  order_loop-Orders :
      (fuel : ℕ) (ordered remaining : List TaskCard)
      → IsOrdered [] ordered
      → ((p : TaskCard → Bool) → number p ordered + number p remaining ≡ number p task_cards)
      → length remaining < fuel
      → Orders (order_loop fuel ordered remaining)
  unfolding order_loop
  order_loop-Orders zero ordered remaining o same h = absurd (omega arith)
  order_loop-Orders (suc fuel) ordered [] o same h =
      inl (ordered, refl, record { layered = o; same = λ p. omega (arith, same p) })
  order_loop-Orders (suc fuel) ordered (card ∷ cards) o same h =
      elim (Option-cases (take_ready (card_ids ordered) (card ∷ cards))) [
        | inl e ↦ inr (
          rw (order_loop, e) refl,
          (
            ordered,
            card ∷ cards,
            record {
              layered = o;
              same = same;
              some_left = omega arith;
              blocked = take_ready-AreBlocked (card_ids ordered) (card ∷ cards) e;
            },
          ),
        )
        | inr ((found, rest), e) ↦
            let (ready, len, num) =
              take_ready-ready (card_ids ordered) (card ∷ cards) found rest e in
            rw (order_loop, e)
              (order_loop-Orders fuel (ordered ++ found ∷ []) rest
                (IsOrdered-append [] ordered found o ready)
                (λ p. ground (arith, same p, num p, number-append p ordered (found ∷ [])))
                (omega arith))
      ]

  -- `ordered_task_cards` always ends. It returns all cards, each as often as it was given, in an
  -- order in which each card stands behind the cards that it depends on; or it returns the error,
  -- and then it has found such an order of a part of the cards that none of the others, of which
  -- there is at least one, can continue, since each depends on an id outside that part.
  pub ordered_task_cards_lem : Orders (ordered_task_cards task_cards)
  unfolding ordered_task_cards
  ordered_task_cards_lem =
      order_loop-Orders (suc (length task_cards)) [] task_cards tt (λ p. ground arith) (omega arith)
