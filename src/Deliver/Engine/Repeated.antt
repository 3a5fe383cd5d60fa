-- ===== src/Deliver/Engine/Repeated.antt =====
-- Remediation with ids that are used already: `execute_task_cards` on a plan of `remediation_plan`, in
-- src/deliver/engine.rs.
use mmat.Prelude.{
  ℕ, zero, suc, ◌<◌, ◌≡◌, refl, ◌∙◌, true, some, List, [], ◌∷◌, ◌++◌, map, arith, ok, length,
  append_assoc, append-nil,
}
use mmat.Deliver.Queue.{BuildJob}
use mmat.Deliver.Models.{
  TaskCard, ExecutionPlan, ImplementationItemResult, RemediationItem, FinalReview,
}
use mmat.Deliver.Engine.{
  take_ready, order_loop, ordered_task_cards, remediation_card, remediation_plan,
}
use mmat.Deliver.Engine.Steps.{Services, State, pure}
use mmat.Deliver.Engine.Tasks.{execute_cards, execute_task_cards}
use mmat.Deliver.Engine.Run.{remediation_summary}
use mmat.Deliver.Engine.Executed.{has_result}

-- Each item has the id of a result that is there.
abbrev pub AreRepeated : List ImplementationItemResult → List RemediationItem → Type 0
AreRepeated completed [] = Unit {0}
AreRepeated completed (item ∷ items) =
    (has_result completed item.id ≡ true) × AreRepeated completed items

-- Remediation cards have no dependencies, and keep their order.
order_loop-remediation :
    (fuel : ℕ) (ordered : List TaskCard) (items : List RemediationItem)
    → length items < fuel
    → order_loop fuel ordered (map remediation_card items)
      ≡ some (ok (ordered ++ map remediation_card items))
unfolding order_loop take_ready
order_loop-remediation zero ordered items h = absurd (omega arith)
order_loop-remediation (suc fuel) ordered [] h = rw (append-nil ordered) refl
order_loop-remediation (suc fuel) ordered (item ∷ items) h =
    order_loop-remediation fuel (ordered ++ remediation_card item ∷ []) items (omega arith)
    ∙ (rw (append_assoc ordered (remediation_card item ∷ []) (map remediation_card items)))

length-map : (items : List RemediationItem) → length (map remediation_card items) ≡ length items
length-map [] = refl
length-map (item ∷ items) = omega (arith, length-map items)

module _ (world : Services) (job : BuildJob) where
  execute_cards-repeated :
      (plan : ExecutionPlan) (completed : List ImplementationItemResult)
      (items : List RemediationItem) (s : State)
      → AreRepeated completed items
      → execute_cards world job plan (map remediation_card items) completed s ≡ (s, ok completed)
  unfolding execute_cards pure
  execute_cards-repeated plan completed [] s r = refl
  execute_cards-repeated plan completed (item ∷ items) s (done, r) =
      rw (execute_cards, done) (execute_cards-repeated plan completed items s r)

  -- Where all items of a review have ids of tasks that already have a result, the execution of the
  -- tasks of its remediation plan does nothing: `execute_task_cards` makes no call, writes nothing,
  -- and returns the results from before. What the pass does besides is not part of this.
  pub execute_task_cards-repeated :
      (plan : ExecutionPlan) (review : FinalReview) (completed : List ImplementationItemResult)
      (s : State)
      → AreRepeated completed review.remediation_items
      → execute_task_cards world job (remediation_plan remediation_summary plan review) completed s
        ≡ (s, ok completed)
  unfolding execute_task_cards ordered_task_cards
  execute_task_cards-repeated plan review completed s r =
      let items = review.remediation_items in
      let order =
        order_loop-remediation (suc (length (map remediation_card items))) [] items
          (omega (arith, length-map items)) in
      rw (execute_task_cards, ordered_task_cards, order)
        (execute_cards-repeated (remediation_plan remediation_summary plan review) completed items s
          r)
