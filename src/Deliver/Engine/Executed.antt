-- ===== src/Deliver/Engine/Executed.antt =====
-- All tasks of a plan: `execute_task_cards` of src/deliver/engine.rs.
use mmat.Prelude.{
  ℕ, ◌≡◌, refl, sym, ◌∙◌, inl, inr, Bool, true, not, ◌||◌, List, [], ◌∷◌, ◌++◌, arith, any, ◌==◌,
  ==_iff, Bool-cases,
}
use mmat.Deliver.Queue.{BuildJob}
use mmat.Deliver.Models.{ItemId, TaskCard, ExecutionPlan, ImplementationItemResult}
use mmat.Deliver.Engine.{no_order}
use mmat.Deliver.Engine.Ordered.{number, ordered_task_cards_lem}
use mmat.Deliver.Engine.Steps.{Services, task_result}
use mmat.Deliver.Engine.Tasks.{execute_cards, execute_task_cards}
use mmat.Deliver.Engine.Ends.{Ends, pure-Ends, raise-Ends, weaken-Ends, bind-Ends, then-Ends}
use mmat.Deliver.Engine.Delivered.{IsEvidence, write-Ends, execute_task_card-Ends}

-- `completed.iter().any(|item| item.item_id == …)`
abbrev pub has_result : List ImplementationItemResult → ItemId → Bool
has_result items id = any items (λ item. item.item_id == id)

-- Each result has the evidence of a worktree in which the four commands passed.
abbrev pub AreChecked : Services → List ImplementationItemResult → Type 0
AreChecked world [] = Unit {0}
AreChecked world (item ∷ items) = IsEvidence world item.commands_run × AreChecked world items

AreChecked-append :
    (world : Services) (items : List ImplementationItemResult) (item : ImplementationItemResult)
    → AreChecked world items
    → IsEvidence world item.commands_run
    → AreChecked world (items ++ item ∷ [])
AreChecked-append world [] item c h = (h, tt)
AreChecked-append world (first ∷ items) item c h = (c.0, AreChecked-append world items item c.1 h)

has_result-append :
    (items : List ImplementationItemResult) (item : ImplementationItemResult) (id : ItemId)
    → has_result (items ++ item ∷ []) id ≡ (has_result items id || item.item_id == id)
has_result-append [] item id = ground arith
has_result-append (first ∷ items) item id = ground (arith, has_result-append items item id)

-- The cards that have no result.
abbrev pub missing : List TaskCard → List ImplementationItemResult → ℕ
missing cards items = number (λ card. not (has_result items card.id)) cards

-- The results at the end: checked, none lost, and one for each card.
pub record AreComplete (world : Services) (cards : List TaskCard)
    (before items : List ImplementationItemResult) : Type 0 where
  pub checked : AreChecked world items
  pub kept : (id : ItemId) → has_result before id ≡ true → has_result items id ≡ true
  pub covered : missing cards items ≡ 0

module _ (world : Services) (job : BuildJob) (plan : ExecutionPlan) where
  execute_cards-Ends :
      (cards : List TaskCard) (before : List ImplementationItemResult)
      → AreChecked world before
      → Ends (AreComplete world cards before) (execute_cards world job plan cards before)
  unfolding execute_cards
  execute_cards-Ends [] before c =
      pure-Ends _ (record { checked = c; kept = λ id h. h; covered = refl })
  execute_cards-Ends (card ∷ cards) before c = elim (Bool-cases (has_result before card.id)) [
    | inl present ↦
        rw (execute_cards, present)
          (weaken-Ends
            (λ items done. record {
              checked = done.checked;
              kept = done.kept;
              covered = ground (arith, done.covered, done.kept card.id present);
            })
            (execute_cards-Ends cards before c))
    | inr new ↦
        rw (execute_cards, new)
          (bind-Ends (execute_task_card-Ends world job plan card before) (λ item (named, passed).
            then-Ends (write-Ends world (task_result item)) (
              weaken-Ends
                (λ items done. record {
                  checked = done.checked;
                  kept = λ id h. done.kept id (ground (arith, h, has_result-append before item id));
                  covered = ground (
                    arith,
                    done.covered,
                    done.kept card.id (
                        ground (
                          arith,
                          has_result-append before item card.id,
                          ==_iff item.item_id card.id,
                          named,
                        )),
                  );
                })
                (execute_cards-Ends cards (before ++ item ∷ [])
                  (AreChecked-append world before item c passed)))))
  ]

  pub execute_task_cards-Ends :
      (before : List ImplementationItemResult)
      → AreChecked world before
      → Ends (AreComplete world plan.task_cards before) (execute_task_cards world job plan before)
  unfolding execute_task_cards
  execute_task_cards-Ends before c = elim (ordered_task_cards_lem plan.task_cards) [
    | inl (cards, e, order) ↦
        rw (execute_task_cards, e)
          (weaken-Ends
            (λ items done. record {
              checked = done.checked;
              kept = done.kept;
              covered = sym (order.same (λ card. not (has_result items card.id))) ∙ done.covered;
            })
            (execute_cards-Ends cards before c))
    | inr (e, stuck) ↦ rw (execute_task_cards, e) (raise-Ends no_order refl)
  ]
