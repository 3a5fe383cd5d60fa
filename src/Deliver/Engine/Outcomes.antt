-- ===== src/Deliver/Engine/Outcomes.antt =====
-- What a delivery reports: `run` of src/deliver/engine.rs.
use mmat.Prelude.{◌≡◌, String, true, false, some, List, ◌∷◌, Result, ok, err}
use mmat.Deliver.Queue.{BuildJob}
use mmat.Deliver.Models.{ExecutionPlan, ImplementationItemResult, FinalReview}
use mmat.Deliver.Engine.{DeliveryError, backflow}
use mmat.Deliver.Engine.Steps.{Artefact, outcome, Services, State, Stop, stopped, out_of_fuel, Step}
use mmat.Deliver.Engine.Run.{backflow_severity_from_findings, delivery_outcome}
use mmat.Deliver.Engine.Ends.{Ends}
use mmat.Deliver.Engine.Executed.{AreChecked, missing}

-- The newest artefact is an outcome with this status.
abbrev pub Reports :
    String → ExecutionPlan → List ImplementationItemResult → FinalReview → State → Type 0
Reports status plan items review s =
    (older : List Artefact) × (s.artefacts
      ≡ outcome (delivery_outcome status plan items review) ∷ older)

-- The reported results are checked, there is one for each task of the plan, and the final review
-- accepts them.
abbrev pub Succeeded : Services → State → Type 0
Succeeded world s =
    (plan : ExecutionPlan) × (items : List ImplementationItemResult) × (review : FinalReview)
    × Reports "succeeded" plan items review s
    × (review.ready ≡ true)
    × AreChecked world items
    × (missing plan.task_cards items ≡ 0)

-- A backflow goes to the job's domain node, for a reported review that does not accept, with the
-- severity of its findings.
abbrev pub Refused : BuildJob → DeliveryError → State → Type 0
Refused job (backflow event) s =
    (plan : ExecutionPlan) × (items : List ImplementationItemResult) × (review : FinalReview)
    × Reports "failed" plan items review s
    × (review.ready ≡ false)
    × (job.domain_node_id ≡ some event.source_node_id)
    × (event.severity ≡ backflow_severity_from_findings review.findings)
Refused job _ s = Unit {0}

abbrev pub Delivered : Services → BuildJob → State × Result Stop (Unit {0}) → Type 0
Delivered world job (s, ok done) = Succeeded world s
Delivered world job (s, err (stopped error)) = Refused job error s
Delivered world job (s, err out_of_fuel) = false ≡ true

module _ (world : Services) (job : BuildJob) where
  pub record Delivers (m : Step (Unit {0})) : Type 0 where
    pub ends : (s : State) → Delivered world job (m s)
