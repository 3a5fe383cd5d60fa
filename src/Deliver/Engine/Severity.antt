-- ===== src/Deliver/Engine/Severity.antt =====
-- The severity of a backflow: `backflow_severity_from_findings` of src/deliver/engine.rs.
use mmat.Prelude.{ℕ, ◌≤◌, ◌≡◌, refl, inl, inr, List, [], ◌∷◌, arith, leb, if◌then◌else◌, Bool-cases}
use mmat.Plan.Backflow.{BackflowSeverity, minor, moderate, major, critical}
use mmat.Deliver.Models.{StageFinding}
use mmat.Deliver.Engine.Run.{
  is_named, raise_to_moderate, severity_loop, backflow_severity_from_findings,
}

abbrev pub rank : BackflowSeverity → ℕ
rank minor = 0
rank moderate = 1
rank major = 2
rank critical = 3

-- The rank of a finding. Any other word ranks as minor.
abbrev pub finding_rank : StageFinding → ℕ
finding_rank finding =
    if is_named finding.severity "critical"
    then 3
    else if is_named finding.severity "major"
    then 2
    else if is_named finding.severity "moderate"
    then 1
    else 0

abbrev pub max : ℕ → ℕ → ℕ
max a b = if leb a b then b else a

abbrev pub highest : List StageFinding → ℕ
highest [] = 0
highest (finding ∷ findings) = max (finding_rank finding) (highest findings)

highest_le : (findings : List StageFinding) → highest findings ≤ 3
highest_le [] = omega arith
highest_le (finding ∷ findings) = ground (arith, highest_le findings)

raise_to_moderate-rank :
    (severity : BackflowSeverity)
    → rank severity ≤ 2
    → (rank (raise_to_moderate severity) ≡ max (rank severity) 1)
      × (rank (raise_to_moderate severity) ≤ 2)
raise_to_moderate-rank minor h = (refl, omega arith)
raise_to_moderate-rank moderate h = (refl, omega arith)
raise_to_moderate-rank major h = (refl, omega arith)
raise_to_moderate-rank critical h = absurd (omega arith)

severity_loop-rank :
    (severity : BackflowSeverity) (findings : List StageFinding)
    → rank severity ≤ 2
    → rank (severity_loop severity findings) ≡ max (rank severity) (highest findings)
unfolding severity_loop
severity_loop-rank severity [] h = ground arith
severity_loop-rank severity (finding ∷ findings) h =
    elim (Bool-cases (is_named finding.severity "critical")) [
      | inl c ↦ rw (severity_loop, c) (ground (arith, highest_le findings))
      | inr c ↦ elim (Bool-cases (is_named finding.severity "major")) [
        | inl m ↦ rw (severity_loop, c, m) (ground (arith, severity_loop-rank major findings))
        | inr m ↦ elim (Bool-cases (is_named finding.severity "moderate")) [
          | inl o ↦
              let (raised, small) = raise_to_moderate-rank severity h in
              rw (severity_loop, c, m, o)
                (ground
                  (arith, raised, severity_loop-rank (raise_to_moderate severity) findings small))
          | inr o ↦
              rw (severity_loop, c, m, o) (ground (arith, severity_loop-rank severity findings))
        ]
      ]
    ]

-- The severity of the backflow is the highest one that a finding names, whatever the case of its
-- letters, and minor if none names a higher one.
pub backflow_severity_from_findings-highest :
    (findings : List StageFinding)
    → rank (backflow_severity_from_findings findings) ≡ highest findings
unfolding backflow_severity_from_findings
backflow_severity_from_findings-highest findings =
    ground (arith, severity_loop-rank minor findings (omega arith))
