-- ===== src/Deliver/Engine/Ends.antt =====
-- How the steps of src/deliver/engine.rs end: rules for their parts.
use mmat.Prelude.{ℕ, ◌≡◌, refl, String, Bool, true, false, Option, none, some, Result, ok, err}
use mmat.Deliver.Engine.{DeliveryError, workspace, backflow}
use mmat.Deliver.Engine.Steps.{
  AgentError, config_error, workflow_error, model_error, json_error, agent_error, State, Stop,
  stopped, out_of_fuel, Step, pure, raise, raised, ask, ◌>>=◌, ◌>>◌, or_error, unless,
}

abbrev pub is_backflow : DeliveryError → Bool
is_backflow (backflow event) = true
is_backflow _ = false

-- What holds of the end of a step: `Q` of its result, and its error is no backflow.
abbrev pub Ended : {A : Type 0} → (A → Type 0) → Result Stop A → Type 0
Ended Q (ok a) = Q a
Ended Q (err (stopped error)) = is_backflow error ≡ false
Ended Q (err out_of_fuel) = false ≡ true

-- A step that always ends so, whatever happens outside.
pub record Ends {A : Type 0} (Q : A → Type 0) (m : Step A) : Type 0 where
  pub ends : (s : State) → Ended Q (m s).1

abbrev pub Anything : {A : Type 0} → A → Type 0
Anything a = Unit {0}

-- What may be answered.
abbrev pub Answers : {A : Type 0} → (A → Type 0) → Result DeliveryError A → Type 0
Answers Q (ok a) = Q a
Answers Q (err error) = is_backflow error ≡ false

module _ {A : Type 0} {Q : A → Type 0} where
  pub pure-Ends : (a : A) → Q a → Ends Q (pure a)
  unfolding pure
  pure-Ends a h = record { ends = λ s. h }

  pub raise-Ends : (error : DeliveryError) → is_backflow error ≡ false → Ends Q (raise error)
  unfolding raise
  raise-Ends error h = record { ends = λ s. h }

  pub ask-Ends :
      (answer : ℕ → Result DeliveryError A) → ((n : ℕ) → Answers Q (answer n)) → Ends Q (ask answer)
  unfolding ask
  ask-Ends answer h = record { ends = λ s. go (answer s.calls) (h s.calls) }
    where
      go : (r : Result DeliveryError A) → Answers Q r → Ended Q (raised r)
      go (ok a) q = q
      go (err error) q = q

module _ {A B : Type 0} {Q : A → Type 0} {P : B → Type 0} where
  pub bind-Ends :
      {m : Step A} {f : A → Step B} → Ends Q m → ((a : A) → Q a → Ends P (f a)) → Ends P (m >>= f)
  unfolding ◌>>=◌
  bind-Ends {m} {f} first next = record { ends = λ s. go (m s) (first.ends s) }
    where
      go :
          (r : State × Result Stop A)
          → Ended Q r.1
          → Ended P
              (elim r.1 as (λ x. State × Result Stop B) [
                | ok a ↦ f a r.0
                | err why ↦ (r.0, err why)
              ]).1
      go (s, ok a) q = (next a q).ends s
      go (s, err (stopped error)) q = q
      go (s, err out_of_fuel) q = q

  pub then-Ends : {m : Step A} {k : Step B} → Ends Q m → Ends P k → Ends P (m >> k)
  unfolding ◌>>◌
  then-Ends first next = bind-Ends first (λ a q. next)

pub weaken-Ends :
    {A : Type 0} {P Q : A → Type 0} {m : Step A} → ((a : A) → P a → Q a) → Ends P m → Ends Q m
weaken-Ends {A} {P} {Q} {m} h end = record { ends = λ s. go (m s).1 (end.ends s) }
  where
    go : (r : Result Stop A) → Ended P r → Ended Q r
    go (ok a) p = h a p
    go (err (stopped error)) p = p
    go (err out_of_fuel) p = p

pub agent-Answers :
    {A : Type 0} (r : Result AgentError A) → Answers Anything (or_error agent_error r)
agent-Answers (ok a) = tt
agent-Answers (err (config_error text)) = refl
agent-Answers (err (workflow_error text)) = refl
agent-Answers (err (model_error text)) = refl
agent-Answers (err (json_error text)) = refl

pub workspace-Answers : {A : Type 0} (r : Result String A) → Answers Anything (or_error workspace r)
workspace-Answers (ok a) = tt
workspace-Answers (err text) = refl

pub unless-Answers :
    (wrap : String → DeliveryError)
    → ((text : String) → is_backflow (wrap text) ≡ false)
    → (r : Option String) → Answers Anything (unless wrap r)
unless-Answers wrap h none = tt
unless-Answers wrap h (some text) = h text
