-- ===== src/Llm/Resilience/Budget.antt =====
-- The budget of `run_resilient`: which calls it makes, and which errors it keeps.
use kyc_agent_nordvik.Prelude.{
  ℕ, zero, suc, ◌+◌, ◌≤◌, ◌≡◌, refl, subst, String, Option, none, some, List, [], ◌∷◌, ◌++◌, length,
  length-append, opt_list, replicate, arith, inl, inr,
}
use kyc_agent_nordvik.Effects.{Outcome-cases, value, raised, Call}
use kyc_agent_nordvik.Llm.Base.{PipelineStep}
use kyc_agent_nordvik.Llm.Resilience.{
  Attempted, succeeded, exhausted, failure, run_fallback, attempts, run_resilient,
}
use kyc_agent_nordvik.Schemas.Decisions.{ProcessingError}

module _ {W A : Type 0} where
  -- Make the calls in turn until one answers with a value.
  unfoldable pub first_success : List (Call W A) → W → Option A × W
  first_success [] w = (none, w)
  first_success (call ∷ calls) w =
      let (answer, w') = call w in
      elim answer [ value a ↦ (some a, w') | raised exc ↦ first_success calls w' ]

abbrev pub result_of {ℓ} : {A : Type 0} {B : Type ℓ} → Attempted A × B → Option A × B
result_of (succeeded a errors, w) = (some a, w)
result_of (exhausted step errors, w) = (none, w)

abbrev pub errors_of : {A : Type 0} → Attempted A → List ProcessingError
errors_of (succeeded a errors) = errors
errors_of (exhausted step errors) = errors

-- The errors of one node, numbered from `n + 1`.
abbrev pub IsNumbered : String → ℕ → List ProcessingError → Type 0
IsNumbered node n [] = Unit
IsNumbered node n (e ∷ errors) =
    (e.node ≡ node) × (e.attempt ≡ n + 1) × IsNumbered node (n + 1) errors

-- How many errors there are when `most` calls may fail.
abbrev pub WithinBudget : {A : Type 0} → ℕ → Attempted A → Type 0
WithinBudget most (succeeded a errors) = length errors + 1 ≤ most
WithinBudget most (exhausted step errors) = length errors ≡ most

IsNumbered-snoc :
    (node : String) (n : ℕ) (errors : List ProcessingError) (e : ProcessingError)
    → IsNumbered node n errors
    → e.node ≡ node
    → e.attempt ≡ n + length errors + 1
    → IsNumbered node n (errors ++ e ∷ [])
IsNumbered-snoc node n [] e h p q = (p, omega arith, tt)
IsNumbered-snoc node n (x ∷ errors) e h p q =
    (h.0, h.1, IsNumbered-snoc node (n + 1) errors e h.2 p (omega arith))

module _ {W A : Type 0} (step : PipelineStep) (node : String) where
  fallback_history :
      (fallback : Option (Call W A)) (attempt : ℕ) (errors : List ProcessingError) (w : W)
      → IsNumbered node 0 errors
      → length errors ≡ attempt
      → IsNumbered node 0 (errors_of (run_fallback step node fallback attempt errors w).0)
        × WithinBudget
            (attempt + 0 + length (opt_list fallback))
            (run_fallback step node fallback attempt errors w).0
  unfolding run_fallback
  fallback_history none attempt errors w h e = (h, omega arith)
  fallback_history (some fallback) attempt errors w h e = elim (Outcome-cases (fallback w).0) [
    | inl (a, p) ↦ rw (p, run_fallback) (h, omega arith)
    | inr (exc, p) ↦
        let last = failure node (attempt + 1) "fallback failed: " exc in
        rw (p, run_fallback)
          (
            IsNumbered-snoc node 0 errors last h refl (omega arith),
            omega (arith, length-append errors (last ∷ [])),
          )
  ]

module _ {W A : Type 0} (step : PipelineStep) (node : String) (primary : Call W A)
    (fallback : Option (Call W A)) where
  attempts-eq :
      (left attempt : ℕ) (errors : List ProcessingError) (w : W)
      → result_of (attempts step node primary fallback left attempt errors w)
        ≡ first_success (replicate left primary ++ opt_list fallback) w
  unfolding attempts first_success
  attempts-eq zero attempt errors w = ground arith
  attempts-eq (suc left) attempt errors w = elim (Outcome-cases (primary w).0) [
    | inl (a, e) ↦ rw (e, attempts, first_success) refl
    | inr (exc, e) ↦
        rw (e, attempts, first_success)
          (attempts-eq left (attempt + 1) (errors ++ failure node (attempt + 1) "" exc ∷ [])
            (primary w).1)
  ]

  -- The result, and the state that the calls leave the outside world in, are those of trying the
  -- primary service once and `max_retries` times more, and then the fallback once, if there is one.
  pub run_resilient-eq-first_success :
      (max_retries : ℕ) (w : W)
      → result_of (run_resilient step node primary fallback max_retries w)
        ≡ first_success (replicate (suc max_retries) primary ++ opt_list fallback) w
  unfolding run_resilient
  run_resilient-eq-first_success max_retries w = attempts-eq (suc max_retries) 0 [] w

  attempts_history :
      (left attempt : ℕ) (errors : List ProcessingError) (w : W)
      → IsNumbered node 0 errors
      → length errors ≡ attempt
      → IsNumbered node 0 (errors_of (attempts step node primary fallback left attempt errors w).0)
        × WithinBudget
            (attempt + left + length (opt_list fallback))
            (attempts step node primary fallback left attempt errors w).0
  unfolding attempts
  attempts_history zero attempt errors w h e =
      fallback_history step node fallback attempt errors w h e
  attempts_history (suc left) attempt errors w h e = elim (Outcome-cases (primary w).0) [
    | inl (a, p) ↦ rw (p, attempts) (h, omega arith)
    | inr (exc, p) ↦
        let more = failure node (attempt + 1) "" exc in
        let (numbered, within) =
          attempts_history left (attempt + 1) (errors ++ more ∷ []) (primary w).1
            (IsNumbered-snoc node 0 errors more h refl (omega arith))
            (omega (arith, length-append errors (more ∷ []))) in
        rw (p, attempts)
          (
            numbered,
            subst
                (λ n.
                  WithinBudget n
                    (attempts step node primary fallback left (attempt + 1) (errors ++ more ∷ [])
                      (primary w).1).0)
                (omega arith) within,
          )
  ]

  -- Each error kept carries the node and the number of its call, from 1 on. The step is given up
  -- only after every call of the budget failed, and a success leaves fewer errors than that.
  pub run_resilient_history :
      (max_retries : ℕ) (w : W)
      → IsNumbered node 0 (errors_of (run_resilient step node primary fallback max_retries w).0)
        × WithinBudget
            (1 + max_retries + length (opt_list fallback))
            (run_resilient step node primary fallback max_retries w).0
  unfolding run_resilient
  run_resilient_history max_retries w =
      let (numbered, within) = attempts_history (suc max_retries) 0 [] w tt refl in
      (
        numbered,
        subst (λ n. WithinBudget n (attempts step node primary fallback (suc max_retries) 0 [] w).0)
            (omega arith) within,
      )
