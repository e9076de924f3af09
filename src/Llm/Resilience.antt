-- ===== src/Llm/Resilience.antt =====
-- llm/resilience.py: bounded retries of a step, then one attempt of its fallback. The warnings
-- that it logs are left out.
pub mod Budget
pub mod Answering
pub mod Worlds
use kyc_agent_nordvik.Prelude.{
  ℕ, zero, suc, ◌+◌, String, Option, none, some, List, [], ◌∷◌, ◌++◌, concat,
}
use kyc_agent_nordvik.Effects.{Exception, Outcome, value, raised, Call}
use kyc_agent_nordvik.Llm.Base.{PipelineStep}
use kyc_agent_nordvik.Schemas.Decisions.{ProcessingError}

-- A pair of the result and the errors on the way, or StepExhaustedError.
pub data Attempted (A : Type 0) : Type 0 where
  succeeded : A → List ProcessingError → Attempted A
  exhausted : PipelineStep → List ProcessingError → Attempted A

abbrev pub failure : (node : String) (attempt : ℕ) (prefix : String) → Exception → ProcessingError
failure node attempt prefix exc = record {
  node = node;
  error_type = exc.type_name;
  message = concat (prefix ∷ exc.message ∷ []);
  attempt = attempt;
}

module _ {W A : Type 0} (step : PipelineStep) (node : String) where
  -- The part after the loop, with `attempt` calls made.
  run_fallback : Option (Call W A) → (attempt : ℕ) → List ProcessingError → W → Attempted A × W
  run_fallback none attempt errors w = (exhausted step errors, w)
  run_fallback (some fallback) attempt errors w =
      let (answer, w') = fallback w in
      elim answer [
        | value a ↦ (succeeded a errors, w')
        | raised exc ↦
            (exhausted step (errors ++ failure node (attempt + 1) "fallback failed: " exc ∷ []), w')
      ]

  -- The loop, with `left` of its rounds to go.
  attempts :
      (primary : Call W A) (fallback : Option (Call W A)) (left attempt : ℕ)
      → List ProcessingError
      → W
      → Attempted A × W
  unfolding run_fallback
  attempts primary fallback zero attempt errors w = run_fallback fallback attempt errors w
  attempts primary fallback (suc left) attempt errors w =
      let (answer, w') = primary w in
      elim answer [
        | value a ↦ (succeeded a errors, w')
        | raised exc ↦
            attempts primary fallback left (attempt + 1)
              (errors ++ failure node (attempt + 1) "" exc ∷ []) w'
      ]

  unfoldable pub run_resilient :
      (primary : Call W A) (fallback : Option (Call W A)) (max_retries : ℕ) → W → Attempted A × W
  unfolding attempts
  run_resilient primary fallback max_retries w = attempts primary fallback (suc max_retries) 0 [] w
