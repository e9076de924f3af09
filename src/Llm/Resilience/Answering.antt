-- ===== src/Llm/Resilience/Answering.antt =====
-- What `run_resilient` hands on of the services' answers.
use kyc_agent_nordvik.Prelude.{
  ℕ, zero, suc, ◌+◌, String, Option, none, some, List, ◌∷◌, [], ◌++◌, inl, inr, subst,
}
use kyc_agent_nordvik.Effects.{Outcome-cases, Call}
use kyc_agent_nordvik.Llm.Base.{PipelineStep}
use kyc_agent_nordvik.Llm.Contract.{Answers}
use kyc_agent_nordvik.Llm.Resilience.{
  Attempted, succeeded, exhausted, failure, run_fallback, attempts, run_resilient,
}
use kyc_agent_nordvik.Schemas.Decisions.{ProcessingError}

-- `P` of the result, if there is one.
abbrev pub IfSucceeded : {A : Type 0} → (A → Type 0) → Attempted A → Type 0
IfSucceeded P (succeeded a errors) = P a
IfSucceeded P (exhausted step errors) = Unit

-- Every answer of the fallback satisfies `P`, if there is a fallback.
abbrev pub OptAnswers : {W A : Type 0} → (A → Type 0) → Option (Call W A) → Type 0
OptAnswers P none = Unit
OptAnswers P (some call) = (w : _) → Answers P (call w).0

option-IfSucceeded :
    {W A : Type 0} (P : A → Type 0) (step : PipelineStep) (node : String)
    (fallback : Option (Call W A))
    → OptAnswers P fallback
    → (attempt : ℕ) (errors : List ProcessingError) (w : W)
    → IfSucceeded P (run_fallback step node fallback attempt errors w).0
unfolding run_fallback
option-IfSucceeded P step node none h attempt errors w = tt
option-IfSucceeded P step node (some call) h attempt errors w = elim (Outcome-cases (call w).0) [
  | inl (a, e) ↦ rw (e, run_fallback) (subst (Answers P) e (h w))
  | inr (exc, e) ↦ rw (e, run_fallback) tt
]

module _ {W A : Type 0} (P : A → Type 0) (step : PipelineStep) (node : String) (primary : Call W A)
    (fallback : Option (Call W A)) (primary_answers : (w : W) → Answers P (primary w).0)
    (fallback_answers : OptAnswers P fallback) where
  fallback-IfSucceeded :
      (attempt : ℕ) (errors : List ProcessingError) (w : W)
      → IfSucceeded P (run_fallback step node fallback attempt errors w).0
  fallback-IfSucceeded attempt errors w =
      option-IfSucceeded P step node fallback fallback_answers attempt errors w

  attempts-IfSucceeded :
      (left attempt : ℕ) (errors : List ProcessingError) (w : W)
      → IfSucceeded P (attempts step node primary fallback left attempt errors w).0
  unfolding attempts
  attempts-IfSucceeded zero attempt errors w = fallback-IfSucceeded attempt errors w
  attempts-IfSucceeded (suc left) attempt errors w = elim (Outcome-cases (primary w).0) [
    | inl (a, e) ↦ rw (e, attempts) (subst (Answers P) e (primary_answers w))
    | inr (exc, e) ↦
        rw (e, attempts)
          (attempts-IfSucceeded left (attempt + 1)
            (errors ++ failure node (attempt + 1) "" exc ∷ []) (primary w).1)
  ]

  -- What holds of every answer of the service and of its fallback holds of the result.
  pub run_resilient-IfSucceeded :
      (max_retries : ℕ) (w : W)
      → IfSucceeded P (run_resilient step node primary fallback max_retries w).0
  unfolding run_resilient
  run_resilient-IfSucceeded max_retries w = attempts-IfSucceeded (suc max_retries) 0 [] w
