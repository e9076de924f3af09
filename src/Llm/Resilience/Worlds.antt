-- ===== src/Llm/Resilience/Worlds.antt =====
-- How the retries of llm/resilience.py change the outside world.
use kyc_agent_nordvik.Prelude.{
  ℕ, zero, suc, ◌+◌, String, Option, none, some, List, [], ◌∷◌, ◌++◌, inl, inr,
}
use kyc_agent_nordvik.Effects.{Outcome-cases, Call}
use kyc_agent_nordvik.Effects.Tracks.{IsPreorder, CallTracks}
use kyc_agent_nordvik.Llm.Base.{PipelineStep}
use kyc_agent_nordvik.Llm.Resilience.{failure, run_fallback, attempts, run_resilient}
use kyc_agent_nordvik.Schemas.Decisions.{ProcessingError}

abbrev pub FallbackTracks : {W A : Type 0} → (W → W → Type 0) → Option (Call W A) → Type 0
FallbackTracks R none = Unit
FallbackTracks R (some fallback) = CallTracks R fallback

module _ {W A : Type 0} {R : W → W → Type 0} (order : IsPreorder R) (step : PipelineStep)
    (node : String) (primary : Call W A) (fallback : Option (Call W A)) (h : CallTracks R primary)
    (k : FallbackTracks R fallback) where
  run_fallback-R :
      (o : Option (Call W A))
      → FallbackTracks R o
      → (attempt : ℕ) (errors : List ProcessingError) (w : W)
      → R w (run_fallback step node o attempt errors w).1
  unfolding run_fallback
  run_fallback-R none k attempt errors w = order.stays w
  run_fallback-R (some call) k attempt errors w = elim (Outcome-cases (call w).0) [
    | inl (a, e) ↦ rw (e, run_fallback) (k.at w)
    | inr (exc, e) ↦ rw (e, run_fallback) (k.at w)
  ]

  attempts-R :
      (left attempt : ℕ) (errors : List ProcessingError) (w : W)
      → R w (attempts step node primary fallback left attempt errors w).1
  unfolding attempts
  attempts-R zero attempt errors w = run_fallback-R fallback k attempt errors w
  attempts-R (suc left) attempt errors w = elim (Outcome-cases (primary w).0) [
    | inl (a, e) ↦ rw (e, attempts) (h.at w)
    | inr (exc, e) ↦
        rw (e, attempts)
          (order.joins (h.at w) (
            attempts-R left (attempt + 1) (errors ++ failure node (attempt + 1) "" exc ∷ [])
              (primary w).1))
  ]

  -- What every call of both services does to the world, the retries do to it.
  pub run_resilient-R :
      (max_retries : ℕ) (w : W) → R w (run_resilient step node primary fallback max_retries w).1
  unfolding run_resilient
  run_resilient-R max_retries w = attempts-R (suc max_retries) 0 [] w
