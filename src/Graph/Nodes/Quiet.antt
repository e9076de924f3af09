-- ===== src/Graph/Nodes/Quiet.antt =====
-- `emit` and `run_resilient` as the nodes of graph/nodes.py call them: when they return.
use kyc_agent_nordvik.Prelude.{◌≡◌, String, Option, some}
use kyc_agent_nordvik.Effects.{Call, Outcome, raised, value, await, uncaught_outcome}
use kyc_agent_nordvik.Effects.Ensures.{Ensures, Returns, Anything}
use kyc_agent_nordvik.Audit.Sink.{IsQuiet, Payload}
use kyc_agent_nordvik.Llm.Base.{PipelineStep}
use kyc_agent_nordvik.Llm.Contract.{Answers}
use kyc_agent_nordvik.Llm.Resilience.Answering.{IfSucceeded, run_resilient-IfSucceeded}
use kyc_agent_nordvik.Graph.Context.{PipelineContext}
use kyc_agent_nordvik.Graph.Nodes.Base.{resilient, emit}

Returns-value :
    {A : Type 0} (o : Outcome A) (a : A) → o ≡ value a → Returns Anything (uncaught_outcome o)
Returns-value (value b) a e = tt
Returns-value (raised exc) a e = cc

module _ {W : Type 0} (ctx : PipelineContext W) (quiet : IsQuiet ctx.audit) where
  pub emit-Returns :
      (case_id node event_type : String) (payload : Payload)
      → Ensures (emit ctx case_id node event_type payload) (Returns Anything)
  unfolding emit await
  emit-Returns case_id node event_type payload = record { at = λ w. Returns-value _ tt (quiet _ w) }

module _ {W : Type 0} (ctx : PipelineContext W) where
  pub resilient-Returns :
      {A : Type 0} (step : PipelineStep) (node : String) (primary : Call W A)
      (fallback : Option (Call W A))
      → Ensures (resilient ctx step node primary fallback) (Returns Anything)
  unfolding resilient
  resilient-Returns step node primary fallback = record { at = λ w. tt }

  -- It returns, and what holds of every answer of both services holds of its result.
  pub resilient-IfSucceeded :
      {A : Type 0} (P : A → Type 0) (step : PipelineStep) (node : String)
      (primary fallback : Call W A)
      → ((w : W) → Answers P (primary w).0)
      → ((w : W) → Answers P (fallback w).0)
      → Ensures (resilient ctx step node primary (some fallback)) (Returns (IfSucceeded P))
  unfolding resilient
  resilient-IfSucceeded P step node primary fallback h k = record {
    at = λ w.
        run_resilient-IfSucceeded P step node primary (some fallback) h k
          ctx.settings.max_step_retries w;
  }
