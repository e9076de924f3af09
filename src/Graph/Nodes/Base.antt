-- ===== src/Graph/Nodes/Base.antt =====
-- What the nodes of graph/nodes.py share: where a node sends the case, `emit` and the retries.
use kyc_agent_nordvik.Prelude.{String, Option, List, [], ◌∷◌, put}
use kyc_agent_nordvik.Effects.{Call, Run, ok, await}
use kyc_agent_nordvik.Audit.Sink.{Payload}
use kyc_agent_nordvik.Llm.Base.{PipelineStep}
use kyc_agent_nordvik.Llm.Resilience.{Attempted, run_resilient}
use kyc_agent_nordvik.Schemas.Documents.{InputDocument}
use kyc_agent_nordvik.Graph.State.{ExtractTask, Update}
use kyc_agent_nordvik.Graph.Context.{PipelineContext}

-- The names that builder.py gives to the nodes.
pub data NodeName : Type 0 where
  intake router orchestrator extract_document validator risk_scorer decision_gate : NodeName
  auto_decision human_review finalize handle_error : NodeName

pub data Goto : Type 0 where
  to : NodeName → Goto
  sends : List ExtractTask → Goto

pub record Command : Type 0 where
  pub goto : Goto
  pub update : Update

-- {d.document_id: d for d in documents}: of two with one id, the later.
unfoldable pub index_from :
    List (String × InputDocument) → List InputDocument → List (String × InputDocument)
index_from dict [] = dict
index_from dict (d ∷ documents) = index_from (put d.document_id d dict) documents

unfoldable pub docs_by_id : List InputDocument → List (String × InputDocument)
unfolding index_from
docs_by_id = index_from []

module _ {W : Type 0} (ctx : PipelineContext W) where
  -- emit of audit/sink.py, on the context's sink; the event's time is that of the clock.
  unfoldable pub emit : (case_id node event_type : String) → Payload → Run W (Unit {0})
  unfolding await
  emit case_id node event_type payload w =
      await
        (ctx.audit.emit (record {
          case_id = case_id;
          ts = ctx.now w;
          node = node;
          event_type = event_type;
          payload = payload;
        }))
        w

  -- `run_resilient` under `try`: a StepExhaustedError is a value that the node looks at.
  unfoldable pub resilient :
      {A : Type 0} → PipelineStep → String → Call W A → Option (Call W A) → Run W (Attempted A)
  resilient step node primary fallback w =
      let (r, w') = run_resilient step node primary fallback ctx.settings.max_step_retries w in
      (ok r, w')
