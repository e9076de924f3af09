-- ===== src/Graph/Builder/Steps.antt =====
-- The nodes of graph/nodes.py against the invariant of the graph.
use kyc_agent_nordvik.Prelude.{
  ◌≡◌, refl, inl, inr, true, not, Option, none, some, List, [], ◌∷◌, ◌++◌, map, any-append,
  nonempty, nonempty-append, is_some, select, All, arith, String,
}
use kyc_agent_nordvik.Effects.Ensures.{Ensures, IfOk, skip-IfOk, pure-IfOk, fail-IfOk}
use kyc_agent_nordvik.Llm.Resilience.{Attempted, succeeded, exhausted}
use kyc_agent_nordvik.Rules.Validation.{check_package_completeness, Checked, done, raise}
use kyc_agent_nordvik.Rules.Validation.Run.{Findings}
use kyc_agent_nordvik.Schemas.Documents.{ClassifiedDocument, InputDocument}
use kyc_agent_nordvik.Schemas.Case.{CustomerType, individual, business}
use kyc_agent_nordvik.Schemas.Decisions.{ExtractionResult, ValidationReport, RuleFlag}
use kyc_agent_nordvik.Graph.State.{KycState, apply_update, ExtractTask}
use kyc_agent_nordvik.Graph.Context.{PipelineContext}
use kyc_agent_nordvik.Graph.Confidence.{has_error}
use kyc_agent_nordvik.Graph.Nodes.Base.{router, decision_gate}
use kyc_agent_nordvik.Graph.Nodes.Intake.{
  is_unknown, run_intake, routed, run_router, dispatch, run_orchestrator, orchestrate, send_tasks,
  extract_tasks, unreadable,
}
use kyc_agent_nordvik.Graph.Nodes.Extract.{extracted, run_extract_document}
use kyc_agent_nordvik.Graph.Nodes.Validate.{
  checked, validated, run_validator, Grounding, grounded, gave_up,
}
use kyc_agent_nordvik.Graph.Nodes.Score.{assess, assessment, ScreeningResult, run_risk_scorer}
use kyc_agent_nordvik.Graph.Builder.{at, todo, ready}
use kyc_agent_nordvik.Graph.Builder.Invariant.{
  Undecided, UpdateInv, CommandInv, ErrorsDegrade, IsComplete, known_types, SlotInv,
}

pub degrade_append :
    {A : Type 0} (e f : List ExtractionResult) (r s : List A)
    → ErrorsDegrade e r
    → ErrorsDegrade f s
    → ErrorsDegrade (e ++ f) (r ++ s)
degrade_append e f r s h k = ground (arith, any-append has_error e f, nonempty-append r s)

abbrev gave_up_router : String
gave_up_router = "router failed after retries and fallback"

none_failed : {A : Type 0} (r : List A) → ErrorsDegrade [] r
none_failed r e = cc

nonempty_snoc : {A : Type 0} (r : List A) (x : A) → nonempty (r ++ x ∷ []) ≡ true
nonempty_snoc [] x = refl
nonempty_snoc (y ∷ r) x = refl

All-todo : (ts : List ExtractTask) → All (SlotInv) (map todo ts)
All-todo [] = tt
All-todo (t ∷ ts) = (tt, All-todo ts)

extract_tasks-ne-nil :
    (case_id : String) (docs : List (String × InputDocument)) (known : List ClassifiedDocument)
    → nonempty known ≡ true
    → extract_tasks case_id docs known ≡ some []
    → ⊥
unfolding extract_tasks
extract_tasks-ne-nil case_id docs [] n e = cc
extract_tasks-ne-nil case_id docs (c ∷ known) n e = ground arith

-- A customer must hand in some document, so a complete package has one that was recognised.
known_of_complete :
    (customer : CustomerType) (cl : List ClassifiedDocument)
    → check_package_completeness customer (known_types cl) ≡ none
    → nonempty (select (λ c. not (is_unknown c)) cl) ≡ true
unfolding check_package_completeness
known_of_complete individual cl e = ground arith
known_of_complete business cl e = ground arith

module _ {W : Type 0} (ctx : PipelineContext W) (s : KycState) where
  pub intake-Inv : Undecided ctx s → Ensures (run_intake ctx s) (IfOk (UpdateInv ctx s (at router)))
  unfolding run_intake apply_update
  intake-Inv h = skip-IfOk _ _ (λ _. pure-IfOk _ (
    h.0,
    h.1,
    degrade_append s.extractions [] s.degraded_reasons [] h.2 (none_failed {A = String} []),
  ))

  routed-Inv :
      (answer : Attempted (List ClassifiedDocument))
      → Undecided ctx s
      → Ensures (routed ctx s answer) (IfOk (CommandInv ctx s))
  unfolding routed apply_update
  routed-Inv (exhausted step errs) h = skip-IfOk _ _ (λ _. pure-IfOk _ (
    (h.0, h.1, λ _. nonempty_snoc s.degraded_reasons gave_up_router),
    nonempty_snoc s.degraded_reasons gave_up_router,
  ))
  routed-Inv (succeeded c errs) h = skip-IfOk _ _ (λ _. pure-IfOk _ (
    h.0,
    h.1,
    degrade_append s.extractions [] s.degraded_reasons [] h.2 (none_failed {A = String} []),
  ))

  pub router-Inv : Undecided ctx s → Ensures (run_router ctx s) (IfOk (CommandInv ctx s))
  unfolding run_router
  router-Inv h = skip-IfOk _ _ (λ answer. routed-Inv answer h)

  kept :
      (u : List String)
      → Undecided ctx s
      → ErrorsDegrade (s.extractions ++ []) (s.degraded_reasons ++ u)
  kept u h = degrade_append s.extractions [] s.degraded_reasons u h.2 (none_failed u)

  send-Inv :
      (unk : List ClassifiedDocument) (o : Option (List ExtractTask))
      → (o ≡ some [] → ⊥)
      → Undecided ctx s
      → IsComplete s.kyc_package s.classified_documents
      → Ensures (send_tasks ctx unk o) (IfOk (CommandInv ctx s))
  unfolding send_tasks apply_update
  send-Inv unk none some_task h c = fail-IfOk _
  send-Inv unk (some []) some_task h c = absurd (some_task refl)
  send-Inv unk (some (t ∷ ts)) some_task h c =
      pure-IfOk _ ((h.0, h.1, kept (map unreadable unk) h), c, (tt, All-todo ts))

  incomplete-Inv :
      (known unk : List ClassifiedDocument) (flag : RuleFlag)
      → Undecided ctx s
      → Ensures (dispatch ctx s known unk (some flag)) (IfOk (CommandInv ctx s))
  unfolding dispatch apply_update
  incomplete-Inv known unk flag h =
      skip-IfOk _ _ (λ _. pure-IfOk _ (h.0, (kept (map unreadable unk) h, inr (inl refl))))

  complete-Inv :
      (known unk : List ClassifiedDocument)
      → nonempty known ≡ true
      → Undecided ctx s
      → IsComplete s.kyc_package s.classified_documents
      → Ensures (dispatch ctx s known unk none) (IfOk (CommandInv ctx s))
  unfolding dispatch
  complete-Inv known unk n h c =
      skip-IfOk _ _ (λ _. send-Inv unk _ (extract_tasks-ne-nil s.case_id _ known n) h c)

  dispatch-Inv :
      (known unk : List ClassifiedDocument) (c : Option RuleFlag)
      → Undecided ctx s
      → (c ≡ none → (nonempty known ≡ true) × IsComplete s.kyc_package s.classified_documents)
      → Ensures (dispatch ctx s known unk c) (IfOk (CommandInv ctx s))
  dispatch-Inv known unk (some flag) h k = incomplete-Inv known unk flag h
  dispatch-Inv known unk none h k = complete-Inv known unk (k refl).0 h (k refl).1

  orchestrate-Inv :
      (o : Option (List ClassifiedDocument))
      → s.classified_documents ≡ o
      → Undecided ctx s
      → Ensures (orchestrate ctx s o) (IfOk (CommandInv ctx s))
  unfolding orchestrate
  orchestrate-Inv none e h = fail-IfOk _
  orchestrate-Inv (some cl) e h = skip-IfOk _ _ (λ _. dispatch-Inv _ _ _ h (λ none_missing. (
    known_of_complete s.kyc_package.customer_type cl none_missing,
    record { documents = cl; classified = e; none_missing = none_missing },
  )))

  pub orchestrator-Inv :
      Undecided ctx s → Ensures (run_orchestrator ctx s) (IfOk (CommandInv ctx s))
  unfolding run_orchestrator
  orchestrator-Inv h = orchestrate-Inv s.classified_documents refl h

  -- A worker's update.
  extracted-Inv :
      (task : ExtractTask) (answer : Attempted ExtractionResult)
      → Ensures (extracted ctx task answer) (IfOk (λ u. SlotInv (ready u)))
  unfolding extracted
  extracted-Inv task (exhausted step errs) =
      skip-IfOk _ _ (λ _. pure-IfOk _ (refl, refl, refl, refl, λ _. refl))
  extracted-Inv task (succeeded result errs) =
      skip-IfOk _ _ (λ _. pure-IfOk _ (refl, refl, refl, refl, λ e. ground arith))

  pub worker-Inv :
      (task : ExtractTask) → Ensures (run_extract_document ctx task) (IfOk (λ u. SlotInv (ready u)))
  unfolding run_extract_document
  worker-Inv task = skip-IfOk _ _ (extracted-Inv task)

  validated-Inv :
      (found : Findings) (g : Grounding)
      → Undecided ctx s
      → IsComplete s.kyc_package s.classified_documents
      → Ensures (validated ctx s found g) (IfOk (CommandInv ctx s))
  unfolding validated apply_update
  validated-Inv found (gave_up errs) h c = pure-IfOk _ (
    (h.0, h.1, kept _ h),
    nonempty_snoc s.degraded_reasons "validator failed after retries and fallback",
  )
  validated-Inv found (grounded flags) h c =
      skip-IfOk _ _ (λ _. skip-IfOk _ _ (λ _. pure-IfOk _ ((h.0, h.1, kept [] h), c, refl)))

  checked-Inv :
      (found : Checked Findings)
      → Undecided ctx s
      → IsComplete s.kyc_package s.classified_documents
      → Ensures (checked ctx s found) (IfOk (CommandInv ctx s))
  unfolding checked
  checked-Inv (raise e) h c = fail-IfOk _
  checked-Inv (done found) h c = skip-IfOk _ _ (λ g. validated-Inv found g h c)

  pub validator-Inv :
      Undecided ctx s × IsComplete s.kyc_package s.classified_documents
      → Ensures (run_validator ctx s) (IfOk (CommandInv ctx s))
  unfolding run_validator
  validator-Inv (h, c) = checked-Inv _ h c

  assess-Inv :
      (v : Option ValidationReport)
      → s.validation ≡ v
      → is_some v ≡ true
      → (r : ScreeningResult) → Undecided ctx s
      → IsComplete s.kyc_package s.classified_documents
      → Ensures (assess ctx s r) (IfOk (UpdateInv ctx s (at decision_gate)))
  unfolding assess apply_update
  assess-Inv none e n r h c = cc
  assess-Inv (some v) e n r h c = skip-IfOk _ _ (λ narration. skip-IfOk _ _ (λ _.
      skip-IfOk _ _ (λ _. pure-IfOk _ (
        h.0,
        (
          kept [] h,
          inr (
              inr (
                c,
                record {
                  report = v;
                  validated = e;
                  result = r;
                  risk = assessment ctx s r narration;
                  assessed = refl;
                  triggers = refl;
                  sanctions_shown = refl;
                  pep_shown = refl;
                },
              )),
        ),
      ))))

  pub risk_scorer-Inv :
      Undecided ctx s
        × IsComplete s.kyc_package s.classified_documents
        × (is_some s.validation ≡ true)
      → Ensures (run_risk_scorer ctx s) (IfOk (UpdateInv ctx s (at decision_gate)))
  unfolding run_risk_scorer
  risk_scorer-Inv (h, c, v) = skip-IfOk _ _ (λ r. assess-Inv s.validation refl v r h c)
