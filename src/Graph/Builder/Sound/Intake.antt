-- ===== src/Graph/Builder/Sound/Intake.antt =====
-- The nodes of graph/nodes.py up to the extraction of the documents.
use kyc_agent_nordvik.Prelude.{
  ◌≡◌, refl, sym, subst, inl, inr, String, Bool, true, not, Option, none, some, List, [], ◌∷◌, map,
  select, All, Bool-cases, Option-cases,
}
use kyc_agent_nordvik.Effects.Ensures.{
  Ensures, Returns, Anything, bind-Returns, skip-Returns, pure-Returns,
}
use kyc_agent_nordvik.Llm.Base.{PipelineStep}
use kyc_agent_nordvik.Llm.Contract.{Covers, Reads}
use kyc_agent_nordvik.Llm.Resilience.{Attempted, succeeded, exhausted}
use kyc_agent_nordvik.Llm.Resilience.Answering.{IfSucceeded}
use kyc_agent_nordvik.Rules.Validation.Reading.{usable-IsReadable}
use kyc_agent_nordvik.Schemas.Documents.{InputDocument, ClassifiedDocument}
use kyc_agent_nordvik.Schemas.Case.{KycPackage}
use kyc_agent_nordvik.Schemas.Decisions.{RuleFlag, ExtractionResult}
use kyc_agent_nordvik.Graph.State.{KycState, ExtractTask, apply_update}
use kyc_agent_nordvik.Graph.Context.{PipelineContext}
use kyc_agent_nordvik.Graph.Nodes.Base.{router, docs_by_id}
use kyc_agent_nordvik.Graph.Nodes.Lookup.{knows, knows-documents, get-docs_by_id, found-docs_by_id}
use kyc_agent_nordvik.Graph.Nodes.Quiet.{emit-Returns, resilient-IfSucceeded}
use kyc_agent_nordvik.Graph.Nodes.Intake.{
  run_intake, routed, run_router, extract_tasks, report_unreadable, send_tasks, dispatch,
  orchestrate, run_orchestrator, is_unknown,
}
use kyc_agent_nordvik.Graph.Nodes.Extract.{extracted, run_extract_document}
use kyc_agent_nordvik.Graph.Builder.{at, todo}
use kyc_agent_nordvik.Graph.Builder.Sound.{
  Serves, Honours, Fits, SlotFits, Sound, Classified, UpdateSound, CommandSound, kept,
}

-- Who covers the documents is known with them.
Covers-known :
    (all documents : List InputDocument) (cl : List ClassifiedDocument)
    → Covers documents cl
    → All (λ d. knows all d.document_id ≡ true) documents
    → All (λ c. knows all c.document_id ≡ true) cl
Covers-known all [] [] e h = tt
Covers-known all [] (c ∷ cl) e h = cc
Covers-known all (d ∷ documents) [] e h = cc
Covers-known all (d ∷ documents) (c ∷ cl) e h =
    let same : d.document_id ≡ c.document_id = cc in
    (subst (λ id. knows all id ≡ true) same h.0, Covers-known all documents cl (cc) h.1)

All-select_of :
    {A : Type 0} (P : A → Type 0) (p : A → Bool) (xs : List A) → All P xs → All P (select p xs)
All-select_of P p [] h = tt
All-select_of P p (x ∷ xs) h = elim (Bool-cases (p x)) [
  | inl e ↦ rw e (h.0, All-select_of P p xs h.1)
  | inr e ↦ rw e (All-select_of P p xs h.1)
]

module _ {W : Type 0} (ctx : PipelineContext W) where
  abbrev TaskFits : KycPackage → ExtractTask → Type 0
  TaskFits p task = SlotFits ctx p (todo task)

  abbrev TasksFit : KycPackage → Option (List ExtractTask) → Type 0
  TasksFit p none = ⊥
  TasksFit p (some tasks) = All (TaskFits p) tasks

  -- Every document that was recognised is found among the documents of the package.
  extract_tasks-TasksFit :
      (p : KycPackage) (case_id : String) (known : List ClassifiedDocument)
      → All (Serves ctx) p.documents
      → All (λ c. knows p.documents c.document_id ≡ true) known
      → TasksFit p (extract_tasks case_id (docs_by_id p.documents) known)
  unfolding extract_tasks
  extract_tasks-TasksFit p case_id [] serves h = tt
  extract_tasks-TasksFit p case_id (c ∷ known) serves h =
      let (d, found) = get-docs_by_id c.document_id p.documents h.0 in
      let (served, same) = found-docs_by_id (Serves ctx) p.documents c.document_id d serves found in
      let rest = extract_tasks-TasksFit p case_id known serves h.1 in
      elim (Option-cases (extract_tasks case_id (docs_by_id p.documents) known)) [
        | inl e ↦ absurd (subst (TasksFit p) e rest)
        | inr (tasks, e) ↦
            rw (found, e, extract_tasks)
              (
                (served, subst (λ id. knows p.documents id ≡ true) (sym same) h.0),
                subst (TasksFit p) e rest,
              )
      ]

  All-todo :
      (p : KycPackage) (tasks : List ExtractTask)
      → All (TaskFits p) tasks
      → All (SlotFits ctx p) (map todo tasks)
  All-todo p [] h = tt
  All-todo p (task ∷ tasks) h = (h.0, All-todo p tasks h.1)

  module _ (s : KycState) (sound : Sound ctx s) where
    pub intake-Sound : Ensures (run_intake ctx s) (Returns (UpdateSound ctx s (at router)))
    unfolding run_intake apply_update
    intake-Sound =
        skip-Returns _ _ (emit-Returns ctx sound.0.quiet _ _ _ _)
          (λ _. pure-Returns _ (kept ctx s sound))

    routed-Sound :
        (answer : Attempted (List ClassifiedDocument))
        → IfSucceeded (Covers s.kyc_package.documents) answer
        → Ensures (routed ctx s answer) (Returns (CommandSound ctx s))
    unfolding routed apply_update
    routed-Sound (exhausted step errs) h =
        skip-Returns _ _ (emit-Returns ctx sound.0.quiet _ _ _ _)
          (λ _. pure-Returns _ (kept ctx s sound))
    routed-Sound (succeeded cl errs) h =
        skip-Returns _ _ (emit-Returns ctx sound.0.quiet _ _ _ _) (λ _. pure-Returns _ (
          kept ctx s sound,
          (
            cl,
            refl,
            Covers-known s.kyc_package.documents s.kyc_package.documents cl h
                (knows-documents s.kyc_package.documents),
          ),
        ))

    pub router-Sound : Ensures (run_router ctx s) (Returns (CommandSound ctx s))
    unfolding run_router
    router-Sound =
        bind-Returns _ _
          (resilient-IfSucceeded ctx (Covers s.kyc_package.documents) PipelineStep.router "router" _
            _ (sound.0.classify s.kyc_package.documents s.kyc_package.customer_type)
            (sound.0.classify_fallback s.kyc_package.documents s.kyc_package.customer_type))
          routed-Sound

    report_unreadable-Returns :
        (reasons : List String) → Ensures (report_unreadable ctx s reasons) (Returns Anything)
    unfolding report_unreadable
    report_unreadable-Returns [] = pure-Returns _ tt
    report_unreadable-Returns (reason ∷ reasons) =
        skip-Returns _ _ (emit-Returns ctx sound.0.quiet _ _ _ _)
          (λ _. report_unreadable-Returns reasons)

    send_tasks-Sound :
        (unk : List ClassifiedDocument) (o : Option (List ExtractTask))
        → TasksFit s.kyc_package o
        → Ensures (send_tasks ctx unk o) (Returns (CommandSound ctx s))
    unfolding send_tasks apply_update
    send_tasks-Sound unk none h = absurd h
    send_tasks-Sound unk (some []) h = pure-Returns _ tt
    send_tasks-Sound unk (some (task ∷ tasks)) h =
        pure-Returns _ (kept ctx s sound, (h.0, All-todo s.kyc_package tasks h.1))

    dispatch-Sound :
        (known unk : List ClassifiedDocument) (flag : Option RuleFlag)
        → All (λ c. knows s.kyc_package.documents c.document_id ≡ true) known
        → Ensures (dispatch ctx s known unk flag) (Returns (CommandSound ctx s))
    unfolding dispatch apply_update
    dispatch-Sound known unk (some flag) h =
        skip-Returns _ _ (emit-Returns ctx sound.0.quiet _ _ _ _)
          (λ _. pure-Returns _ (kept ctx s sound))
    dispatch-Sound known unk none h =
        skip-Returns _ _ (emit-Returns ctx sound.0.quiet _ _ _ _) (λ _.
          send_tasks-Sound unk _
            (extract_tasks-TasksFit s.kyc_package s.case_id known sound.0.serves h))

    orchestrate-Sound :
        (o : Option (List ClassifiedDocument)) (cl : List ClassifiedDocument)
        → o ≡ some cl
        → All (λ c. knows s.kyc_package.documents c.document_id ≡ true) cl
        → Ensures (orchestrate ctx s o) (Returns (CommandSound ctx s))
    unfolding orchestrate
    orchestrate-Sound none cl e h = cc
    orchestrate-Sound (some classified) cl e h =
        let known : All (λ c. knows s.kyc_package.documents c.document_id ≡ true) classified =
          subst (All (λ c. knows s.kyc_package.documents c.document_id ≡ true)) (cc) h in
        skip-Returns _ _ (report_unreadable-Returns _)
          (λ _. dispatch-Sound _ _ _ (All-select_of _ (λ c. not (is_unknown c)) classified known))

    pub orchestrator-Sound :
        Classified ctx s → Ensures (run_orchestrator ctx s) (Returns (CommandSound ctx s))
    unfolding run_orchestrator
    orchestrator-Sound (cl, e, h) = orchestrate-Sound s.classified_documents cl e h

  module _ (p : KycPackage) (honours : Honours ctx p) (task : ExtractTask)
      (fits : SlotFits ctx p (todo task)) where
    extracted-Fits :
        (answer : Attempted ExtractionResult)
        → IfSucceeded (Reads ctx.python task.document task.doc_type) answer
        → Ensures (extracted ctx task answer) (Returns (λ u. All (Fits ctx p) u.extractions))
    unfolding extracted
    extracted-Fits (exhausted step errs) h =
        skip-Returns _ _ (emit-Returns ctx honours.quiet _ _ _ _)
          (λ _. pure-Returns _ ((fits.1, usable-IsReadable ctx.python [] tt), tt))
    extracted-Fits (succeeded r errs) (same, _, readable) =
        skip-Returns _ _ (emit-Returns ctx honours.quiet _ _ _ _) (λ _.
          pure-Returns _
            ((subst (λ id. knows p.documents id ≡ true) (sym same) fits.1, readable), tt))

    pub worker-Fits :
        Ensures (run_extract_document ctx task) (Returns (λ u. All (Fits ctx p) u.extractions))
    unfolding run_extract_document
    worker-Fits =
        bind-Returns _ _
          (resilient-IfSucceeded ctx (Reads ctx.python task.document task.doc_type)
            PipelineStep.extractor _ _ _ (fits.0.0 task.doc_type) (fits.0.1 task.doc_type))
          extracted-Fits
