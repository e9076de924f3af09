-- ===== src/Graph/Nodes/Score/Hits.antt =====
-- A name that a registry lists, in `_screen` and `risk_scorer` of graph/nodes.py.
use kyc_agent_nordvik.Prelude.{
  ◌≡◌, sym, subst, ◌∙◌, ap, ◌⊎◌, inl, inr, String, concat, Bool, true, false, not, ◌&&◌, ◌||◌, ◌==◌,
  eq_iff, none, some, List, [], ◌∷◌, ◌++◌, any-append, arith, nonempty, nonempty-append, Bool-cases,
  if◌then◌else◌,
}
use kyc_agent_nordvik.Effects.Ensures.{Ensures, IfOk, skip-IfOk, bind-IfOk, pure-IfOk}
use kyc_agent_nordvik.Llm.Base.{PipelineStep}
use kyc_agent_nordvik.Llm.Contract.{Answers}
use kyc_agent_nordvik.Llm.Resilience.{succeeded, exhausted}
use kyc_agent_nordvik.Llm.Resilience.Answering.{IfSucceeded, run_resilient-IfSucceeded}
use kyc_agent_nordvik.Rules.Risk.Triggers.{fired, fired-evaluate_risk_rules}
use kyc_agent_nordvik.Schemas.Ids
use kyc_agent_nordvik.Schemas.Ids.{RuleId}
use kyc_agent_nordvik.Schemas.Decisions.{RegistryHit, sanctions, pep, registry_value}
use kyc_agent_nordvik.Graph.State.{KycState, Update}
use kyc_agent_nordvik.Graph.Context.{PipelineContext, RegistryClient}
use kyc_agent_nordvik.Graph.Screening.{screen, screen_from, ScreeningNames}
use kyc_agent_nordvik.Graph.Screening.Names.{has}
use kyc_agent_nordvik.Graph.Nodes.Base.{resilient}
use kyc_agent_nordvik.Graph.Nodes.Score.{
  ScreeningResult, screen_all, screen_owners, screened_owners, triggered_by, confidence_of,
  flags_of, unavailable_of, risk_thresholds, assess,
}

-- Each search for the name fails or answers with a hit.
abbrev pub Lists : {W : Type 0} → RegistryClient W → String → Type 0
Lists {W} client name = (w : W) → Answers (λ hits. nonempty hits ≡ true) (client.search name w).0

-- There is a hit, or the registry did not answer.
abbrev is_flagged : List RegistryHit × Bool → Bool
is_flagged (hits, ok) = nonempty hits || not ok

module _ {W : Type 0} (ctx : PipelineContext W) (client : RegistryClient W) (case_id : String) where
  screen_from-keeps :
      (hits : List RegistryHit) (names : List String)
      → nonempty hits ≡ true
      → Ensures (screen_from ctx client case_id hits names) (IfOk (λ r. is_flagged r ≡ true))
  unfolding screen_from
  screen_from-keeps hits [] h = pure-IfOk _ (ground (arith, h))
  screen_from-keeps hits (m ∷ names) h = skip-IfOk _ _ (elim [
    | succeeded found errs ↦ skip-IfOk _ _ (λ _.
        screen_from-keeps (hits ++ found) names
          (nonempty-append hits found ∙ ap (λ b. b || nonempty found) h))
    | exhausted step errs ↦ skip-IfOk _ _ (λ _. pure-IfOk _ (ground (arith, h)))
  ])

  searched :
      (name : String)
      → Lists client name
      → Ensures
          (resilient ctx PipelineStep.risk
            (concat ("risk:" ∷ registry_value client.registry ∷ []))
            (client.search name)
            none)
          (IfOk (IfSucceeded (λ hits. nonempty hits ≡ true)))
  unfolding resilient
  searched name h = record {
    at = λ w.
        run_resilient-IfSucceeded (λ hits. nonempty hits ≡ true) PipelineStep.risk _
          (client.search name) none h tt ctx.settings.max_step_retries w;
  }

  right_nonempty : (a b : List RegistryHit) → nonempty b ≡ true → nonempty (a ++ b) ≡ true
  right_nonempty a b h = nonempty-append a b ∙ ground (arith, h)

  screen_from-flags :
      (hits : List RegistryHit) (names : List String) (name : String)
      → Lists client name
      → has name names ≡ true
      → Ensures (screen_from ctx client case_id hits names) (IfOk (λ r. is_flagged r ≡ true))
  unfolding screen_from
  screen_from-flags hits [] name l h = cc
  screen_from-flags hits (m ∷ names) name l h = elim (Bool-cases (m == name)) [
    | inl e ↦
        bind-IfOk _ _ (searched m (subst (Lists client) (sym ((eq_iff m name).0 e)) l)) (elim [
          | succeeded found errs ↦ λ k.
              skip-IfOk _ _
                (λ _. screen_from-keeps (hits ++ found) names (right_nonempty hits found k))
          | exhausted step errs ↦ λ k. skip-IfOk _ _ (λ _. pure-IfOk _ (ground arith))
        ])
    | inr e ↦ skip-IfOk _ _ (elim [
      | succeeded found errs ↦
          skip-IfOk _ _ (λ _. screen_from-flags (hits ++ found) names name l (ground (arith, e, h)))
      | exhausted step errs ↦ skip-IfOk _ _ (λ _. pure-IfOk _ (ground arith))
    ])
  ]

  screen-flags :
      (names : List String) (name : String)
      → Lists client name
      → has name names ≡ true
      → Ensures (screen ctx client case_id names) (IfOk (λ r. is_flagged r ≡ true))
  unfolding screen
  screen-flags names name l h = screen_from-flags [] names name l h

-- A risk assessment has this rule among its triggers, or REGISTRY_UNAVAILABLE.
abbrev pub Escalates : RuleId → Update → Type 0
Escalates rule u = elim u.risk [
  | none ↦ ⊥
  | some r ↦
      (fired rule r.triggered_rules || fired Ids.registry_unavailable r.triggered_rules) ≡ true
]

missing :
    (hit a b : Bool)
    → (hit || not (a && b)) ≡ true
    → (hit || nonempty ((if a then [] else sanctions ∷ []) ++ (if b then [] else pep ∷ []))) ≡ true
missing hit true true h = ground (arith, h)
missing hit true false h = ground arith
missing hit false b h = ground arith

module _ {W : Type 0} (ctx : PipelineContext W) (s : KycState) where
  abbrev triggered_rule : RuleId → ScreeningResult → Bool
  triggered_rule rule r = fired rule (triggered_by ctx s.kyc_package s.validation r)

  outage_fires :
      (r : ScreeningResult)
      → triggered_rule Ids.registry_unavailable r ≡ nonempty (unavailable_of r)
  outage_fires r =
      fired-evaluate_risk_rules ctx.python s.kyc_package.customer_type
        s.kyc_package.applicant.expected_monthly_volume_eur (confidence_of s.validation)
        (flags_of s.validation) r.sanctions_hits r.pep_hits r.ubo_hits (unavailable_of r)
        (risk_thresholds ctx.settings) Ids.registry_unavailable

  assess-Escalates :
      (r : ScreeningResult) (rule : RuleId) (hit : Bool)
      → triggered_rule rule r ≡ hit
      → (hit || not (r.sanctions_ok && r.pep_ok)) ≡ true
      → Ensures (assess ctx s r) (IfOk (Escalates rule))
  unfolding assess
  assess-Escalates r rule hit e h =
      let fires =
        ap (λ b. b || triggered_rule Ids.registry_unavailable r) e
        ∙ ap (λ b. hit || b) (outage_fires r)
        ∙ missing hit r.sanctions_ok r.pep_ok h in
      skip-IfOk _ _ (λ narration. skip-IfOk _ _ (λ _. skip-IfOk _ _ (λ _. pure-IfOk _ fires)))

  pub sanctions-Escalates :
      (r : ScreeningResult)
      → (nonempty r.sanctions_hits || not r.sanctions_ok) ≡ true
      → Ensures (assess ctx s r) (IfOk (Escalates Ids.sanctions_hit))
  sanctions-Escalates r h =
      assess-Escalates r Ids.sanctions_hit (nonempty r.sanctions_hits)
        (fired-evaluate_risk_rules ctx.python s.kyc_package.customer_type
          s.kyc_package.applicant.expected_monthly_volume_eur (confidence_of s.validation)
          (flags_of s.validation) r.sanctions_hits r.pep_hits r.ubo_hits (unavailable_of r)
          (risk_thresholds ctx.settings) Ids.sanctions_hit)
        (ground (arith, h))

  pub pep-Escalates :
      (r : ScreeningResult)
      → (nonempty r.pep_hits || not r.pep_ok) ≡ true
      → Ensures (assess ctx s r) (IfOk (Escalates Ids.pep_match))
  pep-Escalates r h =
      assess-Escalates r Ids.pep_match (nonempty r.pep_hits)
        (fired-evaluate_risk_rules ctx.python s.kyc_package.customer_type
          s.kyc_package.applicant.expected_monthly_volume_eur (confidence_of s.validation)
          (flags_of s.validation) r.sanctions_hits r.pep_hits r.ubo_hits (unavailable_of r)
          (risk_thresholds ctx.settings) Ids.pep_match)
        (ground (arith, h))

  pub owner-Escalates :
      (r : ScreeningResult)
      → (nonempty r.ubo_hits || not (r.sanctions_ok && r.pep_ok)) ≡ true
      → Ensures (assess ctx s r) (IfOk (Escalates Ids.ubo_sanctions_or_pep))
  owner-Escalates r h =
      assess-Escalates r Ids.ubo_sanctions_or_pep (nonempty r.ubo_hits)
        (fired-evaluate_risk_rules ctx.python s.kyc_package.customer_type
          s.kyc_package.applicant.expected_monthly_volume_eur (confidence_of s.validation)
          (flags_of s.validation) r.sanctions_hits r.pep_hits r.ubo_hits (unavailable_of r)
          (risk_thresholds ctx.settings) Ids.ubo_sanctions_or_pep)
        h

  -- The screening of the owners takes no hit away, and no outage.
  owners-keep_sanctions :
      (names : List String) (r : ScreeningResult)
      → (nonempty r.sanctions_hits || not r.sanctions_ok) ≡ true
      → Ensures
          (screened_owners ctx s names r)
          (IfOk (λ q. (nonempty q.sanctions_hits || not q.sanctions_ok) ≡ true))
  unfolding screened_owners
  owners-keep_sanctions [] r h = pure-IfOk r h
  owners-keep_sanctions (m ∷ names) r h =
      skip-IfOk _ _ (λ found. skip-IfOk _ _ (λ pep_found. pure-IfOk _ (ground (arith, h))))

  owners-keep_pep :
      (names : List String) (r : ScreeningResult)
      → (nonempty r.pep_hits || not r.pep_ok) ≡ true
      → Ensures
          (screened_owners ctx s names r)
          (IfOk (λ q. (nonempty q.pep_hits || not q.pep_ok) ≡ true))
  unfolding screened_owners
  owners-keep_pep [] r h = pure-IfOk r h
  owners-keep_pep (m ∷ names) r h =
      skip-IfOk _ _ (λ found. skip-IfOk _ _ (λ pep_found. pure-IfOk _ (ground (arith, h))))

  has_left : (name : String) (a b : List String) → has name a ≡ true → has name (a ++ b) ≡ true
  has_left name a b h = any-append (λ m. m == name) a b ∙ ap (λ x. x || has name b) h

  pub screen_all-sanctions :
      (names : ScreeningNames) (name : String)
      → Lists ctx.sanctions name
      → has name names.persons ≡ true
      → Ensures
          (screen_all ctx s names)
          (IfOk (λ q. (nonempty q.sanctions_hits || not q.sanctions_ok) ≡ true))
  unfolding screen_all screen_owners
  screen_all-sanctions names name l h =
      bind-IfOk _ _
        (screen-flags ctx ctx.sanctions s.case_id (names.persons ++ names.companies) name l
          (has_left name names.persons names.companies h))
        (λ found k. skip-IfOk _ _ (λ pep_found. owners-keep_sanctions names.owner_names _ k))

  pub screen_all-pep :
      (names : ScreeningNames) (name : String)
      → Lists ctx.pep name
      → has name names.persons ≡ true
      → Ensures (screen_all ctx s names) (IfOk (λ q. (nonempty q.pep_hits || not q.pep_ok) ≡ true))
  unfolding screen_all screen_owners
  screen_all-pep names name l h = skip-IfOk _ _ (λ found.
      bind-IfOk _ _ (screen-flags ctx ctx.pep s.case_id names.persons name l h)
        (λ pep_found k. owners-keep_pep names.owner_names _ k))

  either :
      (a b : List RegistryHit) (x y p q : Bool)
      → ((nonempty a || not x) ≡ true) ⊎ ((nonempty b || not y) ≡ true)
      → (nonempty (a ++ b) || not ((p && x) && (q && y))) ≡ true
  either a b x y p q h = rw (nonempty-append a b) (ground (arith, h))

  screened_owners-flags :
      (names : List String) (r : ScreeningResult) (name : String)
      → Lists ctx.sanctions name ⊎ Lists ctx.pep name
      → has name names ≡ true
      → Ensures
          (screened_owners ctx s names r)
          (IfOk (λ q. (nonempty q.ubo_hits || not (q.sanctions_ok && q.pep_ok)) ≡ true))
  unfolding screened_owners
  screened_owners-flags [] r name l h = cc
  screened_owners-flags (m ∷ names) r name (inl l) h =
      bind-IfOk _ _ (screen-flags ctx ctx.sanctions s.case_id (m ∷ names) name l h) (λ found k.
        skip-IfOk _ _ (λ pep_found.
          pure-IfOk _
            (either found.0 pep_found.0 found.1 pep_found.1 r.sanctions_ok r.pep_ok (inl k))))
  screened_owners-flags (m ∷ names) r name (inr l) h = skip-IfOk _ _ (λ found.
      bind-IfOk _ _ (screen-flags ctx ctx.pep s.case_id (m ∷ names) name l h) (λ pep_found k.
        pure-IfOk _
          (either found.0 pep_found.0 found.1 pep_found.1 r.sanctions_ok r.pep_ok (inr k))))

  pub screen_all-owners :
      (names : ScreeningNames) (name : String)
      → Lists ctx.sanctions name ⊎ Lists ctx.pep name
      → has name names.owner_names ≡ true
      → Ensures
          (screen_all ctx s names)
          (IfOk (λ q. (nonempty q.ubo_hits || not (q.sanctions_ok && q.pep_ok)) ≡ true))
  unfolding screen_all screen_owners
  screen_all-owners names name l h =
      skip-IfOk _ _
        (λ found. skip-IfOk _ _ (λ pep_found. screened_owners-flags names.owner_names _ name l h))
