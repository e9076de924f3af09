-- ===== src/Eval/Golden/Cases.antt =====
-- The golden set of eval/generate_golden_set.py, and the gate of eval/run_eval.py on it.
use kyc_agent_nordvik.Prelude.{
  ◌≡◌, refl, sym, subst, ◌↔◌, ◌<◌, String, Bool, true, false, ◌&&◌, not, some, List, [], ◌∷◌, map,
  any, nonempty, length, arith, select, ◌||◌, ◌⊎◌, inl, inr, ap, ◌∙◌, ◌==◌, ℕ,
}
use kyc_agent_nordvik.Python.{Python}
use kyc_agent_nordvik.Effects.{Exception, Outcome, value, raised}
use kyc_agent_nordvik.Schemas.Documents.{BeneficialOwner}
use kyc_agent_nordvik.Graph.State.{KycState}
use kyc_agent_nordvik.Eval.Summary.{
  GoldenCase, Row, Summary, IsRounding, row_of, cons_row, run_single_case, run_cases, run_config,
  with_summary, exit_code, should_escalate,
}
use kyc_agent_nordvik.Eval.Gate.{is_missed, nonempty-length, exit_code-zero_iff}
use kyc_agent_nordvik.Eval.Golden.{CaseDict, golden_of}
use kyc_agent_nordvik.Eval.Golden.Individuals.{
  clean_individual_1, clean_individual_2, clean_individual_3, clean_individual_4,
  clean_individual_5, address_mismatch_warning, expired_document, incomplete_package,
}
use kyc_agent_nordvik.Eval.Golden.Escalations.{
  name_mismatch_critical, sanctions_hit, pep_match, high_volume, corrupted_document,
  hallucination_bait,
}
use kyc_agent_nordvik.Eval.Golden.Businesses.{
  business_clean, business_clean_2, business_ubo_sanctions,
}

module _ (py : Python) where
  -- CASES
  abbrev pub all_cases : List CaseDict
  all_cases =
      clean_individual_1 py
      ∷ clean_individual_2 py
      ∷ clean_individual_3 py
      ∷ clean_individual_4 py
      ∷ clean_individual_5 py
      ∷ address_mismatch_warning py
      ∷ expired_document py
      ∷ incomplete_package py
      ∷ name_mismatch_critical py
      ∷ sanctions_hit py
      ∷ pep_match py
      ∷ high_volume py
      ∷ corrupted_document py
      ∷ hallucination_bait py
      ∷ business_clean py
      ∷ business_clean_2 py
      ∷ business_ubo_sanctions py
      ∷ []

  abbrev pub golden_set : List GoldenCase
  golden_set = map golden_of all_cases

-- The cases that a human is to see.
abbrev pub human_cases : List String
human_cases =
    "name-mismatch-critical" ∷ "sanctions-hit" ∷ "pep-match" ∷ "high-volume" ∷ "corrupted-document"
    ∷ "hallucination-bait" ∷ "business-ubo-sanctions" ∷ []

-- The run of a case raised; it was interrupted for a human.
abbrev pub failed : Outcome (KycState × Bool) → Bool
failed (raised exc) = true
failed (value result) = false

abbrev pub stopped : Outcome (KycState × Bool) → Bool
stopped (raised exc) = false
stopped (value (state, interrupted)) = interrupted

module _ (casefold : String → String) (str_owners : List BeneficialOwner → String)
    (run : GoldenCase → Outcome (KycState × Bool)) where
  -- A row for each case, with what the case expects and what its run did.
  abbrev Fits : List GoldenCase → List Row → Type 0
  Fits [] [] = Unit
  Fits [] (r ∷ rows) = ⊥
  Fits (c ∷ cases) [] = ⊥
  Fits (c ∷ cases) (r ∷ rows) =
      (r.expected_escalation ≡ c.expected.escalation)
      × (r.predicted_escalation ≡ stopped (run c))
      × Fits cases rows

  -- A run over the cases raises, as one of them did, or it has their rows.
  abbrev Ran : List GoldenCase → Bool → Outcome (List Row) → Type 0
  Ran cases any_failed o =
      (((exc : Exception) × (o ≡ raised exc)) × (any_failed ≡ true))
      ⊎ ((rows : List Row) × (o ≡ value rows) × Fits cases rows × (any_failed ≡ false))

  run_single_case-Ran :
      (c : GoldenCase) (cases : List GoldenCase) (o : Outcome (KycState × Bool))
      (rest : Outcome (List Row)) (b : Bool)
      → run c ≡ o
      → Ran cases b rest
      → Ran (c ∷ cases) (failed o || b) (run_single_case casefold str_owners run c o rest)
  unfolding row_of
  run_single_case-Ran c cases (raised exc) rest b e h = inl ((exc, refl), refl)
  run_single_case-Ran c cases (value (s, i)) rest b e (inl ((exc, f), g)) =
      inl ((exc, ap (cons_row (row_of casefold str_owners c s i)) f), g)
  run_single_case-Ran c cases (value (s, i)) rest b e (inr (rows, f, fits, g)) = inr (
    row_of casefold str_owners c s i ∷ rows,
    ap (cons_row (row_of casefold str_owners c s i)) f,
    (refl, ap stopped (sym e), fits),
    g,
  )

  run_cases-Ran :
      (cases : List GoldenCase)
      → Ran cases (any (λ c. failed (run c)) cases) (run_cases casefold str_owners run cases)
  unfolding run_cases
  run_cases-Ran [] = inr ([], refl, tt, refl)
  run_cases-Ran (c ∷ cases) = run_single_case-Ran c cases (run c) _ _ refl (run_cases-Ran cases)

  missed-any :
      (cases : List GoldenCase) (rows : List Row)
      → Fits cases rows
      → any is_missed rows ≡ any (λ c. c.expected.escalation && not (stopped (run c))) cases
  missed-any [] [] h = refl
  missed-any (c ∷ cases) [] h = absurd h
  missed-any [] (r ∷ rows) h = absurd h
  missed-any (c ∷ cases) (r ∷ rows) (e, p, h) = rw (e, p, missed-any cases rows h) refl

  due-length :
      (cases : List GoldenCase) (rows : List Row)
      → Fits cases rows
      → length (should_escalate rows) ≡ length (select (λ c. c.expected.escalation) cases)
  due-length [] [] h = refl
  due-length (c ∷ cases) [] h = absurd h
  due-length [] (r ∷ rows) h = absurd h
  due-length (c ∷ cases) (r ∷ rows) (e, p, h) = ground (arith, e, due-length cases rows h)

-- The case is one of those that a human is to see.
abbrev pub is_for_human : GoldenCase → Bool
is_for_human c = any (λ id. id == c.case_id) human_cases

escalation-any :
    (py : Python) (f : GoldenCase → Bool)
    → any (λ c. c.expected.escalation && f c) (golden_set py)
      ≡ any (λ c. is_for_human c && f c) (golden_set py)
escalation-any py f = refl

module _ (ratio : ℕ → ℕ → ℕ) (casefold : String → String)
    (str_owners : List BeneficialOwner → String) (zero_division : Exception) where
  abbrev pub evaluated :
      (GoldenCase → Outcome (KycState × Bool)) → List GoldenCase → Outcome (Summary × List Row)
  evaluated run cases = run_config ratio casefold str_owners zero_division run cases

  nonempty_rows :
      (run : GoldenCase → Outcome (KycState × Bool)) (cases : List GoldenCase) (rows : List Row)
      → Fits casefold str_owners run cases rows
      → nonempty cases ≡ true
      → nonempty rows ≡ true
  nonempty_rows run [] rows h e = cc
  nonempty_rows run (c ∷ cases) [] h e = absurd h
  nonempty_rows run (c ∷ cases) (r ∷ rows) h e = refl

  fails_second :
      (o : Outcome (Summary × List Row)) (exc : Exception)
      → exit_code false o (raised exc) ≡ some 0
      → ⊥
  fails_second (raised e) exc x = cc
  fails_second (value a) exc x = cc

  gated :
      (py : Python) (full ablation : GoldenCase → Outcome (KycState × Bool)) (rows rows' : List Row)
      → IsRounding ratio
      → Fits casefold str_owners full (golden_set py) rows
      → Fits casefold str_owners ablation (golden_set py) rows'
      → (exit_code false
            (with_summary ratio zero_division (value rows))
            (with_summary ratio zero_division (value rows'))
          ≡ some 0)
        ↔ (any (λ c. is_for_human c && not (stopped (full c))) (golden_set py) ≡ false)
  gated py full ablation rows rows' rounding fits fits' =
      let due = due-length casefold str_owners full (golden_set py) rows fits in
      let missed =
        missed-any casefold str_owners full (golden_set py) rows fits
        ∙ escalation-any py (λ c. not (stopped (full c))) in
      let (f, g) =
        exit_code-zero_iff ratio rounding zero_division rows rows'
          (subst (λ n. n < 20000) (sym due) (omega arith))
          (nonempty_rows ablation (golden_set py) rows' fits' refl) in
      let some_due =
        (nonempty-length (should_escalate rows)).1 (subst (λ n. 0 < n) (sym due) (omega arith)) in
      (λ e. sym missed ∙ (f e).1, λ m. g (some_due, missed ∙ m))

  -- With rounding as Python's, whatever the runs of the pipeline on the cases of the golden set come
  -- to, a full evaluation exits with 0 exactly when no run of a case raised, in either of the two
  -- configurations, and the full pipeline stopped for a human at each of the seven cases with the
  -- ids in `human_cases`.
  pub golden_set-exit_code :
      (py : Python) (full ablation : GoldenCase → Outcome (KycState × Bool))
      → IsRounding ratio
      → (exit_code false (evaluated full (golden_set py)) (evaluated ablation (golden_set py))
          ≡ some 0)
        ↔ ((any (λ c. failed (full c)) (golden_set py) ≡ false)
            × (any (λ c. failed (ablation c)) (golden_set py) ≡ false)
            × (any (λ c. is_for_human c && not (stopped (full c))) (golden_set py) ≡ false))
  unfolding run_config
  golden_set-exit_code py full ablation rounding =
      elim (run_cases-Ran casefold str_owners full (golden_set py)) [
        | inl ((exc, e), f) ↦ rw e (λ x. cc, λ (a, _, _). cc (a, f))
        | inr (rows, e, fits, ok) ↦
            elim (run_cases-Ran casefold str_owners ablation (golden_set py)) [
              | inl ((exc, g), f) ↦
                  rw (e, g)
                    (
                      λ x.
                          absurd
                            (fails_second (with_summary ratio zero_division (value rows)) exc x),
                      λ (_, b, _). cc (b, f),
                    )
              | inr (rows', g, fits', ok') ↦
                  let (go, back) = gated py full ablation rows rows' rounding fits fits' in
                  rw (e, g) (λ x. (ok, ok', go x), λ (_, _, m). back m)
            ]
      ]
