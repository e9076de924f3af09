-- ===== src/Graph/Nodes/Decide/Reviews.antt =====
-- The loop of `human_review` in graph/nodes.py, over the values that a case is resumed with.
use kyc_agent_nordvik.Prelude.{
  ℕ, ◌≡◌, refl, sym, ap, ◌∙◌, ◌↔◌, eq_iff, concat, All, ◌++◌, arith, ◌⊎◌, inl, inr, String, Option,
  none, some, List, [], ◌∷◌,
}
use kyc_agent_nordvik.Schemas.Decisions.{HumanDecision, ReviewOutcome, approved, rejected}
use kyc_agent_nordvik.Graph.State.{KycState}
use kyc_agent_nordvik.Graph.Nodes.Decide.{
  RawField, missing, other, outcome_field, reviewer_field, comment_field, assemble, ResumeValue,
  mapping, not_a_mapping, text, Validated, valid, invalid, model_validate, decided, review_loop,
}

abbrev outcome_text : ReviewOutcome → String
outcome_text approved = "approve"
outcome_text rejected = "reject"

-- `decision.model_dump()`, the value that `CaseService.review` resumes a case with.
abbrev pub model_dump : HumanDecision → ResumeValue
model_dump h = mapping (text (outcome_text h.outcome)) (text h.reviewer) (text h.comment)

outcome_dump :
    (o : ReviewOutcome) (r c : String)
    → model_validate (mapping (text (outcome_text o)) (text r) (text c))
      ≡ valid (record { outcome = o; reviewer = r; comment = c })
unfolding model_validate
outcome_dump approved r c = refl
outcome_dump rejected r c = refl

-- A human decision that is dumped to a mapping, as the API does it to resume a case, passes
-- `model_validate` and comes out unchanged.
pub model_validate-model_dump : (h : HumanDecision) → model_validate (model_dump h) ≡ valid h
unfolding model_validate
model_validate-model_dump h = outcome_dump h.outcome h.reviewer h.comment

Validated-cases :
    (v : Validated) → ((h : HumanDecision) × (v ≡ valid h)) ⊎ ((n : ℕ) × (v ≡ invalid n))
Validated-cases (valid h) = inl (h, refl)
Validated-cases (invalid n) = inr (n, refl)

-- The value is a mapping that says this: an outcome "approve" or "reject" and a reviewer, both
-- texts, and a comment that is a text too, or missing and then empty.
abbrev pub Says : ResumeValue → HumanDecision → Type 0
Says v h =
    (comment : RawField) × (v ≡ mapping (text (outcome_text h.outcome)) (text h.reviewer) comment)
    × ((comment ≡ text h.comment) ⊎ ((comment ≡ missing) × (h.comment ≡ "")))

-- It says no decision at all.
abbrev pub IsMalformed : ResumeValue → Type 0
IsMalformed v = (h : HumanDecision) → ¬ Says v h

valid-inj : (a b : HumanDecision) → valid a ≡ valid b → a ≡ b
valid-inj a b e = cc

valid-ne-invalid : (h : HumanDecision) (n : ℕ) → valid h ≡ invalid n → ⊥
valid-ne-invalid h n e = cc

outcome_read :
    (f : RawField) (o : ReviewOutcome) → outcome_field f ≡ some o → f ≡ text (outcome_text o)
outcome_read missing o e = cc
outcome_read other o e = cc
outcome_read (text s) approved e = ap text ((eq_iff s "approve").0 (ground (arith, e)))
outcome_read (text s) rejected e = ap text ((eq_iff s "reject").0 (ground (arith, e)))

reviewer_read : (f : RawField) (s : String) → reviewer_field f ≡ some s → f ≡ text s
reviewer_read missing s e = cc
reviewer_read other s e = cc
reviewer_read (text r) s e = cc

comment_read :
    (f : RawField) (s : String)
    → comment_field f ≡ some s
    → (f ≡ text s) ⊎ ((f ≡ missing) × (s ≡ ""))
comment_read missing s e = inr (refl, cc)
comment_read other s e = cc
comment_read (text c) s e = inl cc

assemble-valid :
    (o : Option ReviewOutcome) (r c : Option String) (h : HumanDecision)
    → assemble o r c ≡ valid h
    → (o ≡ some h.outcome) × (r ≡ some h.reviewer) × (c ≡ some h.comment)
assemble-valid (some o) (some r) (some c) h e =
    let f = valid-inj (record { outcome = o; reviewer = r; comment = c }) h e in
    (ap (λ h. some h.outcome) f, ap (λ h. some h.reviewer) f, ap (λ h. some h.comment) f)
assemble-valid none r c h e = cc
assemble-valid (some o) none c h e = cc
assemble-valid (some o) (some r) none h e = cc

valid-Says : (v : ResumeValue) (h : HumanDecision) → model_validate v ≡ valid h → Says v h
unfolding model_validate
valid-Says not_a_mapping h e = cc
valid-Says (mapping o r c) h e =
    let (a, b, d) = assemble-valid (outcome_field o) (reviewer_field r) (comment_field c) h e in
    (
      c,
      ap (λ o. mapping o r c) (outcome_read o h.outcome a)
          ∙ ap (λ r. mapping (text (outcome_text h.outcome)) r c) (reviewer_read r h.reviewer b),
      comment_read c h.comment d,
    )

dump_without_comment :
    (o : ReviewOutcome) (r : String)
    → model_validate (mapping (text (outcome_text o)) (text r) missing)
      ≡ valid (record { outcome = o; reviewer = r; comment = "" })
unfolding model_validate
dump_without_comment approved r = refl
dump_without_comment rejected r = refl

Says-valid : (v : ResumeValue) (h : HumanDecision) → Says v h → model_validate v ≡ valid h
Says-valid v h (c, e, inl f) =
    ap model_validate (e ∙ ap (mapping (text (outcome_text h.outcome)) (text h.reviewer)) f)
    ∙ model_validate-model_dump h
Says-valid v h (c, e, inr (f, g)) =
    ap model_validate (e ∙ ap (mapping (text (outcome_text h.outcome)) (text h.reviewer)) f)
    ∙ dump_without_comment h.outcome h.reviewer
    ∙ ap (λ s. valid (record { outcome = h.outcome; reviewer = h.reviewer; comment = s })) (sym g)

invalid-IsMalformed : (v : ResumeValue) (n : ℕ) → model_validate v ≡ invalid n → IsMalformed v
invalid-IsMalformed v n e h s = valid-ne-invalid h n (sym (Says-valid v h s) ∙ e)

-- The values hold a decision behind others that say none.
abbrev pub FirstSaid : List ResumeValue → HumanDecision → Type 0
FirstSaid values h =
    (before : List ResumeValue) × (v : ResumeValue) × (after : List ResumeValue) × (values
      ≡ before ++ v ∷ after)
    × All IsMalformed before
    × Says v h

decided-inj : (a b : HumanDecision) → decided a ≡ decided b → a ≡ b
decided-inj a b e = cc

module _ (int_str : ℕ → String) (state : KycState) where
  abbrev complaint : ℕ → String
  complaint n = concat ("invalid review payload: " ∷ int_str n ∷ " validation error(s)" ∷ [])

  passed :
      (before : List ResumeValue) (v : ResumeValue) (after : List ResumeValue)
      (error : Option String) (h : HumanDecision)
      → All IsMalformed before
      → Says v h
      → review_loop int_str state error (before ++ v ∷ after) ≡ decided h
  unfolding review_loop
  passed [] v after error h bad says = rw (Says-valid v h says, review_loop) refl
  passed (u ∷ before) v after error h (b, bad) says = elim (Validated-cases (model_validate u)) [
    | inl (d, f) ↦ absurd (b d (valid-Says u d f))
    | inr (n, f) ↦ rw (f, review_loop) (passed before v after _ h bad says)
  ]

  taken :
      (values : List ResumeValue) (error : Option String) (h : HumanDecision)
      → review_loop int_str state error values ≡ decided h
      → FirstSaid values h
  unfolding review_loop
  taken [] error h e = cc
  taken (v ∷ vs) error h e = elim (Validated-cases (model_validate v)) [
    | inl (d, f) ↦
        let e' : decided d ≡ decided h = sym (rw (f, review_loop) refl) ∙ e in
        ([], v, vs, refl, tt, valid-Says v h (f ∙ ap valid (decided-inj d h e')))
    | inr (n, f) ↦
        let e' : review_loop int_str state (some (complaint n)) vs ≡ decided h =
          sym (rw (f, review_loop) refl) ∙ e in
        let (before, u, after, at_place, bad, says) = taken vs _ h e' in
        (v ∷ before, u, after, ap (λ l. v ∷ l) at_place, (invalid-IsMalformed v n f, bad), says)
  ]

  -- The loop ends with a decision exactly when some value that the case is resumed with says it, and
  -- every value before that says none: a decision is a mapping of an outcome "approve" or "reject", a
  -- reviewer, and a comment that may be left out.
  pub review_loop-decided_iff :
      (values : List ResumeValue) (error : Option String) (h : HumanDecision)
      → (review_loop int_str state error values ≡ decided h) ↔ FirstSaid values h
  review_loop-decided_iff values error h = (
    taken values error h,
    λ (before, v, after, e, bad, says).
        ap (review_loop int_str state error) e ∙ passed before v after error h bad says,
  )
