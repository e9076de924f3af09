-- ===== src/Graph/Screening/Names.antt =====
-- Whom `_screening_names` of graph/nodes.py lists.
use kyc_agent_nordvik.Prelude.{
  ◌≡◌, refl, sym, subst, inl, inr, String, Bool, true, false, ◌||◌, Option, none, some, List, [],
  ◌∷◌, ◌++◌, ◌==◌, eq_iff, eq_refl, any, get, arith, Bool-cases, nonempty,
}
use kyc_agent_nordvik.Schemas.Documents.{text, BeneficialOwner}
use kyc_agent_nordvik.Schemas.Decisions.{ExtractionResult}
use kyc_agent_nordvik.Graph.Confidence.{has_error}
use kyc_agent_nordvik.Graph.State.{KycState}
use kyc_agent_nordvik.Graph.Screening.{
  add_name, add_opt, add_owners, nonblank, text_of, owners_of, is_person_doc, ScreeningNames,
  names_of_extraction, names_of_extractions, screening_names, start_names,
}

-- name in names
abbrev pub has : String → List String → Bool
has name names = any (λ m. m == name) names

has-add_name : (n m : String) (l : List String) → has n (add_name m l) ≡ (has n l || m == n)
unfolding add_name
has-add_name n m [] = ground arith
has-add_name n m (x ∷ l) = ground (arith, has-add_name n m l, eq_iff x m, eq_iff x n, eq_iff m n)

add_opt-keeps :
    (n : String) (o : Option String) (l : List String) → has n l ≡ true → has n (add_opt o l) ≡ true
add_opt-keeps n none l h = h
add_opt-keeps n (some m) l h = ground (arith, has-add_name n m l)

add_opt-adds : (n : String) (l : List String) → has n (add_opt (some n) l) ≡ true
add_opt-adds n l = ground (arith, has-add_name n n l, eq_refl n)

add_owners-keeps :
    (n : String) (os : List BeneficialOwner) (l : List String)
    → has n l ≡ true
    → has n (add_owners os l) ≡ true
unfolding add_owners
add_owners-keeps n [] l h = h
add_owners-keeps n (o ∷ os) l h =
    add_owners-keeps n os (add_opt (nonblank o.full_name) l)
      (add_opt-keeps n (nonblank o.full_name) l h)

add_opt-anywhere :
    (n : String) (o : Option String) (l : List String)
    → has n (add_opt o []) ≡ true
    → has n (add_opt o l) ≡ true
add_opt-anywhere n none l h = cc
add_opt-anywhere n (some m) l h = ground (arith, has-add_name n m l, has-add_name n m [])

-- An owner of this name stands in the list.
abbrev pub names_owner : String → List BeneficialOwner → Bool
names_owner n os = any (λ o. has n (add_opt (nonblank o.full_name) [])) os

add_owners-adds :
    (n : String) (os : List BeneficialOwner) (l : List String)
    → names_owner n os ≡ true
    → has n (add_owners os l) ≡ true
unfolding add_owners
add_owners-adds n [] l h = cc
add_owners-adds n (o ∷ os) l h = elim (Bool-cases (has n (add_opt (nonblank o.full_name) []))) [
  | inl e ↦
      add_owners-keeps n os (add_opt (nonblank o.full_name) l)
        (add_opt-anywhere n (nonblank o.full_name) l e)
  | inr e ↦ add_owners-adds n os (add_opt (nonblank o.full_name) l) (ground (arith, e, h))
]

-- What is listed stays listed.
record Covers (a b : ScreeningNames) : Type 0 where
  persons : (n : String) → has n a.persons ≡ true → has n b.persons ≡ true
  companies : (n : String) → has n a.companies ≡ true → has n b.companies ≡ true
  owner_names : (n : String) → has n a.owner_names ≡ true → has n b.owner_names ≡ true

names_of_extraction-Covers :
    (e : ExtractionResult) (a : ScreeningNames) → Covers a (names_of_extraction e a)
unfolding names_of_extraction
names_of_extraction-Covers e a = record {
  persons = λ n h. ground (arith, add_opt-keeps n (text_of (get "full_name" e.fields)) a.persons);
  companies =
      λ n h. ground (arith, add_opt-keeps n (text_of (get "company_name" e.fields)) a.companies);
  owner_names = λ n h.
      ground
        (arith, add_owners-keeps n (owners_of (get "beneficial_owners" e.fields)) a.owner_names);
}

names_of_extractions-Covers :
    (es : List ExtractionResult) (a : ScreeningNames) → Covers a (names_of_extractions es a)
unfolding names_of_extractions
names_of_extractions-Covers [] a = record {
  persons = λ n h. h;
  companies = λ n h. h;
  owner_names = λ n h. h;
}
names_of_extractions-Covers (e ∷ es) a =
    let step = names_of_extraction-Covers e a in
    let rest = names_of_extractions-Covers es (names_of_extraction e a) in
    record {
      persons = λ n h. rest.persons n (step.persons n h);
      companies = λ n h. rest.companies n (step.companies n h);
      owner_names = λ n h. rest.owner_names n (step.owner_names n h);
    }

-- The applicant's declared name is among the persons to screen, whatever was extracted.
pub applicant-screened :
    (s : KycState) → has s.kyc_package.applicant.full_name (screening_names s).persons ≡ true
unfolding screening_names
applicant-screened s =
    (names_of_extractions-Covers s.extractions (start_names s)).persons
      s.kyc_package.applicant.full_name (ground (arith, eq_refl s.kyc_package.applicant.full_name))

-- What a readable extraction brings, at its place in the list.
module _ (e : ExtractionResult) (readable : has_error e ≡ false) (n : String) where
  after_extraction :
      (before after : List ExtractionResult) (a : ScreeningNames)
      → ((b : ScreeningNames) → has n (names_of_extraction e b).owner_names ≡ true)
      → has n (names_of_extractions (before ++ e ∷ after) a).owner_names ≡ true
  unfolding names_of_extractions
  after_extraction [] after a h =
      (names_of_extractions-Covers after (names_of_extraction e a)).owner_names n (h a)
  after_extraction (x ∷ before) after a h =
      after_extraction before after (names_of_extraction x a) h

  after_extraction_person :
      (before after : List ExtractionResult) (a : ScreeningNames)
      → ((b : ScreeningNames) → has n (names_of_extraction e b).persons ≡ true)
      → has n (names_of_extractions (before ++ e ∷ after) a).persons ≡ true
  unfolding names_of_extractions
  after_extraction_person [] after a h =
      (names_of_extractions-Covers after (names_of_extraction e a)).persons n (h a)
  after_extraction_person (x ∷ before) after a h =
      after_extraction_person before after (names_of_extraction x a) h

  owner_of_extraction :
      names_owner n (owners_of (get "beneficial_owners" e.fields)) ≡ true
      → (b : ScreeningNames) → has n (names_of_extraction e b).owner_names ≡ true
  unfolding names_of_extraction
  owner_of_extraction h b =
      rw readable (add_owners-adds n (owners_of (get "beneficial_owners" e.fields)) b.owner_names h)

  person_of_extraction :
      is_person_doc e.doc_type ≡ true
      → get "full_name" e.fields ≡ some (text n)
      → (b : ScreeningNames) → has n (names_of_extraction e b).persons ≡ true
  unfolding names_of_extraction
  person_of_extraction doc h b = rw (readable, doc, h) (add_opt-adds n b.persons)

-- If an extraction of the case was read and lists a beneficial owner with a name that is not empty,
-- then that name is among the owners to screen.
pub owner-screened :
    (s : KycState) (before after : List ExtractionResult) (e : ExtractionResult) (n : String)
    → s.extractions ≡ before ++ e ∷ after
    → has_error e ≡ false
    → names_owner n (owners_of (get "beneficial_owners" e.fields)) ≡ true
    → has n (screening_names s).owner_names ≡ true
unfolding screening_names
owner-screened s before after e n at_place readable h =
    subst (λ es. has n (names_of_extractions es (start_names s)).owner_names ≡ true) (sym at_place)
      (after_extraction e readable n before after (start_names s)
        (owner_of_extraction e readable n h))

-- If an extraction of an identity document or a proof of address was read and has a full name, then
-- that name is among the persons to screen.
pub document_name-screened :
    (s : KycState) (before after : List ExtractionResult) (e : ExtractionResult) (n : String)
    → s.extractions ≡ before ++ e ∷ after
    → has_error e ≡ false
    → is_person_doc e.doc_type ≡ true
    → get "full_name" e.fields ≡ some (text n)
    → has n (screening_names s).persons ≡ true
unfolding screening_names
document_name-screened s before after e n at_place readable doc h =
    subst (λ es. has n (names_of_extractions es (start_names s)).persons ≡ true) (sym at_place)
      (after_extraction_person e readable n before after (start_names s)
        (person_of_extraction e readable n doc h))

nonempty_of_has : (n : String) (l : List String) → has n l ≡ true → nonempty l ≡ true
nonempty_of_has n [] h = cc
nonempty_of_has n (x ∷ l) h = refl

pub persons-nonempty : (s : KycState) → nonempty (screening_names s).persons ≡ true
persons-nonempty s =
    nonempty_of_has s.kyc_package.applicant.full_name (screening_names s).persons
      (applicant-screened s)
