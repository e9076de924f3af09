-- ===== src/Rules/Validation/Run.antt =====
-- `run_validation_rules` of rules/validation.py: the pass over all extracted documents.
use mathlib.Core.Option
use kyc_agent_nordvik.Prelude.{
  String, Bool, false, is_some, Option, none, some, List, [], ◌∷◌, ◌++◌, truthy, opt_list,
  if◌then◌else◌,
}
use kyc_agent_nordvik.Python.{Python, Date}
use kyc_agent_nordvik.Schemas.Ids
use kyc_agent_nordvik.Schemas.Documents.{
  id_document, proof_of_address, business_registration, ubo_declaration, unknown, DocumentType,
}
use kyc_agent_nordvik.Schemas.Case.{ApplicantDeclared}
use kyc_agent_nordvik.Schemas.Decisions.{RuleFlag, FieldCheck, ExtractionResult}
use kyc_agent_nordvik.Rules.Validation.{
  Checked, done, raise, value_error, text_if, expiry_field, ◌>>=◌, MatchThresholds, text_field,
  check_name, check_exact, check_address, check_document_expiry, check_extraction_completeness,
}

-- The lists `checks` and `flags`, or the part of them that one document adds.
pub record Findings : Type 0 where
  pub checks : List FieldCheck
  pub flags : List RuleFlag

abbrev pub no_findings : Findings
no_findings = record { checks = []; flags = [] }

-- `append` for each flag or check that is not None.
infixr 65 ◌then◌
abbrev pub ◌then◌ : Findings → Findings → Findings
a then b = record { checks = a.checks ++ b.checks; flags = a.flags ++ b.flags }

abbrev pub only_flags : List RuleFlag → Findings
only_flags flags = record { checks = []; flags = flags }

abbrev pub found : FieldCheck × Option RuleFlag → Findings
found r = record { checks = r.0 ∷ []; flags = opt_list r.1 }

abbrev pub found_opt : Option FieldCheck × Option RuleFlag → Findings
found_opt r = record { checks = opt_list r.0; flags = opt_list r.1 }

module _ (py : Python) where
  -- date.fromisoformat(raw) if raw else None
  unfoldable pub parse_expiry : Option String → Checked (Option Date)
  parse_expiry none = done none
  parse_expiry (some raw) =
      if truthy raw
      then elim (py.fromisoformat raw) [ none ↦ raise value_error | some d ↦ done (some d) ]
      else done none

  -- `if applicant.company_name:`
  abbrev pub is_declared : Option String → Bool
  is_declared none = false
  is_declared (some declared) = truthy declared

  check_company : ApplicantDeclared → Option String → MatchThresholds → Findings
  check_company applicant extracted t = elim applicant.company_name [
    | none ↦ no_findings
    | some declared ↦
        if truthy declared
        then found (check_name py declared extracted t Ids.company_name_mismatch "company_name")
        else no_findings
  ]

  -- The body of the loop, by the document's type.
  unfoldable pub type_rules :
      ApplicantDeclared
      → Date
      → MatchThresholds
      → DocumentType
      → ExtractionResult
      → Checked Findings
  unfolding text_field text_if expiry_field check_name check_exact check_address
      check_document_expiry parse_expiry check_company
  type_rules applicant today t id_document extraction = do
    full_name ← text_field "full_name" extraction.fields
    date_of_birth ← text_if (is_some applicant.date_of_birth) "date_of_birth" extraction.fields
    expiry_raw ← expiry_field extraction.fields
    expiry ← parse_expiry expiry_raw
    done (
        found (check_name py applicant.full_name full_name t Ids.name_mismatch "full_name")
        then found_opt (
            check_exact py (Option.map py.isoformat applicant.date_of_birth) date_of_birth
              Ids.dob_mismatch "date_of_birth")
        then only_flags (opt_list (check_document_expiry py expiry today)))
  type_rules applicant today t proof_of_address extraction = do
    address ← text_field "address" extraction.fields
    done (found_opt (check_address py applicant.address address t))
  type_rules applicant today t business_registration extraction = do
    company_name ← text_if (is_declared applicant.company_name) "company_name" extraction.fields
    registration_number ←
        text_if (is_some applicant.registration_number) "registration_number" extraction.fields
    done (
        check_company applicant company_name t
        then found_opt (
            check_exact py applicant.registration_number registration_number Ids.reg_number_mismatch
              "registration_number"))
  type_rules applicant today t ubo_declaration extraction = done no_findings
  type_rules applicant today t unknown extraction = done no_findings

  unfoldable pub document_rules :
      ApplicantDeclared → Date → MatchThresholds → ExtractionResult → Checked Findings
  unfolding type_rules check_extraction_completeness
  document_rules applicant today t extraction = elim extraction.extraction_error [
    | some _ ↦ done no_findings
    | none ↦ do
      rest ← type_rules applicant today t extraction.doc_type extraction
      done (only_flags (check_extraction_completeness py extraction) then rest)
  ]

  unfoldable pub run_validation_rules :
      ApplicantDeclared
      → (extractions : List ExtractionResult) (today : Date) → MatchThresholds
      → Checked Findings
  unfolding document_rules
  run_validation_rules applicant [] today t = done no_findings
  run_validation_rules applicant (extraction ∷ extractions) today t = do
    first ← document_rules applicant today t extraction
    rest ← run_validation_rules applicant extractions today t
    done (first then rest)
