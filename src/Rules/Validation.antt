-- ===== src/Rules/Validation.antt =====
-- rules/validation.py: the declared data against the extracted fields. A check that finds an
-- unusable value raises; `Checked` is its result.
pub mod Checks
pub mod Run
pub mod Report
pub mod Reading
use kyc_agent_nordvik.Prelude.{
  ℕ, String, Bool, true, false, not, ◌&&◌, ◌||◌, Option, none, some, List, [], ◌∷◌, ◌++◌, map, any,
  ltb, leb, if◌then◌else◌, nonempty, select, is_some, concat, join, split, get, ◌==◌, truthy,
}
use kyc_agent_nordvik.Python.{Python, Score, percent, Date, date_ge}
use kyc_agent_nordvik.Schemas.Ids
use kyc_agent_nordvik.Schemas.Ids.{RuleId}
use kyc_agent_nordvik.Schemas.Documents.{
  DocumentType, id_document, proof_of_address, business_registration, ubo_declaration, unknown,
  same_type, type_value, FieldValue, text, owners, Fields, required_fields,
}
use kyc_agent_nordvik.Schemas.Case.{CustomerType, ApplicantDeclared, required_docs}
use kyc_agent_nordvik.Schemas.Decisions.{
  Severity, critical, warning, RuleFlag, FieldCheck, ExtractionResult,
}

-- What a rule raises: `value_error` from `date.fromisoformat` on a text, `type_error` on a list,
-- `attribute_error` where `casefold` is called on a list.
pub data Failure : Type 0 where
  value_error type_error attribute_error : Failure

pub data Checked (A : Type 0) : Type 0 where
  done : A → Checked A
  raise : Failure → Checked A

module _ {A B : Type 0} where
  infixl 5 ◌>>=◌
  abbrev pub ◌>>=◌ : Checked A → (A → Checked B) → Checked B
  done a >>= f = f a
  raise e >>= f = raise e

pub record MatchThresholds : Type 0 where
  pub name_critical : Score
  pub name_warning : Score
  pub address : Score

abbrev pub default_match_thresholds : MatchThresholds
default_match_thresholds = record {
  name_critical = percent 85;
  name_warning = percent 95;
  address = percent 70;
}

-- Which of the required types are not among `present`, as sorted texts.
abbrev pub missing_docs : CustomerType → List DocumentType → List DocumentType
missing_docs customer present =
    select (λ t. not (any (λ p. same_type p t) present)) (required_docs customer)

unfoldable pub check_package_completeness : CustomerType → List DocumentType → Option RuleFlag
check_package_completeness customer present =
    let missing = missing_docs customer present in
    if not (nonempty missing)
    then none
    else some (record {
      rule_id = Ids.incomplete_package;
      severity = critical;
      details = concat ("missing required documents: " ∷ join ", " (map type_value missing) ∷ []);
    })

-- A field whose value, if there is one, is compared as text.
unfoldable pub text_field : String → Fields → Checked (Option String)
text_field name fields = elim (get name fields) [
  | none ↦ done none
  | some (text s) ↦ done (some s)
  | some (owners _) ↦ raise attribute_error
]

-- It is left alone where nothing is declared to compare it with.
unfoldable pub text_if : Bool → String → Fields → Checked (Option String)
unfolding text_field
text_if true name fields = text_field name fields
text_if false name fields = done none

-- The text that `date.fromisoformat` is called on: an empty list counts as no date.
abbrev pub expiry_text : Option FieldValue → Checked (Option String)
expiry_text none = done none
expiry_text (some (text s)) = done (some s)
expiry_text (some (owners [])) = done none
expiry_text (some (owners (_ ∷ _))) = raise type_error

unfoldable pub expiry_field : Fields → Checked (Option String)
expiry_field fields = expiry_text (get "expiry_date" fields)

-- value is None or value == "" or value == []
unfoldable pub is_blank : Option FieldValue → Bool
is_blank none = true
is_blank (some (text s)) = s == ""
is_blank (some (owners os)) = not (nonempty os)

abbrev blank_flag : (py_repr : String → String) → ExtractionResult → String → RuleFlag
blank_flag repr extraction field = record {
  rule_id = Ids.extraction_incomplete;
  severity = warning;
  details = concat (
      type_value extraction.doc_type
      ∷ "/"
      ∷ extraction.document_id
      ∷ ": required field "
      ∷ repr field
      ∷ " not extracted"
      ∷ []);
}

module _ (py : Python) where
  unfoldable pub normalize_text : String → String
  normalize_text value = join " " (split (py.casefold value))

  unfoldable pub fuzzy_ratio : String → String → Score
  unfolding normalize_text
  fuzzy_ratio a b = py.ratio (normalize_text a) (normalize_text b)

  unfoldable pub check_document_expiry : Option Date → Date → Option RuleFlag
  check_document_expiry none today = none
  check_document_expiry (some expiry) today =
      if date_ge expiry today
      then none
      else some (record {
        rule_id = Ids.doc_expired;
        severity = critical;
        details = concat ("document expired on " ∷ py.isoformat expiry ∷ []);
      })

  abbrev compared : String → String → String → String
  compared field declared extracted =
      concat (field ∷ ": declared=" ∷ py.repr declared ∷ " extracted=" ∷ py.repr extracted ∷ [])

  abbrev check_of : String → String → Option String → Bool → Bool → FieldCheck
  check_of field declared extracted matches blocking = record {
    field = field;
    declared = some declared;
    extracted = extracted;
    match = matches;
    critical = blocking;
  }

  unfoldable pub check_name :
      (declared : String) (extracted : Option String)
      → MatchThresholds
      → RuleId
      → (field : String) → FieldCheck × Option RuleFlag
  unfolding fuzzy_ratio
  check_name declared none t rule field = (check_of field declared none false false, none)
  check_name declared (some extracted) t rule field =
      let ratio = fuzzy_ratio declared extracted in
      let below = ltb ratio t.name_critical in
      if leb t.name_warning ratio
      then (check_of field declared (some extracted) true false, none)
      else (
        check_of field declared (some extracted) false below,
        some (record {
          rule_id = rule;
          severity = if below then critical else warning;
          details = concat (compared field declared extracted ∷ " ratio=" ∷ py.fixed2 ratio ∷ []);
        }),
      )

  -- Every call leaves `normalize` at its default, `True`.
  unfoldable pub check_exact :
      (declared extracted : Option String)
      → RuleId
      → (field : String) → Option FieldCheck × Option RuleFlag
  unfolding normalize_text
  check_exact (some declared) (some extracted) rule field =
      if normalize_text declared == normalize_text extracted
      then (some (check_of field declared (some extracted) true false), none)
      else (
        some (check_of field declared (some extracted) false true),
        some (record {
          rule_id = rule;
          severity = critical;
          details = compared field declared extracted;
        }),
      )
  check_exact _ _ rule field = (none, none)

  unfoldable pub check_address :
      (declared : String) (extracted : Option String)
      → MatchThresholds
      → Option FieldCheck × Option RuleFlag
  unfolding fuzzy_ratio
  check_address declared none t = (none, none)
  check_address declared (some extracted) t =
      let ratio = fuzzy_ratio declared extracted in
      if leb t.address ratio
      then (some (check_of "address" declared (some extracted) true false), none)
      else (
        some (check_of "address" declared (some extracted) false false),
        some (record {
          rule_id = Ids.address_mismatch;
          severity = warning;
          details =
              concat (compared "address" declared extracted ∷ " ratio=" ∷ py.fixed2 ratio ∷ []);
        }),
      )

  unfoldable pub check_extraction_completeness : ExtractionResult → List RuleFlag
  unfolding is_blank
  check_extraction_completeness extraction = map (blank_flag py.repr extraction) (
      select (λ field. is_blank (get field extraction.fields))
        (required_fields extraction.doc_type))
