-- ===== src/Rules/Validation/Checks.antt =====
-- What the single checks of rules/validation.py find.
use kyc_agent_nordvik.Prelude.{
  ◌≡◌, ap, ◌∙◌, ◌≢◌, ◌↔◌, ◌⊎◌, ◌≤◌, ◌<◌, String, Bool, true, none, some, List, All, any, arith,
}
use kyc_agent_nordvik.Python.{Python, IsLawful, Date, date_ge, unit}
use kyc_agent_nordvik.Schemas.Ids.{RuleId}
use kyc_agent_nordvik.Schemas.Documents.{DocumentType, same_type}
use kyc_agent_nordvik.Schemas.Case.{CustomerType, individual, business, required_docs}
use kyc_agent_nordvik.Rules.Validation.{
  MatchThresholds, check_package_completeness, check_document_expiry, check_name, normalize_text,
  fuzzy_ratio,
}

-- A document of type `t` is present.
abbrev pub holds : List DocumentType → DocumentType → Bool
holds present t = any (λ p. same_type p t) present

-- A package raises no INCOMPLETE_PACKAGE flag exactly when every document type that is required of
-- its customer type is present.
pub check_package_completeness-none_iff :
    (customer : CustomerType) (present : List DocumentType)
    → (check_package_completeness customer present ≡ none)
      ↔ All (λ t. holds present t ≡ true) (required_docs customer)
unfolding check_package_completeness
check_package_completeness-none_iff individual present = ground arith
check_package_completeness-none_iff business present = ground arith

-- The order of dates.
abbrev pub IsEarlier : Date → Date → Type 0
IsEarlier a b =
    (a.year < b.year)
    ⊎ ((a.year ≡ b.year) × ((a.month < b.month) ⊎ ((a.month ≡ b.month) × (a.day < b.day))))

-- An expiry date raises a flag exactly when it is before today in the order of year, month and day.
pub check_document_expiry-expired_iff :
    (py : Python) (expiry today : Date)
    → (check_document_expiry py (some expiry) today ≢ none) ↔ IsEarlier expiry today
unfolding check_document_expiry date_ge
check_document_expiry-expired_iff py expiry today = ground arith

-- If a text matches itself with ratio 1.0 and the warning threshold is at most 1.0, then two names
-- that are equal once case and white space are normalised match, and no flag is raised.
pub check_name-same :
    (py : Python) (declared extracted : String) (t : MatchThresholds) (rule : RuleId)
    (field : String)
    → IsLawful py
    → normalize_text py declared ≡ normalize_text py extracted
    → t.name_warning ≤ unit
    → ((check_name py declared (some extracted) t rule field).0.match ≡ true)
      × ((check_name py declared (some extracted) t rule field).1 ≡ none)
unfolding check_name fuzzy_ratio
check_name-same py declared extracted t rule field law same h =
    let e : py.ratio (normalize_text py declared) (normalize_text py extracted) ≡ unit =
      ap (λ n. py.ratio n (normalize_text py extracted)) same
      ∙ law.ratio_self (normalize_text py extracted) in
    ground (arith, e, h)
