-- ===== src/Eval/Golden/Routed.antt =====
-- The documents of eval/generate_golden_set.py before the router of llm/fake.py.
use Prim.Native.String
use kyc_agent_nordvik.Prelude.{
  ℕ, ◌≡◌, refl, sym, ap, ◌∙◌, subst, String, true, false, List, [], ◌∷◌, any, contains,
  contains-prefix, contains-append, contains-left, arith,
}
use kyc_agent_nordvik.Python.{Python, Patterns, percent}
use kyc_agent_nordvik.Effects.{value}
use kyc_agent_nordvik.Schemas.Documents.{
  DocumentType, id_document, proof_of_address, business_registration, ubo_declaration, unknown,
}
use kyc_agent_nordvik.Schemas.Case.{CustomerType}
use kyc_agent_nordvik.Llm.Fake.{type_keywords, type_by_keywords, fake_classify}
use kyc_agent_nordvik.Eval.Golden
use kyc_agent_nordvik.Eval.Golden.{id_card, invoice, bank_statement, registration_cert}

-- What is documented of `str.upper`: it maps a text character by character, and capitals to
-- themselves.
pub record UpperCases (upper : String → String) : Type 0 where
  pub appends : (a b : String) → upper (String.◌++◌ a b) ≡ String.◌++◌ (upper a) (upper b)
  pub ubo : upper "UBO DECLARATION" ≡ "UBO DECLARATION"
  pub registration : upper "COMMERCIAL REGISTER" ≡ "COMMERCIAL REGISTER"
  pub card : upper "IDENTITY CARD" ≡ "IDENTITY CARD"
  pub bill : upper "INVOICE" ≡ "INVOICE"
  pub statement : upper "BANK STATEMENT" ≡ "BANK STATEMENT"

-- A document that the generator prints.
pub data Printed : Type 0 where
  card : (name dob number expiry country nationality extra : String) → Printed
  bill : (name address issue issuer : String) → Printed
  statement : (name address issue bank : String) → Printed
  registration : (company number reg_date legal_form office : String) → Printed
  ubo : (company : String) (owners : List (String × String × ℕ)) → Printed

abbrev pub type_of : Printed → DocumentType
type_of (card name dob number expiry country nationality extra) = id_document
type_of (bill name address issue issuer) = proof_of_address
type_of (statement name address issue bank) = proof_of_address
type_of (registration company number reg_date legal_form office) = business_registration
type_of (ubo company owners) = ubo_declaration

-- The keywords of the types that the router tries before a type.
abbrev pub keywords_before : DocumentType → List String
keywords_before ubo_declaration = []
keywords_before business_registration = "UBO DECLARATION" ∷ "BENEFICIAL OWNER" ∷ []
keywords_before id_document =
    "UBO DECLARATION" ∷ "BENEFICIAL OWNER" ∷ "CERTIFICATE OF REGISTRATION" ∷ "COMMERCIAL REGISTER"
    ∷ "BUSINESS REGISTRY" ∷ []
keywords_before proof_of_address =
    "UBO DECLARATION" ∷ "BENEFICIAL OWNER" ∷ "CERTIFICATE OF REGISTRATION" ∷ "COMMERCIAL REGISTER"
    ∷ "BUSINESS REGISTRY" ∷ "IDENTITY CARD" ∷ "PASSPORT" ∷ "RESIDENCE PERMIT" ∷ []
keywords_before unknown = []

module _ (py : Python) where
  abbrev pub text_of : Printed → String
  text_of (card name dob number expiry country nationality extra) =
      id_card name dob number expiry country nationality extra
  text_of (bill name address issue issuer) = invoice py name address issue issuer
  text_of (statement name address issue bank) = bank_statement py name address issue bank
  text_of (registration company number reg_date legal_form office) =
      registration_cert company number reg_date legal_form office
  text_of (ubo company owners) = Golden.ubo_declaration py company owners

-- The keyword that is printed on a document.
abbrev heading : Printed → String
heading (card name dob number expiry country nationality extra) = "IDENTITY CARD"
heading (bill name address issue issuer) = "INVOICE"
heading (statement name address issue bank) = "BANK STATEMENT"
heading (registration company number reg_date legal_form office) = "COMMERCIAL REGISTER"
heading (ubo company owners) = "UBO DECLARATION"

module _ (upper : String → String) (cases : UpperCases upper) where
  contains-upper_left :
      (h s t : String) → contains h (upper s) ≡ true → contains h (upper (String.◌++◌ s t)) ≡ true
  contains-upper_left h s t e =
      subst (λ u. contains h u ≡ true) (sym (cases.appends s t))
        (contains-left h (upper s) (upper t) e)

  contains-upper_append :
      (h s t : String) → contains h (upper t) ≡ true → contains h (upper (String.◌++◌ s t)) ≡ true
  contains-upper_append h s t e =
      subst (λ u. contains h u ≡ true) (sym (cases.appends s t))
        (contains-append h (upper s) (upper t) e)

  contains-upper : (h t : String) → upper h ≡ h → contains h (upper (String.◌++◌ h t)) ≡ true
  contains-upper h t e =
      subst (λ u. contains h u ≡ true)
        (sym (cases.appends h t ∙ ap (λ u. String.◌++◌ u (upper t)) e))
        (contains-prefix h (upper t))

  -- In a text whose parts around the keyword are known.
  contains-heading :
      (h a b t : String)
      → upper h ≡ h
      → contains h (upper (String.◌++◌ (String.◌++◌ a (String.◌++◌ h b)) t)) ≡ true
  contains-heading h a b t e =
      contains-upper_left h _ t (contains-upper_append h a _ (contains-upper h b e))

module _ (py : Python) (cases : UpperCases py.upper) where
  text-heading : (p : Printed) → contains (heading p) (py.upper (text_of py p)) ≡ true
  text-heading (card name dob number expiry country nationality extra) =
      contains-upper_append py.upper cases "IDENTITY CARD" country _
        (contains-heading py.upper cases "IDENTITY CARD" "\n" "\nFull name: " _ cases.card)
  text-heading (bill name address issue issuer) =
      contains-upper_append py.upper cases "INVOICE" (py.upper issuer) _
        (contains-heading py.upper cases "INVOICE" "\nELECTRICITY " "\nCustomer: " _ cases.bill)
  text-heading (statement name address issue bank) =
      contains-upper_append py.upper cases "BANK STATEMENT" (py.upper bank) _ (
        contains-heading py.upper cases "BANK STATEMENT" "\n" "\nAccount holder: " _
          cases.statement)
  text-heading (registration company number reg_date legal_form office) =
      contains-heading py.upper cases "COMMERCIAL REGISTER" "REPUBLIC OF ESTONIA — "
        "\nCERTIFICATE OF REGISTRATION\n" _ cases.registration
  text-heading (ubo company owners) =
      contains-heading py.upper cases "UBO DECLARATION" "" "\nCompany name: " _ cases.ubo

  by_heading :
      (p : Printed) (u : String)
      → contains (heading p) u ≡ true
      → any (λ k. contains k u) (keywords_before (type_of p)) ≡ false
      → type_by_keywords u type_keywords ≡ (type_of p, percent 98)
  unfolding type_by_keywords
  by_heading (card name dob number expiry country nationality extra) u h n = ground (arith, h, n)
  by_heading (bill name address issue issuer) u h n = ground (arith, h, n)
  by_heading (statement name address issue bank) u h n = ground (arith, h, n)
  by_heading (registration company number reg_date legal_form office) u h n = ground (arith, h, n)
  by_heading (ubo company owners) u h n = ground (arith, h, n)

  -- If str.upper is as documented, then the deterministic router recognises every document that the
  -- generator prints, whatever names, dates and numbers stand in it, in which no keyword occurs of a
  -- type that it tries earlier; for a UBO declaration, which it tries first, there is no condition.
  pub fake_classify-printed :
      {W : Type 0} (re : Patterns) (p : Printed) (document_id file_name : String)
      (customer : CustomerType) (w : W)
      → any (λ k. contains k (py.upper (text_of py p))) (keywords_before (type_of p)) ≡ false
      → (fake_classify py re
          (record { document_id = document_id; file_name = file_name; text_content = text_of py p }
            ∷ [])
          customer
          w).0
        ≡ value (
            record {
              document_id = document_id;
              doc_type = type_of p;
              classifier_confidence = percent 98;
            }
            ∷ [])
  unfolding fake_classify
  fake_classify-printed re p document_id file_name customer w n =
      rw (by_heading p (py.upper (text_of py p)) (text-heading p) n) refl
