-- ===== src/Samples.antt =====
-- Concrete packages, services and states for the tests.
use kyc_agent_nordvik.Prelude.{◌*◌, String, true, none, some, List, [], ◌∷◌, ◌==◌, if◌then◌else◌}
use kyc_agent_nordvik.Python.{Python, Date, unit, percent}
use kyc_agent_nordvik.Effects.{value, raised, Call}
use kyc_agent_nordvik.Audit.Sink.{AuditSink}
use kyc_agent_nordvik.Llm.Base.{PipelineServices}
use kyc_agent_nordvik.Schemas.Documents.{
  DocumentType, id_document, proof_of_address, InputDocument, ClassifiedDocument, Fields, text,
}
use kyc_agent_nordvik.Schemas.Case.{KycPackage, ApplicantDeclared, individual, euro}
use kyc_agent_nordvik.Schemas.Decisions.{ExtractionResult, Registry, sanctions, pep}
use kyc_agent_nordvik.Graph.Context.{PipelineContext, RegistryClient, default_settings}

abbrev pub today : Date
today = record { year = 2025; month = 6; day = 15 }

abbrev pub next_year : Date
next_year = record { year = 2026; month = 1; day = 31 }

-- Texts are compared as they are, and one date is known.
abbrev pub plain_python : Python
plain_python = record {
  casefold = λ s. s;
  ratio = λ a b. if a == b then unit else 0;
  repr = λ s. s;
  fixed2 = λ x. "0.00";
  int_str = λ n. "n";
  decimal_str = λ n. "n";
  isoformat = λ d. "2026-01-31";
  fromisoformat = λ s. if s == "2026-01-31" then some next_year else none;
  strip = λ s. s;
  upper = λ s. s;
  to_float = λ s. some 60;
  make_date = λ y m d. some next_year;
}

abbrev pub passport : InputDocument
passport = record { document_id = "d1"; file_name = "passport.txt"; text_content = "Anna Berg" }

abbrev pub bill : InputDocument
bill = record {
  document_id = "d2";
  file_name = "bill.txt";
  text_content = "Anna Berg, Kungsgatan 1";
}

abbrev pub anna : ApplicantDeclared
anna = record {
  full_name = "Anna Berg";
  date_of_birth = none;
  address = "Kungsgatan 1";
  company_name = none;
  registration_number = none;
  expected_monthly_volume_eur = 2000 * euro;
}

abbrev pub package_of : ApplicantDeclared → KycPackage
package_of applicant = record {
  customer_type = individual;
  applicant = applicant;
  documents = passport ∷ bill ∷ [];
}

abbrev pub classified : List ClassifiedDocument
classified =
    record { document_id = "d1"; doc_type = id_document; classifier_confidence = percent 95 }
    ∷ record { document_id = "d2"; doc_type = proof_of_address; classifier_confidence = percent 90 }
    ∷ []

-- What is read from the passport, with this expiry date.
abbrev pub id_fields : String → Fields
id_fields expiry =
    ("full_name", text "Anna Berg")
    ∷ ("date_of_birth", text "1990-05-01")
    ∷ ("document_number", text "X123")
    ∷ ("expiry_date", text expiry)
    ∷ []

abbrev pub bill_fields : Fields
bill_fields = ("full_name", text "Anna Berg") ∷ ("address", text "Kungsgatan 1") ∷ []

abbrev fields_of : DocumentType → Fields
fields_of id_document = id_fields "2026-01-31"
fields_of _ = bill_fields

abbrev pub reading : String → DocumentType → Fields → ExtractionResult
reading id t fields = record {
  document_id = id;
  doc_type = t;
  fields = fields;
  field_confidence = ("full_name", percent 92) ∷ [];
  extraction_error = none;
}

abbrev pub unread : String → DocumentType → ExtractionResult
unread id t = record {
  document_id = id;
  doc_type = t;
  fields = [];
  field_confidence = [];
  extraction_error = some "no text";
}

abbrev pub broken : {W A : Type 0} → Call W A
broken w = (raised (record { type_name = "TimeoutError"; message = "timed out" }), w)

abbrev pub answer : {W A : Type 0} → A → Call W A
answer a w = (value a, w)

-- Services that read both documents.
abbrev pub good_services : PipelineServices (Unit {0})
good_services = record {
  classify = λ documents customer. answer classified;
  extract = λ document t. answer (reading document.document_id t (fields_of t));
  verify_grounding = λ document extraction. answer [];
  narrate = λ applicant triggered flags. answer "narrated";
}

abbrev pub silent : AuditSink (Unit {0})
silent = record { emit = λ event. answer tt; events = λ case_id. answer [] }

abbrev pub clean_registry : Registry → RegistryClient (Unit {0})
clean_registry r = record { registry = r; search = λ name. answer [] }

abbrev pub down_registry : Registry → RegistryClient (Unit {0})
down_registry r = record { registry = r; search = λ name. broken }

abbrev pub context_with :
    (sanctions_client pep_client : RegistryClient (Unit {0})) → PipelineContext (Unit {0})
context_with sanctions_client pep_client = record {
  settings = default_settings;
  services = good_services;
  fallback = good_services;
  audit = silent;
  sanctions = sanctions_client;
  pep = pep_client;
  today = today;
  evaluator_enabled = true;
  python = plain_python;
  now = λ w. 0;
}

abbrev pub context : PipelineContext (Unit {0})
context = context_with (clean_registry sanctions) (clean_registry pep)

abbrev pub outage : PipelineContext (Unit {0})
outage = context_with (down_registry sanctions) (clean_registry pep)
