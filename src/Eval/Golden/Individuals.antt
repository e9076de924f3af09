-- ===== src/Eval/Golden/Individuals.antt =====
-- CASES of eval/generate_golden_set.py. The individuals that the system decides.
use kyc_agent_nordvik.Prelude.{true, false, none, some, [], ◌∷◌}
use kyc_agent_nordvik.Python.{Python}
use kyc_agent_nordvik.Eval.Golden.{
  CaseDict, individual_package, id_card, invoice, bank_statement, case,
}

module _ (py : Python) where
  abbrev pub clean_individual_1 : CaseDict
  clean_individual_1 =
      case "clean-individual-1" "Typical clean individual onboarding" true
        (individual_package "Anna Virtanen" "1991-03-14" "Kalevankatu 12 A 5, 00100 Helsinki" 2500
          (id_card "Anna Virtanen" "14.03.1991" "FIN-8842517" "01.05.2030" "REPUBLIC OF FINLAND"
            "FI" "")
          (some (
            invoice py "Anna Virtanen" "Kalevankatu 12 A 5, 00100 Helsinki" "10.05.2026"
              "Helen Oy")))
        "approve" "system" false ("ALL_CHECKS_PASSED" ∷ [])
        (some (
          (
            "doc-id",
            (("full_name", "Anna Virtanen")
                ∷ ("date_of_birth", "1991-03-14")
                ∷ ("document_number", "FIN-8842517")
                ∷ ("expiry_date", "2030-05-01")
                ∷ ("nationality", "FI")
                ∷ []),
          )
          ∷ (
            "doc-poa",
            (("full_name", "Anna Virtanen")
                ∷ ("address", "Kalevankatu 12 A 5, 00100 Helsinki")
                ∷ ("issue_date", "2026-05-10")
                ∷ ("issuer", "Helen Oy")
                ∷ []),
          )
          ∷ []))

  abbrev pub clean_individual_2 : CaseDict
  clean_individual_2 =
      case "clean-individual-2" "Clean individual, bank statement as proof of address" true
        (individual_package "Mikael Korhonen" "1987-11-02" "Itamerenkatu 3 B 21, 00180 Helsinki"
          4200
          (id_card "Mikael Korhonen" "02.11.1987" "FIN-5521904" "17.09.2031" "REPUBLIC OF FINLAND"
            "FI" "")
          (some (
            bank_statement py "Mikael Korhonen" "Itamerenkatu 3 B 21, 00180 Helsinki" "01.06.2026"
              "Nordea Bank Abp")))
        "approve" "system" false ("ALL_CHECKS_PASSED" ∷ [])
        (some (
          (
            "doc-id",
            (("full_name", "Mikael Korhonen")
                ∷ ("date_of_birth", "1987-11-02")
                ∷ ("document_number", "FIN-5521904")
                ∷ ("expiry_date", "2031-09-17")
                ∷ ("nationality", "FI")
                ∷ []),
          )
          ∷ (
            "doc-poa",
            (("full_name", "Mikael Korhonen")
                ∷ ("address", "Itamerenkatu 3 B 21, 00180 Helsinki")
                ∷ ("issue_date", "2026-06-01")
                ∷ ("issuer", "Nordea Bank Abp")
                ∷ []),
          )
          ∷ []))

  abbrev pub clean_individual_3 : CaseDict
  clean_individual_3 =
      case "clean-individual-3" "Clean individual onboarding" true
        (individual_package "Sofia Lehtinen" "1995-06-27" "Puistokatu 8 C 14, 20100 Turku" 1800
          (id_card "Sofia Lehtinen" "27.06.1995" "FIN-7710382" "23.02.2029" "REPUBLIC OF FINLAND"
            "FI" "")
          (some (
            invoice py "Sofia Lehtinen" "Puistokatu 8 C 14, 20100 Turku" "05.06.2026"
              "Turku Energia")))
        "approve" "system" false ("ALL_CHECKS_PASSED" ∷ [])
        (some (
          (
            "doc-id",
            (("full_name", "Sofia Lehtinen")
                ∷ ("date_of_birth", "1995-06-27")
                ∷ ("document_number", "FIN-7710382")
                ∷ ("expiry_date", "2029-02-23")
                ∷ ("nationality", "FI")
                ∷ []),
          )
          ∷ []))

  abbrev pub clean_individual_4 : CaseDict
  clean_individual_4 =
      case "clean-individual-4" "Clean individual onboarding" true
        (individual_package "Ville Niemi" "1983-01-19" "Rautatienkatu 21 A 2, 33100 Tampere" 3100
          (id_card "Ville Niemi" "19.01.1983" "FIN-3308571" "11.11.2028" "REPUBLIC OF FINLAND" "FI"
            "")
          (some (
            invoice py "Ville Niemi" "Rautatienkatu 21 A 2, 33100 Tampere" "20.05.2026"
              "Tampereen Sahkolaitos")))
        "approve" "system" false ("ALL_CHECKS_PASSED" ∷ [])
        (some (
          (
            "doc-id",
            (("full_name", "Ville Niemi")
                ∷ ("date_of_birth", "1983-01-19")
                ∷ ("document_number", "FIN-3308571")
                ∷ ("expiry_date", "2028-11-11")
                ∷ ("nationality", "FI")
                ∷ []),
          )
          ∷ []))

  abbrev pub clean_individual_5 : CaseDict
  clean_individual_5 =
      case "clean-individual-5" "Clean individual onboarding" true
        (individual_package "Laura Makela" "1990-08-08" "Satamakatu 5 D 33, 90100 Oulu" 2200
          (id_card "Laura Makela" "08.08.1990" "FIN-9174205" "30.06.2032" "REPUBLIC OF FINLAND" "FI"
            "")
          (some (
            bank_statement py "Laura Makela" "Satamakatu 5 D 33, 90100 Oulu" "15.06.2026"
              "OP Bank")))
        "approve" "system" false ("ALL_CHECKS_PASSED" ∷ [])
        (some (
          (
            "doc-id",
            (("full_name", "Laura Makela")
                ∷ ("date_of_birth", "1990-08-08")
                ∷ ("document_number", "FIN-9174205")
                ∷ ("expiry_date", "2032-06-30")
                ∷ ("nationality", "FI")
                ∷ []),
          )
          ∷ []))

  abbrev pub address_mismatch_warning : CaseDict
  address_mismatch_warning =
      case "address-mismatch-warning"
        "Address on the bill differs from the declared one: warning only, still auto" true
        (individual_package "Noora Hakala" "1992-04-03" "Koulukatu 17 B 9, 65100 Vaasa" 2000
          (id_card "Noora Hakala" "03.04.1992" "FIN-6650913" "14.03.2030" "REPUBLIC OF FINLAND" "FI"
            "")
          (some (
            invoice py "Noora Hakala" "Vanha Maantie 2 F 51, 02650 Espoo" "01.06.2026" "Helen Oy")))
        "approve" "system" false ("ALL_CHECKS_PASSED" ∷ []) none

  abbrev pub expired_document : CaseDict
  expired_document =
      case "expired-document" "ID document expired: deterministic auto-reject" true
        (individual_package "Jukka Salminen" "1979-12-30" "Kirkkokatu 4 A 1, 70100 Kuopio" 2600
          (id_card "Jukka Salminen" "30.12.1979" "FIN-2209166" "01.05.2024" "REPUBLIC OF FINLAND"
            "FI" "")
          (some (
            invoice py "Jukka Salminen" "Kirkkokatu 4 A 1, 70100 Kuopio" "02.06.2026"
              "Kuopion Energia")))
        "reject" "system" false ("DOCUMENT_EXPIRED" ∷ []) none

  abbrev pub incomplete_package : CaseDict
  incomplete_package =
      case "incomplete-package" "Proof of address missing: auto-reject, client may resubmit" true
        (individual_package "Emil Nyberg" "1998-02-15" "Linnankatu 30 E 44, 20100 Turku" 1500
          (id_card "Emil Nyberg" "15.02.1998" "FIN-4127850" "09.01.2031" "REPUBLIC OF FINLAND" "FI"
            "")
          none)
        "reject" "system" false ("INCOMPLETE_PACKAGE" ∷ []) none
