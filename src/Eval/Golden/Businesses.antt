-- ===== src/Eval/Golden/Businesses.antt =====
-- CASES of eval/generate_golden_set.py. The businesses.
use kyc_agent_nordvik.Prelude.{true, false, none, some, [], ◌∷◌}
use kyc_agent_nordvik.Python.{Python}
use kyc_agent_nordvik.Eval.Golden.{
  CaseDict, business_package, registration_cert, ubo_declaration, case,
}

module _ (py : Python) where
  abbrev pub business_clean : CaseDict
  business_clean =
      case "business-clean" "Typical clean business onboarding" true
        (business_package "Karl Tamm" "Meridian Trade OU" "EE-1447291" "Tartu mnt 25, 10117 Tallinn"
          30000
          (registration_cert "Meridian Trade OU" "EE-1447291" "01.02.2019"
            "Osauhing (private limited company)" "Tartu mnt 25, 10117 Tallinn")
          (ubo_declaration py "Meridian Trade OU"
            (("Karl Tamm", "12.07.1978", 60) ∷ ("Liis Kukk", "25.09.1985", 40) ∷ [])))
        "approve" "system" false ("ALL_CHECKS_PASSED" ∷ [])
        (some (
          (
            "doc-reg",
            (("company_name", "Meridian Trade OU")
                ∷ ("registration_number", "EE-1447291")
                ∷ ("registration_date", "2019-02-01")
                ∷ []),
          )
          ∷ []))

  abbrev pub business_clean_2 : CaseDict
  business_clean_2 =
      case "business-clean-2" "Clean business onboarding" true
        (business_package "Aino Jarvinen" "Aurora Consulting Oy" "FI-2093714"
          "Mannerheimintie 40 B, 00250 Helsinki" 22000
          (registration_cert "Aurora Consulting Oy" "FI-2093714" "14.09.2021"
            "Osakeyhtio (limited company)" "Mannerheimintie 40 B, 00250 Helsinki")
          (ubo_declaration py "Aurora Consulting Oy" (("Aino Jarvinen", "04.02.1984", 100) ∷ [])))
        "approve" "system" false ("ALL_CHECKS_PASSED" ∷ []) none

  abbrev pub business_ubo_sanctions : CaseDict
  business_ubo_sanctions =
      case "business-ubo-sanctions"
        "Beneficial owner matches the sanctions registry: mandatory escalation" false
        (business_package "Oskar Vaher" "Nordic Bridge OU" "EE-1899020"
          "Parnu mnt 105, 11312 Tallinn" 18000
          (registration_cert "Nordic Bridge OU" "EE-1899020" "23.03.2017"
            "Osauhing (private limited company)" "Parnu mnt 105, 11312 Tallinn")
          (ubo_declaration py "Nordic Bridge OU"
            (("Oskar Vaher", "02.12.1980", 55) ∷ ("Viktor Salo", "03.11.1969", 45) ∷ [])))
        "escalate" "human" true ("UBO_SANCTIONS_OR_PEP" ∷ []) none
