-- ===== src/Eval/Golden/Escalations.antt =====
-- CASES of eval/generate_golden_set.py. The individuals that are to be escalated.
use kyc_agent_nordvik.Prelude.{true, false, none, some, [], ◌∷◌, concat}
use kyc_agent_nordvik.Python.{Python}
use kyc_agent_nordvik.Eval.Golden.{
  CaseDict, individual_package, id_card, invoice, bank_statement, garbage, case,
}

module _ (py : Python) where
  abbrev pub name_mismatch_critical : CaseDict
  name_mismatch_critical =
      case "name-mismatch-critical"
        "Declared name does not match the ID document: mandatory escalation" true
        (individual_package "Elena Sokolova" "1988-07-21" "Bulevardi 11 A 7, 00120 Helsinki" 3000
          (id_card "Boris Petrov" "21.07.1988" "EST-1190447" "28.10.2029" "REPUBLIC OF ESTONIA" "EE"
            "")
          (some (
            invoice py "Elena Sokolova" "Bulevardi 11 A 7, 00120 Helsinki" "03.06.2026"
              "Helen Oy")))
        "escalate" "human" true ("CRITICAL_MISMATCH" ∷ []) none

  abbrev pub sanctions_hit : CaseDict
  sanctions_hit =
      case "sanctions-hit" "Applicant matches the sanctions registry: mandatory escalation" true
        (individual_package "Viktor Salo" "1969-11-03" "Tehtaankatu 19 B 16, 00150 Helsinki" 4000
          (id_card "Viktor Salo" "03.11.1969" "FIN-1055821" "07.07.2030" "REPUBLIC OF FINLAND" "FI"
            "")
          (some (
            invoice py "Viktor Salo" "Tehtaankatu 19 B 16, 00150 Helsinki" "11.06.2026"
              "Helen Oy")))
        "escalate" "human" true ("SANCTIONS_HIT" ∷ []) none

  abbrev pub pep_match : CaseDict
  pep_match =
      case "pep-match" "Applicant is a politically exposed person: mandatory escalation" false
        (individual_package "Maarika Kask" "1975-05-16" "Narva mnt 7-12, 10117 Tallinn" 5200
          (id_card "Maarika Kask" "16.05.1975" "EST-8834012" "19.04.2031" "REPUBLIC OF ESTONIA" "EE"
            "")
          (some (
            invoice py "Maarika Kask" "Narva mnt 7-12, 10117 Tallinn" "07.06.2026"
              "Eesti Energia")))
        "escalate" "human" true ("PEP_MATCH" ∷ []) none

  abbrev pub high_volume : CaseDict
  high_volume =
      case "high-volume"
        "Declared monthly volume above the individual threshold: mandatory escalation" true
        (individual_package "Tomas Berg" "1981-09-09" "Norra Esplanaden 25 A 3, 00100 Helsinki"
          15000
          (id_card "Tomas Berg" "09.09.1981" "SWE-6614708" "22.08.2030" "KINGDOM OF SWEDEN" "SE" "")
          (some (
            bank_statement py "Tomas Berg" "Norra Esplanaden 25 A 3, 00100 Helsinki" "28.05.2026"
              "Nordea Bank Abp")))
        "escalate" "human" true ("HIGH_VOLUME" ∷ []) none

  abbrev pub corrupted_document : CaseDict
  corrupted_document =
      case "corrupted-document" "Unreadable ID scan: graceful degradation to human review" true
        (individual_package "Henrik Laine" "1986-10-25" "Hameenkatu 12 C 8, 33200 Tampere" 2700
          garbage
          (some
            (invoice py "Henrik Laine" "Hameenkatu 12 C 8, 33200 Tampere" "09.06.2026" "Helen Oy")))
        "escalate" "human" true ("DEGRADED_TO_MANUAL" ∷ []) none

  abbrev pub hallucination_bait : CaseDict
  hallucination_bait =
      case "hallucination-bait" "Extractor hallucination (injected): only the evaluator catches it"
        false
        (individual_package "Anna Virtanen" "1991-03-14" "Kalevankatu 12 A 5, 00100 Helsinki" 2400
          (concat (
            (id_card "Anja Wirtanen" "14.03.1991" "FIN-8842517" "01.05.2030" "REPUBLIC OF FINLAND"
              "FI" "")
            ∷ "\n[OCR-GLITCH:full_name=Anna Virtanen]"
            ∷ []))
          (some (
            invoice py "Anna Virtanen" "Kalevankatu 12 A 5, 00100 Helsinki" "12.06.2026"
              "Helen Oy")))
        "escalate" "human" true ("CRITICAL_MISMATCH" ∷ []) none
