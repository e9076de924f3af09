-- ===== src/Tests/Registry.antt =====
-- Witnesses for tools/registries.py.
use kyc_agent_nordvik.Prelude.{
  ◌≡◌, refl, String, true, ◌&&◌, List, [], ◌∷◌, any, ◌==◌, arith, split, eq_refl,
}
use kyc_agent_nordvik.Python.{IsLawful}
use kyc_agent_nordvik.Tools.Registries.{RegistryEntry, MockRegistry, sanctions_registry, hits_for}
use kyc_agent_nordvik.Tools.Registries.Matches.{
  lists, IsDescending, is_close, hits_for-exact, listed-found,
}
use kyc_agent_nordvik.Samples.{plain_python}

abbrev client : MockRegistry
client = sanctions_registry 0

abbrev listed : RegistryEntry
listed = record { full_name = "Dmitri Voronov"; entry_id = "EU-2023-0871" }

abbrev first_listed : RegistryEntry
first_listed = record { full_name = "Viktor Salo"; entry_id = "EU-2024-0113" }

abbrev others : List RegistryEntry
others =
    record { full_name = "Halvard Eriksen"; entry_id = "UN-2022-0442" }
    ∷ record { full_name = "Rustam Aliyev"; entry_id = "OFAC-2025-1190" }
    ∷ record { full_name = "Meridian Shipping Ltd"; entry_id = "EU-2024-0555" }
    ∷ []

hits_for-exact_example :
    IsDescending (hits_for plain_python client "Viktor Salo")
    × ((id : String)
        → lists id (hits_for plain_python client "Viktor Salo")
          ≡ any
              (λ e. is_close plain_python client "Viktor Salo" e && e.entry_id == id)
              client.entries)
hits_for-exact_example = hits_for-exact plain_python client "Viktor Salo"

exact_python-IsLawful : IsLawful plain_python
exact_python-IsLawful = record { ratio_self = λ a. ground (arith, eq_refl a) }

spaced_name :
    split (plain_python.casefold " Dmitri  Voronov")
    ≡ split (plain_python.casefold "Dmitri Voronov")
unfolding split
spaced_name = refl

listed-found_example : lists "EU-2023-0871" (hits_for plain_python client " Dmitri  Voronov") ≡ true
listed-found_example =
    listed-found plain_python client " Dmitri  Voronov" (first_listed ∷ []) others listed
      exact_python-IsLawful (omega arith) refl spaced_name
