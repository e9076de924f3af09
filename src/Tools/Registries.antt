-- ===== src/Tools/Registries.antt =====
-- tools/registries.py: the mock registry client over a static list. `random.Random` is a library's;
-- `random` stands for its next number, in millionths.
pub mod Matches
use kyc_agent_nordvik.Prelude.{
  ℕ, String, Bool, Option, none, some, List, [], ◌∷◌, concat, join, split, ltb, leb, if◌then◌else◌,
}
use kyc_agent_nordvik.Python.{Python, Score, percent, round4}
use kyc_agent_nordvik.Effects.{Exception, Outcome, value, raised, Call}
use kyc_agent_nordvik.Schemas.Decisions.{Registry, sanctions, pep, RegistryHit, registry_value}
use kyc_agent_nordvik.Graph.Context.{RegistryClient}

pub record RegistryEntry : Type 0 where
  pub full_name : String
  pub entry_id : String

abbrev pub sanctions_entries : List RegistryEntry
sanctions_entries =
    record { full_name = "Viktor Salo"; entry_id = "EU-2024-0113" }
    ∷ record { full_name = "Dmitri Voronov"; entry_id = "EU-2023-0871" }
    ∷ record { full_name = "Halvard Eriksen"; entry_id = "UN-2022-0442" }
    ∷ record { full_name = "Rustam Aliyev"; entry_id = "OFAC-2025-1190" }
    ∷ record { full_name = "Meridian Shipping Ltd"; entry_id = "EU-2024-0555" }
    ∷ []

abbrev pub pep_entries : List RegistryEntry
pep_entries =
    record { full_name = "Maarika Kask"; entry_id = "PEP-EE-0077" }
    ∷ record { full_name = "Jonas Lindqvist"; entry_id = "PEP-SE-0214" }
    ∷ record { full_name = "Petra Novak"; entry_id = "PEP-CZ-0033" }
    ∷ record { full_name = "Anders Holm"; entry_id = "PEP-DK-0158" }
    ∷ []

-- What the constructor keeps, but for the generator.
pub record MockRegistry : Type 0 where
  pub registry : Registry
  pub entries : List RegistryEntry
  pub match_threshold : Score
  pub failure_rate : Score

-- build_sanctions_client and build_pep_client, with the default threshold
abbrev pub sanctions_registry : Score → MockRegistry
sanctions_registry failure_rate = record {
  registry = sanctions;
  entries = sanctions_entries;
  match_threshold = percent 85;
  failure_rate = failure_rate;
}

abbrev pub pep_registry : Score → MockRegistry
pep_registry failure_rate = record {
  registry = pep;
  entries = pep_entries;
  match_threshold = percent 85;
  failure_rate = failure_rate;
}

-- hits.sort(key=score, reverse=True): stable, so equal scores stay in order.
insert_hit : RegistryHit → List RegistryHit → List RegistryHit
insert_hit h [] = h ∷ []
insert_hit h (k ∷ hits) = if leb k.score h.score then h ∷ k ∷ hits else k ∷ insert_hit h hits

unfoldable pub sort_hits : List RegistryHit → List RegistryHit
unfolding insert_hit
sort_hits [] = []
sort_hits (h ∷ hits) = insert_hit h (sort_hits hits)

abbrev pub unavailable_error : Registry → Exception
unavailable_error r = record {
  type_name = "RegistryUnavailableError";
  message = concat (registry_value r ∷ " registry: connection failed" ∷ []);
}

module _ (py : Python) where
  unfoldable pub registry_normalize : String → String
  registry_normalize text = join " " (split (py.casefold text))

  unfoldable pub score_of : (full_name : String) → RegistryEntry → Score
  unfolding registry_normalize
  score_of full_name entry =
      py.ratio (registry_normalize full_name) (registry_normalize entry.full_name)

  abbrev pub hit_of : Registry → String → RegistryEntry → RegistryHit
  hit_of r full_name entry = record {
    registry = r;
    matched_name = entry.full_name;
    score = round4 (score_of full_name entry);
    list_entry = entry.entry_id;
  }

  -- The loop over the entries.
  unfoldable pub matches : MockRegistry → String → List RegistryEntry → List RegistryHit
  matches client full_name [] = []
  matches client full_name (entry ∷ entries) =
      let rest = matches client full_name entries in
      if leb client.match_threshold (score_of full_name entry)
      then hit_of client.registry full_name entry ∷ rest
      else rest

  abbrev pub hits_for : MockRegistry → String → List RegistryHit
  hits_for client full_name = sort_hits (matches client full_name client.entries)

  module _ {W : Type 0} (random : W → Score × W) where
    unfoldable pub search : MockRegistry → String → Call W (List RegistryHit)
    unfolding matches sort_hits
    search client full_name w =
        if ltb 0 client.failure_rate
        then (let (x, w') = random w in
            (
              if ltb x client.failure_rate
                  then raised (unavailable_error client.registry)
                  else value (hits_for client full_name),
              w',
            ))
        else (value (hits_for client full_name), w)

    -- The client as the nodes see it.
    abbrev pub client_of : MockRegistry → RegistryClient W
    client_of client = record { registry = client.registry; search = search client }
