-- ===== src/Tools/Registries/Matches.antt =====
-- What a search in a registry finds: `MockRegistryClient.search` of tools/registries.py.
use kyc_agent_nordvik.Prelude.{
  ◌≡◌, refl, ap, ◌∙◌, ◌≤◌, String, Bool, true, false, ◌&&◌, ◌||◌, List, [], ◌∷◌, ◌++◌, any, All,
  All-map_of, leb→le, arith, leb, ◌==◌, eq_refl, if◌then◌else◌, join, split,
}
use kyc_agent_nordvik.Python.{Python, IsLawful, Score, unit}
use kyc_agent_nordvik.Effects.{value}
use kyc_agent_nordvik.Schemas.Decisions.{RegistryHit}
use kyc_agent_nordvik.Tools.Registries.{
  RegistryEntry, MockRegistry, insert_hit, sort_hits, registry_normalize, score_of, matches,
  hits_for, search,
}

-- A hit for the entry of this id.
abbrev pub lists : String → List RegistryHit → Bool
lists id hits = any (λ h. h.list_entry == id) hits

lists-insert_hit :
    (id : String) (h : RegistryHit) (hits : List RegistryHit)
    → lists id (insert_hit h hits) ≡ (h.list_entry == id || lists id hits)
unfolding insert_hit
lists-insert_hit id h [] = refl
lists-insert_hit id h (k ∷ hits) = ground (arith, lists-insert_hit id h hits)

lists-sort_hits :
    (id : String) (hits : List RegistryHit) → lists id (sort_hits hits) ≡ lists id hits
unfolding sort_hits
lists-sort_hits id [] = refl
lists-sort_hits id (h ∷ hits) =
    lists-insert_hit id h (sort_hits hits)
    ∙ ap (λ b. h.list_entry == id || b) (lists-sort_hits id hits)

-- What holds of either branch under its condition holds of the conditional.
if_split :
    {A : Type 0} (P : A → Type 0) (b : Bool) (x y : A)
    → (b ≡ true → P x)
    → (b ≡ false → P y)
    → P (if b then x else y)
if_split P true x y f g = f refl
if_split P false x y f g = g refl

-- From the highest score down.
abbrev pub IsDescending : List RegistryHit → Type 0
IsDescending [] = Unit
IsDescending (h ∷ hits) = All (λ k. k.score ≤ h.score) hits × IsDescending hits

All-insert_hit :
    (n : Score) (h : RegistryHit) (hits : List RegistryHit)
    → h.score ≤ n
    → All (λ k. k.score ≤ n) hits
    → All (λ k. k.score ≤ n) (insert_hit h hits)
unfolding insert_hit
All-insert_hit n h [] below all = (below, tt)
All-insert_hit n h (k ∷ hits) below all =
    if_split (All (λ k. k.score ≤ n)) (leb k.score h.score) (h ∷ k ∷ hits) (k ∷ insert_hit h hits)
      (λ e. (below, all)) (λ e. (all.0, All-insert_hit n h hits below all.1))

insert_hit-IsDescending :
    (h : RegistryHit) (hits : List RegistryHit)
    → IsDescending hits
    → IsDescending (insert_hit h hits)
unfolding insert_hit
insert_hit-IsDescending h [] d = (tt, tt)
insert_hit-IsDescending h (k ∷ hits) d =
    if_split IsDescending (leb k.score h.score) (h ∷ k ∷ hits) (k ∷ insert_hit h hits)
      (λ e.
        let le : k.score ≤ h.score = leb→le k.score h.score e in
        ((le, All-map_of _ _ hits (λ x below. omega arith) d.0), d))
      (λ e.
        (All-insert_hit k.score h hits (ground (arith, e)) d.0, insert_hit-IsDescending h hits d.1))

sort_hits-IsDescending : (hits : List RegistryHit) → IsDescending (sort_hits hits)
unfolding sort_hits
sort_hits-IsDescending [] = tt
sort_hits-IsDescending (h ∷ hits) =
    insert_hit-IsDescending h (sort_hits hits) (sort_hits-IsDescending hits)

module _ (py : Python) (client : MockRegistry) (full_name : String) where
  -- An entry that comes close enough to the name.
  abbrev pub is_close : RegistryEntry → Bool
  is_close entry = leb client.match_threshold (score_of py full_name entry)

  lists-matches :
      (id : String) (entries : List RegistryEntry)
      → lists id (matches py client full_name entries)
        ≡ any (λ e. is_close e && e.entry_id == id) entries
  unfolding matches
  lists-matches id [] = refl
  lists-matches id (e ∷ entries) = ground (arith, lists-matches id entries)

  -- The hits are in descending order of their scores, and an entry's id is among them exactly when
  -- an entry of that id has a ratio of at least the threshold.
  pub hits_for-exact :
      IsDescending (hits_for py client full_name)
      × ((id : String)
          → lists id (hits_for py client full_name)
            ≡ any (λ e. is_close e && e.entry_id == id) client.entries)
  hits_for-exact = (
    sort_hits-IsDescending (matches py client full_name client.entries),
    λ id.
        lists-sort_hits id (matches py client full_name client.entries)
        ∙ lists-matches id client.entries,
  )

  any_of_close :
      (before after : List RegistryEntry) (e : RegistryEntry)
      → is_close e ≡ true
      → any (λ x. is_close x && x.entry_id == e.entry_id) (before ++ e ∷ after) ≡ true
  any_of_close [] after e h = ground (arith, h, eq_refl e.entry_id)
  any_of_close (x ∷ before) after e h = ground (arith, any_of_close before after e h)

  -- If a text matches itself with ratio 1.0 and the threshold is at most 1.0, then a search for a
  -- name that has the words of a listed one, once both are case-folded, finds its entry.
  pub listed-found :
      (before after : List RegistryEntry) (e : RegistryEntry)
      → IsLawful py
      → client.match_threshold ≤ unit
      → client.entries ≡ before ++ e ∷ after
      → split (py.casefold full_name) ≡ split (py.casefold e.full_name)
      → lists e.entry_id (hits_for py client full_name) ≡ true
  unfolding score_of registry_normalize
  listed-found before after e law below at_place same =
      let score : score_of py full_name e ≡ unit =
        ap (λ words. py.ratio (join " " words) (registry_normalize py e.full_name)) same
        ∙ law.ratio_self (registry_normalize py e.full_name) in
      hits_for-exact.1 e.entry_id
      ∙ ap (any (λ x. is_close x && x.entry_id == e.entry_id)) at_place
      ∙ any_of_close before after e (ground (arith, score, below))

module _ {W : Type 0} (py : Python) (random : W → Score × W) where
  -- With a failure rate of zero a search answers with its hits and leaves the generator alone.
  pub search-value :
      (client : MockRegistry) (full_name : String) (w : W)
      → client.failure_rate ≡ 0
      → search py random client full_name w ≡ (value (hits_for py client full_name), w)
  unfolding search
  search-value client full_name w h = rw (h, search) refl
