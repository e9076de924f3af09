-- ===== src/Prelude/Text.antt =====
-- Text: f-strings as `concat`, `str.join`, `str.split()` and dictionaries with text keys.
pub mod Contains
use Prim.Native.Char.{Char, code}
use Prim.Native.String
use Prim.Native.String.{String}
use Prim.Native.Nat.{ℕ, zero, suc}
use text.Mathlib.Text.{◌==◌}
use text.Mathlib.TextEquality.{eq_iff}
use mathlib.Core.Path.{◌≡◌, refl, sym, subst}
use mathlib.Core.Logic.{inl, inr}
use mathlib.Core.Bool.{Bool, true, false, ◌||◌, ◌&&◌}
use mathlib.Core.Option.{Option, none, some}
use mathlib.Core.List.{List, [], ◌∷◌}
use native.Mathlib.Omega.{arith}
use kyc_agent_nordvik.Prelude.Tests.{Bool-cases, leb, if◌then◌else◌}

-- The parts of an f-string, one after the other.
abbrev pub concat : List String → String
concat [] = ""
concat (s ∷ parts) = String.◌++◌ s (concat parts)

-- sep.join(parts)
abbrev pub join : String → List String → String
join sep [] = ""
join sep (s ∷ []) = s
join sep (s ∷ t ∷ parts) = concat (s ∷ sep ∷ join sep (t ∷ parts) ∷ [])

-- bool(text)
abbrev pub truthy : String → Bool
truthy s = if s == "" then false else true

-- str.isspace() of one character.
is_space : Char → Bool
is_space ch =
    let c = code ch in
    (leb 9 c && leb c 13)
    || (leb 28 c && leb c 32)
    || (leb 0x85 c && leb c 0x85)
    || (leb 0xa0 c && leb c 0xa0)
    || (leb 0x1680 c && leb c 0x1680)
    || (leb 0x2000 c && leb c 0x200a)
    || (leb 0x2028 c && leb c 0x2029)
    || (leb 0x202f c && leb c 0x202f)
    || (leb 0x205f c && leb c 0x205f)
    || (leb 0x3000 c && leb c 0x3000)

flush : String → List String → List String
flush word rest = if word == "" then rest else word ∷ rest

split_from : String → String → List String
split_from word String.[] = flush word []
split_from word (String.◌∷◌ c s) = elim (is_space c) [
  | true ↦ flush word (split_from "" s)
  | false ↦ split_from (String.◌++◌ word (String.◌∷◌ c String.[])) s
]

-- s.split(): the words between runs of white space.
unfoldable pub split : String → List String
unfolding split_from flush is_space
split s = split_from "" s

-- a in b, for texts
starts_with : String → String → Bool
starts_with String.[] s = true
starts_with (String.◌∷◌ c p) String.[] = false
starts_with (String.◌∷◌ c p) (String.◌∷◌ d s) =
    (leb (code c) (code d) && leb (code d) (code c)) && starts_with p s

unfoldable pub contains : String → String → Bool
unfolding starts_with
contains p String.[] = starts_with p String.[]
contains p (String.◌∷◌ c s) = starts_with p (String.◌∷◌ c s) || contains p s

-- s.partition(":"), without the separator
unfoldable pub partition_colon : String → String × String
partition_colon String.[] = ("", "")
partition_colon (String.◌∷◌ c s) =
    let (before, after) = partition_colon s in
    if leb (code c) 58 && leb 58 (code c) then ("", s) else (String.◌∷◌ c before, after)

-- s[:n]
unfoldable pub take_chars : ℕ → String → String
take_chars zero s = ""
take_chars (suc n) String.[] = ""
take_chars (suc n) (String.◌∷◌ c s) = String.◌∷◌ c (take_chars n s)

-- A dictionary in insertion order: an assignment to a key that is there keeps its place.
module _ {ℓ} {V : Type ℓ} where
  -- d.get(k)
  abbrev pub get : String → List (String × V) → Option V
  get k [] = none
  get k ((j, v) ∷ d) = if j == k then some v else get k d

  -- d[k] = v
  abbrev pub put : String → V → List (String × V) → List (String × V)
  put k v [] = (k, v) ∷ []
  put k v ((j, w) ∷ d) = if j == k then (j, v) ∷ d else (j, w) ∷ put k v d

  pub get-put :
      (k j : String) (v : V) (d : List (String × V))
      → get j (put k v d) ≡ (if k == j then some v else get j d)
  get-put k j v [] = refl
  get-put k j v ((i, w) ∷ d) = ground (arith, eq_iff k j, eq_iff i k, eq_iff i j, get-put k j v d)

module _ {ℓ κ} {V : Type ℓ} (P : String → V → Type κ) where
  -- `P` of every entry of a dictionary.
  abbrev pub AllEntries : List (String × V) → Type κ
  AllEntries [] = Unit
  AllEntries ((k, v) ∷ d) = P k v × AllEntries d

  pub AllEntries-put :
      (k : String) (v : V) (d : List (String × V)) → P k v → AllEntries d → AllEntries (put k v d)
  AllEntries-put k v [] h all = (h, tt)
  AllEntries-put k v ((j, w) ∷ d) h all = elim (Bool-cases (j == k)) [
    | inl e ↦ rw e (subst (λ i. P i v) (sym ((eq_iff j k).0 e)) h, all.1)
    | inr e ↦ rw e (all.0, AllEntries-put k v d h all.1)
  ]

  pub get-AllEntries :
      (k : String) (v : V) (d : List (String × V)) → get k d ≡ some v → AllEntries d → P k v
  get-AllEntries k v [] e all = cc
  get-AllEntries k v ((j, w) ∷ d) e all = elim (Bool-cases (j == k)) [
    | inl same ↦ subst (λ i. P i v) ((eq_iff j k).0 same) (subst (P j) (found j w d e same) all.0)
    | inr other ↦ get-AllEntries k v d (skipped j w d e other) all.1
  ]
    where
      found :
          (j : String) (w : V) (d : List (String × V))
          → (if j == k then some w else get k d) ≡ some v
          → (j == k) ≡ true
          → w ≡ v
      found j w d e same = ground (arith, e, same)

      skipped :
          (j : String) (w : V) (d : List (String × V))
          → (if j == k then some w else get k d) ≡ some v
          → (j == k) ≡ false
          → get k d ≡ some v
      skipped j w d e other = ground (arith, e, other)

split_words : split " Viktor \t SALO\n" ≡ "Viktor" ∷ "SALO" ∷ []
unfolding split
split_words = refl
