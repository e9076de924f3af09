-- ===== src/Rules/Risk/Codes.antt =====
-- `sorted(set(ids))` of rules/risk.py: which ids it holds, and their order.
use Prim.Native.Nat.{ℕ, Ordering, compare as compare_ℕ}
use Prim.Native.String.{compare}
use kyc_agent_nordvik.Prelude.{
  ◌≡◌, refl, ◌⊎◌, inl, inr, ◌||◌, List, [], ◌∷◌, eq_iff, String, arith, All, All-map_of,
}
use kyc_agent_nordvik.Schemas.Ids
use kyc_agent_nordvik.Schemas.Ids.{RuleId, value, elem, same_rule, value-injective}
use kyc_agent_nordvik.Rules.Risk.{insert_id, sorted_set}

Ordering-cases : (o : Ordering) → (o ≡ Ordering.lt) ⊎ ((o ≡ Ordering.eq) ⊎ (o ≡ Ordering.gt))
Ordering-cases Ordering.lt = inl refl
Ordering-cases Ordering.eq = inr (inl refl)
Ordering-cases Ordering.gt = inr (inr refl)

same_text : (s t : String) → compare s t ≡ Ordering.eq → s ≡ t
same_text s t e = (eq_iff s t).0 (rw e)

elem-insert_id :
    (r q : RuleId) (ids : List RuleId) → elem q (insert_id r ids) ≡ (same_rule r q || elem q ids)
unfolding insert_id
elem-insert_id r q [] = refl
elem-insert_id r q (s ∷ ids) = elim (Ordering-cases (compare (value r) (value s))) [
  | inl e ↦ rw (e, insert_id) refl
  | inr (inl e) ↦
      let same : r ≡ s = value-injective r s (same_text (value r) (value s) e) in
      rw (e, insert_id) (rw same (ground arith))
  | inr (inr e) ↦ rw (e, insert_id) (ground (arith, elem-insert_id r q ids))
]

-- The sorted set holds exactly the ids of the list.
pub elem-sorted_set : (q : RuleId) (ids : List RuleId) → elem q (sorted_set ids) ≡ elem q ids
unfolding sorted_set
elem-sorted_set q [] = refl
elem-sorted_set q (r ∷ ids) = rw (elem-insert_id r q (sorted_set ids)) (rw (elem-sorted_set q ids))

-- The place of an id in the order of the texts.
abbrev rank : RuleId → ℕ
rank Ids.incomplete_package = 11
rank Ids.doc_expired = 7
rank Ids.name_mismatch = 13
rank Ids.dob_mismatch = 5
rank Ids.address_mismatch = 0
rank Ids.company_name_mismatch = 2
rank Ids.reg_number_mismatch = 16
rank Ids.extraction_incomplete = 9
rank Ids.evaluator_discrepancy = 8
rank Ids.sanctions_hit = 17
rank Ids.pep_match = 14
rank Ids.high_volume = 10
rank Ids.low_confidence = 12
rank Ids.critical_mismatch = 3
rank Ids.registry_unavailable = 15
rank Ids.ubo_sanctions_or_pep = 18
rank Ids.document_expired = 6
rank Ids.all_checks_passed = 1
rank Ids.degraded_to_manual = 4
rank Ids.unreadable_document = 19

compare_trans :
    (a b c : ℕ)
    → compare_ℕ a b ≡ Ordering.lt
    → compare_ℕ b c ≡ Ordering.lt
    → compare_ℕ a c ≡ Ordering.lt
compare_trans a b c h k = ground arith

compare_flip : (a b : ℕ) → compare_ℕ a b ≡ Ordering.gt → compare_ℕ b a ≡ Ordering.lt
compare_flip a b h = ground arith

compare-value : (r s : RuleId) → compare (value r) (value s) ≡ compare_ℕ (rank r) (rank s)
compare-value Ids.incomplete_package Ids.incomplete_package = refl
compare-value _ Ids.incomplete_package = refl
compare-value _ _ = refl

abbrev Before : RuleId → RuleId → Type 0
Before r s = compare (value r) (value s) ≡ Ordering.lt

Before-trans : (r s t : RuleId) → Before r s → Before s t → Before r t
Before-trans r s t =
    rw (compare-value r s, compare-value s t, compare-value r t)
      (compare_trans (rank r) (rank s) (rank t))

Before-of_gt : (r s : RuleId) → compare (value r) (value s) ≡ Ordering.gt → Before s r
Before-of_gt r s = rw (compare-value r s, compare-value s r) (compare_flip (rank r) (rank s))

-- Each id stands before those behind it in the order of the texts, so none stands twice.
abbrev pub IsAscending : List RuleId → Type 0
IsAscending [] = Unit
IsAscending (r ∷ ids) = All (Before r) ids × IsAscending ids

Before-insert_id :
    (r q : RuleId) (ids : List RuleId)
    → Before q r
    → All (Before q) ids
    → All (Before q) (insert_id r ids)
unfolding insert_id
Before-insert_id r q [] h hs = (h, tt)
Before-insert_id r q (s ∷ ids) h hs = elim (Ordering-cases (compare (value r) (value s))) [
  | inl e ↦ rw (e, insert_id) (h, hs)
  | inr (inl e) ↦ rw (e, insert_id) hs
  | inr (inr e) ↦ rw (e, insert_id) (hs.0, Before-insert_id r q ids h hs.1)
]

insert_id-IsAscending :
    (r : RuleId) (ids : List RuleId) → IsAscending ids → IsAscending (insert_id r ids)
unfolding insert_id
insert_id-IsAscending r [] h = (tt, tt)
insert_id-IsAscending r (s ∷ ids) h = elim (Ordering-cases (compare (value r) (value s))) [
  | inl e ↦ rw (e, insert_id) ((e, All-map_of _ _ ids (λ t. Before-trans r s t e) h.0), h)
  | inr (inl e) ↦ rw (e, insert_id) h
  | inr (inr e) ↦
      rw (e, insert_id)
        (Before-insert_id r s ids (Before-of_gt r s e) h.0, insert_id-IsAscending r ids h.1)
]

-- The sorted set is strictly ascending in the order of the ids' texts, so it holds none twice.
pub sorted_set-IsAscending : (ids : List RuleId) → IsAscending (sorted_set ids)
unfolding sorted_set
sorted_set-IsAscending [] = tt
sorted_set-IsAscending (r ∷ ids) = insert_id-IsAscending r _ (sorted_set-IsAscending ids)
