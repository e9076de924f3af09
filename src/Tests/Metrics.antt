-- ===== src/Tests/Metrics.antt =====
-- A witness for the gate of eval/run_eval.py, with a rounding that is Python's.
use native.Mathlib.Nat.{div-add-mod', mod-lt, mul-le-mul_right, mul_assoc, mul_comm}
use kyc_agent_nordvik.Prelude.{
  ℕ, ◌+◌, ◌*◌, ◌/◌, ◌≡◌, sym, ap, ◌∙◌, ◌<◌, ◌≤◌, inl, inr, ltb, ltb-false, Bool-cases, refl, ◌↔◌,
  Bool, true, false, some, List, [], ◌∷◌, nonempty, any, arith,
}
use kyc_agent_nordvik.Eval.Summary.{Row, IsRounding, should_escalate, with_summary, exit_code}
use kyc_agent_nordvik.Effects.{Exception, value}
use kyc_agent_nordvik.Eval.Gate.{is_missed, exit_code-zero_iff}

abbrev pub nearest : ℕ → ℕ → ℕ
nearest a b = (20000 * a + b) / (2 * b)

regroup : (q b : ℕ) → q * (2 * b) ≡ 2 * (q * b)
regroup q b = sym (mul_assoc q 2 b) ∙ ap (λ x. x * b) (mul_comm q 2) ∙ mul_assoc 2 q b

-- The quotient q of 20000 * a + b by 2 * b, with its remainder.
quotient :
    (a b : ℕ)
    → 0 < b
    → (2 * (nearest a b * b) ≤ 20000 * a + b) × (20000 * a ≤ 2 * (nearest a b * b) + b)
quotient a b h =
    let whole = div-add-mod' (20000 * a + b) (2 * b) in
    let rest = mod-lt (20000 * a + b) {m = 2 * b} (omega (arith, h)) in
    let assoc = regroup (nearest a b) b in
    (omega (arith, whole, rest, assoc), omega (arith, whole, rest, assoc))

ltb-true : (a b : ℕ) → ltb a b ≡ true → a < b
ltb-true a b h = ground arith

only_10000 : (q n : ℕ) → 0 < n → 2 * (q * n) ≤ 20001 * n → 20000 * n ≤ 2 * (q * n) + n → q ≡ 10000
only_10000 q n h lower upper = elim (Bool-cases (ltb q 10000)) [
  | inl e ↦ absurd (
      omega (
        arith,
        h,
        upper,
        mul-le-mul_right {m = q} {n = 9999} n (omega (arith, ltb-true q 10000 e)),
      ))
  | inr e ↦ elim (Bool-cases (ltb 10000 q)) [
    | inl f ↦ absurd (
        omega (
          arith,
          h,
          lower,
          mul-le-mul_right {m = 10001} {n = q} n (omega (arith, ltb-true 10000 q f)),
        ))
    | inr f ↦ omega (arith, ltb-false q 10000 e, ltb-false 10000 q f)
  ]
]

pub nearest-IsRounding : IsRounding nearest
nearest-IsRounding = record {
  whole = λ n h.
      let (lower, upper) = quotient n n h in
      only_10000 (nearest n n) n h (omega (arith, lower)) upper;
  lower = λ a b h. (quotient a b h).0;
  upper = λ a b h. (quotient a b h).1;
}

abbrev row : Bool → Bool → Row
row expected predicted = record {
  case_id = "golden";
  typical = true;
  expected_outcome = "escalate";
  expected_escalation = expected;
  predicted_outcome = "escalate";
  predicted_escalation = predicted;
  reason_codes = [];
  reason_codes_ok = true;
  outcome_ok = true;
  field_total = 2;
  field_correct = 2;
}

abbrev rows : List Row
rows = row true true ∷ row false false ∷ row true true ∷ []

abbrev pub no_rows : Exception
no_rows = record { type_name = "ZeroDivisionError"; message = "division by zero" }

exit_code-zero_iff_example :
    (exit_code false
        (with_summary nearest no_rows (value rows))
        (with_summary nearest no_rows (value rows))
      ≡ some 0)
    ↔ ((nonempty (should_escalate rows) ≡ true) × (any is_missed rows ≡ false))
exit_code-zero_iff_example =
    exit_code-zero_iff nearest nearest-IsRounding no_rows rows rows (omega arith) refl
