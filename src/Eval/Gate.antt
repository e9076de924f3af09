-- ===== src/Eval/Gate.antt =====
-- The gate of eval/run_eval.py: no escalation is missed.
use kyc_agent_nordvik.Prelude.{
  ℕ, ◌+◌, ◌*◌, ◌≤◌, ◌<◌, ◌≡◌, refl, subst, ◌↔◌, inl, inr, Bool, true, false, not, ◌&&◌, Option,
  some, List, [], ◌∷◌, ap, length, select, any, ltb, nonempty, arith, Bool-cases,
}
use kyc_agent_nordvik.Effects.{Exception, value}
use kyc_agent_nordvik.Eval.Summary.{
  Row, IsRounding, should_escalate, true_escalations, ratio_if_any, recall_gate, exit_code,
  with_summary, summarize,
}

-- A row that should have been escalated and was not.
abbrev pub is_missed : Row → Bool
is_missed r = r.expected_escalation && not r.predicted_escalation

escalations :
    (rows : List Row)
    → length (true_escalations rows) + length (select is_missed rows)
      ≡ length (should_escalate rows)
escalations [] = refl
escalations (r ∷ rows) = ground (arith, escalations rows)

none_selected :
    {A : Type 0} (p : A → Bool) (xs : List A) → (any p xs ≡ false) ↔ (length (select p xs) ≡ 0)
none_selected p [] = (λ e. refl, λ e. refl)
none_selected p (x ∷ xs) = ground (arith, none_selected p xs)

pub nonempty-length : {A : Type 0} (xs : List A) → (nonempty xs ≡ true) ↔ (0 < length xs)
nonempty-length [] = (λ e. cc, λ h. absurd (omega (arith, h)))
nonempty-length (x ∷ xs) = (λ e. omega arith, λ h. refl)

positive : (b : ℕ) → (ltb 0 b ≡ true) ↔ (0 < b)
positive b = ground arith

gate_some : (r : ℕ) → (recall_gate (some r) ≡ 0) ↔ (r ≡ 10000)
gate_some r = ground arith

some-inj : {a b : ℕ} → ◌≡◌ {A = Option ℕ} (some a) (some b) → a ≡ b
some-inj e = cc

module _ (ratio : ℕ → ℕ → ℕ) (rounding : IsRounding ratio) where
  -- A recall that is rounded to 1.0 is 1.0, of fewer than 20000.
  rounded_whole : (a b : ℕ) → 0 < b → a ≤ b → b < 20000 → ratio a b ≡ 10000 → a ≡ b
  rounded_whole a b n h k e =
      let lower = subst (λ r. 2 * (r * b) ≤ 20000 * a + b) e (rounding.lower a b n) in
      omega (arith, lower, h, k)

  recall_gate_iff :
      (a m b : ℕ)
      → a + m ≡ b
      → b < 20000
      → (recall_gate (ratio_if_any ratio a b) ≡ 0) ↔ ((0 < b) × (m ≡ 0))
  recall_gate_iff a m b h k = elim (Bool-cases (ltb 0 b)) [
    | inr e ↦ rw e (λ f. cc, λ (n, _). cc ((positive b).1 n, e))
    | inl e ↦
        let n = (positive b).0 e in
        rw e (
          λ f.
              let whole = rounded_whole a b n (omega (arith, h)) k ((gate_some (ratio a b)).0 f) in
              (n, omega (arith, whole, h)),
          λ (_, z).
              (gate_some (ratio a b)).1
                (subst (λ c. ratio c b ≡ 10000) (omega (arith, h, z)) (rounding.whole b n)),
        )
  ]

  -- With rounding as Python's, fewer than 20000 cases that should be escalated, and a case at all in
  -- the ablation, the exit code of a full run is 0 exactly when there is a case that should be
  -- escalated and none of these was missed.
  pub exit_code-zero_iff :
      (zero_division : Exception) (full ablation : List Row)
      → length (should_escalate full) < 20000
      → nonempty ablation ≡ true
      → (exit_code false
            (with_summary ratio zero_division (value full))
            (with_summary ratio zero_division (value ablation))
          ≡ some 0)
        ↔ ((nonempty (should_escalate full) ≡ true) × (any is_missed full ≡ false))
  unfolding summarize
  exit_code-zero_iff z [] ablation k n = (λ e. cc, λ h. cc)
  exit_code-zero_iff z (r ∷ rows) [] k n = cc
  exit_code-zero_iff z (r ∷ rows) (a ∷ ablation) k n =
      let full = r ∷ rows in
      let gate =
        recall_gate_iff (length (true_escalations full)) (length (select is_missed full))
          (length (should_escalate full)) (escalations full) k in
      let missed = none_selected is_missed full in
      let some_due = nonempty-length (should_escalate full) in
      (
        λ e. let (x, y) = gate.0 (some-inj e) in (some_due.1 x, missed.1 y),
        λ (x, y). ap some (gate.1 (some_due.0 x, missed.0 y)),
      )
