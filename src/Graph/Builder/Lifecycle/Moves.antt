-- ===== src/Graph/Builder/Lifecycle/Moves.antt =====
-- Updates and commands of graph/nodes.py as moves of the specification.
use kyc_agent_nordvik.Prelude.{
  false, ◌≡◌, ◌≢◌, refl, sym, ap, ◌∙◌, subst, inl, inr, Option, none, some, List, arith,
}
use kyc_agent_nordvik.Effects.{Result, ok, crash}
use kyc_agent_nordvik.Effects.Ensures.{IfOk}
use kyc_agent_nordvik.Rules.Risk.{decide_gate}
use kyc_agent_nordvik.Schemas.Case.{CaseStatus, awaiting_human_review}
use kyc_agent_nordvik.Schemas.Decisions.{
  RuleFlag, Decision, DecisionOutcome, approve, reject, escalate, system, ReviewOutcome, approved,
  rejected,
}
use kyc_agent_nordvik.Graph.State.{KycState, Update, apply_update, last_value, last_written}
use kyc_agent_nordvik.Graph.Nodes.Base.{
  NodeName, intake, router, orchestrator, extract_document, validator, risk_scorer, decision_gate,
  auto_decision, human_review, finalize, handle_error, Command,
}
use kyc_agent_nordvik.Graph.Nodes.Decide.{gate_decision, gate_by, outcome_of}
use kyc_agent_nordvik.Graph.Builder.{Pc, at, Config, target, after_update, after_command}
use kyc_agent_nordvik.Graph.Builder.Routes.{GoesTo}
use kyc_agent_nordvik.Graph.Builder.Lifecycle.{
  Shown, show, shown, settled, referred, Moves, is_final, Writes, ShowsAt, IsOpen,
}
use kyc_agent_nordvik.Graph.Builder.Lifecycle.Writes.{CommandKeeps}

-- What shows after an update.
pub shown-apply_update :
    (s : KycState) (u : Update) (st : Option CaseStatus) (d : Option Decision)
    → Writes st d u
    → shown (apply_update s u) ≡ show (last_value s.status st) (last_written s.decision d)
unfolding apply_update
shown-apply_update s u st d (e, f) = rw (e, f) refl

pub both :
    {A : Type 0} (P Q : A → Type 0) (r : Result A) → IfOk P r → IfOk Q r → IfOk (λ a. P a × Q a) r
both P Q (ok a) h k = (h, k)
both P Q (crash c) h k = tt

decide_gate-system :
    (c : Option RuleFlag) (flags triggers : List RuleFlag) (degraded : _)
    → (decide_gate c flags triggers degraded).decided_by ≡ system
unfolding decide_gate
decide_gate-system c flags triggers degraded = ground arith

pub outcome_of-final : (o : ReviewOutcome) → outcome_of o ≢ escalate
outcome_of-final approved e = cc
outcome_of-final rejected e = cc

some-inj : {A : Type 0} (a b : A) → ◌≡◌ {A = Option A} (some a) (some b) → a ≡ b
some-inj a b e = cc

-- A step of a case that showed `v`.
abbrev pub Refines : Shown → KycState → Pc → Type 0
Refines v s pc = ShowsAt (shown s) pc × Moves v (shown s)

module _ {W : Type 0} where
  abbrev pub ConfigRefines : Shown → Config W → Type 0
  ConfigRefines v c = Refines v c.state c.pc

  pub update-Refines :
      (s : KycState) (pc : Pc) (r : Result Update) (w : W)
      → is_final s.status ≡ false
      → IfOk (λ u. Refines (shown s) (apply_update s u) pc) r
      → ConfigRefines (shown s) (after_update s pc r w)
  unfolding after_update
  update-Refines s pc (ok u) w n h = h
  update-Refines s pc (crash c) w n h = (n, inl refl)

  pub command-Refines :
      (s : KycState) (r : Result Command) (w : W)
      → is_final s.status ≡ false
      → IfOk (λ c. Refines (shown s) (apply_update s c.update) (target c.goto)) r
      → ConfigRefines (shown s) (after_command s r w)
  unfolding after_command
  command-Refines s (ok c) w n h = h
  command-Refines s (crash c) w n h = (n, inl refl)

pub map_ok :
    {A : Type 0} (P Q : A → Type 0) (r : Result A) → ((a : A) → P a → Q a) → IfOk P r → IfOk Q r
map_ok P Q (ok a) f h = f a h
map_ok P Q (crash c) f h = tt

-- An update that writes nothing leaves what shows.
pub keeps :
    (s : KycState) (pc : Pc) (u : Update)
    → ShowsAt (shown s) pc
    → Writes none none u
    → Refines (shown s) (apply_update s u) pc
keeps s pc u h k =
    let e = shown-apply_update s u none none k in (subst (λ v. ShowsAt v pc) (sym e) h, inl e)

-- One that writes a status or a decision moves what shows.
pub moves :
    (s : KycState) (pc : Pc) (u : Update) (st : Option CaseStatus) (d : Option Decision)
    → Writes st d u
    → ShowsAt (show (last_value s.status st) (last_written s.decision d)) pc
    → Moves (shown s) (show (last_value s.status st) (last_written s.decision d))
    → Refines (shown s) (apply_update s u) pc
moves s pc u st d k h m =
    let e = sym (shown-apply_update s u st d k) in
    (subst (λ v. ShowsAt v pc) e h, subst (Moves (shown s)) e m)

pub goes :
    (s : KycState) (a b : NodeName) (c : Command)
    → ShowsAt (shown s) (at a)
    → ShowsAt (shown s) (at b)
    → GoesTo a b c × CommandKeeps c
    → Refines (shown s) (apply_update s c.update) (target c.goto)
goes s a b c h k (inl e, u) =
    subst (λ g. Refines (shown s) (apply_update s c.update) (target g)) (sym e)
      (keeps s (at a) c.update h u)
goes s a b c h k (inr e, u) =
    subst (λ g. Refines (shown s) (apply_update s c.update) (target g)) (sym e)
      (keeps s (at b) c.update k u)

approve-ne-escalate : ◌≢◌ {A = DecisionOutcome} approve escalate
approve-ne-escalate e = cc

reject-ne-escalate : ◌≢◌ {A = DecisionOutcome} reject escalate
reject-ne-escalate e = cc

not_escalated : {o p : DecisionOutcome} → o ≡ p → p ≢ escalate → o ≢ escalate
not_escalated e h f = h (sym e ∙ f)

gate-system : (s : KycState) → (gate_decision s).decided_by ≡ system
gate-system s = decide_gate-system s.completeness_flag _ _ _

pub gate_by-Refines :
    (s : KycState) (o : DecisionOutcome)
    → (gate_decision s).outcome ≡ o
    → IsOpen (shown s)
    → Refines
        (shown s)
        (apply_update s (gate_by o (gate_decision s)).update)
        (target (gate_by o (gate_decision s)).goto)
gate_by-Refines s approve e h =
    let d = gate_decision s in
    let f = ap (λ v. show v.status (some d)) h in
    let final = not_escalated e approve-ne-escalate in
    moves s (at auto_decision) _ none (some d) (refl, refl) (d, f, final, gate-system s)
      (inr (settled d (gate-system s) final h f))
gate_by-Refines s reject e h =
    let d = gate_decision s in
    let f = ap (λ v. show v.status (some d)) h in
    let final = not_escalated e reject-ne-escalate in
    moves s (at auto_decision) _ none (some d) (refl, refl) (d, f, final, gate-system s)
      (inr (settled d (gate-system s) final h f))
gate_by-Refines s escalate e h =
    let d = gate_decision s in
    let f = ap (λ v. show awaiting_human_review (some d)) h in
    moves s (at human_review) _ (some awaiting_human_review) (some d) (refl, refl) (d, f, e)
      (inr (referred d (gate-system s) e h f))

-- A case at a node has not ended.
pub not_final : (v : Shown) (n : NodeName) → ShowsAt v (at n) → is_final v.status ≡ false
not_final v intake h = cc (ap (λ v. v.status) h)
not_final v router h = cc (ap (λ v. v.status) h)
not_final v orchestrator h = cc (ap (λ v. v.status) h)
not_final v extract_document h = absurd h
not_final v validator h = cc (ap (λ v. v.status) h)
not_final v risk_scorer h = cc (ap (λ v. v.status) h)
not_final v decision_gate h = cc (ap (λ v. v.status) h)
not_final v auto_decision (d, e, _, _) = cc (ap (λ v. v.status) e)
not_final v human_review (d, e, _) = cc (ap (λ v. v.status) e)
not_final v finalize (st, d, e, (_, inl (f, _))) = cc (ap (λ v. v.status) e, f)
not_final v finalize (st, d, e, (_, inr (f, _))) = cc (ap (λ v. v.status) e, f)
not_final v handle_error h = cc (ap (λ v. v.status) h)
