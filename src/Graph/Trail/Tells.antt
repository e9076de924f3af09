-- ===== src/Graph/Trail/Tells.antt =====
-- What the audit trail of a case of graph/builder.py tells of its decision at each point of the graph.
use kyc_agent_nordvik.Prelude.{◌≡◌, sym, subst, ◌⊎◌, inl, inr, some, List}
use kyc_agent_nordvik.Effects.{Result, ok, crash}
use kyc_agent_nordvik.Effects.Ensures.{IfOk}
use kyc_agent_nordvik.Audit.Sink.{AuditEvent}
use kyc_agent_nordvik.Schemas.Decisions.{Decision, HumanDecision}
use kyc_agent_nordvik.Graph.State.{KycState, Update, apply_update}
use kyc_agent_nordvik.Graph.Nodes.Base.{
  NodeName, intake, router, orchestrator, extract_document, validator, risk_scorer, decision_gate,
  auto_decision, human_review, finalize, handle_error, Command,
}
use kyc_agent_nordvik.Graph.Nodes.Decide.{human_decision}
use kyc_agent_nordvik.Graph.Builder.{
  Pc, at, fan, waiting, ended, crashed, Slot, Config, target, after_update, after_command,
  after_worker,
}
use kyc_agent_nordvik.Graph.Builder.Routes.{GoesTo}
use kyc_agent_nordvik.Graph.Trail.{
  Grows, Logged, Logged-Grows, gate_event, automatic_event, review_event, closing_event,
}

module _ {W : Type 0} (log : W → List AuditEvent) where
  -- The gate took the decision, and a human confirmed or changed it.
  abbrev pub Reviewed : KycState → Decision → W → Type 0
  Reviewed s d w =
      (h : HumanDecision) × (referral : Decision) × (d ≡ human_decision (some referral) h)
      × Logged log (gate_event s referral) w
      × Logged log (review_event s h d) w

  -- The gate took the decision, and it was announced; or a human took it.
  abbrev pub Founded : KycState → Decision → W → Type 0
  Founded s d w =
      (Logged log (gate_event s d) w × Logged log (automatic_event s d) w) ⊎ Reviewed s d w

  -- What the trail tells of a decision at each point of the graph.
  abbrev pub Tells : KycState → Decision → W → Pc → Type 0
  Tells s d w (at auto_decision) = Logged log (gate_event s d) w
  Tells s d w (at human_review) = Logged log (gate_event s d) w
  Tells s d w (waiting values) = Logged log (gate_event s d) w
  Tells s d w (at finalize) = Founded s d w
  Tells s d w ended = Founded s d w × Logged log (closing_event s d) w
  Tells s d w (at intake) = Unit
  Tells s d w (at router) = Unit
  Tells s d w (at orchestrator) = Unit
  Tells s d w (at extract_document) = Unit
  Tells s d w (at validator) = Unit
  Tells s d w (at risk_scorer) = Unit
  Tells s d w (at decision_gate) = Unit
  Tells s d w (at handle_error) = Unit
  Tells s d w (fan slots) = Unit
  Tells s d w (crashed c) = Unit

  abbrev pub Told : KycState → W → Pc → Type 0
  Told s w pc = (d : Decision) → s.decision ≡ some d → Tells s d w pc

  abbrev pub ConfigTold : Config W → Type 0
  ConfigTold c = Told c.state c.world c.pc

  pub Founded-Grows :
      (s : KycState) (d : Decision) (w w' : W) → Founded s d w → Grows log w w' → Founded s d w'
  Founded-Grows s d w w' (inl (a, b)) g =
      inl (Logged-Grows log _ w w' a g, Logged-Grows log _ w w' b g)
  Founded-Grows s d w w' (inr (h, r, e, a, b)) g =
      inr (h, r, e, Logged-Grows log _ w w' a g, Logged-Grows log _ w w' b g)

  pub after_update-Told :
      (s : KycState) (pc : Pc) (r : Result Update) (w : W)
      → IfOk (λ u. Told (apply_update s u) w pc) r
      → ConfigTold (after_update s pc r w)
  unfolding after_update
  after_update-Told s pc (ok u) w h = h
  after_update-Told s pc (crash c) w h = λ d e. tt

  pub after_command-Told :
      (s : KycState) (r : Result Command) (w : W)
      → IfOk (λ c. Told (apply_update s c.update) w (target c.goto)) r
      → ConfigTold (after_command s r w)
  unfolding after_command
  after_command-Told s (ok c) w h = h
  after_command-Told s (crash c) w h = λ d e. tt

  pub after_worker-Told :
      (s : KycState) (before after : List Slot) (r : Result Update) (w : W)
      → ConfigTold (after_worker s before after r w)
  unfolding after_worker
  after_worker-Told s before after (ok u) w = λ d e. tt
  after_worker-Told s before after (crash c) w = λ d e. tt

  any_ok : {A : Type 0} (Z : A → Type 0) (r : Result A) → ((a : A) → Z a) → IfOk Z r
  any_ok Z (ok a) f = f a
  any_ok Z (crash c) f = tt

  pub mapped :
      {A : Type 0} (P Z : A → Type 0) (r : Result A) → ((a : A) → P a → Z a) → IfOk P r → IfOk Z r
  mapped P Z (ok a) f h = f a h
  mapped P Z (crash c) f h = tt

  -- At these points nothing is to be told yet.
  abbrev IsSilent : Pc → Type 0
  IsSilent pc = (s : KycState) (d : Decision) (w : W) → Tells s d w pc

  goes-IsSilent :
      (a b : NodeName) (c : Command)
      → IsSilent (at a)
      → IsSilent (at b)
      → GoesTo a b c
      → IsSilent (target c.goto)
  goes-IsSilent a b c h k (inl e) = subst (λ g. IsSilent (target g)) (sym e) h
  goes-IsSilent a b c h k (inr e) = subst (λ g. IsSilent (target g)) (sym e) k

  pub silent-Told :
      (pc : Pc)
      → IsSilent pc
      → (s : KycState) (r : Result Update) (w : W) → ConfigTold (after_update s pc r w)
  silent-Told pc h s r w =
      after_update-Told s pc r w (any_ok _ r (λ u d e. h (apply_update s u) d w))

  pub sent-Told :
      (s : KycState) (a b : NodeName) (r : Result Command) (w : W)
      → IsSilent (at a)
      → IsSilent (at b)
      → IfOk (GoesTo a b) r
      → ConfigTold (after_command s r w)
  sent-Told s a b r w h k g = after_command-Told s r w (
      mapped (GoesTo a b) _ r (λ c g d e. goes-IsSilent a b c h k g (apply_update s c.update) d w)
        g)
