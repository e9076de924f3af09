-- ===== src/Effects.antt =====
-- Calls of the outside world (models, registries, storage) and the code that makes them. `W` is
-- the state of all that is outside, which every call may read and change.
pub mod Ensures
pub mod Tracks
use kyc_agent_nordvik.Prelude.{String, ◌≡◌, refl, ◌⊎◌, inl, inr}
use kyc_agent_nordvik.Rules.Validation.{Failure}

-- type(exc).__name__ and str(exc)
pub record Exception : Type 0 where
  pub type_name : String
  pub message : String

-- What an awaited call answers.
pub data Outcome (A : Type 0) : Type 0 where
  value : A → Outcome A
  raised : Exception → Outcome A

pub Outcome-cases :
    {A : Type 0} (o : Outcome A)
    → ((a : A) × (o ≡ value a)) ⊎ ((exc : Exception) × (o ≡ raised exc))
Outcome-cases (value a) = inl (a, refl)
Outcome-cases (raised exc) = inr (exc, refl)

abbrev pub Call : Type 0 → Type 0 → Type 0
Call W A = W → Outcome A × W

-- An exception that leaves a node, and so ends the run.
pub data Crash : Type 0 where
  from_rule : Failure → Crash
  key_error assertion_error : Crash
  uncaught : Exception → Crash

pub data Result (A : Type 0) : Type 0 where
  ok : A → Result A
  crash : Crash → Result A

abbrev pub Run : Type 0 → Type 0 → Type 0
Run W A = W → Result A × W

module _ {A : Type 0} where
  abbrev pub uncaught_outcome : Outcome A → Result A
  uncaught_outcome (value a) = ok a
  uncaught_outcome (raised x) = crash (uncaught x)

module _ {W A : Type 0} where
  unfoldable pub pure : A → Run W A
  pure a w = (ok a, w)

  unfoldable pub fail : Crash → Run W A
  fail c w = (crash c, w)

  -- `await call` with no handler around it.
  unfoldable pub await : Call W A → Run W A
  await call w = let (o, w') = call w in (uncaught_outcome o, w')

module _ {W A B : Type 0} where
  abbrev pub continue : Result A → (A → Run W B) → Run W B
  continue (ok a) f w = f a w
  continue (crash c) f w = (crash c, w)

  infixl 5 ◌>>=◌ ◌>>◌
  -- To open it is to open `pure`, `fail` and `await` too.
  unfoldable pub ◌>>=◌ : Run W A → (A → Run W B) → Run W B
  unfolding pure fail await
  ◌>>=◌ m f w = let (r, w') = m w in continue r f w'

  abbrev pub ◌>>◌ : Run W A → Run W B → Run W B
  m >> n = m >>= λ _. n
