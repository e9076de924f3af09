-- ===== src/Effects/Ensures.antt =====
-- Postconditions of code that calls the outside world, with one rule for each way to build it.
use kyc_agent_nordvik.Effects.{Crash, Result, ok, crash, Run, pure, fail, ◌>>=◌, continue}

-- Whatever the outside world does, the result of `m` satisfies `Q`.
pub record Ensures {W A : Type 0} (m : Run W A) (Q : Result A → Type 0) : Type 0 where
  pub at : (w : W) → Q (m w).0

-- `P` of the value, if there is one.
abbrev pub IfOk : {A : Type 0} → (A → Type 0) → Result A → Type 0
IfOk P (ok a) = P a
IfOk P (crash c) = Unit

-- There is a value, and `P` of it.
abbrev pub Returns : {A : Type 0} → (A → Type 0) → Result A → Type 0
Returns P (ok a) = P a
Returns P (crash c) = ⊥

module _ {W A B : Type 0} {P : A → Type 0} {Q : B → Type 0} where
  after-IfOk :
      (r : Result A) (w : W) (f : A → Run W B)
      → IfOk P r
      → ((a : A) → P a → Ensures (f a) (IfOk Q))
      → IfOk Q (continue r f w).0
  after-IfOk (ok a) w f h k = (k a h).at w
  after-IfOk (crash c) w f h k = tt

  after-Returns :
      (r : Result A) (w : W) (f : A → Run W B)
      → Returns P r
      → ((a : A) → P a → Ensures (f a) (Returns Q))
      → Returns Q (continue r f w).0
  after-Returns (ok a) w f h k = (k a h).at w
  after-Returns (crash c) w f h k = h

  pub bind-IfOk :
      (m : Run W A) (f : A → Run W B)
      → Ensures m (IfOk P)
      → ((a : A) → P a → Ensures (f a) (IfOk Q))
      → Ensures (m >>= f) (IfOk Q)
  unfolding ◌>>=◌
  bind-IfOk m f h k = record { at = λ w. let (r, w') = m w in after-IfOk r w' f (h.at w) k }

  pub bind-Returns :
      (m : Run W A) (f : A → Run W B)
      → Ensures m (Returns P)
      → ((a : A) → P a → Ensures (f a) (Returns Q))
      → Ensures (m >>= f) (Returns Q)
  unfolding ◌>>=◌
  bind-Returns m f h k = record { at = λ w. let (r, w') = m w in after-Returns r w' f (h.at w) k }

module _ {W A : Type 0} {P : A → Type 0} where
  pub pure-IfOk : (a : A) → P a → Ensures {W = W} (pure a) (IfOk P)
  unfolding pure
  pure-IfOk a h = record { at = λ w. h }

  pub pure-Returns : (a : A) → P a → Ensures {W = W} (pure a) (Returns P)
  unfolding pure
  pure-Returns a h = record { at = λ w. h }

  pub fail-IfOk : (c : Crash) → Ensures {W = W} (fail c) (IfOk P)
  unfolding fail
  fail-IfOk c = record { at = λ w. tt }

-- Where nothing is to be known of a value.
abbrev pub Anything : {A : Type 0} → A → Type 0
Anything a = Unit

module _ {A : Type 0} where
  any-IfOk : (r : Result A) → IfOk Anything r
  any-IfOk (ok a) = tt
  any-IfOk (crash c) = tt

module _ {W A : Type 0} where
  pub anything : (m : Run W A) → Ensures m (IfOk Anything)
  anything m = record { at = λ w. any-IfOk (m w).0 }

module _ {W A B : Type 0} {Q : B → Type 0} where
  -- After a step of which nothing is to be known.
  pub skip-IfOk :
      (m : Run W A) (f : A → Run W B)
      → ((a : A) → Ensures (f a) (IfOk Q))
      → Ensures (m >>= f) (IfOk Q)
  skip-IfOk m f k = bind-IfOk m f (anything m) (λ a _. k a)

module _ {W A B : Type 0} {Q : B → Type 0} where
  -- After a step that returns, of whose value nothing is to be known.
  pub skip-Returns :
      (m : Run W A) (f : A → Run W B)
      → Ensures m (Returns Anything)
      → ((a : A) → Ensures (f a) (Returns Q))
      → Ensures (m >>= f) (Returns Q)
  skip-Returns m f h k = bind-Returns m f h (λ a _. k a)

with_value :
    {A : Type 0} (P : A → Type 0) (r : Result A) → Returns Anything r → IfOk P r → Returns P r
with_value P (ok a) h k = k
with_value P (crash c) h k = h

module _ {W A : Type 0} {P : A → Type 0} where
  -- What holds of the value, if there is one, holds of the value of code that returns.
  pub Returns-of :
      (m : Run W A) → Ensures m (Returns Anything) → Ensures m (IfOk P) → Ensures m (Returns P)
  Returns-of m h k = record { at = λ w. with_value P (m w).0 (h.at w) (k.at w) }
