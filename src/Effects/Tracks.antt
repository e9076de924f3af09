-- ===== src/Effects/Tracks.antt =====
-- How code that calls the outside world changes it: a relation between the worlds before and after,
-- with one rule for each way to build the code, and what holds of a value together with the world
-- that it comes with.
use kyc_agent_nordvik.Effects.Ensures.{Ensures, IfOk}
use kyc_agent_nordvik.Effects.{
  Crash, Result, ok, crash, Call, Run, pure, fail, await, ◌>>=◌, continue,
}

pub record IsPreorder {W : Type 0} (R : W → W → Type 0) : Type 0 where
  pub stays : (w : W) → R w w
  pub joins : {u v w : W} → R u v → R v w → R u w

-- Whether `m` returns or not, it takes the world from `w` to one that `R` relates to it.
pub record Tracks {W A : Type 0} (R : W → W → Type 0) (m : Run W A) : Type 0 where
  pub at : (w : W) → R w (m w).1

pub record CallTracks {W A : Type 0} (R : W → W → Type 0) (call : Call W A) : Type 0 where
  pub at : (w : W) → R w (call w).1

abbrev pub IfOkAt : {W A : Type 0} → (A → W → Type 0) → Result A × W → Type 0
IfOkAt Q (ok a, w) = Q a w
IfOkAt Q (crash c, w) = Unit

-- `Q` of the value and the world after it, if there is a value.
pub record Leaves {W A : Type 0} (Q : A → W → Type 0) (m : Run W A) : Type 0 where
  pub at : (w : W) → IfOkAt Q (m w)

module _ {W : Type 0} {R : W → W → Type 0} (order : IsPreorder R) where
  pub Tracks-pure : {A : Type 0} (a : A) → Tracks R (pure a)
  unfolding pure
  Tracks-pure a = record { at = λ w. order.stays w }

  pub Tracks-fail : {A : Type 0} (c : Crash) → Tracks R (fail {A = A} c)
  unfolding fail
  Tracks-fail c = record { at = λ w. order.stays w }

  after-continue :
      {A B : Type 0} (r : Result A) (f : A → Run W B) (u w : W)
      → R u w
      → ((a : A) → Tracks R (f a))
      → R u (continue r f w).1
  after-continue (ok a) f u w h k = order.joins h ((k a).at w)
  after-continue (crash c) f u w h k = h

  pub Tracks-bind :
      {A B : Type 0} (m : Run W A) (f : A → Run W B)
      → Tracks R m
      → ((a : A) → Tracks R (f a))
      → Tracks R (m >>= f)
  unfolding ◌>>=◌
  Tracks-bind m f h k = record { at = λ w. let (r, w') = m w in after-continue r f w w' (h.at w) k }

  after_known :
      {A B : Type 0} (P : A → Type 0) (r : Result A) (f : A → Run W B) (u w : W)
      → R u w
      → IfOk P r
      → ((a : A) → P a → Tracks R (f a))
      → R u (continue r f w).1
  after_known P (ok a) f u w h p k = order.joins h ((k a p).at w)
  after_known P (crash c) f u w h p k = h

  -- After a step of whose value something is known.
  pub Tracks-bind_known :
      {A B : Type 0} (P : A → Type 0) (m : Run W A) (f : A → Run W B)
      → Tracks R m
      → Ensures m (IfOk P)
      → ((a : A) → P a → Tracks R (f a))
      → Tracks R (m >>= f)
  unfolding ◌>>=◌
  Tracks-bind_known P m f h p k = record {
    at = λ w. let (r, w') = m w in after_known P r f w w' (h.at w) (p.at w) k;
  }

module _ {W : Type 0} {R : W → W → Type 0} where
  pub Tracks-await : {A : Type 0} (call : Call W A) → CallTracks R call → Tracks R (await call)
  unfolding await
  Tracks-await call h = record { at = λ w. h.at w }

module _ {W A B : Type 0} (P : A → W → Type 0) (Q : B → W → Type 0) where
  kept :
      (r : Result A) (f : A → Run W B) (w : W)
      → IfOkAt P (r, w)
      → ((a : A) (w : W) → P a w → IfOkAt Q (f a w))
      → IfOkAt Q (continue r f w)
  kept (ok a) f w h k = k a w h
  kept (crash c) f w h k = tt

module _ {W A B : Type 0} {Q : B → W → Type 0} where
  skipped :
      (r : Result A) (f : A → Run W B) (w : W)
      → ((a : A) → Leaves Q (f a))
      → IfOkAt Q (continue r f w)
  skipped (ok a) f w k = (k a).at w
  skipped (crash c) f w k = tt

  -- After a step of which nothing is to be known.
  pub skip-Leaves :
      (m : Run W A) (f : A → Run W B) → ((a : A) → Leaves Q (f a)) → Leaves Q (m >>= f)
  unfolding ◌>>=◌
  skip-Leaves m f k = record { at = λ w. let (r, w') = m w in skipped r f w' k }

  pub bind-Leaves :
      {P : A → W → Type 0} (m : Run W A) (f : A → Run W B)
      → Leaves P m
      → ((a : A) (w : W) → P a w → IfOkAt Q (f a w))
      → Leaves Q (m >>= f)
  unfolding ◌>>=◌
  bind-Leaves {P = P} m f h k = record { at = λ w. let (r, w') = m w in kept P Q r f w' (h.at w) k }
