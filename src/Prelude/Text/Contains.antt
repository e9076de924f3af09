-- ===== src/Prelude/Text/Contains.antt =====
-- Texts that hold a given text.
use Prim.Native.Char.{Char, code}
use Prim.Native.String
use Prim.Native.String.append as append
use Prim.Native.String.{String}
use Prim.Native.Nat.{ℕ}
use mathlib.Core.Path.{◌≡◌, refl, subst}
use mathlib.Core.Bool.{Bool, true, false, ◌||◌, ◌&&◌}
use native.Mathlib.Omega.{arith}
use kyc_agent_nordvik.Prelude.Tests.{leb}
use kyc_agent_nordvik.Prelude.Text.{starts_with, contains}

same_code : (n : ℕ) → (leb n n && leb n n) ≡ true
same_code n = ground arith

either : (a b : Bool) → b ≡ true → (a || b) ≡ true
either a b h = ground arith

append-nil : (s : String) → String.◌++◌ String.[] s ≡ s
append-nil s = λ i. append.nil s i

append-cons :
    (c : Char) (s t : String) → String.◌++◌ (String.◌∷◌ c s) t ≡ String.◌∷◌ c (String.◌++◌ s t)
append-cons c s t = λ i. append.cons c s t i

starts_with-append : (p s : String) → starts_with p (String.◌++◌ p s) ≡ true
unfolding starts_with
starts_with-append String.[] s = refl
starts_with-append (String.◌∷◌ c p) s =
    rw (append-cons c p s, same_code (code c)) (starts_with-append p s)

contains-starts_with : (p s : String) → starts_with p s ≡ true → contains p s ≡ true
unfolding contains
contains-starts_with p String.[] h = h
contains-starts_with p (String.◌∷◌ c s) h = rw h refl

-- A text is in every text that starts with it, and in what has such a text at its end.
pub contains-prefix : (p s : String) → contains p (String.◌++◌ p s) ≡ true
contains-prefix p s = contains-starts_with p (String.◌++◌ p s) (starts_with-append p s)

pub contains-append : (p a s : String) → contains p s ≡ true → contains p (String.◌++◌ a s) ≡ true
unfolding contains
contains-append p String.[] s h = rw (append-nil s) h
contains-append p (String.◌∷◌ c a) s h = rw (append-cons c a s) (
    either (starts_with p (String.◌∷◌ c (String.◌++◌ a s))) (contains p (String.◌++◌ a s))
      (contains-append p a s h))

and_same : (a b d : Bool) → (a && b) ≡ true → (b ≡ true → d ≡ true) → (a && d) ≡ true
and_same true b d h k = k h
and_same false b d h k = h

or_both :
    (a b c d : Bool)
    → (a || b) ≡ true
    → (a ≡ true → c ≡ true)
    → (b ≡ true → d ≡ true)
    → (c || d) ≡ true
or_both true b c d h k l = rw (k refl) refl
or_both false b c d h k l = either c d (l h)

starts_with-left :
    (p s t : String) → starts_with p s ≡ true → starts_with p (String.◌++◌ s t) ≡ true
unfolding starts_with
starts_with-left String.[] s t h = refl
starts_with-left (String.◌∷◌ c p) String.[] t h = cc
starts_with-left (String.◌∷◌ c p) (String.◌∷◌ d s) t h =
    rw (append-cons d s t)
      (and_same _ (starts_with p s) (starts_with p (String.◌++◌ s t)) h (starts_with-left p s t))

pub contains-left : (p s t : String) → contains p s ≡ true → contains p (String.◌++◌ s t) ≡ true
unfolding contains
contains-left p String.[] t h = contains-starts_with p _ (starts_with-left p String.[] t h)
contains-left p (String.◌∷◌ c s) t h = rw (append-cons c s t) (
    or_both (starts_with p (String.◌∷◌ c s)) (contains p s) _ (contains p (String.◌++◌ s t)) h
      (λ e.
        subst (λ u. starts_with p u ≡ true) (append-cons c s t)
          (starts_with-left p (String.◌∷◌ c s) t e))
      (contains-left p s t))
