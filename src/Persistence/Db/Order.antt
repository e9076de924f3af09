-- ===== src/Persistence/Db/Order.antt =====
-- Lists in a strict order, as ORDER BY on a unique key gives them.
use mathlib.Core.List.{Memᴰ}
use mathlib.Core.List.Memᴰ.{head, tail, cases_cons, not-nil}
use kyc_agent_nordvik.Prelude.{
  ◌≡◌, refl, sym, ap, ◌∙◌, subst, inl, inr, Bool, true, false, List, [], ◌∷◌, ◌++◌, All, All-append,
  Bool-cases, select, if◌then◌else◌,
}

module _ {A : Type 0} (p : A → Bool) where
  if-Mem :
      (b : Bool) (z x : A) (rest : List A) → Memᴰ z rest → Memᴰ z (if b then x ∷ rest else rest)
  if-Mem true z x rest h = tail h
  if-Mem false z x rest h = h

  pub Mem-select : (z : A) (xs : List A) → Memᴰ z xs → p z ≡ true → Memᴰ z (select p xs)
  Mem-select z [] h e = absurd (not-nil h)
  Mem-select z (x ∷ xs) h e = elim (cases_cons h) [
    | inl f ↦ rw (ap p (sym f) ∙ e) (head f)
    | inr m ↦ if-Mem (p x) z x (select p xs) (Mem-select z xs m e)
  ]

  pub select-Mem : (z : A) (xs : List A) → Memᴰ z (select p xs) → Memᴰ z xs × (p z ≡ true)
  select-Mem z [] h = absurd (not-nil h)
  select-Mem z (x ∷ xs) h = elim (Bool-cases (p x)) [
    | inr f ↦
        let (m, e) =
          select-Mem z xs (subst (λ b. Memᴰ z (if b then x ∷ select p xs else select p xs)) f h) in
        (tail m, e)
    | inl f ↦
        elim (cases_cons (subst (λ b. Memᴰ z (if b then x ∷ select p xs else select p xs)) f h)) [
          | inl e ↦ (head e, ap p e ∙ f)
          | inr m ↦ let (m', e) = select-Mem z xs m in (tail m', e)
        ]
  ]

  pub All-select_of : (P : A → Type 0) (xs : List A) → All P xs → All P (select p xs)
  All-select_of P [] h = tt
  All-select_of P (x ∷ xs) (h, hs) = elim (Bool-cases (p x)) [
    | inl e ↦ rw e (h, All-select_of P xs hs)
    | inr e ↦ rw e (All-select_of P xs hs)
  ]

pub All-Mem : {A : Type 0} (P : A → Type 0) (z : A) (xs : List A) → All P xs → Memᴰ z xs → P z
All-Mem P z [] h m = absurd (not-nil m)
All-Mem P z (x ∷ xs) (h, hs) m = elim (cases_cons m) [
  | inl e ↦ subst P (sym e) h
  | inr m' ↦ All-Mem P z xs hs m'
]

module _ {A : Type 0} (before : A → A → Type 0) where
  -- Each is before all that follow it.
  abbrev pub Ascending : List A → Type 0
  Ascending [] = Unit
  Ascending (x ∷ xs) = All (before x) xs × Ascending xs

  pub Ascending-append :
      (xs : List A) (y : A) → Ascending xs → All (λ x. before x y) xs → Ascending (xs ++ y ∷ [])
  Ascending-append [] y h k = (tt, tt)
  Ascending-append (x ∷ xs) y (h, hs) (k, ks) =
      (All-append (before x) xs (y ∷ []) h (k, tt), Ascending-append xs y hs ks)

  pub Ascending-select : (p : A → Bool) (xs : List A) → Ascending xs → Ascending (select p xs)
  Ascending-select p [] h = tt
  Ascending-select p (x ∷ xs) (h, hs) = elim (Bool-cases (p x)) [
    | inl e ↦ rw e (All-select_of p (before x) xs h, Ascending-select p xs hs)
    | inr e ↦ rw e (Ascending-select p xs hs)
  ]

  module _ (asym : (x y : A) → before x y → before y x → ⊥) where
    heads :
        (x y : A) (xs ys : List A)
        → All (before x) xs
        → All (before y) ys
        → Memᴰ x (y ∷ ys)
        → Memᴰ y (x ∷ xs)
        → x ≡ y
    heads x y xs ys h k m n = elim (cases_cons m) [
      | inl e ↦ e
      | inr m' ↦ elim (cases_cons n) [
        | inl e ↦ sym e
        | inr n' ↦ absurd (asym x y (All-Mem _ y xs h n') (All-Mem _ x ys k m'))
      ]
    ]

    -- What comes behind the head is not the head.
    behind :
        (x y : A) (xs ys : List A)
        → x ≡ y
        → All (before x) xs
        → ((z : A) → Memᴰ z (x ∷ xs) → Memᴰ z (y ∷ ys))
        → (z : A) → Memᴰ z xs
        → Memᴰ z ys
    behind x y xs ys e h f z m = elim (cases_cons (f z (tail m))) [
      | inl g ↦ let b = subst (before x) (g ∙ sym e) (All-Mem _ z xs h m) in absurd (asym x x b b)
      | inr m' ↦ m'
    ]

    -- Two lists in the order with the same members are the same.
    pub Ascending-unique :
        (xs ys : List A)
        → Ascending xs
        → Ascending ys
        → ((z : A) → Memᴰ z xs → Memᴰ z ys)
        → ((z : A) → Memᴰ z ys → Memᴰ z xs)
        → xs ≡ ys
    Ascending-unique [] [] h k f g = refl
    Ascending-unique [] (y ∷ ys) h k f g = absurd (not-nil (g y (head refl)))
    Ascending-unique (x ∷ xs) [] h k f g = absurd (not-nil (f x (head refl)))
    Ascending-unique (x ∷ xs) (y ∷ ys) (h, hs) (k, ks) f g =
        let e = heads x y xs ys h k (f x (head refl)) (g y (head refl)) in
        let rest =
          Ascending-unique xs ys hs ks (behind x y xs ys e h f) (behind y x ys xs (sym e) k g) in
        ap (λ l. x ∷ l) rest ∙ ap (λ z. z ∷ ys) e
