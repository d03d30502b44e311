-- ===== src/Handler/Page/Ordered.antt =====
-- ORDER BY keeps the rows and puts them in order.
use sakura_intern_team_e.Prelude.{
  ℕ, suc, ◌≡◌, refl, Bool, true, false, List, [], ◌∷◌, count, length, All, Bool-cases, inl, inr,
  arith,
}
use sakura_intern_team_e.Handler.Page.{place, order_by, is_above}

-- No row stands before one that belongs before it.
abbrev pub IsOrdered {ℓ} : {A : Type ℓ} → (A → A → Bool) → List A → Type 0
IsOrdered before [] = Unit
IsOrdered before (x ∷ xs) = All (λ y. before y x ≡ false) xs × IsOrdered before xs

module _ {ℓ} {A : Type ℓ} (before : A → A → Bool) where
  module _ (P : A → Type 0) where
    place-All : (x : A) (xs : List A) → P x → All P xs → All P (place before x xs)
    place-All x [] h a = (h, tt)
    place-All x (y ∷ ys) h a = elim (Bool-cases (before x y)) [
      | inl e ↦ rw e (h, a)
      | inr e ↦ rw e (a.0, place-All x ys h a.1)
    ]

    pub order_by-All : (xs : List A) → All P xs → All P (order_by before xs)
    order_by-All [] h = tt
    order_by-All (x ∷ xs) h = place-All x (order_by before xs) h.0 (order_by-All xs h.1)

  place-count :
      (test : A → Bool) (x : A) (xs : List A) → count test (place before x xs) ≡ count test (x ∷ xs)
  place-count test x [] = refl
  place-count test x (y ∷ ys) = ground (arith, place-count test x ys)

  pub order_by-count :
      (test : A → Bool) (xs : List A) → count test (order_by before xs) ≡ count test xs
  order_by-count test [] = refl
  order_by-count test (x ∷ xs) =
      ground (arith, place-count test x (order_by before xs), order_by-count test xs)

  place-length : (x : A) (xs : List A) → length (place before x xs) ≡ suc (length xs)
  place-length x [] = refl
  place-length x (y ∷ ys) = ground (arith, place-length x ys)

  pub order_by-length : (xs : List A) → length (order_by before xs) ≡ length xs
  order_by-length [] = refl
  order_by-length (x ∷ xs) = ground (arith, place-length x (order_by before xs), order_by-length xs)

  module _ (asym : (x y : A) → before x y ≡ true → before y x ≡ false)
      (trans : (x y z : A) → before x y ≡ false → before y z ≡ false → before x z ≡ false) where
    after-All :
        (x y : A) (ys : List A)
        → before x y ≡ true
        → All (λ z. before z y ≡ false) ys
        → All (λ z. before z x ≡ false) ys
    after-All x y [] h a = tt
    after-All x y (z ∷ zs) h a = (trans z y x a.0 (asym x y h), after-All x y zs h a.1)

    place-IsOrdered :
        (x : A) (xs : List A) → IsOrdered before xs → IsOrdered before (place before x xs)
    place-IsOrdered x [] o = (tt, tt)
    place-IsOrdered x (y ∷ ys) o = elim (Bool-cases (before x y)) [
      | inl e ↦ rw e ((asym x y e, after-All x y ys e o.0), o)
      | inr e ↦ rw e (place-All (λ z. before z y ≡ false) x ys e o.0, place-IsOrdered x ys o.1)
    ]

    pub order_by-IsOrdered : (xs : List A) → IsOrdered before (order_by before xs)
    order_by-IsOrdered [] = tt
    order_by-IsOrdered (x ∷ xs) = place-IsOrdered x (order_by before xs) (order_by-IsOrdered xs)

pub is_above_asym : (a b c d : ℕ) → is_above a b c d ≡ true → is_above c d a b ≡ false
is_above_asym a b c d h = ground arith

pub is_above_trans :
    (a b c d e f : ℕ)
    → is_above a b c d ≡ false
    → is_above c d e f ≡ false
    → is_above a b e f ≡ false
is_above_trans a b c d e f h k = ground arith
