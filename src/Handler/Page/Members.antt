-- ===== src/Handler/Page/Members.antt =====
-- Which rows WHERE and ORDER BY keep, by membership.
use sakura_intern_team_e.Prelude.{
  ◌≡◌, refl, Bool, true, List, [], ◌∷◌, All, Has, Bool-cases, inl, inr, any, filter, arith,
}
use sakura_intern_team_e.Handler.Page.{place, order_by}

Has-place :
    {A : Type 0} (before : A → A → Bool) (a x : A) (xs : List A)
    → Has a (x ∷ xs)
    → Has a (place before x xs)
Has-place before a x [] h = h
Has-place before a x (y ∷ ys) h = elim (Bool-cases (before x y)) [
  | inl e ↦ rw e h
  | inr e ↦ rw e (past h (Has-place before a x ys))
]
  where
    past :
        Has a (x ∷ y ∷ ys)
        → (Has a (x ∷ ys) → Has a (place before x ys))
        → Has a (y ∷ place before x ys)
    past (inl same) k = inr (k (inl same))
    past (inr (inl same)) k = inl same
    past (inr (inr later)) k = inr (k (inr later))

pub Has-order_by :
    {A : Type 0} (before : A → A → Bool) (a : A) (xs : List A)
    → Has a xs
    → Has a (order_by before xs)
Has-order_by before a [] h = h
Has-order_by before a (x ∷ xs) (inl same) = Has-place before a x (order_by before xs) (inl same)
Has-order_by before a (x ∷ xs) (inr later) =
    Has-place before a x (order_by before xs) (inr (Has-order_by before a xs later))

pub All-filter :
    {A : Type 0} (test : A → Bool) (P : A → Type 0) (xs : List A)
    → ((a : A) → test a ≡ true → P a)
    → All P (filter test xs)
All-filter test P [] h = tt
All-filter test P (x ∷ xs) h = elim (Bool-cases (test x)) [
  | inl e ↦ rw e (h x e, All-filter test P xs h)
  | inr e ↦ rw e (All-filter test P xs h)
]

pub any-Has :
    {A : Type 0} (test : A → Bool) (xs : List A)
    → any test xs ≡ true
    → (a : A) × Has a xs × (test a ≡ true)
any-Has test [] holds = cc
any-Has test (x ∷ xs) holds = elim (Bool-cases (test x)) [
  | inl e ↦ (x, inl refl, e)
  | inr e ↦ let (a, h, t) = any-Has test xs (ground (arith, e, holds)) in (a, inr h, t)
]

pub Has-any :
    {A : Type 0} (test : A → Bool) (a : A) (xs : List A)
    → Has a xs
    → test a ≡ true
    → any test xs ≡ true
Has-any test a [] h e = elim h [ ]
Has-any test a (x ∷ xs) (inl same) e = let here : test x ≡ true = rw same e in ground arith
Has-any test a (x ∷ xs) (inr later) e = ground (arith, Has-any test a xs later e)
