-- ===== src/Prelude/Lists.antt =====
-- Lists measured and searched by native numbers and Boolean tests.
use Prim.Native.Nat.{ℕ, zero, suc, ◌+◌, ◌≤◌, min}
use mathlib.Core.Path.{◌≡◌, refl, ap}
use mathlib.Core.Bool.{Bool, true, false, ◌&&◌, ◌||◌}
use mathlib.Core.List.{List, [], ◌∷◌, ◌++◌, map}
use mathlib.Core.Option.{Option, none, some}
use native.Mathlib.Omega.{arith}
use mathlib.Core.Logic.{◌⊎◌, inl, inr}
use sakura_intern_team_e.Prelude.Tests.{◌==◌, if◌then◌else◌, Bool-cases, ==→eq, ==_refl}

module _ {ℓ} {A : Type ℓ} where
  abbrev pub length : List A → ℕ
  length [] = 0
  length (x ∷ xs) = suc (length xs)

  abbrev pub take : ℕ → List A → List A
  take zero xs = []
  take (suc n) [] = []
  take (suc n) (x ∷ xs) = x ∷ take n xs

  abbrev pub drop : ℕ → List A → List A
  drop zero xs = xs
  drop (suc n) [] = []
  drop (suc n) (x ∷ xs) = drop n xs

  -- The rows that pass a test, in their order.
  abbrev pub filter : (A → Bool) → List A → List A
  filter p [] = []
  filter p (x ∷ xs) = if p x then x ∷ filter p xs else filter p xs

  abbrev pub any : (A → Bool) → List A → Bool
  any p [] = false
  any p (x ∷ xs) = p x || any p xs

  abbrev pub all : (A → Bool) → List A → Bool
  all p [] = true
  all p (x ∷ xs) = p x && all p xs

  -- The first row that passes a test.
  abbrev pub find : (A → Bool) → List A → Option A
  find p [] = none
  find p (x ∷ xs) = if p x then some x else find p xs

  -- The number of rows that pass a test.
  abbrev pub count : (A → Bool) → List A → ℕ
  count p [] = 0
  count p (x ∷ xs) = if p x then suc (count p xs) else count p xs

  abbrev pub get_or : A → Option A → A
  get_or d none = d
  get_or d (some a) = a

  abbrev pub prepend : Option A → List A → List A
  prepend none xs = xs
  prepend (some x) xs = x ∷ xs

  -- Every element satisfies a predicate.
  abbrev pub All {κ} : (A → Type κ) → List A → Type κ
  All P [] = Unit
  All P (x ∷ xs) = P x × All P xs

  pub length-append : (xs ys : List A) → length (xs ++ ys) ≡ length xs + length ys
  length-append [] ys = omega arith
  length-append (x ∷ xs) ys = omega (arith, length-append xs ys)

  pub length-take : (n : ℕ) (xs : List A) → length (take n xs) ≡ min n (length xs)
  length-take zero xs = omega arith
  length-take (suc n) [] = omega arith
  length-take (suc n) (x ∷ xs) = omega (arith, length-take n xs)

  pub take-append-drop : (n : ℕ) (xs : List A) → take n xs ++ drop n xs ≡ xs
  take-append-drop zero xs = refl
  take-append-drop (suc n) [] = refl
  take-append-drop (suc n) (x ∷ xs) = rw (take-append-drop n xs)

  pub any-append : (p : A → Bool) (xs ys : List A) → any p (xs ++ ys) ≡ (any p xs || any p ys)
  any-append p [] ys = refl
  any-append p (x ∷ xs) ys = ground (arith, any-append p xs ys)

  pub count-append : (p : A → Bool) (xs ys : List A) → count p (xs ++ ys) ≡ count p xs + count p ys
  count-append p [] ys = omega arith
  count-append p (x ∷ xs) ys = ground (arith, count-append p xs ys)

  pub length-filter : (p : A → Bool) (xs : List A) → length (filter p xs) ≡ count p xs
  length-filter p [] = refl
  length-filter p (x ∷ xs) = ground (arith, length-filter p xs)

  module _ {κ} (P : A → Type κ) where
    pub take-All : (n : ℕ) (xs : List A) → All P xs → All P (take n xs)
    take-All zero xs h = tt
    take-All (suc n) [] h = tt
    take-All (suc n) (x ∷ xs) h = (h.0, take-All n xs h.1)

    pub drop-All : (n : ℕ) (xs : List A) → All P xs → All P (drop n xs)
    drop-All zero xs h = h
    drop-All (suc n) [] h = tt
    drop-All (suc n) (x ∷ xs) h = drop-All n xs h.1

  pub length-filter-le : (p : A → Bool) (xs : List A) → length (filter p xs) ≤ length xs
  length-filter-le p [] = omega arith
  length-filter-le p (x ∷ xs) = ground (arith, length-filter-le p xs)

-- An element of a list, by its place.
module _ {A : Type 0} where
  abbrev pub Has : A → List A → Type 0
  Has a [] = ⊥
  Has a (x ∷ xs) = (x ≡ a) ⊎ Has a xs

  pub Has-append : (a : A) (xs ys : List A) → Has a ys → Has a (xs ++ ys)
  Has-append a [] ys h = h
  Has-append a (x ∷ xs) ys h = inr (Has-append a xs ys h)

  pub Has-filter :
      (p : A → Bool) (a : A) (xs : List A) → p a ≡ true → Has a xs → Has a (filter p xs)
  Has-filter p a [] t h = elim h [ ]
  Has-filter p a (x ∷ xs) t (inl e) = let same : p x ≡ true = rw e t in rw same (inl e)
  Has-filter p a (x ∷ xs) t (inr h) =
      let later = Has-filter p a xs t h in
      elim (Bool-cases (p x)) [ inl e ↦ rw e (inr later) | inr e ↦ rw e later ]

-- Membership of a number, as a test.
abbrev pub contains : ℕ → List ℕ → Bool
contains a = any (λ x. x == a)

module _ {ℓ κ} {A : Type ℓ} {B : Type κ} where
  -- The values of a partial function along a list.
  abbrev pub collect : (A → Option B) → List A → List B
  collect f [] = []
  collect f (x ∷ xs) = prepend (f x) (collect f xs)

-- Values that carry the key they are collected by are found by it.
pub find-collect {ℓ} :
    {B : Type ℓ} (f : ℕ → Option B) (key : B → ℕ) (k : ℕ)
    → ((j : ℕ) (b : B) → f j ≡ some b → key b ≡ j)
    → (js : List ℕ) → find (λ b. key b == k) (collect f js) ≡ (if contains k js then f k else none)
find-collect f key k keyed [] = refl
find-collect {B = B} f key k keyed (j ∷ js) = by_value (f j) refl (find-collect f key k keyed js)
  where
    by_value :
        (o : Option B)
        → f j ≡ o
        → find (λ b. key b == k) (collect f js) ≡ (if contains k js then f k else none)
        → find (λ b. key b == k) (prepend o (collect f js))
          ≡ (if j == k || contains k js then f k else none)
    by_value none e h = elim (Bool-cases (j == k)) [
      | inl same ↦ let gone : f k ≡ none = rw (← ==→eq j k same) e in ground arith
      | inr other ↦ rw other h
    ]
    by_value (some b) e h = elim (Bool-cases (j == k)) [
      | inl same ↦
          let there : f k ≡ some b = rw (← ==→eq j k same) e in
          let its : key b ≡ j = keyed j b e in ground arith
      | inr other ↦ let its : key b ≡ j = keyed j b e in rw (its, other) h
    ]

-- Collecting looks at a function on the members of the list only.
pub collect-congr {ℓ} :
    {B : Type ℓ} (f g : ℕ → Option B) (js : List ℕ)
    → ((j : ℕ) → contains j js ≡ true → f j ≡ g j)
    → collect f js ≡ collect g js
collect-congr f g [] h = refl
collect-congr f g (j ∷ js) h =
    let here : f j ≡ g j = h j (ground (arith, ==_refl j)) in
    let later = collect-congr f g js (λ i m. h i (ground arith)) in rw (here, later)

abbrev pub lift {ℓ κ} : {A : Type ℓ} {B : Type κ} → (A → B) → Option A → Option B
lift g none = none
lift g (some a) = some (g a)

pub map-collect {ℓ κ} :
    {A : Type ℓ} {B : Type κ} (f : ℕ → Option A) (g : A → B) (js : List ℕ)
    → map g (collect f js) ≡ collect (λ j. lift g (f j)) js
map-collect f g [] = refl
map-collect {A = A} f g (j ∷ js) = by_value (f j) (map-collect f g js)
  where
    by_value :
        (o : Option A)
        → map g (collect f js) ≡ collect (λ i. lift g (f i)) js
        → map g (prepend o (collect f js)) ≡ prepend (lift g o) (collect (λ i. lift g (f i)) js)
    by_value none e = e
    by_value (some a) e = ap (◌∷◌ (g a)) e
