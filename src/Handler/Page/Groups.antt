-- ===== src/Handler/Page/Groups.antt =====
-- GROUP BY: the values of a column, each once, and the rows that they stand for.
use sakura_intern_team_e.Prelude.{
  ℕ, suc, ◌+◌, ◌<◌, ◌≡◌, refl, true, false, List, [], ◌∷◌, ◌==◌, contains, count, map, length, All,
  Bool-cases, inl, inr, arith, ==_refl, ==→eq,
}
use sakura_intern_team_e.Db.Invariant.{All-mono}
use sakura_intern_team_e.Handler.Page.{distinct}

pub distinct-All : (xs : List ℕ) → All (λ x. contains x xs ≡ true) (distinct xs)
unfolding distinct
distinct-All [] = tt
distinct-All (x ∷ xs) =
    let later =
      All-mono (λ y. contains y xs ≡ true) (λ y. contains y (x ∷ xs) ≡ true) (distinct xs)
        (λ y e. ground arith) (distinct-All xs) in
    elim (Bool-cases (contains x xs)) [
      | inl e ↦ rw e later
      | inr e ↦ rw e (ground (arith, ==_refl x), later)
    ]

contains-distinct : (k : ℕ) (xs : List ℕ) → contains k xs ≡ false → contains k (distinct xs) ≡ false
unfolding distinct
contains-distinct k [] h = refl
contains-distinct k (x ∷ xs) h = elim (Bool-cases (contains x xs)) [
  | inl e ↦ rw e (contains-distinct k xs (ground arith))
  | inr e ↦ let later = contains-distinct k xs (ground arith) in rw e (ground arith)
]

contains-distinct_here :
    (k : ℕ) (xs : List ℕ) → contains k xs ≡ true → contains k (distinct xs) ≡ true
unfolding distinct
contains-distinct_here k [] h = cc
contains-distinct_here k (x ∷ xs) h = elim (Bool-cases (contains x xs)) [
  | inl e ↦ rw e (contains-distinct_here k xs (inside k x xs e h))
  | inr e ↦ rw e (ground (arith, contains-distinct_here k xs))
]
  where
    inside :
        (k x : ℕ) (xs : List ℕ)
        → contains x xs ≡ true
        → contains k (x ∷ xs) ≡ true
        → contains k xs ≡ true
    inside k x xs e h = elim (Bool-cases (x == k)) [
      | inl same ↦ rw (← ==→eq x k same) e
      | inr other ↦ ground arith
    ]

-- No number stands twice.
abbrev pub IsEachOnce : List ℕ → Type 0
IsEachOnce [] = Unit
IsEachOnce (k ∷ ks) = (contains k ks ≡ false) × IsEachOnce ks

distinct-IsEachOnce : (xs : List ℕ) → IsEachOnce (distinct xs)
unfolding distinct
distinct-IsEachOnce [] = tt
distinct-IsEachOnce (x ∷ xs) = elim (Bool-cases (contains x xs)) [
  | inl e ↦ rw e (distinct-IsEachOnce xs)
  | inr e ↦ rw e (contains-distinct x xs e, distinct-IsEachOnce xs)
]

abbrev pub sum_by {ℓ} : {A : Type ℓ} → (A → ℕ) → List A → ℕ
sum_by f [] = 0
sum_by f (x ∷ xs) = f x + sum_by f xs

module _ {A : Type 0} (key : A → ℕ) where
  abbrev pub rows_of : List A → ℕ → ℕ
  rows_of rows k = count (λ (a : A). key a == k) rows

  pub rows_of-contains :
      (k : ℕ) (rows : List A) → contains k (map key rows) ≡ true → 0 < rows_of rows k
  rows_of-contains k [] h = cc
  rows_of-contains k (a ∷ rows) h = ground (arith, rows_of-contains k rows)

  rows_of-missing : (k : ℕ) (rows : List A) → contains k (map key rows) ≡ false → rows_of rows k ≡ 0
  rows_of-missing k [] h = refl
  rows_of-missing k (a ∷ rows) h = ground (arith, rows_of-missing k rows)

  -- A row counts for its own group only.
  sum-others :
      (a : A) (rows : List A) (ks : List ℕ)
      → contains (key a) ks ≡ false
      → sum_by (rows_of (a ∷ rows)) ks ≡ sum_by (rows_of rows) ks
  sum-others a rows [] h = refl
  sum-others a rows (k ∷ ks) h = ground (arith, sum-others a rows ks)

  sum-own :
      (a : A) (rows : List A) (ks : List ℕ)
      → IsEachOnce ks
      → contains (key a) ks ≡ true
      → sum_by (rows_of (a ∷ rows)) ks ≡ suc (sum_by (rows_of rows) ks)
  sum-own a rows [] u h = cc
  sum-own a rows (k ∷ ks) u h = elim (Bool-cases (k == key a)) [
    | inl same ↦
        let its : contains (key a) ks ≡ false = rw (← ==→eq k (key a) same) u.0 in
        ground (arith, sum-others a rows ks its)
    | inr other ↦ ground (arith, sum-own a rows ks u.1)
  ]

  -- The groups together hold every row.
  pub sum-groups : (rows : List A) → sum_by (rows_of rows) (distinct (map key rows)) ≡ length rows
  unfolding distinct
  sum-groups [] = refl
  sum-groups (a ∷ rows) = elim (Bool-cases (contains (key a) (map key rows))) [
    | inl e ↦
        let once = distinct-IsEachOnce (map key rows) in
        let there = contains-distinct_here (key a) (map key rows) e in
        let step = sum-own a rows (distinct (map key rows)) once there in
        rw (e, step, sum-groups rows) refl
    | inr e ↦
        let gone = contains-distinct (key a) (map key rows) e in
        let step = sum-others a rows (distinct (map key rows)) gone in
        let first : rows_of (a ∷ rows) (key a) ≡ 1 =
          ground (arith, ==_refl (key a), rows_of-missing (key a) rows e) in
        rw e (omega (arith, first, step, sum-groups rows))
  ]
