-- ===== src/Handler/Page/Cover.antt =====
-- The pages of a list, one after the other.
use sakura_intern_team_e.Prelude.{
  ℕ, zero, suc, ◌+◌, ◌-◌, ◌*◌, ◌%◌, ◌^◌, ◌≤◌, ◌<◌, ◌≡◌, refl, ap, ◌∙◌, Bool, List, [], ◌∷◌, ◌++◌,
  take, drop, count, length, arith,
}
use native.Mathlib.Nat.{mul_comm, mul-suc}
use sakura_intern_team_e.Handler.Page.{page_of, page_rows, order_by}
use sakura_intern_team_e.Handler.Page.Ordered.{order_by-count, order_by-length}

module _ {ℓ} {A : Type ℓ} where
  -- The rows of the first pages, from page 1 on.
  abbrev pub first_pages : ℕ → ℕ → List A → List A
  first_pages size zero rows = []
  first_pages size (suc n) rows = first_pages size n rows ++ page_rows (page_of (suc n) size) rows

  take-nil : (n : ℕ) → take {A = A} n [] ≡ []
  take-nil zero = refl
  take-nil (suc n) = refl

  take-sum : (m n k : ℕ) (xs : List A) → m + n ≡ k → take m xs ++ take n (drop m xs) ≡ take k xs
  take-sum zero n k xs e = let same : n ≡ k = omega (arith, e) in rw same refl
  take-sum (suc m) n zero xs e = absurd (omega (arith, e))
  take-sum (suc m) n (suc k) [] e = take-nil n
  take-sum (suc m) n (suc k) (x ∷ xs) e = ap (◌∷◌ x) (take-sum m n k xs (omega (arith, e)))

  take-all : (n : ℕ) (xs : List A) → length xs ≤ n → take n xs ≡ xs
  take-all n [] h = take-nil n
  take-all zero (x ∷ xs) h = absurd (omega arith)
  take-all (suc n) (x ∷ xs) h = ap (◌∷◌ x) (take-all n xs (omega arith))

  first_pages-take :
      (size n : ℕ) (rows : List A)
      → n * size < 2 ^ 64
      → first_pages size n rows ≡ take (n * size) rows
  first_pages-take size zero rows h = let none_yet : 0 * size ≡ 0 = omega arith in rw none_yet refl
  first_pages-take size (suc n) rows h =
      let step : n * size + size ≡ suc n * size =
        omega (arith, mul_comm (suc n) size, mul-suc size n, mul_comm n size) in
      let back : suc n - 1 ≡ n = omega arith in
      let small : ((suc n - 1) * size) % 2 ^ 64 ≡ n * size = rw back (omega (arith, step, h)) in
      rw (small, first_pages-take size n rows (omega (arith, step)))
        (take-sum (n * size) size (suc n * size) rows step)

-- Enough pages of an ordered list, with fewer than 2 ^ 64 places on them and read one after the other,
-- hold the rows of the list in their order. A row that passes a test stands on them as often as in the
-- table.
pub first_pages_complete :
    {A : Type 0} (size n : ℕ) (before : A → A → Bool) (rows : List A)
    → length rows ≤ n * size
    → n * size < 2 ^ 64
    → (first_pages size n (order_by before rows) ≡ order_by before rows)
      × ((test : A → Bool)
          → count test (first_pages size n (order_by before rows)) ≡ count test rows)
first_pages_complete size n before rows enough small =
    let ordered = order_by before rows in
    let whole : first_pages size n ordered ≡ ordered =
      first_pages-take size n ordered small
      ∙ take-all (n * size) ordered (omega (arith, order_by-length before rows, enough)) in
    (whole, λ test. ap (count test) whole ∙ order_by-count before test rows)
