-- ===== src/Handler/Page/Bounds.antt =====
-- What the numbers of a page can be.
use sakura_intern_team_e.Prelude.{
  ℕ, ◌-◌, ◌*◌, ◌%◌, ◌^◌, ◌≤◌, ◌<◌, ◌≡◌, ◌⊎◌, ltb, ltb→lt, Bool-cases, inl, inr, arith,
}
use native.Mathlib.Nat.{mul-le-mul_left}
use sakura_intern_team_e.Db.Tables.{Text}
use sakura_intern_team_e.Handler.Page.{atoi, page_number, page_size, pagination}

page_number-bounds : (n : ℕ) → (1 ≤ page_number n) × (page_number n < 2 ^ 63)
page_number-bounds n = ground arith

page_size-bounds : (n : ℕ) → (1 ≤ page_size n) × (page_size n ≤ 50)
page_size-bounds n = ground arith

small_product : (p s : ℕ) → 1 ≤ s → s ≤ 50 → p ≤ 2 ^ 57 → ((p - 1) * s) % 2 ^ 64 ≡ (p - 1) * s
small_product p s a b c =
    let most : (p - 1) * s ≤ (p - 1) * 50 = mul-le-mul_left (p - 1) b in omega (arith, most)

offset_cases : (p s : ℕ) → 1 ≤ s → s ≤ 50 → (2 ^ 57 < p) ⊎ (((p - 1) * s) % 2 ^ 64 ≡ (p - 1) * s)
offset_cases p s a b = elim (Bool-cases (ltb (2 ^ 57) p)) [
  | inl far ↦ inl (ltb→lt (2 ^ 57) p far)
  | inr near ↦ inr (small_product p s a b (ground arith))
]

-- page and per_page of any query: the page is a positive int, the size is from 1 to 50, and, for a page
-- of at most 2^57, the offset is the number of rows on the pages before it.
pub pagination-bounds :
    (page per_page : Text)
    → let p = pagination page per_page in
      (1 ≤ p.page)
      × (p.page < 2 ^ 63)
      × (1 ≤ p.per_page)
      × (p.per_page ≤ 50)
      × ((2 ^ 57 < p.page) ⊎ (p.offset ≡ (p.page - 1) * p.per_page))
unfolding pagination
pagination-bounds page per_page =
    let number = page_number-bounds (atoi page) in
    let size = page_size-bounds (atoi per_page) in
    (
      number.0,
      number.1,
      size.0,
      size.1,
      offset_cases (page_number (atoi page)) (page_size (atoi per_page)) size.0 size.1,
    )
