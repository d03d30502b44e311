-- ===== src/Handler/Visits/Groups.antt =====
-- The footprints that GetFootprints counts, and the excerpts of GetNotifications.
use sakura_intern_team_e.Prelude.{
  ℕ, zero, suc, ◌+◌, ◌≤◌, ◌≡◌, ◌⊎◌, refl, ap, ◌∙◌, Bool, some, List, [], ◌∷◌, ◌++◌, map, length,
  take, leb, leb→le, length-take, length-append, Bool-cases, inl, inr, arith,
}
use sakura_intern_team_e.Db.Tables.{Text, Db, FootprintRow}
use sakura_intern_team_e.Handler.Page.{place, order_by}
use sakura_intern_team_e.Handler.Page.Ordered.{
  IsOrdered, order_by-IsOrdered, order_by-length, is_above_asym, is_above_trans,
}
use sakura_intern_team_e.Handler.Page.Groups.{sum_by, rows_of, sum-groups}
use sakura_intern_team_e.Handler.Visits.{
  Visits, is_later, visits_to, visits_by, visitors_of, visit_groups, visitors_total, excerpt_of,
}

module _ {A : Type 0} (before : A → A → Bool) (size : A → ℕ) where
  sum-place : (x : A) (xs : List A) → sum_by size (place before x xs) ≡ size x + sum_by size xs
  sum-place x [] = refl
  sum-place x (y ∷ ys) = ground (arith, sum-place x ys)

  sum-order_by : (xs : List A) → sum_by size (order_by before xs) ≡ sum_by size xs
  sum-order_by [] = refl
  sum-order_by (x ∷ xs) = omega (arith, sum-place x (order_by before xs), sum-order_by xs)

abbrev visitor_of : FootprintRow → ℕ
visitor_of f = f.visitor_id

sum-visits_by :
    (visits : List FootprintRow) (ks : List ℕ)
    → sum_by (λ (v : Visits). v.visit_count) (map (visits_by visits) ks)
      ≡ sum_by (rows_of visitor_of visits) ks
sum-visits_by visits [] = refl
sum-visits_by visits (k ∷ ks) = omega (arith, sum-visits_by visits ks)

length-map : {A B : Type 0} (f : A → B) (xs : List A) → length (map f xs) ≡ length xs
length-map f [] = refl
length-map f (x ∷ xs) = omega (arith, length-map f xs)

-- The groups that GetFootprints lists stand latest visit first, their counts add up to the number of
-- the user's footprints, and there are as many groups as the total that it counts apart.
pub visit_groups-total :
    (user : ℕ) (db : Db)
    → IsOrdered is_later (visit_groups user db)
      × (sum_by (λ (v : Visits). v.visit_count) (visit_groups user db) ≡ length (visits_to user db))
      × (length (visit_groups user db) ≡ visitors_total user db)
unfolding visit_groups visitors_total
visit_groups-total user db =
    let visits = visits_to user db in
    let groups = map (visits_by visits) (visitors_of visits) in
    (
      order_by-IsOrdered is_later
          (λ a b h. is_above_asym a.last_visited a.visitor_id b.last_visited b.visitor_id h)
          (λ a b c h k.
            is_above_trans a.last_visited a.visitor_id b.last_visited b.visitor_id c.last_visited
              c.visitor_id h k)
          groups,
      sum-order_by is_later (λ (v : Visits). v.visit_count) groups
          ∙ sum-visits_by visits (visitors_of visits)
          ∙ sum-groups visitor_of visits,
      order_by-length is_later groups ∙ length-map (visits_by visits) (visitors_of visits),
    )

take-append : {A : Type 0} (n : ℕ) (xs ys : List A) → length xs ≡ n → take n (xs ++ ys) ≡ xs
take-append zero [] ys h = refl
take-append zero (x ∷ xs) ys h = absurd (omega (arith, h))
take-append (suc n) [] ys h = absurd (omega (arith, h))
take-append (suc n) (x ∷ xs) ys h = ap (◌∷◌ x) (take-append n xs ys (omega (arith, h)))

-- The excerpt of a content is the content itself where that has at most 40 runes, and else its first 40
-- runes and one more; there is none only without a content.
excerpt_of-short :
    (content : Text)
    → (t : Text) × (excerpt_of (some content) ≡ some t)
      × (length t ≤ 41)
      × (take 40 t ≡ take 40 content)
      × (((length content ≤ 40) × (t ≡ content)) ⊎ (length t ≡ 41))
unfolding excerpt_of
excerpt_of-short content = elim (Bool-cases (leb (length content) 40)) [
  | inl e ↦
      let short = leb→le (length content) 40 e in
      (content, rw e refl, omega (arith, short), refl, inl (short, refl))
  | inr e ↦
      let cut = take 40 content ++ (8230 ∷ []) in
      let whole : length (take 40 content) ≡ 40 = ground (arith, length-take 40 content) in
      let size : length cut ≡ 41 =
        omega (arith, length-append (take 40 content) (8230 ∷ []), whole) in
      (
        cut,
        rw e refl,
        omega (arith, size),
        take-append 40 (take 40 content) (8230 ∷ []) whole,
        inr size,
      )
]
