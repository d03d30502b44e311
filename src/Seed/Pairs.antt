-- ===== src/Seed/Pairs.antt =====
-- What insertFollows, insertLikes and insertReposts of app/backend/seed/main.go insert.
use sakura_intern_team_e.Prelude.{
  ℕ, zero, suc, ◌+◌, ◌*◌, ◌/◌, ◌%◌, ◌≤◌, ◌≡◌, refl, ◌∙◌, ap, Bool, true, false, none, some, List,
  [], ◌∷◌, ◌++◌, arith, length, take, drop, Bool-cases, Option-cases, inl, inr,
}
use sakura_intern_team_e.Db.Tables.{Db}
use sakura_intern_team_e.Action.{Query, Reply, done, refused, ok}
use sakura_intern_team_e.Action.Calm.{Runs, Runs-done, Runs-bind, Runs-or_else, Runs-pure}
use sakura_intern_team_e.Seed.{
  filled, fill, add_pair, both, nth, is_wanted, batches, full_batches, last_batch, batch_size,
}
use sakura_intern_team_e.Seed.Rows.{insert_many}
use sakura_intern_team_e.Seed.Insert.{insert_pairs}

-- The pairs that the numbers stand for, two by two, up to the first that is out of range.
abbrev pub decoded : List ℕ → List ℕ → List ℕ → List (ℕ × ℕ)
decoded xs ys [] = []
decoded xs ys (a ∷ []) = []
decoded xs ys (a ∷ b ∷ ds) = elim (both (nth xs a) (nth ys b)) [
  | none ↦ []
  | some p ↦ p ∷ decoded xs ys ds
]

-- Each wanted pair where it stands first.
abbrev pub firsts : Bool → List (ℕ × ℕ) → List (ℕ × ℕ) → List (ℕ × ℕ)
firsts self_too seen [] = []
firsts self_too seen (p ∷ ps) = elim (is_wanted self_too seen p) [
  | true ↦ p ∷ firsts self_too (p ∷ seen) ps
  | false ↦ firsts self_too seen ps
]

abbrev pub sum : List ℕ → ℕ
sum [] = 0
sum (k ∷ ks) = k + sum ks

module _ (self_too : Bool) (xs ys : List ℕ) (seen : List (ℕ × ℕ)) (a b : ℕ) (ds : List ℕ) where
  firsts-outside :
      both (nth xs a) (nth ys b) ≡ none → firsts self_too seen (decoded xs ys (a ∷ b ∷ ds)) ≡ []
  firsts-outside e = ground arith

  module _ (p : ℕ × ℕ) (e : both (nth xs a) (nth ys b) ≡ some p) where
    firsts_wanted :
        is_wanted self_too seen p ≡ true
        → firsts self_too seen (decoded xs ys (a ∷ b ∷ ds))
          ≡ p ∷ firsts self_too (p ∷ seen) (decoded xs ys ds)
    firsts_wanted w = ground arith

    firsts_unwanted :
        is_wanted self_too seen p ≡ false
        → firsts self_too seen (decoded xs ys (a ∷ b ∷ ds))
          ≡ firsts self_too seen (decoded xs ys ds)
    firsts_unwanted w = ground arith

    fill_wanted :
        (k : ℕ)
        → is_wanted self_too seen p ≡ true
        → fill self_too xs ys (suc k) seen (a ∷ b ∷ ds)
          ≡ add_pair p (fill self_too xs ys k (p ∷ seen) ds)
    unfolding fill
    fill_wanted k w = rw (e, fill) (rw (w, fill) refl)

    fill_unwanted :
        (k : ℕ)
        → is_wanted self_too seen p ≡ false
        → fill self_too xs ys (suc k) seen (a ∷ b ∷ ds) ≡ fill self_too xs ys (suc k) seen ds
    unfolding fill
    fill_unwanted k w = rw (e, fill) (rw (w, fill) refl)

module _ (self_too : Bool) (xs ys : List ℕ) where
  -- A batch takes the first pairs that are wanted, and leaves the others to the next.
  fill-firsts :
      (k : ℕ) (seen : List (ℕ × ℕ)) (ds : List ℕ)
      → k ≤ length (firsts self_too seen (decoded xs ys ds))
      → (seen' : List (ℕ × ℕ)) × (ds' : List ℕ) × (fill self_too xs ys k seen ds
          ≡ filled (take k (firsts self_too seen (decoded xs ys ds))) seen' ds')
        × (firsts self_too seen' (decoded xs ys ds')
            ≡ drop k (firsts self_too seen (decoded xs ys ds)))
  fill-firsts zero seen ds h = (seen, ds, unfold fill in refl, refl)
  fill-firsts (suc k) seen [] h = absurd (omega (arith, h))
  fill-firsts (suc k) seen (a ∷ []) h = absurd (omega (arith, h))
  fill-firsts (suc k) seen (a ∷ b ∷ ds) h = elim (Option-cases (both (nth xs a) (nth ys b))) [
    | inl e ↦ absurd (omega (arith, h, ap length (firsts-outside self_too xs ys seen a b ds e)))
    | inr (p, e) ↦ elim (Bool-cases (is_wanted self_too seen p)) [
      | inl w ↦
          let now = firsts_wanted self_too xs ys seen a b ds p e w in
          let (seen', ds', took, left) =
            fill-firsts k (p ∷ seen) ds (omega (arith, h, ap length now)) in
          let step = fill_wanted self_too xs ys seen a b ds p e k w in
          (seen', ds', step ∙ ap (add_pair p) took ∙ rw now refl, left ∙ rw now refl)
      | inr w ↦
          let now = firsts_unwanted self_too xs ys seen a b ds p e w in
          let (seen', ds', took, left) =
            fill-firsts (suc k) seen ds (omega (arith, h, ap length now)) in
          let step = fill_unwanted self_too xs ys seen a b ds p e k w in
          (seen', ds', step ∙ took ∙ rw now refl, left ∙ rw now refl)
    ]
  ]

take-add : {A : Type 0} (k m : ℕ) (l : List A) → take (k + m) l ≡ take k l ++ take m (drop k l)
take-add zero m l = let e : 0 + m ≡ m = omega arith in rw e refl
take-add (suc k) zero [] = let e : suc k + 0 ≡ suc k = omega arith in rw e refl
take-add (suc k) (suc m) [] = let e : suc k + suc m ≡ suc (k + suc m) = omega arith in rw e refl
take-add (suc k) m (x ∷ l) =
    let e : suc k + m ≡ suc (k + m) = omega arith in rw e (ap (λ t. x ∷ t) (take-add k m l))

length-drop : {A : Type 0} (k m : ℕ) (l : List A) → k + m ≤ length l → m ≤ length (drop k l)
length-drop zero m l h = omega (arith, h)
length-drop (suc k) m [] h = absurd (omega (arith, h))
length-drop (suc k) m (x ∷ l) h = length-drop k m l (omega (arith, h))

done_db : {x y : Db} → ◌≡◌ {A = Reply Unit} (done tt x) (done tt y) → x ≡ y
done_db e = cc

module _ {A : Type 0} (insert : A → Query Unit) (now : ℕ) where
  -- One INSERT of two lists of rows is the INSERT of one and then of the other.
  insert_many-append :
      (rs ss : List A) (db db'' : Db)
      → insert_many insert (rs ++ ss) now db ≡ done tt db''
      → (db' : Db) × (insert_many insert rs now db ≡ done tt db')
        × (insert_many insert ss now db' ≡ done tt db'')
  unfolding insert_many
  insert_many-append [] ss db db'' e = (db, refl, e)
  insert_many-append (r ∷ rs) ss db db'' e =
      by_reply (insert r now db) e (λ db₁ later. insert_many-append rs ss db₁ db'' later)
    where
      by_reply :
          (o : Reply Unit)
          → elim o [ done a d ↦ insert_many insert (rs ++ ss) now d | refused x ↦ refused x ]
            ≡ done tt db''
          → ((d : Db)
              → insert_many insert (rs ++ ss) now d ≡ done tt db''
              → (db' : Db) × (insert_many insert rs now d ≡ done tt db')
                × (insert_many insert ss now db' ≡ done tt db''))
          → (db' : Db) × (elim o [ done a d ↦ insert_many insert rs now d | refused x ↦ refused x ]
              ≡ done tt db')
            × (insert_many insert ss now db' ≡ done tt db'')
      by_reply (done a d) e k = k d e
      by_reply (refused x) e k = absurd (cc)

  insert_many-none : (db db' : Db) → insert_many insert [] now db ≡ done tt db' → db ≡ db'
  unfolding insert_many
  insert_many-none db db' e = done_db e

module _ (now : ℕ) (self_too : Bool) (insert : ℕ × ℕ → Query Unit) (xs ys : List ℕ) where
  pairs-Runs :
      (ks : List ℕ) (seen : List (ℕ × ℕ)) (ds : List ℕ) (db db' : Db)
      → sum ks ≤ length (firsts self_too seen (decoded xs ys ds))
      → insert_many insert (take (sum ks) (firsts self_too seen (decoded xs ys ds))) now db
        ≡ done tt db'
      → (rest : List ℕ) × Runs now db (insert_pairs self_too insert xs ys ks seen ds) (ok rest) db'
  unfolding insert_pairs
  pairs-Runs [] seen ds db db' h e =
      (ds, rw⁻¹ (insert_many-none insert now db db' e) (Runs-pure ds))
  pairs-Runs (k ∷ ks) seen ds db db' h e =
      let all = firsts self_too seen (decoded xs ys ds) in
      let (seen', ds', took, left) = fill-firsts self_too xs ys k seen ds (omega (arith, h)) in
      let (db₁, first, later) =
        insert_many-append insert now (take k all) (take (sum ks) (drop k all)) db db'
          (rw⁻¹ (take-add k (sum ks) all) e) in
      let (rest, ran) =
        pairs-Runs ks seen' ds' db₁ db' (rw left (length-drop k (sum ks) all h)) (rw left later) in
      (
        rest,
        rw took (Runs-bind _ (Runs-pure _) (Runs-bind _ (Runs-or_else _ (Runs-done _ first)) ran)),
      )

sum-full : (q r : ℕ) → sum (full_batches q ++ last_batch r) ≡ batch_size * q + r
sum-full zero zero = refl
sum-full zero (suc r) = omega arith
sum-full (suc q) r = omega (arith, sum-full q r)

sum-batches : (n : ℕ) → sum (batches n) ≡ n
unfolding batches
sum-batches n = omega (arith, sum-full (n / batch_size) (n % batch_size))

-- In a calm world the batches do what one INSERT does. The numbers that math/rand returns spell pairs
-- of the two lists, up to the first number that is out of range, and each wanted pair counts where it
-- stands first: for follows a pair of two users, otherwise any pair. Say that there are at least n
-- wanted pairs, and one INSERT of the first n of them would leave the tables db'. Then the loop over
-- the batches of n rows ends without an error, neither short of numbers nor with a panic, and leaves
-- db'.
pub insert_pairs-insert_many :
    (now n : ℕ) (self_too : Bool) (insert : ℕ × ℕ → Query Unit) (xs ys ds : List ℕ) (db db' : Db)
    → n ≤ length (firsts self_too [] (decoded xs ys ds))
    → insert_many insert (take n (firsts self_too [] (decoded xs ys ds))) now db ≡ done tt db'
    → (rest : List ℕ) × Runs now db
        (insert_pairs self_too insert xs ys (batches n) [] ds)
        (ok rest)
        db'
insert_pairs-insert_many now n self_too insert xs ys ds db db' h e =
    pairs-Runs now self_too insert xs ys (batches n) [] ds db db' (rw (sum-batches n) h)
      (rw (sum-batches n) e)
