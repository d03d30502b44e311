-- ===== src/Notify/Gc/Deletes.antt =====
-- What a sweep of notify/gc.go deletes, and that it ends.
use sakura_intern_team_e.Prelude.{
  Bool, Bool-cases, inl, inr, true, append_assoc, ap, sym, ◌∙◌, append-nil, false, not, ◌++◌, ℕ,
  zero, suc, ◌+◌, ◌<◌, ◌≤◌, ◌≡◌, ◌≢◌, ◌⊎◌, refl, some, List, [], ◌∷◌, filter, count, subst, ltb,
  ltb→lt, Option, none, if◌then◌else◌, ◌&&◌, arith,
}
use sakura_intern_team_e.Db.Tables.{EventRow}
use sakura_intern_team_e.Notify.Gc.{
  Holder, this_process, nobody, another_process, get_lock, release_lock, gc_locked, failed, Round,
  Ending, GcState, Weather, is_old, delete_old, finished, out_of_fuel, sweep, gc_once,
}

abbrev pub young : ℕ → ℕ → List EventRow → List EventRow
young now retention = filter (λ e. not (is_old now retention e))

abbrev pub count_old : ℕ → ℕ → List EventRow → ℕ
count_old now retention = count (is_old now retention)

-- A batch deletes rows only that are old by any later time, at most as many as its limit.
delete_old_lem :
    (n now t retention : ℕ) (es : List EventRow)
    → now ≤ t
    → (young t retention (delete_old n now retention es).0 ≡ young t retention es)
      × (count_old t retention (delete_old n now retention es).0 + (delete_old n now retention es).1
          ≡ count_old t retention es)
      × ((delete_old n now retention es).1 ≤ n)
unfolding delete_old
delete_old_lem zero now t retention es h = (refl, omega arith, omega arith)
delete_old_lem (suc n) now t retention [] h = (refl, omega arith, omega arith)
delete_old_lem (suc n) now t retention (e ∷ es) h =
    ground
      (arith, delete_old_lem n now t retention es h, delete_old_lem (suc n) now t retention es h)

-- A batch that is not full has left nothing old.
delete_old-short :
    (n now retention : ℕ) (es : List EventRow)
    → (delete_old n now retention es).1 < n
    → count_old now retention (delete_old n now retention es).0 ≡ 0
unfolding delete_old
delete_old-short zero now retention es h = absurd (omega arith)
delete_old-short (suc n) now retention [] h = refl
delete_old-short (suc n) now retention (e ∷ es) h =
    ground (arith, delete_old-short n now retention es, delete_old-short (suc n) now retention es)

filter-append :
    (p : EventRow → Bool) (xs ys : List EventRow) → filter p (xs ++ ys) ≡ filter p xs ++ filter p ys
filter-append p [] ys = refl
filter-append p (x ∷ xs) ys = ground (arith, filter-append p xs ys)

count-append :
    (p : EventRow → Bool) (xs ys : List EventRow) → count p (xs ++ ys) ≡ count p xs + count p ys
count-append p [] ys = omega arith
count-append p (x ∷ xs) ys = ground (arith, count-append p xs ys)

-- The rows that others write before k DELETEs from the i-th on.
abbrev pub arrived : (ℕ → Round) → ℕ → ℕ → List EventRow
arrived rounds i zero = []
arrived rounds i (suc k) = (rounds i).arrivals ++ arrived rounds (suc i) k

-- What a sweep from the i-th round on has done, by a time t: after some number of rounds the table
-- holds the rows that are young by then of those that it held and those that arrived, and a sweep that
-- finishes has left no row that was old at its last DELETE.
abbrev pub IsSwept : ℕ → ℕ → (ℕ → Round) → ℕ → List EventRow → List EventRow × Ending → Type 0
IsSwept t retention rounds i before after =
    (k : ℕ) × (young t retention after.0 ≡ young t retention (before ++ arrived rounds i k))
    × ((after.1 ≢ finished)
        ⊎ ((j : ℕ) × (suc j ≡ i + k) × (count_old (rounds j).now retention after.0 ≡ 0)))

module _ (batch t retention : ℕ) (rounds : ℕ → Round) (past : (j : ℕ) → (rounds j).now ≤ t) where
  module _ (i : ℕ) (es : List EventRow) where
    abbrev met : List EventRow
    met = es ++ (rounds i).arrivals

    abbrev batched : List EventRow × ℕ
    batched = delete_old batch (rounds i).now retention met

    young-batched :
        (later : List EventRow)
        → young t retention (batched.0 ++ later)
          ≡ young t retention (es ++ ((rounds i).arrivals ++ later))
    young-batched later =
        let deleted = (delete_old_lem batch (rounds i).now t retention met (past i)).0 in
        filter-append _ batched.0 later
        ∙ ap (λ x. x ++ young t retention later) deleted
        ∙ sym (filter-append _ met later)
        ∙ ap (young t retention) (append_assoc es (rounds i).arrivals later)

    count_old-batched :
        (later : List EventRow)
        → count_old t retention (batched.0 ++ later) + batched.1
          ≡ count_old t retention (es ++ ((rounds i).arrivals ++ later))
    count_old-batched later =
        let deleted = (delete_old_lem batch (rounds i).now t retention met (past i)).1 in
        let left = count-append (is_old t retention) batched.0 later in
        let stored = count-append (is_old t retention) met later in
        let same = ap (count_old t retention) (append_assoc es (rounds i).arrivals later) in
        omega (arith, deleted, left, stored, same)

    -- A round that is the last
    young-last : young t retention batched.0 ≡ young t retention (es ++ ((rounds i).arrivals ++ []))
    young-last =
        subst (λ x. young t retention x ≡ young t retention (es ++ ((rounds i).arrivals ++ [])))
          (append-nil batched.0) (young-batched [])

  sweep-IsSwept :
      (fuel i : ℕ) (es : List EventRow)
      → IsSwept t retention rounds i es (sweep fuel batch retention rounds i es)
  unfolding sweep
  sweep-IsSwept zero i es = (0, ap (young t retention) (sym (append-nil es)), inl (λ e. cc))
  sweep-IsSwept (suc fuel) i es = elim (Bool-cases (rounds i).fails) [
    | inl fails ↦ rw fails (
      1,
      ap (λ x. young t retention (es ++ x)) (sym (append-nil (rounds i).arrivals)),
      inl (λ e. cc),
    )
    | inr runs ↦ rw runs (elim (Bool-cases (ltb (batched i es).1 batch)) [
      | inl short ↦ rw short (
        1,
        young-last i es,
        inr (
          i,
          omega arith,
          delete_old-short batch (rounds i).now retention (met i es) (ltb→lt _ _ short),
        ),
      )
      | inr full ↦ rw full (elim (Bool-cases (rounds i).cancelled) [
        | inl cancelled ↦ rw cancelled (1, young-last i es, inl (λ e. cc))
        | inr on ↦ rw on (later _ (sweep-IsSwept fuel (suc i) (batched i es).0))
      ])
    ])
  ]
    where
      later :
          (after : List EventRow × Ending)
          → IsSwept t retention rounds (suc i) (batched i es).0 after
          → IsSwept t retention rounds i es after
      later after (k, young_ones, inl e) = (suc k, young_ones ∙ young-batched i es _, inl e)
      later after (k, young_ones, inr (j, at, none_old)) =
          (suc k, young_ones ∙ young-batched i es _, inr (j, omega arith, none_old))

  -- More fuel than there ever are old rows is enough.
  sweep-ends :
      (fuel i : ℕ) (es : List EventRow)
      → 0 < batch
      → count_old t retention (es ++ arrived rounds i fuel) < fuel
      → (sweep fuel batch retention rounds i es).1 ≢ out_of_fuel
  unfolding sweep
  sweep-ends zero i es p h = absurd (omega arith)
  sweep-ends (suc fuel) i es p h = elim (Bool-cases (rounds i).fails) [
    | inl fails ↦ rw fails (λ e. cc)
    | inr runs ↦ rw runs (elim (Bool-cases (ltb (batched i es).1 batch)) [
      | inl short ↦ rw short (λ e. cc)
      | inr full ↦ rw full (elim (Bool-cases (rounds i).cancelled) [
        | inl cancelled ↦ rw cancelled (λ e. cc)
        | inr on ↦ rw on (
            sweep-ends fuel (suc i) (batched i es).0 p (
              let filled : batch ≤ (batched i es).1 = ground arith in
              omega (arith, count_old-batched i es (arrived rounds (suc i) fuel))))
      ])
    ])
  ]

-- What a call of gcOnce has done, by a time t: see IsSwept; nothing where it was not given the lock.
abbrev pub IsCleaned : ℕ → ℕ → Weather → GcState → GcState × Option Ending → Type 0
IsCleaned t retention w s after =
    (k : ℕ) × (young t retention after.0.events
      ≡ young t retention (s.events ++ arrived w.rounds 0 k))
    × ((after.1 ≢ some finished)
        ⊎ ((j : ℕ) × (suc j ≡ k) × (count_old (w.rounds j).now retention after.0.events ≡ 0)))

abbrev IsSafe : ℕ → ℕ → Weather → GcState → GcState × Option Ending → Type 0
IsSafe t retention w s after =
    IsCleaned t retention w s after
    × ((after.0.lock ≡ s.lock) ⊎ (w.releases ≡ false))
    × (after.1 ≢ some out_of_fuel)

some-inj : (a b : Ending) → some a ≡ some b → a ≡ b
some-inj a b e = cc

-- Giving back what was given.
release_lock-get_lock :
    (same : Bool) (h lock : Holder) → get_lock same h ≡ some lock → release_lock lock ≡ h
release_lock-get_lock same nobody lock e = ground arith
release_lock-get_lock same another_process lock e = cc
release_lock-get_lock true (this_process n) lock e = ground arith
release_lock-get_lock false (this_process n) lock e = cc

module _ (fuel batch t retention : ℕ) (w : Weather) (s : GcState)
    (past : (j : ℕ) → (w.rounds j).now ≤ t) (p : 0 < batch)
    (h : count_old t retention (s.events ++ arrived w.rounds 0 fuel) < fuel) where
  untried :
      (o : Option Ending)
      → (o ≢ some finished)
      → (o ≢ some out_of_fuel)
      → IsSafe t retention w s (s, o)
  untried o f e = ((0, ap (young t retention) (sym (append-nil s.events)), inl f), inl refl, e)

  locked-IsSafe :
      (o : Option Holder)
      → ((lock : Holder) → o ≡ some lock → release_lock lock ≡ s.lock)
      → IsSafe t retention w s (gc_locked fuel batch retention w s o)
  locked-IsSafe none back = untried none (λ e. cc) (λ e. cc)
  locked-IsSafe (some lock) back =
      let ended = sweep-ends batch t retention w.rounds past fuel 0 s.events p h in
      (
        cleaned (sweep-IsSwept batch t retention w.rounds past fuel 0 s.events),
        held (Bool-cases w.releases),
        λ e. ended (some-inj _ _ e),
      )
    where
      cleaned :
          IsSwept t retention w.rounds 0 s.events (sweep fuel batch retention w.rounds 0 s.events)
          → IsCleaned t retention w s (gc_locked fuel batch retention w s (some lock))
      cleaned (k, young_ones, inl f) = (k, young_ones, inl (λ e. f (some-inj _ _ e)))
      cleaned (k, young_ones, inr (j, at, none_old)) =
          (k, young_ones, inr (j, omega arith, none_old))

      held :
          ((w.releases ≡ true) ⊎ (w.releases ≡ false))
          → ((if w.releases then release_lock lock else lock) ≡ s.lock) ⊎ (w.releases ≡ false)
      held (inl e) = inl (rw e (back lock refl))
      held (inr e) = inr e

  gc_once-IsSafe : IsSafe t retention w s (gc_once fuel batch retention w s)
  unfolding gc_once
  gc_once-IsSafe = elim (Bool-cases (w.connects && w.locks)) [
    | inr e ↦ rw e (untried (some failed) (λ q. cc) (λ q. cc))
    | inl e ↦ rw e (elim (Bool-cases w.answers_null) [
      | inl null ↦ rw null (untried none (λ q. cc) (λ q. cc))
      | inr given ↦ rw given (
          locked-IsSafe (get_lock w.same_connection s.lock)
            (release_lock-get_lock w.same_connection s.lock))
    ])
  ]

-- One call of gcOnce, whatever fails, whoever has the lock, whatever rows others write before each
-- DELETE and however late each is, with a positive batch: after some number of rounds the table holds,
-- of its rows and of those that arrived, all that are within the retention at a time that no DELETE is
-- later than, and a call that finishes has left no row that was beyond the retention at its last DELETE;
-- the lock is afterwards as it was, unless RELEASE_LOCK fails; and the loop ends within as many rounds
-- as there are rows, then and to come, that get beyond the retention by that time, and one.
pub gc_once-safe :
    (fuel batch t retention : ℕ) (w : Weather) (s : GcState)
    → ((j : ℕ) → (w.rounds j).now ≤ t)
    → 0 < batch
    → count_old t retention (s.events ++ arrived w.rounds 0 fuel) < fuel
    → let (after, ending) = gc_once fuel batch retention w s in
      ((k : ℕ) × (young t retention after.events
          ≡ young t retention (s.events ++ arrived w.rounds 0 k))
        × ((ending ≢ some finished)
            ⊎ ((j : ℕ) × (suc j ≡ k) × (count_old (w.rounds j).now retention after.events ≡ 0))))
      × ((after.lock ≡ s.lock) ⊎ (w.releases ≡ false))
      × (ending ≢ some out_of_fuel)
gc_once-safe fuel batch t retention w s past p h =
    gc_once-IsSafe fuel batch t retention w s past p h
