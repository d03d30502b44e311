-- ===== src/Notify/Poller/Order.antt =====
-- The order in which the poller of notify/poller.go delivers.
use sakura_intern_team_e.Prelude.{
  ℕ, zero, suc, ◌<◌, ◌≤◌, ◌≡◌, refl, subst, Bool, false, ◌||◌, Option, none, some, List, [], ◌∷◌,
  ◌++◌, filter, take, arith, All, any, ◌==◌,
}
use sakura_intern_team_e.Db.Tables.{EventRow}
use sakura_intern_team_e.Notify.Poller.{
  Snapshot, by_id, insert_by_id, unread, is_after, is_settled, readable, last_id, poll_once,
  advance, poll_all,
}

-- Ids rise strictly along the list, from above a bound.
abbrev pub Ascending : ℕ → List EventRow → Type 0
Ascending b [] = Unit {0}
Ascending b (e ∷ es) = (b < e.id) × Ascending e.id es

-- Ids do not fall along the list.
abbrev Rising : ℕ → List EventRow → Type 0
Rising b [] = Unit {0}
Rising b (e ∷ es) = (b ≤ e.id) × Rising e.id es

-- The primary key of the rows, as far as the list shows it.
abbrev pub Keyed : List EventRow → Type 0
Keyed [] = Unit {0}
Keyed (e ∷ es) = (any (λ (x : EventRow). x.id == e.id) es ≡ false) × Keyed es

Ascending-mono : (b c : ℕ) (es : List EventRow) → b ≤ c → Ascending c es → Ascending b es
Ascending-mono b c [] h a = tt
Ascending-mono b c (e ∷ es) h a = (omega arith, a.1)

insert_by_id-Ascending :
    (b : ℕ) (e : EventRow) (es : List EventRow)
    → b < e.id
    → any (λ (x : EventRow). x.id == e.id) es ≡ false
    → Ascending b es
    → Ascending b (insert_by_id e es)
unfolding insert_by_id
insert_by_id-Ascending b e [] h k a = (h, tt)
insert_by_id-Ascending b e (x ∷ es) h k a = ground (arith, insert_by_id-Ascending x.id e es)

any-insert_by_id :
    (id : ℕ) (e : EventRow) (es : List EventRow)
    → any (λ (x : EventRow). x.id == id) (insert_by_id e es)
      ≡ (e.id == id || any (λ (x : EventRow). x.id == id) es)
unfolding insert_by_id
any-insert_by_id id e [] = refl
any-insert_by_id id e (x ∷ es) = ground (arith, any-insert_by_id id e es)

any-by_id :
    (id : ℕ) (es : List EventRow)
    → any (λ (x : EventRow). x.id == id) (by_id es) ≡ any (λ (x : EventRow). x.id == id) es
unfolding by_id
any-by_id id [] = refl
any-by_id id (e ∷ es) = rw (any-insert_by_id id e (by_id es), any-by_id id es)

-- AUTO_INCREMENT starts at 1.
abbrev pub Positive : List EventRow → Type 0
Positive = All (λ (e : EventRow). 0 < e.id)

pub by_id-Ascending : (es : List EventRow) → Keyed es → Positive es → Ascending 0 (by_id es)
unfolding by_id
by_id-Ascending [] k p = tt
by_id-Ascending (e ∷ es) k p =
    insert_by_id-Ascending 0 e (by_id es) p.0 (rw (any-by_id e.id es) k.0)
      (by_id-Ascending es k.1 p.1)

filter-Ascending :
    (t : EventRow → Bool) (b : ℕ) (es : List EventRow) → Ascending b es → Ascending b (filter t es)
filter-Ascending t b [] a = tt
filter-Ascending t b (e ∷ es) a =
    ground (arith, filter-Ascending t e.id es a.1, Ascending-mono b e.id (filter t es))

after-Ascending :
    (b cursor : ℕ) (es : List EventRow)
    → Ascending b es
    → Ascending cursor (filter (is_after cursor) es)
after-Ascending b cursor [] a = tt
after-Ascending b cursor (e ∷ es) a =
    ground
      (arith, after-Ascending e.id cursor es a.1, filter-Ascending (is_after cursor) e.id es a.1)

take-Ascending : (n b : ℕ) (es : List EventRow) → Ascending b es → Ascending b (take n es)
take-Ascending zero b es a = tt
take-Ascending (suc n) b [] a = tt
take-Ascending (suc n) b (e ∷ es) a = (a.0, take-Ascending n e.id es a.1)

abbrev pub IsKeyed : Snapshot → Type 0
IsKeyed s = Keyed s.events × Positive s.events

pub unread-Ascending : (cursor : ℕ) (s : Snapshot) → IsKeyed s → Ascending cursor (unread cursor s)
unfolding unread
unread-Ascending cursor s k =
    after-Ascending 0 cursor _
      (filter-Ascending (is_settled s.now) 0 _ (by_id-Ascending s.events k.0 k.1))

readable-Ascending :
    (c : Option ℕ) (b : ℕ) (es : List EventRow) → Ascending b es → Ascending b (readable c es)
readable-Ascending none b es a = a
readable-Ascending (some n) b es a = take-Ascending n b es a

poll_once-Ascending :
    (batch cursor : ℕ) (s : Snapshot)
    → IsKeyed s
    → Ascending cursor (poll_once batch cursor s).delivered
unfolding poll_once
poll_once-Ascending batch cursor s k =
    readable-Ascending s.cut cursor _ (take-Ascending batch cursor _ (unread-Ascending cursor s k))

append-Ascending :
    (b : ℕ) (es fs : List EventRow)
    → Ascending b es
    → Ascending (last_id b es) fs
    → Ascending b (es ++ fs)
unfolding last_id
append-Ascending b [] fs a c = c
append-Ascending b (e ∷ es) fs a c = (a.0, append-Ascending e.id es fs a.1 c)

-- No poll of the list breaks off.
abbrev pub AllWhole : List Snapshot → Type 0
AllWhole = All (λ (s : Snapshot). s.cut ≡ none)

pub advance-whole :
    (batch cursor : ℕ) (s : Snapshot)
    → s.cut ≡ none
    → advance cursor (poll_once batch cursor s)
      ≡ last_id cursor (poll_once batch cursor s).delivered
unfolding advance poll_once
advance-whole batch cursor s w = ground arith

-- Whatever other processes write between the polls, the poller delivers in rising order of ids
-- above its first cursor, so no event twice, as long as no read breaks off.
pub poll_all-Ascending :
    (batch cursor : ℕ) (ss : List Snapshot)
    → All IsKeyed ss
    → AllWhole ss
    → Ascending cursor (poll_all batch cursor ss).0
unfolding poll_all
poll_all-Ascending batch cursor [] k w = tt
poll_all-Ascending batch cursor (s ∷ ss) k w =
    append-Ascending cursor _ _ (poll_once-Ascending batch cursor s k.0) (
      subst (λ c. Ascending c (poll_all batch (advance cursor (poll_once batch cursor s)) ss).0)
        (advance-whole batch cursor s w.0)
        (poll_all-Ascending batch (advance cursor (poll_once batch cursor s)) ss k.1 w.1))
