-- ===== src/Notify/Poller/Complete.antt =====
-- The poller of notify/poller.go reads everything there is, and what it can miss.
use sakura_intern_team_e.Prelude.{
  ℕ, zero, suc, ◌<◌, ◌≤◌, ◌≡◌, refl, sym, ◌∙◌, ap, false, Option, none, some, List, [], ◌∷◌, ◌++◌,
  ltb, ltb→lt, if◌then◌else◌, filter, take, drop, length, arith, All, any, ◌==◌, take-append-drop,
  any-append, Bool-cases, inl, inr, length-take,
}
use sakura_intern_team_e.Db.Tables.{EventRow}
use sakura_intern_team_e.Notify.Poller.{
  Snapshot, by_id, unread, is_after, is_settled, last_id, poll_once, poll_all, drain, advance,
  readable, is_broken,
}
use sakura_intern_team_e.Notify.Poller.Order.{Ascending, IsKeyed, unread-Ascending}

filter-after_after :
    (c d : ℕ) (es : List EventRow)
    → c ≤ d
    → filter (is_after d) (filter (is_after c) es) ≡ filter (is_after d) es
filter-after_after c d [] h = refl
filter-after_after c d (e ∷ es) h = ground (arith, filter-after_after c d es h)

last_id-above : (c : ℕ) (es : List EventRow) → Ascending c es → c ≤ last_id c es
unfolding last_id
last_id-above c [] a = omega arith
last_id-above c (e ∷ es) a = omega (arith, last_id-above e.id es a.1, a.0)

filter-Ascending_self :
    (c d : ℕ) (es : List EventRow) → c ≤ d → Ascending d es → filter (is_after c) es ≡ es
filter-Ascending_self c d [] h a = refl
filter-Ascending_self c d (e ∷ es) h a = ground (arith, filter-Ascending_self c e.id es)

take-Ascending : (n b : ℕ) (es : List EventRow) → Ascending b es → Ascending b (take n es)
take-Ascending zero b es a = tt
take-Ascending (suc n) b [] a = tt
take-Ascending (suc n) b (e ∷ es) a = (a.0, take-Ascending n e.id es a.1)

-- After the first rows of an ascending list, what lies above the last of them is the rest.
filter-last_take :
    (n c : ℕ) (es : List EventRow)
    → Ascending c es
    → filter (is_after (last_id c (take n es))) es ≡ drop n es
unfolding last_id
filter-last_take zero c es a = filter-Ascending_self c c es (omega arith) a
filter-last_take (suc n) c [] a = refl
filter-last_take (suc n) c (e ∷ es) a = ground (
  arith,
  filter-last_take n e.id es a.1,
  last_id-above e.id (take n es) (take-Ascending n e.id es a.1),
)

last_id-append : (c : ℕ) (es fs : List EventRow) → last_id c (es ++ fs) ≡ last_id (last_id c es) fs
unfolding last_id
last_id-append c [] fs = refl
last_id-append c (e ∷ es) fs = last_id-append e.id es fs

unread-next :
    (n c : ℕ) (s : Snapshot)
    → IsKeyed s
    → unread (last_id c (take n (unread c s))) s ≡ drop n (unread c s)
unread-next n c s k =
    let a = unread-Ascending c s k in
    let above = last_id-above c (take n (unread c s)) (take-Ascending n c (unread c s) a) in
    unread-above c (last_id c (take n (unread c s))) s above ∙ filter-last_take n c (unread c s) a
  where
    unread-above : (c d : ℕ) (s : Snapshot) → c ≤ d → unread d s ≡ filter (is_after d) (unread c s)
    unread-above c d s h =
        unfold unread in sym (filter-after_after c d (filter (is_settled s.now) (by_id s.events)) h)

poll_once-whole :
    (batch cursor : ℕ) (s : Snapshot)
    → s.cut ≡ none
    → poll_once batch cursor s ≡ record {
      delivered = take batch (unread cursor s);
      next = last_id cursor (take batch (unread cursor s));
      failed = false;
    }
unfolding poll_once
poll_once-whole batch cursor s w = ground arith

length-drop_less :
    {A : Type 0} (n : ℕ) (xs : List A) → 0 < n → 0 < length xs → length (drop n xs) < length xs
length-drop_less zero xs p q = omega arith
length-drop_less (suc n) [] p q = omega arith
length-drop_less (suc zero) (x ∷ xs) p q = omega arith
length-drop_less (suc (suc n)) (x ∷ []) p q = omega arith
length-drop_less (suc (suc n)) (x ∷ y ∷ xs) p q =
    omega (arith, length-drop_less (suc n) (y ∷ xs) (omega arith) (omega arith))

take_all : {A : Type 0} (n : ℕ) (xs : List A) → length (take n xs) < n → take n xs ≡ xs
take_all zero xs h = absurd (omega arith)
take_all (suc n) [] h = refl
take_all (suc n) (x ∷ xs) h = ap (◌∷◌ x) (take_all n xs (omega arith))

not_ltb : (a b : ℕ) → ltb a b ≡ false → b ≤ a
not_ltb a b h = ground arith

drain-step :
    (fuel batch cursor : ℕ) (s : Snapshot)
    → s.cut ≡ none
    → drain (suc fuel) batch cursor s ≡ (
        let rows = take batch (unread cursor s) in
        let (rest, last) = drain fuel batch (last_id cursor rows) s in
        if ltb (length rows) batch then (rows, last_id cursor rows) else (rows ++ rest, last))
unfolding drain
drain-step fuel batch cursor s w = rw (poll_once-whole batch cursor s w)

-- With enough rounds the inner loop of runPoller delivers every settled event above the cursor, in
-- the order of ids and each once, and leaves the cursor at the last of them.
pub drain_complete :
    (fuel batch cursor : ℕ) (s : Snapshot)
    → IsKeyed s
    → s.cut ≡ none
    → 0 < batch
    → length (unread cursor s) < fuel
    → ((drain fuel batch cursor s).0 ≡ unread cursor s)
      × ((drain fuel batch cursor s).1 ≡ last_id cursor (unread cursor s))
drain_complete zero batch cursor s k w p h = absurd (omega arith)
drain_complete (suc fuel) batch cursor s k w p h =
    elim (Bool-cases (ltb (length (take batch (unread cursor s))) batch)) [
      | inl short ↦
          let whole = take_all batch (unread cursor s) (ltb→lt _ _ short) in
          rw (drain-step fuel batch cursor s w, short, whole) (refl, refl)
      | inr full ↦
          let read = take batch (unread cursor s) in
          let some_left : 0 < length (unread cursor s) =
            omega (arith, not_ltb (length read) batch full, length-take batch (unread cursor s)) in
          let shorter : length (unread (last_id cursor read) s) < fuel =
            rw (unread-next batch cursor s k)
              (omega (arith, length-drop_less batch (unread cursor s) p some_left)) in
          let rest = drain_complete fuel batch (last_id cursor read) s k w p shorter in
          rw (drain-step fuel batch cursor s w, full)
            (
              rw (rest.0, unread-next batch cursor s k) (take-append-drop batch (unread cursor s)),
              rw
                  (
                    rest.1,
                    unread-next batch cursor s k,
                    ← last_id-append cursor read (drop batch (unread cursor s)),
                  )
                  (ap (last_id cursor) (take-append-drop batch (unread cursor s))),
            )
    ]

-- A poll whose read breaks off delivers what it read and leaves the cursor where it was, so the next
-- poll of the same rows delivers the same events again.
pub poll-redelivers :
    (batch cursor n : ℕ) (s whole : Snapshot)
    → s.cut ≡ some n
    → whole.cut ≡ none
    → unread cursor whole ≡ unread cursor s
    → let broken = poll_once batch cursor s in
      let again = poll_once batch (advance cursor broken) whole in
      (advance cursor broken ≡ cursor)
      × (broken.delivered ≡ take n (take batch (unread cursor s)))
      × (broken.delivered ≡ take n again.delivered)
unfolding advance poll_once
poll-redelivers batch cursor n s whole c w same = ground arith

pub Ascending-any :
    (b id : ℕ) (es : List EventRow)
    → id ≤ b
    → Ascending b es
    → any (λ (x : EventRow). x.id == id) es ≡ false
Ascending-any b id [] h a = refl
Ascending-any b id (e ∷ es) h a = ground (arith, Ascending-any e.id id es)

readable-above :
    (cursor : ℕ) (c : Option ℕ) (rows : List EventRow)
    → Ascending cursor rows
    → Ascending cursor (readable c rows)
      × (cursor ≤ (if is_broken c then cursor else last_id cursor (readable c rows)))
readable-above cursor none rows a = (a, last_id-above cursor rows a)
readable-above cursor (some n) rows a = (take-Ascending n cursor rows a, omega arith)

poll_once-above :
    (batch cursor : ℕ) (s : Snapshot)
    → IsKeyed s
    → Ascending cursor (poll_once batch cursor s).delivered
      × (cursor ≤ advance cursor (poll_once batch cursor s))
unfolding advance poll_once
poll_once-above batch cursor s k =
    readable-above cursor s.cut (take batch (unread cursor s))
      (take-Ascending batch cursor (unread cursor s) (unread-Ascending cursor s k))

-- An event at or below the cursor is never delivered by any later poll, whatever those polls see: a
-- row that becomes visible only after the cursor has passed its id is lost to this process.
pub poll_all-skips :
    (batch cursor id : ℕ) (ss : List Snapshot)
    → All IsKeyed ss
    → id ≤ cursor
    → any (λ (x : EventRow). x.id == id) (poll_all batch cursor ss).0 ≡ false
unfolding poll_all
poll_all-skips batch cursor id [] k h = refl
poll_all-skips batch cursor id (s ∷ ss) k h =
    let (rows, above) = poll_once-above batch cursor s k.0 in
    let rest =
      poll_all-skips batch (advance cursor (poll_once batch cursor s)) id ss k.1 (omega arith) in
    rw
      (
        any-append (λ (x : EventRow). x.id == id) (poll_once batch cursor s).delivered _,
        Ascending-any cursor id (poll_once batch cursor s).delivered h rows,
      )
      rest
