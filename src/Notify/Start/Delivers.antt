-- ===== src/Notify/Start/Delivers.antt =====
-- What a started poller delivers.
use sakura_intern_team_e.Prelude.{
  ℕ, suc, ◌+◌, ◌≤◌, ◌<◌, ◌≡◌, refl, ◌∙◌, Bool, true, false, ◌&&◌, none, some, List, [], ◌∷◌, ◌==◌,
  ◌++◌, any, any-append, filter, length-filter-le, length, All, arith, ==_refl, lt→ltb,
}
use sakura_intern_team_e.Db.Tables.{EventRow}
use sakura_intern_team_e.Db.Invariant.{All-mono}
use sakura_intern_team_e.Notify.Poller.{
  Snapshot, unread, by_id, insert_by_id, is_after, is_settled, drain, poll_lag,
}
use sakura_intern_team_e.Notify.Poller.Order.{IsKeyed, unread-Ascending}
use sakura_intern_team_e.Notify.Poller.Complete.{drain_complete, Ascending-any}
use sakura_intern_team_e.Notify.Start.{Round, table, lost, starts_at, max_id, initial_cursor}

abbrev pub has_event : ℕ → List EventRow → Bool
has_event id = any (λ (e : EventRow). e.id == id)

module _ (p : EventRow → Bool) where
  any-insert_by_id :
      (e : EventRow) (es : List EventRow) → any p (insert_by_id e es) ≡ any p (e ∷ es)
  unfolding insert_by_id
  any-insert_by_id e [] = refl
  any-insert_by_id e (x ∷ xs) = ground (arith, any-insert_by_id e xs)

  any-by_id : (es : List EventRow) → any p (by_id es) ≡ any p es
  unfolding by_id
  any-by_id [] = refl
  any-by_id (e ∷ es) = ground (arith, any-insert_by_id e (by_id es), any-by_id es)

  any-filter_both :
      (q : EventRow → Bool) (es : List EventRow) → any p (filter q es) ≡ any (λ x. q x && p x) es
  any-filter_both q [] = refl
  any-filter_both q (e ∷ es) = ground (arith, any-filter_both q es)

length-insert_by_id :
    (e : EventRow) (es : List EventRow) → length (insert_by_id e es) ≡ suc (length es)
unfolding insert_by_id
length-insert_by_id e [] = refl
length-insert_by_id e (x ∷ xs) = ground (arith, length-insert_by_id e xs)

length-by_id : (es : List EventRow) → length (by_id es) ≡ length es
unfolding by_id
length-by_id [] = refl
length-by_id (e ∷ es) = omega (arith, length-insert_by_id e (by_id es), length-by_id es)

pub length-unread : (c : ℕ) (s : Snapshot) → length (unread c s) ≤ length s.events
unfolding unread
length-unread c s =
    let settled = filter (is_settled s.now) (by_id s.events) in
    omega (
      arith,
      length-filter-le (is_after c) settled,
      length-filter-le (is_settled s.now) (by_id s.events),
      length-by_id s.events,
    )

-- A settled event above the cursor is unread.
unread-has_event :
    (c : ℕ) (s : Snapshot) (older newer : List EventRow) (e : EventRow)
    → s.events ≡ older ++ (e ∷ newer)
    → c < e.id
    → e.created_at + poll_lag < s.now
    → has_event e.id (unread c s) ≡ true
unfolding unread
unread-has_event c s older newer e at above settled =
    let is_e = λ (x : EventRow). x.id == e.id in
    let later = λ (x : EventRow). is_after c x && is_e x in
    let both = λ (x : EventRow). is_settled s.now x && later x in
    let here : both e ≡ true =
      ground (
        arith,
        lt→ltb c e.id above,
        lt→ltb (e.created_at + poll_lag) s.now settled,
        ==_refl e.id,
      ) in
    let split = any-append both older (e ∷ newer) in
    let found : any both s.events ≡ true = rw (at, split) (ground (arith, here)) in
    any-filter_both is_e (is_after c) (filter (is_settled s.now) (by_id s.events))
    ∙ any-filter_both later (is_settled s.now) (by_id s.events)
    ∙ any-by_id both s.events
    ∙ found

max_id-All : (es : List EventRow) → All (λ (e : EventRow). e.id ≤ max_id es) es
unfolding max_id
max_id-All [] = tt
max_id-All (e ∷ es) =
    let later =
      All-mono (λ (x : EventRow). x.id ≤ max_id es) (λ (x : EventRow). x.id ≤ max_id (e ∷ es)) es
        (λ x h. ground arith) (max_id-All es) in
    (ground arith, later)

-- A round that initialCursor retries: the connection was lost and nobody cancels.
abbrev pub IsRetried : Round → Type 0
IsRetried r = (r.answer ≡ lost) × (r.cancelled ≡ false) × (r.cancelled_waiting ≡ false)

initial_cursor-found :
    (rs : List Round) (r : Round) (start : List EventRow)
    → All IsRetried rs
    → r.answer ≡ table start
    → initial_cursor (rs ++ (r ∷ [])) ≡ some (starts_at (max_id start))
unfolding initial_cursor
initial_cursor-found [] r start h e = rw e refl
initial_cursor-found (x ∷ rs) r start h e =
    rw (h.0.0, h.0.1, h.0.2) (initial_cursor-found rs r start h.1 e)

-- After any number of lost connections, Start's query finds a table and the cursor is fixed. An event
-- above every id of that table, once it has settled, is then delivered by the poller's inner loop, with
-- a positive batch and more rounds than rows, on any snapshot that holds it, whose ids are positive and
-- stand once each, and that is read to the end; and no event of the table is delivered.
pub started-delivers :
    (rs : List Round) (r : Round) (start older newer : List EventRow) (e : EventRow)
    (batch fuel : ℕ) (s : Snapshot)
    → All IsRetried rs
    → r.answer ≡ table start
    → IsKeyed s
    → s.cut ≡ none
    → 0 < batch
    → length s.events < fuel
    → s.events ≡ older ++ (e ∷ newer)
    → max_id start < e.id
    → e.created_at + poll_lag < s.now
    → (cursor : ℕ) × (initial_cursor (rs ++ (r ∷ [])) ≡ some (starts_at cursor))
      × (has_event e.id (drain fuel batch cursor s).0 ≡ true)
      × All (λ (x : EventRow). has_event x.id (drain fuel batch cursor s).0 ≡ false) start
started-delivers rs r start older newer e batch fuel s retried found keyed whole size enough at
      above settled =
    let c = max_id start in
    let drained =
      (drain_complete fuel batch c s keyed whole size
        (omega (arith, length-unread c s, enough))).0 in
    let old =
      All-mono (λ (x : EventRow). x.id ≤ c)
        (λ (x : EventRow). has_event x.id (drain fuel batch c s).0 ≡ false) start
        (λ x h. rw drained (Ascending-any c x.id (unread c s) h (unread-Ascending c s keyed)))
        (max_id-All start) in
    (
      c,
      initial_cursor-found rs r start retried found,
      rw drained (unread-has_event c s older newer e at above settled),
      old,
    )
