-- ===== src/Notify/Poller.antt =====
-- app/backend/internal/notify/poller.go: reading sse_events after a cursor. A poll sees a snapshot of
-- the table, since other processes write between polls; times are in microseconds.
pub mod Order
pub mod Complete
use sakura_intern_team_e.Prelude.{
  ℕ, zero, suc, ◌+◌, Bool, true, false, ◌&&◌, ◌||◌, Option, none, some, List, [], ◌∷◌, ◌++◌, ltb,
  if◌then◌else◌, filter, take, length,
}
use sakura_intern_team_e.Db.Tables.{EventRow}

-- pollLag
abbrev pub poll_lag : ℕ
poll_lag = 200_000

-- What one poll meets: the server's time, the visible rows, and after how many rows reading breaks
-- off (rows.Scan or rows.Err), if it does; a query that fails breaks off after none.
pub record Snapshot : Type 0 where
  pub now : ℕ
  pub events : List EventRow
  pub cut : Option ℕ

-- ORDER BY id
unfoldable pub insert_by_id : EventRow → List EventRow → List EventRow
insert_by_id e [] = e ∷ []
insert_by_id e (x ∷ xs) = if ltb x.id e.id then x ∷ insert_by_id e xs else e ∷ x ∷ xs

unfoldable pub by_id : List EventRow → List EventRow
by_id [] = []
by_id (e ∷ es) = insert_by_id e (by_id es)

-- created_at < NOW(6) - INTERVAL ? MICROSECOND
abbrev pub is_settled : ℕ → EventRow → Bool
is_settled now e = ltb (e.created_at + poll_lag) now

-- id > ?
abbrev pub is_after : ℕ → EventRow → Bool
is_after cursor e = ltb cursor e.id

-- pollQuery without its LIMIT
unfoldable pub unread : ℕ → Snapshot → List EventRow
unread cursor s = filter (is_after cursor) (filter (is_settled s.now) (by_id s.events))

-- The rows that are read before reading breaks off.
abbrev pub readable : Option ℕ → List EventRow → List EventRow
readable none rows = rows
readable (some n) rows = take n rows

abbrev pub is_broken : Option ℕ → Bool
is_broken none = false
is_broken (some n) = true

-- `next` after the loop over the rows: the id of the last one
unfoldable pub last_id : ℕ → List EventRow → ℕ
last_id next [] = next
last_id next (e ∷ es) = last_id e.id es

-- What pollOnce returns, with the events that it handed to deliver, in order. A broken read delivers
-- what it has.
pub record Poll : Type 0 where
  pub delivered : List EventRow
  pub next : ℕ
  pub failed : Bool

-- pollOnce
unfoldable pub poll_once : ℕ → ℕ → Snapshot → Poll
poll_once batch_size cursor s =
    let rows = readable s.cut (take batch_size (unread cursor s)) in
    record { delivered = rows; next = last_id cursor rows; failed = is_broken s.cut }

-- The cursor of runPoller after a poll: on an error it breaks out before `cursor = next`.
unfoldable pub advance : ℕ → Poll → ℕ
advance cursor p = if p.failed then cursor else p.next

-- runPoller over the polls that it makes: the events that it delivers and its last cursor.
unfoldable pub poll_all : ℕ → ℕ → List Snapshot → List EventRow × ℕ
poll_all batch_size cursor [] = ([], cursor)
poll_all batch_size cursor (s ∷ ss) =
    let p = poll_once batch_size cursor s in
    let (rest, last) = poll_all batch_size (advance cursor p) ss in (p.delivered ++ rest, last)

-- The inner loop of runPoller on one snapshot, while ctx is not cancelled: it polls on while batches are
-- full.
unfoldable pub drain : ℕ → ℕ → ℕ → Snapshot → List EventRow × ℕ
drain zero batch_size cursor s = ([], cursor)
drain (suc fuel) batch_size cursor s =
    let p = poll_once batch_size cursor s in
    let (rest, last) = drain fuel batch_size p.next s in
    if p.failed
    then (p.delivered, cursor)
    else if ltb (length p.delivered) batch_size
    then (p.delivered, p.next)
    else (p.delivered ++ rest, last)
