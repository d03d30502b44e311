-- ===== src/Notify/Gc.antt =====
-- app/backend/internal/notify/gc.go: deleting old rows of sse_events in batches under a named lock.
-- Times are in seconds here; the environment answers each statement.
pub mod Deletes
use sakura_intern_team_e.Prelude.{
  ℕ, zero, suc, ◌+◌, Bool, true, false, not, ◌&&◌, ◌||◌, Option, none, some, List, [], ◌∷◌, ◌++◌,
  ltb, ◌==◌, if◌then◌else◌, length,
}
use sakura_intern_team_e.Db.Tables.{EventRow}

-- Who has the lock gcLockName: no process, another, or a connection of this one, which may have been
-- given it some more times.
pub data Holder : Type 0 where
  nobody another_process : Holder
  this_process : ℕ → Holder

-- The table, in the order of ids, and the lock.
pub record GcState : Type 0 where
  pub events : List EventRow
  pub lock : Holder

-- What the environment does to one round of the loop: the rows that others write before its DELETE,
-- the server's time then, whether the DELETE fails, and whether ctx is cancelled after it.
pub record Round : Type 0 where
  pub arrivals : List EventRow
  pub now : ℕ
  pub fails : Bool
  pub cancelled : Bool

-- What it does to one call of gcOnce: whether db.Conn and GET_LOCK succeed, whether GET_LOCK answers
-- NULL, whether the pool hands out the connection that has the lock where this process has it, the
-- rounds in turn, and whether RELEASE_LOCK succeeds.
pub record Weather : Type 0 where
  pub connects : Bool
  pub locks : Bool
  pub answers_null : Bool
  pub same_connection : Bool
  pub rounds : ℕ → Round
  pub releases : Bool

-- created_at < NOW() - INTERVAL ? SECOND
abbrev pub is_old : ℕ → ℕ → EventRow → Bool
is_old now retention e = ltb (e.created_at + retention) now

-- The rows that a DELETE with a LIMIT leaves, and how many it deleted, on rows in the order of ids.
unfoldable pub delete_old : ℕ → ℕ → ℕ → List EventRow → List EventRow × ℕ
delete_old zero now retention es = (es, 0)
delete_old (suc n) now retention [] = ([], 0)
delete_old (suc n) now retention (e ∷ es) =
    let (kept, deleted) = delete_old n now retention es in
    let (kept', deleted') = delete_old (suc n) now retention es in
    if is_old now retention e then (kept, suc deleted) else (e ∷ kept', deleted')

-- How gcOnce ends.
pub data Ending : Type 0 where
  finished failed stopped out_of_fuel : Ending

-- The loop: it ends on an error, on a batch that is not full, or when ctx is cancelled.
unfoldable pub sweep : ℕ → ℕ → ℕ → (ℕ → Round) → ℕ → List EventRow → List EventRow × Ending
sweep zero batch retention rounds i es = (es, out_of_fuel)
sweep (suc fuel) batch retention rounds i es =
    let r = rounds i in
    let met = es ++ r.arrivals in
    let (left, n) = delete_old batch r.now retention met in
    let rest = sweep fuel batch retention rounds (suc i) left in
    if r.fails
    then (met, failed)
    else if ltb n batch
    then (left, finished)
    else if r.cancelled
    then (left, stopped)
    else rest

-- GET_LOCK(?, 0): the lock if nobody has it, or once more for the connection that has it.
abbrev pub get_lock : Bool → Holder → Option Holder
get_lock same_connection nobody = some (this_process 0)
get_lock same_connection another_process = none
get_lock same_connection (this_process n) =
    if same_connection then some (this_process (suc n)) else none

-- RELEASE_LOCK: it gives back the lock once.
abbrev pub release_lock : Holder → Holder
release_lock nobody = nobody
release_lock another_process = another_process
release_lock (this_process zero) = nobody
release_lock (this_process (suc n)) = this_process n

abbrev pub gc_locked : ℕ → ℕ → ℕ → Weather → GcState → Option Holder → GcState × Option Ending
gc_locked fuel batch retention w s none = (s, none)
gc_locked fuel batch retention w s (some lock) =
    let (left, ending) = sweep fuel batch retention w.rounds 0 s.events in
    (record { events = left; lock = if w.releases then release_lock lock else lock }, some ending)

-- gcOnce: the table, the lock after the deferred release, which is only logged when it fails, and how
-- the call ended; `none` means that nothing was tried, because the lock was not given.
unfoldable pub gc_once : ℕ → ℕ → ℕ → Weather → GcState → GcState × Option Ending
gc_once fuel batch retention w s =
    if not (w.connects && w.locks)
    then (s, some failed)
    else if w.answers_null
    then (s, none)
    else gc_locked fuel batch retention w s (get_lock w.same_connection s.lock)

-- What happens next to runGC: its ticker fires, other processes change the table or take or free the
-- lock, or ctx is cancelled.
pub data GcTurn : Type 0 where
  ticks : Weather → GcTurn
  others_act : (GcState → GcState) → GcTurn
  stops : GcTurn

-- runGC; the errors of gcOnce go to the log only.
unfoldable pub run_gc : ℕ → ℕ → ℕ → List GcTurn → GcState → GcState
unfolding gc_once
run_gc fuel batch retention [] s = s
run_gc fuel batch retention (ticks w ∷ ts) s =
    run_gc fuel batch retention ts (gc_once fuel batch retention w s).0
run_gc fuel batch retention (others_act f ∷ ts) s = run_gc fuel batch retention ts (f s)
run_gc fuel batch retention (stops ∷ ts) s = s
