-- ===== src/Notify/Start.antt =====
-- Starting a Bus: New, envInt, Start and initialCursor of app/backend/internal/notify/bus.go and
-- poller.go, and envInt of app/backend/internal/db/db.go, which is the same function.
pub mod Delivers
pub mod Defaults
use sakura_intern_team_e.Prelude.{
  ℕ, zero, suc, ◌+◌, ◌*◌, ◌%◌, ◌^◌, Bool, true, false, ◌&&◌, Option, none, some, List, [], ◌∷◌,
  ◌==◌, ltb, leb, if◌then◌else◌,
}
use sakura_intern_team_e.Db.Tables.{Text, EventRow}
use sakura_intern_team_e.Handler.Page.{read_number}

-- strconv.Atoi where it returns no error: an int, by its bit pattern; a text beyond int is an error.
abbrev pub in_range : Option ℕ → Option ℕ
in_range none = none
in_range (some n) = if ltb n (2 ^ 63) then some n else none

abbrev pub positive_of : Option ℕ → Option ℕ
positive_of none = none
positive_of (some v) = if ltb 0 v then some v else none

-- The positive ints of a text: what a sign, or no sign, and digits spell.
unfoldable pub positive_int : Text → Option ℕ
positive_int [] = none
positive_int (c ∷ cs) =
    positive_of (in_range (if c == 43 then read_number cs else read_number (c ∷ cs)))

abbrev pub or_fallback : Option ℕ → ℕ → ℕ
or_fallback none fallback = fallback
or_fallback (some v) fallback = v

-- envInt, on the variable's text, which is empty where it is not set
unfoldable pub env_int : Text → ℕ → ℕ
env_int value fallback = or_fallback (positive_int value) fallback

-- The numbers of a Bus; a duration is an int64 of nanoseconds, by its bit pattern.
pub record Settings : Type 0 where
  pub poll_interval : ℕ
  pub batch_size : ℕ
  pub gc_interval : ℕ
  pub gc_batch_size : ℕ
  pub retention : ℕ

-- The variables that New reads, in the order of the fields.
pub record Environment : Type 0 where
  pub poll_interval : Text
  pub poll_batch : Text
  pub gc_interval : Text
  pub gc_batch : Text
  pub retention : Text

-- `time.Duration(n) * unit`, which wraps around
abbrev pub duration : ℕ → ℕ → ℕ
duration n unit = (n * unit) % 2 ^ 64

-- New
unfoldable pub new_settings : Environment → Settings
new_settings e = record {
  poll_interval = duration (env_int e.poll_interval 250) 1_000_000;
  batch_size = env_int e.poll_batch 200;
  gc_interval = duration (env_int e.gc_interval 60) 1_000_000_000;
  gc_batch_size = env_int e.gc_batch 1000;
  retention = duration (env_int e.retention 3600) 1_000_000_000;
}

-- What one query for the largest id meets: the table that it reads, an error that the server answers,
-- or a connection that is lost.
pub data Answer : Type 0 where
  table : List EventRow → Answer
  server_refused : Answer
  lost : Answer

-- One round of initialCursor's loop: the answer, and whether the context is cancelled by the time that
-- the code looks at it after the query and while it waits for the next round.
pub record Round : Type 0 where
  pub answer : Answer
  pub cancelled : Bool
  pub cancelled_waiting : Bool

pub data Cursor : Type 0 where
  starts_at : ℕ → Cursor
  stops refused_start : Cursor

-- SELECT COALESCE(MAX(id), 0) FROM sse_events
unfoldable pub max_id : List EventRow → ℕ
max_id [] = 0
max_id (e ∷ es) = let later = max_id es in if leb later e.id then e.id else later

abbrev pub unless_cancelled : Bool → Option Cursor → Option Cursor
unless_cancelled true next = some stops
unless_cancelled false next = next

abbrev pub after_round : Round → Option Cursor → Option Cursor
after_round r next = elim r.answer [
  | table events ↦ some (starts_at (max_id events))
  | server_refused ↦ unless_cancelled r.cancelled (some refused_start)
  | lost ↦ unless_cancelled r.cancelled (unless_cancelled r.cancelled_waiting next)
]

-- initialCursor over the rounds that the environment gives it; none while it still retries.
unfoldable pub initial_cursor : List Round → Option Cursor
initial_cursor [] = none
initial_cursor (r ∷ rs) = let next = initial_cursor rs in after_round r next
