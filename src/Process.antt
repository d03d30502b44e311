-- ===== src/Process.antt =====
-- The start of an API process: New of app/backend/internal/db/db.go, Start of
-- app/backend/internal/notify/bus.go, and main of app/backend/cmd/api/main.go.
pub mod Starts
use sakura_intern_team_e.Prelude.{
  ℕ, zero, suc, Bool, true, false, Option, none, some, List, [], ◌∷◌, if◌then◌else◌, ltb, ◌^◌, ◌&&◌,
}
use sakura_intern_team_e.Db.Tables.{Text}
use sakura_intern_team_e.Db.Errors.{runes}
use sakura_intern_team_e.Middleware.{same_text}
use sakura_intern_team_e.Notify.Start.{
  env_int, Settings, new_settings, Round, Cursor, starts_at, stops, refused_start, initial_cursor,
}
use sakura_intern_team_e.Notify.Start as Start

-- The pool that New sets up; times are in seconds.
pub record Pool : Type 0 where
  pub max_open : ℕ
  pub max_idle : ℕ
  pub max_lifetime : ℕ
  pub max_idle_time : ℕ

-- The variables that the process reads; a variable that is not set is empty.
pub record Variables : Type 0 where
  pub database_url : Text
  pub max_open_conns : Text
  pub max_idle_conns : Text
  pub cookie_secure : Text
  pub port : Text
  pub bus : Start.Environment

-- What the process meets: whether sql.Open takes the URL, the answers to its pings, the rounds of
-- initialCursor, and whether ListenAndServe listens.
pub record Startup : Type 0 where
  pub opens : Bool
  pub pings : ℕ → Bool
  pub rounds : List Round
  pub listens : Bool

-- The attempts of New that are left, from the i-th ping on: whether one was answered.
unfoldable pub ping_until : ℕ → (ℕ → Bool) → ℕ → Bool
ping_until zero pings i = false
ping_until (suc n) pings i = elim (pings i) [ true ↦ true | false ↦ ping_until n pings (suc i) ]

abbrev pub is_unset : Text → Bool
is_unset [] = true
is_unset (c ∷ t) = false

abbrev pub pool_of : Variables → Pool
pool_of v = record {
  max_open = env_int v.max_open_conns 10;
  max_idle = env_int v.max_idle_conns 5;
  max_lifetime = 300;
  max_idle_time = 120;
}

-- New; `none` is os.Exit(1).
unfoldable pub new_db : Variables → Startup → Option Pool
unfolding ping_until
new_db v s =
    if is_unset v.database_url
    then none
    else if s.opens
    then (if ping_until 10 s.pings 0 then some (pool_of v) else none)
    else none

-- A process that serves: what its goroutines work with. The poller has its cursor before the server
-- listens.
pub record Serving : Type 0 where
  pub pool : Pool
  pub settings : Settings
  pub cookie_secure : Bool
  pub cursor : ℕ
  pub port : Text

-- What comes of main: it still starts, it exits with an error, a goroutine's panic ends it, or it serves.
pub data Fate : Type 0 where
  starting exits panics : Fate
  serves : Serving → Fate

-- The port that the server listens on.
abbrev pub port_of : Text → Text
port_of port = if is_unset port then runes "8080" else port

abbrev pub serving_of : Variables → Pool → ℕ → Serving
serving_of v pool c = record {
  pool = pool;
  settings = new_settings v.bus;
  cookie_secure = same_text v.cookie_secure (runes "true");
  cursor = c;
  port = port_of v.port;
}

-- time.NewTicker panics on a duration that is not positive; durations are bit patterns of int64.
abbrev pub can_tick : ℕ → Bool
can_tick d = ltb 0 d && ltb d (2 ^ 63)

-- The goroutines of Start make their tickers, and the server listens or main exits.
abbrev pub after_start : Variables → Startup → Pool → ℕ → Fate
after_start v s pool c =
    let settings = new_settings v.bus in
    if can_tick settings.poll_interval && can_tick settings.gc_interval
    then (if s.listens then serves (serving_of v pool c) else exits)
    else panics

-- `if err := bus.Start(ctx); err != nil { os.Exit(1) }`, and what comes after it
abbrev pub after_cursor : Variables → Startup → Pool → Option Cursor → Fate
after_cursor v s pool none = starting
after_cursor v s pool (some stops) = exits
after_cursor v s pool (some refused_start) = exits
after_cursor v s pool (some (starts_at c)) = after_start v s pool c

abbrev pub after_connecting : Variables → Startup → Option Pool → Fate
after_connecting v s none = exits
after_connecting v s (some pool) = after_cursor v s pool (initial_cursor s.rounds)

-- main, up to the signal that ends it
unfoldable pub start_process : Variables → Startup → Fate
unfolding new_db
start_process v s = after_connecting v s (new_db v s)
