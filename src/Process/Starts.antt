-- ===== src/Process/Starts.antt =====
-- When an API process serves, and with what.
use sakura_intern_team_e.Prelude.{
  ℕ, zero, suc, ◌+◌, ◌<◌, ◌≤◌, ◌≡◌, ◌≢◌, ◌↔◌, refl, ap, Bool, true, false, Option, none, some,
  arith, Bool-cases, inl, inr, List, [], ◌∷◌, ◌++◌, All, if◌then◌else◌, ◌&&◌,
}
use sakura_intern_team_e.Db.Tables.{Text, EventRow}
use sakura_intern_team_e.Notify.Start.{
  Cursor, starts_at, stops, refused_start, initial_cursor, Answer, table, lost, server_refused,
  after_round, max_id, new_settings, Round,
}
use sakura_intern_team_e.Notify.Start.Defaults.{IsPositive, env_int-IsPositive}
use sakura_intern_team_e.Notify.Start.Delivers.{IsRetried}
use sakura_intern_team_e.Process.{
  Variables, Startup, Pool, serves, ping_until, new_db, pool_of, start_process, after_connecting,
  after_cursor, after_start, can_tick, serving_of, is_unset, Serving, exits, panics,
}

ping_until-step :
    (n : ℕ) (pings : ℕ → Bool) (i : ℕ)
    → pings i ≡ false
    → ping_until (suc n) pings i ≡ ping_until n pings (suc i)
unfolding ping_until
ping_until-step n pings i e = ground arith

-- An answered ping within the attempts is found.
ping_until-true :
    (n : ℕ) (pings : ℕ → Bool) (i j : ℕ)
    → i ≤ j
    → j < i + n
    → pings j ≡ true
    → ping_until n pings i ≡ true
ping_until-true zero pings i j h k e = absurd (omega arith)
ping_until-true (suc n) pings i j h k e = elim (Bool-cases (pings i)) [
  | inl a ↦ unfold ping_until in ground arith
  | inr a ↦
      let later : suc i ≤ j = grind arith in
      rw (ping_until-step n pings i a) (ping_until-true n pings (suc i) j later (omega arith) e)
]

-- What is found is an answered ping within the attempts.
ping_until-found :
    (n : ℕ) (pings : ℕ → Bool) (i : ℕ)
    → ping_until n pings i ≡ true
    → (j : ℕ) × (j < i + n) × (pings j ≡ true)
ping_until-found zero pings i h = absurd (unfold ping_until in cc)
ping_until-found (suc n) pings i h = elim (Bool-cases (pings i)) [
  | inl a ↦ (i, omega arith, a)
  | inr a ↦
      let (j, below, answered) =
        ping_until-found n pings (suc i) (rw⁻¹ (ping_until-step n pings i a) h) in
      (j, omega arith, answered)
]

-- The rounds of initialCursor find a cursor: after lost connections, and not cancelled, a table whose
-- largest id it is.
abbrev pub Finds : List Round → ℕ → Type 0
Finds rounds c =
    (lost_ones : List Round) × (r : Round) × (events : List EventRow) × (others : List Round)
    × (rounds ≡ lost_ones ++ (r ∷ others))
    × All IsRetried lost_ones
    × (r.answer ≡ table events)
    × (c ≡ max_id events)

-- What a process needs to serve from a cursor.
pub record IsReady (v : Variables) (s : Startup) (c : ℕ) : Type 0 where
  pub url : v.database_url ≢ []
  pub opens : s.opens ≡ true
  pub answered : (j : ℕ) × (j < 10) × (s.pings j ≡ true)
  pub finds : Finds s.rounds c
  pub polls : IsPositive (new_settings v.bus).poll_interval
  pub sweeps : IsPositive (new_settings v.bus).gc_interval
  pub listens : s.listens ≡ true

finds-initial_cursor :
    (rs : List Round) (r : Round) (events : List EventRow) (others : List Round)
    → All IsRetried rs
    → r.answer ≡ table events
    → initial_cursor (rs ++ (r ∷ others)) ≡ some (starts_at (max_id events))
unfolding initial_cursor
finds-initial_cursor [] r events others h e = rw e refl
finds-initial_cursor (x ∷ rs) r events others h e =
    rw (h.0.0, h.0.1, h.0.2) (finds-initial_cursor rs r events others h.1 e)

initial_cursor-Finds :
    (rs : List Round) (c : ℕ) → initial_cursor rs ≡ some (starts_at c) → Finds rs c
unfolding initial_cursor
initial_cursor-Finds [] c e = cc
initial_cursor-Finds (r ∷ rs) c e =
    by_answer r.answer r.cancelled r.cancelled_waiting refl refl refl (initial_cursor-Finds rs c) e
  where
    retried : Finds rs c → IsRetried r → Finds (r ∷ rs) c
    retried (before, x, events, others, at, all, found, same) is =
        (r ∷ before, x, events, others, ap (◌∷◌ r) at, (is, all), found, same)

    by_answer :
        (a : Answer) (b d : Bool)
        → r.answer ≡ a
        → r.cancelled ≡ b
        → r.cancelled_waiting ≡ d
        → (initial_cursor rs ≡ some (starts_at c) → Finds rs c)
        → after_round r (initial_cursor rs) ≡ some (starts_at c)
        → Finds (r ∷ rs) c
    by_answer (table events) b d i j l k e =
        let same : c ≡ max_id events = ground (arith, i, e) in
        ([], r, events, rs, refl, tt, i, same)
    by_answer server_refused true d i j l k e = absurd (ground (arith, i, j, e))
    by_answer server_refused false d i j l k e = absurd (ground (arith, i, j, e))
    by_answer lost true d i j l k e = absurd (ground (arith, i, j, e))
    by_answer lost false true i j l k e = absurd (ground (arith, i, j, l, e))
    by_answer lost false false i j l k e = retried (k (ground (arith, i, j, l, e))) (i, j, l)

can_tick-IsPositive : (d : ℕ) → can_tick d ≡ true → IsPositive d
can_tick-IsPositive d e = ground arith

IsPositive-can_tick : (d : ℕ) → IsPositive d → can_tick d ≡ true
IsPositive-can_tick d h = ground arith

pub is_unset-true : (t : Text) → is_unset t ≡ false → t ≢ []
is_unset-true [] e h = cc
is_unset-true (x ∷ t) e h = cc

set-is_unset : (t : Text) → t ≢ [] → is_unset t ≡ false
set-is_unset [] h = absurd (h refl)
set-is_unset (x ∷ t) h = refl

-- What is left to find out once there is a cursor.
abbrev Ticks : Variables → Startup → Type 0
Ticks v s =
    IsPositive (new_settings v.bus).poll_interval
    × IsPositive (new_settings v.bus).gc_interval
    × (s.listens ≡ true)

all_pass :
    (a b l : Bool) (x y : Serving)
    → (if a && b then (if l then serves x else exits) else panics) ≡ serves y
    → (a ≡ true) × (b ≡ true) × (l ≡ true) × (x.cursor ≡ y.cursor)
all_pass true true true x y e = (refl, refl, refl, cc)
all_pass true true false x y e = cc
all_pass true false l x y e = cc
all_pass false b l x y e = cc

after_start-serves :
    (v : Variables) (s : Startup) (pool : Pool) (d c : ℕ)
    → after_start v s pool d ≡ serves (serving_of v (pool_of v) c)
    → (d ≡ c) × Ticks v s
after_start-serves v s pool d c e =
    let (polls, sweeps, hears, same) =
      all_pass (can_tick (new_settings v.bus).poll_interval)
        (can_tick (new_settings v.bus).gc_interval) s.listens (serving_of v pool d)
        (serving_of v (pool_of v) c) e in
    (same, (can_tick-IsPositive _ polls, can_tick-IsPositive _ sweeps, hears))

after_cursor-starts_at :
    (v : Variables) (s : Startup) (pool : Pool) (o : Option Cursor) (c : ℕ)
    → after_cursor v s pool o ≡ serves (serving_of v (pool_of v) c)
    → (o ≡ some (starts_at c)) × Ticks v s
after_cursor-starts_at v s pool none c e = cc
after_cursor-starts_at v s pool (some stops) c e = cc
after_cursor-starts_at v s pool (some refused_start) c e = cc
after_cursor-starts_at v s pool (some (starts_at d)) c e =
    let (same, ticks) = after_start-serves v s pool d c e in
    (ap (λ x. some (starts_at x)) same, ticks)

new_db-some :
    (v : Variables) (s : Startup)
    → is_unset v.database_url ≡ false
    → s.opens ≡ true
    → ping_until 10 s.pings 0 ≡ true
    → new_db v s ≡ some (pool_of v)
unfolding new_db
new_db-some v s u o p = cc

new_db-is_some :
    (v : Variables) (s : Startup) (pool : Pool)
    → new_db v s ≡ some pool
    → (is_unset v.database_url ≡ false)
      × (s.opens ≡ true)
      × (ping_until 10 s.pings 0 ≡ true)
      × (pool ≡ pool_of v)
unfolding new_db
new_db-is_some v s pool e = ground arith

after_connecting-serves :
    (v : Variables) (s : Startup) (o : Option Pool) (c : ℕ)
    → after_connecting v s o ≡ serves (serving_of v (pool_of v) c)
    → ((pool : Pool) × (o ≡ some pool)) × (initial_cursor s.rounds ≡ some (starts_at c)) × Ticks v s
after_connecting-serves v s none c e = cc
after_connecting-serves v s (some pool) c e =
    let (at, ticks) = after_cursor-starts_at v s pool (initial_cursor s.rounds) c e in
    ((pool, refl), at, ticks)

ready-serves :
    (v : Variables) (s : Startup) (c : ℕ)
    → IsReady v s c
    → start_process v s ≡ serves (serving_of v (pool_of v) c)
unfolding start_process
ready-serves v s c r =
    let (j, below, e) = r.answered in
    let (before, x, events, others, at, all, found, same) = r.finds in
    let pinged = ping_until-true 10 s.pings 0 j (omega arith) below e in
    let made = new_db-some v s (set-is_unset v.database_url r.url) r.opens pinged in
    let cursor = finds-initial_cursor before x events others all found in
    let polls = IsPositive-can_tick _ r.polls in
    let sweeps = IsPositive-can_tick _ r.sweeps in
    rw (made, at, cursor, same, polls, sweeps, r.listens) refl

serves-IsReady :
    (v : Variables) (s : Startup) (c : ℕ)
    → start_process v s ≡ serves (serving_of v (pool_of v) c)
    → IsReady v s c
unfolding start_process
serves-IsReady v s c e =
    let ((pool, made), at, (polls, sweeps, listens)) =
      after_connecting-serves v s (new_db v s) c e in
    let (u, o, p, same) = new_db-is_some v s pool made in
    record {
      url = is_unset-true v.database_url u;
      opens = o;
      answered = ping_until-found 10 s.pings 0 p;
      finds = initial_cursor-Finds s.rounds c at;
      polls = polls;
      sweeps = sweeps;
      listens = listens;
    }

-- A process serves from a cursor exactly when DATABASE_URL is set, sql.Open takes it, one of the first
-- ten pings is answered, initialCursor meets only lost connections, uncancelled, before a table whose
-- largest id is the cursor, the intervals of the poller and of the sweep are positive in an int64 of
-- nanoseconds, and the server can listen; what it serves with is then what the variables say, and its
-- pool has a positive number of open and of idle connections whatever they say.
pub start_process-serves :
    (v : Variables) (s : Startup) (c : ℕ)
    → ((start_process v s ≡ serves (serving_of v (pool_of v) c)) ↔ IsReady v s c)
      × IsPositive (pool_of v).max_open
      × IsPositive (pool_of v).max_idle
start_process-serves v s c = (
  (serves-IsReady v s c, ready-serves v s c),
  env_int-IsPositive v.max_open_conns 10 (omega arith, omega arith),
  env_int-IsPositive v.max_idle_conns 5 (omega arith, omega arith),
)
