-- ===== src/Notify/Start/Defaults.antt =====
-- What New makes of the environment.
use sakura_intern_team_e.Prelude.{
  ℕ, ◌^◌, ◌≤◌, ◌<◌, ◌⊎◌, Option, none, some, [], ◌∷◌, ◌==◌, ltb, ltb→lt, if◌then◌else◌, Bool-cases,
  inl, inr, arith,
}
use sakura_intern_team_e.Db.Tables.{Text}
use sakura_intern_team_e.Handler.Page.{read_number}
use sakura_intern_team_e.Notify.Start.{
  in_range, positive_of, positive_int, or_fallback, env_int, Environment, duration, new_settings,
}

-- A positive int64.
abbrev pub IsPositive : ℕ → Type 0
IsPositive n = (0 < n) × (n < 2 ^ 63)

or_fallback-IsPositive :
    (o : Option ℕ) (fallback : ℕ)
    → IsPositive fallback
    → IsPositive (or_fallback (positive_of (in_range o)) fallback)
or_fallback-IsPositive none fallback h = h
or_fallback-IsPositive (some n) fallback h = ground arith

pub env_int-IsPositive :
    (value : Text) (fallback : ℕ) → IsPositive fallback → IsPositive (env_int value fallback)
unfolding env_int positive_int
env_int-IsPositive [] fallback h = h
env_int-IsPositive (c ∷ cs) fallback h =
    or_fallback-IsPositive (if c == 43 then read_number cs else read_number (c ∷ cs)) fallback h

milliseconds-IsPositive :
    (n : ℕ) → 0 < n → (9_223_372_036_854 < n) ⊎ IsPositive (duration n 1_000_000)
milliseconds-IsPositive n p = elim (Bool-cases (ltb 9_223_372_036_854 n)) [
  | inl e ↦ inl (ltb→lt 9_223_372_036_854 n e)
  | inr e ↦ let most : n ≤ 9_223_372_036_854 = ground arith in inr (omega arith, omega arith)
]

seconds-IsPositive : (n : ℕ) → 0 < n → (9_223_372_036 < n) ⊎ IsPositive (duration n 1_000_000_000)
seconds-IsPositive n p = elim (Bool-cases (ltb 9_223_372_036 n)) [
  | inl e ↦ inl (ltb→lt 9_223_372_036 n e)
  | inr e ↦ let most : n ≤ 9_223_372_036 = ground arith in inr (omega arith, omega arith)
]

-- Whatever the environment's variables are, New's batches are positive ints; the polling interval is a
-- positive duration unless its variable is above 9223372036854 milliseconds, and so are the sweep's
-- interval and the retention unless theirs are above 9223372036 seconds.
pub new_settings-IsPositive :
    (e : Environment)
    → let s = new_settings e in
      IsPositive s.batch_size
      × IsPositive s.gc_batch_size
      × ((9_223_372_036_854 < env_int e.poll_interval 250) ⊎ IsPositive s.poll_interval)
      × ((9_223_372_036 < env_int e.gc_interval 60) ⊎ IsPositive s.gc_interval)
      × ((9_223_372_036 < env_int e.retention 3600) ⊎ IsPositive s.retention)
unfolding new_settings
new_settings-IsPositive e = (
  env_int-IsPositive e.poll_batch 200 (omega arith, omega arith),
  env_int-IsPositive e.gc_batch 1000 (omega arith, omega arith),
  milliseconds-IsPositive _ (env_int-IsPositive e.poll_interval 250 (omega arith, omega arith)).0,
  seconds-IsPositive _ (env_int-IsPositive e.gc_interval 60 (omega arith, omega arith)).0,
  seconds-IsPositive _ (env_int-IsPositive e.retention 3600 (omega arith, omega arith)).0,
)
