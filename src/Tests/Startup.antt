-- ===== src/Tests/Startup.antt =====
-- A process that starts: the second ping is answered, and the first round finds the cursor.
use sakura_intern_team_e.Prelude.{◌≡◌, ◌↔◌, refl, true, false, [], ◌∷◌, arith, ◌==◌}
use sakura_intern_team_e.Db.Errors.{runes}
use sakura_intern_team_e.Notify.Start.{
  new_settings, env_int, positive_int, Round, table, max_id, initial_cursor,
}
use sakura_intern_team_e.Notify.Start.Defaults.{IsPositive}
use sakura_intern_team_e.Process.{Variables, Startup, serves, serving_of, pool_of, start_process}
use sakura_intern_team_e.Process.Starts.{is_unset-true, IsReady, start_process-serves}

abbrev variables : Variables
variables = record {
  database_url = runes "sakura:sakura@tcp(db:3306)/sakuravel";
  max_open_conns = runes "20";
  max_idle_conns = runes "-1";
  cookie_secure = runes "true";
  port = [];
  bus = record {
    poll_interval = [];
    poll_batch = [];
    gc_interval = [];
    gc_batch = [];
    retention = [];
  };
}

abbrev first_round : Round
first_round = record { answer = table []; cancelled = false; cancelled_waiting = false }

abbrev startup : Startup
startup = record { opens = true; pings = λ i. i == 1; rounds = first_round ∷ []; listens = true }

startup-IsReady : IsReady variables startup 0
unfolding max_id initial_cursor new_settings env_int positive_int
startup-IsReady = record {
  url = is_unset-true variables.database_url refl;
  opens = refl;
  answered = (1, omega arith, refl);
  finds = ([], first_round, [], [], refl, tt, refl, refl);
  polls = (omega arith, omega arith);
  sweeps = (omega arith, omega arith);
  listens = refl;
}

start_process-serves_example :
    ((start_process variables startup ≡ serves (serving_of variables (pool_of variables) 0))
      ↔ IsReady variables startup 0)
    × IsPositive (pool_of variables).max_open
    × IsPositive (pool_of variables).max_idle
start_process-serves_example = start_process-serves variables startup 0
