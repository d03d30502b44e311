-- ===== src/Handler/Health.antt =====
-- app/backend/internal/handler/health.go.
use sakura_intern_team_e.Action.{Act, Query, done, stmt, pure, ◌>>◌}
use sakura_intern_team_e.Db.Tables.{Db}
use sakura_intern_team_e.Action.Keeps.{Keeps, keeps_rules}
use sakura_intern_team_e.Action.Database.{Upholds, Keeps-stmt, Preserves}
use sakura_intern_team_e.Action.Settles.{Settles, settles_rules}
use sakura_intern_team_e.Handler.Response.{Response, Body, respond_json, respond_error, or_respond}
use sakura_intern_team_e.Handler.Answers.{HubIsValid, IsFit, fit_rules}

-- PingContext, as a statement that reads nothing
abbrev pub ping : Query Unit
ping now db = done tt db

-- Healthz
unfoldable pub healthz : Act Response Response
healthz =
    or_respond (stmt ping) (λ e. respond_error 503 "db unreachable")
    >> pure (respond_json 200 (Body.health "ok"))

ping-Preserves : {P : Db → Type 0} → Preserves P ping
ping-Preserves = record { at = λ now db h. h }

pub healthz-Keeps : {P : Db → Type 0} → Keeps (Upholds P) healthz
unfolding healthz
healthz-Keeps = search (keeps_rules, Keeps-stmt, ping-Preserves) depth 8

pub healthz-Settles : Settles HubIsValid IsFit IsFit healthz
unfolding healthz
healthz-Settles = search (settles_rules, fit_rules) depth 8
