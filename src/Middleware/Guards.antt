-- ===== src/Middleware/Guards.antt =====
-- What the middleware of auth.go lets through, at the database that its one statement finds.
use sakura_intern_team_e.Prelude.{
  ℕ, ◌<◌, ◌≤◌, ◌≡◌, ◌⊎◌, true, false, Option, none, some, List, All, Has,
}
use sakura_intern_team_e.Db.Tables.{Text, SessionRow}
use sakura_intern_team_e.Db.Errors.{DbError}
use sakura_intern_team_e.Action.{World, Act, Result, err, arrive, settle, done, answer, row_or_none}
use sakura_intern_team_e.Handler.Response.{Response}
use sakura_intern_team_e.Middleware.{session_user_of, same_text, unauthorized, required, optional}

-- A row that cannot log in: the id of another session, or one that has expired.
abbrev pub IsNoSession : Text → ℕ → SessionRow → Type 0
IsNoSession cookie now s = (same_text s.id cookie ≡ false) ⊎ (s.expires_at ≤ now)

-- A row that logs its user in.
pub record IsSession (cookie : Text) (now : ℕ) (sessions : List SessionRow) (s : SessionRow)
    : Type 0 where
  pub stored : Has s sessions
  pub same : same_text s.id cookie ≡ true
  pub unexpired : now < s.expires_at

-- The sessions that a request's lookup meets, and the server's time.
abbrev pub stored_sessions : World → List SessionRow
stored_sessions w = (arrive w).db.sessions

-- The world after a lookup that found its row.
abbrev pub looked_up : World → World
looked_up w = (settle (arrive w) (done tt (arrive w).db)).1

abbrev pub time_at : World → ℕ
time_at w = (w.env w.clock).now

-- Who passes: a lookup that does not fail and finds a session.
abbrev pub LogsIn : Text → (Option ℕ → Act Response Response) → World → Type 0
LogsIn cookie next w =
    (s : SessionRow) × IsSession cookie (time_at w) (stored_sessions w) s
    × (required (some cookie) next w ≡ next (some s.user_id) (looked_up w))
    × (optional (some cookie) next w ≡ next (some s.user_id) (looked_up w))

-- Who does not: the lookup fails, or no row is a session of the cookie.
abbrev pub StaysOut : Text → (Option ℕ → Act Response Response) → World → Type 0
StaysOut cookie next w =
    (((e : DbError) × ((w.env w.clock).fault ≡ some e))
      ⊎ All (IsNoSession cookie (time_at w)) (stored_sessions w))
    × (required (some cookie) next w ≡ (err unauthorized, arrive w))
    × (optional (some cookie) next w ≡ next none (arrive w))

module _ (cookie : Text) (next : Option ℕ → Act Response Response) (w : World) where
  abbrev lookup : Option DbError → Option SessionRow → Result DbError ℕ × World
  lookup f o = answer f (arrive w) (row_or_none (session_user_of o) (arrive w).db)
