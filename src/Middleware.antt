-- ===== src/Middleware.antt =====
-- app/backend/internal/middleware/auth.go: who a request comes from. A handler takes the user id of
-- the request's context, `none` where the middleware set none.
pub mod Guards
pub mod Logging
use sakura_intern_team_e.Prelude.{
  ℕ, Bool, Option, none, some, List, ◌==◌, ◌&&◌, ltb, if◌then◌else◌, find,
}
use sakura_intern_team_e.Db.Tables.{Text, Db, SessionRow}
use sakura_intern_team_e.Db.Errors.{is_prefix}
use sakura_intern_team_e.Action.{Act, Query, row_or_none, stmt, pure, or_else, raise, ◌>>=◌}
use sakura_intern_team_e.Handler.Response.{Response, respond_error, or_respond}

abbrev pub same_text : Text → Text → Bool
same_text s t = is_prefix s t && is_prefix t s

-- id = ? AND expires_at > NOW()
abbrev pub is_live_session : Text → ℕ → SessionRow → Bool
is_live_session cookie now s = same_text s.id cookie && ltb now s.expires_at

abbrev pub session_user_of : Option SessionRow → Option ℕ
session_user_of none = none
session_user_of (some s) = some s.user_id

-- The user of a live session.
unfoldable pub live_user : Text → ℕ → List SessionRow → Option ℕ
live_user cookie now sessions = session_user_of (find (is_live_session cookie now) sessions)

-- SELECT user_id FROM sessions WHERE id = ? AND expires_at > NOW()
unfoldable pub session_user : Text → Query ℕ
session_user cookie now db = row_or_none (live_user cookie now db.sessions) db

abbrev pub unauthorized : Response
unauthorized = respond_error 401 "unauthorized"

-- Required, on the session cookie; `none` is a request without one.
unfoldable pub required : Option Text → (Option ℕ → Act Response Response) → Act Response Response
required none next = raise unauthorized
required (some cookie) next = do
  user ← or_respond (stmt (session_user cookie)) (λ e. unauthorized)
  next (some user)

-- Optional
unfoldable pub optional : Option Text → (Option ℕ → Act Response Response) → Act Response Response
optional none next = next none
optional (some cookie) next = do
  user ← or_else (stmt (session_user cookie) >>= λ u. pure (some u)) (λ e. pure none)
  next user
