-- ===== src/Handler/Auth/Sessions.antt =====
-- Logout of auth.go ends the session that the middleware looks up.
use sakura_intern_team_e.Prelude.{
  ℕ, Option, none, some, List, [], ◌∷◌, ◌≡◌, refl, not, filter, find, arith,
}
use sakura_intern_team_e.Db.Tables.{Text, SessionRow}
use sakura_intern_team_e.Db.Invariant.{IsWellFormed}
use sakura_intern_team_e.Action.{World, ok}
use sakura_intern_team_e.Action.Keeps.{Keeps, keeps_rules}
use sakura_intern_team_e.Action.Database.{Upholds, Preserves, Keeps-stmt}
use sakura_intern_team_e.Action.Calm.{
  IsCalm, Runs-stmt, Runs-bind, Runs-or_else, Runs-pure, reply_db,
}
use sakura_intern_team_e.Handler.Response.{Body, respond_json}
use sakura_intern_team_e.Handler.Auth.{delete_session, logout}
use sakura_intern_team_e.Middleware.{same_text, live_user, is_live_session}

delete_session-IsWellFormed : (cookie : Text) → Preserves IsWellFormed (delete_session cookie)
unfolding delete_session
delete_session-IsWellFormed cookie = record { at = λ now db h. ground arith }

pub logout-Keeps : (cookie : Option Text) → Keeps (Upholds IsWellFormed) (logout cookie)
unfolding logout
logout-Keeps none = search keeps_rules
logout-Keeps (some cookie) = search (keeps_rules, Keeps-stmt, delete_session-IsWellFormed) depth 8

no_live :
    (cookie : Text) (t : ℕ) (ss : List SessionRow)
    → find (is_live_session cookie t) (filter (λ (s : SessionRow). not (same_text s.id cookie)) ss)
      ≡ none
no_live cookie t [] = refl
no_live cookie t (s ∷ ss) = ground (arith, no_live cookie t ss)

logout-IsCalm :
    (now : ℕ) (cookie : Text) (w : World)
    → IsCalm now w
    → ((logout (some cookie) w).0 ≡ ok (respond_json 200 (Body.message "logged out")))
      × ((logout (some cookie) w).1.db ≡ reply_db w.db (delete_session cookie now w.db))
      × IsCalm now (logout (some cookie) w).1
unfolding logout delete_session
logout-IsCalm now cookie w c =
    (Runs-bind _ (Runs-or_else _ (Runs-stmt (delete_session cookie) w.db)) (Runs-pure _)).at w c
      refl

-- When no other process writes and no statement fails, Logout answers 200, and afterwards the
-- middleware's lookup finds no session for that cookie at any time.
pub logout-ends :
    (now t : ℕ) (cookie : Text) (w : World)
    → IsCalm now w
    → let (r, v) = logout (some cookie) w in
      (r ≡ ok (respond_json 200 (Body.message "logged out")))
      × (live_user cookie t v.db.sessions ≡ none)
unfolding live_user delete_session
logout-ends now t cookie w c =
    let ran = logout-IsCalm now cookie w c in
    (ran.0, rw (ran.1, no_live cookie t w.db.sessions) refl)
