-- ===== src/Handler/Answers.antt =====
-- Responses of internal/handler/ whose status and body agree, and the handlers that end with one.
pub mod Reads
pub mod Posts
pub mod Creates
pub mod Notifications
pub mod Writes
pub mod Lists
pub mod Threads
use sakura_intern_team_e.Prelude.{
  ℕ, ◌≡◌, refl, Bool, true, false, ◌&&◌, ◌||◌, not, ◌==◌, if◌then◌else◌, Option,
}
use sakura_intern_team_e.Db.Errors.{DbError, is_missing_post_error}
use sakura_intern_team_e.Realtime.Hub.Delivery.{PointsToValid}
use sakura_intern_team_e.Action.Settles.{HubProperty, Within}
use sakura_intern_team_e.Action.{World}
use sakura_intern_team_e.Action.Guarded.{Guarded}
use sakura_intern_team_e.Db.Invariant.{IsWellFormed}
use sakura_intern_team_e.Handler.Response.{
  Response, Body, error_text, message, respond_write_error, server_error,
}

-- The hub of notifications is valid, or there is none.
abbrev pub ValidHub : HubProperty
ValidHub notifications threads = PointsToValid notifications

abbrev pub HubIsValid : World → Type 0
HubIsValid = Within ValidHub

-- ... and the tables are well formed, and others keep them so.
abbrev pub Served : World → Type 0
Served = Guarded ValidHub IsWellFormed

-- `{"error": ...}`
abbrev pub is_error : Body → Bool
is_error (error_text msg) = true
is_error body = false

-- An error body with an error's status, or another body with 200 or 201.
abbrev pub is_fit : Response → Bool
is_fit r =
    if is_error r.body
    then r.status == 400
      || r.status == 401
      || r.status == 404
      || r.status == 409
      || r.status == 500
      || r.status == 503
    else r.status == 200 || r.status == 201

pub record IsFit (r : Response) : Type 0 where
  pub fits : is_fit r ≡ true

pub is_fit-IsFit : (r : Response) → is_fit r ≡ true → IsFit r
is_fit-IsFit r e = record { fits = e }

pub IsFit-if : (b : Bool) (r s : Response) → IsFit r → IsFit s → IsFit (if b then r else s)
IsFit-if true r s f g = f
IsFit-if false r s f g = g

pub respond_write_error-IsFit : (e : DbError) → IsFit (respond_write_error e)
unfolding respond_write_error
respond_write_error-IsFit e = search (IsFit-if, is_fit-IsFit)

pub ruleset fit_rules = (is_fit-IsFit, IsFit-if, respond_write_error-IsFit)
