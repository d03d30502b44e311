-- ===== src/Handler/Answers/Writes.antt =====
-- The handlers that write answer.
use sakura_intern_team_e.Prelude.{ℕ, Option, none, some}
use sakura_intern_team_e.Db.Tables.{Text, UserRow}
use sakura_intern_team_e.Platform.{Platform, Hashed, hashed, too_long, failed}
use sakura_intern_team_e.Action.Settles.{Settles, Anything, anything, settles_rules}
use sakura_intern_team_e.Handler.Answers.{HubIsValid, IsFit, fit_rules}
use sakura_intern_team_e.Handler.Answers.Reads.{fetch_user-Settles}
use sakura_intern_team_e.Handler.Answers.Notifications.{
  insert_notification_once-Settles, deliver_notification-Settles, create_notification_once-Settles,
}
use sakura_intern_team_e.Handler.Like.{like, unlike}
use sakura_intern_team_e.Handler.Post.{delete_post}
use sakura_intern_team_e.Handler.Repost.{
  ensure_repost_post, repost_body, repost_once, repost_retry, repost, unrepost,
}
use sakura_intern_team_e.Handler.User.{
  record_footprint, leave_footprint, get_profile, update_profile, follow, unfollow,
}
use sakura_intern_team_e.Handler.Auth.{
  Registration, time_now, generated, open_session, password_hash_of, register_user, register,
  login_user, login, logout,
}

pub like-Settles : (auth body : Option ℕ) → Settles HubIsValid IsFit IsFit (like auth body)
unfolding like
like-Settles auth none = search (settles_rules, fit_rules)
like-Settles auth (some post) =
    search (settles_rules, fit_rules, create_notification_once-Settles) depth 12

pub unlike-Settles : (auth path : Option ℕ) → Settles HubIsValid IsFit IsFit (unlike auth path)
unfolding unlike
unlike-Settles auth none = search (settles_rules, fit_rules)
unlike-Settles auth (some post) = search (settles_rules, fit_rules) depth 12

ensure_repost_post-Settles :
    (user post : ℕ) → Settles HubIsValid Anything Anything (ensure_repost_post user post)
unfolding ensure_repost_post
ensure_repost_post-Settles user post = search settles_rules depth 8

repost_once-Settles :
    (user post owner : ℕ) → Settles HubIsValid Anything Anything (repost_once user post owner)
unfolding repost_once repost_body
repost_once-Settles user post owner =
    search (settles_rules, ensure_repost_post-Settles, insert_notification_once-Settles) depth 16

repost_retry-Settles :
    (user post owner : ℕ) → Settles HubIsValid Anything Anything (repost_retry user post owner)
unfolding repost_retry
repost_retry-Settles user post owner = search (settles_rules, repost_once-Settles) depth 8

pub repost-Settles : (auth body : Option ℕ) → Settles HubIsValid IsFit IsFit (repost auth body)
unfolding repost
repost-Settles auth none = search (settles_rules, fit_rules)
repost-Settles auth (some post) =
    search (settles_rules, fit_rules, repost_retry-Settles, deliver_notification-Settles) depth 12

pub unrepost-Settles : (auth path : Option ℕ) → Settles HubIsValid IsFit IsFit (unrepost auth path)
unfolding unrepost
unrepost-Settles auth none = search (settles_rules, fit_rules)
unrepost-Settles auth (some post) = search (settles_rules, fit_rules) depth 12

pub delete_post-Settles :
    (auth path : Option ℕ) → Settles HubIsValid IsFit IsFit (delete_post auth path)
unfolding delete_post
delete_post-Settles auth none = search (settles_rules, fit_rules)
delete_post-Settles auth (some id) = search (settles_rules, fit_rules) depth 8

leave_footprint-Settles :
    (auth : Option ℕ) (user : ℕ) → Settles HubIsValid IsFit Anything (leave_footprint auth user)
unfolding leave_footprint record_footprint
leave_footprint-Settles none user = search settles_rules
leave_footprint-Settles (some visitor) user =
    search (settles_rules, create_notification_once-Settles) depth 8

pub get_profile-Settles :
    (auth path : Option ℕ) → Settles HubIsValid IsFit IsFit (get_profile auth path)
unfolding get_profile
get_profile-Settles auth none = search (settles_rules, fit_rules)
get_profile-Settles auth (some id) =
    search (settles_rules, fit_rules, fetch_user-Settles, leave_footprint-Settles) depth 8

pub update_profile-Settles :
    (auth : Option ℕ) (body : Option (Text × Option Text))
    → Settles HubIsValid IsFit IsFit (update_profile auth body)
unfolding update_profile
update_profile-Settles auth none = search (settles_rules, fit_rules)
update_profile-Settles auth (some (name, bio)) =
    search (settles_rules, fit_rules, fetch_user-Settles) depth 10

pub follow-Settles : (auth path : Option ℕ) → Settles HubIsValid IsFit IsFit (follow auth path)
unfolding follow
follow-Settles auth none = search (settles_rules, fit_rules)
follow-Settles auth (some target) =
    search (settles_rules, fit_rules, fetch_user-Settles, create_notification_once-Settles) depth 12

pub unfollow-Settles : (auth path : Option ℕ) → Settles HubIsValid IsFit IsFit (unfollow auth path)
unfolding unfollow
unfollow-Settles auth none = search (settles_rules, fit_rules)
unfollow-Settles auth (some target) = search (settles_rules, fit_rules) depth 8

time_now-Settles : Settles HubIsValid IsFit Anything time_now
unfolding time_now
time_now-Settles = record { at = λ w h. (anything _, record { hubs = h.hubs }) }

generated-Settles : (drawn : Option Text) → Settles HubIsValid IsFit Anything (generated drawn)
generated-Settles none = search (settles_rules, fit_rules)
generated-Settles (some token) = search settles_rules

open_session-Settles :
    (drawn : Option Text) (user : ℕ) → Settles HubIsValid IsFit Anything (open_session drawn user)
unfolding open_session
open_session-Settles drawn user =
    search (settles_rules, fit_rules, generated-Settles, time_now-Settles) depth 12

password_hash_of-Settles : (h : Hashed) → Settles HubIsValid IsFit Anything (password_hash_of h)
password_hash_of-Settles (hashed t) = search settles_rules
password_hash_of-Settles too_long = search (settles_rules, fit_rules)
password_hash_of-Settles failed = search (settles_rules, fit_rules)

register_user-Settles :
    (sys : Platform) (drawn : Option Text) (r : Registration)
    → Settles HubIsValid IsFit IsFit (register_user sys drawn r)
unfolding register_user
register_user-Settles sys drawn r =
    search
      (settles_rules, fit_rules, password_hash_of-Settles, fetch_user-Settles, open_session-Settles)
      depth 14

pub register-Settles :
    (sys : Platform) (drawn : Option Text) (body : Option Registration)
    → Settles HubIsValid IsFit IsFit (register sys drawn body)
unfolding register
register-Settles sys drawn none = search (settles_rules, fit_rules)
register-Settles sys drawn (some r) =
    search (settles_rules, fit_rules, register_user-Settles) depth 8

login_user-Settles :
    (sys : Platform) (drawn : Option Text) (password : Text) (u : UserRow)
    → Settles HubIsValid IsFit IsFit (login_user sys drawn password u)
unfolding login_user
login_user-Settles sys drawn password u =
    search (settles_rules, fit_rules, open_session-Settles, fetch_user-Settles) depth 14

pub login-Settles :
    (sys : Platform) (drawn : Option Text) (body : Option (Text × Text))
    → Settles HubIsValid IsFit IsFit (login sys drawn body)
unfolding login
login-Settles sys drawn none = search (settles_rules, fit_rules)
login-Settles sys drawn (some (email, password)) =
    search (settles_rules, fit_rules, login_user-Settles) depth 10

pub logout-Settles : (cookie : Option Text) → Settles HubIsValid IsFit IsFit (logout cookie)
unfolding logout
logout-Settles none = search (settles_rules, fit_rules)
logout-Settles (some cookie) = search (settles_rules, fit_rules) depth 8
