-- ===== src/Routes/Answered.antt =====
-- Every request of app/backend/cmd/api/main.go's routes is answered.
use sakura_intern_team_e.Prelude.{
  ℕ, ◌≡◌, refl, true, false, Bool, ◌&&◌, Option, none, some, List, [], ◌∷◌, length, arith,
}
use sakura_intern_team_e.Db.Tables.{Text}
use sakura_intern_team_e.Platform.{Platform}
use sakura_intern_team_e.Realtime.Hub.Delivery.{PointsToValid}
use sakura_intern_team_e.Action.{World, Act, Result, ok, err, panic, stmt}
use sakura_intern_team_e.Action.Database.{Upholds}
use sakura_intern_team_e.Action.Guarded.{Settles-Guarded, Settles-statement}
use sakura_intern_team_e.Db.Invariant.{IsWellFormed}
use sakura_intern_team_e.Action.Settles.{Settles, Settles-stmt, Outcome, Anything, settles_rules}
use sakura_intern_team_e.Middleware.{session_user, required, optional}
use sakura_intern_team_e.Handler.Response.{Response, response_of}
use sakura_intern_team_e.Handler.Answers.{HubIsValid, ValidHub, Served, IsFit, is_fit, fit_rules}
use sakura_intern_team_e.Handler.Health.{healthz-Settles}
use sakura_intern_team_e.Handler.Answers.Notifications.{
  mark_notifications_read-Settles, get_unread_count-Settles,
}
use sakura_intern_team_e.Handler.Answers.Lists.{
  get_timeline-Settles, get_user_posts-Settles, search_for-Settles, get_trending-Settles,
  get_footprints-Settles, get_notifications-Settles, get_me-Settles, get_followers-Settles,
  get_following-Settles, get_likes-Settles,
}
use sakura_intern_team_e.Handler.Answers.Threads.{get_thread-Settles}
use sakura_intern_team_e.Handler.Answers.Writes.{
  like-Settles, unlike-Settles, repost-Settles, unrepost-Settles, delete_post-Settles,
  get_profile-Settles, update_profile-Settles, follow-Settles, unfollow-Settles, register-Settles,
  login-Settles, logout-Settles,
}
use sakura_intern_team_e.Handler.Answers.Creates.{
  get_post-Settles, create_post-Settles, create_reply-Settles,
}
use sakura_intern_team_e.Routes.Tables.{session_user-IsWellFormed, handle-Keeps}
use sakura_intern_team_e.Routes.{
  Request, me, profile, edit_profile, followers, following, follow_user, unfollow_user, new_post,
  show_post, remove_post, new_reply, new_like, show_likes, log_out, remove_like, new_repost,
  remove_repost, read_notifications, unread_count, sign_up, log_in, list_footprints, timeline,
  user_posts, show_thread, search_page, list_notifications, trending, health_check, handle, serve,
}

module _ {J : World → Type 0}
    (lookup : (cookie : Text) → Settles J Anything Anything (stmt (session_user cookie)))
    (next : Option ℕ → Act Response Response)
    (k : (auth : Option ℕ) → Settles J IsFit IsFit (next auth)) where
  required_next : (cookie : Option Text) → Settles J IsFit IsFit (required cookie next)
  unfolding required
  required_next none = search (settles_rules, fit_rules)
  required_next (some cookie) = search (settles_rules, fit_rules, lookup, k) depth 8

  optional_next : (cookie : Option Text) → Settles J IsFit IsFit (optional cookie next)
  unfolding optional
  optional_next none = k none
  optional_next (some cookie) = search (settles_rules, lookup, k) depth 8

lookup-Settles : (cookie : Text) → Settles HubIsValid Anything Anything (stmt (session_user cookie))
lookup-Settles cookie = Settles-stmt ValidHub (session_user cookie)

lookup-Guarded : (cookie : Text) → Settles Served Anything Anything (stmt (session_user cookie))
lookup-Guarded cookie = Settles-statement (session_user cookie) (session_user-IsWellFormed cookie)

required-Settles :
    (next : Option ℕ → Act Response Response)
    → ((auth : Option ℕ) → Settles HubIsValid IsFit IsFit (next auth))
    → (cookie : Option Text) → Settles HubIsValid IsFit IsFit (required cookie next)
required-Settles next k = required_next lookup-Settles next k

optional-Settles :
    (next : Option ℕ → Act Response Response)
    → ((auth : Option ℕ) → Settles HubIsValid IsFit IsFit (next auth))
    → (cookie : Option Text) → Settles HubIsValid IsFit IsFit (optional cookie next)
optional-Settles next k = optional_next lookup-Settles next k

handle-Settles :
    (sys : Platform) (cookie : Option Text) (r : Request)
    → Settles Served IsFit IsFit (handle sys cookie r)
unfolding handle
handle-Settles sys cookie me =
    Settles-Guarded _ (required-Settles _ get_me-Settles cookie) (handle-Keeps sys cookie me)
handle-Settles sys cookie (profile id) =
    Settles-Guarded _ (optional-Settles _ (λ auth. get_profile-Settles auth id) cookie)
      (handle-Keeps sys cookie (profile id))
handle-Settles sys cookie (edit_profile body) =
    Settles-Guarded _ (required-Settles _ (λ auth. update_profile-Settles auth body) cookie)
      (handle-Keeps sys cookie (edit_profile body))
handle-Settles sys cookie (followers id) =
    Settles-Guarded _ (optional-Settles _ (λ auth. get_followers-Settles auth id) cookie)
      (handle-Keeps sys cookie (followers id))
handle-Settles sys cookie (following id) =
    Settles-Guarded _ (optional-Settles _ (λ auth. get_following-Settles auth id) cookie)
      (handle-Keeps sys cookie (following id))
handle-Settles sys cookie (follow_user id) =
    Settles-Guarded _ (required-Settles _ (λ auth. follow-Settles auth id) cookie)
      (handle-Keeps sys cookie (follow_user id))
handle-Settles sys cookie (unfollow_user id) =
    Settles-Guarded _ (required-Settles _ (λ auth. unfollow-Settles auth id) cookie)
      (handle-Keeps sys cookie (unfollow_user id))
handle-Settles sys cookie (new_post body) =
    required_next lookup-Guarded _ (λ auth. create_post-Settles auth body) cookie
handle-Settles sys cookie (show_post id) =
    optional_next lookup-Guarded _ (λ auth. get_post-Settles auth id) cookie
handle-Settles sys cookie (remove_post id) =
    Settles-Guarded _ (required-Settles _ (λ auth. delete_post-Settles auth id) cookie)
      (handle-Keeps sys cookie (remove_post id))
handle-Settles sys cookie (new_reply body) =
    required_next lookup-Guarded _ (λ auth. create_reply-Settles auth body) cookie
handle-Settles sys cookie (show_likes id) =
    Settles-Guarded _ (get_likes-Settles id) (handle-Keeps sys cookie (show_likes id))
handle-Settles sys cookie log_out =
    Settles-Guarded _ (required-Settles _ (λ auth. logout-Settles cookie) cookie)
      (handle-Keeps sys cookie log_out)
handle-Settles sys cookie (new_like body) =
    Settles-Guarded _ (required-Settles _ (λ auth. like-Settles auth body) cookie)
      (handle-Keeps sys cookie (new_like body))
handle-Settles sys cookie (remove_like id) =
    Settles-Guarded _ (required-Settles _ (λ auth. unlike-Settles auth id) cookie)
      (handle-Keeps sys cookie (remove_like id))
handle-Settles sys cookie (new_repost body) =
    Settles-Guarded _ (required-Settles _ (λ auth. repost-Settles auth body) cookie)
      (handle-Keeps sys cookie (new_repost body))
handle-Settles sys cookie (remove_repost id) =
    Settles-Guarded _ (required-Settles _ (λ auth. unrepost-Settles auth id) cookie)
      (handle-Keeps sys cookie (remove_repost id))
handle-Settles sys cookie read_notifications =
    Settles-Guarded _ (required-Settles _ mark_notifications_read-Settles cookie)
      (handle-Keeps sys cookie read_notifications)
handle-Settles sys cookie unread_count =
    Settles-Guarded _ (required-Settles _ get_unread_count-Settles cookie)
      (handle-Keeps sys cookie unread_count)
handle-Settles sys cookie (sign_up drawn body) =
    Settles-Guarded _ (register-Settles sys drawn body)
      (handle-Keeps sys cookie (sign_up drawn body))
handle-Settles sys cookie (log_in drawn body) =
    Settles-Guarded _ (login-Settles sys drawn body) (handle-Keeps sys cookie (log_in drawn body))
handle-Settles sys cookie (list_footprints page per_page) =
    Settles-Guarded _
      (required-Settles _ (λ auth. get_footprints-Settles auth page per_page) cookie)
      (handle-Keeps sys cookie (list_footprints page per_page))
handle-Settles sys cookie (timeline feed page per_page) =
    Settles-Guarded _
      (required-Settles _ (λ auth. get_timeline-Settles auth feed page per_page) cookie)
      (handle-Keeps sys cookie (timeline feed page per_page))
handle-Settles sys cookie (user_posts id type page per_page) =
    Settles-Guarded _
      (optional-Settles _ (λ auth. get_user_posts-Settles auth id type page per_page) cookie)
      (handle-Keeps sys cookie (user_posts id type page per_page))
handle-Settles sys cookie (show_thread id) =
    optional_next lookup-Guarded _ (λ auth. get_thread-Settles auth id) cookie
handle-Settles sys cookie (search_page q type page per_page) =
    Settles-Guarded _ (search_for-Settles sys none q type page per_page)
      (handle-Keeps sys cookie (search_page q type page per_page))
handle-Settles sys cookie (list_notifications type page per_page) =
    Settles-Guarded _
      (required-Settles _ (λ auth. get_notifications-Settles sys auth type page per_page) cookie)
      (handle-Keeps sys cookie (list_notifications type page per_page))
handle-Settles sys cookie trending =
    Settles-Guarded _ (optional-Settles _ get_trending-Settles cookie)
      (handle-Keeps sys cookie trending)
handle-Settles sys cookie health_check =
    Settles-Guarded _ (healthz-Settles) (handle-Keeps sys cookie health_check)

abbrev pub is_answer : Option Response → Bool
is_answer none = false
is_answer (some r) = is_fit r

abbrev pub all_answers : List (Option Response) → Bool
all_answers [] = true
all_answers (r ∷ rs) = is_answer r && all_answers rs

outcome-is_answer :
    (r : Result Response Response) → Outcome IsFit IsFit r → is_answer (response_of r) ≡ true
outcome-is_answer (ok r) f = f.fits
outcome-is_answer (err r) f = f.fits
outcome-is_answer panic f = absurd f

-- With a valid hub, or none, and well-formed tables that other processes keep well formed at every
-- statement, whatever statements fail with: every request in a sequence gets its response and none
-- panics. A response has an error body exactly with one of the statuses 400, 401, 404, 409, 500 and
-- 503, and another body with 200 or 201; and the hub is valid after the last.
pub serve_answered :
    (sys : Platform) (rs : List (Option Text × Request)) (w : World)
    → PointsToValid w.notifications
    → Upholds IsWellFormed w
    → (all_answers (serve sys rs w).0 ≡ true)
      × (length (serve sys rs w).0 ≡ length rs)
      × PointsToValid (serve sys rs w).1.notifications
unfolding serve
serve_answered sys [] w h u = (refl, refl, h)
serve_answered sys ((cookie, r) ∷ rs) w h u =
    let served : Served w = record { within = record { hubs = h }; upholds = u } in
    let (o, left) = (handle-Settles sys cookie r).at w served in
    let (all, same, h₂) =
      serve_answered sys rs (handle sys cookie r w).1 left.within.hubs left.upholds in
    let first = outcome-is_answer (handle sys cookie r w).0 o in
    (ground (arith, first, all), ground (arith, same), h₂)
