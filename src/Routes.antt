-- ===== src/Routes.antt =====
-- The routes of app/backend/cmd/api/main.go, with the middleware of each, but for the two
-- event streams.
pub mod Tables
pub mod Answered
use sakura_intern_team_e.Prelude.{ℕ, Option, none, some, List, [], ◌∷◌}
use sakura_intern_team_e.Db.Tables.{Text}
use sakura_intern_team_e.Action.{World, Result, Act}
use sakura_intern_team_e.Middleware.{required, optional}
use sakura_intern_team_e.Handler.Response.{Response, response_of}
use sakura_intern_team_e.Handler.Notification.{mark_notifications_read, get_unread_count}
use sakura_intern_team_e.Handler.Like.{get_likes, like, unlike}
use sakura_intern_team_e.Platform.{Platform}
use sakura_intern_team_e.Handler.Auth.{Registration, register, login, logout}
use sakura_intern_team_e.Handler.Post.{create_post, get_post, delete_post}
use sakura_intern_team_e.Handler.Repost.{repost, unrepost}
use sakura_intern_team_e.Handler.Reply.{create_reply}
use sakura_intern_team_e.Handler.Timeline.{get_timeline, get_user_posts}
use sakura_intern_team_e.Handler.Search.{search_for, get_trending}
use sakura_intern_team_e.Handler.Visits.{get_footprints, get_notifications}
use sakura_intern_team_e.Handler.Thread.{get_thread}
use sakura_intern_team_e.Handler.Health.{healthz}
use sakura_intern_team_e.Handler.User.{
  get_me, get_profile, update_profile, get_followers, get_following, follow, unfollow,
}

-- A request by its route, with its decoded body, the id of its path, the texts of its query, or the
-- token that its random bytes spell.
pub data Request : Type 0 where
  me : Request
  profile : Option ℕ → Request
  edit_profile : Option (Text × Option Text) → Request
  followers following : Option ℕ → Request
  follow_user unfollow_user : Option ℕ → Request
  new_post : Option Text → Request
  show_post remove_post : Option ℕ → Request
  new_reply : Option (ℕ × Text) → Request
  show_likes : Option ℕ → Request
  log_out : Request
  new_like remove_like : Option ℕ → Request
  new_repost remove_repost : Option ℕ → Request
  read_notifications unread_count : Request
  sign_up : Option Text → Option Registration → Request
  log_in : Option Text → Option (Text × Text) → Request
  list_footprints : Text → Text → Request
  timeline : Text → Text → Text → Request
  user_posts : Option ℕ → Text → Text → Text → Request
  show_thread : Option ℕ → Request
  search_page : Text → Text → Text → Text → Request
  list_notifications : Text → Text → Text → Request
  trending : Request
  health_check : Request

-- routes
unfoldable pub handle : Platform → Option Text → Request → Act Response Response
handle sys cookie me = required cookie get_me
handle sys cookie (profile id) = optional cookie (λ auth. get_profile auth id)
handle sys cookie (edit_profile body) = required cookie (λ auth. update_profile auth body)
handle sys cookie (followers id) = optional cookie (λ auth. get_followers auth id)
handle sys cookie (following id) = optional cookie (λ auth. get_following auth id)
handle sys cookie (follow_user id) = required cookie (λ auth. follow auth id)
handle sys cookie (unfollow_user id) = required cookie (λ auth. unfollow auth id)
handle sys cookie (new_post body) = required cookie (λ auth. create_post auth body)
handle sys cookie (show_post id) = optional cookie (λ auth. get_post auth id)
handle sys cookie (remove_post id) = required cookie (λ auth. delete_post auth id)
handle sys cookie (new_reply body) = required cookie (λ auth. create_reply auth body)
handle sys cookie (show_likes id) = get_likes id
handle sys cookie log_out = required cookie (λ auth. logout cookie)
handle sys cookie (new_like body) = required cookie (λ auth. like auth body)
handle sys cookie (remove_like id) = required cookie (λ auth. unlike auth id)
handle sys cookie (new_repost body) = required cookie (λ auth. repost auth body)
handle sys cookie (remove_repost id) = required cookie (λ auth. unrepost auth id)
handle sys cookie read_notifications = required cookie mark_notifications_read
handle sys cookie unread_count = required cookie get_unread_count
handle sys cookie (sign_up drawn body) = register sys drawn body
handle sys cookie (log_in drawn body) = login sys drawn body
handle sys cookie (list_footprints page per_page) =
    required cookie (λ auth. get_footprints auth page per_page)
handle sys cookie (timeline feed page per_page) =
    required cookie (λ auth. get_timeline auth feed page per_page)
handle sys cookie (user_posts id type page per_page) =
    optional cookie (λ auth. get_user_posts auth id type page per_page)
handle sys cookie (show_thread id) = optional cookie (λ auth. get_thread auth id)
handle sys cookie (search_page q type page per_page) = search_for sys none q type page per_page
handle sys cookie (list_notifications type page per_page) =
    required cookie (λ auth. get_notifications sys auth type page per_page)
handle sys cookie trending = optional cookie get_trending
handle sys cookie health_check = healthz

-- Requests with their session cookies, one after the other: the responses and the world after the
-- last. A panic ends its request only.
unfoldable pub serve :
    Platform → List (Option Text × Request) → World → List (Option Response) × World
serve sys [] w = ([], w)
serve sys ((cookie, r) ∷ rs) w =
    let (answered, v) = handle sys cookie r w in
    let (rest, u) = serve sys rs v in (response_of answered ∷ rest, u)
