-- ===== src/Routes/Tables.antt =====
-- Every request of app/backend/cmd/api/main.go's routes keeps the tables well formed.
use sakura_intern_team_e.Prelude.{ℕ, Option, none, some, List, [], ◌∷◌}
use sakura_intern_team_e.Db.Tables.{Text, Db}
use sakura_intern_team_e.Db.Invariant.{IsWellFormed}
use sakura_intern_team_e.Action.{World, Act, row_or_none}
use sakura_intern_team_e.Action.Keeps.{Keeps, keeps_rules}
use sakura_intern_team_e.Action.Database.{Upholds, Preserves, IsGoodReply, Keeps-stmt}
use sakura_intern_team_e.Middleware.{required, optional, session_user, live_user}
use sakura_intern_team_e.Handler.Response.{Response}
use sakura_intern_team_e.Handler.Notification.Once.{
  mark_notifications_read-Keeps, get_unread_count-Keeps,
}
use sakura_intern_team_e.Handler.Like.Tables.{get_likes-Keeps, like-Keeps, unlike-Keeps}
use sakura_intern_team_e.Platform.{Platform}
use sakura_intern_team_e.Handler.Auth.Sessions.{logout-Keeps}
use sakura_intern_team_e.Handler.Auth.Tables.{register-Keeps, login-Keeps}
use sakura_intern_team_e.Handler.Timeline.Reads.{get_timeline-Keeps, get_user_posts-Keeps}
use sakura_intern_team_e.Handler.Search.Reads.{search_for-Keeps, get_trending-Keeps}
use sakura_intern_team_e.Handler.Visits.Reads.{get_footprints-Keeps, get_notifications-Keeps}
use sakura_intern_team_e.Handler.Thread.Reads.{get_thread-Keeps}
use sakura_intern_team_e.Handler.Health.{healthz-Keeps}
use sakura_intern_team_e.Handler.Post.Tables.{create_post-Keeps, get_post-Keeps, delete_post-Keeps}
use sakura_intern_team_e.Handler.Repost.Tables.{repost-Keeps, unrepost-Keeps}
use sakura_intern_team_e.Handler.Reply.Tables.{create_reply-Keeps}
use sakura_intern_team_e.Handler.User.Tables.{
  get_me-Keeps, get_profile-Keeps, update_profile-Keeps, get_followers-Keeps, get_following-Keeps,
  follow-Keeps, unfollow-Keeps,
}
use sakura_intern_team_e.Routes.{
  Request, me, profile, edit_profile, followers, following, follow_user, unfollow_user, new_post,
  show_post, remove_post, new_reply, new_like, show_likes, log_out, remove_like, new_repost,
  remove_repost, read_notifications, unread_count, sign_up, log_in, list_footprints, timeline,
  user_posts, show_thread, search_page, list_notifications, trending, health_check, handle, serve,
}

pub session_user-IsWellFormed : (cookie : Text) → Preserves IsWellFormed (session_user cookie)
unfolding session_user
session_user-IsWellFormed cookie = record {
  at = λ now db h. found (live_user cookie now db.sessions) db h;
}
  where
    found : (o : Option ℕ) (db : Db) → IsWellFormed db → IsGoodReply IsWellFormed (row_or_none o db)
    found none db h = tt
    found (some user) db h = h

module _ (next : Option ℕ → Act Response Response)
    (k : (auth : Option ℕ) → Keeps (Upholds IsWellFormed) (next auth)) where
  required-Keeps : (cookie : Option Text) → Keeps (Upholds IsWellFormed) (required cookie next)
  unfolding required
  required-Keeps none = search keeps_rules
  required-Keeps (some cookie) =
      search (keeps_rules, Keeps-stmt, session_user-IsWellFormed, k) depth 8

  optional-Keeps : (cookie : Option Text) → Keeps (Upholds IsWellFormed) (optional cookie next)
  unfolding optional
  optional-Keeps none = k none
  optional-Keeps (some cookie) =
      search (keeps_rules, Keeps-stmt, session_user-IsWellFormed, k) depth 8

pub handle-Keeps :
    (sys : Platform) (cookie : Option Text) (r : Request)
    → Keeps (Upholds IsWellFormed) (handle sys cookie r)
unfolding handle
handle-Keeps sys cookie me = required-Keeps _ get_me-Keeps cookie
handle-Keeps sys cookie (profile id) = optional-Keeps _ (λ auth. get_profile-Keeps auth id) cookie
handle-Keeps sys cookie (edit_profile body) =
    required-Keeps _ (λ auth. update_profile-Keeps auth body) cookie
handle-Keeps sys cookie (followers id) =
    optional-Keeps _ (λ auth. get_followers-Keeps auth id) cookie
handle-Keeps sys cookie (following id) =
    optional-Keeps _ (λ auth. get_following-Keeps auth id) cookie
handle-Keeps sys cookie (follow_user id) = required-Keeps _ (λ auth. follow-Keeps auth id) cookie
handle-Keeps sys cookie (unfollow_user id) =
    required-Keeps _ (λ auth. unfollow-Keeps auth id) cookie
handle-Keeps sys cookie (new_post body) =
    required-Keeps _ (λ auth. create_post-Keeps auth body) cookie
handle-Keeps sys cookie (show_post id) = optional-Keeps _ (λ auth. get_post-Keeps auth id) cookie
handle-Keeps sys cookie (remove_post id) =
    required-Keeps _ (λ auth. delete_post-Keeps auth id) cookie
handle-Keeps sys cookie (new_reply body) =
    required-Keeps _ (λ auth. create_reply-Keeps auth body) cookie
handle-Keeps sys cookie (show_likes id) = get_likes-Keeps id
handle-Keeps sys cookie log_out = required-Keeps _ (λ auth. logout-Keeps cookie) cookie
handle-Keeps sys cookie (new_like body) = required-Keeps _ (λ auth. like-Keeps auth body) cookie
handle-Keeps sys cookie (remove_like id) = required-Keeps _ (λ auth. unlike-Keeps auth id) cookie
handle-Keeps sys cookie (new_repost body) = required-Keeps _ (λ auth. repost-Keeps auth body) cookie
handle-Keeps sys cookie (remove_repost id) =
    required-Keeps _ (λ auth. unrepost-Keeps auth id) cookie
handle-Keeps sys cookie read_notifications = required-Keeps _ mark_notifications_read-Keeps cookie
handle-Keeps sys cookie unread_count = required-Keeps _ get_unread_count-Keeps cookie
handle-Keeps sys cookie (sign_up drawn body) = register-Keeps sys drawn body
handle-Keeps sys cookie (log_in drawn body) = login-Keeps sys drawn body
handle-Keeps sys cookie (list_footprints page per_page) =
    required-Keeps _ (λ auth. get_footprints-Keeps auth page per_page) cookie
handle-Keeps sys cookie (timeline feed page per_page) =
    required-Keeps _ (λ auth. get_timeline-Keeps auth feed page per_page) cookie
handle-Keeps sys cookie (user_posts id type page per_page) =
    optional-Keeps _ (λ auth. get_user_posts-Keeps auth id type page per_page) cookie
handle-Keeps sys cookie (show_thread id) =
    optional-Keeps _ (λ auth. get_thread-Keeps auth id) cookie
handle-Keeps sys cookie (search_page q type page per_page) =
    search_for-Keeps sys none q type page per_page
handle-Keeps sys cookie (list_notifications type page per_page) =
    required-Keeps _ (λ auth. get_notifications-Keeps sys auth type page per_page) cookie
handle-Keeps sys cookie trending = optional-Keeps _ get_trending-Keeps cookie
handle-Keeps sys cookie health_check = healthz-Keeps

serve-Upholds :
    (sys : Platform) (rs : List (Option Text × Request)) (w : World)
    → Upholds IsWellFormed w
    → Upholds IsWellFormed (serve sys rs w).1
unfolding serve
serve-Upholds sys [] w h = h
serve-Upholds sys ((cookie, r) ∷ rs) w h =
    serve-Upholds sys rs (handle sys cookie r w).1 ((handle-Keeps sys cookie r).at w h)

-- Start from well-formed tables, with other processes that keep them well formed at every
-- statement and statements that may fail in any way. After any sequence of requests, with
-- whatever cookies, bodies, path ids, query texts and tokens, and whether they are answered, refused
-- or panic, the tables are well formed: user ids and post ids are positive and each stands once; a
-- post has its author and its original, a like and a repost mark have their user and post, a follow
-- has both users, a notification has its post; likes, marks, follows, repost posts and
-- notifications stand once each; nobody follows or notifies himself; contents have at most 140
-- characters; and a post's id is above those of its original and its parent.
pub serve-IsWellFormed :
    (sys : Platform) (rs : List (Option Text × Request)) (w : World)
    → Upholds IsWellFormed w
    → IsWellFormed (serve sys rs w).1.db
serve-IsWellFormed sys rs w h = (serve-Upholds sys rs w h).holds
