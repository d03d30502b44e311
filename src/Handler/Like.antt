-- ===== src/Handler/Like.antt =====
-- app/backend/internal/handler/like.go: liking a post and taking the like back.
pub mod Tables
pub mod Calm
pub mod Idempotence
pub mod Refines
pub mod Across
use sakura_intern_team_e.Prelude.{
  map, List, ℕ, Option, none, some, ◌∷◌, ◌==◌, if◌then◌else◌, any, filter, not, count,
}
use sakura_intern_team_e.Db.Tables.{Db, MarkRow, PostRow, NotificationType}
use sakura_intern_team_e.Db.Errors.{DbError, is_no_rows, missing_user, missing_post}
use sakura_intern_team_e.Db.Rows.{has_user, has_post, owner_of, is_mark}
use sakura_intern_team_e.Action.{
  Act, Query, Reply, done, refused, stmt, pure, raise, ◌>>=◌, ◌>>◌, reading, reading_row,
}
use sakura_intern_team_e.Handler.Response.{
  Response, Body, respond_json, respond_error, respond_write_error, server_error, or_respond,
  or_server_error, current_user_id,
}
use sakura_intern_team_e.Handler.User.{fetch_users}
use sakura_intern_team_e.Handler.Notification.{create_notification_once}

-- INSERT INTO likes ... ON DUPLICATE KEY UPDATE user_id = user_id
unfoldable pub insert_like : ℕ → ℕ → Query Unit
insert_like user post now db =
    if any (is_mark user post) db.likes
    then done tt db
    else if not (has_user user db.users)
    then refused missing_user
    else if not (has_post post db.posts)
    then refused missing_post
    else done tt (record db {
      likes = record { user_id = user; post_id = post; created_at = now } ∷ db.likes;
    })

-- DELETE FROM likes WHERE user_id = ? AND post_id = ?
unfoldable pub delete_like : ℕ → ℕ → Query Unit
delete_like user post now db =
    done tt (record db { likes = filter (λ m. not (is_mark user post m)) db.likes })

-- SELECT COUNT(*) FROM likes WHERE post_id = ?
abbrev pub count_likes : ℕ → Db → ℕ
count_likes post db = count (λ (m : MarkRow). m.post_id == post) db.likes

-- The answer when the post to act on is looked up: 404 if it is gone, 500 on any other error.
abbrev pub missing_or_error : DbError → Response
missing_or_error e = if is_no_rows e then respond_error 404 "post not found" else server_error

abbrev pub liker_ids : ℕ → Db → List ℕ
liker_ids post db =
    map (λ (m : MarkRow). m.user_id) (filter (λ (m : MarkRow). m.post_id == post) db.likes)

-- GetLikes, on the id in the path; its route has no middleware.
unfoldable pub get_likes : Option ℕ → Act Response Response
get_likes none = raise (respond_error 400 "invalid id")
get_likes (some post) = do
  ids ← or_server_error (stmt (reading (liker_ids post)))
  users ← fetch_users none ids
  pure (respond_json 200 (Body.likers_body users))

-- Like, on the decoded body; `none` is a body that does not decode.
unfoldable pub like : Option ℕ → Option ℕ → Act Response Response
like auth none = raise (respond_error 400 "invalid request")
like auth (some post) = do
  owner ← or_respond (stmt (reading_row (λ db. owner_of post db.posts))) missing_or_error
  or_respond (stmt (insert_like (current_user_id auth) post)) respond_write_error
  create_notification_once owner NotificationType.like (current_user_id auth) (some post)
  n ← or_server_error (stmt (reading (count_likes post)))
  pure (respond_json 200 (Body.likes_count n))

-- Unlike, on the id in the path; `none` is a path value that is no number.
unfoldable pub unlike : Option ℕ → Option ℕ → Act Response Response
unlike auth none = raise (respond_error 400 "invalid post_id")
unlike auth (some post) = do
  or_server_error (stmt (delete_like (current_user_id auth) post))
  n ← or_server_error (stmt (reading (count_likes post)))
  pure (respond_json 200 (Body.likes_count n))
