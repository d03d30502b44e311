-- ===== src/Handler/Repost.antt =====
-- app/backend/internal/handler/repost.go: reposting a post and taking the repost back.
pub mod Tables
pub mod Calm
pub mod Pairs
use sakura_intern_team_e.Prelude.{
  ℕ, Bool, true, false, Option, none, some, ◌∷◌, ◌==◌, ◌&&◌, not, if◌then◌else◌, any, filter, count,
}
use sakura_intern_team_e.Db.Tables.{Db, MarkRow, PostRow, NotificationType}
use sakura_intern_team_e.Db.Errors.{
  DbError, is_duplicate_key_error, is_retryable_lock_error, missing_user, missing_post,
  duplicate_entry,
}
use sakura_intern_team_e.Db.Rows.{has_user, has_post, owner_of, is_mark, is_repost_of}
use sakura_intern_team_e.Db.Cascade.{delete_posts}
use sakura_intern_team_e.Action.{
  Act, Query, Reply, Result, ok, err, panic, done, refused, stmt, pure, raise, try, or_else, ◌>>=◌,
  ◌>>◌, reading, reading_row, transaction,
}
use sakura_intern_team_e.Handler.Response.{
  Response, Body, respond_json, respond_error, respond_write_error, server_error, or_respond,
  or_server_error, current_user_id,
}
use sakura_intern_team_e.Handler.Like.{missing_or_error}
use sakura_intern_team_e.Handler.Post.{NewPost, insert_post}
use sakura_intern_team_e.Handler.Notification.{insert_notification_once, deliver_notification}

-- INSERT INTO reposts (user_id, post_id) VALUES (?, ?)
unfoldable pub insert_repost : ℕ → ℕ → Query Unit
insert_repost user post now db =
    if any (is_mark user post) db.reposts
    then refused duplicate_entry
    else if not (has_user user db.users)
    then refused missing_user
    else if not (has_post post db.posts)
    then refused missing_post
    else done tt (record db {
      reposts = record { user_id = user; post_id = post; created_at = now } ∷ db.reposts;
    })

abbrev pub repost_post : ℕ → ℕ → NewPost
repost_post user post = record {
  user_id = user;
  content = none;
  is_repost = true;
  original_post_id = some post;
  parent_post_id = none;
}

-- INSERT INTO posts ... WHERE NOT EXISTS (SELECT 1 FROM posts p WHERE ...)
unfoldable pub insert_repost_post : ℕ → ℕ → Query ℕ
insert_repost_post user post now db =
    if any (is_repost_of user post) db.posts
    then done 0 db
    else insert_post (repost_post user post) now db

-- ensureRepostPost
unfoldable pub ensure_repost_post : ℕ → ℕ → Act DbError Unit
ensure_repost_post user post = stmt (insert_repost_post user post) >> pure tt

-- `err != nil && !isDuplicateKeyError(err)`: a duplicate is no failure. The value says whether the
-- statement succeeded.
abbrev pub unless_duplicate : Result DbError Unit → Act DbError Bool
unless_duplicate (ok a) = pure true
unless_duplicate (err e) = if is_duplicate_key_error e then pure false else raise e
unless_duplicate panic = λ w. (panic, w)

-- The body of repostOnce between BeginTx and Commit.
unfoldable pub repost_body : ℕ → ℕ → ℕ → Act DbError Bool
repost_body user post owner = do
  inserted ← try (stmt (insert_repost user post))
  first_repost ← unless_duplicate inserted
  ensured ← try (ensure_repost_post user post)
  unless_duplicate ensured
  if first_repost
      then insert_notification_once owner NotificationType.repost user (some post)
      else pure false

-- repostOnce
unfoldable pub repost_once : ℕ → ℕ → ℕ → Act DbError Bool
repost_once user post owner = transaction (repost_body user post owner)

-- The single retry after a lock conflict.
unfoldable pub repost_retry : ℕ → ℕ → ℕ → Act DbError Bool
repost_retry user post owner =
    or_else (repost_once user post owner)
      (λ e. if is_retryable_lock_error e then repost_once user post owner else raise e)

-- SELECT COUNT(*) FROM reposts WHERE post_id = ?
abbrev pub count_reposts : ℕ → Db → ℕ
count_reposts post db = count (λ (m : MarkRow). m.post_id == post) db.reposts

-- Repost, on the decoded body
unfoldable pub repost : Option ℕ → Option ℕ → Act Response Response
repost auth none = raise (respond_error 400 "invalid request")
repost auth (some post) = do
  owner ← or_respond (stmt (reading_row (λ db. owner_of post db.posts))) missing_or_error
  notified ← or_respond (repost_retry (current_user_id auth) post owner) respond_write_error
  if notified then deliver_notification owner NotificationType.repost (some post) else pure tt
  n ← or_server_error (stmt (reading (count_reposts post)))
  pure (respond_json 200 (Body.reposts_count n))

-- DELETE FROM reposts WHERE user_id = ? AND post_id = ?
unfoldable pub delete_repost : ℕ → ℕ → Query Unit
delete_repost user post now db =
    done tt (record db { reposts = filter (λ m. not (is_mark user post m)) db.reposts })

-- user_id = ? AND original_post_id = ? AND is_repost = TRUE
abbrev pub is_own_repost : ℕ → ℕ → PostRow → Bool
is_own_repost user post p = is_repost_of user post p && p.is_repost

-- DELETE FROM posts WHERE user_id = ? AND original_post_id = ? AND is_repost = TRUE
unfoldable pub delete_repost_post : ℕ → ℕ → Query Unit
delete_repost_post user post now db = done tt (delete_posts (is_own_repost user post) db)

-- UnRepost, on the id in the path
unfoldable pub unrepost : Option ℕ → Option ℕ → Act Response Response
unrepost auth none = raise (respond_error 400 "invalid post_id")
unrepost auth (some post) = do
  or_server_error (
      transaction (
        stmt (delete_repost (current_user_id auth) post)
        >> stmt (delete_repost_post (current_user_id auth) post)))
  n ← or_server_error (stmt (reading (count_reposts post)))
  pure (respond_json 200 (Body.reposts_count n))
