-- ===== src/Handler/Reply.antt =====
-- app/backend/internal/handler/reply.go: creating a reply, rebuilding its event, and the thread of a
-- post.
pub mod Tables
use sakura_intern_team_e.Prelude.{
  ℕ, zero, suc, Bool, true, false, Option, none, some, List, [], ◌∷◌, ◌++◌, ◌==◌, ◌&&◌, not, ltb,
  if◌then◌else◌, filter,
}
use sakura_intern_team_e.Db.Tables.{Text, Db, PostRow, NotificationType, sql_eq}
use sakura_intern_team_e.Db.Errors.{DbError, is_no_rows}
use sakura_intern_team_e.Db.Rows.{owner_of, has_post}
use sakura_intern_team_e.Model.{Post, Event, reply_event, info}
use sakura_intern_team_e.Action.{
  Act, Query, Reply, Result, ok, err, panic, done, refused, stmt, pure, raise, try, or_else, ◌>>=◌,
  ◌>>◌, reading, reading_row,
}
use sakura_intern_team_e.Notify.Publish.{publish_reply}
use sakura_intern_team_e.Handler.Response.{
  Response, Body, respond_json, respond_error, server_error, or_server_error, or_respond,
  current_user_id,
}
use sakura_intern_team_e.Handler.Fetch.{fetch_post, thread_root_id}
use sakura_intern_team_e.Handler.Post.{NewPost, insert_post, is_bad_content, fetch_or_zero}
use sakura_intern_team_e.Handler.Notification.{create_notification_once}

abbrev pub reply_post : ℕ → Text → ℕ → NewPost
reply_post user content parent = record {
  user_id = user;
  content = some content;
  is_repost = false;
  original_post_id = none;
  parent_post_id = some parent;
}

abbrev pub inserted_id : Reply ℕ → Reply (Option ℕ)
inserted_id (done id db) = done (some id) db
inserted_id (refused e) = refused e

-- INSERT INTO posts ... SELECT ... WHERE EXISTS (SELECT 1 FROM posts p WHERE p.id = ?): the new id, or
-- `none` where no row was inserted
unfoldable pub insert_reply : ℕ → Text → ℕ → Query (Option ℕ)
insert_reply user content parent now db =
    if has_post parent db.posts
    then inserted_id (insert_post (reply_post user content parent) now db)
    else done none db

-- `authorErr != nil && !errors.Is(authorErr, sql.ErrNoRows)`; no row leaves the author unknown.
abbrev pub known_author : Result DbError ℕ → Act Response (Option ℕ)
known_author (ok owner) = pure (some owner)
known_author (err e) = if is_no_rows e then pure none else raise server_error
known_author panic = λ w. (panic, w)

-- `affected == 0`
abbrev pub require_inserted : Option ℕ → Act Response ℕ
require_inserted none = raise (respond_error 404 "post not found")
require_inserted (some id) = pure id

abbrev pub notify_author : Option ℕ → ℕ → ℕ → Act Response Unit
notify_author none user id = pure tt
notify_author (some author) user id =
    create_notification_once author NotificationType.reply user (some id)

-- CreateReply after its checks
unfoldable pub create_checked_reply : Option ℕ → ℕ → Text → Act Response Response
create_checked_reply auth parent content = do
  found ← try (stmt (reading_row (λ db. owner_of parent db.posts)))
  author ← known_author found
  root ← thread_root_id parent
  inserted ← or_server_error (stmt (insert_reply (current_user_id auth) content parent))
  id ← require_inserted inserted
  post ← fetch_or_zero auth id
  notify_author author (current_user_id auth) id
  or_else (publish_reply root id) (λ e. pure tt)
  pure (respond_json 201 (Body.post_body post))

-- CreateReply, on the decoded body
unfoldable pub create_reply : Option ℕ → Option (ℕ × Text) → Act Response Response
create_reply auth none = raise (respond_error 400 "invalid request")
create_reply auth (some (parent, content)) =
    if is_bad_content content
    then raise (respond_error 400 "content must be 1-140 characters")
    else create_checked_reply auth parent content

-- ReplyEvent
unfoldable pub rebuild_reply_event : ℕ → Act DbError Event
rebuild_reply_event id = fetch_post none id 0 >>= λ post. pure (reply_event post)
