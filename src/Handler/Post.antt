-- ===== src/Handler/Post.antt =====
-- app/backend/internal/handler/post.go: creating and deleting posts, and one post by its id.
pub mod Tables
pub mod Ownership
use sakura_intern_team_e.Prelude.{
  ℕ, suc, Bool, true, false, Option, none, some, List, [], ◌∷◌, ◌==◌, ◌&&◌, ◌||◌, not, ltb,
  if◌then◌else◌, any, count, length,
}
use sakura_intern_team_e.Db.Tables.{Text, Db, PostRow}
use sakura_intern_team_e.Db.Errors.{
  DbError, is_no_rows, missing_user, missing_post, check_violated, duplicate_entry,
}
use sakura_intern_team_e.Db.Rows.{has_user, refers, is_repost_of}
use sakura_intern_team_e.Db.Invariant.{content_fits, same_repost}
use sakura_intern_team_e.Db.Cascade.{delete_posts}
use sakura_intern_team_e.Model.{Post}
use sakura_intern_team_e.Action.{
  Act, Query, Reply, Result, ok, err, done, refused, stmt, pure, raise, try, or_else, ◌>>=◌, ◌>>◌,
}
use sakura_intern_team_e.Handler.Response.{
  Response, Body, respond_json, respond_error, server_error, or_server_error, or_respond,
  current_user_id,
}
use sakura_intern_team_e.Handler.Fetch.{fetch_post, or_nil}

abbrev pub is_empty : Text → Bool
is_empty [] = true
is_empty (c ∷ t) = false

-- `content == "" || len([]rune(content)) > 140`
abbrev pub is_bad_content : Text → Bool
is_bad_content t = is_empty t || ltb 140 (length t)

-- A row of posts as an INSERT proposes it, without its id and time.
pub record NewPost : Type 0 where
  pub user_id : ℕ
  pub content : Option Text
  pub is_repost : Bool
  pub original_post_id : Option ℕ
  pub parent_post_id : Option ℕ

abbrev pub row_of : NewPost → ℕ → ℕ → PostRow
row_of p id now = record {
  id = id;
  user_id = p.user_id;
  content = p.content;
  is_repost = p.is_repost;
  original_post_id = p.original_post_id;
  parent_post_id = p.parent_post_id;
  created_at = now;
}

-- The constraints of the posts table, and the new row at the head with the next id, which is the
-- statement's LastInsertId.
unfoldable pub insert_post : NewPost → Query ℕ
insert_post p now db =
    let row = row_of p db.next_post now in
    if not (content_fits p.content)
    then refused check_violated
    else if any (same_repost row) db.posts
    then refused duplicate_entry
    else if not (has_user p.user_id db.users)
    then refused missing_user
    else if not (refers p.original_post_id db.posts)
    then refused missing_post
    else done db.next_post (record db { posts = row ∷ db.posts; next_post = suc db.next_post })

-- INSERT INTO posts (user_id, content) VALUES (?, ?)
abbrev pub plain_post : ℕ → Text → NewPost
plain_post user content = record {
  user_id = user;
  content = some content;
  is_repost = false;
  original_post_id = none;
  parent_post_id = none;
}

-- `post, _ := h.fetchPost(...)`
unfoldable pub fetch_or_zero : Option ℕ → ℕ → Act Response (Option Post)
fetch_or_zero auth id =
    or_else (fetch_post auth id (current_user_id auth) >>= λ p. pure (some p)) (λ e. pure none)

-- CreatePost, on the decoded body
unfoldable pub create_post : Option ℕ → Option Text → Act Response Response
create_post auth none = raise (respond_error 400 "invalid request")
create_post auth (some content) =
    if is_bad_content content
    then raise (respond_error 400 "content must be 1-140 characters")
    else do
      id ← or_server_error (stmt (insert_post (plain_post (current_user_id auth) content)))
      post ← fetch_or_zero auth id
      pure (respond_json 201 (Body.post_body post))

-- GetPost, on the id in the path
unfoldable pub get_post : Option ℕ → Option ℕ → Act Response Response
get_post auth none = raise (respond_error 400 "invalid id")
get_post auth (some id) = do
  post ←
      or_respond (fetch_post auth id (current_user_id auth))
        (λ e. if is_no_rows e then respond_error 404 "post not found" else server_error)
  pure (respond_json 200 (Body.post_body (some post)))

-- id = ? AND user_id = ?
abbrev pub is_own_post : ℕ → ℕ → PostRow → Bool
is_own_post id user p = p.id == id && p.user_id == user

-- DELETE FROM posts WHERE id = ? AND user_id = ?: the number of rows that matched
unfoldable pub delete_own_post : ℕ → ℕ → Query ℕ
delete_own_post id user now db =
    done (count (is_own_post id user) db.posts) (delete_posts (is_own_post id user) db)

-- DeletePost, on the id in the path
unfoldable pub delete_post : Option ℕ → Option ℕ → Act Response Response
delete_post auth none = raise (respond_error 400 "invalid id")
delete_post auth (some id) = do
  n ← or_server_error (stmt (delete_own_post id (current_user_id auth)))
  if n == 0
      then raise (respond_error 404 "post not found or not yours")
      else pure (respond_json 200 (Body.message "deleted"))
