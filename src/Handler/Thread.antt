-- ===== src/Handler/Thread.antt =====
-- Threads as trees: GetThread and fetchReplyTree of app/backend/internal/handler/reply.go.
pub mod Reads
pub mod Chain
use sakura_intern_team_e.Prelude.{ℕ, zero, suc, Bool, Option, none, some, List, [], ◌∷◌, filter}
use sakura_intern_team_e.Db.Tables.{Db, PostRow, sql_eq}
use sakura_intern_team_e.Db.Errors.{DbError}
use sakura_intern_team_e.Model.{Post, info}
use sakura_intern_team_e.Action.{Act, stmt, pure, raise, or_else, ◌>>=◌, reading}
use sakura_intern_team_e.Handler.Response.{
  Response, Body, ReplyNode, ReplyNodes, reply_node, no_replies, add_reply, respond_json,
  respond_error, or_respond, current_user_id,
}
use sakura_intern_team_e.Handler.Fetch.{fetch_post, post_ids}
use sakura_intern_team_e.Handler.Like.{missing_or_error}
use sakura_intern_team_e.Handler.Page.{order_by, is_above, or_none}

-- maxThreadDepth
abbrev pub max_thread_depth : ℕ
max_thread_depth = 50

-- ORDER BY created_at ASC, id ASC
abbrev pub is_older_reply : PostRow → PostRow → Bool
is_older_reply p q = is_above q.created_at q.id p.created_at p.id

-- SELECT id FROM posts WHERE parent_post_id = ? ORDER BY ...
unfoldable pub reply_ids : ℕ → Db → List ℕ
reply_ids parent db =
    post_ids
      (order_by is_older_reply (filter (λ (p : PostRow). sql_eq p.parent_post_id parent) db.posts))

abbrev pub add_found : Option ReplyNode → ReplyNodes → ReplyNodes
add_found none nodes = nodes
add_found (some node) nodes = add_reply node nodes

-- The node of a reply that loads; one that does not is left out with all below it.
abbrev pub node_from : Act Response ReplyNodes → Option Post → Act Response (Option ReplyNode)
node_from below none = pure none
node_from below (some post) = below >>= λ replies. pure (some (reply_node post replies))

-- The loop over the ids.
unfoldable pub reply_nodes :
    (ℕ → Act DbError Post) → (ℕ → Act Response ReplyNodes) → List ℕ → Act Response ReplyNodes
reply_nodes fetch deeper [] = pure no_replies
reply_nodes fetch deeper (id ∷ ids) = do
  found ← or_none (fetch id)
  node ← node_from (deeper id) found
  nodes ← reply_nodes fetch deeper ids
  pure (add_found node nodes)

-- A query whose failure leaves no rows.
abbrev pub ids_or_none : ℕ → Act Response (List ℕ)
ids_or_none parent = or_else (stmt (reading (reply_ids parent))) (λ e. pure [])

-- fetchReplyTree, on the levels that are left, maxThreadDepth - depth
unfoldable pub fetch_reply_tree : ℕ → Option ℕ → ℕ → ℕ → Act Response ReplyNodes
fetch_reply_tree zero auth post viewer = pure no_replies
fetch_reply_tree (suc n) auth post viewer = do
  ids ← ids_or_none post
  reply_nodes (λ id. fetch_post auth id viewer) (λ id. fetch_reply_tree n auth id viewer) ids

-- `if err != nil { break }`
abbrev pub unless_missing :
    List Post → (Post → Act Response (List Post)) → Option Post → Act Response (List Post)
unless_missing found next none = pure found
unless_missing found next (some post) = next post

-- The loop up the chain of parents: each post that loads goes to the front.
unfoldable pub fetch_ancestors : ℕ → Option ℕ → ℕ → Option ℕ → List Post → Act Response (List Post)
fetch_ancestors zero auth viewer parent found = pure found
fetch_ancestors (suc n) auth viewer none found = pure found
fetch_ancestors (suc n) auth viewer (some parent) found =
    or_none (fetch_post auth parent viewer)
    >>= unless_missing found
        (λ post. fetch_ancestors n auth viewer (info post).parent_post_id (post ∷ found))

-- GetThread, on the id in the path
unfoldable pub get_thread : Option ℕ → Option ℕ → Act Response Response
get_thread auth none = raise (respond_error 400 "invalid id")
get_thread auth (some id) = do
  let viewer = current_user_id auth
  post ← or_respond (fetch_post auth id viewer) missing_or_error
  ancestors ← fetch_ancestors max_thread_depth auth viewer (info post).parent_post_id []
  replies ← fetch_reply_tree max_thread_depth auth id viewer
  pure (respond_json 200 (Body.thread_body ancestors post replies))
