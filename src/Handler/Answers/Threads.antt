-- ===== src/Handler/Answers/Threads.antt =====
-- GetThread answers.
use sakura_intern_team_e.Prelude.{ℕ, zero, suc, Option, none, some, List, [], ◌∷◌}
use sakura_intern_team_e.Db.Errors.{DbError}
use sakura_intern_team_e.Model.{Post, info}
use sakura_intern_team_e.Action.{Act}
use sakura_intern_team_e.Action.Settles.{
  Settles, Settles-bind, Settles-pure, Anything, anything, settles_rules,
}
use sakura_intern_team_e.Action.Guarded.{Settles-reading}
use sakura_intern_team_e.Handler.Response.{Response, ReplyNodes}
use sakura_intern_team_e.Handler.Answers.{Served, IsFit, fit_rules}
use sakura_intern_team_e.Handler.Answers.Posts.{fetch_post-Settles}
use sakura_intern_team_e.Handler.Thread.{
  node_from, reply_nodes, fetch_reply_tree, unless_missing, fetch_ancestors, get_thread,
}

node_from-Settles :
    (below : Act Response ReplyNodes) (found : Option Post)
    → Settles Served IsFit Anything below
    → Settles Served IsFit Anything (node_from below found)
node_from-Settles below none k = search settles_rules
node_from-Settles below (some post) k = search (settles_rules, k) depth 8

reply_nodes-Settles :
    (fetch : ℕ → Act DbError Post) (deeper : ℕ → Act Response ReplyNodes) (ids : List ℕ)
    → ((id : ℕ) → Settles Served Anything Anything (fetch id))
    → ((id : ℕ) → Settles Served IsFit Anything (deeper id))
    → Settles Served IsFit Anything (reply_nodes fetch deeper ids)
unfolding reply_nodes
reply_nodes-Settles fetch deeper [] k d = search settles_rules
reply_nodes-Settles fetch deeper (id ∷ ids) k d =
    Settles-bind _ _ (search (settles_rules, k) depth 8) (λ found.
      Settles-bind _ _ (node_from-Settles _ found (d id)) (λ node.
        Settles-bind _ _ (reply_nodes-Settles fetch deeper ids k d)
          (λ nodes. Settles-pure _ (anything _))))

fetch_reply_tree-Settles :
    (n : ℕ) (auth : Option ℕ) (post viewer : ℕ)
    → Settles Served IsFit Anything (fetch_reply_tree n auth post viewer)
unfolding fetch_reply_tree
fetch_reply_tree-Settles zero auth post viewer = search settles_rules
fetch_reply_tree-Settles (suc n) auth post viewer =
    Settles-bind _ _ (search (settles_rules, Settles-reading) depth 8) (λ ids.
      reply_nodes-Settles _ _ ids (λ id. fetch_post-Settles auth id viewer)
        (λ id. fetch_reply_tree-Settles n auth id viewer))

unless_missing-Settles :
    (found : List Post) (next : Post → Act Response (List Post))
    → ((post : Post) → Settles Served IsFit Anything (next post))
    → (a : Option Post) → Settles Served IsFit Anything (unless_missing found next a)
unless_missing-Settles found next k none = search settles_rules
unless_missing-Settles found next k (some post) = k post

fetch_ancestors-Settles :
    (n : ℕ) (auth : Option ℕ) (viewer : ℕ) (parent : Option ℕ) (found : List Post)
    → Settles Served IsFit Anything (fetch_ancestors n auth viewer parent found)
unfolding fetch_ancestors
fetch_ancestors-Settles zero auth viewer parent found = search settles_rules
fetch_ancestors-Settles (suc n) auth viewer none found = search settles_rules
fetch_ancestors-Settles (suc n) auth viewer (some parent) found =
    Settles-bind _ _ (search (settles_rules, fetch_post-Settles) depth 8) (
      unless_missing-Settles found _
        (λ post. fetch_ancestors-Settles n auth viewer (info post).parent_post_id (post ∷ found)))

pub get_thread-Settles : (auth path : Option ℕ) → Settles Served IsFit IsFit (get_thread auth path)
unfolding get_thread
get_thread-Settles auth none = search (settles_rules, fit_rules)
get_thread-Settles auth (some id) =
    search
      (
        settles_rules, fit_rules, fetch_post-Settles, fetch_ancestors-Settles,
        fetch_reply_tree-Settles,
      )
      depth 12
