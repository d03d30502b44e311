-- ===== src/Handler/Thread/Reads.antt =====
-- Reading a thread changes no table.
use sakura_intern_team_e.Prelude.{ℕ, zero, suc, Option, none, some, List, [], ◌∷◌}
use sakura_intern_team_e.Db.Errors.{DbError}
use sakura_intern_team_e.Model.{Post, info}
use sakura_intern_team_e.Action.{Act}
use sakura_intern_team_e.Db.Tables.{Db}
use sakura_intern_team_e.Action.Keeps.{Keeps, Keeps-bind, Keeps-pure, keeps_rules}
use sakura_intern_team_e.Action.Database.{Upholds}
use sakura_intern_team_e.Handler.Fetch.Reads.{read_rules, fetch_post-Keeps}
use sakura_intern_team_e.Handler.Response.{Response, ReplyNodes}
use sakura_intern_team_e.Handler.Thread.{
  node_from, reply_nodes, fetch_reply_tree, unless_missing, fetch_ancestors, get_thread,
}

module _ {P : Db → Type 0} where
  node_from-Keeps :
      (below : Act Response ReplyNodes) (found : Option Post)
      → Keeps (Upholds P) below
      → Keeps (Upholds P) (node_from below found)
  node_from-Keeps below none k = search keeps_rules
  node_from-Keeps below (some post) k = search (keeps_rules, k) depth 8

  reply_nodes-Keeps :
      (fetch : ℕ → Act DbError Post) (deeper : ℕ → Act Response ReplyNodes) (ids : List ℕ)
      → ((id : ℕ) → Keeps (Upholds P) (fetch id))
      → ((id : ℕ) → Keeps (Upholds P) (deeper id))
      → Keeps (Upholds P) (reply_nodes fetch deeper ids)
  unfolding reply_nodes
  reply_nodes-Keeps fetch deeper [] k d = search keeps_rules
  reply_nodes-Keeps fetch deeper (id ∷ ids) k d =
      Keeps-bind _ _ (search (keeps_rules, k) depth 8) (λ found.
        Keeps-bind _ _ (node_from-Keeps _ found (d id))
          (λ node. Keeps-bind _ _ (reply_nodes-Keeps fetch deeper ids k d) (λ nodes. Keeps-pure _)))

  fetch_reply_tree-Keeps :
      (n : ℕ) (auth : Option ℕ) (post viewer : ℕ)
      → Keeps (Upholds P) (fetch_reply_tree n auth post viewer)
  unfolding fetch_reply_tree
  fetch_reply_tree-Keeps zero auth post viewer = search keeps_rules
  fetch_reply_tree-Keeps (suc n) auth post viewer =
      Keeps-bind _ _ (search read_rules depth 8) (λ ids.
        reply_nodes-Keeps _ _ ids (λ id. fetch_post-Keeps auth id viewer)
          (λ id. fetch_reply_tree-Keeps n auth id viewer))

  unless_missing-Keeps :
      (found : List Post) (next : Post → Act Response (List Post))
      → ((post : Post) → Keeps (Upholds P) (next post))
      → (a : Option Post) → Keeps (Upholds P) (unless_missing found next a)
  unless_missing-Keeps found next k none = search keeps_rules
  unless_missing-Keeps found next k (some post) = k post

  fetch_ancestors-Keeps :
      (n : ℕ) (auth : Option ℕ) (viewer : ℕ) (parent : Option ℕ) (found : List Post)
      → Keeps (Upholds P) (fetch_ancestors n auth viewer parent found)
  unfolding fetch_ancestors
  fetch_ancestors-Keeps zero auth viewer parent found = search keeps_rules
  fetch_ancestors-Keeps (suc n) auth viewer none found = search keeps_rules
  fetch_ancestors-Keeps (suc n) auth viewer (some parent) found =
      Keeps-bind _ _ (search (keeps_rules, fetch_post-Keeps) depth 8) (
        unless_missing-Keeps found _
          (λ post. fetch_ancestors-Keeps n auth viewer (info post).parent_post_id (post ∷ found)))

  pub get_thread-Keeps : (auth path : Option ℕ) → Keeps (Upholds P) (get_thread auth path)
  unfolding get_thread
  get_thread-Keeps auth none = search keeps_rules
  get_thread-Keeps auth (some id) =
      search (keeps_rules, fetch_post-Keeps, fetch_ancestors-Keeps, fetch_reply_tree-Keeps) depth 12
