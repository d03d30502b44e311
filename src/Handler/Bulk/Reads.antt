-- ===== src/Handler/Bulk/Reads.antt =====
-- The bulk reader of handler.go changes no table.
use sakura_intern_team_e.Prelude.{ℕ, zero, suc, Option, none, some, List, [], ◌∷◌}
use sakura_intern_team_e.Db.Tables.{Db}
use sakura_intern_team_e.Db.Errors.{DbError}
use sakura_intern_team_e.Model.{PostInfo, Post}
use sakura_intern_team_e.Action.{Act}
use sakura_intern_team_e.Action.Keeps.{Keeps}
use sakura_intern_team_e.Action.Database.{Upholds}
use sakura_intern_team_e.Handler.Fetch.Reads.{read_rules, or_nil-Keeps}
use sakura_intern_team_e.Handler.Bulk.{
  apply_replies_count, apply_reply_to, bulk_level, fetch_posts_bulk_depth, fetch_posts_bulk,
}

module _ {P : Db → Type 0} where
  apply_replies_count-Keeps :
      (ids : List ℕ) (posts : List PostInfo) → Keeps (Upholds P) (apply_replies_count ids posts)
  unfolding apply_replies_count
  apply_replies_count-Keeps ids posts = search read_rules depth 8

  apply_reply_to-Keeps :
      (ids : List ℕ) (posts : List PostInfo) → Keeps (Upholds P) (apply_reply_to ids posts)
  unfolding apply_reply_to
  apply_reply_to-Keeps [] posts = search read_rules
  apply_reply_to-Keeps (id ∷ ids) posts = search read_rules depth 8

  bulk_level-Keeps_last :
      (auth : Option ℕ) (ids : List ℕ) (viewer : ℕ)
      → Keeps (Upholds P) (bulk_level none auth ids viewer)
  unfolding bulk_level
  bulk_level-Keeps_last auth ids viewer =
      search (read_rules, apply_replies_count-Keeps, apply_reply_to-Keeps) depth 12

  bulk_level-Keeps :
      (fetch : List ℕ → Act DbError (List Post))
      → ((os : List ℕ) → Keeps (Upholds P) (fetch os))
      → (auth : Option ℕ) (ids : List ℕ) (viewer : ℕ)
      → Keeps (Upholds P) (bulk_level (some fetch) auth ids viewer)
  unfolding bulk_level
  bulk_level-Keeps fetch k auth ids viewer =
      search (read_rules, apply_replies_count-Keeps, apply_reply_to-Keeps, or_nil-Keeps, k) depth 16

  fetch_posts_bulk_depth-Keeps :
      (n : ℕ) (auth : Option ℕ) (ids : List ℕ) (viewer : ℕ)
      → Keeps (Upholds P) (fetch_posts_bulk_depth n auth ids viewer)
  unfolding fetch_posts_bulk_depth
  fetch_posts_bulk_depth-Keeps zero auth [] viewer = search read_rules
  fetch_posts_bulk_depth-Keeps zero auth (id ∷ ids) viewer =
      bulk_level-Keeps_last auth (id ∷ ids) viewer
  fetch_posts_bulk_depth-Keeps (suc n) auth [] viewer = search read_rules
  fetch_posts_bulk_depth-Keeps (suc n) auth (id ∷ ids) viewer =
      bulk_level-Keeps _ (λ os. fetch_posts_bulk_depth-Keeps n auth os viewer) auth (id ∷ ids)
        viewer

  pub fetch_posts_bulk-Keeps :
      (auth : Option ℕ) (ids : List ℕ) (viewer : ℕ)
      → Keeps (Upholds P) (fetch_posts_bulk auth ids viewer)
  unfolding fetch_posts_bulk
  fetch_posts_bulk-Keeps auth ids viewer = fetch_posts_bulk_depth-Keeps 50 auth ids viewer
