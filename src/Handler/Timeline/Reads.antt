-- ===== src/Handler/Timeline/Reads.antt =====
-- The lists of post.go change no table.
use sakura_intern_team_e.Prelude.{ℕ, Option, none, some, List}
use sakura_intern_team_e.Db.Tables.{Text, Db}
use sakura_intern_team_e.Action.Keeps.{Keeps, keeps_rules}
use sakura_intern_team_e.Action.Database.{Upholds}
use sakura_intern_team_e.Handler.Fetch.Reads.{read_rules}
use sakura_intern_team_e.Handler.Bulk.Reads.{fetch_posts_bulk-Keeps}
use sakura_intern_team_e.Handler.Page.Reads.{reading_at-Preserves}
use sakura_intern_team_e.Handler.Response.{Page}
use sakura_intern_team_e.Handler.Timeline.{respond_posts, get_timeline, get_user_posts}

module _ {P : Db → Type 0} where
  pub respond_posts-Keeps :
      (auth : Option ℕ) (p : Page) (ids_of : ℕ → Db → List ℕ) (total_of : Db → ℕ)
      → Keeps (Upholds P) (respond_posts auth p ids_of total_of)
  respond_posts-Keeps auth p ids_of total_of =
      search (read_rules, reading_at-Preserves, fetch_posts_bulk-Keeps) depth 12

  pub get_timeline-Keeps :
      (auth : Option ℕ) (feed page per_page : Text)
      → Keeps (Upholds P) (get_timeline auth feed page per_page)
  unfolding get_timeline
  get_timeline-Keeps auth feed page per_page = respond_posts-Keeps _ _ _ _

  pub get_user_posts-Keeps :
      (auth path : Option ℕ) (type page per_page : Text)
      → Keeps (Upholds P) (get_user_posts auth path type page per_page)
  unfolding get_user_posts
  get_user_posts-Keeps auth none type page per_page = search keeps_rules
  get_user_posts-Keeps auth (some user) type page per_page = respond_posts-Keeps _ _ _ _
