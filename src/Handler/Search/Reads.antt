-- ===== src/Handler/Search/Reads.antt =====
-- Searching and trending change no table.
use sakura_intern_team_e.Prelude.{ℕ, Option, [], ◌∷◌}
use sakura_intern_team_e.Platform.{Platform}
use sakura_intern_team_e.Db.Tables.{Text, Db}
use sakura_intern_team_e.Action.Keeps.{Keeps, keeps_rules}
use sakura_intern_team_e.Action.Database.{Upholds}
use sakura_intern_team_e.Handler.Fetch.Reads.{read_rules, fetch_user-Keeps}
use sakura_intern_team_e.Handler.Bulk.Reads.{fetch_posts_bulk-Keeps}
use sakura_intern_team_e.Handler.Page.Reads.{reading_at-Preserves, fetch_found-Keeps}
use sakura_intern_team_e.Handler.Response.{Page}
use sakura_intern_team_e.Handler.Timeline.Reads.{respond_posts-Keeps}
use sakura_intern_team_e.Handler.Search.{search_posts, search_users, search_for, get_trending}

module _ {P : Db → Type 0} where
  search_posts-Keeps :
      (sys : Platform) (q : Text) (auth : Option ℕ) (p : Page)
      → Keeps (Upholds P) (search_posts sys q auth p)
  unfolding search_posts
  search_posts-Keeps sys q auth p = respond_posts-Keeps _ _ _ _

  search_users-Keeps :
      (sys : Platform) (q : Text) (auth : Option ℕ) (p : Page)
      → Keeps (Upholds P) (search_users sys q auth p)
  unfolding search_users
  search_users-Keeps sys q auth p =
      search (read_rules, fetch_found-Keeps, fetch_user-Keeps) depth 12

  pub search_for-Keeps :
      (sys : Platform) (auth : Option ℕ) (q type page per_page : Text)
      → Keeps (Upholds P) (search_for sys auth q type page per_page)
  unfolding search_for
  search_for-Keeps sys auth [] type page per_page = search keeps_rules
  search_for-Keeps sys auth (c ∷ cs) type page per_page =
      search (keeps_rules, search_posts-Keeps, search_users-Keeps) depth 8

  pub get_trending-Keeps : (auth : Option ℕ) → Keeps (Upholds P) (get_trending auth)
  unfolding get_trending
  get_trending-Keeps auth =
      search (read_rules, reading_at-Preserves, fetch_posts_bulk-Keeps) depth 12
