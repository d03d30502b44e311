-- ===== src/Tests/Lists.antt =====
-- The theorems on lists, threads and sessions at the tables of the parent module.
use sakura_intern_team_e.Prelude.{
  ℕ, ◌-◌, ◌*◌, ◌^◌, ◌≤◌, ◌<◌, ◌≡◌, ◌⊎◌, refl, true, none, some, List, [], ◌∷◌, length, map, count,
  All, arith,
}
use sakura_intern_team_e.Db.Tables.{Db}
use sakura_intern_team_e.Db.Errors.{runes}
use sakura_intern_team_e.Db.Rows.{has_post}
use sakura_intern_team_e.Model.{User, Post}
use sakura_intern_team_e.Middleware.{same_text, live_user}
use sakura_intern_team_e.Action.{ok}
use sakura_intern_team_e.Handler.Response.{Body, respond_json}
use sakura_intern_team_e.Handler.Fetch.{post_ids}
use sakura_intern_team_e.Handler.Bulk.{post_id}
use sakura_intern_team_e.Handler.Page.{pagination, order_by, page_rows, is_newer}
use sakura_intern_team_e.Handler.Page.Bounds.{pagination-bounds}
use sakura_intern_team_e.Handler.Page.Cover.{first_pages, first_pages_complete}
use sakura_intern_team_e.Handler.Page.Ordered.{IsOrdered}
use sakura_intern_team_e.Handler.Page.Groups.{sum_by}
use sakura_intern_team_e.Handler.Timeline.{
  feed_of, feed_rows, get_timeline, user_post_rows, get_user_posts,
}
use sakura_intern_team_e.Handler.Timeline.Complete.{get_timeline_complete, get_user_posts_complete}
use sakura_intern_team_e.Handler.Search.{is_busier, trending_rows}
use sakura_intern_team_e.Handler.Search.Trending.{IsTrending, trending_rows-ranked}
use sakura_intern_team_e.Handler.Visits.{Visits, is_later, visit_groups, visits_to, visitors_total}
use sakura_intern_team_e.Handler.Visits.Groups.{visit_groups-total}
use sakura_intern_team_e.Handler.Auth.{register, login}
use sakura_intern_team_e.Handler.Auth.Roundtrip.{IsNewcomer, register-login}
use sakura_intern_team_e.Tests.{
  platform, newcomer, tables, tables-IsWellFormed, calm_world, calm_world-IsCalm,
}

pagination-bounds_example :
    let p = pagination (runes "3") (runes "10") in
    (1 ≤ p.page)
    × (p.page < 2 ^ 63)
    × (1 ≤ p.per_page)
    × (p.per_page ≤ 50)
    × ((2 ^ 57 < p.page) ⊎ (p.offset ≡ (p.page - 1) * p.per_page))
pagination-bounds_example = pagination-bounds (runes "3") (runes "10")

first_pages_complete_example :
    let ordered = order_by is_newer tables.posts in
    (first_pages 1 2 ordered ≡ ordered)
    × ((test : _) → count test (first_pages 1 2 ordered) ≡ count test tables.posts)
first_pages_complete_example =
    first_pages_complete 1 2 is_newer tables.posts (omega arith) (omega arith)

get_timeline_complete_example :
    let p = pagination (runes "1") (runes "10") in
    let rows = feed_rows (feed_of (runes "latest")) 1 50 tables in
    (posts : List Post) × ((get_timeline
        (some 1)
        (runes "latest")
        (runes "1")
        (runes "10")
        calm_world).0
      ≡ ok (respond_json 200 (Body.posts_page posts (length rows) p)))
    × (map post_id posts ≡ post_ids (page_rows p rows))
get_timeline_complete_example =
    get_timeline_complete 50 (some 1) (runes "latest") (runes "1") (runes "10") calm_world
      calm_world-IsCalm tables-IsWellFormed

get_user_posts_complete_example :
    let p = pagination [] [] in
    let rows = user_post_rows (same_text (runes "replies") (runes "replies")) 2 tables in
    (posts : List Post) × ((get_user_posts none (some 2) (runes "replies") [] [] calm_world).0
      ≡ ok (respond_json 200 (Body.posts_page posts (length rows) p)))
    × (map post_id posts ≡ post_ids (page_rows p rows))
get_user_posts_complete_example =
    get_user_posts_complete 50 none 2 (runes "replies") [] [] calm_world calm_world-IsCalm
      tables-IsWellFormed

trending_rows-ranked_example :
    let rows = trending_rows 50 tables in
    (length rows ≤ 20)
    × IsOrdered is_busier rows
    × All (IsTrending 50 tables) rows
    × All (λ (g : ℕ × ℕ). has_post g.0 tables.posts ≡ true) rows
trending_rows-ranked_example = trending_rows-ranked 50 tables

abbrev visited : Db
visited = record tables {
  footprints =
      record { user_id = 1; visitor_id = 2; created_at = 5 }
      ∷ record { user_id = 1; visitor_id = 3; created_at = 4 }
      ∷ record { user_id = 1; visitor_id = 2; created_at = 3 }
      ∷ [];
}

visit_groups-total_example :
    IsOrdered is_later (visit_groups 1 visited)
    × (sum_by (λ (v : Visits). v.visit_count) (visit_groups 1 visited)
        ≡ length (visits_to 1 visited))
    × (length (visit_groups 1 visited) ≡ visitors_total 1 visited)
visit_groups-total_example = visit_groups-total 1 visited

newcomer-IsNewcomer : IsNewcomer platform newcomer tables
newcomer-IsNewcomer = record {
  named = refl;
  mailed = refl;
  locked = refl;
  fits = refl;
  free = refl;
}

register-login_example :
    let (answer, v) = register platform (some (runes "t")) (some newcomer) calm_world in
    let (again, z) =
      login platform (some (runes "u")) (some (newcomer.email, newcomer.password)) v in
    (a : User) × (b : User) × (answer ≡ ok (respond_json 201 (Body.user_body (some a))))
    × (again ≡ ok (respond_json 200 (Body.user_body (some b))))
    × (a.id ≡ 3)
    × (b.id ≡ 3)
    × (live_user (runes "t") 60 v.db.sessions ≡ some 3)
    × (live_user (runes "u") 60 z.db.sessions ≡ some 3)
register-login_example =
    register-login 50 60 platform (runes "t") (runes "u") (runes "secret") newcomer calm_world
      calm_world-IsCalm newcomer-IsNewcomer refl refl refl refl refl refl refl
