-- ===== src/Handler/Search.antt =====
-- app/backend/internal/handler/search.go and trending.go.
pub mod Reads
pub mod Trending
use sakura_intern_team_e.Prelude.{
  ℕ, ◌+◌, Bool, true, false, ◌||◌, Option, none, some, List, [], ◌∷◌, ◌++◌, ◌==◌, ltb,
  if◌then◌else◌, take, count, filter, map, find, length,
}
use sakura_intern_team_e.Db.Tables.{Text, Db, UserRow, PostRow, MarkRow}
use sakura_intern_team_e.Db.Errors.{runes}
use sakura_intern_team_e.Db.Rows.{has_post}
use sakura_intern_team_e.Model.{User, Post}
use sakura_intern_team_e.Middleware.{same_text}
use sakura_intern_team_e.Platform.{Platform}
use sakura_intern_team_e.Action.{Act, stmt, pure, raise, ◌>>=◌, reading, or_zero}
use sakura_intern_team_e.Handler.Response.{
  Response, Body, Page, respond_json, respond_error, or_server_error, current_user_id,
}
use sakura_intern_team_e.Handler.Fetch.{fetch_user, post_ids}
use sakura_intern_team_e.Handler.Bulk.{fetch_posts_bulk, post_id}
use sakura_intern_team_e.Handler.Page.{
  pagination, order_by, page_rows, is_above, is_newer, distinct, reading_at, fetch_found,
}
use sakura_intern_team_e.Handler.Timeline.{respond_posts}

-- "%" + q + "%"
abbrev pub pattern_of : Text → Text
pattern_of q = 37 ∷ (q ++ (37 ∷ []))

abbrev pub is_like_null : Platform → Option Text → Text → Bool
is_like_null sys none pattern = false
is_like_null sys (some t) pattern = sys.is_like t pattern

abbrev pub post_matches : Platform → Text → PostRow → Bool
post_matches sys pattern p = is_like_null sys p.content pattern

abbrev pub user_matches : Platform → Text → UserRow → Bool
user_matches sys pattern u = sys.is_like u.username pattern || sys.is_like u.display_name pattern

unfoldable pub found_posts : Platform → Text → Db → List PostRow
found_posts sys q db = order_by is_newer (filter (post_matches sys (pattern_of q)) db.posts)

-- searchPosts
unfoldable pub search_posts : Platform → Text → Option ℕ → Page → Act Response Response
search_posts sys q auth p =
    respond_posts auth p (λ now db. post_ids (page_rows p (found_posts sys q db)))
      (λ db. count (post_matches sys (pattern_of q)) db.posts)

-- ORDER BY id
abbrev pub is_lower : UserRow → UserRow → Bool
is_lower u v = ltb u.id v.id

unfoldable pub found_users : Platform → Text → Db → List UserRow
found_users sys q db = order_by is_lower (filter (user_matches sys (pattern_of q)) db.users)

abbrev pub user_ids : List UserRow → List ℕ
user_ids = map (λ (u : UserRow). u.id)

-- searchUsers
unfoldable pub search_users : Platform → Text → Option ℕ → Page → Act Response Response
search_users sys q auth p = do
  ids ← or_server_error (stmt (reading (λ db. user_ids (page_rows p (found_users sys q db)))))
  users ← fetch_found (fetch_user auth) ids
  total ← or_zero 0 (stmt (reading (λ db. count (user_matches sys (pattern_of q)) db.users)))
  pure (respond_json 200 (Body.users_page users total p))

-- Search, on the query's q, type, page and per_page; the route has no middleware, so nobody is logged in.
unfoldable pub search_for : Platform → Option ℕ → Text → Text → Text → Text → Act Response Response
search_for sys auth [] type page per_page = raise (respond_error 400 "q is required")
search_for sys auth (c ∷ cs) type page per_page =
    let p = pagination page per_page in
    if same_text type [] || same_text type (runes "posts")
    then search_posts sys (c ∷ cs) auth p
    else if same_text type (runes "users")
    then search_users sys (c ∷ cs) auth p
    else raise (respond_error 400 "type must be posts or users")

-- created_at > NOW() - INTERVAL 1 HOUR
abbrev pub is_recent : ℕ → MarkRow → Bool
is_recent now m = ltb now (m.created_at + 3600)

-- SELECT post_id, COUNT(*) ... GROUP BY post_id
abbrev pub like_groups : List MarkRow → List (ℕ × ℕ)
like_groups likes =
    map (λ id. (id, count (λ (m : MarkRow). m.post_id == id) likes))
      (distinct (map (λ (m : MarkRow). m.post_id) likes))

-- ORDER BY recent_likes DESC, post_id DESC
abbrev pub is_busier : ℕ × ℕ → ℕ × ℕ → Bool
is_busier g h = is_above g.1 g.0 h.1 h.0

-- The query of GetTrending: ids with their recent likes.
unfoldable pub trending_rows : ℕ → Db → List (ℕ × ℕ)
trending_rows now db =
    let busiest = take 20 (order_by is_busier (like_groups (filter (is_recent now) db.likes))) in
    order_by is_busier (filter (λ (g : ℕ × ℕ). has_post g.0 db.posts) busiest)

abbrev pub likes_of : Option (ℕ × ℕ) → ℕ
likes_of none = 0
likes_of (some g) = g.1

-- recentLikes[p.ID]
abbrev pub with_likes : List (ℕ × ℕ) → Post → Post × ℕ
with_likes rows p = (p, likes_of (find (λ (g : ℕ × ℕ). g.0 == post_id p) rows))

-- GetTrending
unfoldable pub get_trending : Option ℕ → Act Response Response
get_trending auth = do
  rows ← or_server_error (stmt (reading_at trending_rows))
  posts ←
      or_server_error (fetch_posts_bulk auth (map (λ (g : ℕ × ℕ). g.0) rows) (current_user_id auth))
  pure (respond_json 200 (Body.trending_body (map (with_likes rows) posts)))
