-- ===== src/Handler/Timeline.antt =====
-- The lists of app/backend/internal/handler/post.go: GetTimeline and GetUserPosts.
pub mod Reads
pub mod Complete
pub mod Order
use sakura_intern_team_e.Prelude.{
  ℕ, ◌+◌, Bool, true, false, not, ◌&&◌, ◌||◌, Option, none, some, List, ◌==◌, ltb, if◌then◌else◌,
  any, count, filter, map,
}
use sakura_intern_team_e.Db.Tables.{Text, Db, PostRow, MarkRow}
use sakura_intern_team_e.Db.Errors.{runes}
use sakura_intern_team_e.Db.Rows.{is_follow}
use sakura_intern_team_e.Middleware.{same_text}
use sakura_intern_team_e.Action.{Act, stmt, pure, raise, or_else, ◌>>=◌, reading, or_zero}
use sakura_intern_team_e.Handler.Response.{
  Response, Body, Page, respond_json, respond_error, or_server_error, current_user_id,
}
use sakura_intern_team_e.Handler.Fetch.{post_ids}
use sakura_intern_team_e.Handler.Bulk.{fetch_posts_bulk}
use sakura_intern_team_e.Handler.Page.{
  pagination, order_by, page_rows, is_above, is_newer, reading_at,
}

-- The feeds that GetTimeline tells apart; any other text is the last.
pub data Feed : Type 0 where
  latest recommended following : Feed

abbrev pub feed_of : Text → Feed
feed_of t =
    if same_text t (runes "latest")
    then latest
    else if same_text t (runes "recommended")
    then recommended
    else following

-- parent_post_id IS NULL
abbrev pub is_top : PostRow → Bool
is_top p = elim p.parent_post_id [ none ↦ true | some parent ↦ false ]

-- ... AND user_id IN (SELECT followee_id FROM follows WHERE follower_id = ?)
abbrev pub is_followed : ℕ → Db → PostRow → Bool
is_followed me db p = is_top p && any (is_follow me p.user_id) db.follows

-- COALESCE(rl.recent_likes, 0): the likes after NOW() - INTERVAL 24 HOUR
abbrev pub recent_likes : ℕ → Db → PostRow → ℕ
recent_likes now db p =
    count (λ (m : MarkRow). m.post_id == p.id && ltb now (m.created_at + 86400)) db.likes

-- ORDER BY COALESCE(rl.recent_likes, 0) DESC, p.created_at DESC, p.id DESC
abbrev pub is_hotter : ℕ → Db → PostRow → PostRow → Bool
is_hotter now db p q =
    let a = recent_likes now db p in
    let b = recent_likes now db q in ltb b a || (a == b && is_newer p q)

-- The rows of a feed in their order.
unfoldable pub feed_rows : Feed → ℕ → ℕ → Db → List PostRow
feed_rows latest me now db = order_by is_newer (filter is_top db.posts)
feed_rows recommended me now db = order_by (is_hotter now db) (filter is_top db.posts)
feed_rows following me now db = order_by is_newer (filter (is_followed me db) db.posts)

abbrev pub feed_ids : Feed → ℕ → Page → ℕ → Db → List ℕ
feed_ids feed me p now db = post_ids (page_rows p (feed_rows feed me now db))

-- SELECT COUNT(*) for the feed
unfoldable pub feed_total : Feed → ℕ → Db → ℕ
feed_total latest me db = count is_top db.posts
feed_total recommended me db = count is_top db.posts
feed_total following me db = count (is_followed me db) db.posts

-- The posts of a page, with the number of rows on all pages.
abbrev pub respond_posts : Option ℕ → Page → (ℕ → Db → List ℕ) → (Db → ℕ) → Act Response Response
respond_posts auth p ids_of total_of = do
  ids ← or_server_error (stmt (reading_at ids_of))
  posts ← or_server_error (fetch_posts_bulk auth ids (current_user_id auth))
  total ← or_zero 0 (stmt (reading total_of))
  pure (respond_json 200 (Body.posts_page posts total p))

-- GetTimeline, on the query's feed, page and per_page
unfoldable pub get_timeline : Option ℕ → Text → Text → Text → Act Response Response
get_timeline auth feed page per_page =
    let p = pagination page per_page in
    let me = current_user_id auth in
    respond_posts auth p (feed_ids (feed_of feed) me p) (feed_total (feed_of feed) me)

-- user_id = ? AND parent_post_id IS NULL, or IS NOT NULL for the replies
abbrev pub is_post_by : Bool → ℕ → PostRow → Bool
is_post_by only_replies user p =
    p.user_id == user && (if only_replies then not (is_top p) else is_top p)

unfoldable pub user_post_rows : Bool → ℕ → Db → List PostRow
user_post_rows only_replies user db =
    order_by is_newer (filter (is_post_by only_replies user) db.posts)

-- GetUserPosts, on the id in the path and the query's type, page and per_page
unfoldable pub get_user_posts : Option ℕ → Option ℕ → Text → Text → Text → Act Response Response
get_user_posts auth none type page per_page = raise (respond_error 400 "invalid user_id")
get_user_posts auth (some user) type page per_page =
    let p = pagination page per_page in
    let only_replies = same_text type (runes "replies") in
    respond_posts auth p (λ now db. post_ids (page_rows p (user_post_rows only_replies user db)))
      (λ db. count (is_post_by only_replies user) db.posts)
