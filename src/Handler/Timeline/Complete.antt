-- ===== src/Handler/Timeline/Complete.antt =====
-- What GetTimeline and GetUserPosts answer when nothing interferes and no statement fails.
use sakura_intern_team_e.Prelude.{
  ℕ, Bool, true, Option, none, some, List, [], ◌∷◌, ◌≡◌, refl, sym, ap, ◌∙◌, map, collect, length,
  count, filter, drop, zero, suc, take-All, drop-All, length-filter, All,
}
use sakura_intern_team_e.Db.Tables.{Text, Db, PostRow}
use sakura_intern_team_e.Db.Rows.{has_post}
use sakura_intern_team_e.Db.Invariant.{IsWellFormed, filter-All}
use sakura_intern_team_e.Db.Listed.{
  IsListed, All-IsListed, find_post-found, find_user-found, author-known,
}
use sakura_intern_team_e.Middleware.{same_text}
use sakura_intern_team_e.Db.Errors.{runes}
use sakura_intern_team_e.Model.{Post, PostInfo}
use sakura_intern_team_e.Action.{World, ok}
use sakura_intern_team_e.Action.Calm.{IsCalm, Runs, Runs-stmt, Runs-bind, Runs-or_else, Runs-pure}
use sakura_intern_team_e.Action.Calm.Rows.{Runs-count}
use sakura_intern_team_e.Handler.Response.{Body, Page, respond_json, current_user_id}
use sakura_intern_team_e.Handler.Fetch.{post_ids, quote}
use sakura_intern_team_e.Handler.Bulk.{max_repost_depth, post_id, quoted_id, fetch_posts_bulk}
use sakura_intern_team_e.Handler.Bulk.View.{original_view}
use sakura_intern_team_e.Handler.Bulk.Level.{full_info}
use sakura_intern_team_e.Handler.Bulk.Calm.{row_of, bulk_view, bulk_view-keyed, bulk-calm}
use sakura_intern_team_e.Handler.Page.{pagination, order_by, page_rows, is_newer, reading_at}
use sakura_intern_team_e.Handler.Page.Ordered.{order_by-length, order_by-All}
use sakura_intern_team_e.Handler.Timeline.{
  Feed, latest, recommended, following, feed_of, is_top, is_followed, is_post_by, is_hotter,
  feed_rows, feed_ids, feed_total, respond_posts, get_timeline, user_post_rows, get_user_posts,
}

-- Posts that are all found keep the ids that they were asked for by.
collected-ids :
    (view : ℕ → Option Post) (posts rows : List PostRow)
    → ((id : ℕ) → has_post id posts ≡ true → (q : Post) × (view id ≡ some q))
    → ((id : ℕ) (q : Post) → view id ≡ some q → post_id q ≡ id)
    → All (IsListed posts) rows
    → map post_id (collect view (post_ids rows)) ≡ post_ids rows
collected-ids view posts [] found keyed h = refl
collected-ids view posts (p ∷ rows) found keyed h =
    let here = found p.id h.0 in
    let its : post_id here.0 ≡ p.id = keyed p.id here.0 here.1 in
    rw (here.1, its, collected-ids view posts rows found keyed h.1) refl

module _ (db : Db) (wf : IsWellFormed db) (auth : Option ℕ) (viewer : ℕ) where
  row-found :
      (id : ℕ) → has_post id db.posts ≡ true → (r : PostInfo) × (row_of db auth viewer id ≡ some r)
  row-found id h =
      let p = find_post-found id db.posts h in
      let u =
        find_user-found p.0.user_id db.users
          (author-known db.users id db.posts {p = p.0} wf.post_authors p.1) in
      (full_info db viewer (current_user_id auth) p.0 u.0, rw (p.1, u.1) refl)

  view-found :
      (n id : ℕ)
      → has_post id db.posts ≡ true
      → (q : Post) × (bulk_view db auth viewer n id ≡ some q)
  unfolding bulk_view
  view-found zero id h =
      let r = row-found id h in
      (quote r.0 (original_view (λ o. none) (quoted_id r.0)), rw (r.1) refl)
  view-found (suc n) id h =
      let r = row-found id h in
      let older = original_view (λ o. bulk_view db auth viewer n o) (quoted_id r.0) in
      (quote r.0 older, rw (r.1) refl)

  page-ids :
      (p : Page) (rows : List PostRow)
      → All (IsListed db.posts) rows
      → map post_id
          (collect (bulk_view db auth viewer max_repost_depth) (post_ids (page_rows p rows)))
        ≡ post_ids (page_rows p rows)
  page-ids p rows h =
      collected-ids (bulk_view db auth viewer max_repost_depth) db.posts (page_rows p rows)
        (view-found max_repost_depth) (bulk_view-keyed db auth viewer max_repost_depth)
        (take-All (IsListed db.posts) p.per_page (drop p.offset rows)
          (drop-All (IsListed db.posts) p.offset rows h))

respond_posts-calm :
    (now : ℕ) (db : Db) (auth : Option ℕ) (p : Page) (ids_of : ℕ → Db → List ℕ) (total_of : Db → ℕ)
    → Runs now db
        (respond_posts auth p ids_of total_of)
        (ok (
          respond_json 200 (
            Body.posts_page
              (collect (bulk_view db auth (current_user_id auth) max_repost_depth) (ids_of now db))
              (total_of db)
              p)))
        db
unfolding fetch_posts_bulk
respond_posts-calm now db auth p ids_of total_of =
    Runs-bind _ (Runs-or_else _ (Runs-stmt (reading_at ids_of) db)) (
      Runs-bind _
        (Runs-or_else _
          (bulk-calm now db auth (current_user_id auth) max_repost_depth (ids_of now db)))
        (Runs-bind _ (Runs-count 0 total_of) (Runs-pure _)))

IsListed-rows :
    (before : PostRow → PostRow → Bool) (test : PostRow → Bool) (db : Db)
    → All (IsListed db.posts) (order_by before (filter test db.posts))
IsListed-rows before test db =
    order_by-All before (IsListed db.posts) (filter test db.posts)
      (filter-All (IsListed db.posts) test db.posts (All-IsListed db.posts))

length-listed :
    (before : PostRow → PostRow → Bool) (test : PostRow → Bool) (db : Db)
    → count test db.posts ≡ length (order_by before (filter test db.posts))
length-listed before test db =
    sym (length-filter test db.posts) ∙ sym (order_by-length before (filter test db.posts))

feed_rows-IsListed :
    (feed : Feed) (me now : ℕ) (db : Db) → All (IsListed db.posts) (feed_rows feed me now db)
unfolding feed_rows
feed_rows-IsListed latest me now db = IsListed-rows _ _ db
feed_rows-IsListed recommended me now db = IsListed-rows _ _ db
feed_rows-IsListed following me now db = IsListed-rows _ _ db

feed_total-length :
    (feed : Feed) (me now : ℕ) (db : Db) → feed_total feed me db ≡ length (feed_rows feed me now db)
unfolding feed_rows feed_total
feed_total-length latest me now db = length-listed is_newer is_top db
feed_total-length recommended me now db = length-listed (is_hotter now db) is_top db
feed_total-length following me now db = length-listed is_newer (is_followed me db) db

-- In a calm world with well-formed tables, GetTimeline answers 200 with a post for every row of the
-- page, in the order of the feed's rows and none left out, with the number of the feed's rows as the
-- total, and with the page that pagination makes of the query.
pub get_timeline_complete :
    (now : ℕ) (auth : Option ℕ) (feed page per_page : Text) (w : World)
    → IsCalm now w
    → IsWellFormed w.db
    → let p = pagination page per_page in
      let rows = feed_rows (feed_of feed) (current_user_id auth) now w.db in
      (posts : List Post) × ((get_timeline auth feed page per_page w).0
        ≡ ok (respond_json 200 (Body.posts_page posts (length rows) p)))
      × (map post_id posts ≡ post_ids (page_rows p rows))
unfolding get_timeline
get_timeline_complete now auth feed page per_page w calm wf =
    let p = pagination page per_page in
    let me = current_user_id auth in
    let f = feed_of feed in
    let rows = feed_rows f me now w.db in
    let run =
      (respond_posts-calm now w.db auth p (feed_ids f me p) (feed_total f me)).at w calm refl in
    let posts = collect (bulk_view w.db auth me max_repost_depth) (post_ids (page_rows p rows)) in
    (
      posts,
      run.0
          ∙ ap (λ t. ok (respond_json 200 (Body.posts_page posts t p)))
              (feed_total-length f me now w.db),
      page-ids w.db wf auth me p rows (feed_rows-IsListed f me now w.db),
    )

-- In a calm world with well-formed tables, GetUserPosts answers 200 with a post for every row of the
-- page, which are the user's replies, or else the user's other posts, newest first, none left out,
-- and with their number as the total.
pub get_user_posts_complete :
    (now : ℕ) (auth : Option ℕ) (user : ℕ) (type page per_page : Text) (w : World)
    → IsCalm now w
    → IsWellFormed w.db
    → let p = pagination page per_page in
      let rows = user_post_rows (same_text type (runes "replies")) user w.db in
      (posts : List Post) × ((get_user_posts auth (some user) type page per_page w).0
        ≡ ok (respond_json 200 (Body.posts_page posts (length rows) p)))
      × (map post_id posts ≡ post_ids (page_rows p rows))
unfolding get_user_posts user_post_rows
get_user_posts_complete now auth user type page per_page w calm wf =
    let p = pagination page per_page in
    let me = current_user_id auth in
    let by = is_post_by (same_text type (runes "replies")) user in
    let rows = order_by is_newer (filter by w.db.posts) in
    let run = (respond_posts-calm now w.db auth p _ _).at w calm refl in
    let posts = collect (bulk_view w.db auth me max_repost_depth) (post_ids (page_rows p rows)) in
    (
      posts,
      run.0
          ∙ ap (λ t. ok (respond_json 200 (Body.posts_page posts t p)))
              (length-listed is_newer by w.db),
      page-ids w.db wf auth me p rows (IsListed-rows is_newer by w.db),
    )
