-- ===== src/Handler/Bulk/Calm.antt =====
-- What the bulk reader returns when nothing interferes and no statement fails.
use sakura_intern_team_e.Prelude.{
  ℕ, zero, suc, Option, none, some, List, [], ◌∷◌, map, collect, ◌≡◌, refl, ap,
}
use sakura_intern_team_e.Db.Tables.{Db, UserRow, PostRow}
use sakura_intern_team_e.Db.Errors.{DbError}
use sakura_intern_team_e.Db.Rows.{find_post}
use sakura_intern_team_e.Model.{PostInfo, Post}
use sakura_intern_team_e.Action.{Act, ok, reading}
use sakura_intern_team_e.Action.Calm.{Runs, Runs-stmt, Runs-pure, Runs-bind, Runs-or_else, Runs-try}
use sakura_intern_team_e.Handler.Response.{current_user_id}
use sakura_intern_team_e.Handler.Bulk.{
  bulk_info, joined, joined_rows, bulk_rows, reply_groups, set_counts, apply_replies_count,
  reply_id, reply_names, set_names, apply_reply_to, quoted_id, post_id, attach, in_order,
  bulk_level, fetch_posts_bulk_depth,
}
use sakura_intern_team_e.Handler.Bulk.Complete.{
  contains-collect, map-joined_rows, set_counts-row, set_names-row,
}
use sakura_intern_team_e.Handler.Bulk.Level.{
  counted_info, full_info, quoted_view, quoted_view-keyed, level_posts,
}

map_blank : (posts : List PostInfo) → map (set_names []) posts ≡ posts
unfolding set_names
map_blank [] = refl
map_blank (p ∷ posts) = ap (◌∷◌ p) (map_blank posts)

collect-none : {B : Type 0} (js : List ℕ) → collect {B = B} (λ j. none) js ≡ []
collect-none [] = refl
collect-none (j ∷ js) = collect-none js

module _ (now : ℕ) (db : Db) where
  apply_replies_count-calm :
      (ids : List ℕ) (posts : List PostInfo)
      → Runs now db
          (apply_replies_count ids posts)
          (ok (map (set_counts (reply_groups ids db)) posts))
          db
  unfolding apply_replies_count
  apply_replies_count-calm ids posts =
      Runs-or_else _ (Runs-bind _ (Runs-stmt (reading (reply_groups ids)) db) (Runs-pure _))

  apply_reply_to-calm :
      (ids : List ℕ) (posts : List PostInfo)
      → Runs now db (apply_reply_to ids posts) (ok (map (set_names (reply_names ids db)) posts)) db
  unfolding apply_reply_to reply_names
  apply_reply_to-calm [] posts = rw (map_blank posts) (Runs-pure posts)
  apply_reply_to-calm (id ∷ ids) posts =
      Runs-or_else _ (Runs-bind _ (Runs-stmt (reading (reply_names (id ∷ ids))) db) (Runs-pure _))

module _ (db : Db) (viewer follower : ℕ) (ids : List ℕ) where
  abbrev rows_counted : List PostInfo
  rows_counted = joined_rows (counted_info db viewer follower) db ids

  abbrev rows_full : List PostInfo
  rows_full = joined_rows (full_info db viewer follower) db ids

  counts_done :
      map (set_counts (reply_groups ids db)) (bulk_rows viewer follower ids db) ≡ rows_counted
  unfolding bulk_rows
  counts_done =
      map-joined_rows db (set_counts (reply_groups ids db))
        (λ p u. bulk_info viewer follower p u db) (counted_info db viewer follower) ids
        (λ p u m f k. set_counts-row db ids (bulk_info viewer follower p u db) m refl) ids
        (λ j m. m)

  names_done :
      map (set_names (reply_names (collect reply_id rows_counted) db)) rows_counted ≡ rows_full
  names_done =
      let args = collect reply_id rows_counted in
      map-joined_rows db (set_names (reply_names args db)) (counted_info db viewer follower)
        (full_info db viewer follower) ids
        (λ p u m f k.
          set_names-row db args (counted_info db viewer follower p u) p f refl refl (λ parent e.
            contains-collect
              (λ id. joined (counted_info db viewer follower) db (find_post id db.posts)) reply_id
              p.id p.id (counted_info db viewer follower p u) (rw (f, k)) (rw e) ids m))
        ids (λ j m. m)

module _ (db : Db) (auth : Option ℕ) (viewer : ℕ) where
  abbrev pub row_of : ℕ → Option PostInfo
  row_of id = joined (full_info db viewer (current_user_id auth)) db (find_post id db.posts)

  -- The post that the bulk reader makes of an id, with the levels of originals that are left.
  unfoldable pub bulk_view : ℕ → ℕ → Option Post
  bulk_view zero id = quoted_view (λ o. none) (row_of id)
  bulk_view (suc n) id = quoted_view (λ o. bulk_view n o) (row_of id)

  pub bulk_view-keyed : (n j : ℕ) (q : Post) → bulk_view n j ≡ some q → post_id q ≡ j
  unfolding bulk_view
  bulk_view-keyed zero j q e =
      quoted_view-keyed db (full_info db viewer (current_user_id auth)) (λ p u. refl) (λ o. none) j
        q e
  bulk_view-keyed (suc n) j q e =
      quoted_view-keyed db (full_info db viewer (current_user_id auth)) (λ p u. refl)
        (λ o. bulk_view n o) j q e

-- Without a deeper level no post gets its original.
last_posts :
    (db : Db) (make : PostRow → UserRow → PostInfo)
    (same : (p : PostRow) (u : UserRow) → (make p u).id ≡ p.id) (ids : List ℕ)
    → in_order ids (map (attach []) (joined_rows make db ids))
      ≡ collect (λ id. quoted_view (λ o. none) (joined make db (find_post id db.posts))) ids
last_posts db make same ids =
    let none_found = collect-none {B = Post} (collect quoted_id (joined_rows make db ids)) in
    rw none_found at (level_posts db make same (λ o. none) (λ j q e. cc) ids)

module _ (now : ℕ) (db : Db) (auth : Option ℕ) (ids : List ℕ) (viewer : ℕ) where
  abbrev level_result : (ℕ → Option Post) → List Post
  level_result view = collect (λ id. quoted_view view (row_of db auth viewer id)) ids

  level_last : Runs now db (bulk_level none auth ids viewer) (ok (level_result (λ o. none))) db
  unfolding bulk_level
  level_last =
      let follower = current_user_id auth in
      Runs-bind _ (Runs-stmt (reading (bulk_rows viewer follower ids)) db) (
        Runs-bind _ (apply_replies_count-calm now db ids (bulk_rows viewer follower ids db)) (
          rw (counts_done db viewer follower ids) (
            Runs-bind _ (apply_reply_to-calm now db _ _) (
              rw (names_done db viewer follower ids) (
                Runs-bind _ (Runs-pure none) (
                  rw (last_posts db (full_info db viewer follower) (λ p u. refl) ids)
                    (Runs-pure _)))))))

  level_deeper :
      (fetch : List ℕ → Act DbError (List Post)) (view : ℕ → Option Post)
      → ((j : ℕ) (q : Post) → view j ≡ some q → post_id q ≡ j)
      → ((os : List ℕ) → Runs now db (fetch os) (ok (collect view os)) db)
      → Runs now db (bulk_level (some fetch) auth ids viewer) (ok (level_result view)) db
  unfolding bulk_level
  level_deeper fetch view keyed fetches =
      let follower = current_user_id auth in
      Runs-bind _ (Runs-stmt (reading (bulk_rows viewer follower ids)) db) (
        Runs-bind _ (apply_replies_count-calm now db ids (bulk_rows viewer follower ids db)) (
          rw (counts_done db viewer follower ids) (
            Runs-bind _ (apply_reply_to-calm now db _ _) (
              rw (names_done db viewer follower ids) (
                Runs-bind _ (Runs-bind _ (Runs-try (fetches _)) (Runs-pure _)) (
                  rw (level_posts db (full_info db viewer follower) (λ p u. refl) view keyed ids)
                    (Runs-pure _)))))))

module _ (now : ℕ) (db : Db) (auth : Option ℕ) (viewer : ℕ) where
  pub bulk-calm :
      (n : ℕ) (ids : List ℕ)
      → Runs now db
          (fetch_posts_bulk_depth n auth ids viewer)
          (ok (collect (bulk_view db auth viewer n) ids))
          db
  unfolding fetch_posts_bulk_depth bulk_view
  bulk-calm zero [] = Runs-pure []
  bulk-calm zero (id ∷ ids) = level_last now db auth (id ∷ ids) viewer
  bulk-calm (suc n) [] = Runs-pure []
  bulk-calm (suc n) (id ∷ ids) =
      level_deeper now db auth (id ∷ ids) viewer _ (bulk_view db auth viewer n)
        (bulk_view-keyed db auth viewer n) (λ os. bulk-calm n os)
