-- ===== src/Handler/Bulk/Level.antt =====
-- One level of the bulk reader when nothing interferes and no statement fails.
use sakura_intern_team_e.Prelude.{
  ℕ, true, Option, none, some, List, ◌==◌, map, find, collect, contains, ◌≡◌, refl, sym, ap, ◌∙◌,
  arith, Option-cases, inl, inr, find-collect, collect-congr, lift, map-collect,
}
use sakura_intern_team_e.Db.Tables.{Db, UserRow, PostRow}
use sakura_intern_team_e.Db.Rows.{find_user, find_post}
use sakura_intern_team_e.Model.{PostInfo, Post}
use sakura_intern_team_e.Handler.Fetch.{descendants_count, quote}
use sakura_intern_team_e.Handler.Bulk.{
  bulk_info, with_author, joined, quoted_id, post_id, original_in, attach, in_order,
}
use sakura_intern_team_e.Handler.Bulk.View.{names_view, original_view}
use sakura_intern_team_e.Handler.Bulk.Complete.{find_post-id, contains-collect}

-- The rows of a level's first query with their replies counted, and with the names too.
abbrev pub counted_info : Db → ℕ → ℕ → PostRow → UserRow → PostInfo
counted_info db viewer follower p u = record (bulk_info viewer follower p u db) {
  replies_count = descendants_count p.id db;
}

abbrev pub full_info : Db → ℕ → ℕ → PostRow → UserRow → PostInfo
full_info db viewer follower p u = record (counted_info db viewer follower p u) {
  reply_to = names_view db p.parent_post_id;
}

abbrev pub quoted_view : (ℕ → Option Post) → Option PostInfo → Option Post
quoted_view view none = none
quoted_view view (some p) = some (quote p (original_view view (quoted_id p)))

quote-id : (p : PostInfo) (o : Option Post) → post_id (quote p o) ≡ p.id
quote-id p none = refl
quote-id p (some q) = refl

module _ (db : Db) (make : PostRow → UserRow → PostInfo)
    (same : (p : PostRow) (u : UserRow) → (make p u).id ≡ p.id) where
  joined-id : (j : ℕ) {r : PostInfo} → joined make db (find_post j db.posts) ≡ some r → r.id ≡ j
  joined-id j {r} e = elim (Option-cases (find_post j db.posts)) [
    | inl gone ↦ let none_here = rw gone at e in cc
    | inr (p, f) ↦ of_post p f (rw f at e)
  ]
    where
      of_user : (p : PostRow) (o : Option UserRow) → with_author make p o ≡ some r → r.id ≡ p.id
      of_user p none e = cc
      of_user p (some u) e = let its = same p u in ground arith

      of_post :
          (p : PostRow)
          → find_post j db.posts ≡ some p
          → with_author make p (find_user p.user_id db.users) ≡ some r
          → r.id ≡ j
      of_post p f e = of_user p (find_user p.user_id db.users) e ∙ find_post-id j db.posts f

  module _ (view : ℕ → Option Post) where
    abbrev pub row_at : ℕ → Option PostInfo
    row_at id = joined make db (find_post id db.posts)

    pub quoted_view-keyed :
        (j : ℕ) (q : Post) → quoted_view view (row_at j) ≡ some q → post_id q ≡ j
    quoted_view-keyed j q e = by_row (row_at j) refl e
      where
        by_row : (o : Option PostInfo) → row_at j ≡ o → quoted_view view o ≡ some q → post_id q ≡ j
        by_row none f e = cc
        by_row (some r) f e =
            ap post_id (sym (some_inj e))
            ∙ quote-id r (original_view view (quoted_id r))
            ∙ joined-id j f
          where
            some_inj : {x y : Post} → some x ≡ some y → x ≡ y
            some_inj h = cc

    module _ (keyed : (j : ℕ) (q : Post) → view j ≡ some q → post_id q ≡ j) (ids : List ℕ) where
      abbrev pub originals : List Post
      originals = collect view (collect quoted_id (collect row_at ids))

      attach_row :
          (j : ℕ)
          → contains j ids ≡ true
          → lift (attach originals) (row_at j) ≡ quoted_view view (row_at j)
      unfolding attach
      attach_row j m = by_row (row_at j) refl
        where
          original :
              (r : PostInfo)
              → row_at j ≡ some r
              → (o : Option ℕ) → quoted_id r ≡ o
              → original_in originals o ≡ original_view view o
          original r e none q = refl
          original r e (some o) q =
              let listed = contains-collect row_at quoted_id j o r e q ids m in
              find-collect view post_id o keyed (collect quoted_id (collect row_at ids))
              ∙ (rw listed refl)

          by_row :
              (o : Option PostInfo) → row_at j ≡ o → lift (attach originals) o ≡ quoted_view view o
          by_row none e = refl
          by_row (some r) e = ap (λ q. some (quote r q)) (original r e (quoted_id r) refl)

      -- What the level returns, from complete rows and the originals' posts.
      pub level_posts :
          in_order ids (map (attach originals) (collect row_at ids))
          ≡ collect (λ id. quoted_view view (row_at id)) ids
      unfolding in_order
      level_posts =
          let posts = collect (λ id. quoted_view view (row_at id)) ids in
          let attached : map (attach originals) (collect row_at ids) ≡ posts =
            map-collect row_at (attach originals) ids ∙ collect-congr _ _ ids attach_row in
          rw attached (
            collect-congr (λ id. find (λ (p : Post). post_id p == id) posts)
              (λ id. quoted_view view (row_at id)) ids
              (λ j m.
                find-collect (λ id. quoted_view view (row_at id)) post_id j quoted_view-keyed ids
                ∙ (rw m refl)))
