-- ===== src/Handler/Search/Trending.antt =====
-- What GetTrending's query lists.
use sakura_intern_team_e.Prelude.{
  ℕ, ◌<◌, ◌≤◌, ◌≡◌, refl, true, List, [], ◌∷◌, ◌==◌, map, length, count, filter, take, contains,
  All, take-All, length-take, length-filter-le, arith,
}
use sakura_intern_team_e.Db.Tables.{Db, MarkRow}
use sakura_intern_team_e.Db.Rows.{has_post}
use sakura_intern_team_e.Db.Invariant.{filter-All}
use sakura_intern_team_e.Handler.Page.{order_by}
use sakura_intern_team_e.Handler.Page.Ordered.{
  IsOrdered, order_by-IsOrdered, order_by-length, order_by-All, is_above_asym, is_above_trans,
}
use sakura_intern_team_e.Handler.Page.Groups.{distinct-All, rows_of-contains}
use sakura_intern_team_e.Handler.Search.{is_recent, like_groups, is_busier, trending_rows}

abbrev pub recent_likes_of : ℕ → Db → ℕ → ℕ
recent_likes_of now db post =
    count (λ (m : MarkRow). m.post_id == post) (filter (is_recent now) db.likes)

-- A row that is right: the number of the post's likes within the hour, which is not 0.
abbrev pub IsTrending : ℕ → Db → ℕ × ℕ → Type 0
IsTrending now db g = (g.1 ≡ recent_likes_of now db g.0) × (0 < g.1)

like_groups-All :
    (likes : List MarkRow) (ks : List ℕ)
    → All (λ k. contains k (map (λ (m : MarkRow). m.post_id) likes) ≡ true) ks
    → All
        (λ (g : ℕ × ℕ). (g.1 ≡ count (λ (m : MarkRow). m.post_id == g.0) likes) × (0 < g.1))
        (map (λ id. (id, count (λ (m : MarkRow). m.post_id == id) likes)) ks)
like_groups-All likes [] h = tt
like_groups-All likes (k ∷ ks) h = (
  (refl, rows_of-contains (λ (m : MarkRow). m.post_id) k likes h.0),
  like_groups-All likes ks h.1,
)

All-exist :
    (db : Db) (gs : List (ℕ × ℕ))
    → All
        (λ (g : ℕ × ℕ). has_post g.0 db.posts ≡ true)
        (filter (λ (g : ℕ × ℕ). has_post g.0 db.posts) gs)
All-exist db [] = tt
All-exist db (g ∷ gs) = ground (arith, All-exist db gs)

-- GetTrending's rows are at most 20, the most likes first and of the same number the newer post first;
-- each is a post of the table with the number of its likes within the last hour, and has one.
pub trending_rows-ranked :
    (now : ℕ) (db : Db)
    → let rows = trending_rows now db in
      (length rows ≤ 20)
      × IsOrdered is_busier rows
      × All (IsTrending now db) rows
      × All (λ (g : ℕ × ℕ). has_post g.0 db.posts ≡ true) rows
unfolding trending_rows
trending_rows-ranked now db =
    let recent = filter (is_recent now) db.likes in
    let groups = like_groups recent in
    let ranked = order_by is_busier groups in
    let exists = λ (g : ℕ × ℕ). has_post g.0 db.posts in
    let busiest = take 20 ranked in
    let right = like_groups-All recent _ (distinct-All (map (λ (m : MarkRow). m.post_id) recent)) in
    (
      omega (
        arith,
        order_by-length is_busier (filter exists busiest),
        length-filter-le exists busiest,
        length-take 20 ranked,
      ),
      order_by-IsOrdered is_busier (λ a b h. is_above_asym a.1 a.0 b.1 b.0 h)
          (λ a b c h k. is_above_trans a.1 a.0 b.1 b.0 c.1 c.0 h k) (filter exists busiest),
      order_by-All is_busier (IsTrending now db) (filter exists busiest) (
          filter-All (IsTrending now db) exists busiest (
            take-All (IsTrending now db) 20 ranked
              (order_by-All is_busier (IsTrending now db) groups right))),
      order_by-All is_busier (λ g. has_post g.0 db.posts ≡ true) (filter exists busiest)
          (All-exist db busiest),
    )
