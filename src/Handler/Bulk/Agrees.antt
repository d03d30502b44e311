-- ===== src/Handler/Bulk/Agrees.antt =====
-- The bulk reader against fetchPost of handler.go, post by post.
use sakura_intern_team_e.Prelude.{
  ℕ, zero, suc, ◌<◌, ◌≤◌, true, false, Option, none, some, List, [], ◌∷◌, ◌==◌, any, map, collect,
  prepend, lift, map-collect, collect-congr, All, ◌≡◌, refl, sym, ap, ◌∙◌, arith, Option-cases,
  Bool-cases, inl, inr,
}
use sakura_intern_team_e.Db.Tables.{Db, UserRow, PostRow, MarkRow, FollowRow}
use sakura_intern_team_e.Db.Errors.{DbError}
use sakura_intern_team_e.Db.Rows.{find_user, find_post, has_user, is_mark, is_follow}
use sakura_intern_team_e.Db.Invariant.{
  IsWellFormed, PostsBelow, MarkRefers, FollowRefers, has_post-PostsBelow, has_user-zero,
}
use sakura_intern_team_e.Model.{PostInfo, Post, plain, quoting}
use sakura_intern_team_e.Action.{World, Act, ok, pure, try, ◌>>=◌}
use sakura_intern_team_e.Action.Calm.{IsCalm, Runs, Runs-pure, Runs-bind}
use sakura_intern_team_e.Handler.Response.{current_user_id}
use sakura_intern_team_e.Handler.Fetch.{is_positive, original_of, quote, or_nil, fetch_post}
use sakura_intern_team_e.Handler.Bulk.{max_repost_depth, fetch_posts_bulk}
use sakura_intern_team_e.Handler.Bulk.View.{
  user_view, original_view, info_view, post_view, try_original, fetch_post_fuel-calm,
}
use sakura_intern_team_e.Handler.Bulk.Complete.{find_post-id}
use sakura_intern_team_e.Handler.Bulk.Level.{full_info}
use sakura_intern_team_e.Handler.Bulk.Calm.{bulk_view, bulk-calm}

-- A post with its originals cut off below a depth.
abbrev pub prune : ℕ → Post → Post
prune zero (plain p) = plain p
prune zero (quoting p o) = plain p
prune (suc n) (plain p) = plain p
prune (suc n) (quoting p o) = quoting p (prune n o)

-- The reference: fetchPost for each id, skipping those that fail.
unfoldable pub fetch_each : Option ℕ → List ℕ → ℕ → Act DbError (List Post)
fetch_each auth [] viewer = pure []
fetch_each auth (id ∷ ids) viewer = do
  post ← try (fetch_post auth id viewer) >>= or_nil
  posts ← fetch_each auth ids viewer
  pure (prepend post posts)

-- Nobody, or a user with an id as AUTO_INCREMENT gives it.
abbrev pub IsViewer : Option ℕ → Type 0
IsViewer none = Unit {0}
IsViewer (some me) = is_positive me ≡ true

prune-quote :
    (n : ℕ) (p : PostInfo) (o : Option Post)
    → prune (suc n) (quote p o) ≡ quote p (lift (prune n) o)
prune-quote n p none = refl
prune-quote n p (some o) = refl

prune-last : (p : PostInfo) (o : Option Post) → prune zero (quote p o) ≡ plain p
prune-last p none = refl
prune-last p (some o) = refl

quote-missing : (p : PostInfo) (o : Option ℕ) → quote p (original_view (λ i. none) o) ≡ plain p
quote-missing p none = refl
quote-missing p (some o) = refl

original-older :
    (bound id o : ℕ) (ps : List PostRow) {p : PostRow}
    → PostsBelow bound ps
    → find_post id ps ≡ some p
    → p.original_post_id ≡ some o
    → o < p.id
original-older bound id o [] h f e = cc
original-older bound id o (q ∷ ps) {p} h f e =
    grind (arith, original-older q.id id o ps {p = p} h.4, has_post-PostsBelow q.id o ps h.4)

original_of-original : (p : PostRow) (o : ℕ) → original_of p ≡ some o → p.original_post_id ≡ some o
original_of-original p o e = elim (Option-cases p.original_post_id) [
  | inl without ↦ let nothing = rw without at e in cc
  | inr (q, h) ↦ elim (Bool-cases p.is_repost) [
    | inl a ↦ let c = rw h at e in ground arith
    | inr b ↦ let c = rw h at e in ground arith
  ]
]

pub original-less :
    (db : Db)
    → IsWellFormed db
    → (id o : ℕ) (p : PostRow) → find_post id db.posts ≡ some p
    → original_of p ≡ some o
    → o < id
original-less db wf id o p e q =
    let older =
      original-older db.next_post id o db.posts {p = p} wf.posts_below e
        (original_of-original p o q) in
    let its = find_post-id id db.posts e in omega (arith, older, its)

module _ (db : Db) (nobody : has_user 0 db.users ≡ false) where
  guest-marks :
      (post : ℕ) (ms : List MarkRow) → All (MarkRefers db) ms → any (is_mark 0 post) ms ≡ false
  guest-marks post [] h = refl
  guest-marks post (m ∷ ms) h = grind (arith, guest-marks post ms h.1, h.0.0)

  guest-follows :
      (id : ℕ) (fs : List FollowRow) → All (FollowRefers db) fs → any (is_follow 0 id) fs ≡ false
  guest-follows id [] h = refl
  guest-follows id (f ∷ fs) h = grind (arith, guest-follows id fs h.1, h.0.0)

  module _ (wf : IsWellFormed db) where
    same_info :
        (auth : Option ℕ)
        → IsViewer auth
        → (p : PostRow) (u : UserRow)
        → info_view db auth (current_user_id auth) p u
          ≡ full_info db (current_user_id auth) (current_user_id auth) p u
    unfolding info_view user_view
    same_info none h p u =
        let unliked = guest-marks p.id db.likes wf.likes_refer in
        let unreposted = guest-marks p.id db.reposts wf.marks_refer in
        let unfollowed = guest-follows u.id db.follows wf.follows_refer in
        elim (Bool-cases (u.id == 0)) [
          | inl e ↦ rw (unliked, unreposted, e) refl
          | inr e ↦ rw (unliked, unreposted, unfollowed, e) refl
        ]
    same_info (some me) h p u = elim (Bool-cases (me == u.id)) [
      | inl e ↦ let back : (u.id == me) ≡ true = ground arith in rw (h, e, back) refl
      | inr e ↦ let back : (u.id == me) ≡ false = ground arith in rw (h, e, back) refl
    ]

    module _ (auth : Option ℕ) (h : IsViewer auth) where
      abbrev reader : ℕ
      reader = current_user_id auth

      original-below :
          (f id o : ℕ) (p : PostRow)
          → find_post id db.posts ≡ some p
          → id ≤ f
          → original_of p ≡ some o
          → o < f
      original-below f id o p e l q =
          let less = original-less db wf id o p e q in omega (arith, less, l)

      same_originals :
          (n f : ℕ)
          → ((o : ℕ)
              → o < f
              → lift (prune n) (post_view db auth reader f o) ≡ bulk_view db auth reader n o)
          → (x : Option ℕ) → ((o : ℕ) → x ≡ some o → o < f)
          → lift (prune n) (original_view (λ o. post_view db auth reader f o) x)
            ≡ original_view (λ o. bulk_view db auth reader n o) x
      same_originals n f each none below = refl
      same_originals n f each (some o) below = each o (below o refl)

      -- One post, with enough fuel for its originals.
      same_post :
          (n f id : ℕ)
          → id < f
          → lift (prune n) (post_view db auth reader f id) ≡ bulk_view db auth reader n id
      unfolding post_view bulk_view
      same_post n zero id less = absurd (omega arith)
      same_post zero (suc f) id less = elim (Option-cases (find_post id db.posts)) [
        | inl gone ↦ rw gone refl
        | inr (p, e) ↦ elim (Option-cases (find_user p.user_id db.users)) [
          | inl orphan ↦ rw (e, orphan) refl
          | inr (u, k) ↦
              rw (e, k, same_info auth h p u) (ap some (prune-last _ _ ∙ sym (quote-missing _ _)))
        ]
      ]
      same_post (suc n) (suc f) id less = elim (Option-cases (find_post id db.posts)) [
        | inl gone ↦ rw gone refl
        | inr (p, e) ↦ elim (Option-cases (find_user p.user_id db.users)) [
          | inl orphan ↦ rw (e, orphan) refl
          | inr (u, k) ↦
              rw (e, k, same_info auth h p u)
                (ap some (
                  prune-quote n _ _
                  ∙ ap (quote _) (
                      same_originals n f (λ o l. same_post n f o l) (original_of p)
                        (λ o q. original-below f id o p e (omega arith) q))))
        ]
      ]

fetch_each-calm :
    (now : ℕ) (db : Db)
    → IsWellFormed db
    → (auth : Option ℕ) (viewer : ℕ) (ids : List ℕ)
    → Runs now db
        (fetch_each auth ids viewer)
        (ok (collect (λ id. post_view db auth viewer (suc id) id) ids))
        db
unfolding fetch_each fetch_post
fetch_each-calm now db wf auth viewer [] = Runs-pure []
fetch_each-calm now db wf auth viewer (id ∷ ids) =
    Runs-bind _
      (try_original now db (λ i. fetch_post auth i viewer) id (post_view db auth viewer (suc id) id)
        (fetch_post_fuel-calm now db (original-less db wf) (suc id) auth id viewer (omega arith)))
      (Runs-bind _ (fetch_each-calm now db wf auth viewer ids) (Runs-pure _))

-- On well-formed tables, for a guest or a user whose id is a positive int64, and
-- when nobody else writes and no statement fails, for any list of ids with whatever repetitions and
-- missing posts: fetchPost called for each id in turn, skipping those that fail, returns a list, and
-- fetchPostsBulk returns the same list in the same order, in which every chain of reposted
-- originals is cut off after 50 of them. Neither changes the tables.
pub fetch_posts_bulk-each :
    (now : ℕ) (auth : Option ℕ) (ids : List ℕ) (w : World)
    → IsCalm now w
    → IsWellFormed w.db
    → IsViewer auth
    → let one_by_one = fetch_each auth ids (current_user_id auth) w in
      let at_once = fetch_posts_bulk auth ids (current_user_id auth) w in
      (posts : List Post) × (one_by_one.0 ≡ ok posts)
      × (at_once.0 ≡ ok (map (prune max_repost_depth) posts))
      × (one_by_one.1.db ≡ w.db)
      × (at_once.1.db ≡ w.db)
unfolding fetch_posts_bulk
fetch_posts_bulk-each now auth ids w calm wf h =
    let nobody = has_user-zero w.db.next_user w.db.users wf.users_below in
    let v = current_user_id auth in
    let slow = (fetch_each-calm now w.db wf auth v ids).at w calm refl in
    let fast = (bulk-calm now w.db auth v max_repost_depth ids).at w calm refl in
    let posts = collect (λ id. post_view w.db auth v (suc id) id) ids in
    let same : map (prune max_repost_depth) posts
        ≡ collect (bulk_view w.db auth v max_repost_depth) ids =
      map-collect (λ id. post_view w.db auth v (suc id) id) (prune max_repost_depth) ids
      ∙ collect-congr _ _ ids
          (λ id m. same_post w.db nobody wf auth h max_repost_depth (suc id) id (omega arith)) in
    (posts, slow.0, fast.0 ∙ ap ok (sym same), slow.1, fast.1)
