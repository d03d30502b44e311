-- ===== src/Db/Cascade.antt =====
-- Deleting posts under the foreign keys of app/backend/migrations/006_fk_constraints.sql: reposts of
-- a deleted post, and the likes, repost marks and notifications that refer to one, go with it
-- (ON DELETE CASCADE); replies stay, since parent_post_id has no foreign key.
use sakura_intern_team_e.Prelude.{
  ℕ, ◌≡◌, ◌≤◌, refl, Bool, true, false, not, ◌||◌, List, [], ◌∷◌, arith, if◌then◌else◌, any, filter,
  All,
}
use sakura_intern_team_e.Db.Tables.{Db, UserRow, PostRow, MarkRow, NotificationRow}
use sakura_intern_team_e.Db.Rows.{has_post, has_user, refers}
use sakura_intern_team_e.Db.Invariant.{
  IsWellFormed, Unique, same_repost, same_mark, same_notification, PostsBelow, filter-Unique,
  filter-All, MarkRefers,
}

-- The posts that are left: those that are not deleted and whose original, an older post, is left.
unfoldable pub kept : (PostRow → Bool) → List PostRow → List PostRow
kept doomed [] = []
kept doomed (p ∷ ps) =
    let rest = kept doomed ps in
    if doomed p || not (refers p.original_post_id rest) then rest else p ∷ rest

unfoldable pub delete_posts : (PostRow → Bool) → Db → Db
delete_posts doomed db = record db {
  posts = kept doomed db.posts;
  likes = filter (λ (m : MarkRow). has_post m.post_id (kept doomed db.posts)) db.likes;
  reposts = filter (λ (m : MarkRow). has_post m.post_id (kept doomed db.posts)) db.reposts;
  notifications =
      filter (λ (n : NotificationRow). refers n.post_id (kept doomed db.posts)) db.notifications;
}

PostsBelow-mono : (b c : ℕ) (ps : List PostRow) → b ≤ c → PostsBelow b ps → PostsBelow c ps
PostsBelow-mono b c [] h p = tt
PostsBelow-mono b c (x ∷ ps) h p = (omega arith, p.1, p.2, p.3, p.4)

module _ (doomed : PostRow → Bool) where
  kept-PostsBelow : (b : ℕ) (ps : List PostRow) → PostsBelow b ps → PostsBelow b (kept doomed ps)
  unfolding kept
  kept-PostsBelow b [] h = tt
  kept-PostsBelow b (p ∷ ps) h =
      ground (arith, kept-PostsBelow p.id ps h.4, PostsBelow-mono p.id b (kept doomed ps))

  kept-All : (P : PostRow → Type 0) (ps : List PostRow) → All P ps → All P (kept doomed ps)
  unfolding kept
  kept-All P [] h = tt
  kept-All P (p ∷ ps) h = ground (arith, kept-All P ps h.1)

  any-kept :
      (t : PostRow → Bool) (ps : List PostRow) → any t ps ≡ false → any t (kept doomed ps) ≡ false
  unfolding kept
  any-kept t [] h = refl
  any-kept t (p ∷ ps) h = ground (arith, any-kept t ps)

  kept-Unique :
      (same : PostRow → PostRow → Bool) (ps : List PostRow)
      → Unique same ps
      → Unique same (kept doomed ps)
  unfolding kept
  kept-Unique same [] h = tt
  kept-Unique same (p ∷ ps) h = ground (arith, kept-Unique same ps h.1, any-kept (same p) ps h.0)

  -- What is deleted is gone.
  pub any-kept_doomed : (ps : List PostRow) → any doomed (kept doomed ps) ≡ false
  unfolding kept
  any-kept_doomed [] = refl
  any-kept_doomed (p ∷ ps) = ground (arith, any-kept_doomed ps)

marks-refer :
    (users : List UserRow) (posts : List PostRow) (ms : List MarkRow)
    → All (λ (m : MarkRow). has_user m.user_id users ≡ true) ms
    → All
        (λ (m : MarkRow). (has_user m.user_id users ≡ true) × (has_post m.post_id posts ≡ true))
        (filter (λ (m : MarkRow). has_post m.post_id posts) ms)
marks-refer users posts [] h = tt
marks-refer users posts (m ∷ ms) h = ground (arith, marks-refer users posts ms h.1)

marks-users :
    (db : Db) (ms : List MarkRow)
    → All (MarkRefers db) ms
    → All (λ (m : MarkRow). has_user m.user_id db.users ≡ true) ms
marks-users db [] h = tt
marks-users db (m ∷ ms) h = (h.0.0, marks-users db ms h.1)

notifications-refer :
    (posts : List PostRow) (ns : List NotificationRow)
    → All
        (λ (n : NotificationRow). refers n.post_id posts ≡ true)
        (filter (λ (n : NotificationRow). refers n.post_id posts) ns)
notifications-refer posts [] = tt
notifications-refer posts (n ∷ ns) = ground (arith, notifications-refer posts ns)

-- Deleting any posts, with the rows that the schema deletes with them, leaves well-formed tables well
-- formed: ids are in order; the posts left have their authors and originals; the likes, repost marks and
-- notifications left have their posts, likes, marks and follows their users; likes, marks, follows, repost
-- posts and notifications stand once each.
pub delete_posts-IsWellFormed :
    (doomed : PostRow → Bool) (db : Db) → IsWellFormed db → IsWellFormed (delete_posts doomed db)
unfolding delete_posts
delete_posts-IsWellFormed doomed db v = record {
  next_user_positive = v.next_user_positive;
  users_below = v.users_below;
  next_positive = v.next_positive;
  posts_below = kept-PostsBelow doomed db.next_post db.posts v.posts_below;
  post_authors = kept-All doomed _ db.posts v.post_authors;
  post_contents = kept-All doomed _ db.posts v.post_contents;
  reposts_once = kept-Unique doomed same_repost db.posts v.reposts_once;
  likes_once = filter-Unique same_mark _ db.likes v.likes_once;
  likes_refer = marks-refer db.users _ db.likes (marks-users db db.likes v.likes_refer);
  marks_once = filter-Unique same_mark _ db.reposts v.marks_once;
  marks_refer = marks-refer db.users _ db.reposts (marks-users db db.reposts v.marks_refer);
  follows_once = v.follows_once;
  follows_refer = v.follows_refer;
  follows_others = v.follows_others;
  notifications_once = filter-Unique same_notification _ db.notifications v.notifications_once;
  notifications_others = filter-All _ _ db.notifications v.notifications_others;
  notifications_refer = notifications-refer _ db.notifications;
}
