-- ===== src/Seed/Insert.antt =====
-- The functions of app/backend/seed/main.go that draw rows and insert them, and main.
use sakura_intern_team_e.Prelude.{
  ℕ, zero, suc, ◌*◌, ◌+◌, Bool, true, false, Option, none, some, List, [], ◌∷◌, ◌++◌, length, take,
  drop,
}
use sakura_intern_team_e.Db.Tables.{Text, NotificationType}
use sakura_intern_team_e.Db.Errors.{DbError, runes}
use sakura_intern_team_e.Platform.{Platform, Hashed, hashed, too_long, failed}
use sakura_intern_team_e.Action.{
  Act, Query, stmt, transaction, pure, raise, fail, or_else, ◌>>=◌, ◌>>◌,
}
use sakura_intern_team_e.Handler.Post.{NewPost, plain_post}
use sakura_intern_team_e.Handler.Reply.{reply_post}
use sakura_intern_team_e.Handler.Like.{insert_like}
use sakura_intern_team_e.Handler.User.{insert_follow, insert_footprint}
use sakura_intern_team_e.Seed.{
  Ratio, reply_target, reply_continue, Stop, fatal, starved, Fill, filled, fill_starved,
  fill_outside, fill, pick, pick_other, fan_out, choose, batches, consecutive, sample_texts,
  max_reply_depth,
}
use sakura_intern_team_e.Seed.Rows.{
  insert_many, insert_sample_users, insert_sample_posts, insert_repost_or_keep, Notice,
  insert_notice, insert_reply_notices,
}

-- `if err != nil { log.Fatal(...) }`
abbrev pub fatally : {A : Type 0} → Act DbError A → Act Stop A
fatally m = or_else m (λ e. raise (fatal e))

-- `hash, _ := bcrypt.GenerateFromPassword(...)`
abbrev pub hash_or_empty : Hashed → Text
hash_or_empty (hashed t) = t
hash_or_empty too_long = []
hash_or_empty failed = []

-- insertUsers over its batches, from the j-th user on: the new ids
unfoldable pub insert_users : Platform → Text → List ℕ → ℕ → Act Stop (List ℕ)
insert_users sys password_hash [] j = pure []
insert_users sys password_hash (k ∷ ks) j = do
  first ← fatally (transaction (stmt (insert_sample_users sys password_hash (consecutive j k))))
  rest ← insert_users sys password_hash ks (j + k)
  pure (consecutive first k ++ rest)

-- The rows of a batch of insertPosts
unfoldable pub draw_posts : ℕ → List ℕ → List ℕ → Act Stop (List NewPost × List ℕ)
draw_posts zero users ds = pure ([], ds)
draw_posts (suc k) users ds = do
  user ← pick users ds
  text ← pick sample_texts user.1
  rest ← draw_posts k users text.1
  pure (plain_post user.0 text.0 ∷ rest.0, rest.1)

-- insertPosts over its batches
unfoldable pub insert_posts : List ℕ → List ℕ → List ℕ → Act Stop (List ℕ × List ℕ)
insert_posts users [] ds = pure ([], ds)
insert_posts users (k ∷ ks) ds = do
  rows ← draw_posts k users ds
  first ← fatally (transaction (stmt (insert_sample_posts rows.0)))
  rest ← insert_posts users ks rows.1
  pure (consecutive first k ++ rest.0, rest.1)

-- The rows of a batch of insertReplyBatch, one for each target
unfoldable pub draw_replies : List ℕ → List ℕ → List ℕ → Act Stop (List NewPost × List ℕ)
draw_replies users [] ds = pure ([], ds)
draw_replies users (target ∷ targets) ds = do
  user ← pick users ds
  text ← pick sample_texts user.1
  rest ← draw_replies users targets text.1
  pure (reply_post user.0 text.0 target ∷ rest.0, rest.1)

-- insertReplyBatch over its batches
unfoldable pub insert_reply_batches : List ℕ → List ℕ → List ℕ → List ℕ → Act Stop (List ℕ × List ℕ)
insert_reply_batches users [] targets ds = pure ([], ds)
insert_reply_batches users (k ∷ ks) targets ds = do
  rows ← draw_replies users (take k targets) ds
  first ← fatally (transaction (stmt (insert_sample_posts rows.0)))
  rest ← insert_reply_batches users ks (drop k targets) rows.1
  pure (consecutive first k ++ rest.0, rest.1)

-- insertReplyBatch
unfoldable pub insert_reply_batch : List ℕ → List ℕ → List ℕ → Act Stop (List ℕ × List ℕ)
insert_reply_batch users targets ds =
    insert_reply_batches users (batches (length targets)) targets ds

-- What a batch has collected, where it is complete.
abbrev pub collected : Fill → Act Stop (List (ℕ × ℕ) × (List (ℕ × ℕ) × List ℕ))
collected (filled ps seen ds) = pure (ps, (seen, ds))
collected fill_starved = raise starved
collected fill_outside = fail

-- The outer loop of insertFollows, insertLikes and insertReposts, by their statement for one pair
unfoldable pub insert_pairs :
    Bool
    → (ℕ × ℕ → Query Unit)
    → List ℕ
    → List ℕ
    → List ℕ
    → List (ℕ × ℕ)
    → List ℕ
    → Act Stop (List ℕ)
insert_pairs self_too insert xs ys [] seen ds = pure ds
insert_pairs self_too insert xs ys (k ∷ ks) seen ds = do
  batch ← collected (fill self_too xs ys k seen ds)
  fatally (stmt (insert_many insert batch.0))
  insert_pairs self_too insert xs ys ks batch.1.0 batch.1.1

-- insertFollows
unfoldable pub insert_follows : List ℕ → ℕ → List ℕ → Act Stop (List ℕ)
insert_follows users n ds =
    insert_pairs false (λ (p : ℕ × ℕ). insert_follow p.0 p.1) users users (batches n) [] ds

-- insertLikes
unfoldable pub insert_likes : List ℕ → List ℕ → ℕ → List ℕ → Act Stop (List ℕ)
insert_likes users posts n ds =
    insert_pairs true (λ (p : ℕ × ℕ). insert_like p.0 p.1) users posts (batches n) [] ds

-- insertReposts
unfoldable pub insert_reposts : List ℕ → List ℕ → ℕ → List ℕ → Act Stop (List ℕ)
insert_reposts users posts n ds =
    insert_pairs true insert_repost_or_keep users posts (batches n) [] ds

-- The rows of a batch of insertFootprints
unfoldable pub draw_visits : ℕ → List ℕ → List ℕ → Act Stop (List (ℕ × ℕ) × List ℕ)
draw_visits zero users ds = pure ([], ds)
draw_visits (suc k) users ds = do
  user ← pick users ds
  visitor ← pick_other users user.0 user.1
  rest ← draw_visits k users visitor.1
  pure ((user.0, visitor.0) ∷ rest.0, rest.1)

-- insertFootprints over its batches
unfoldable pub insert_footprints : List ℕ → List ℕ → List ℕ → Act Stop (List ℕ)
insert_footprints users [] ds = pure ds
insert_footprints users (k ∷ ks) ds = do
  rows ← draw_visits k users ds
  fatally (stmt (insert_many (λ (p : ℕ × ℕ). insert_footprint p.0 p.1) rows.0))
  insert_footprints users ks rows.1

-- notifTypes
abbrev pub notif_types : List NotificationType
notif_types =
    NotificationType.like ∷ NotificationType.follow ∷ NotificationType.repost
    ∷ NotificationType.footprint ∷ []

-- `ntype == "like" || ntype == "repost"`
abbrev pub has_post_id : NotificationType → Bool
has_post_id NotificationType.like = true
has_post_id NotificationType.repost = true
has_post_id NotificationType.reply = false
has_post_id NotificationType.follow = false
has_post_id NotificationType.footprint = false

abbrev pub pick_post : Bool → List ℕ → List ℕ → Act Stop (Option ℕ × List ℕ)
pick_post true posts ds = pick posts ds >>= λ p. pure (some p.0, p.1)
pick_post false posts ds = pure (none, ds)

-- The rows of a batch of insertNotifications
unfoldable pub draw_notices : ℕ → List ℕ → List ℕ → List ℕ → Act Stop (List Notice × List ℕ)
draw_notices zero users posts ds = pure ([], ds)
draw_notices (suc k) users posts ds = do
  user ← pick users ds
  actor ← pick_other users user.0 user.1
  type ← pick notif_types actor.1
  post ← pick_post (has_post_id type.0) posts type.1
  rest ← draw_notices k users posts post.1
  pure (
    record { user_id = user.0; ntype = type.0; actor_id = actor.0; post_id = post.0 } ∷ rest.0,
    rest.1,
  )

-- insertNotifications over its batches
unfoldable pub insert_notifications : List ℕ → List ℕ → List ℕ → List ℕ → Act Stop (List ℕ)
insert_notifications users posts [] ds = pure ds
insert_notifications users posts (k ∷ ks) ds = do
  rows ← draw_notices k users posts ds
  fatally (stmt (insert_many insert_notice rows.0))
  insert_notifications users posts ks rows.1

module _ (is_below : Ratio → ℕ → Bool) where
  -- The loop of insertReplies on the depths that are left; it stops without parents.
  unfoldable pub insert_depths : ℕ → List ℕ → List ℕ → List ℕ → Act Stop (List ℕ × List ℕ)
  insert_depths zero users parents ds = pure ([], ds)
  insert_depths (suc n) users [] ds = pure ([], ds)
  insert_depths (suc n) users (p ∷ ps) ds = do
    targets ← fan_out is_below (p ∷ ps) ds
    created ← insert_reply_batch users targets.0 targets.1
    next ← choose is_below reply_continue created.0 created.1
    rest ← insert_depths n users next.0 next.1
    pure (created.0 ++ rest.0, rest.1)

  -- insertReplies
  unfoldable pub insert_replies : List ℕ → List ℕ → List ℕ → Act Stop (List ℕ × List ℕ)
  insert_replies users posts ds = do
    parents ← choose is_below reply_target posts ds
    insert_depths max_reply_depth users parents.0 parents.1

  -- main up to the footprints, with its scale: the ids of users and posts, and the numbers left
  unfoldable pub seed_tables : Platform → ℕ → List ℕ → Act Stop (List ℕ × (List ℕ × List ℕ))
  seed_tables sys scale ds = do
    users ← insert_users sys (hash_or_empty (sys.hash (runes "password"))) (batches (500 * scale)) 1
    posts ← insert_posts users (batches (10000 * scale)) ds
    replies ← insert_replies users posts.0 posts.1
    ds₁ ← insert_follows users (50000 * scale) replies.1
    ds₂ ← insert_likes users posts.0 (100000 * scale) ds₁
    ds₃ ← insert_reposts users posts.0 (20000 * scale) ds₂
    ds₄ ← insert_footprints users (batches (20000 * scale)) ds₃
    pure (users, (posts.0, ds₄))

  -- main, on the number of its reply notifications
  unfoldable pub seed : Platform → ℕ → List ℕ → Act Stop ℕ
  seed sys scale ds = do
    made ← seed_tables sys scale ds
    insert_notifications made.0 made.1.0 (batches (20000 * scale)) made.1.1
    fatally (stmt insert_reply_notices)
