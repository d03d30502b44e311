-- ===== src/Handler/Fetch.antt =====
-- Reading users and posts: fetchUser, fetchPost, countReplies, threadRootID and pagination of
-- app/backend/internal/handler/handler.go.
pub mod ThreadRoot
pub mod Reads
use sakura_intern_team_e.Prelude.{
  ℕ, zero, suc, ◌+◌, ◌^◌, Bool, true, false, not, ◌&&◌, Option, none, some, List, [], ◌∷◌, ◌++◌,
  ◌==◌, ltb, if◌then◌else◌, any, count, length, map, filter, contains,
}
use sakura_intern_team_e.Db.Tables.{Text, Db, UserRow, PostRow, MarkRow, FollowRow, sql_eq}
use sakura_intern_team_e.Db.Errors.{DbError, other}
use sakura_intern_team_e.Db.Rows.{find_user, find_post, is_mark, is_follow}
use sakura_intern_team_e.Model.{User, PostInfo, Post, plain, quoting, avatar_color}
use sakura_intern_team_e.Action.{
  Act, Result, ok, err, panic, stmt, pure, raise, try, or_else, ◌>>=◌, ◌>>◌, reading, reading_row,
  or_zero,
}

-- `id > 0` for an int64 given by its bit pattern
abbrev pub is_positive : ℕ → Bool
is_positive id = ltb 0 id && ltb id (2 ^ 63)

abbrev pub count_followers : ℕ → Db → ℕ
count_followers id db = count (λ (f : FollowRow). f.followee_id == id) db.follows

abbrev pub count_following : ℕ → Db → ℕ
count_following id db = count (λ (f : FollowRow). f.follower_id == id) db.follows

abbrev pub count_posts : ℕ → Db → ℕ
count_posts id db = count (λ (p : PostRow). p.user_id == id) db.posts

-- `if viewerID, ok := h.currentUserID(r); ok && viewerID != u.ID`
unfoldable pub fetch_followed : Option ℕ → ℕ → Act DbError Bool
fetch_followed none id = pure false
fetch_followed (some viewer) id =
    if viewer == id
    then pure false
    else or_zero false (stmt (reading (λ db. any (is_follow viewer id) db.follows)))

-- fetchUser, with the user of the request's context
unfoldable pub fetch_user : Option ℕ → ℕ → Act DbError User
fetch_user auth id = do
  u ← stmt (reading_row (λ db. find_user id db.users))
  followers ← or_zero 0 (stmt (reading (count_followers u.id)))
  following ← or_zero 0 (stmt (reading (count_following u.id)))
  posts ← or_zero 0 (stmt (reading (count_posts u.id)))
  followed ← fetch_followed auth u.id
  pure (record {
    id = u.id;
    username = u.username;
    display_name = u.display_name;
    bio = u.bio;
    followers_count = followers;
    following_count = following;
    post_count = posts;
    avatar = avatar_color u.id;
    followed_by_me = followed;
    created_at = u.created_at;
  })

-- `WHERE parent_post_id = ...` for any of the given posts
abbrev pub replies_to : List ℕ → List PostRow → List PostRow
replies_to parents = filter (λ (p : PostRow). any (λ q. sql_eq p.parent_post_id q) parents)

abbrev pub post_ids : List PostRow → List ℕ
post_ids = map (λ (p : PostRow). p.id)

-- The recursive CTE of countReplies: the rows of each level, until a level is empty.
unfoldable pub count_levels : ℕ → List ℕ → List PostRow → ℕ
count_levels zero parents posts = 0
count_levels (suc n) parents posts = elim (replies_to parents posts) [
  | [] ↦ 0
  | p ∷ ps ↦ length (p ∷ ps) + count_levels n (post_ids (p ∷ ps)) posts
]

-- SELECT COUNT(*) FROM descendants; a level is at most as deep as there are posts.
unfoldable pub descendants_count : ℕ → Db → ℕ
descendants_count id db = count_levels (suc (length db.posts)) (id ∷ []) db.posts

-- countReplies
unfoldable pub count_replies : {E : Type 0} → ℕ → Act E ℕ
count_replies id = or_zero 0 (stmt (reading (descendants_count id)))

-- The recursive CTE of threadRootID from one row: the last row that the chain of parents reaches,
-- and COALESCE(parent_post_id, id) of it.
unfoldable pub climb : ℕ → PostRow → List PostRow → ℕ
climb zero p posts = p.id
climb (suc n) p posts = elim p.parent_post_id [
  | none ↦ p.id
  | some parent ↦ elim (find_post parent posts) [ none ↦ parent | some q ↦ climb n q posts ]
]

abbrev pub climb_from : Option PostRow → List PostRow → Option ℕ
climb_from none posts = none
climb_from (some p) posts = some (climb (suc p.id) p posts)

-- Parents have smaller ids, so an id bounds the length of the chain.
unfoldable pub thread_root : ℕ → List PostRow → Option ℕ
thread_root id posts = climb_from (find_post id posts) posts

-- threadRootID
unfoldable pub thread_root_id : {E : Type 0} → ℕ → Act E ℕ
thread_root_id id = or_zero id (stmt (reading_row (λ db. thread_root id db.posts)))

-- The viewer's own marks, read for a logged-in viewer only.
abbrev pub fetch_mark : ℕ → ℕ → (Db → List MarkRow) → Act DbError Bool
fetch_mark viewer post table =
    if is_positive viewer
    then or_zero false (stmt (reading (λ db. any (is_mark viewer post) (table db))))
    else pure false

abbrev pub names_of : Option UserRow → Option (Text × Text)
names_of none = none
names_of (some u) = some (u.username, u.display_name)

-- posts parent JOIN users u ON u.id = parent.user_id WHERE parent.id = ?
unfoldable pub parent_names : ℕ → Db → Option (Text × Text)
parent_names parent db = elim (find_post parent db.posts) [
  | none ↦ none
  | some p ↦ names_of (find_user p.user_id db.users)
]

abbrev pub or_nil : {A : Type 0} → Result DbError A → Act DbError (Option A)
or_nil (ok a) = pure (some a)
or_nil (err e) = pure none
or_nil panic = λ w. (panic, w)

unfoldable pub fetch_reply_to : Option ℕ → Act DbError (Option (Text × Text))
fetch_reply_to none = pure none
fetch_reply_to (some parent) = do r ← try (stmt (reading_row (parent_names parent))); or_nil r

abbrev pub quote : PostInfo → Option Post → Post
quote p none = plain p
quote p (some o) = quoting p o

-- The original that a repost row points to, unless it points to itself.
abbrev pub original_of : PostRow → Option ℕ
original_of p = elim p.original_post_id [
  | none ↦ none
  | some o ↦ if p.is_repost && not (o == p.id) then some o else none
]

-- `if original, err := h.fetchPost(...); err == nil { p.OriginalPost = &original }`
unfoldable pub fetch_original : (ℕ → Act DbError Post) → Option ℕ → Act DbError (Option Post)
fetch_original fetch none = pure none
fetch_original fetch (some o) = try (fetch o) >>= or_nil

-- fetchPost. Where originals are older than their reposts, the fuel `id + 1` is enough; on a cycle of
-- originals the code recurses without end, and the model, out of fuel, panics.
unfoldable pub fetch_post_fuel : ℕ → Option ℕ → ℕ → ℕ → Act DbError Post
fetch_post_fuel zero auth id viewer = λ w. (panic, w)
fetch_post_fuel (suc n) auth id viewer = do
  p ← stmt (reading_row (λ db. find_post id db.posts))
  author ← fetch_user auth p.user_id
  likes ← or_zero 0 (stmt (reading (λ db. count (λ (m : MarkRow). m.post_id == p.id) db.likes)))
  reposts ← or_zero 0 (stmt (reading (λ db. count (λ (m : MarkRow). m.post_id == p.id) db.reposts)))
  replies ← count_replies p.id
  liked ← fetch_mark viewer p.id (λ db. db.likes)
  reposted ← fetch_mark viewer p.id (λ db. db.reposts)
  reply_to ← fetch_reply_to p.parent_post_id
  original ← fetch_original (λ o. fetch_post_fuel n auth o viewer) (original_of p)
  pure (
      quote
        (record {
          id = p.id;
          content = p.content;
          created_at = p.created_at;
          likes_count = likes;
          reposts_count = reposts;
          replies_count = replies;
          is_repost = p.is_repost;
          original_post_id = p.original_post_id;
          parent_post_id = p.parent_post_id;
          reply_to = reply_to;
          author = author;
          liked_by_me = liked;
          reposted_by_me = reposted;
        })
        original)

-- fetchPost
unfoldable pub fetch_post : Option ℕ → ℕ → ℕ → Act DbError Post
fetch_post auth id viewer = fetch_post_fuel (suc id) auth id viewer
