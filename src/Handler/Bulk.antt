-- ===== src/Handler/Bulk.antt =====
-- fetchPostsBulk of app/backend/internal/handler/handler.go: many posts by a fixed number of queries
-- for each level of originals. A Go map keyed by post ids is the list of its values here, each of
-- which carries its id. A query with an IN list on a primary key gives a row for each id that has one;
-- an id that stands in the list again gives its row again, which changes nothing in the map.
pub mod Reads
pub mod View
pub mod Complete
pub mod Level
pub mod Calm
pub mod Agrees
use sakura_intern_team_e.Prelude.{
  ℕ, zero, suc, Bool, true, false, not, ◌&&◌, Option, none, some, List, [], ◌∷◌, ◌==◌,
  if◌then◌else◌, any, count, map, find, collect,
}
use sakura_intern_team_e.Db.Tables.{Text, Db, UserRow, PostRow, MarkRow}
use sakura_intern_team_e.Db.Errors.{DbError}
use sakura_intern_team_e.Db.Rows.{find_user, find_post, is_mark, is_follow}
use sakura_intern_team_e.Model.{User, PostInfo, Post, info, avatar_color}
use sakura_intern_team_e.Action.{
  Act, Result, ok, err, panic, stmt, pure, try, or_else, ◌>>=◌, reading,
}
use sakura_intern_team_e.Handler.Response.{current_user_id}
use sakura_intern_team_e.Handler.Fetch.{
  count_followers, count_following, count_posts, descendants_count, parent_names, quote, or_nil,
}

-- maxRepostDepth
abbrev pub max_repost_depth : ℕ
max_repost_depth = 50

-- The author's columns of the query; `follower` is the viewer's id, or 0.
abbrev pub bulk_user : ℕ → UserRow → Db → User
bulk_user follower u db = record {
  id = u.id;
  username = u.username;
  display_name = u.display_name;
  bio = u.bio;
  followers_count = count_followers u.id db;
  following_count = count_following u.id db;
  post_count = count_posts u.id db;
  avatar = avatar_color u.id;
  followed_by_me = not (u.id == follower) && any (is_follow follower u.id) db.follows;
  created_at = u.created_at;
}

-- A row of the query; the replies' number and the names of the parent's author come later.
abbrev pub bulk_info : ℕ → ℕ → PostRow → UserRow → Db → PostInfo
bulk_info viewer follower p u db = record {
  id = p.id;
  content = p.content;
  created_at = p.created_at;
  likes_count = count (λ (m : MarkRow). m.post_id == p.id) db.likes;
  reposts_count = count (λ (m : MarkRow). m.post_id == p.id) db.reposts;
  replies_count = 0;
  is_repost = p.is_repost;
  original_post_id = p.original_post_id;
  parent_post_id = p.parent_post_id;
  reply_to = none;
  author = bulk_user follower u db;
  liked_by_me = any (is_mark viewer p.id) db.likes;
  reposted_by_me = any (is_mark viewer p.id) db.reposts;
}

-- JOIN users u ON u.id = p.user_id
abbrev pub with_author : (PostRow → UserRow → PostInfo) → PostRow → Option UserRow → Option PostInfo
with_author make p none = none
with_author make p (some u) = some (make p u)

abbrev pub joined : (PostRow → UserRow → PostInfo) → Db → Option PostRow → Option PostInfo
joined make db none = none
joined make db (some p) = with_author make p (find_user p.user_id db.users)

abbrev pub joined_rows : (PostRow → UserRow → PostInfo) → Db → List ℕ → List PostInfo
joined_rows make db ids = collect (λ id. joined make db (find_post id db.posts)) ids

-- SELECT ... FROM posts p JOIN users u ... WHERE p.id IN (...)
unfoldable pub bulk_rows : ℕ → ℕ → List ℕ → Db → List PostInfo
bulk_rows viewer follower ids db = joined_rows (λ p u. bulk_info viewer follower p u db) db ids

-- A group of the recursive query: root_id never changes along it, so a group holds the descendants of
-- one root, and a root without any has no group.
abbrev pub reply_group : Db → ℕ → Option (ℕ × ℕ)
reply_group db root =
    if descendants_count root db == 0 then none else some (root, descendants_count root db)

-- SELECT root_id, COUNT(*) FROM d GROUP BY root_id
unfoldable pub reply_groups : List ℕ → Db → List (ℕ × ℕ)
reply_groups ids db = collect (reply_group db) ids

abbrev pub counted : Option (ℕ × ℕ) → PostInfo → PostInfo
counted none p = p
counted (some g) p = record p { replies_count = g.1 }

-- `byID[rootID].RepliesCount = count`
unfoldable pub set_counts : List (ℕ × ℕ) → PostInfo → PostInfo
set_counts groups p = counted (find (λ (g : ℕ × ℕ). g.0 == p.id) groups) p

-- applyRepliesCount
unfoldable pub apply_replies_count : List ℕ → List PostInfo → Act DbError (List PostInfo)
apply_replies_count ids posts =
    or_else (stmt (reading (reply_groups ids)) >>= λ groups. pure (map (set_counts groups) posts))
      (λ e. pure posts)

-- The ids of the replies among the posts.
abbrev pub reply_id : PostInfo → Option ℕ
reply_id p = elim p.parent_post_id [ none ↦ none | some parent ↦ some p.id ]

-- The parent's author, by the child's row.
abbrev pub parent_author : Option ℕ → Db → Option (Text × Text)
parent_author none db = none
parent_author (some parent) db = parent_names parent db

abbrev pub names_for : Option PostRow → Db → Option (Text × Text)
names_for none db = none
names_for (some child) db = parent_author child.parent_post_id db

abbrev pub keyed : ℕ → Option (Text × Text) → Option (ℕ × (Text × Text))
keyed id none = none
keyed id (some names) = some (id, names)

-- SELECT child.id, u.username, u.display_name ... WHERE child.id IN (...)
unfoldable pub reply_names : List ℕ → Db → List (ℕ × (Text × Text))
reply_names ids db = collect (λ id. keyed id (names_for (find_post id db.posts) db)) ids

abbrev pub named : Option (ℕ × (Text × Text)) → PostInfo → PostInfo
named none p = p
named (some n) p = record p { reply_to = some n.1 }

unfoldable pub set_names : List (ℕ × (Text × Text)) → PostInfo → PostInfo
set_names names p = named (find (λ (n : ℕ × (Text × Text)). n.0 == p.id) names) p

-- applyReplyTo, on the ids of the replies: without any it runs no query.
unfoldable pub apply_reply_to : List ℕ → List PostInfo → Act DbError (List PostInfo)
apply_reply_to [] posts = pure posts
apply_reply_to (id ∷ ids) posts =
    or_else
      (stmt (reading (reply_names (id ∷ ids))) >>= λ names. pure (map (set_names names) posts))
      (λ e. pure posts)

-- `p.IsRepost && p.OriginalPostID != nil && *p.OriginalPostID != p.ID`
abbrev pub quoted_id : PostInfo → Option ℕ
quoted_id p = elim p.original_post_id [
  | none ↦ none
  | some o ↦ if p.is_repost && not (o == p.id) then some o else none
]

abbrev pub post_id : Post → ℕ
post_id p = (info p).id

abbrev pub original_in : List Post → Option ℕ → Option Post
original_in originals none = none
original_in originals (some o) = find (λ (q : Post). post_id q == o) originals

-- `p.OriginalPost = &o`, where it was found
unfoldable pub attach : List Post → PostInfo → Post
attach originals p = quote p (original_in originals (quoted_id p))

-- What the originals' call returned; an error leaves every post without its original.
abbrev pub found_originals : Option (List Post) → List Post
found_originals none = []
found_originals (some posts) = posts

-- The recursive call on the originals, if the depth allows one.
abbrev pub fetch_originals :
    Option (List ℕ → Act DbError (List Post)) → List ℕ → Act DbError (Option (List Post))
fetch_originals none ids = pure none
fetch_originals (some fetch) ids = try (fetch ids) >>= or_nil

-- `for _, id := range postIDs { if p, found := byID[id]; found { ... } }`
unfoldable pub in_order : List ℕ → List Post → List Post
in_order ids posts = collect (λ id. find (λ (p : Post). post_id p == id) posts) ids

-- The body of fetchPostsBulkDepth for a list that is not empty, with the call for a deeper level.
unfoldable pub bulk_level :
    Option (List ℕ → Act DbError (List Post)) → Option ℕ → List ℕ → ℕ → Act DbError (List Post)
bulk_level deeper auth ids viewer = do
  rows ← stmt (reading (bulk_rows viewer (current_user_id auth) ids))
  counts ← apply_replies_count ids rows
  posts ← apply_reply_to (collect reply_id counts) counts
  originals ← fetch_originals deeper (collect quoted_id posts)
  pure (in_order ids (map (attach (found_originals originals)) posts))

abbrev pub unless_empty : (List ℕ → Act DbError (List Post)) → List ℕ → Act DbError (List Post)
unless_empty fetch [] = pure []
unless_empty fetch (id ∷ ids) = fetch (id ∷ ids)

-- fetchPostsBulkDepth, on the levels that are left, maxRepostDepth - depth
unfoldable pub fetch_posts_bulk_depth : ℕ → Option ℕ → List ℕ → ℕ → Act DbError (List Post)
fetch_posts_bulk_depth zero auth ids viewer =
    unless_empty (λ is. bulk_level none auth is viewer) ids
fetch_posts_bulk_depth (suc n) auth ids viewer =
    unless_empty
      (λ is. bulk_level (some (λ os. fetch_posts_bulk_depth n auth os viewer)) auth is viewer) ids

-- fetchPostsBulk
unfoldable pub fetch_posts_bulk : Option ℕ → List ℕ → ℕ → Act DbError (List Post)
fetch_posts_bulk auth ids viewer = fetch_posts_bulk_depth max_repost_depth auth ids viewer
