-- ===== src/Db/Rows.antt =====
-- Rows found by their keys, as the WHERE clauses of the handlers find them.
use sakura_intern_team_e.Prelude.{
  ℕ, Bool, List, Option, none, some, true, false, ◌==◌, ◌&&◌, any, find, if◌then◌else◌, ◌≡◌, refl,
  arith, [], ◌∷◌, All,
}
use sakura_intern_team_e.Db.Tables.{
  UserRow, PostRow, MarkRow, FollowRow, NotificationRow, NotificationType, same_type, null_safe_eq,
  sql_eq,
}

-- users.id = ?
abbrev pub has_user : ℕ → List UserRow → Bool
has_user id = any (λ (u : UserRow). u.id == id)

-- posts.id = ?
abbrev pub has_post : ℕ → List PostRow → Bool
has_post id = any (λ (p : PostRow). p.id == id)

abbrev pub find_user : ℕ → List UserRow → Option UserRow
find_user id = find (λ (u : UserRow). u.id == id)

abbrev pub find_post : ℕ → List PostRow → Option PostRow
find_post id = find (λ (p : PostRow). p.id == id)

-- user_id = ? AND post_id = ?
abbrev pub is_mark : ℕ → ℕ → MarkRow → Bool
is_mark user post m = m.user_id == user && m.post_id == post

abbrev pub is_follow : ℕ → ℕ → FollowRow → Bool
is_follow follower followee f = f.follower_id == follower && f.followee_id == followee

-- user_id = ? AND original_post_id = ?
abbrev pub is_repost_of : ℕ → ℕ → PostRow → Bool
is_repost_of user original p = p.user_id == user && sql_eq p.original_post_id original

-- n.user_id = ? AND n.type = ? AND n.actor_id = ? AND n.post_id <=> ?
abbrev pub is_notification : ℕ → NotificationType → ℕ → Option ℕ → NotificationRow → Bool
is_notification user t actor post n =
    n.user_id == user && same_type n.ntype t && n.actor_id == actor && null_safe_eq n.post_id post

-- A nullable reference finds its row; NULL refers to nothing.
abbrev pub refers : Option ℕ → List PostRow → Bool
refers none posts = true
refers (some id) posts = has_post id posts

-- SELECT user_id FROM posts WHERE id = ?
unfoldable pub owner_of : ℕ → List PostRow → Option ℕ
owner_of post [] = none
owner_of post (p ∷ ps) = if p.id == post then some p.user_id else owner_of post ps

pub owner_of-has_post :
    (post owner : ℕ) (ps : List PostRow) → owner_of post ps ≡ some owner → has_post post ps ≡ true
unfolding owner_of
owner_of-has_post post owner [] e = cc
owner_of-has_post post owner (p ∷ ps) e = ground (arith, owner_of-has_post post owner ps)

pub owner_of-none :
    (post : ℕ) (ps : List PostRow) → owner_of post ps ≡ none → has_post post ps ≡ false
unfolding owner_of
owner_of-none post [] e = refl
owner_of-none post (p ∷ ps) e = ground (arith, owner_of-none post ps)

pub owner_of-known :
    (post owner : ℕ) (users : List UserRow) (ps : List PostRow)
    → All (λ (p : PostRow). has_user p.user_id users ≡ true) ps
    → owner_of post ps ≡ some owner
    → has_user owner users ≡ true
unfolding owner_of
owner_of-known post owner users [] h e = cc
owner_of-known post owner users (p ∷ ps) h e = grind (arith, owner_of-known post owner users ps h.1)
