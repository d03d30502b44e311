-- ===== src/Db/Invariant.antt =====
-- What the schema of app/backend/migrations/ and the handlers together keep true of the tables.
use sakura_intern_team_e.Prelude.{
  ℕ, ◌≡◌, ◌≤◌, ◌<◌, refl, Bool, true, false, List, [], ◌∷◌, Option, none, some, arith, ◌==◌, ltb,
  leb, any, filter, length, All,
}
use sakura_intern_team_e.Db.Tables.{Text, Db, UserRow, PostRow, MarkRow, FollowRow, NotificationRow}
use sakura_intern_team_e.Db.Rows.{
  has_user, has_post, is_mark, is_follow, is_repost_of, is_notification, refers,
}

-- No two rows agree on a key: no later row of the list answers the key test of an earlier one.
abbrev pub Unique {ℓ} : {A : Type ℓ} → (A → A → Bool) → List A → Type 0
Unique same [] = Unit
Unique same (x ∷ xs) = (any (same x) xs ≡ false) × Unique same xs

abbrev pub same_mark : MarkRow → MarkRow → Bool
same_mark m = is_mark m.user_id m.post_id

abbrev pub same_follow : FollowRow → FollowRow → Bool
same_follow f = is_follow f.follower_id f.followee_id

abbrev pub same_notification : NotificationRow → NotificationRow → Bool
same_notification n = is_notification n.user_id n.ntype n.actor_id n.post_id

abbrev pub same_repost : PostRow → PostRow → Bool
same_repost p q = elim p.original_post_id [ none ↦ false | some id ↦ is_repost_of p.user_id id q ]

-- NULL, or an id below the bound.
abbrev pub is_older : Option ℕ → ℕ → Bool
is_older none bound = true
is_older (some id) bound = ltb id bound

-- CHECK (content IS NULL OR CHAR_LENGTH(content) <= 140)
abbrev pub content_fits : Option Text → Bool
content_fits none = true
content_fits (some t) = leb (length t) 140

-- Posts, newest first: ids are positive and fall along the list below a bound, a repost's original
-- stands further down, and a reply's parent has a smaller id, whether it still exists or not.
abbrev pub PostsBelow : ℕ → List PostRow → Type 0
PostsBelow bound [] = Unit {0}
PostsBelow bound (p ∷ ps) =
    (p.id < bound)
    × (0 < p.id)
    × (refers p.original_post_id ps ≡ true)
    × (is_older p.parent_post_id p.id ≡ true)
    × PostsBelow p.id ps

-- Users, newest first: ids are positive and fall along the list below a bound.
abbrev pub UsersBelow : ℕ → List UserRow → Type 0
UsersBelow bound [] = Unit {0}
UsersBelow bound (u ∷ us) = (u.id < bound) × (0 < u.id) × UsersBelow u.id us

abbrev pub MarkRefers : Db → MarkRow → Type 0
MarkRefers db m = (has_user m.user_id db.users ≡ true) × (has_post m.post_id db.posts ≡ true)

abbrev pub FollowRefers : Db → FollowRow → Type 0
FollowRefers db f =
    (has_user f.follower_id db.users ≡ true) × (has_user f.followee_id db.users ≡ true)

pub record IsWellFormed (db : Db) : Type 0 where
  pub next_user_positive : 0 < db.next_user
  pub users_below : UsersBelow db.next_user db.users
  pub next_positive : 0 < db.next_post
  pub posts_below : PostsBelow db.next_post db.posts
  pub post_authors : All (λ (p : PostRow). has_user p.user_id db.users ≡ true) db.posts
  pub post_contents : All (λ (p : PostRow). content_fits p.content ≡ true) db.posts
  pub reposts_once : Unique same_repost db.posts
  pub likes_once : Unique same_mark db.likes
  pub likes_refer : All (MarkRefers db) db.likes
  pub marks_once : Unique same_mark db.reposts
  pub marks_refer : All (MarkRefers db) db.reposts
  pub follows_once : Unique same_follow db.follows
  pub follows_refer : All (FollowRefers db) db.follows
  pub follows_others : All (λ (f : FollowRow). (f.follower_id == f.followee_id) ≡ false) db.follows
  pub notifications_once : Unique same_notification db.notifications
  pub notifications_others :
      All (λ (n : NotificationRow). (n.user_id == n.actor_id) ≡ false) db.notifications
  pub notifications_refer :
      All (λ (n : NotificationRow). refers n.post_id db.posts ≡ true) db.notifications

module _ {A : Type 0} where
  pub any-filter : (p q : A → Bool) (xs : List A) → any p xs ≡ false → any p (filter q xs) ≡ false
  any-filter p q [] h = refl
  any-filter p q (x ∷ xs) h = ground (arith, any-filter p q xs)

  pub filter-Unique :
      (same : A → A → Bool) (q : A → Bool) (xs : List A)
      → Unique same xs
      → Unique same (filter q xs)
  filter-Unique same q [] u = tt
  filter-Unique same q (x ∷ xs) u =
      ground (arith, filter-Unique same q xs u.1, any-filter (same x) q xs u.0)

  pub filter-All : (P : A → Type 0) (q : A → Bool) (xs : List A) → All P xs → All P (filter q xs)
  filter-All P q [] h = tt
  filter-All P q (x ∷ xs) h = ground (arith, filter-All P q xs h.1)

  pub All-mono : (P Q : A → Type 0) (xs : List A) → ((x : A) → P x → Q x) → All P xs → All Q xs
  All-mono P Q [] f h = tt
  All-mono P Q (x ∷ xs) f h = (f x h.0, All-mono P Q xs f h.1)

-- A row that refers to a post still does after a new post.
pub refers-cons :
    (id : Option ℕ) (p : PostRow) (ps : List PostRow)
    → refers id ps ≡ true
    → refers id (p ∷ ps) ≡ true
refers-cons none p ps h = refl
refers-cons (some id) p ps h = ground arith

-- An id at or above the bound belongs to no post.
pub has_post-PostsBelow :
    (bound id : ℕ) (ps : List PostRow) → PostsBelow bound ps → bound ≤ id → has_post id ps ≡ false
has_post-PostsBelow bound id [] b h = refl
has_post-PostsBelow bound id (p ∷ ps) b h = ground (arith, has_post-PostsBelow p.id id ps b.4)

-- An id at or above the bound belongs to no user, nor does 0.
pub has_user-UsersBelow :
    (bound id : ℕ) (us : List UserRow) → UsersBelow bound us → bound ≤ id → has_user id us ≡ false
has_user-UsersBelow bound id [] b h = refl
has_user-UsersBelow bound id (u ∷ us) b h = ground (arith, has_user-UsersBelow u.id id us b.2)

pub has_user-zero : (bound : ℕ) (us : List UserRow) → UsersBelow bound us → has_user 0 us ≡ false
has_user-zero bound [] b = refl
has_user-zero bound (u ∷ us) b = ground (arith, has_user-zero u.id us b.2)
