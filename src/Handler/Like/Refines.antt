-- ===== src/Handler/Like/Refines.antt =====
-- The likes as a set of pairs: what any sequence of Like and Unlike requests does to it.
use sakura_intern_team_e.Prelude.{
  ℕ, Bool, true, false, none, some, List, [], ◌∷◌, ◌==◌, ◌&&◌, ◌||◌, not, any, All, ◌≡◌, refl, ◌∙◌,
  arith, Option-cases, Bool-cases, inl, inr,
}
use sakura_intern_team_e.Db.Tables.{Db, MarkRow, PostRow, UserRow, NotificationType}
use sakura_intern_team_e.Db.Rows.{
  is_mark, has_user, has_post, owner_of, owner_of-has_post, owner_of-none,
}
use sakura_intern_team_e.Db.Invariant.{IsWellFormed}
use sakura_intern_team_e.Action.{World, err}
use sakura_intern_team_e.Action.Calm.{
  IsCalm, calm-Upholds, Runs, Runs-bind_err, Runs-or_else_err, Runs-raise, reply_db,
}
use sakura_intern_team_e.Action.Calm.Rows.{Runs-no_row}
use sakura_intern_team_e.Notify.Publish.{insert_event}
use sakura_intern_team_e.Handler.Response.{respond_error}
use sakura_intern_team_e.Handler.Notification.Calm.{notified, announced, with_notification}
use sakura_intern_team_e.Handler.Like.{like, unlike, delete_like}
use sakura_intern_team_e.Handler.Like.Tables.{like-Keeps, unlike-Keeps}
use sakura_intern_team_e.Handler.Like.Calm.{liked, liking, like-calm, unlike-calm, notified-likes}
use sakura_intern_team_e.Handler.Like.Idempotence.{users-liking, unlike-exact}

-- A request of a user about a post.
pub data LikeRequest : Type 0 where
  gives takes : ℕ → ℕ → LikeRequest

abbrev pub requester : LikeRequest → ℕ
requester (gives user post) = user
requester (takes user post) = user

-- The specification: a set of pairs of a user and a post.
abbrev pub Likes : Type 0
Likes = ℕ → ℕ → Bool

abbrev pub specified : List PostRow → LikeRequest → Likes → Likes
specified posts (gives user post) set u p =
    set u p || (has_post post posts && u == user && p == post)
specified posts (takes user post) set u p = set u p && not (u == user && p == post)

abbrev pub specified_all : List PostRow → List LikeRequest → Likes → Likes
specified_all posts [] set = set
specified_all posts (r ∷ rs) set = specified_all posts rs (specified posts r set)

-- The handlers.
abbrev pub requested : LikeRequest → World → World
requested (gives user post) w = (like (some user) (some post) w).1
requested (takes user post) w = (unlike (some user) (some post) w).1

abbrev pub requested_all : List LikeRequest → World → World
requested_all [] w = w
requested_all (r ∷ rs) w = requested_all rs (requested r w)

-- The table stands for the set.
abbrev pub IsTableOf : Likes → Db → Type 0
IsTableOf set db = (u p : ℕ) → any (is_mark u p) db.likes ≡ set u p

has_already :
    (user post u p : ℕ) (likes : List MarkRow)
    → any (is_mark user post) likes ≡ true
    → any (is_mark u p) likes ≡ (any (is_mark u p) likes || (u == user && p == post))
has_already user post u p likes h = elim (Bool-cases (u == user && p == post)) [
  | inl same ↦
      let user_is : user ≡ u = ground arith in
      let post_is : post ≡ p = ground arith in
      let found : any (is_mark u p) likes ≡ true = rw (user_is, post_is) at h in ground arith
  | inr other ↦ ground arith
]

any-liked_exact :
    (user post now u p : ℕ) (db : Db)
    → any (is_mark u p) (liked user post now db).likes
      ≡ (any (is_mark u p) db.likes || (u == user && p == post))
unfolding liked
any-liked_exact user post now u p db = elim (Bool-cases (any (is_mark user post) db.likes)) [
  | inl there ↦ rw there (has_already user post u p db.likes there)
  | inr new ↦ rw new (ground arith)
]

like-missing :
    (now user post : ℕ) (db : Db)
    → owner_of post db.posts ≡ none
    → Runs now db (like (some user) (some post)) (err (respond_error 404 "post not found")) db
unfolding like
like-missing now user post db e =
    Runs-bind_err _ (Runs-or_else_err _ (Runs-no_row (λ d. owner_of post d.posts) e) (Runs-raise _))

posts-liking :
    (owner user post now : ℕ) (db : Db) → (liking owner user post now db).posts ≡ db.posts
unfolding notified announced with_notification insert_event liked
posts-liking owner user post now db = ground arith

likes-liking :
    (owner user post now u p : ℕ) (db : Db)
    → any (is_mark u p) (liking owner user post now db).likes
      ≡ (any (is_mark u p) db.likes || (u == user && p == post))
likes-liking owner user post now u p db =
    rw (notified-likes owner NotificationType.like user (some post) now (liked user post now db))
      (any-liked_exact user post now u p db)

posts-unliked :
    (user post now : ℕ) (db : Db) → (reply_db db (delete_like user post now db)).posts ≡ db.posts
unfolding delete_like
posts-unliked user post now db = refl

users-unliked :
    (user post now : ℕ) (db : Db) → (reply_db db (delete_like user post now db)).users ≡ db.users
unfolding delete_like
users-unliked user post now db = refl

or_false : (b : Bool) → b ≡ (b || false)
or_false true = refl
or_false false = refl

-- What a request needs, and leaves for the next one.
pub record IsReady (now : ℕ) (posts : List PostRow) (users : List UserRow) (w : World)
    : Type 0 where
  pub calm : IsCalm now w
  pub formed : IsWellFormed w.db
  pub same_posts : w.db.posts ≡ posts
  pub same_users : w.db.users ≡ users

module _ (now : ℕ) (posts : List PostRow) (users : List UserRow) where
  -- One request does to the table what the specification does to the set.
  requested-step :
      (r : LikeRequest) (set : Likes) (w : World)
      → IsReady now posts users w
      → has_user (requester r) users ≡ true
      → IsTableOf set w.db
      → IsReady now posts users (requested r w)
        × IsTableOf (specified posts r set) (requested r w).db
  requested-step (gives user post) set w ready known t =
      let there : has_user user w.db.users ≡ true = rw ready.same_users known in
      let kept =
        ((like-Keeps (some user) (some post)).at w
          (calm-Upholds w ready.calm ready.formed)).holds in
      elim (Option-cases (owner_of post w.db.posts)) [
        | inl gone ↦
            let run = (like-missing now user post w.db gone).at w ready.calm refl in
            let absent : has_post post posts ≡ false =
              rw (← ready.same_posts) (owner_of-none post w.db.posts gone) in
            (
              record {
                calm = run.2;
                formed = kept;
                same_posts = rw run.1 ready.same_posts;
                same_users = rw run.1 ready.same_users;
              },
              λ u p. rw (run.1, absent) (t u p ∙ or_false (set u p)),
            )
        | inr (owner, owned) ↦
            let run =
              (like-calm now owner user post w.db ready.formed there owned).at w ready.calm refl in
            let present : has_post post posts ≡ true =
              rw (← ready.same_posts) (owner_of-has_post post owner w.db.posts owned) in
            (
              record {
                calm = run.2;
                formed = kept;
                same_posts = rw (run.1, posts-liking owner user post now w.db) ready.same_posts;
                same_users = rw (run.1, users-liking owner user post now w.db) ready.same_users;
              },
              λ u p. rw (run.1, present, likes-liking owner user post now u p w.db, t u p) refl,
            )
      ]
  requested-step (takes user post) set w ready known t =
      let run = (unlike-calm now user post w.db).at w ready.calm refl in
      let kept =
        ((unlike-Keeps (some user) (some post)).at w
          (calm-Upholds w ready.calm ready.formed)).holds in
      (
        record {
          calm = run.2;
          formed = kept;
          same_posts = rw run.1 (posts-unliked user post now w.db ∙ ready.same_posts);
          same_users = rw run.1 (users-unliked user post now w.db ∙ ready.same_users);
        },
        λ u p. rw ((unlike-exact now user post u p w ready.calm).1, t u p) refl,
      )

  requested_all-steps :
      (rs : List LikeRequest) (set : Likes) (w : World)
      → IsReady now posts users w
      → All (λ (r : LikeRequest). has_user (requester r) users ≡ true) rs
      → IsTableOf set w.db
      → IsReady now posts users (requested_all rs w)
        × IsTableOf (specified_all posts rs set) (requested_all rs w).db
  requested_all-steps [] set w ready known t = (ready, t)
  requested_all-steps (r ∷ rs) set w ready known t =
      let step = requested-step r set w ready known.0 t in
      requested_all-steps rs (specified posts r set) (requested r w) step.0 known.1 step.1

-- The likes table refines a set of pairs of a user and a post. In a calm world with well-formed tables,
-- after any sequence of Like and Unlike requests of known users, about posts that exist or not, a like
-- stands in the table exactly where the set has its pair after the same sequence, in which Like adds the
-- pair if the post exists and Unlike takes it out; and neither the posts nor the users have changed.
pub requested_all-refines :
    (now : ℕ) (rs : List LikeRequest) (set : Likes) (w : World)
    → IsCalm now w
    → IsWellFormed w.db
    → All (λ (r : LikeRequest). has_user (requester r) w.db.users ≡ true) rs
    → IsTableOf set w.db
    → IsTableOf (specified_all w.db.posts rs set) (requested_all rs w).db
      × ((requested_all rs w).db.posts ≡ w.db.posts)
      × ((requested_all rs w).db.users ≡ w.db.users)
requested_all-refines now rs set w calm wf known t =
    let start : IsReady now w.db.posts w.db.users w = record {
      calm = calm;
      formed = wf;
      same_posts = refl;
      same_users = refl;
    } in
    let ran = requested_all-steps now w.db.posts w.db.users rs set w start known t in
    (ran.1, ran.0.same_posts, ran.0.same_users)
