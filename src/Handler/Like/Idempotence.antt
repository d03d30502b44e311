-- ===== src/Handler/Like/Idempotence.antt =====
-- Likes of app/backend/internal/handler/like.go as a set of marks: liking twice is liking once, and
-- unliking takes the mark away.
use sakura_intern_team_e.Prelude.{
  ℕ, true, false, Option, none, some, ◌∷◌, List, [], ◌==◌, ◌&&◌, not, arith, any, filter, ◌≡◌, refl,
  inl, inr, Bool-cases, ◌∙◌, subst, ==_refl,
}
use sakura_intern_team_e.Db.Tables.{Db, MarkRow, NotificationType, same_type_refl}
use sakura_intern_team_e.Db.Rows.{is_mark, is_notification, has_user, owner_of}
use sakura_intern_team_e.Db.Invariant.{IsWellFormed}
use sakura_intern_team_e.Action.{World, ok}
use sakura_intern_team_e.Action.Calm.{IsCalm, calm-Upholds}
use sakura_intern_team_e.Notify.Publish.{insert_event}
use sakura_intern_team_e.Handler.Response.{Body, respond_json}
use sakura_intern_team_e.Handler.Notification.Calm.{notified, announced, with_notification}
use sakura_intern_team_e.Handler.Like.{like, unlike, delete_like, count_likes}
use sakura_intern_team_e.Handler.Like.Tables.{like-Keeps}
use sakura_intern_team_e.Handler.Like.Calm.{liked, liking, like-calm, unlike-calm, notified-likes}

-- A notification that was just created answers its own test.
is_notification_self :
    (user : ℕ) (t : NotificationType) (actor : ℕ) (post : Option ℕ) (now : ℕ) (db : Db)
    → (user == actor) ≡ false
    → any (is_notification user t actor post) (notified user t actor post now db).notifications
      ≡ true
unfolding notified announced with_notification insert_event
is_notification_self user t actor none now db e =
    ground (arith, ==_refl user, ==_refl actor, same_type_refl t)
is_notification_self user t actor (some p) now db e =
    ground (arith, ==_refl user, ==_refl actor, ==_refl p, same_type_refl t)

notified_twice :
    (user : ℕ) (t : NotificationType) (actor : ℕ) (post : Option ℕ) (now later : ℕ) (db : Db)
    → notified user t actor post later (notified user t actor post now db)
      ≡ notified user t actor post now db
notified_twice user t actor post now later db = elim (Bool-cases (user == actor)) [
  | inl self ↦ unfold notified in rw self refl
  | inr other ↦
      already later (notified user t actor post now db) other
        (is_notification_self user t actor post now db other)
]
  where
    already :
        (time : ℕ) (after : Db)
        → (user == actor) ≡ false
        → any (is_notification user t actor post) after.notifications ≡ true
        → notified user t actor post time after ≡ after
    already time after e h = unfold notified in rw (e, h) refl

any-liked :
    (user post now : ℕ) (db : Db) → any (is_mark user post) (liked user post now db).likes ≡ true
unfolding liked
any-liked user post now db = ground (arith, ==_refl user, ==_refl post)

liked_again :
    (user post now : ℕ) (db : Db)
    → any (is_mark user post) db.likes ≡ true
    → liked user post now db ≡ db
unfolding liked
liked_again user post now db h = rw h

liking_twice :
    (owner user post now later : ℕ) (db : Db)
    → liking owner user post later (liking owner user post now db) ≡ liking owner user post now db
liking_twice owner user post now later db =
    let base = liking owner user post now db in
    let marked : any (is_mark user post) base.likes ≡ true =
      rw (notified-likes owner NotificationType.like user (some post) now (liked user post now db))
        (any-liked user post now db) in
    rw (liked_again user post later base marked) (
      notified_twice owner NotificationType.like user (some post) now later
        (liked user post now db))

owner_of-liking :
    (owner user post now id : ℕ) (db : Db)
    → owner_of id (liking owner user post now db).posts ≡ owner_of id db.posts
unfolding notified announced with_notification insert_event liked
owner_of-liking owner user post now id db = ground arith

pub users-liking :
    (owner user post now : ℕ) (db : Db) → (liking owner user post now db).users ≡ db.users
unfolding notified announced with_notification insert_event liked
users-liking owner user post now db = ground arith

-- When no other process writes and no statement fails, a known user who likes an existing post of a
-- well-formed database is answered 200 with the number of likes of the post. The user's like of
-- the post then stands in the table, and sending the request again gives the same answer and
-- changes nothing in the database.
pub like_idempotent :
    (now user owner post : ℕ) (w : World)
    → IsCalm now w
    → IsWellFormed w.db
    → has_user user w.db.users ≡ true
    → owner_of post w.db.posts ≡ some owner
    → let (r, v) = like (some user) (some post) w in
      let (again, u) = like (some user) (some post) v in
      (r ≡ ok (respond_json 200 (Body.likes_count (count_likes post v.db))))
      × (any (is_mark user post) v.db.likes ≡ true)
      × (again ≡ r)
      × (u.db ≡ v.db)
like_idempotent now user owner post w c h known owned =
    let once = (like-calm now owner user post w.db h known owned).at w c refl in
    let after = (like (some user) (some post) w).1 in
    let base = liking owner user post now w.db in
    let wf : IsWellFormed base =
      subst IsWellFormed once.1
        ((like-Keeps (some user) (some post)).at w (calm-Upholds w c h)).holds in
    let twice =
      (like-calm now owner user post base wf (rw (users-liking owner user post now w.db) known)
          (owner_of-liking owner user post now post w.db ∙ owned)).at
        after once.2 once.1 in
    let same = liking_twice owner user post now now w.db in
    (
      rw once.1 once.0,
      rw once.1 (
          rw
            (notified-likes owner NotificationType.like user (some post) now
              (liked user post now w.db))
            (any-liked user post now w.db)),
      rw (twice.0, once.0, same) refl,
      rw (twice.1, once.1) same,
    )

any-unliked :
    (user post now u p : ℕ) (likes : List MarkRow)
    → any (is_mark u p) (filter (λ m. not (is_mark user post m)) likes)
      ≡ (any (is_mark u p) likes && not (u == user && p == post))
any-unliked user post now u p [] = refl
any-unliked user post now u p (m ∷ likes) = ground (arith, any-unliked user post now u p likes)

-- When no other process writes and no statement fails, Unlike is answered 200 with the number of
-- likes that are left, takes away the user's like of that post, and leaves every other like.
pub unlike-exact :
    (now user post u p : ℕ) (w : World)
    → IsCalm now w
    → let (r, v) = unlike (some user) (some post) w in
      (r ≡ ok (respond_json 200 (Body.likes_count (count_likes post v.db))))
      × (any (is_mark u p) v.db.likes
          ≡ (any (is_mark u p) w.db.likes && not (u == user && p == post)))
unfolding delete_like
unlike-exact now user post u p w c =
    let once = (unlike-calm now user post w.db).at w c refl in
    (rw once.1 once.0, rw once.1 (any-unliked user post now u p w.db.likes))
