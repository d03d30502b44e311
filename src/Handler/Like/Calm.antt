-- ===== src/Handler/Like/Calm.antt =====
-- What the handlers of like.go answer and leave when nothing interferes and no statement fails.
use sakura_intern_team_e.Prelude.{ℕ, true, Option, some, ◌∷◌, if◌then◌else◌, arith, any, ◌≡◌}
use sakura_intern_team_e.Notify.Publish.{insert_event}
use sakura_intern_team_e.Db.Tables.{Db, NotificationType}
use sakura_intern_team_e.Db.Rows.{
  is_mark, has_user, has_post, owner_of, owner_of-has_post, owner_of-known,
}
use sakura_intern_team_e.Db.Invariant.{IsWellFormed}
use sakura_intern_team_e.Action.{ok, done}
use sakura_intern_team_e.Action.Calm.{
  Runs, reply_db, Runs-stmt, Runs-done, Runs-bind, Runs-or_else, Runs-pure,
}
use sakura_intern_team_e.Handler.Response.{Body, respond_json}
use sakura_intern_team_e.Handler.Notification.Calm.{
  notified, announced, with_notification, IsNotifiable, create_notification_once-calm,
}
use sakura_intern_team_e.Handler.Like.{insert_like, delete_like, like, unlike, count_likes}

-- The database with the like, which is new or stands there already.
unfoldable pub liked : ℕ → ℕ → ℕ → Db → Db
liked user post now db = if any (is_mark user post) db.likes then db else record db {
  likes = record { user_id = user; post_id = post; created_at = now } ∷ db.likes;
}

insert_like-done :
    (user post now : ℕ) (db : Db)
    → has_user user db.users ≡ true
    → has_post post db.posts ≡ true
    → insert_like user post now db ≡ done tt (liked user post now db)
unfolding insert_like liked
insert_like-done user post now db u p = grind arith

-- Notifying touches neither likes, posts nor users.
pub notified-likes :
    (user : ℕ) (t : NotificationType) (actor : ℕ) (post : Option ℕ) (now : ℕ) (db : Db)
    → (notified user t actor post now db).likes ≡ db.likes
unfolding notified announced with_notification insert_event
notified-likes user t actor post now db = ground arith

liked-IsNotifiable :
    (owner user post now : ℕ) (db : Db)
    → IsWellFormed db
    → has_user user db.users ≡ true
    → owner_of post db.posts ≡ some owner
    → IsNotifiable owner user (some post) (liked user post now db)
unfolding liked
liked-IsNotifiable owner user post now db v u e =
    let known = owner_of-known post owner db.users db.posts v.post_authors e in
    let there = owner_of-has_post post owner db.posts e in ground arith

abbrev pub liking : ℕ → ℕ → ℕ → ℕ → Db → Db
liking owner user post now db =
    notified owner NotificationType.like user (some post) now (liked user post now db)

pub like-calm :
    (now owner user post : ℕ) (db : Db)
    → IsWellFormed db
    → has_user user db.users ≡ true
    → owner_of post db.posts ≡ some owner
    → Runs now db
        (like (some user) (some post))
        (ok
          (respond_json 200 (Body.likes_count (count_likes post (liking owner user post now db)))))
        (liking owner user post now db)
unfolding like
like-calm now owner user post db v u e = Runs-bind _ (Runs-or_else _ (Runs-done _ (rw e))) (
    Runs-bind _
      (Runs-or_else _ (
        Runs-done _
          (insert_like-done user post now db u (owner_of-has_post post owner db.posts e))))
      (Runs-bind _
        (create_notification_once-calm now owner NotificationType.like user (some post) _
          (liked-IsNotifiable owner user post now db v u e))
        (Runs-bind _ (Runs-or_else _ (Runs-stmt _ _)) (Runs-pure _))))

pub unlike-calm :
    (now user post : ℕ) (db : Db)
    → Runs now db
        (unlike (some user) (some post))
        (ok (
          respond_json 200
            (Body.likes_count (count_likes post (reply_db db (delete_like user post now db))))))
        (reply_db db (delete_like user post now db))
unfolding unlike delete_like
unlike-calm now user post db =
    Runs-bind _ (Runs-or_else _ (Runs-stmt _ db))
      (Runs-bind _ (Runs-or_else _ (Runs-stmt _ _)) (Runs-pure _))
