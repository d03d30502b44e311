-- ===== src/Handler/Repost/Calm.antt =====
-- What the handlers of repost.go answer and leave when nothing interferes and no statement fails.
use sakura_intern_team_e.Prelude.{
  ℕ, suc, Bool, true, false, Option, some, ◌∷◌, ◌==◌, not, if◌then◌else◌, any, ◌≡◌, refl,
  Bool-cases, inl, inr, arith,
}
use sakura_intern_team_e.Db.Tables.{Db, NotificationType}
use sakura_intern_team_e.Db.Errors.{DbError, is_duplicate_key_error, duplicate_entry}
use sakura_intern_team_e.Db.Rows.{
  has_user, has_post, owner_of, is_mark, is_repost_of, is_notification, owner_of-has_post,
  owner_of-known,
}
use sakura_intern_team_e.Db.Invariant.{IsWellFormed}
use sakura_intern_team_e.Action.{Act, Result, done, ok, stmt, pure, raise, try, ◌>>=◌}
use sakura_intern_team_e.Action.Calm.{
  Runs, Runs-done, Runs-refused, Runs-pure, Runs-bind, Runs-if_true, Runs-try, Runs-try_err,
  Runs-or_else, Runs-transaction,
}
use sakura_intern_team_e.Handler.Notification.{insert_notification_once}
use sakura_intern_team_e.Handler.Notification.Calm.{
  IsNotifiable, with_notification, once-calm, insert_notification-old, insert_notification-new,
}
use sakura_intern_team_e.Handler.Post.{insert_post, row_of}
use sakura_intern_team_e.Handler.Repost.{
  insert_repost, insert_repost_post, ensure_repost_post, repost_post, repost_body, repost_once,
  repost_retry, unless_duplicate,
}

-- insertNotificationOnce: whether it inserted, and the database after it.
unfoldable pub noted : ℕ → NotificationType → ℕ → Option ℕ → ℕ → Db → Bool × Db
noted user t actor post now db =
    if user == actor
    then (false, db)
    else if any (is_notification user t actor post) db.notifications
    then (false, db)
    else (true, with_notification user t actor post now db)

module _ (now user : ℕ) (t : NotificationType) (actor : ℕ) (post : Option ℕ) (db : Db) where
  once_self :
      (user == actor) ≡ true
      → Runs now db (insert_notification_once user t actor post) (ok false) db
  unfolding insert_notification_once
  once_self self = Runs-if_true _ _ self (Runs-pure false)

  noted-calm :
      IsNotifiable user actor post db
      → Runs now db
          (insert_notification_once user t actor post)
          (ok (noted user t actor post now db).0)
          (noted user t actor post now db).1
  unfolding noted
  noted-calm k = elim (Bool-cases (user == actor)) [
    | inl self ↦ rw self (once_self self)
    | inr other ↦ elim (Bool-cases (any (is_notification user t actor post) db.notifications)) [
      | inl old ↦
          rw (other, old)
            (once-calm now user t actor post db other
              (insert_notification-old now user t actor post db old))
      | inr new ↦
          rw (other, new)
            (once-calm now user t actor post db other
              (insert_notification-new now user t actor post db new k))
    ]
  ]

-- The mark of a repost, new or there already.
unfoldable pub marked : ℕ → ℕ → ℕ → Db → Db
marked user post now db = if any (is_mark user post) db.reposts then db else record db {
  reposts = record { user_id = user; post_id = post; created_at = now } ∷ db.reposts;
}

module _ (user post now : ℕ) (db : Db) (id : ℕ) where
  marked-known : has_user id db.users ≡ true → has_user id (marked user post now db).users ≡ true
  unfolding marked
  marked-known h = ground arith

  marked-there : has_post id db.posts ≡ true → has_post id (marked user post now db).posts ≡ true
  unfolding marked
  marked-there h = ground arith

-- The post of a repost, new or there already.
unfoldable pub posted : ℕ → ℕ → ℕ → Db → Db
posted user post now db = if any (is_repost_of user post) db.posts then db else record db {
  posts = row_of (repost_post user post) db.next_post now ∷ db.posts;
  next_post = suc db.next_post;
}

module _ (user post now : ℕ) (db : Db) (known : has_user user db.users ≡ true)
    (there : has_post post db.posts ≡ true) where
  -- The mark's insert and what follows it, by whether the mark is new.
  mark-calm :
      (f : Bool → Act DbError Bool) {r : Result DbError Bool} {db' : Db}
      → Runs now (marked user post now db) (f (not (any (is_mark user post) db.reposts))) r db'
      → Runs now db (try (stmt (insert_repost user post)) >>= λ o. unless_duplicate o >>= f) r db'
  unfolding marked insert_repost is_duplicate_key_error
  mark-calm f {r} {db'} k = elim (Bool-cases (any (is_mark user post) db.reposts)) [
    | inl old ↦ Runs-bind _ (Runs-try_err {x = duplicate_entry} (Runs-refused _ (rw old))) (
        Runs-bind f (Runs-if_true (pure false) (raise duplicate_entry) refl (Runs-pure false))
          (rw old at k))
    | inr new ↦
        Runs-bind _ (Runs-try (Runs-done _ (rw (new, known, there) refl)))
          (Runs-bind f (Runs-pure true) (rw new at k))
  ]

  insert_repost_post-done :
      (id : ℕ) × (insert_repost_post user post now db ≡ done id (posted user post now db))
  unfolding insert_repost_post insert_post posted
  insert_repost_post-done = elim (Bool-cases (any (is_repost_of user post) db.posts)) [
    | inl old ↦ (0, rw old)
    | inr new ↦ (db.next_post, rw (new, known, there) refl)
  ]

  post-calm :
      (f : Bool → Act DbError Bool) {r : Result DbError Bool} {db' : Db}
      → Runs now (posted user post now db) (f true) r db'
      → Runs now db (try (ensure_repost_post user post) >>= λ o. unless_duplicate o >>= f) r db'
  unfolding ensure_repost_post
  post-calm f k =
      let (id, e) = insert_repost_post-done in
      Runs-bind _ (Runs-try (Runs-bind _ (Runs-done _ e) (Runs-pure tt)))
        (Runs-bind f (Runs-pure true) k)

-- What the transaction of repostOnce answers and leaves.
unfoldable pub reposting : ℕ → ℕ → ℕ → ℕ → Db → Bool × Db
reposting owner user post now db =
    let after = posted user post now (marked user post now db) in
    if any (is_mark user post) db.reposts
    then (false, after)
    else noted owner NotificationType.repost user (some post) now after

module _ (now owner user post : ℕ) (db : Db) (v : IsWellFormed db)
    (known : has_user user db.users ≡ true) (owned : owner_of post db.posts ≡ some owner) where
  reposted-IsNotifiable :
      IsNotifiable owner user (some post) (posted user post now (marked user post now db))
  unfolding posted marked
  reposted-IsNotifiable =
      let author = owner_of-known post owner db.users db.posts v.post_authors owned in
      let there = owner_of-has_post post owner db.posts owned in ground arith

  body-calm :
      Runs now db
        (repost_body user post owner)
        (ok (reposting owner user post now db).0)
        (reposting owner user post now db).1
  unfolding repost_body reposting
  body-calm =
      let there = owner_of-has_post post owner db.posts owned in
      mark-calm user post now db known there _ (
        post-calm user post now (marked user post now db) (marked-known user post now db user known)
          (marked-there user post now db post there) _
          (notify_first (any (is_mark user post) db.reposts)))
    where
      after : Db
      after = posted user post now (marked user post now db)

      notify_first :
          (old : Bool)
          → Runs now after
              (if not old
                then insert_notification_once owner NotificationType.repost user (some post)
                else pure false)
              (ok
                (if old
                  then (false, after)
                  else noted owner NotificationType.repost user (some post) now after).0)
              (if old
                then (false, after)
                else noted owner NotificationType.repost user (some post) now after).1
      notify_first true = Runs-pure false
      notify_first false =
          noted-calm now owner NotificationType.repost user (some post) after reposted-IsNotifiable

  pub once-Runs :
      Runs now db
        (repost_retry user post owner)
        (ok (reposting owner user post now db).0)
        (reposting owner user post now db).1
  unfolding repost_retry repost_once
  once-Runs = Runs-or_else _ (Runs-transaction body-calm)
