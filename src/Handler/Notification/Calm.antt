-- ===== src/Handler/Notification/Calm.antt =====
-- What createNotificationOnce of app/backend/internal/handler/notification.go does when nothing
-- interferes and no statement fails.
use sakura_intern_team_e.Prelude.{
  ℕ, suc, true, false, Option, some, ◌∷◌, ◌==◌, if◌then◌else◌, any, ◌≡◌, refl, Bool-cases, inl, inr,
  ltb,
}
use sakura_intern_team_e.Db.Tables.{Db, NotificationType, EventKind}
use sakura_intern_team_e.Db.Rows.{is_notification, refers, has_user}
use sakura_intern_team_e.Model.{Event}
use sakura_intern_team_e.Action.{done, ok}
use sakura_intern_team_e.Action.Calm.{
  Runs, reply_db, Runs-stmt, Runs-done, Runs-pure, Runs-bind, Runs-if_false, Runs-try, Runs-or_else,
}
use sakura_intern_team_e.Realtime.Hub.Delivery.{publish-total}
use sakura_intern_team_e.Notify.Publish.{insert_event, publish}
use sakura_intern_team_e.Handler.Notification.{
  insert_notification, insert_notification_once, retry_insert, insert_notification_once_retry,
  publish_locally, deliver_notification, create_notification_once,
}

-- The database with one more event row for a notification.
unfoldable pub announced : ℕ → NotificationType → Option ℕ → ℕ → Db → Db
unfolding insert_event
announced user t post now db =
    reply_db db (insert_event EventKind.notification user (some t) post now db)

-- The database with one more notification row.
unfoldable pub with_notification : ℕ → NotificationType → ℕ → Option ℕ → ℕ → Db → Db
with_notification user t actor post now db = record db {
  next_notification = suc db.next_notification;
  notifications =
      record {
        id = db.next_notification;
        user_id = user;
        ntype = t;
        actor_id = actor;
        post_id = post;
        is_read = false;
        created_at = now;
      }
      ∷ db.notifications;
}

-- The database after createNotificationOnce: no change for an act on oneself or one that is
-- notified already, and otherwise the notification row with its event row.
unfoldable pub notified : ℕ → NotificationType → ℕ → Option ℕ → ℕ → Db → Db
unfolding announced with_notification
notified user t actor post now db =
    if user == actor
    then db
    else if any (is_notification user t actor post) db.notifications
    then db
    else announced user t post now (with_notification user t actor post now db)

-- The rows that a notification refers to exist.
pub record IsNotifiable (user actor : ℕ) (post : Option ℕ) (db : Db) : Type 0 where
  pub user_known : has_user user db.users ≡ true
  pub actor_known : has_user actor db.users ≡ true
  pub post_known : refers post db.posts ≡ true

publish_locally-calm :
    {E : Type 0} (now key : ℕ) (ev : Event) (db : Db)
    → Runs now db (publish_locally {E = E} key ev) (ok tt) db
unfolding publish_locally
publish_locally-calm now key ev db = record {
  at = λ w c e.
      let (hub, published, valid) = publish-total w.notifications key ev c.hub in
      rw (published, publish_locally)
        (refl, e, record { alone = c.alone; healthy = c.healthy; time = c.time; hub = valid });
}

module _ (now user : ℕ) (t : NotificationType) (post : Option ℕ) (db : Db) where
  pub deliver_notification-calm :
      {E : Type 0}
      → Runs now db
          (deliver_notification {E = E} user t post)
          (ok tt)
          (announced user t post now db)
  unfolding deliver_notification publish announced insert_event
  deliver_notification-calm =
      Runs-bind _ (publish_locally-calm now user _ db) (Runs-or_else _ (Runs-stmt _ db))

module _ (now user : ℕ) (t : NotificationType) (actor : ℕ) (post : Option ℕ) (db : Db) where
  pub insert_notification-old :
      any (is_notification user t actor post) db.notifications ≡ true
      → insert_notification user t actor post now db ≡ done 0 db
  unfolding insert_notification
  insert_notification-old h = rw h

  pub insert_notification-new :
      any (is_notification user t actor post) db.notifications ≡ false
      → IsNotifiable user actor post db
      → insert_notification user t actor post now db
        ≡ done 1 (with_notification user t actor post now db)
  unfolding insert_notification with_notification
  insert_notification-new h k = rw (h, k.user_known, k.actor_known, k.post_known)

  pub once-calm :
      {n : ℕ} {db' : Db}
      → (user == actor) ≡ false
      → insert_notification user t actor post now db ≡ done n db'
      → Runs now db (insert_notification_once user t actor post) (ok (ltb 0 n)) db'
  unfolding insert_notification_once
  once-calm {n} {db'} differ e =
      Runs-if_false _ _ differ (Runs-bind _ (Runs-done _ e) (Runs-pure (ltb 0 n)))

  retry-calm :
      {n : ℕ} {db' : Db}
      → (user == actor) ≡ false
      → insert_notification user t actor post now db ≡ done n db'
      → Runs now db (insert_notification_once_retry user t actor post) (ok (ltb 0 n)) db'
  unfolding insert_notification_once_retry retry_insert
  retry-calm {n} {db'} differ e = Runs-bind _ (Runs-try (once-calm differ e)) (Runs-pure (ltb 0 n))

  create-other :
      {E : Type 0}
      → (user == actor) ≡ false
      → IsNotifiable user actor post db
      → Runs now db
          (create_notification_once {E = E} user t actor post)
          (ok tt)
          (notified user t actor post now db)
  unfolding create_notification_once notified
  create-other differ k =
      elim (Bool-cases (any (is_notification user t actor post) db.notifications)) [
        | inl old ↦
            rw (differ, old)
              (Runs-bind _ (Runs-or_else _ (retry-calm differ (insert_notification-old old)))
                (Runs-pure tt))
        | inr new ↦
            rw (differ, new)
              (Runs-bind _ (Runs-or_else _ (retry-calm differ (insert_notification-new new k))) (
                deliver_notification-calm now user t post
                  (with_notification user t actor post now db)))
      ]

  -- createNotificationOnce never notifies twice and never notifies an act on oneself; a new
  -- notification is stored with its event.
  pub create_notification_once-calm :
      {E : Type 0}
      → IsNotifiable user actor post db
      → Runs now db
          (create_notification_once {E = E} user t actor post)
          (ok tt)
          (notified user t actor post now db)
  unfolding create_notification_once notified
  create_notification_once-calm k = elim (Bool-cases (user == actor)) [
    | inl self ↦ rw self (Runs-pure tt)
    | inr other ↦ create-other other k
  ]
