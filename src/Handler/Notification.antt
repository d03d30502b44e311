-- ===== src/Handler/Notification.antt =====
-- app/backend/internal/handler/notification.go: creating and delivering notifications.
pub mod Once
pub mod Calm
pub mod Retry
use sakura_intern_team_e.Prelude.{
  ℕ, zero, suc, ◌-◌, Bool, true, false, Option, none, some, ◌∷◌, ◌==◌, ltb, if◌then◌else◌, any,
  ◌&&◌, not, map, count, List, [],
}
use sakura_intern_team_e.Db.Tables.{Db, NotificationRow, NotificationType}
use sakura_intern_team_e.Db.Errors.{DbError, is_retryable_lock_error, missing_user, missing_post}
use sakura_intern_team_e.Db.Rows.{has_user, refers, is_notification}
use sakura_intern_team_e.Model.{Event}
use sakura_intern_team_e.Realtime.Hub.{Hub}
use sakura_intern_team_e.Realtime.Hub as Hub
use sakura_intern_team_e.Notify.Publish.{publish, notification_event_of}
use sakura_intern_team_e.Action.{
  World, Result, ok, err, panic, Act, Query, Reply, done, refused, stmt, pure, raise, try, or_else,
  ◌>>=◌, ◌>>◌, reading, or_zero,
}
use sakura_intern_team_e.Handler.Response.{
  Response, Body, respond_json, or_server_error, current_user_id,
}

-- INSERT INTO notifications ... WHERE NOT EXISTS (...): the number of rows that it inserted
unfoldable pub insert_notification : ℕ → NotificationType → ℕ → Option ℕ → Query ℕ
insert_notification user t actor post now db =
    if any (is_notification user t actor post) db.notifications
    then done 0 db
    else if not (has_user user db.users && has_user actor db.users)
    then refused missing_user
    else if not (refers post db.posts)
    then refused missing_post
    else done 1 (record db {
      next_notification = suc db.next_notification;
      notifications =
          record {
            id = db.next_notification;
            user_id = user;
            ntype = t;
            actor_id = actor;
            post_id = post;
            is_read = false;
            created_at = now;
          }
          ∷ db.notifications;
    })

-- insertNotificationOnce
unfoldable pub insert_notification_once : ℕ → NotificationType → ℕ → Option ℕ → Act DbError Bool
insert_notification_once user t actor post =
    if user == actor
    then pure false
    else do affected ← stmt (insert_notification user t actor post); pure (ltb 0 affected)

-- notifyInsertAttempts
abbrev pub notify_insert_attempts : ℕ
notify_insert_attempts = 5

-- The loop of insertNotificationOnceRetry with the attempts that are left, on the last outcome.
unfoldable pub retry_insert :
    ℕ → ℕ → NotificationType → ℕ → Option ℕ → Result DbError Bool → Act DbError Bool
retry_insert n user t actor post (ok inserted) = pure inserted
retry_insert n user t actor post panic = λ w. (panic, w)
retry_insert zero user t actor post (err e) = raise e
retry_insert (suc n) user t actor post (err e) =
    if is_retryable_lock_error e
    then (do
      r ← try (insert_notification_once user t actor post)
      retry_insert n user t actor post r)
    else raise e

-- insertNotificationOnceRetry
unfoldable pub insert_notification_once_retry :
    ℕ → NotificationType → ℕ → Option ℕ → Act DbError Bool
insert_notification_once_retry user t actor post = do
  r ← try (insert_notification_once user t actor post)
  retry_insert (notify_insert_attempts - 1) user t actor post r

-- `h.Notifications.Publish`
unfoldable pub publish_locally : {E : Type 0} → ℕ → Event → Act E Unit
publish_locally key ev w = elim (Hub.publish w.notifications key ev) [
  | none ↦ (panic, w)
  | some hub ↦ (ok tt, record w { notifications = hub })
]

-- deliverNotification
unfoldable pub deliver_notification : {E : Type 0} → ℕ → NotificationType → Option ℕ → Act E Unit
deliver_notification user t post =
    publish_locally user (notification_event_of (some t) post)
    >> or_else (publish user t post) (λ e. pure tt)

-- createNotificationOnce
unfoldable pub create_notification_once :
    {E : Type 0} → ℕ → NotificationType → ℕ → Option ℕ → Act E Unit
create_notification_once user t actor post = if user == actor then pure tt else do
  inserted ← or_else (insert_notification_once_retry user t actor post) (λ e. pure false)
  if inserted then deliver_notification user t post else pure tt

abbrev pub is_unread : ℕ → NotificationRow → Bool
is_unread user n = n.user_id == user && not n.is_read

abbrev pub read_by : ℕ → NotificationRow → NotificationRow
read_by user n = if is_unread user n then record n { is_read = true } else n

-- UPDATE notifications SET is_read = TRUE WHERE user_id = ? AND is_read = FALSE
unfoldable pub mark_read : ℕ → Query Unit
mark_read user now db = done tt (record db { notifications = map (read_by user) db.notifications })

-- MarkNotificationsRead
unfoldable pub mark_notifications_read : Option ℕ → Act Response Response
mark_notifications_read auth =
    or_server_error (stmt (mark_read (current_user_id auth)))
    >> pure (respond_json 200 (Body.message "ok"))

-- GetUnreadCount
unfoldable pub get_unread_count : Option ℕ → Act Response Response
get_unread_count auth = do
  n ← or_zero 0 (stmt (reading (λ db. count (is_unread (current_user_id auth)) db.notifications)))
  pure (respond_json 200 (Body.unread_count n))
