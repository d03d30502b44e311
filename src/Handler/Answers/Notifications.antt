-- ===== src/Handler/Answers/Notifications.antt =====
-- notification.go's creating and delivering settle: a valid hub never panics.
use sakura_intern_team_e.Prelude.{ℕ, zero, suc, Bool, Option}
use sakura_intern_team_e.Db.Tables.{NotificationType}
use sakura_intern_team_e.Db.Errors.{DbError}
use sakura_intern_team_e.Model.{Event}
use sakura_intern_team_e.Realtime.Hub.Delivery.{publish-total}
use sakura_intern_team_e.Notify.Publish.{publish, publish_reply}
use sakura_intern_team_e.Action.{ok, err}
use sakura_intern_team_e.Action.Settles.{Settles, Anything, anything, settles_rules}
use sakura_intern_team_e.Handler.Answers.{HubIsValid, IsFit, is_fit-IsFit}
use sakura_intern_team_e.Handler.Notification.{
  insert_notification_once, retry_insert, insert_notification_once_retry, publish_locally,
  deliver_notification, create_notification_once, mark_notifications_read, get_unread_count,
}

pub insert_notification_once-Settles :
    (user : ℕ) (t : NotificationType) (actor : ℕ) (post : Option ℕ)
    → Settles HubIsValid Anything Anything (insert_notification_once user t actor post)
unfolding insert_notification_once
insert_notification_once-Settles user t actor post = search settles_rules depth 8

retry_insert-Settles_ok :
    (n user : ℕ) (t : NotificationType) (actor : ℕ) (post : Option ℕ) (inserted : Bool)
    → Settles HubIsValid Anything Anything (retry_insert n user t actor post (ok inserted))
unfolding retry_insert
retry_insert-Settles_ok n user t actor post inserted = search settles_rules

retry_insert-Settles :
    (n user : ℕ) (t : NotificationType) (actor : ℕ) (post : Option ℕ) (e : DbError)
    → Settles HubIsValid Anything Anything (retry_insert n user t actor post (err e))
unfolding retry_insert
retry_insert-Settles zero user t actor post e = search settles_rules
retry_insert-Settles (suc n) user t actor post e =
    let ih = retry_insert-Settles n user t actor post in
    search (settles_rules, insert_notification_once-Settles, retry_insert-Settles_ok, ih) depth 8

insert_notification_once_retry-Settles :
    (user : ℕ) (t : NotificationType) (actor : ℕ) (post : Option ℕ)
    → Settles HubIsValid Anything Anything (insert_notification_once_retry user t actor post)
unfolding insert_notification_once_retry
insert_notification_once_retry-Settles user t actor post =
    search
      (
        settles_rules, insert_notification_once-Settles, retry_insert-Settles_ok,
        retry_insert-Settles,
      )
      depth 8

module _ {E : Type 0} {F : E → Type 0} where
  publish_locally-Settles :
      (key : ℕ) (ev : Event) → Settles HubIsValid F Anything (publish_locally key ev)
  unfolding publish_locally
  publish_locally-Settles key ev = record {
    at = λ w h.
        let (hub, e, v) = publish-total w.notifications key ev h.hubs in
        rw (e, publish_locally) (anything tt, record { hubs = v });
  }

  pub deliver_notification-Settles :
      (user : ℕ) (t : NotificationType) (post : Option ℕ)
      → Settles HubIsValid F Anything (deliver_notification user t post)
  unfolding deliver_notification publish
  deliver_notification-Settles user t post = search (settles_rules, publish_locally-Settles) depth 8

  pub create_notification_once-Settles :
      (user : ℕ) (t : NotificationType) (actor : ℕ) (post : Option ℕ)
      → Settles HubIsValid F Anything (create_notification_once user t actor post)
  unfolding create_notification_once
  create_notification_once-Settles user t actor post =
      search (settles_rules, insert_notification_once_retry-Settles, deliver_notification-Settles)
        depth 10

pub publish_reply-Settles :
    (root post : ℕ) → Settles HubIsValid Anything Anything (publish_reply root post)
unfolding publish_reply
publish_reply-Settles root post = search settles_rules

pub mark_notifications_read-Settles :
    (auth : Option ℕ) → Settles HubIsValid IsFit IsFit (mark_notifications_read auth)
unfolding mark_notifications_read
mark_notifications_read-Settles auth = search (settles_rules, is_fit-IsFit) depth 8

pub get_unread_count-Settles :
    (auth : Option ℕ) → Settles HubIsValid IsFit IsFit (get_unread_count auth)
unfolding get_unread_count
get_unread_count-Settles auth = search (settles_rules, is_fit-IsFit) depth 8
