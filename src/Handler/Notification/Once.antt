-- ===== src/Handler/Notification/Once.antt =====
-- insertNotificationOnce and its callers of app/backend/internal/handler/notification.go: the
-- tables stay well formed, whatever the environment does.
use sakura_intern_team_e.Prelude.{
  ℕ, zero, suc, Bool, true, false, Option, ◌∷◌, List, [], ◌==◌, arith, Option-cases, inl, inr, map,
  any, All, ◌≡◌, refl,
}
use sakura_intern_team_e.Db.Tables.{PostRow, NotificationRow, NotificationType}
use sakura_intern_team_e.Db.Errors.{DbError}
use sakura_intern_team_e.Db.Rows.{is_notification, refers}
use sakura_intern_team_e.Db.Invariant.{IsWellFormed, Unique, same_notification}
use sakura_intern_team_e.Model.{Event}
use sakura_intern_team_e.Action.{Result, ok, err, panic}
use sakura_intern_team_e.Action.Keeps.{Keeps, Keeps-if_known, keeps_rules}
use sakura_intern_team_e.Action.Database.{Upholds, Preserves, Keeps-stmt, reading-Preserves}
use sakura_intern_team_e.Realtime.Hub as Hub
use sakura_intern_team_e.Notify.Publish.{insert_event, publish}
use sakura_intern_team_e.Handler.Notification.{
  insert_notification, insert_notification_once, retry_insert, insert_notification_once_retry,
  publish_locally, deliver_notification, create_notification_once, mark_read, read_by,
  mark_notifications_read, get_unread_count,
}

pub insert_notification-IsWellFormed :
    (user : ℕ) (t : NotificationType) (actor : ℕ) (post : Option ℕ)
    → (user == actor) ≡ false
    → Preserves IsWellFormed (insert_notification user t actor post)
unfolding insert_notification
insert_notification-IsWellFormed user t actor post differ = record { at = λ now db h. grind arith }

pub insert_event-IsWellFormed :
    (k : _) (subject : ℕ) (t : Option NotificationType) (post : Option ℕ)
    → Preserves IsWellFormed (insert_event k subject t post)
unfolding insert_event
insert_event-IsWellFormed k subject t post = record { at = λ now db h. grind arith }

pub insert_notification_once-Keeps :
    (user : ℕ) (t : NotificationType) (actor : ℕ) (post : Option ℕ)
    → Keeps (Upholds IsWellFormed) (insert_notification_once user t actor post)
unfolding insert_notification_once
insert_notification_once-Keeps user t actor post =
    Keeps-if_known (user == actor) _ _ (λ e. search keeps_rules)
      (λ e. search (keeps_rules, Keeps-stmt, insert_notification-IsWellFormed user t actor post e))

pub retry_insert-Keeps :
    (n user : ℕ) (t : NotificationType) (actor : ℕ) (post : Option ℕ) (r : Result DbError Bool)
    → Keeps (Upholds IsWellFormed) (retry_insert n user t actor post r)
unfolding retry_insert
retry_insert-Keeps n user t actor post (ok inserted) = search keeps_rules
retry_insert-Keeps n user t actor post panic = record { at = λ w h. h }
retry_insert-Keeps zero user t actor post (err e) = search keeps_rules
retry_insert-Keeps (suc n) user t actor post (err e) =
    let ih = retry_insert-Keeps n user t actor post in
    search (keeps_rules, insert_notification_once-Keeps, ih)

insert_notification_once_retry-Keeps :
    (user : ℕ) (t : NotificationType) (actor : ℕ) (post : Option ℕ)
    → Keeps (Upholds IsWellFormed) (insert_notification_once_retry user t actor post)
unfolding insert_notification_once_retry
insert_notification_once_retry-Keeps user t actor post =
    search (keeps_rules, insert_notification_once-Keeps, retry_insert-Keeps)

publish_locally-Keeps :
    {E : Type 0} (key : ℕ) (ev : Event)
    → Keeps (Upholds IsWellFormed) (publish_locally {E = E} key ev)
unfolding publish_locally
publish_locally-Keeps key ev = record {
  at = λ w h. elim (Option-cases (Hub.publish w.notifications key ev)) [
    | inl e ↦ rw (e, publish_locally) h
    | inr (hub, e) ↦ rw (e, publish_locally) (record { holds = h.holds; others = h.others })
  ];
}

pub deliver_notification-Keeps :
    {E : Type 0} (user : ℕ) (t : NotificationType) (post : Option ℕ)
    → Keeps (Upholds IsWellFormed) (deliver_notification {E = E} user t post)
unfolding deliver_notification publish
deliver_notification-Keeps user t post =
    search (keeps_rules, publish_locally-Keeps, Keeps-stmt, insert_event-IsWellFormed)

pub create_notification_once-Keeps :
    {E : Type 0} (user : ℕ) (t : NotificationType) (actor : ℕ) (post : Option ℕ)
    → Keeps (Upholds IsWellFormed) (create_notification_once {E = E} user t actor post)
unfolding create_notification_once
create_notification_once-Keeps user t actor post =
    search (keeps_rules, insert_notification_once_retry-Keeps, deliver_notification-Keeps) depth 7

-- Marking rows as read keeps what identifies them.
any-marked :
    (user u : ℕ) (t : NotificationType) (a : ℕ) (p : Option ℕ) (ns : List NotificationRow)
    → any (is_notification u t a p) (map (read_by user) ns) ≡ any (is_notification u t a p) ns
any-marked user u t a p [] = refl
any-marked user u t a p (n ∷ ns) = ground (arith, any-marked user u t a p ns)

marked-once :
    (user : ℕ) (ns : List NotificationRow)
    → Unique same_notification ns
    → Unique same_notification (map (read_by user) ns)
marked-once user [] h = tt
marked-once user (n ∷ ns) h =
    ground
      (arith, marked-once user ns h.1, any-marked user n.user_id n.ntype n.actor_id n.post_id ns)

marked-others :
    (user : ℕ) (ns : List NotificationRow)
    → All (λ (n : NotificationRow). (n.user_id == n.actor_id) ≡ false) ns
    → All (λ (n : NotificationRow). (n.user_id == n.actor_id) ≡ false) (map (read_by user) ns)
marked-others user [] h = tt
marked-others user (n ∷ ns) h = ground (arith, marked-others user ns h.1)

marked-refer :
    (user : ℕ) (posts : List PostRow) (ns : List NotificationRow)
    → All (λ (n : NotificationRow). refers n.post_id posts ≡ true) ns
    → All (λ (n : NotificationRow). refers n.post_id posts ≡ true) (map (read_by user) ns)
marked-refer user posts [] h = tt
marked-refer user posts (n ∷ ns) h = ground (arith, marked-refer user posts ns h.1)

mark_read-IsWellFormed : (user : ℕ) → Preserves IsWellFormed (mark_read user)
unfolding mark_read
mark_read-IsWellFormed user = record {
  at = λ now db h. ground (
    arith,
    marked-once user db.notifications h.notifications_once,
    marked-others user db.notifications h.notifications_others,
    marked-refer user db.posts db.notifications h.notifications_refer,
  );
}

pub mark_notifications_read-Keeps :
    (auth : Option ℕ) → Keeps (Upholds IsWellFormed) (mark_notifications_read auth)
unfolding mark_notifications_read
mark_notifications_read-Keeps auth =
    search (keeps_rules, Keeps-stmt, mark_read-IsWellFormed) depth 8

pub get_unread_count-Keeps :
    (auth : Option ℕ) → Keeps (Upholds IsWellFormed) (get_unread_count auth)
unfolding get_unread_count
get_unread_count-Keeps auth = search (keeps_rules, Keeps-stmt, reading-Preserves) depth 8
