-- ===== src/Notify/Publish.antt =====
-- app/backend/internal/notify/notify.go: writing event rows.
use sakura_intern_team_e.Prelude.{ℕ, suc, Option, none, some, ◌∷◌}
use sakura_intern_team_e.Db.Tables.{EventKind, NotificationType}
use sakura_intern_team_e.Db.Errors.{DbError}
use sakura_intern_team_e.Model.{Event, notification_event}
use sakura_intern_team_e.Action.{Act, Query, done, stmt}

-- INSERT INTO sse_events
unfoldable pub insert_event : EventKind → ℕ → Option NotificationType → Option ℕ → Query Unit
insert_event kind subject t post now db = done tt (record db {
  next_event = suc db.next_event;
  events =
      record {
        id = db.next_event;
        kind = kind;
        subject_id = subject;
        ntype = t;
        post_id = post;
        created_at = now;
      }
      ∷ db.events;
})

-- Publish
unfoldable pub publish : ℕ → NotificationType → Option ℕ → Act DbError Unit
publish user t post = stmt (insert_event EventKind.notification user (some t) post)

-- PublishReply
unfoldable pub publish_reply : ℕ → ℕ → Act DbError Unit
publish_reply root post = stmt (insert_event EventKind.reply root none (some post))

-- NotificationEvent
abbrev pub notification_event_of : Option NotificationType → Option ℕ → Event
notification_event_of t post = notification_event t post
