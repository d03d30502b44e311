-- ===== src/Notify/Bus.antt =====
-- app/backend/internal/notify/bus.go: delivering one event row to the subscribers of this process.
pub mod Delivers
pub mod Arrivals
pub mod Batch
use sakura_intern_team_e.Prelude.{
  ℕ, Bool, true, false, not, ◌&&◌, ◌||◌, Option, none, some, List, [], ◌∷◌, if◌then◌else◌,
}
use sakura_intern_team_e.Db.Tables.{Db, EventRow, EventKind}
use sakura_intern_team_e.Db.Errors.{DbError, is_no_rows}
use sakura_intern_team_e.Model.{Event}
use sakura_intern_team_e.Realtime.Hub.{Hub}
use sakura_intern_team_e.Realtime.Hub as Hub
use sakura_intern_team_e.Notify.Publish.{notification_event_of}
use sakura_intern_team_e.Action.{World, Act, Result, ok, err, panic, pure, try, ◌>>=◌, ◌>>◌}
use sakura_intern_team_e.Handler.Notification.{publish_locally}

-- `b.threads.Publish`
unfoldable pub publish_thread : {E : Type 0} → ℕ → Event → Act E Unit
publish_thread key ev w = elim (Hub.publish w.threads key ev) [
  | none ↦ (panic, w)
  | some hub ↦ (ok tt, record w { threads = hub })
]

-- hasSubscribers on either hub; the hubs answer HasSubscribers, and a nil one has none.
unfoldable pub notification_subscribers : {E : Type 0} → ℕ → Act E Bool
notification_subscribers key w = (ok (Hub.has_subscribers w.notifications key), w)

unfoldable pub thread_subscribers : {E : Type 0} → ℕ → Act E Bool
thread_subscribers key w = (ok (Hub.has_subscribers w.threads key), w)

-- Hydrating, with one retry after an error that may pass; `cancelled` is `ctx.Err() != nil`.
unfoldable pub hydrate_twice :
    Bool → Act DbError Event → Result DbError Event → Act DbError (Result DbError Event)
hydrate_twice cancelled hydrate (ok ev) = pure (ok ev)
hydrate_twice cancelled hydrate panic = λ w. (panic, w)
hydrate_twice cancelled hydrate (err e) =
    if not (is_no_rows e) && not cancelled then try hydrate else pure (err e)

unfoldable pub publish_hydrated : ℕ → Result DbError Event → Act DbError Unit
publish_hydrated key (ok ev) = publish_thread key ev
publish_hydrated key (err e) = pure tt
publish_hydrated key panic = λ w. (panic, w)

-- The reply branch of deliver; `none` for the hydrator or the post is nil.
unfoldable pub deliver_reply :
    Bool → Option (ℕ → Act DbError Event) → ℕ → Option ℕ → Act DbError Unit
deliver_reply cancelled none key post = pure tt
deliver_reply cancelled (some hydrate) key none = pure tt
deliver_reply cancelled (some hydrate) key (some post) = do
  wanted ← thread_subscribers key
  if not wanted then pure tt else do
    first ← try (hydrate post)
    out ← hydrate_twice cancelled (hydrate post) first
    publish_hydrated key out

unfoldable pub deliver_notification_event : EventRow → Act DbError Unit
deliver_notification_event e = do
  wanted ← notification_subscribers e.subject_id
  if wanted then publish_locally e.subject_id (notification_event_of e.ntype e.post_id) else pure tt

-- `switch ev.kind`
abbrev pub deliver_kind :
    Bool → Option (ℕ → Act DbError Event) → EventKind → EventRow → Act DbError Unit
deliver_kind cancelled hydrate EventKind.notification e = deliver_notification_event e
deliver_kind cancelled hydrate EventKind.reply e =
    deliver_reply cancelled hydrate e.subject_id e.post_id
deliver_kind cancelled hydrate EventKind.other e = pure tt

-- deliver
unfoldable pub deliver : Bool → Option (ℕ → Act DbError Event) → EventRow → Act DbError Unit
deliver cancelled hydrate e = deliver_kind cancelled hydrate e.kind e

-- The closure of pollOnce that hands the rows that were read to deliver
unfoldable pub deliver_all :
    Bool → Option (ℕ → Act DbError Event) → List EventRow → Act DbError Unit
unfolding deliver
deliver_all cancelled hydrate [] = pure tt
deliver_all cancelled hydrate (e ∷ es) =
    deliver cancelled hydrate e >> deliver_all cancelled hydrate es
