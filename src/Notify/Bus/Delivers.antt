-- ===== src/Notify/Bus/Delivers.antt =====
-- What deliver of notify/bus.go puts into the buffers of this process.
use sakura_intern_team_e.Prelude.{
  ℕ, Bool, true, false, ◌≡◌, refl, Option, some, List, [], ◌∷◌, ltb, length, contains, arith,
  Bool-cases, inl, inr,
}
use sakura_intern_team_e.Db.Tables.{EventRow, EventKind}
use sakura_intern_team_e.Db.Errors.{DbError}
use sakura_intern_team_e.Model.{Event, notification_event}
use sakura_intern_team_e.Realtime.Hub.{Hub, subscribers, has_subscribers, publish}
use sakura_intern_team_e.Realtime.Hub.Invariant.{IsValid}
use sakura_intern_team_e.Realtime.Hub.Delivery.{delivered, publish_hub-delivered}
use sakura_intern_team_e.Action.{World, Act, ok, ◌>>=◌}
use sakura_intern_team_e.Handler.Notification.{publish_locally}
use sakura_intern_team_e.Notify.Bus.{deliver, deliver_notification_event, notification_subscribers}

no_member : (c : ℕ) (cs : List ℕ) → ltb 0 (length cs) ≡ false → contains c cs ≡ false
no_member c [] h = refl
no_member c (x ∷ cs) h = ground arith

module _ (e : EventRow) (w : World) (h : Hub Event) where
  delivers-some :
      w.notifications ≡ some h
      → IsValid h
      → has_subscribers (some h) e.subject_id ≡ true
      → (h' : Hub Event) × (deliver_notification_event e w
          ≡ (ok tt, record w { notifications = some h' }))
        × ((c : ℕ)
            → h'.channels c
              ≡ delivered
                  (notification_event e.ntype e.post_id)
                  (contains c (subscribers h e.subject_id))
                  (h.channels c))
  unfolding deliver_notification_event ◌>>=◌ publish_locally notification_subscribers publish
  delivers-some hub v some_one =
      let (h', published, _, _, at) =
        publish_hub-delivered h e.subject_id (notification_event e.ntype e.post_id) v in
      (h', ground arith, at)

  delivers-none :
      w.notifications ≡ some h
      → has_subscribers (some h) e.subject_id ≡ false
      → deliver_notification_event e w ≡ (ok tt, w)
  unfolding deliver_notification_event ◌>>=◌ notification_subscribers
  delivers-none hub nobody = ground arith

unreached :
    (h : Hub Event) (e : EventRow) (c : ℕ)
    → has_subscribers (some h) e.subject_id ≡ false
    → h.channels c
      ≡ delivered
          (notification_event e.ntype e.post_id)
          (contains c (subscribers h e.subject_id))
          (h.channels c)
unfolding has_subscribers
unreached h e c nobody = ground (arith, no_member c (subscribers h e.subject_id) nobody)

deliver-kind :
    (cancelled : Bool) (hydrate : Option (ℕ → Act DbError Event)) (e : EventRow) (w : World)
    → e.kind ≡ EventKind.notification
    → deliver cancelled hydrate e w ≡ deliver_notification_event e w
unfolding deliver
deliver-kind cancelled hydrate e w kind = ground arith

-- A notification event row reaches each subscriber of its user in this process that has room, once,
-- and no other channel; delivering does not panic.
pub deliver-notification :
    (cancelled : Bool) (hydrate : Option (ℕ → Act DbError Event)) (e : EventRow) (w : World)
    (h : Hub Event)
    → e.kind ≡ EventKind.notification
    → w.notifications ≡ some h
    → IsValid h
    → (h' : Hub Event) × ((deliver cancelled hydrate e w).0 ≡ ok tt)
      × ((deliver cancelled hydrate e w).1.notifications ≡ some h')
      × ((c : ℕ)
          → h'.channels c
            ≡ delivered
                (notification_event e.ntype e.post_id)
                (contains c (subscribers h e.subject_id))
                (h.channels c))
unfolding deliver
deliver-notification cancelled hydrate e w h kind hub v =
    elim (Bool-cases (has_subscribers (some h) e.subject_id)) [
      | inl someone ↦
          let (h', ran, at) = delivers-some e w h hub v someone in
          let same = deliver-kind cancelled hydrate e w kind in
          (h', rw (same, ran) refl, rw (same, ran) refl, at)
      | inr nobody ↦
          let same = deliver-kind cancelled hydrate e w kind in
          let quiet = delivers-none e w h hub nobody in
          (h, rw (same, quiet) refl, rw (same, quiet) hub, λ c. unreached h e c nobody)
    ]
