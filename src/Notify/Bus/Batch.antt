-- ===== src/Notify/Bus/Batch.antt =====
-- What a batch of event rows puts into the buffer of one subscription of this process.
use sakura_intern_team_e.Prelude.{
  ℕ, ◌≡◌, refl, Bool, true, false, Option, none, some, List, [], ◌∷◌, arith, ◌==◌, ==→eq,
  Bool-cases, inl, inr,
}
use sakura_intern_team_e.Db.Tables.{EventRow, EventKind}
use sakura_intern_team_e.Db.Errors.{DbError}
use sakura_intern_team_e.Model.{Event, notification_event}
use sakura_intern_team_e.Realtime.Hub.{Hub, has_subscribers, publish, publish_hub}
use sakura_intern_team_e.Realtime.Hub.Histories.{publishes, step}
use sakura_intern_team_e.Realtime.Hub.Queue.{Holds, Holds-step}
use sakura_intern_team_e.Realtime.Hub.Delivery.{PointsToValid, publish-total, has_subscribers_iff}
use sakura_intern_team_e.Action.{World, Act, Result, ok, err, panic, pure, ◌>>=◌}
use sakura_intern_team_e.Action.Settles.{
  HubProperty, Settles, Outcome, Anything, anything, Settles-pure, Settles-if, Settles-bind,
  Settles-bind_known, Settles-IsCaught, IsCaught, settles_rules,
}
use sakura_intern_team_e.Action.Guarded.{Guarded}
use sakura_intern_team_e.Db.Invariant.{IsWellFormed}
use sakura_intern_team_e.Handler.Notification.{publish_locally}
use sakura_intern_team_e.Handler.Reply.{rebuild_reply_event}
use sakura_intern_team_e.Handler.Answers.Posts.{fetch_post-Settles}
use sakura_intern_team_e.Notify.Bus.Arrivals.{arrived, arrivals}
use sakura_intern_team_e.Notify.Bus.{
  deliver, deliver_all, deliver_kind, deliver_notification_event, deliver_reply, hydrate_twice,
  publish_hydrated, publish_thread, thread_subscribers, notification_subscribers,
}

-- The subscription's buffer is the queue, and the hub of threads is valid.
abbrev pub Serves : ℕ → ℕ → List Event → HubProperty
Serves key ch q notifications threads =
    ((h : Hub Event) × (notifications ≡ some h) × Holds key ch q h) × PointsToValid threads

-- ... and the tables are well formed, and others keep them so.
abbrev pub Delivers : ℕ → ℕ → List Event → World → Type 0
Delivers key ch q = Guarded (Serves key ch q) IsWellFormed

-- No error
abbrev Never : DbError → Type 0
Never e = ⊥

-- The hubs may change where the tables do not.
moved :
    {I J : HubProperty} {w : World} {notifications threads : Option (Hub Event)}
    → Guarded I IsWellFormed w
    → J notifications threads
    → Guarded J IsWellFormed (record w { notifications = notifications; threads = threads })
moved g s = record {
  within = record { hubs = s };
  upholds = record { holds = g.upholds.holds; others = g.upholds.others };
}

module _ (key ch : ℕ) (q : List Event) where
  publish_thread-Settles :
      (root : ℕ) (ev : Event) → Settles (Delivers key ch q) Never Anything (publish_thread root ev)
  unfolding publish_thread
  publish_thread-Settles root ev = record {
    at = λ w s.
        let (hub, e, v) = publish-total w.threads root ev s.within.hubs.1 in
        rw (e, publish_thread) (anything tt, moved s (s.within.hubs.0, v));
  }

  thread_subscribers-Settles :
      (root : ℕ) → Settles (Delivers key ch q) Never Anything (thread_subscribers root)
  unfolding thread_subscribers
  thread_subscribers-Settles root = record { at = λ w s. (anything _, s) }

  rebuild-Settles :
      (post : ℕ) → Settles (Delivers key ch q) Anything Anything (rebuild_reply_event post)
  unfolding rebuild_reply_event
  rebuild-Settles post = search (settles_rules, fetch_post-Settles) depth 8

  twice-Settles :
      (cancelled : Bool) (hydrate : Act DbError Event) (r : Result DbError Event)
      → Settles (Delivers key ch q) Anything Anything hydrate
      → IsCaught r
      → Settles (Delivers key ch q) Never IsCaught (hydrate_twice cancelled hydrate r)
  unfolding hydrate_twice
  twice-Settles cancelled hydrate (ok ev) s c = Settles-pure (ok ev) tt
  twice-Settles cancelled hydrate (err e) s c =
      Settles-if _ _ _ (Settles-IsCaught _ _ hydrate s) (Settles-pure (err e) tt)
  twice-Settles cancelled hydrate panic s c = absurd c

  publish_hydrated-Settles :
      (root : ℕ) (r : Result DbError Event)
      → IsCaught r
      → Settles (Delivers key ch q) Never Anything (publish_hydrated root r)
  unfolding publish_hydrated
  publish_hydrated-Settles root (ok ev) c = publish_thread-Settles root ev
  publish_hydrated-Settles root (err e) c = Settles-pure tt (anything tt)
  publish_hydrated-Settles root panic c = absurd c

  hydrated-Settles :
      (cancelled : Bool) (hydrate : Act DbError Event) (root : ℕ) (r : Result DbError Event)
      → Settles (Delivers key ch q) Anything Anything hydrate
      → IsCaught r
      → Settles
          (Delivers key ch q)
          Never
          Anything
          (hydrate_twice cancelled hydrate r >>= publish_hydrated root)
  hydrated-Settles cancelled hydrate root r s c =
      Settles-bind_known _ _ (twice-Settles cancelled hydrate r s c)
        (λ out known. publish_hydrated-Settles root out known)

  deliver_reply-Settles :
      (cancelled : Bool) (root : ℕ) (post : Option ℕ)
      → Settles
          (Delivers key ch q)
          Never
          Anything
          (deliver_reply cancelled (some rebuild_reply_event) root post)
  unfolding deliver_reply
  deliver_reply-Settles cancelled root none = search settles_rules
  deliver_reply-Settles cancelled root (some post) =
      Settles-bind _ _ (thread_subscribers-Settles root) (λ wanted.
        Settles-if _ _ _ (Settles-pure tt (anything tt)) (
          Settles-bind_known _ _ (Settles-IsCaught _ _ _ (rebuild-Settles post))
            (λ first known. hydrated-Settles cancelled _ root first (rebuild-Settles post) known)))

module _ (key ch : ℕ) (q : List Event) (e : EventRow) (w : World) (h : Hub Event) where
  heard :
      (h' : Hub Event)
      → w.notifications ≡ some h
      → has_subscribers (some h) e.subject_id ≡ true
      → publish_hub h e.subject_id (notification_event e.ntype e.post_id) ≡ some h'
      → deliver_notification_event e w ≡ (ok tt, record w { notifications = some h' })
  unfolding deliver_notification_event ◌>>=◌ publish_locally notification_subscribers publish
  heard h' hub someone published = ground arith

  unheard :
      w.notifications ≡ some h
      → has_subscribers (some h) e.subject_id ≡ false
      → deliver_notification_event e w ≡ (ok tt, w)
  unfolding deliver_notification_event ◌>>=◌ notification_subscribers
  unheard hub nobody = ground arith

  not_ours :
      Holds key ch q h
      → has_subscribers (some h) e.subject_id ≡ false
      → arrived key EventKind.notification e q ≡ q
  not_ours s nobody = elim (Bool-cases (e.subject_id == key)) [
    | inl same ↦
        let someone = (has_subscribers_iff h key).1 (ch, s.member) in
        let ours = ==→eq e.subject_id key same in cc
    | inr other ↦ rw other refl
  ]

  deliver_notification-Serves :
      w.notifications ≡ some h
      → Holds key ch q h
      → Delivers key ch q w
      → (v : World) × (deliver_notification_event e w ≡ (ok tt, v))
        × Delivers key ch (arrived key EventKind.notification e q) v
  deliver_notification-Serves hub s g = elim (Bool-cases (has_subscribers (some h) e.subject_id)) [
    | inl someone ↦
        let ev = notification_event e.ntype e.post_id in
        let (h', published, s') = Holds-step key ch q h s (publishes e.subject_id ev) tt in
        (
          record w { notifications = some h' },
          heard h' hub someone (unfold step in published),
          moved g ((h', refl, s'), g.within.hubs.1),
        )
    | inr nobody ↦ (w, unheard hub nobody, rw (not_ours s nobody) g)
  ]

-- What settles without an error has ended with a value.
ended :
    (I : World → Type 0) (r : Result DbError Unit × World)
    → Outcome Never Anything r.0 × I r.1
    → (v : World) × (r ≡ (ok tt, v)) × I v
ended I (ok a, w) o = (w, refl, o.1)
ended I (err e, w) o = absurd o.0
ended I (panic, w) o = absurd o.0

module _ (key ch : ℕ) (cancelled : Bool) where
  deliver_kind-Serves :
      (k : EventKind) (e : EventRow) (q : List Event) (w : World)
      → Delivers key ch q w
      → (v : World) × (deliver_kind cancelled (some rebuild_reply_event) k e w ≡ (ok tt, v))
        × Delivers key ch (arrived key k e q) v
  unfolding pure
  deliver_kind-Serves EventKind.notification e q w s =
      let ((h, hub, s'), t) = s.within.hubs in deliver_notification-Serves key ch q e w h hub s' s
  deliver_kind-Serves EventKind.reply e q w s =
      ended (Delivers key ch q) _
        ((deliver_reply-Settles key ch q cancelled e.subject_id e.post_id).at w s)
  deliver_kind-Serves EventKind.other e q w s = (w, refl, s)

  -- However the rows are kinded and whatever hydrating meets, delivering a batch ends, and the
  -- subscription's buffer has taken the rows' notifications of its key as a queue does.
  pub deliver_all-Serves :
      (es : List EventRow) (q : List Event) (w : World)
      → Delivers key ch q w
      → (v : World) × (deliver_all cancelled (some rebuild_reply_event) es w ≡ (ok tt, v))
        × Delivers key ch (arrivals key es q) v
  unfolding deliver_all deliver ◌>>=◌
  deliver_all-Serves [] q w s = (w, refl, s)
  deliver_all-Serves (e ∷ es) q w s =
      let (u, first, s₁) = deliver_kind-Serves e.kind e q w s in
      let (v, rest, s₂) = deliver_all-Serves es (arrived key e.kind e q) u s₁ in
      (v, rw first rest, s₂)
