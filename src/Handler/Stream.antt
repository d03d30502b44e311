-- ===== src/Handler/Stream.antt =====
-- app/backend/internal/handler/stream.go: the two event streams. A stream is one goroutine that
-- waits in a `select`; while it waits, other goroutines call the hub.
pub mod Relay
pub mod Logged
use sakura_intern_team_e.Prelude.{ℕ, Bool, true, false, Option, none, some, List, [], ◌∷◌}
use sakura_intern_team_e.Db.Tables.{Text}
use sakura_intern_team_e.Realtime.Hub.{Hub, subscribe, unsubscribe, receive}
use sakura_intern_team_e.Realtime.Hub.Histories.{Call, step}
use sakura_intern_team_e.Model.{Event}
use sakura_intern_team_e.Action.{Act, World, Result, ok, panic, pure, raise, ◌>>=◌}
use sakura_intern_team_e.Http.{Writer, Chunk, event_line, ping_line, respond}
use sakura_intern_team_e.Handler.Response.{Response, respond_error, current_user_id}
use sakura_intern_team_e.Handler.Fetch.{thread_root_id}

-- What happens next: another goroutine calls the hub, or a case of the `select` is taken. With
-- nothing waiting in an open channel the first case is not ready, and `reads` does nothing.
pub data Turn (E : Type 0) : Type 0 where
  others : Call E → Turn E
  reads ticks hangs_up : Turn E

-- The hub and the connection after some turns, and whether the handler has returned.
pub record Stream (E S : Type 0) : Type 0 where
  pub hub : Hub E
  pub sent : S
  pub returned : Bool

module _ {S : Type 0} (conn : Writer S) where
  -- One line and its flush
  abbrev pub emit : (S → S) → Chunk → S → S
  emit flush c s = flush (conn.write c s)

  -- The response head, flushed
  abbrev pub open_stream : (S → S) → S → S
  open_stream flush s =
      let s₁ = conn.set_header "Content-Type" "text/event-stream" s in
      let s₂ = conn.set_header "Cache-Control" "no-cache" s₁ in
      let s₃ = conn.set_header "Connection" "keep-alive" s₂ in
      let s₄ = conn.set_header "X-Accel-Buffering" "no" s₃ in flush (conn.write_header 200 s₄)

-- `defer unsubscribe()`
abbrev pub leave : {E S : Type 0} → ℕ → Option (Stream E S) → Option (Stream E S)
leave ch none = none
leave ch (some st) = elim st.returned [
  | true ↦ some (record st { hub = unsubscribe st.hub ch })
  | false ↦ some st
]

module _ {E S : Type 0} (marshal : E → Option Text) (conn : Writer S) where
  -- An event that json.Marshal refuses is skipped.
  abbrev pub send_event : (S → S) → Option Text → S → S
  send_event flush none s = s
  send_event flush (some b) s = emit conn flush (event_line b) s

  -- The loop of streamEvents; `none` is a panic of another goroutine.
  unfoldable pub forward : (S → S) → ℕ → List (Turn E) → Hub E → S → Option (Stream E S)
  forward flush ch [] h s = some (record { hub = h; sent = s; returned = false })
  forward flush ch (others c ∷ ts) h s = elim (step h c) [
    | none ↦ none
    | some h' ↦ forward flush ch ts h' s
  ]
  forward flush ch (reads ∷ ts) h s = elim (receive h ch) [
    | none ↦ elim (h.channels ch).closed [
      | true ↦ some (record { hub = h; sent = s; returned = true })
      | false ↦ forward flush ch ts h s
    ]
    | some (ev, h') ↦ forward flush ch ts h' (send_event flush (marshal ev) s)
  ]
  forward flush ch (ticks ∷ ts) h s = forward flush ch ts h (emit conn flush ping_line s)
  forward flush ch (hangs_up ∷ ts) h s = some (record { hub = h; sent = s; returned = true })

  -- streamEvents
  unfoldable pub stream_events : ℕ → List (Turn E) → Hub E → S → Option (Stream E S)
  unfolding forward respond
  stream_events ch ts h s = elim conn.flush [
    | none ↦ some (record {
      hub = h;
      sent = respond conn (respond_error 500 "streaming unsupported") s;
      returned = true;
    })
    | some flush ↦ forward flush ch ts h (open_stream conn flush s)
  ]

  -- Subscribe, streamEvents, and the deferred unsubscribe
  unfoldable pub stream_key : ℕ → List (Turn E) → Hub E → S → Option (Stream E S)
  unfolding stream_events subscribe
  stream_key key ts h s = let (ch, h₁) = subscribe h key in leave ch (stream_events ch ts h₁ s)

module _ {S : Type 0} (marshal : Event → Option Text) (conn : Writer S) where
  -- Streaming from the hub of notifications; Subscribe of a nil hub panics.
  abbrev notifications_after : Option (Stream Event S) → World → Result Response S × World
  notifications_after none w = (panic, w)
  notifications_after (some st) w = (ok st.sent, record w { notifications = some st.hub })

  -- NotificationStream, until the turns run out
  unfoldable pub notification_stream : Option ℕ → List (Turn Event) → S → Act Response S
  unfolding stream_key
  notification_stream auth ts s w = elim w.notifications [
    | none ↦ (panic, w)
    | some h ↦ notifications_after (stream_key marshal conn (current_user_id auth) ts h s) w
  ]

  abbrev threads_after : Option (Stream Event S) → World → Result Response S × World
  threads_after none w = (panic, w)
  threads_after (some st) w = (ok st.sent, record w { threads = some st.hub })

  unfoldable pub stream_thread : ℕ → List (Turn Event) → S → Act Response S
  unfolding stream_key
  stream_thread root ts s w = elim w.threads [
    | none ↦ (panic, w)
    | some h ↦ threads_after (stream_key marshal conn root ts h s) w
  ]

  -- ThreadStream, until the turns run out; the id is that of the path.
  unfoldable pub thread_stream : Option ℕ → List (Turn Event) → S → Act Response S
  unfolding stream_thread thread_root_id respond
  thread_stream none ts s = pure (respond conn (respond_error 400 "invalid id") s)
  thread_stream (some id) ts s = thread_root_id id >>= λ root. stream_thread root ts s
