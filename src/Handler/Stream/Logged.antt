-- ===== src/Handler/Stream/Logged.antt =====
-- A stream of handler/stream.go behind the recorder of middleware/logging.go.
use sakura_intern_team_e.Prelude.{
  ℕ, ◌≡◌, refl, Bool, Option, none, some, List, [], ◌∷◌, arith, Option-cases, Bool-cases, inl, inr,
  ap, ◌∙◌,
}
use sakura_intern_team_e.Db.Tables.{Text}
use sakura_intern_team_e.Realtime.Hub.{Hub, receive, subscribe}
use sakura_intern_team_e.Realtime.Hub.Histories.{step}
use sakura_intern_team_e.Http.{Writer, ping_line}
use sakura_intern_team_e.Middleware.Logging.{Recorder, recorder, flush_if_able, logging, log_status}
use sakura_intern_team_e.Handler.Stream.{
  Turn, others, reads, ticks, hangs_up, Stream, emit, send_event, forward, open_stream,
  stream_events, stream_key, leave,
}

-- A stream's handler as Logging sees it: what it did beside the connection, and the connection.
abbrev pub served : {E S : Type 0} → Option (Stream E S) → Option ((Hub E × Bool) × S)
served none = none
served (some st) = some ((st.hub, st.returned), st.sent)

-- A writer with the recorder's Flush
abbrev pub with_flush : {S : Type 0} → Writer S → Writer S
with_flush conn = record conn { flush = some (flush_if_able conn) }

abbrev pub with_status : {A S : Type 0} → ℕ → Option (A × S) → Option (A × S × ℕ)
with_status k none = none
with_status k (some (a, s)) = some (a, s, k)

module _ {E S : Type 0} (marshal : E → Option Text) (conn : Writer S) where
  abbrev recorded : ℕ → Option (Stream E S) → Option (Stream E (Recorder S))
  recorded k none = none
  recorded k (some st) = some (record {
    hub = st.hub;
    sent = record { inner = st.sent; status = k };
    returned = st.returned;
  })

  abbrev at : ℕ → S → Recorder S
  at k s = record { inner = s; status = k }

  abbrev flushes : Recorder S → Recorder S
  flushes r = record r { inner = flush_if_able conn r.inner }

  send_event-recorder :
      (k : ℕ) (l : Option Text) (s : S)
      → send_event marshal (recorder conn) flushes l (at k s)
        ≡ at k (send_event marshal (with_flush conn) (flush_if_able conn) l s)
  unfolding recorder
  send_event-recorder k none s = refl
  send_event-recorder k (some b) s = refl

  forward-recorder :
      (ch k : ℕ) (ts : List (Turn E)) (h : Hub E) (s : S)
      → forward marshal (recorder conn) flushes ch ts h (at k s)
        ≡ recorded k (forward marshal (with_flush conn) (flush_if_able conn) ch ts h s)
  unfolding forward recorder
  forward-recorder ch k [] h s = refl
  forward-recorder ch k (others c ∷ ts) h s = elim (Option-cases (step h c)) [
    | inl e ↦ rw (e, forward) refl
    | inr (h', e) ↦ rw (e, forward) (forward-recorder ch k ts h' s)
  ]
  forward-recorder ch k (reads ∷ ts) h s = elim (Option-cases (receive h ch)) [
    | inl e ↦ elim (Bool-cases (h.channels ch).closed) [
      | inl c ↦ rw (e, c, forward) refl
      | inr c ↦ rw (e, c, forward) (forward-recorder ch k ts h s)
    ]
    | inr ((ev, h'), e) ↦
        rw (e, forward, send_event-recorder k (marshal ev) s)
          (forward-recorder ch k ts h'
            (send_event marshal (with_flush conn) (flush_if_able conn) (marshal ev) s))
  ]
  forward-recorder ch k (ticks ∷ ts) h s =
      forward-recorder ch k ts h (emit (with_flush conn) (flush_if_able conn) ping_line s)
  forward-recorder ch k (hangs_up ∷ ts) h s = refl

  leave-recorded :
      (ch k : ℕ) (st : Option (Stream E S)) → leave ch (recorded k st) ≡ recorded k (leave ch st)
  leave-recorded ch k none = refl
  leave-recorded ch k (some st) = elim (Bool-cases st.returned) [
    | inl e ↦ ground arith
    | inr e ↦ ground arith
  ]

  stream_key-recorder :
      (key : ℕ) (ts : List (Turn E)) (h : Hub E) (s : S)
      → stream_key marshal (recorder conn) key ts h (at 200 s)
        ≡ recorded 200 (stream_key marshal (with_flush conn) key ts h s)
  unfolding stream_key stream_events recorder
  stream_key-recorder key ts h s =
      let (ch, h₁) = subscribe h key in
      let opened = open_stream (with_flush conn) (flush_if_able conn) s in
      ap (leave ch) (forward-recorder ch 200 ts h₁ opened)
      ∙ leave-recorded ch 200
          (forward marshal (with_flush conn) (flush_if_able conn) ch ts h₁ opened)

  log_status-recorded :
      (k : ℕ) (st : Option (Stream E S))
      → log_status (served (recorded k st)) ≡ with_status k (served st)
  log_status-recorded k none = refl
  log_status-recorded k (some st) = refl

  -- Behind Logging a stream is served as by its own writer with a Flush that does nothing where the
  -- writer has none: it is never refused, and the logged status is 200.
  pub logging-stream_key :
      (key : ℕ) (ts : List (Turn E)) (h : Hub E) (s : S)
      → logging (λ c r. served (stream_key marshal c key ts h r)) conn s
        ≡ with_status 200 (served (stream_key marshal (with_flush conn) key ts h s))
  unfolding logging
  logging-stream_key key ts h s =
      ap (λ o. log_status (served o)) (stream_key-recorder key ts h s)
      ∙ log_status-recorded 200 (stream_key marshal (with_flush conn) key ts h s)
