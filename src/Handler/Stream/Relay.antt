-- ===== src/Handler/Stream/Relay.antt =====
-- What a stream of handler/stream.go sends, beside a queue that only its key's events enter.
use sakura_intern_team_e.Prelude.{
  ℕ, ◌≡◌, refl, Bool, true, false, not, ◌&&◌, Option, none, some, List, [], ◌∷◌, arith, ◌==◌,
  contains, Bool-cases, inl, inr, ◌∙◌, ap,
}
use sakura_intern_team_e.Db.Tables.{Text}
use sakura_intern_team_e.Realtime.Hub.{Hub, subscribers, subscribe, unsubscribe}
use sakura_intern_team_e.Realtime.Hub.Histories.{unsubscribe-exact}
use sakura_intern_team_e.Realtime.Hub.Invariant.{IsValid, unsubscribe-IsValid}
use sakura_intern_team_e.Realtime.Hub.Queue.{
  IsForeign, queued, Holds, Holds-subscribed, Holds-step, Holds-empty, Holds-read, subscribed_at,
}
use sakura_intern_team_e.Http.{Writer, Chunk, event_line, ping_line}
use sakura_intern_team_e.Handler.Stream.{
  Turn, others, reads, ticks, hangs_up, Stream, emit, send_event, forward, open_stream,
  stream_events, stream_key, leave,
}

abbrev pub line_of : Option Text → List Chunk → List Chunk
line_of none cs = cs
line_of (some b) cs = event_line b ∷ cs

module _ {E : Type 0} where
  -- Only the stream itself reads its channel or calls its closure.
  abbrev pub AllForeign : ℕ → List (Turn E) → Type 0
  AllForeign ch [] = Unit
  AllForeign ch (others c ∷ ts) = IsForeign ch c × AllForeign ch ts
  AllForeign ch (reads ∷ ts) = AllForeign ch ts
  AllForeign ch (ticks ∷ ts) = AllForeign ch ts
  AllForeign ch (hangs_up ∷ ts) = AllForeign ch ts

  abbrev pub has_hung_up : List (Turn E) → Bool
  has_hung_up [] = false
  has_hung_up (hangs_up ∷ ts) = true
  has_hung_up (others c ∷ ts) = has_hung_up ts
  has_hung_up (reads ∷ ts) = has_hung_up ts
  has_hung_up (ticks ∷ ts) = has_hung_up ts

  -- The lines that a stream sends until the client hangs up: what enters the queue leaves it in
  -- order, and every tick sends a ping.
  unfoldable pub relayed : (E → Option Text) → ℕ → List (Turn E) → List E → List Chunk
  relayed marshal key [] q = []
  relayed marshal key (others c ∷ ts) q = relayed marshal key ts (queued key c q)
  relayed marshal key (reads ∷ ts) [] = relayed marshal key ts []
  relayed marshal key (reads ∷ ts) (ev ∷ q) = line_of (marshal ev) (relayed marshal key ts q)
  relayed marshal key (ticks ∷ ts) q = ping_line ∷ relayed marshal key ts q
  relayed marshal key (hangs_up ∷ ts) q = []

module _ {S : Type 0} (conn : Writer S) (flush : S → S) where
  -- Every line is written and flushed, one after the other.
  abbrev pub emit_all : List Chunk → S → S
  emit_all [] s = s
  emit_all (c ∷ cs) s = emit_all cs (emit conn flush c s)

module _ {E S : Type 0} (marshal : E → Option Text) (conn : Writer S) (flush : S → S) where
  -- The loop writes what the queue relays, and ends where the client hangs up.
  record Relays (key ch : ℕ) (ts : List (Turn E)) (q : List E) (s : S) (st : Stream E S)
      : Type 0 where
    sent : st.sent ≡ emit_all conn flush (relayed marshal key ts q) s
    returned : st.returned ≡ has_hung_up ts
    left : (r : List E) × Holds key ch r st.hub

  emit_all-line_of :
      (l : Option Text) (cs : List Chunk) (s : S)
      → emit_all conn flush (line_of l cs) s
        ≡ emit_all conn flush cs (send_event marshal conn flush l s)
  emit_all-line_of none cs s = refl
  emit_all-line_of (some b) cs s = refl

  forward-Relays :
      (key ch : ℕ) (ts : List (Turn E)) (q : List E) (h : Hub E) (s : S)
      → Holds key ch q h
      → AllForeign ch ts
      → (st : Stream E S) × (forward marshal conn flush ch ts h s ≡ some st)
        × Relays key ch ts q s st
  unfolding forward relayed
  forward-Relays key ch [] q h s i f =
      (_, refl, record { sent = refl; returned = refl; left = (q, i) })
  forward-Relays key ch (others c ∷ ts) q h s i f =
      let (h', e, i') = Holds-step key ch q h i c f.0 in
      let (st, e', r) = forward-Relays key ch ts (queued key c q) h' s i' f.1 in
      (st, rw (e, forward) e', record { sent = r.sent; returned = r.returned; left = r.left })
  forward-Relays key ch (reads ∷ ts) [] h s i f =
      let (e, o) = Holds-empty key ch h i in
      let (st, e', r) = forward-Relays key ch ts [] h s i f in
      (st, rw (e, o, forward) e', record { sent = r.sent; returned = r.returned; left = r.left })
  forward-Relays key ch (reads ∷ ts) (ev ∷ q) h s i f =
      let (h', e, i') = Holds-read key ch ev q h i in
      let (st, e', r) =
        forward-Relays key ch ts q h' (send_event marshal conn flush (marshal ev) s) i' f in
      (
        st,
        rw (e, forward) e',
        record {
          sent = rw (emit_all-line_of (marshal ev) (relayed marshal key ts q) s) r.sent;
          returned = r.returned;
          left = r.left;
        },
      )
  forward-Relays key ch (ticks ∷ ts) q h s i f =
      let (st, e', r) = forward-Relays key ch ts q h (emit conn flush ping_line s) i f in
      (st, e', record { sent = r.sent; returned = r.returned; left = r.left })
  forward-Relays key ch (hangs_up ∷ ts) q h s i f =
      (_, refl, record { sent = refl; returned = refl; left = (q, i) })

  -- The deferred call takes the stream's channel out of the hub if the handler has returned.
  leave-exact :
      (key ch : ℕ) (r : List E) (st : Stream E S)
      → Holds key ch r st.hub
      → (st' : Stream E S) × (leave ch (some st) ≡ some st')
        × (st'.sent ≡ st.sent)
        × (st'.returned ≡ st.returned)
        × IsValid st'.hub
        × ((k : ℕ) → contains ch (subscribers st'.hub k) ≡ ((k == key) && not st'.returned))
        × ((st'.hub.channels ch).closed ≡ st'.returned)
  leave-exact key ch r st i = elim (Bool-cases st.returned) [
    | inl e ↦
        let (out, closed, again) = unsubscribe-exact st.hub ch i.valid in
        (
          record st { hub = unsubscribe st.hub ch },
          ground arith,
          refl,
          refl,
          unsubscribe-IsValid st.hub ch i.valid,
          λ k. grind (arith, out k ch),
          rw e closed,
        )
    | inr e ↦ (
      st,
      ground arith,
      refl,
      refl,
      i.valid,
      λ k. grind (arith, subscribed_at key ch r st.hub i k),
      rw e (i.valid.live key ch i.member),
    )
  ]

  stream_events-forward :
      (ch : ℕ) (ts : List (Turn E)) (h : Hub E) (s : S)
      → conn.flush ≡ some flush
      → stream_events marshal conn ch ts h s
        ≡ forward marshal conn flush ch ts h (open_stream conn flush s)
  unfolding stream_events
  stream_events-forward ch ts h s e = ground arith

  -- A stream on a valid hub, to a writer that can flush, while other goroutines make any calls but
  -- those of the stream's own channel: nothing panics, the hub stays valid, and the connection gets
  -- the head and then the lines that a queue of eight events relays, each flushed. The handler has
  -- returned exactly when the client has hung up; then its channel is closed and under no key, and
  -- until then it is open and under its own key only.
  pub stream_key-relayed :
      (h : Hub E) (key : ℕ) (ts : List (Turn E)) (s : S)
      → IsValid h
      → AllForeign h.next_channel ts
      → conn.flush ≡ some flush
      → (st : Stream E S) × (stream_key marshal conn key ts h s ≡ some st)
        × (st.sent ≡ emit_all conn flush (relayed marshal key ts []) (open_stream conn flush s))
        × (st.returned ≡ has_hung_up ts)
        × IsValid st.hub
        × ((k : ℕ)
            → contains h.next_channel (subscribers st.hub k) ≡ ((k == key) && not st.returned))
        × ((st.hub.channels h.next_channel).closed ≡ st.returned)
  unfolding stream_key subscribe
  stream_key-relayed h key ts s v f e =
      let ch = h.next_channel in
      let (st, e₁, r) =
        forward-Relays key ch ts [] (subscribe h key).1 (open_stream conn flush s)
          (Holds-subscribed h key v) f in
      let (st', e₂, same, still, valid, under, closed) = leave-exact key ch r.left.0 st r.left.1 in
      (
        st',
        ap (leave ch) (stream_events-forward ch ts (subscribe h key).1 s e ∙ e₁) ∙ e₂,
        same ∙ r.sent,
        still ∙ r.returned,
        valid,
        under,
        closed,
      )
