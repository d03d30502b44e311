-- ===== src/Realtime/Hub/Queue.antt =====
-- One subscription of the hub of realtime/hub.go, seen as a queue that its key's events enter.
use sakura_intern_team_e.Prelude.{
  ℕ, ◌≡◌, ◌≢◌, refl, inl, inr, true, false, none, some, List, [], ◌∷◌, ◌++◌, arith, ◌==◌, ltb,
  if◌then◌else◌, length, contains, Option-cases,
}
use sakura_intern_team_e.Realtime.Hub.{
  Hub, sub_buffer, subscribers, subscribe, unsubscribe, publish_hub, receive, update,
}
use sakura_intern_team_e.Realtime.Hub.Histories.{
  Call, step, subscribes, unsubscribes, publishes, receives, unsubscribe-exact,
}
use sakura_intern_team_e.Realtime.Hub.Invariant.{
  IsValid, subscribe-IsValid, unsubscribe-IsValid, receive-IsValid, subscribers-subscribe,
}
use sakura_intern_team_e.Realtime.Hub.Delivery.{publish_hub-delivered, publish_hub-IsValid}

module _ {E : Type 0} where
  -- A queue of at most `sub_buffer` events, where an event that finds it full is lost.
  abbrev pub enqueue : E → List E → List E
  enqueue ev q = if ltb (length q) sub_buffer then q ++ ev ∷ [] else q

  -- The queue after another goroutine's call.
  abbrev pub queued : ℕ → Call E → List E → List E
  queued key (publishes k ev) q = if k == key then enqueue ev q else q
  queued key (subscribes k) q = q
  queued key (unsubscribes c) q = q
  queued key (receives c) q = q

  -- The call is not one of the channel's own stream.
  abbrev pub IsForeign : ℕ → Call E → Type 0
  IsForeign ch (unsubscribes c) = c ≢ ch
  IsForeign ch (receives c) = c ≢ ch
  IsForeign ch (subscribes k) = Unit
  IsForeign ch (publishes k ev) = Unit

  -- The channel is subscribed under its key, and its buffer is the queue.
  pub record Holds (key ch : ℕ) (q : List E) (h : Hub E) : Type 0 where
    pub valid : IsValid h
    pub member : contains ch (subscribers h key) ≡ true
    pub buffer : (h.channels ch).buffer ≡ q

  pub Holds-subscribed :
      (h : Hub E) (key : ℕ) → IsValid h → Holds key h.next_channel [] (subscribe h key).1
  unfolding subscribe
  Holds-subscribed h key v = record {
    valid = subscribe-IsValid h key v;
    member = grind (arith, subscribers-subscribe h key key);
    buffer = grind arith;
  }

  module _ (key ch : ℕ) (q : List E) (h : Hub E) (s : Holds key ch q h) where
    pub subscribed_at : (k : ℕ) → contains ch (subscribers h k) ≡ (k == key)
    subscribed_at k = grind (arith, s.valid.owned k ch, s.valid.owned key ch s.member, s.member)

    Holds-subscribes : (k : ℕ) → Holds key ch q (subscribe h k).1
    unfolding subscribe
    Holds-subscribes k = record {
      valid = subscribe-IsValid h k s.valid;
      member = grind (arith, subscribers-subscribe h k key, s.member);
      buffer = grind (arith, s.valid.issued key ch s.member, s.buffer);
    }

    Holds-unsubscribes : (c : ℕ) → c ≢ ch → Holds key ch q (unsubscribe h c)
    unfolding unsubscribe
    Holds-unsubscribes c ne = record {
      valid = unsubscribe-IsValid h c s.valid;
      member = grind (arith, (unsubscribe-exact h c s.valid).0 key ch, s.member);
      buffer = grind (arith, s.buffer);
    }

    Holds-receives :
        (c : ℕ) {ev : E} {h' : Hub E} → c ≢ ch → receive h c ≡ some (ev, h') → Holds key ch q h'
    unfolding receive subscribers
    Holds-receives c ne e = record {
      valid = receive-IsValid h c s.valid e;
      member = grind (arith, s.member);
      buffer = grind (arith, s.buffer);
    }

    Holds-publishes :
        (k : ℕ) (ev : E)
        → (h' : Hub E) × (publish_hub h k ev ≡ some h')
          × Holds key ch (queued key (publishes k ev) q) h'
    Holds-publishes k ev =
        let (h', e, subs, next, at) = publish_hub-delivered h k ev s.valid in
        (
          h',
          e,
          record {
            valid = publish_hub-IsValid h h' k ev s.valid e;
            member = unfold subscribers in grind (arith, subs, s.member);
            buffer = grind (arith, at ch, subscribed_at k, s.buffer);
          },
        )

    -- A foreign call does not panic, and the channel's buffer changes as the queue does.
    pub Holds-step :
        (c : Call E)
        → IsForeign ch c
        → (h' : Hub E) × (step h c ≡ some h') × Holds key ch (queued key c q) h'
    unfolding step
    Holds-step (subscribes k) f = ((subscribe h k).1, refl, Holds-subscribes k)
    Holds-step (unsubscribes c) f = (unsubscribe h c, refl, Holds-unsubscribes c f)
    Holds-step (publishes k ev) f = Holds-publishes k ev
    Holds-step (receives c) f = elim (Option-cases (receive h c)) [
      | inl e ↦ (h, rw e, s)
      | inr ((ev, h'), e) ↦ (h', rw e, Holds-receives c f e)
    ]

  -- With nothing queued the channel is empty and open.
  pub Holds-empty :
      (key ch : ℕ) (h : Hub E)
      → Holds key ch [] h
      → (receive h ch ≡ none) × ((h.channels ch).closed ≡ false)
  unfolding receive
  Holds-empty key ch h s = (rw (s.buffer, receive) refl, s.valid.live key ch s.member)

  abbrev after_read : Hub E → ℕ → List E → Hub E
  after_read h ch q = record h {
    channels = update h.channels ch (record (h.channels ch) { buffer = q });
  }

  -- Reading takes the oldest event of the queue.
  pub Holds-read :
      (key ch : ℕ) (ev : E) (q : List E) (h : Hub E)
      → Holds key ch (ev ∷ q) h
      → (h' : Hub E) × (receive h ch ≡ some (ev, h')) × Holds key ch q h'
  unfolding receive
  Holds-read key ch ev q h s =
      let e : receive h ch ≡ some (ev, after_read h ch q) = rw (s.buffer, receive) refl in
      (
        after_read h ch q,
        e,
        record {
          valid = receive-IsValid h ch s.valid e;
          member = unfold subscribers in grind (arith, s.member);
          buffer = grind arith;
        },
      )
