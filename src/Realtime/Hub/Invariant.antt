-- ===== src/Realtime/Hub/Invariant.antt =====
-- The invariant of the hub of realtime/hub.go, and that every method keeps it.
use sakura_intern_team_e.Prelude.{
  ℕ, ◌≡◌, ◌≢◌, ◌≤◌, ◌<◌, refl, inl, inr, true, false, not, ◌&&◌, some, List, [], ◌∷◌, arith, ◌==◌,
  if◌then◌else◌, lookup, length, lookup-insert, contains, Bool-cases,
}
use sakura_intern_team_e.Realtime.Hub.{
  Hub, sub_buffer, subscribers, new_hub, subscribe, unsubscribe, receive, remove_channel,
}
use sakura_intern_team_e.Realtime.Hub.Channels.{
  lookup-drop_subscription, drop_subscription-nonempty, contains-remove_channel,
}

-- No address is listed twice.
abbrev pub IsDistinct : List ℕ → Type 0
IsDistinct [] = Unit
IsDistinct (c ∷ cs) = (contains c cs ≡ false) × IsDistinct cs

remove_channel-IsDistinct :
    (ch : ℕ) (cs : List ℕ) → IsDistinct cs → IsDistinct (remove_channel ch cs)
remove_channel-IsDistinct ch [] d = tt
remove_channel-IsDistinct ch (c ∷ cs) d =
    grind (arith, remove_channel-IsDistinct ch cs d.1, contains-remove_channel c ch cs)

-- A subscribed channel is open, its closure has not run, and it stands under the key that the
-- closure captured; its address has been handed out. A buffer holds at most `sub_buffer` events,
-- no key is left with an empty set, and only the closure closes a channel.
pub record IsValid {E : Type 0} (h : Hub E) : Type 0 where
  pub live : (key c : ℕ) → contains c (subscribers h key) ≡ true → (h.channels c).closed ≡ false
  pub armed : (key c : ℕ) → contains c (subscribers h key) ≡ true → (h.channels c).once_done ≡ false
  pub owned : (key c : ℕ) → contains c (subscribers h key) ≡ true → (h.channels c).key ≡ key
  pub issued : (key c : ℕ) → contains c (subscribers h key) ≡ true → c < h.next_channel
  pub closes : (c : ℕ) → (h.channels c).closed ≡ (h.channels c).once_done
  pub bounded : (c : ℕ) → length (h.channels c).buffer ≤ sub_buffer
  pub distinct : (key : ℕ) → IsDistinct (subscribers h key)
  pub inhabited : (key : ℕ) → lookup key h.subs ≢ some []

module _ {E : Type 0} where
  pub new_hub-IsValid : IsValid (new_hub {E = E})
  unfolding new_hub subscribers lookup
  new_hub-IsValid = record {
    live = λ key c m. cc;
    armed = λ key c m. cc;
    owned = λ key c m. cc;
    issued = λ key c m. cc;
    closes = λ c. refl;
    bounded = λ c. omega arith;
    distinct = λ key. tt;
    inhabited = λ key e. cc;
  }

  pub subscribers-subscribe :
      (h : Hub E) (key k : ℕ)
      → subscribers (subscribe h key).1 k
        ≡ (if key == k then h.next_channel ∷ subscribers h key else subscribers h k)
  unfolding subscribe subscribers
  subscribers-subscribe h key k = grind (arith, lookup-insert)

  unissued-channel :
      (h : Hub E) (key c : ℕ)
      → IsValid h
      → h.next_channel ≤ c
      → contains c (subscribers h key) ≡ false
  unissued-channel h key c v le = elim (Bool-cases (contains c (subscribers h key))) [
    | inl e ↦ absurd (omega (arith, v.issued key c e))
    | inr e ↦ e
  ]

  pub subscribe-IsValid : (h : Hub E) (key : ℕ) → IsValid h → IsValid (subscribe h key).1
  unfolding subscribe
  subscribe-IsValid h key v = record {
    live = λ k c m. grind (arith, subscribers-subscribe h key k, v.live k c, v.live key c);
    armed = λ k c m. grind (arith, subscribers-subscribe h key k, v.armed k c, v.armed key c);
    owned = λ k c m.
        grind (arith, subscribers-subscribe h key k, v.owned k c, v.issued k c, v.owned key c);
    issued = λ k c m. grind (arith, subscribers-subscribe h key k, v.issued k c, v.issued key c);
    distinct = λ k. grind (
      arith,
      subscribers-subscribe h key k,
      v.distinct k,
      v.distinct key,
      unissued-channel h key h.next_channel v,
    );
    closes = λ c. grind (arith, v.closes c);
    bounded = λ c. grind (arith, v.bounded c);
    inhabited = λ k e. grind (arith, lookup-insert, v.inhabited k);
  }

  pub subscribers-unsubscribe :
      (h : Hub E) (ch k : ℕ)
      → (h.channels ch).once_done ≡ false
      → subscribers (unsubscribe h ch) k ≡ (
          if (h.channels ch).key == k then remove_channel ch (subscribers h k) else subscribers h k)
  unfolding unsubscribe subscribers
  subscribers-unsubscribe h ch k e = rw e (lookup-drop_subscription (h.channels ch).key ch k h.subs)

  -- The closure of a live subscription takes its channel out, and that channel only.
  pub contains-unsubscribe_armed :
      (h : Hub E) (ch k c : ℕ)
      → IsValid h
      → (h.channels ch).once_done ≡ false
      → contains c (subscribers (unsubscribe h ch) k)
        ≡ (contains c (subscribers h k) && not (c == ch))
  contains-unsubscribe_armed h ch k c v e = grind (
    arith,
    subscribers-unsubscribe h ch k e,
    contains-remove_channel c ch (subscribers h k),
    v.owned k c,
  )

  unsubscribe-live-IsValid :
      (h : Hub E) (ch : ℕ)
      → (h.channels ch).once_done ≡ false
      → IsValid h
      → IsValid (unsubscribe h ch)
  unfolding unsubscribe
  unsubscribe-live-IsValid h ch e v = record {
    live = λ k c m. grind (arith, contains-unsubscribe_armed h ch k c v e, v.live k c);
    armed = λ k c m. grind (arith, contains-unsubscribe_armed h ch k c v e, v.armed k c);
    owned = λ k c m. grind (arith, contains-unsubscribe_armed h ch k c v e, v.owned k c);
    issued = λ k c m. grind (arith, contains-unsubscribe_armed h ch k c v e, v.issued k c);
    closes = λ c. grind (arith, v.closes c, v.closes ch);
    bounded = λ c. grind (arith, v.bounded c, v.bounded ch);
    distinct = λ k. grind (
      arith,
      subscribers-unsubscribe h ch k e,
      v.distinct k,
      remove_channel-IsDistinct ch (subscribers h k),
    );
    inhabited =
        λ k. rw e (drop_subscription-nonempty (h.channels ch).key ch k h.subs (v.inhabited k));
  }

  pub unsubscribe-IsValid : (h : Hub E) (ch : ℕ) → IsValid h → IsValid (unsubscribe h ch)
  unfolding unsubscribe
  unsubscribe-IsValid h ch v = elim (Bool-cases (h.channels ch).once_done) [
    | inl e ↦ rw (e, unsubscribe) v
    | inr e ↦ unsubscribe-live-IsValid h ch e v
  ]

  pub receive-IsValid :
      (h : Hub E) (ch : ℕ) {ev : E} {h' : Hub E}
      → IsValid h
      → receive h ch ≡ some (ev, h')
      → IsValid h'
  unfolding receive subscribers
  receive-IsValid h ch v e = record {
    live = λ k c m. grind (arith, v.live k c);
    armed = λ k c m. grind (arith, v.armed k c);
    owned = λ k c m. grind (arith, v.owned k c);
    issued = λ k c m. grind (arith, v.issued k c);
    closes = λ c. grind (arith, v.closes c, v.closes ch);
    bounded = λ c. grind (arith, v.bounded c, v.bounded ch);
    distinct = λ k. grind (arith, v.distinct k);
    inhabited = λ k. grind (arith, v.inhabited k);
  }
