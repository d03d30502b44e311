-- ===== src/Realtime/Hub/Delivery.antt =====
-- What Publish of realtime/hub.go puts into the buffers.
use sakura_intern_team_e.Prelude.{
  ℕ, ◌≡◌, ◌↔◌, subst, refl, Bool, true, false, ◌&&◌, Option, none, some, List, [], ◌∷◌, ◌++◌, arith,
  ltb, if◌then◌else◌, length, contains, length-append,
}
use sakura_intern_team_e.Realtime.Hub.{
  Hub, Channel, sub_buffer, subscribers, send, send_all, publish_hub, publish, update,
  has_subscribers,
}
use sakura_intern_team_e.Realtime.Hub.Invariant.{IsValid, IsDistinct}

-- The hub that a pointer points to is valid.
abbrev pub PointsToValid : {E : Type 0} → Option (Hub E) → Type 0
PointsToValid none = Unit
PointsToValid (some h) = IsValid h

nonempty_iff : (cs : List ℕ) → (ltb 0 (length cs) ≡ true) ↔ ((c : ℕ) × (contains c cs ≡ true))
nonempty_iff [] = (λ e. cc, λ (c, e). cc)
nonempty_iff (c ∷ cs) = (λ e. (c, ground arith), λ m. ground arith)

module _ {E : Type 0} where
  -- What one channel holds after an event: a subscriber with room gets it at the end, and nothing
  -- else changes.
  abbrev pub delivered : E → Bool → Channel E → Channel E
  delivered ev subscribed chan =
      if subscribed && ltb (length chan.buffer) sub_buffer
      then record chan { buffer = chan.buffer ++ ev ∷ [] }
      else chan

  abbrev AllOpen : List ℕ → (ℕ → Channel E) → Type 0
  AllOpen cs chans = (c : ℕ) → contains c cs ≡ true → (chans c).closed ≡ false

  send_open :
      (ev : E) (chan : Channel E)
      → chan.closed ≡ false
      → send ev chan ≡ some (delivered ev true chan)
  unfolding send
  send_open ev chan h = ground arith

  after_send-open :
      (ev : E) (x : ℕ) (cs : List ℕ) (chans : ℕ → Channel E)
      → AllOpen (x ∷ cs) chans
      → AllOpen cs (update chans x (delivered ev true (chans x)))
  after_send-open ev x cs chans o c m = grind (arith, o x, o c)

  send_all-delivered :
      (ev : E) (cs : List ℕ) (chans : ℕ → Channel E)
      → IsDistinct cs
      → AllOpen cs chans
      → (chans' : ℕ → Channel E) × (send_all ev cs chans ≡ some chans')
        × ((c : ℕ) → chans' c ≡ delivered ev (contains c cs) (chans c))
  unfolding send_all
  send_all-delivered ev [] chans d o = (chans, refl, λ c. refl)
  send_all-delivered ev (x ∷ cs) chans d o =
      let (chans', e, at) =
        send_all-delivered ev cs (update chans x (delivered ev true (chans x))) d.1
          (after_send-open ev x cs chans o) in
      (
        chans',
        rw (send_open ev (chans x) (o x (ground arith)), send_all) e,
        λ c. grind (arith, at c, d.0),
      )

  delivered-IsValid :
      (h h' : Hub E) (key : ℕ) (ev : E)
      → IsValid h
      → h'.subs ≡ h.subs
      → h'.next_channel ≡ h.next_channel
      → ((c : ℕ) → h'.channels c ≡ delivered ev (contains c (subscribers h key)) (h.channels c))
      → IsValid h'
  unfolding subscribers
  delivered-IsValid h h' key ev v s n at = record {
    live = λ k c m. grind (arith, at c, v.live k c);
    armed = λ k c m. grind (arith, at c, v.armed k c);
    owned = λ k c m. grind (arith, at c, v.owned k c);
    issued = λ k c m. grind (arith, v.issued k c);
    closes = λ c. grind (arith, at c, v.closes c);
    bounded = λ c. grind (arith, at c, v.bounded c, length-append {0});
    distinct = λ k. rw s (v.distinct k);
    inhabited = λ k. rw s (v.inhabited k);
  }

  -- Publish from a valid hub never sends on a closed channel. It reaches every subscriber of the
  -- key that has room, once, whatever the order of the visits, and no other channel.
  pub publish_hub-delivered :
      (h : Hub E) (key : ℕ) (ev : E)
      → IsValid h
      → (h' : Hub E) × (publish_hub h key ev ≡ some h')
        × (h'.subs ≡ h.subs)
        × (h'.next_channel ≡ h.next_channel)
        × ((c : ℕ) → h'.channels c ≡ delivered ev (contains c (subscribers h key)) (h.channels c))
  unfolding publish_hub
  publish_hub-delivered h key ev v =
      let (chans, e, at) =
        send_all-delivered ev (subscribers h key) h.channels (v.distinct key) (v.live key) in
      (record h { channels = chans }, rw (e, publish_hub), refl, refl, at)

  pub publish_hub-IsValid :
      (h h' : Hub E) (key : ℕ) (ev : E) → IsValid h → publish_hub h key ev ≡ some h' → IsValid h'
  publish_hub-IsValid h h' key ev v e =
      let (h₁, e₁, s, n, at) = publish_hub-delivered h key ev v in
      subst IsValid (cc) (delivered-IsValid h h₁ key ev v s n at)

  -- With a subscriber registered the key has subscribers, and only then.
  pub has_subscribers_iff :
      (h : Hub E) (key : ℕ)
      → (has_subscribers (some h) key ≡ true) ↔ ((c : ℕ) × (contains c (subscribers h key) ≡ true))
  unfolding has_subscribers
  has_subscribers_iff h key = nonempty_iff (subscribers h key)

  -- Publish through a pointer, nil or not, does not panic, and keeps what it points to valid.
  pub publish-total :
      (p : Option (Hub E)) (key : ℕ) (ev : E)
      → PointsToValid p
      → (p' : Option (Hub E)) × (publish p key ev ≡ some p') × PointsToValid p'
  unfolding publish
  publish-total none key ev v = (none, refl, tt)
  publish-total (some h) key ev v =
      let (h', e, _, _, _) = publish_hub-delivered h key ev v in
      (some h', rw (e, publish), publish_hub-IsValid h h' key ev v e)
