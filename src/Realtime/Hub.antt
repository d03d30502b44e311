-- ===== src/Realtime/Hub.antt =====
-- app/backend/internal/realtime/hub.go. A Go channel is an address into a store of buffers; the hub
-- maps each key to the set of addresses that are subscribed under it. The mutex makes every method
-- one step. A method of a nil hub is a method at `none`.
pub mod Channels
pub mod Invariant
pub mod Delivery
pub mod Histories
pub mod Queue
use sakura_intern_team_e.Prelude.{
  ℕ, suc, ◌+◌, ◌≡◌, refl, Bool, true, false, not, ◌&&◌, Option, none, some, List, [], ◌∷◌, ◌++◌,
  ltb, ◌==◌, if◌then◌else◌, length, filter, get_or, lookup, insert, erase,
}

-- subBuffer
abbrev pub sub_buffer : ℕ
sub_buffer = 8

-- A channel with what its unsubscribe closure has captured: the key and the state of the `Once`.
pub record Channel (E : Type 0) : Type 0 where
  pub buffer : List E
  pub closed : Bool
  pub once_done : Bool
  pub key : ℕ

pub record Hub (E : Type 0) : Type 0 where
  pub subs : List (ℕ × List ℕ)
  pub channels : ℕ → Channel E
  pub next_channel : ℕ

-- The store after a write to one channel.
abbrev pub update : {E : Type 0} → (ℕ → Channel E) → ℕ → Channel E → ℕ → Channel E
update chans c v d = if c == d then v else chans d

-- `delete(subs, ch)`
abbrev pub remove_channel : ℕ → List ℕ → List ℕ
remove_channel ch = filter (λ c. not (c == ch))

-- The locked part of the unsubscribe closure, on the map alone.
pub drop_subscription : ℕ → ℕ → List (ℕ × List ℕ) → List (ℕ × List ℕ)
drop_subscription key ch subs = elim (lookup key subs) [
  | none ↦ subs
  | some chs ↦ elim (remove_channel ch chs) [
    | [] ↦ erase key subs
    | c ∷ cs ↦ insert key (c ∷ cs) subs
  ]
]

module _ {E : Type 0} where
  -- `h.subs[key]`, where a missing key is the nil map
  unfoldable pub subscribers : Hub E → ℕ → List ℕ
  subscribers h key = get_or [] (lookup key h.subs)

  abbrev fresh_channel : ℕ → Channel E
  fresh_channel key = record { buffer = []; closed = false; once_done = false; key = key }

  -- NewHub
  unfoldable pub new_hub : Hub E
  new_hub = record { subs = []; channels = λ c. fresh_channel 0; next_channel = 0 }

  -- Subscribe: the new channel's address and the hub.
  unfoldable pub subscribe : Hub E → ℕ → ℕ × Hub E
  unfolding subscribers
  subscribe h key =
      let ch = h.next_channel in
      (
        ch,
        record {
          subs = insert key (ch ∷ subscribers h key) h.subs;
          channels = update h.channels ch (fresh_channel key);
          next_channel = suc ch;
        },
      )

  -- The closure that Subscribe returns; `once` makes every call but the first do nothing.
  pub unsubscribe : Hub E → ℕ → Hub E
  unfolding drop_subscription
  unsubscribe h ch =
      let chan = h.channels ch in
      if chan.once_done then h else record h {
        subs = drop_subscription chan.key ch h.subs;
        channels = update h.channels ch (record chan { closed = true; once_done = true });
      }

  -- HasSubscribers
  unfoldable pub has_subscribers : Option (Hub E) → ℕ → Bool
  unfolding subscribers
  has_subscribers none key = false
  has_subscribers (some h) key = ltb 0 (length (subscribers h key))

  -- `select { case ch <- ev: default: }`. `none` is the panic of a send on a closed channel.
  unfoldable pub send : E → Channel E → Option (Channel E)
  send ev chan =
      if chan.closed
      then none
      else if ltb (length chan.buffer) sub_buffer
      then some (record chan { buffer = chan.buffer ++ ev ∷ [] })
      else some chan

  -- The loop over the subscribers of the key. Go visits them in any order.
  unfoldable pub send_all : E → List ℕ → (ℕ → Channel E) → Option (ℕ → Channel E)
  unfolding send
  send_all ev [] chans = some chans
  send_all ev (c ∷ cs) chans = elim (send ev (chans c)) [
    | none ↦ none
    | some chan ↦ send_all ev cs (update chans c chan)
  ]

  -- Publish, at a hub
  unfoldable pub publish_hub : Hub E → ℕ → E → Option (Hub E)
  unfolding send_all subscribers
  publish_hub h key ev = elim (send_all ev (subscribers h key) h.channels) [
    | none ↦ none
    | some chans ↦ some (record h { channels = chans })
  ]

  -- Publish, at a pointer that may be nil
  unfoldable pub publish : Option (Hub E) → ℕ → E → Option (Option (Hub E))
  unfolding publish_hub
  publish none key ev = some none
  publish (some h) key ev = elim (publish_hub h key ev) [ none ↦ none | some h' ↦ some (some h') ]

  -- `<-ch`: the oldest event, if one is waiting.
  pub receive : Hub E → ℕ → Option (E × Hub E)
  receive h ch = elim (h.channels ch).buffer [
    | [] ↦ none
    | ev ∷ rest ↦ some (
      ev,
      record h { channels = update h.channels ch (record (h.channels ch) { buffer = rest }) },
    )
  ]
