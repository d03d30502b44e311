-- ===== src/Realtime/Hub/Histories.antt =====
-- Sequences of calls on one hub of realtime/hub.go, in any order.
use sakura_intern_team_e.Prelude.{
  ℕ, ◌≡◌, refl, ◌∙◌, inl, inr, true, not, ◌&&◌, Option, none, some, List, [], ◌∷◌, arith, ◌==◌,
  contains, Bool-cases, Option-cases,
}
use sakura_intern_team_e.Realtime.Hub.{
  Hub, subscribers, subscribe, unsubscribe, publish_hub, receive,
}
use sakura_intern_team_e.Realtime.Hub.Invariant.{
  IsValid, subscribe-IsValid, unsubscribe-IsValid, receive-IsValid, contains-unsubscribe_armed,
}
use sakura_intern_team_e.Realtime.Hub.Delivery.{publish_hub-delivered, publish_hub-IsValid}

-- One call on the hub; `receives` is a stream reading its channel.
pub data Call (E : Type 0) : Type 0 where
  subscribes : ℕ → Call E
  unsubscribes : ℕ → Call E
  publishes : ℕ → E → Call E
  receives : ℕ → Call E

module _ {E : Type 0} where
  abbrev or_unchanged : Hub E → Option (E × Hub E) → Hub E
  or_unchanged h none = h
  or_unchanged h (some (ev, h')) = h'

  -- `none` is a panic.
  unfoldable pub step : Hub E → Call E → Option (Hub E)
  step h (subscribes key) = some (subscribe h key).1
  step h (unsubscribes ch) = some (unsubscribe h ch)
  step h (publishes key ev) = publish_hub h key ev
  step h (receives ch) = some (or_unchanged h (receive h ch))

  pub run : Hub E → List (Call E) → Option (Hub E)
  run h [] = some h
  run h (c ∷ cs) = elim (step h c) [ none ↦ none | some h' ↦ run h' cs ]

  step-IsValid :
      (h : Hub E) (c : Call E) → IsValid h → (h' : Hub E) × (step h c ≡ some h') × IsValid h'
  unfolding step
  step-IsValid h (subscribes key) v = ((subscribe h key).1, refl, subscribe-IsValid h key v)
  step-IsValid h (unsubscribes ch) v = (unsubscribe h ch, refl, unsubscribe-IsValid h ch v)
  step-IsValid h (publishes key ev) v =
      let (h', e, _, _, _) = publish_hub-delivered h key ev v in
      (h', e, publish_hub-IsValid h h' key ev v e)
  step-IsValid h (receives ch) v = elim (Option-cases (receive h ch)) [
    | inl e ↦ (h, rw e, v)
    | inr ((ev, h'), e) ↦ (h', rw e, receive-IsValid h ch v e)
  ]

  -- From a valid hub no sequence of calls panics, and the hub it leaves is valid.
  pub run-IsValid :
      (h : Hub E) (cs : List (Call E))
      → IsValid h
      → (h' : Hub E) × (run h cs ≡ some h') × IsValid h'
  unfolding run
  run-IsValid h [] v = (h, refl, v)
  run-IsValid h (c ∷ cs) v =
      let (h₁, e₁, v₁) = step-IsValid h c v in
      let (h₂, e₂, v₂) = run-IsValid h₁ cs v₁ in (h₂, rw (e₁, run) e₂, v₂)

  once_done-unsubscribe : (h : Hub E) (ch : ℕ) → ((unsubscribe h ch).channels ch).once_done ≡ true
  unfolding unsubscribe
  once_done-unsubscribe h ch = ground arith

  contains-unsubscribe :
      (h : Hub E) (ch key c : ℕ)
      → IsValid h
      → contains c (subscribers (unsubscribe h ch) key)
        ≡ (contains c (subscribers h key) && not (c == ch))
  unfolding unsubscribe
  contains-unsubscribe h ch key c v = elim (Bool-cases (h.channels ch).once_done) [
    | inl e ↦ grind (arith, v.armed key c)
    | inr e ↦ contains-unsubscribe_armed h ch key c v e
  ]

  unsubscribe_done : (h : Hub E) (ch : ℕ) → (h.channels ch).once_done ≡ true → unsubscribe h ch ≡ h
  unfolding unsubscribe
  unsubscribe_done h ch e = rw e

  -- Unsubscribing from a valid hub takes that channel out of every key and leaves every other
  -- subscription, the channel is closed, and a second call of the same closure changes nothing.
  pub unsubscribe-exact :
      (h : Hub E) (ch : ℕ)
      → IsValid h
      → ((key c : ℕ)
          → contains c (subscribers (unsubscribe h ch) key)
            ≡ (contains c (subscribers h key) && not (c == ch)))
        × (((unsubscribe h ch).channels ch).closed ≡ true)
        × (unsubscribe (unsubscribe h ch) ch ≡ unsubscribe h ch)
  unsubscribe-exact h ch v = (
    λ key c. contains-unsubscribe h ch key c v,
    (unsubscribe-IsValid h ch v).closes ch ∙ once_done-unsubscribe h ch,
    unsubscribe_done (unsubscribe h ch) ch (once_done-unsubscribe h ch),
  )
