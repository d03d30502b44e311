-- ===== src/Notify/Bus/Arrivals.antt =====
-- A batch of event rows as the events that it brings to one user's queue.
use sakura_intern_team_e.Prelude.{
  ℕ, ◌≡◌, ◌≤◌, ◌+◌, refl, true, List, [], ◌∷◌, ◌++◌, arith, ◌==◌, if◌then◌else◌, length, Bool-cases,
  inl, inr, append_assoc, append-nil, Has, ◌∙◌, length-append, ==_refl, subst,
}
use sakura_intern_team_e.Db.Tables.{EventRow, EventKind}
use sakura_intern_team_e.Model.{Event, notification_event}
use sakura_intern_team_e.Realtime.Hub.{sub_buffer}
use sakura_intern_team_e.Realtime.Hub.Histories.{publishes}
use sakura_intern_team_e.Realtime.Hub.Queue.{queued}

-- The queue after a row: notifications of the key enter it.
abbrev pub arrived : ℕ → EventKind → EventRow → List Event → List Event
arrived key EventKind.notification e q =
    queued key (publishes e.subject_id (notification_event e.ntype e.post_id)) q
arrived key EventKind.reply e q = q
arrived key EventKind.other e q = q

abbrev pub arrivals : ℕ → List EventRow → List Event → List Event
arrivals key [] q = q
arrivals key (e ∷ es) q = arrivals key es (arrived key e.kind e q)

abbrev pub events_of : EventKind → ℕ → EventRow → List Event → List Event
events_of EventKind.notification key e evs =
    if e.subject_id == key then notification_event e.ntype e.post_id ∷ evs else evs
events_of EventKind.reply key e evs = evs
events_of EventKind.other key e evs = evs

-- The events of the rows that notify a user.
abbrev pub events_for : ℕ → List EventRow → List Event
events_for key [] = []
events_for key (e ∷ es) = events_of e.kind key e (events_for key es)

module _ (key : ℕ) where
  arrived-events_of :
      (k : EventKind) (e : EventRow) (evs q : List Event)
      → length q + length (events_of k key e evs) ≤ sub_buffer
      → (arrived key k e q ++ evs ≡ q ++ events_of k key e evs)
        × (length (arrived key k e q) + length evs ≤ sub_buffer)
  arrived-events_of EventKind.notification e evs q room =
      let ev = notification_event e.ntype e.post_id in
      ground (arith, append_assoc q (ev ∷ []) evs, length-append q (ev ∷ []))
  arrived-events_of EventKind.reply e evs q room = (refl, room)
  arrived-events_of EventKind.other e evs q room = (refl, room)

  -- With room for all of them the events stand in the buffer in the rows' order.
  pub arrivals-events_for :
      (es : List EventRow) (q : List Event)
      → length q + length (events_for key es) ≤ sub_buffer
      → arrivals key es q ≡ q ++ events_for key es
  arrivals-events_for [] q room = rw (append-nil q)
  arrivals-events_for (e ∷ es) q room =
      let (same, left) = arrived-events_of e.kind e (events_for key es) q room in
      arrivals-events_for es (arrived key e.kind e q) left ∙ same

  Has-events_of_later :
      (k : EventKind) (e : EventRow) (ev : Event) (evs : List Event)
      → Has ev evs
      → Has ev (events_of k key e evs)
  Has-events_of_later EventKind.notification e ev evs h = elim (Bool-cases (e.subject_id == key)) [
    | inl same ↦ rw same (inr h)
    | inr other ↦ rw other h
  ]
  Has-events_of_later EventKind.reply e ev evs h = h
  Has-events_of_later EventKind.other e ev evs h = h

  Has-events_of_first :
      (k : EventKind) (e : EventRow) (evs : List Event)
      → k ≡ EventKind.notification
      → e.subject_id ≡ key
      → Has (notification_event e.ntype e.post_id) (events_of k key e evs)
  Has-events_of_first EventKind.notification e evs k o =
      let same : (e.subject_id == key) ≡ true = rw o (==_refl key) in rw same (inl refl)
  Has-events_of_first EventKind.reply e evs k o = cc
  Has-events_of_first EventKind.other e evs k o = cc

  pub Has-events_for :
      (r : EventRow) (es : List EventRow)
      → r.kind ≡ EventKind.notification
      → r.subject_id ≡ key
      → Has r es
      → Has (notification_event r.ntype r.post_id) (events_for key es)
  Has-events_for r [] k o h = absurd h
  Has-events_for r (e ∷ es) k o (inl same) =
      subst (λ (x : EventRow). Has (notification_event x.ntype x.post_id) (events_for key (e ∷ es)))
        same (Has-events_of_first e.kind e (events_for key es) (cc) (cc))
  Has-events_for r (e ∷ es) k o (inr later) =
      Has-events_of_later e.kind e (notification_event r.ntype r.post_id) (events_for key es)
        (Has-events_for r es k o later)
