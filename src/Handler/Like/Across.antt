-- ===== src/Handler/Like/Across.antt =====
-- From Like of handler/like.go in one process to a stream's buffer in another.
use sakura_intern_team_e.Prelude.{
  ℕ, ◌≡◌, ◌≤◌, ◌<◌, ◌+◌, refl, true, false, none, some, List, [], ◌∷◌, ◌++◌, arith, any, length,
  Bool-cases, inl, inr, Has, Has-filter, Has-append, ltb, lt→ltb, ◌==◌, subst,
}
use sakura_intern_team_e.Db.Tables.{Db, EventRow, EventKind, NotificationType}
use sakura_intern_team_e.Db.Rows.{has_user, owner_of, is_notification}
use sakura_intern_team_e.Db.Invariant.{IsWellFormed}
use sakura_intern_team_e.Model.{Event, notification_event}
use sakura_intern_team_e.Realtime.Hub.{sub_buffer}
use sakura_intern_team_e.Action.{World, ok}
use sakura_intern_team_e.Action.Calm.{IsCalm}
use sakura_intern_team_e.Action.Database.{Upholds}
use sakura_intern_team_e.Notify.Publish.{insert_event}
use sakura_intern_team_e.Notify.Poller.{
  Snapshot, unread, by_id, insert_by_id, is_after, is_settled, drain, poll_lag,
}
use sakura_intern_team_e.Notify.Poller.Order.{IsKeyed}
use sakura_intern_team_e.Notify.Poller.Complete.{drain_complete}
use sakura_intern_team_e.Notify.Start.Delivers.{length-unread}
use sakura_intern_team_e.Notify.Bus.{deliver_all}
use sakura_intern_team_e.Notify.Bus.Arrivals.{events_for, arrivals-events_for, Has-events_for}
use sakura_intern_team_e.Notify.Bus.Batch.{Serves, deliver_all-Serves}
use sakura_intern_team_e.Handler.Reply.{rebuild_reply_event}
use sakura_intern_team_e.Handler.Notification.Calm.{notified, announced, with_notification}
use sakura_intern_team_e.Handler.Like.{like}
use sakura_intern_team_e.Handler.Like.Calm.{like-calm, liking, liked}

-- The event row of a new like.
abbrev pub like_row : ℕ → ℕ → ℕ → ℕ → EventRow
like_row id owner post now = record {
  id = id;
  kind = EventKind.notification;
  subject_id = owner;
  ntype = some NotificationType.like;
  post_id = some post;
  created_at = now;
}

events-liking :
    (owner user post now : ℕ) (db : Db)
    → (owner == user) ≡ false
    → any (is_notification owner NotificationType.like user (some post)) db.notifications ≡ false
    → (liking owner user post now db).events ≡ like_row db.next_event owner post now ∷ db.events
unfolding notified announced with_notification insert_event liked
events-liking owner user post now db other new = ground arith

-- A calm Like of a known user, not yet notified, leaves its event row above the others.
pub events-like :
    (now user owner post : ℕ) (w : World)
    → IsCalm now w
    → IsWellFormed w.db
    → has_user user w.db.users ≡ true
    → owner_of post w.db.posts ≡ some owner
    → (owner == user) ≡ false
    → any (is_notification owner NotificationType.like user (some post)) w.db.notifications ≡ false
    → (like (some user) (some post) w).1.db.events
      ≡ like_row w.db.next_event owner post now ∷ w.db.events
events-like now user owner post w calm wf known owned other new =
    let left = ((like-calm now owner user post w.db wf known owned).at w calm refl).1 in
    rw left (events-liking owner user post now w.db other new)

module _ (r : EventRow) where
  Has-insert_by_id :
      (e : EventRow) (es : List EventRow) → Has r (e ∷ es) → Has r (insert_by_id e es)
  unfolding insert_by_id
  Has-insert_by_id e [] h = h
  Has-insert_by_id e (x ∷ xs) h = elim (Bool-cases (ltb x.id e.id)) [
    | inl above ↦ rw above (past e x xs h (λ m. Has-insert_by_id e xs m))
    | inr below ↦ rw below h
  ]
    where
      past :
          (e x : EventRow) (xs : List EventRow)
          → Has r (e ∷ x ∷ xs)
          → (Has r (e ∷ xs) → Has r (insert_by_id e xs))
          → Has r (x ∷ insert_by_id e xs)
      past e x xs (inl same) k = inr (k (inl same))
      past e x xs (inr (inl same)) k = inl same
      past e x xs (inr (inr later)) k = inr (k (inr later))

  Has-by_id : (es : List EventRow) → Has r es → Has r (by_id es)
  unfolding by_id
  Has-by_id [] h = h
  Has-by_id (e ∷ es) (inl same) = Has-insert_by_id e (by_id es) (inl same)
  Has-by_id (e ∷ es) (inr later) = Has-insert_by_id e (by_id es) (inr (Has-by_id es later))

  Has-unread :
      (c : ℕ) (s : Snapshot)
      → c < r.id
      → r.created_at + poll_lag < s.now
      → Has r s.events
      → Has r (unread c s)
  unfolding unread
  Has-unread c s above settled h = Has-filter (is_after c) r _ (lt→ltb c r.id above) (
      Has-filter (is_settled s.now) r _ (lt→ltb (r.created_at + poll_lag) s.now settled)
        (Has-by_id s.events h))

-- One process serves a Like in a calm world: a known user likes another user's post and that user
-- has no such notification yet. Later, when the event has settled, the poller of another process,
-- whose cursor is below the next event id that the Like found and whose context is not cancelled, drains
-- a snapshot that holds the event table of the Like under newer rows, has each positive id once, and is
-- read to the end; its batch is positive and there are more rounds than rows. That process serves a
-- stream of the post's owner, with a valid hub of threads and tables that are well formed and that
-- others keep so, and the stream's buffer has room for all the owner's events that the drain reads. Then
-- delivering the drained rows, replies among them, ends without a panic whatever statements fail with,
-- the buffer holds what it held and then the owner's events in the order of the rows, and the event of
-- the like is among them.
pub like-deliver_all :
    (now user owner post batch fuel cursor ch : ℕ) (w v : World) (s : Snapshot)
    (newer : List EventRow) (q : List Event)
    → IsCalm now w
    → IsWellFormed w.db
    → has_user user w.db.users ≡ true
    → owner_of post w.db.posts ≡ some owner
    → (owner == user) ≡ false
    → any (is_notification owner NotificationType.like user (some post)) w.db.notifications ≡ false
    → s.events ≡ newer ++ (like (some user) (some post) w).1.db.events
    → IsKeyed s
    → s.cut ≡ none
    → 0 < batch
    → length s.events < fuel
    → cursor < w.db.next_event
    → now + poll_lag < s.now
    → Serves owner ch q v.notifications v.threads
    → Upholds IsWellFormed v
    → length q + length (events_for owner (drain fuel batch cursor s).0) ≤ sub_buffer
    → let evs = events_for owner (drain fuel batch cursor s).0 in
      (u : World) × (deliver_all false (some rebuild_reply_event) (drain fuel batch cursor s).0 v
        ≡ (ok tt, u))
      × Serves owner ch (q ++ evs) u.notifications u.threads
      × Has (notification_event (some NotificationType.like) (some post)) evs
like-deliver_all now user owner post batch fuel cursor ch w v s newer q calm wf known owned other
      new at keyed whole size enough above settled serves upheld room =
    let row = like_row w.db.next_event owner post now in
    let stored = events-like now user owner post w calm wf known owned other new in
    let there : Has row s.events =
      rw (at, stored) (Has-append row newer (row ∷ w.db.events) (inl refl)) in
    let drained =
      (drain_complete fuel batch cursor s keyed whole size
        (omega (arith, length-unread cursor s, enough))).0 in
    let read : Has row (drain fuel batch cursor s).0 =
      rw drained (Has-unread row cursor s above settled there) in
    let (u, ran, holds) =
      deliver_all-Serves owner ch false (drain fuel batch cursor s).0 q v
        (record { within = record { hubs = serves }; upholds = upheld }) in
    (
      u,
      ran,
      subst (λ q'. Serves owner ch q' u.notifications u.threads)
          (arrivals-events_for owner (drain fuel batch cursor s).0 q room) holds.within.hubs,
      Has-events_for owner row (drain fuel batch cursor s).0 refl refl read,
    )
