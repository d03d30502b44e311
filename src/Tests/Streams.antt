-- ===== src/Tests/Streams.antt =====
-- The theorems on streams and on their recorder at concrete inputs.
use sakura_intern_team_e.Prelude.{
  ℕ, ◌≡◌, refl, false, not, ◌&&◌, Option, none, some, List, [], ◌∷◌, ◌++◌, arith, contains, Has,
  sym, ◌==◌,
}
use sakura_intern_team_e.Action.Database.{Upholds}
use sakura_intern_team_e.Db.Invariant.{IsWellFormed}
use sakura_intern_team_e.Db.Tables.{Text, NotificationType}
use sakura_intern_team_e.Db.Rows.{owner_of}
use sakura_intern_team_e.Model.{Event, notification_event}
use sakura_intern_team_e.Realtime.Hub.{subscribers, subscribe}
use sakura_intern_team_e.Realtime.Hub.Histories.{subscribes, publishes, receives}
use sakura_intern_team_e.Realtime.Hub.Invariant.{IsValid}
use sakura_intern_team_e.Http.{Writer, Chunk}
use sakura_intern_team_e.Middleware.Logging.{logging}
use sakura_intern_team_e.Handler.Stream.{
  Turn, others, reads, ticks, hangs_up, Stream, stream_key, open_stream,
}
use sakura_intern_team_e.Handler.Stream.Relay.{has_hung_up, relayed, emit_all, stream_key-relayed}
use sakura_intern_team_e.Handler.Stream.Logged.{served, with_flush, with_status, logging-stream_key}
use sakura_intern_team_e.Realtime.Hub.Queue.{Holds-subscribed}
use sakura_intern_team_e.Action.{World, ok}
use sakura_intern_team_e.Notify.Poller.{Snapshot, drain, poll_once, unread, by_id, insert_by_id}
use sakura_intern_team_e.Notify.Bus.{deliver_all}
use sakura_intern_team_e.Notify.Bus.Arrivals.{events_for}
use sakura_intern_team_e.Notify.Bus.Batch.{Serves}
use sakura_intern_team_e.Handler.Reply.{rebuild_reply_event}
use sakura_intern_team_e.Handler.Like.Across.{like_row, events-like, like-deliver_all}
use sakura_intern_team_e.Tests.{
  hub, hub-IsValid, calm_world, calm_world-IsCalm, tables-IsWellFormed,
}

-- What a writer has passed on: heads and lines, and the flushes among them.
data Sent : Type 0 where
  head : ℕ → Sent
  line : Chunk → Sent
  flushed : Sent

abbrev wire : Option (List Sent → List Sent) → Writer (List Sent)
wire flush = record {
  set_header = λ name value s. s;
  write_header = λ code s. s ++ head code ∷ [];
  write = λ c s. s ++ line c ∷ [];
  flush = flush;
}

abbrev flush_wire : List Sent → List Sent
flush_wire s = s ++ flushed ∷ []

abbrev like_event : Event
like_event = notification_event (some NotificationType.like) (some 1)

abbrev to_text : Event → Option Text
to_text ev = some []

-- Another stream opens, an event arrives and is read, a ping is due, another event arrives, the
-- first stream of the hub reads, and the client hangs up before the second event is read.
abbrev turns : List (Turn Event)
turns =
    others (subscribes 1)
    ∷ others (publishes 1 like_event)
    ∷ reads
    ∷ ticks
    ∷ others (publishes 1 like_event)
    ∷ others (receives 0)
    ∷ hangs_up
    ∷ []

stream_key-relayed_example :
    (st : Stream Event (List Sent)) × (stream_key to_text (wire (some flush_wire)) 1 turns hub []
      ≡ some st)
    × (st.sent
        ≡ emit_all
            (wire (some flush_wire))
            flush_wire
            (relayed to_text 1 turns [])
            (open_stream (wire (some flush_wire)) flush_wire []))
    × (st.returned ≡ has_hung_up turns)
    × IsValid st.hub
    × ((k : ℕ) → contains hub.next_channel (subscribers st.hub k) ≡ ((k == 1) && not st.returned))
    × ((st.hub.channels hub.next_channel).closed ≡ st.returned)
unfolding subscribe
stream_key-relayed_example =
    stream_key-relayed to_text (wire (some flush_wire)) flush_wire hub 1 turns [] hub-IsValid
      (omega arith) refl

logging-stream_key_example :
    logging (λ c r. served (stream_key to_text c 1 turns hub r)) (wire none) []
    ≡ with_status 200 (served (stream_key to_text (with_flush (wire none)) 1 turns hub []))
logging-stream_key_example = logging-stream_key to_text (wire none) 1 turns hub []

-- Another process, with a stream of user 2.
abbrev other_process : World
other_process = record calm_world { notifications = some (subscribe hub 2).1 }

abbrev snapshot : Snapshot
snapshot = record { now = 100_000_000; events = like_row 1 2 2 50 ∷ []; cut = none }

other_process-Upholds : Upholds IsWellFormed other_process
other_process-Upholds = record { holds = tables-IsWellFormed; others = λ n db h. h }

like-deliver_all_example :
    let evs = events_for 2 (drain 2 10 0 snapshot).0 in
    (u : World) × (deliver_all false
        (some rebuild_reply_event)
        (drain 2 10 0 snapshot).0
        other_process
      ≡ (ok tt, u))
    × Serves 2 hub.next_channel ([] ++ evs) u.notifications u.threads
    × Has (notification_event (some NotificationType.like) (some 2)) evs
unfolding owner_of drain poll_once unread by_id insert_by_id
like-deliver_all_example =
    like-deliver_all 50 1 2 2 10 2 0 hub.next_channel calm_world other_process snapshot [] []
      calm_world-IsCalm tables-IsWellFormed refl refl refl refl
      (sym
        (events-like 50 1 2 2 calm_world calm_world-IsCalm tables-IsWellFormed refl refl refl refl))
      ((refl, tt), omega arith) refl (omega arith) (omega arith) (omega arith) (omega arith)
      (((subscribe hub 2).1, refl, Holds-subscribed hub 2 hub-IsValid), tt) other_process-Upholds
      (omega arith)
