-- ===== src/Tests/Notifications.antt =====
-- The theorems on app/backend/internal/realtime/ and app/backend/internal/notify/ at the hub of the
-- parent module and a small sse_events table.
use sakura_intern_team_e.Prelude.{
  All, ◌<◌, ◌++◌, ◌+◌, suc, ℕ, ◌≡◌, ◌≢◌, ◌⊎◌, refl, true, false, not, ◌&&◌, none, some, [], ◌∷◌,
  arith, ◌==◌, any, take, contains,
}
use sakura_intern_team_e.Db.Tables.{EventRow, EventKind, NotificationType}
use sakura_intern_team_e.Model.{Event, notification_event}
use sakura_intern_team_e.Realtime.Hub.{Hub, subscribers, unsubscribe, publish_hub}
use sakura_intern_team_e.Realtime.Hub.Invariant.{IsValid}
use sakura_intern_team_e.Realtime.Hub.Delivery.{delivered, publish_hub-delivered}
use sakura_intern_team_e.Realtime.Hub.Histories.{
  unsubscribes, publishes, receives, run, run-IsValid, unsubscribe-exact,
}
use sakura_intern_team_e.Action.{ok}
use sakura_intern_team_e.Notify.Bus.{deliver}
use sakura_intern_team_e.Notify.Bus.Delivers.{deliver-notification}
use sakura_intern_team_e.Notify.Gc.{GcState, Weather, finished, out_of_fuel, nobody, gc_once}
use sakura_intern_team_e.Notify.Gc.Deletes.{young, arrived, count_old, gc_once-safe}
use sakura_intern_team_e.Notify.Poller.{
  Snapshot, unread, by_id, insert_by_id, last_id, poll_once, advance, poll_all, drain,
}
use sakura_intern_team_e.Notify.Start.{
  Round, Environment, table, lost, starts_at, max_id, initial_cursor, env_int, new_settings,
}
use sakura_intern_team_e.Notify.Start.Delivers.{has_event, started-delivers}
use sakura_intern_team_e.Notify.Start.Defaults.{IsPositive, new_settings-IsPositive}
use sakura_intern_team_e.Db.Errors.{runes}
use sakura_intern_team_e.Notify.Poller.Order.{Ascending, IsKeyed, poll_all-Ascending}
use sakura_intern_team_e.Notify.Poller.Complete.{drain_complete, poll-redelivers, poll_all-skips}
use sakura_intern_team_e.Tests.{hub, hub-IsValid, calm_world}

abbrev event_row : ℕ → ℕ → EventRow
event_row id time = record {
  id = id;
  kind = EventKind.notification;
  subject_id = 1;
  ntype = some NotificationType.like;
  post_id = some 1;
  created_at = time;
}

-- Three events, of which the last is too young to be read.
abbrev snapshot : Snapshot
snapshot = record {
  now = 500_000;
  events = event_row 3 499_000 ∷ event_row 2 200_000 ∷ event_row 1 100_000 ∷ [];
  cut = none;
}

abbrev later : Snapshot
later = record snapshot { now = 900_000 }

abbrev broken : Snapshot
broken = record snapshot { cut = some 1 }

snapshot-IsKeyed : IsKeyed snapshot
snapshot-IsKeyed = ((refl, (refl, (refl, tt))), (omega arith, (omega arith, (omega arith, tt))))

snapshot-unread : unread 0 snapshot ≡ event_row 1 100_000 ∷ event_row 2 200_000 ∷ []
unfolding unread by_id insert_by_id
snapshot-unread = refl

drain_complete_example :
    ((drain 3 1 0 snapshot).0 ≡ unread 0 snapshot)
    × ((drain 3 1 0 snapshot).1 ≡ last_id 0 (unread 0 snapshot))
drain_complete_example =
    drain_complete 3 1 0 snapshot snapshot-IsKeyed refl (omega arith)
      (rw snapshot-unread (omega arith))

poll_all-Ascending_example : Ascending 0 (poll_all 2 0 (snapshot ∷ later ∷ [])).0
poll_all-Ascending_example =
    poll_all-Ascending 2 0 (snapshot ∷ later ∷ []) (snapshot-IsKeyed, (snapshot-IsKeyed, tt))
      (refl, (refl, tt))

poll-redelivers_example :
    let b = poll_once 2 0 broken in
    let again = poll_once 2 (advance 0 b) snapshot in
    (advance 0 b ≡ 0)
    × (b.delivered ≡ take 1 (take 2 (unread 0 broken)))
    × (b.delivered ≡ take 1 again.delivered)
unfolding unread
poll-redelivers_example = poll-redelivers 2 0 1 broken snapshot refl refl refl

poll_all-skips_example : any (λ (x : EventRow). x.id == 1) (poll_all 2 2 (later ∷ [])).0 ≡ false
poll_all-skips_example = poll_all-skips 2 2 1 (later ∷ []) (snapshot-IsKeyed, tt) (omega arith)

-- Others write a row before each DELETE.
abbrev weather : Weather
weather = record {
  connects = true;
  locks = true;
  answers_null = false;
  same_connection = false;
  rounds = λ i. record {
    arrivals = event_row (3 + i) 299_000 ∷ [];
    now = 300_000;
    fails = false;
    cancelled = false;
  };
  releases = true;
}

abbrev gc_state : GcState
gc_state = record { events = event_row 1 100_000 ∷ event_row 2 200_000 ∷ []; lock = nobody }

gc_once-safe_example :
    let (after, ending) = gc_once 2 1 150_000 weather gc_state in
    ((k : ℕ) × (young 300_000 150_000 after.events
        ≡ young 300_000 150_000 (gc_state.events ++ arrived weather.rounds 0 k))
      × ((ending ≢ some finished)
          ⊎ ((j : ℕ) × (suc j ≡ k) × (count_old (weather.rounds j).now 150_000 after.events ≡ 0))))
    × ((after.lock ≡ nobody) ⊎ (true ≡ false))
    × (ending ≢ some out_of_fuel)
gc_once-safe_example =
    gc_once-safe 2 1 300_000 150_000 weather gc_state (λ j. omega arith) (omega arith)
      (ground arith)

abbrev ping : Event
ping = notification_event (some NotificationType.like) (some 1)

run-IsValid_example :
    (h' : Hub Event) × (run hub
        (publishes 1 ping ∷ receives 0 ∷ unsubscribes 0 ∷ unsubscribes 0 ∷ publishes 1 ping ∷ [])
      ≡ some h')
    × IsValid h'
run-IsValid_example =
    run-IsValid hub
      (publishes 1 ping ∷ receives 0 ∷ unsubscribes 0 ∷ unsubscribes 0 ∷ publishes 1 ping ∷ [])
      hub-IsValid

publish_hub-delivered_example :
    (h' : Hub Event) × (publish_hub hub 1 ping ≡ some h')
    × (h'.subs ≡ hub.subs)
    × (h'.next_channel ≡ hub.next_channel)
    × ((c : ℕ) → h'.channels c ≡ delivered ping (contains c (subscribers hub 1)) (hub.channels c))
publish_hub-delivered_example = publish_hub-delivered hub 1 ping hub-IsValid

unsubscribe-exact_example :
    ((key c : ℕ)
      → contains c (subscribers (unsubscribe hub 0) key)
        ≡ (contains c (subscribers hub key) && not (c == 0)))
    × (((unsubscribe hub 0).channels 0).closed ≡ true)
    × (unsubscribe (unsubscribe hub 0) 0 ≡ unsubscribe hub 0)
unsubscribe-exact_example = unsubscribe-exact hub 0 hub-IsValid

deliver-notification_example :
    (h' : Hub Event) × ((deliver false none (event_row 1 0) calm_world).0 ≡ ok tt)
    × ((deliver false none (event_row 1 0) calm_world).1.notifications ≡ some h')
    × ((c : ℕ) → h'.channels c ≡ delivered ping (contains c (subscribers hub 1)) (hub.channels c))
deliver-notification_example =
    deliver-notification false none (event_row 1 0) calm_world hub refl refl hub-IsValid

abbrev lost_round : Round
lost_round = record { answer = lost; cancelled = false; cancelled_waiting = false }

abbrev found_round : Round
found_round = record {
  answer = table (event_row 1 100_000 ∷ []);
  cancelled = false;
  cancelled_waiting = false;
}

started-delivers_example :
    (cursor : ℕ) × (initial_cursor (lost_round ∷ found_round ∷ []) ≡ some (starts_at cursor))
    × (has_event 2 (drain 5 1 cursor snapshot).0 ≡ true)
    × All
        (λ (x : EventRow). has_event x.id (drain 5 1 cursor snapshot).0 ≡ false)
        (event_row 1 100_000 ∷ [])
unfolding max_id
started-delivers_example =
    started-delivers (lost_round ∷ []) found_round (event_row 1 100_000 ∷ [])
      (event_row 3 499_000 ∷ []) (event_row 1 100_000 ∷ []) (event_row 2 200_000) 1 5 snapshot
      ((refl, refl, refl), tt) refl snapshot-IsKeyed refl (omega arith) (omega arith) refl
      (omega arith) (omega arith)

abbrev environment : Environment
environment = record {
  poll_interval = runes "100";
  poll_batch = runes "-5";
  gc_interval = [];
  gc_batch = runes "x";
  retention = runes "7200";
}

new_settings-IsPositive_example :
    let s = new_settings environment in
    IsPositive s.batch_size
    × IsPositive s.gc_batch_size
    × ((9_223_372_036_854 < env_int environment.poll_interval 250) ⊎ IsPositive s.poll_interval)
    × ((9_223_372_036 < env_int environment.gc_interval 60) ⊎ IsPositive s.gc_interval)
    × ((9_223_372_036 < env_int environment.retention 3600) ⊎ IsPositive s.retention)
new_settings-IsPositive_example = new_settings-IsPositive environment
