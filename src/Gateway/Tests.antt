-- ===== src/Gateway/Tests.antt =====
-- Runs of the command path, and the theorems about it at concrete commands.
use my_home_stability.Prelude.{
  ◌⊎◌, is_some, ◌+◌, ℕ, zero, suc, ◌≤◌, ◌≡◌, refl, true, false, none, some, [], ◌∷◌, arith,
}
use my_home_stability.Gateway.Command.{Message, QueuedCommand, queued_command}
use my_home_stability.Gateway.Queue.{
  CommandQueue, empty_queue, put, get, qsize, pending, put_nowait,
}
use my_home_stability.Gateway.Handler.{Timing, Handler, drain_queue, refresh_stats}
use my_home_stability.Gateway.Send
use my_home_stability.Gateway.Send.{send}
use my_home_stability.Gateway.Worker.{
  Failure, answered, failed, Attempt, Worker, deliver, sending_round,
}
use my_home_stability.Gateway.Stats.{Signals, publish_stats, too_soon}
use my_home_stability.Gateway.Stats.Timely.{IsTimely, publish_stats-IsTimely}
use my_home_stability.Gateway.System.{
  initial_stats, System, ask, take, round, Reach, here, next, initial, finish_close, note_caller,
  new_handler,
}
use my_home_stability.Gateway.Settlement.{reported, owed, mixed}
use my_home_stability.Gateway.Queue.Contents.{weigh}
use my_home_stability.Gateway.Settlement.Balance.{drain_queue_lem}
use my_home_stability.Gateway.Settlement.Rounds.{sending_round-reports}
use my_home_stability.Gateway.Settlement.Life.{calls, reported-le-calls, reported-eq-calls}
use my_home_stability.Gateway.Channels.{HoldsAfter, deliver_holds}
use my_home_stability.Gateway.Channels.Cancelled.{has_entry, cancelled_round_leaves_open}

abbrev timing : Timing
timing = record {
  command_timeout = 5000;
  command_ttl = 10000;
  idle_timeout = 120000;
  probe_window = 10000;
  connect_timeout = 10000;
  command_session_idle = 60000;
  read_poll_interval = 5000;
  initial_backoff = 1000;
  max_backoff = 60000;
  stats_publish_interval = 30000;
}

abbrev message : Message
message = record { text = "*2*1*21##"; who = some 2; bare_where = some "21"; interface = none }

abbrev up : QueuedCommand
up = queued_command message false 0 (some 7) (some 7)

abbrev waiting : CommandQueue
waiting = record { queue = up ∷ []; stops = [] }

drain_queue_lem_example : drain_queue waiting ≡ (pending waiting, empty_queue)
drain_queue_lem_example = drain_queue_lem waiting

abbrev open_handler : Handler
unfolding new_handler
open_handler = new_handler timing

abbrev worker : Worker
worker = record { session = none; backoff = 1000; running = true }

-- The channel opens, the first write times out, and the second attempt is answered.
abbrev retried : ℕ → Attempt
retried (suc zero) = record {
  opening = none;
  written_at = 100;
  answer = failed Failure.transport;
  ended_at = 5100;
}
retried _ = record {
  opening = none;
  written_at = 5200;
  answer = answered (record { acknowledged = true; replies = [] });
  ended_at = 5300;
}

abbrev cancelled_write : ℕ → Attempt
cancelled_write _ = record {
  opening = none;
  written_at = 100;
  answer = failed Failure.cancelled;
  ended_at = 200;
}

sending_round-reports_example :
    let h' = (sending_round 0 50 retried 5300 worker up open_handler).1 in
    (h'.send_buffer ≡ open_handler.send_buffer)
      × ((c : ℕ) → reported c h'.reports ≡ reported c open_handler.reports + owed c up)
    ⊎ (pending h'.send_buffer ≡ [])
      × ((c : ℕ)
          → reported c h'.reports
            ≡ reported c open_handler.reports
              + owed c up
              + weigh (owed c) (pending open_handler.send_buffer))
unfolding mixed queued_command
sending_round-reports_example = sending_round-reports 0 50 retried 5300 worker up open_handler refl

-- Two workers hold a channel each; the one with channel 3 delivers.
abbrev two_channels : Handler
two_channels = record open_handler { open_channels = 5 ∷ 3 ∷ []; next_channel = 6 }

deliver_holds_example :
    let d = deliver 0 retried (some 3) up two_channels in
    HoldsAfter (5 ∷ []) d.session d.handler d.ending
unfolding new_handler
deliver_holds_example =
    deliver_holds 0 retried (5 ∷ []) (some 3) up two_channels
      (refl, refl, (omega arith, (omega arith, tt)))

cancelled_round_leaves_open_example :
    let (w', h') = sending_round 0 50 cancelled_write 200 worker up open_handler in
    (w'.session ≡ none)
    × (has_entry 0 h'.command_sessions ≡ false)
    × (h'.open_channels ≡ open_handler.next_channel ∷ open_handler.open_channels)
unfolding queued_command new_handler
cancelled_round_leaves_open_example =
    cancelled_round_leaves_open 0 50 cancelled_write 200 worker up open_handler (refl, refl) refl
      (omega arith)

-- one command, queued, taken and answered
abbrev start : System
start = initial timing

abbrev queued : System
queued = record start {
  handler = (send 0 message (some 7) (some 7) start.handler).0;
  issued = note_caller (some 7) start.issued;
}

abbrev taken : System
taken = record queued {
  handler = record queued.handler { send_buffer = empty_queue };
  in_hand = up ∷ queued.in_hand;
}

abbrev settled : System
settled = record taken {
  handler = (sending_round 0 50 retried 5300 worker up taken.handler).1;
  in_hand = [];
}

run : Reach start settled
unfolding initial new_handler send Send.enqueue Send.enqueue_open put_nowait put queued_command
    qsize get refresh_stats
run =
    next (next (next here (ask start 0 message (some 7))) (take queued up empty_queue refl))
      (round taken [] [] up 0 50 retried 5300 worker refl)

reported-le-calls_example : reported 7 settled.handler.reports ≤ calls 7 settled.issued
reported-le-calls_example = reported-le-calls timing settled 7 run

reported-eq-calls_example :
    reported 7 (finish_close 6000 settled.handler).reports ≡ calls 7 settled.issued
reported-eq-calls_example = reported-eq-calls timing settled 7 6000 run refl

abbrev shown : Signals
shown = record {
  stats = initial_stats;
  published = [];
  last_stats_publish = some 1000;
  stats_timer = none;
}

publish_stats-IsTimely_example :
    let t = publish_stats 30000 5000 false shown in
    IsTimely 30000 t
    × ((t.published ≡ initial_stats ∷ [])
          × (t.last_stats_publish ≡ some 5000)
          × (t.stats_timer ≡ none)
        ⊎ (t.published ≡ [])
          × (is_some t.stats_timer ≡ true)
          × (too_soon 30000 5000 (some 1000) ≡ true))
publish_stats-IsTimely_example = publish_stats-IsTimely 30000 5000 false shown tt
