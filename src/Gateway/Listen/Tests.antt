-- ===== src/Gateway/Listen/Tests.antt =====
-- The listening loop and its watchdog at concrete data.
use my_home_stability.Prelude.{◌≡◌, refl, true, false, none, some, arith}
use my_home_stability.Gateway.Command.{Message}
use my_home_stability.Gateway.Handler.{Timing, Handler}
use my_home_stability.Gateway.Worker.{Failure}
use my_home_stability.Gateway.System.{new_handler}
use my_home_stability.Gateway.Listen.{broken, Round, Listener, listening_round}
use my_home_stability.Gateway.Listen.Loop.{IsHonest, listening_round-IsHonest}

abbrev timing : Timing
timing = record {
  command_timeout = 5000;
  command_ttl = 10000;
  idle_timeout = 120000;
  probe_window = 10000;
  connect_timeout = 10000;
  command_session_idle = 20000;
  read_poll_interval = 30000;
  initial_backoff = 1000;
  max_backoff = 60000;
  stats_publish_interval = 30000;
}

abbrev probe : Message
probe = record { text = "*#1*21##"; who = some 1; bare_where = some "21"; interface = none }

-- the session opens, and is lost at the first read
abbrev lost : Round
lost = record {
  opening = none;
  opened_at = 100;
  read = broken Failure.transport;
  probe = probe;
  read_at = 200;
}

abbrev listener : Listener
listener = record { session = false; backoff = 1000; running = true }

abbrev handler : Handler
unfolding new_handler
handler = new_handler timing

listening_round-IsHonest_example :
    let (l', h') = listening_round lost listener handler in
    IsHonest l' h' × (h'.timing ≡ handler.timing)
unfolding new_handler
listening_round-IsHonest_example =
    listening_round-IsHonest lost listener handler (omega arith) refl
      (record { connected = refl; bounded = omega arith; ended = refl })
