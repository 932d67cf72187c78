-- ===== src/Gateway/System.antt =====
-- gateway.py: one gateway as it runs. A caller queues a command, a sending worker takes one and
-- comes back from its round with it, the password is rejected, the handler closes; asyncio
-- chooses the order. `close_listener` is in two parts, before and after its wait for the workers.
use my_home_stability.Prelude.{ℕ, ◌≡◌, true, false, Option, none, some, List, [], ◌∷◌, ◌++◌}
use my_home_stability.Gateway.Command.{Message, QueuedCommand}
use my_home_stability.Gateway.Queue
use my_home_stability.Gateway.Queue.{CommandQueue, empty_queue}
use my_home_stability.Gateway.Stats.{disconnected, GatewayStats, cancel_stats_flush}
use my_home_stability.Gateway.Handler.{
  Timing, Handler, refresh_stats, set_connected, discard_queued, handle_auth_failure, close_session,
  flush_stats,
}
use my_home_stability.Gateway.Send.{send, send_status_request}
use my_home_stability.Gateway.Worker.{Attempt, Worker, sending_round, idle_round}

abbrev pub initial_stats : GatewayStats
initial_stats = record {
  is_connected = false;
  last_frame_at = none;
  frames_rx = 0;
  reconnects = 0;
  commands_sent = 0;
  commands_dropped = 0;
  queue_length = 0;
  session_state = disconnected;
}

-- The constructor of the handler.
unfoldable pub new_handler : Timing → Handler
new_handler timing = record {
  timing = timing;
  auth_rejected = false;
  is_connected = false;
  send_buffer = empty_queue;
  closed = false;
  stop_event_listener = false;
  stop_command_workers = false;
  event_session = false;
  command_sessions = [];
  open_channels = [];
  next_channel = 0;
  last_rx = 0;
  probe_sent_at = none;
  command_ack_at = none;
  recent_frames = [];
  frames_rx = 0;
  last_frame_at = none;
  reconnects = 0;
  commands_sent = 0;
  commands_dropped = 0;
  session_state = disconnected;
  event_sessions_opened = 0;
  signals = record {
    stats = initial_stats;
    published = [];
    last_stats_publish = none;
    stats_timer = none;
  };
  connection_signals = [];
  reports = [];
  reauths = 0;
}

-- `close_listener` up to the wait for the cancelled tasks.
unfoldable pub begin_close : Handler → Handler
begin_close h = record h { closed = true; stop_event_listener = true; stop_command_workers = true }

-- the sessions that the loops have left open
unfoldable pub close_sessions : List (ℕ × ℕ) → Handler → Handler
close_sessions [] h = h
close_sessions ((_, c) ∷ rest) h = close_sessions rest (close_session (some c) h)

-- `close_listener` after the wait.
unfoldable pub finish_close : ℕ → Handler → Handler
finish_close now h =
    let left : Handler = record h { event_session = false; command_sessions = [] } in
    let t = discard_queued (close_sessions h.command_sessions left) in
    let u = refresh_stats now true true (set_connected now false none t) in
    record u { signals = cancel_stats_flush u.signals }

-- `in_hand` are the commands that workers have taken and not come back with; `issued` are the
-- callers whose commands were handed to `send` or `send_status_request`, the newest first.
pub record System : Type 0 where
  pub handler : Handler
  pub in_hand : List QueuedCommand
  pub issued : List ℕ

abbrev pub note_caller : Option ℕ → List ℕ → List ℕ
note_caller none cs = cs
note_caller (some c) cs = c ∷ cs

-- A caller passes its two callbacks together, or none.
pub data Step : System → System → Type 0 where
  ask :
      (s : System) (now : ℕ) (m : Message) (o : Option ℕ)
      → Step s
          (record s { handler = (send now m o o s.handler).0; issued = note_caller o s.issued })
  ask_status :
      (s : System) (now : ℕ) (m : Message) (o : Option ℕ)
      → Step s (record s {
        handler = (send_status_request now m o o s.handler).0;
        issued = note_caller o s.issued;
      })
  take :
      (s : System) (item : QueuedCommand) (q : CommandQueue)
      → Queue.get s.handler.send_buffer ≡ some (item, q)
      → Step s
          (record s { handler = record s.handler { send_buffer = q }; in_hand = item ∷ s.in_hand })
  round :
      (s : System) (before after : List QueuedCommand) (item : QueuedCommand) (worker now : ℕ)
      (env : ℕ → Attempt) (ended_at : ℕ) (w : Worker)
      → s.in_hand ≡ before ++ item ∷ after
      → Step s (record s {
        handler = (sending_round worker now env ended_at w item s.handler).1;
        in_hand = before ++ after;
      })
  idle :
      (s : System) (worker : ℕ) (w : Worker)
      → Step s (record s { handler = (idle_round worker w s.handler).1 })
  flush : (s : System) (now : ℕ) → Step s (record s { handler = flush_stats now s.handler })
  reject :
      (s : System) (now : ℕ) → Step s (record s { handler = handle_auth_failure now s.handler })
  begin : (s : System) → Step s (record s { handler = begin_close s.handler })
  finish :
      (s : System) (now : ℕ)
      → s.in_hand ≡ []
      → Step s (record s { handler = finish_close now s.handler })

pub data Reach (s : System) : System → Type 0 where
  here : Reach s s
  next : {t u : System} → Reach s t → Step t u → Reach s u

unfoldable pub initial : Timing → System
unfolding new_handler
initial timing = record { handler = new_handler timing; in_hand = []; issued = [] }
