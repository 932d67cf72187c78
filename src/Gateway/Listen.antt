-- ===== src/Gateway/Listen.antt =====
-- gateway.py: one round of `listening_loop` and the idle watchdog `_check_idle`.
-- What the event session, the dispatch of a frame and the clock do in a round is an argument, a
-- `Round`; the probe of the watchdog is built by OWNd from the configuration, so it is one too.
pub mod Loop
pub mod Watchdog
mod Tests
use my_home_stability.Prelude.{
  ℕ, ◌+◌, ◌-◌, ◌*◌, String, Bool, true, false, not, ◌&&◌, Option, none, some, ltb, leb, min,
  if◌then◌else◌,
}
use my_home_stability.Gateway.Command.{Message}
use my_home_stability.Gateway.Stats.{connecting}
use my_home_stability.Gateway.Handler.{
  Handler, Direction, set_connected, set_session_state, refresh_stats, record_frame,
  handle_auth_failure,
}
use my_home_stability.Gateway.Send.{send_status_request}
use my_home_stability.Gateway.Worker.{Failure}

-- a status request was acknowledged since the probe went out
unfoldable pub acked_since : ℕ → Option ℕ → Bool
acked_since probe none = false
acked_since probe (some ack) = leb probe ack

-- the probe, and whether it could be queued
unfoldable pub send_probe : ℕ → Message → Handler → Handler
send_probe now probe h =
    let (h', queued) = send_status_request now probe none none h in
    if queued then record h' { probe_sent_at = some now } else h'

-- the time after the probe: the Boolean is a `SessionError`
unfoldable pub await_probe : ℕ → ℕ → Handler → Handler × Bool
unfolding acked_since
await_probe now sent h =
    if leb h.timing.probe_window (now - sent)
    then if acked_since sent h.command_ack_at
      then (record h { last_rx = now; probe_sent_at = none }, false)
      else (h, true)
    else (h, false)

unfoldable pub probe_or_wait : ℕ → Message → Option ℕ → Handler → Handler × Bool
unfolding send_probe await_probe
probe_or_wait now probe none h = (send_probe now probe h, false)
probe_or_wait now probe (some sent) h = await_probe now sent h

-- `_check_idle`
unfoldable pub check_idle : ℕ → Message → Handler → Handler × Bool
unfolding probe_or_wait
check_idle now probe h =
    if ltb (now - h.last_rx) h.timing.idle_timeout
    then (h, false)
    else probe_or_wait now probe h.probe_sent_at h

-- What reading the event session gives; `ignored` is a frame that OWNd could not parse.
pub data Read : Type 0 where
  silent nothing : Read
  parsed : String → Option Failure → Read
  ignored : String → Read
  broken : Failure → Read

pub record Round : Type 0 where
  pub opening : Option Failure
  pub opened_at : ℕ
  pub read : Read
  pub probe : Message
  pub read_at : ℕ

-- The variables of `listening_loop`, and whether the task goes on.
pub record Listener : Type 0 where
  pub session : Bool
  pub backoff : ℕ
  pub running : Bool

-- `finally` of the task
unfoldable pub end_listener : ℕ → Listener → Handler → Listener × Handler
end_listener now l h = (
  record l { session = false; running = false },
  record (set_connected now false none h) { event_session = false },
)

-- the wait before the next session, unless the loop is to stop
unfoldable pub wait_or_end : ℕ → Listener → Handler → Bool → Listener × Handler
unfolding end_listener
wait_or_end now l h true = end_listener now l h
wait_or_end now l h false = (record l { backoff = min (l.backoff * 2) h.timing.max_backoff }, h)

-- what a lost session leaves
unfoldable pub lose_session : ℕ → Listener → Handler → Listener × Handler
unfolding wait_or_end
lose_session now l h =
    let h' : Handler = record (set_connected now false none h) { event_session = false } in
    wait_or_end now (record l { session = false }) h' h'.stop_event_listener

-- the `except` clauses
unfoldable pub on_event_failure : ℕ → Listener → Handler → Failure → Listener × Handler
unfolding lose_session end_listener
on_event_failure now l h Failure.rejected =
    end_listener now (record l { session = false })
      (handle_auth_failure now (record h { event_session = false }))
on_event_failure now l h Failure.transport = lose_session now l h
on_event_failure now l h Failure.unexpected = lose_session now l h
on_event_failure now l h Failure.cancelled = end_listener now l h

-- the session has just proved alive
unfoldable pub alive : Handler → Listener → Listener
alive h l = record l { backoff = h.timing.initial_backoff }

-- a frame was read
unfoldable pub heard : ℕ → String → Handler → Handler
heard now frame h =
    refresh_stats now true false
      (record_frame now Direction.monitor frame (record h { last_rx = now; probe_sent_at = none }))

unfoldable pub after_dispatch : ℕ → Listener → Handler → Option Failure → Listener × Handler
unfolding on_event_failure
after_dispatch now l h none = (l, h)
after_dispatch now l h (some f) = on_event_failure now l h f

unfoldable pub after_watchdog : ℕ → Listener → Handler × Bool → Listener × Handler
unfolding on_event_failure
after_watchdog now l (h, lost) = if lost then on_event_failure now l h Failure.transport else (l, h)

-- the reading half of a round
unfoldable pub on_read : ℕ → Message → Listener → Handler → Read → Listener × Handler
unfolding on_event_failure alive heard after_dispatch after_watchdog
on_read now probe l h silent = after_watchdog now (alive h l) (check_idle now probe h)
on_read now probe l h nothing = on_event_failure now l h Failure.transport
on_read now probe l h (ignored frame) = (alive h l, heard now frame h)
on_read now probe l h (parsed frame f) = after_dispatch now (alive h l) (heard now frame h) f
on_read now probe l h (broken f) = on_event_failure now l h f

-- the handler when an event session has been opened
unfoldable pub note_event_session : ℕ → Handler → Handler
note_event_session now h = set_connected now true none (record h {
  event_session = true;
  last_rx = now;
  probe_sent_at = none;
  reconnects = if leb 1 h.event_sessions_opened then h.reconnects + 1 else h.reconnects;
  event_sessions_opened = h.event_sessions_opened + 1;
})

-- the session was not there, and is opened first
unfoldable pub open_and_read : Round → Listener → Handler → Option Failure → Listener × Handler
unfolding on_read on_event_failure note_event_session
open_and_read r l h (some f) = on_event_failure r.opened_at (record l { session = true }) h f
open_and_read r l h none =
    on_read r.read_at r.probe (record l { session = true }) (note_event_session r.opened_at h)
      r.read

-- the body of the loop, by whether a session is there
unfoldable pub listen_on : Round → Listener → Handler → Bool → Listener × Handler
unfolding open_and_read on_read
listen_on r l h true = on_read r.read_at r.probe l h r.read
listen_on r l h false = open_and_read r l (set_session_state r.opened_at connecting h) r.opening

-- the loop's condition
unfoldable pub listen_unless : Round → Listener → Handler → Bool → Listener × Handler
unfolding listen_on end_listener
listen_unless r l h true = end_listener r.opened_at l h
listen_unless r l h false = listen_on r l h l.session

-- One round of `listening_loop`. A cancellation in the wait after a loss is one at the next opening.
unfoldable pub listening_round : Round → Listener → Handler → Listener × Handler
unfolding listen_unless
listening_round r l h = listen_unless r l h h.stop_event_listener
