-- ===== src/Gateway/Handler.antt =====
-- gateway.py, `MyHOMEGatewayHandler`: its state and the helpers that every path shares.
-- Log lines are left out, and the calls of the limiter that decides whether a line is written.
use my_home_stability.Prelude.{
  ℕ, zero, suc, ◌+◌, String, Bool, true, false, not, ◌||◌, Option, none, some, List, [], ◌∷◌, ◌++◌,
  ltb, ◌==◌, if◌then◌else◌, length, drop, keep,
}
use my_home_stability.Gateway.Command.{QueuedCommand, Report, mark_dropped}
use my_home_stability.Gateway.Queue
use my_home_stability.Gateway.Queue.{CommandQueue, empty_queue, qsize}
use my_home_stability.Gateway.Stats.{
  SessionState, disconnected, connected, auth_failed, GatewayStats, Signals, refresh_signals,
}

-- The timing knobs of the constructor, in milliseconds.
pub record Timing : Type 0 where
  pub command_timeout : ℕ
  pub command_ttl : ℕ
  pub idle_timeout : ℕ
  pub probe_window : ℕ
  pub connect_timeout : ℕ
  pub command_session_idle : ℕ
  pub read_poll_interval : ℕ
  pub initial_backoff : ℕ
  pub max_backoff : ℕ
  pub stats_publish_interval : ℕ

pub data Direction : Type 0 where
  monitor reply command : Direction

pub record FrameRecord : Type 0 where
  pub direction : Direction
  pub frame : String
  pub at : ℕ

abbrev pub recent_frames_maxlen : ℕ
recent_frames_maxlen = 50

-- `reports` are the delivery callbacks that have run, `connection_signals` what went out on the
-- connection signal, both the oldest first; `reauths` counts the reauth flows started.
-- A command channel is its number: `next_channel` is the next one, `open_channels` are those whose
-- socket is open, which is a fact of the network, and `command_sessions` is the handler's own map
-- from a worker to its channel.
pub record Handler : Type 0 where
  pub timing : Timing
  pub auth_rejected : Bool
  pub is_connected : Bool
  pub send_buffer : CommandQueue
  pub closed : Bool
  pub stop_event_listener : Bool
  pub stop_command_workers : Bool
  pub event_session : Bool
  pub command_sessions : List (ℕ × ℕ)
  pub open_channels : List ℕ
  pub next_channel : ℕ
  pub last_rx : ℕ
  pub probe_sent_at : Option ℕ
  pub command_ack_at : Option ℕ
  pub recent_frames : List FrameRecord
  pub frames_rx : ℕ
  pub last_frame_at : Option ℕ
  pub reconnects : ℕ
  pub commands_sent : ℕ
  pub commands_dropped : ℕ
  pub session_state : SessionState
  pub event_sessions_opened : ℕ
  pub signals : Signals
  pub connection_signals : List Bool
  pub reports : List Report
  pub reauths : ℕ

unfoldable pub snapshot : Handler → GatewayStats
snapshot h = record {
  is_connected = h.is_connected;
  last_frame_at = h.last_frame_at;
  frames_rx = h.frames_rx;
  reconnects = h.reconnects;
  commands_sent = h.commands_sent;
  commands_dropped = h.commands_dropped;
  queue_length = qsize h.send_buffer;
  session_state = h.session_state;
}

-- `_refresh_stats(publish=…, immediate=…)`
unfoldable pub refresh_stats : ℕ → Bool → Bool → Handler → Handler
refresh_stats now publish immediate h = record h {
  signals =
      refresh_signals h.timing.stats_publish_interval now publish immediate (snapshot h) h.signals;
}

-- `_flush_stats`, when the timer fires
unfoldable pub flush_stats : ℕ → Handler → Handler
unfolding refresh_stats
flush_stats now h =
    let t : Handler = record h { signals = record h.signals { stats_timer = none } } in
    if h.closed then t else refresh_stats now true true t

state_eq : SessionState → SessionState → Bool
state_eq SessionState.disconnected SessionState.disconnected = true
state_eq SessionState.connecting SessionState.connecting = true
state_eq SessionState.connected SessionState.connected = true
state_eq SessionState.auth_failed SessionState.auth_failed = true
state_eq _ _ = false

bool_eq : Bool → Bool → Bool
bool_eq true b = b
bool_eq false b = not b

-- the state that `_set_connected` moves to
target_state : Bool → Option SessionState → Bool → SessionState
target_state is_up (some s) rejected = s
target_state true none rejected = connected
target_state false none rejected = if rejected then auth_failed else disconnected

unfoldable pub set_connected : ℕ → Bool → Option SessionState → Handler → Handler
unfolding state_eq bool_eq target_state refresh_stats
set_connected now is_up state h =
    let target = target_state is_up state h.auth_rejected in
    let changed = not (bool_eq is_up h.is_connected) in
    let state_changed = not (state_eq target h.session_state) in
    refresh_stats now (changed || state_changed) true (record h {
      is_connected = is_up;
      session_state = target;
      connection_signals =
          if changed then h.connection_signals ++ is_up ∷ [] else h.connection_signals;
    })

unfoldable pub set_session_state : ℕ → SessionState → Handler → Handler
unfolding state_eq refresh_stats
set_session_state now state h =
    if state_eq state h.session_state
    then h
    else refresh_stats now true true (record h { session_state = state })

is_command : Direction → Bool
is_command Direction.command = true
is_command _ = false

-- `deque(maxlen=RECENT_FRAMES_MAXLEN).append`
push_recent : List FrameRecord → FrameRecord → List FrameRecord
push_recent frames r =
    if ltb (length frames) recent_frames_maxlen then frames ++ r ∷ [] else drop 1 frames ++ r ∷ []

-- `now` is `utcnow`.
unfoldable pub record_frame : ℕ → Direction → String → Handler → Handler
unfolding is_command push_recent
record_frame now direction frame h =
    let kept =
      push_recent h.recent_frames (record { direction = direction; frame = frame; at = now }) in
    if is_command direction
    then record h { recent_frames = kept }
    else record h { recent_frames = kept; frames_rx = h.frames_rx + 1; last_frame_at = some now }

-- `item.mark_dropped()`, the count, and the publication: what every path that gives a command up
-- does.
unfoldable pub give_up : ℕ → QueuedCommand → Handler → QueuedCommand × Handler
unfolding refresh_stats
give_up now item h =
    let (item', run) = mark_dropped item in
    (
      item',
      refresh_stats now true true
          (record h { reports = h.reports ++ run; commands_dropped = h.commands_dropped + 1 }),
    )

-- `self._command_sessions.pop(worker_id, None)`
unfoldable pub forget_session : ℕ → Handler → Handler
forget_session w h = record h { command_sessions = keep (λ e. not (e.0 == w)) h.command_sessions }

-- `_close_session`: closing twice, or no session, does nothing.
unfoldable pub close_session : Option ℕ → Handler → Handler
close_session none h = h
close_session (some c) h = record h { open_channels = keep (λ d. not (d == c)) h.open_channels }

-- a channel that was opened, entered in the map under its worker
unfoldable pub note_session : ℕ → Handler → Handler
note_session w h = record h {
  command_sessions = (w, h.next_channel) ∷ keep (λ e. not (e.0 == w)) h.command_sessions;
  open_channels = h.next_channel ∷ h.open_channels;
  next_channel = h.next_channel + 1;
}

-- `_drain_queue`: `fuel` bounds the loop, and one round more than there are frames is enough.
unfoldable pub drain_from : ℕ → CommandQueue → List QueuedCommand × CommandQueue
drain_from zero q = ([], q)
drain_from (suc fuel) q = elim (Queue.get q) [
  | none ↦ ([], q)
  | some (item, rest) ↦ let (items, last) = drain_from fuel rest in (item ∷ items, last)
]

unfoldable pub drain_queue : CommandQueue → List QueuedCommand × CommandQueue
drain_queue q = drain_from (suc (qsize q)) q

-- what `mark_dropped` on each of these runs
unfoldable pub drop_all : List QueuedCommand → List Report
drop_all [] = []
drop_all (item ∷ items) = (mark_dropped item).1 ++ drop_all items

unfoldable pub discard_queued : Handler → Handler
discard_queued h =
    let (dropped, rest) = drain_queue h.send_buffer in
    record h {
      send_buffer = rest;
      reports = h.reports ++ drop_all dropped;
      commands_dropped = h.commands_dropped + length dropped;
    }

-- `_handle_auth_failure`
unfoldable pub handle_auth_failure : ℕ → Handler → Handler
handle_auth_failure now h =
    let stopped : Handler = record h { stop_event_listener = true; stop_command_workers = true } in
    let t = set_connected now false (some auth_failed) (discard_queued stopped) in
    if t.auth_rejected then t else record t { auth_rejected = true; reauths = t.reauths + 1 }
