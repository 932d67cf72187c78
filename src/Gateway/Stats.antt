-- ===== src/Gateway/Stats.antt =====
-- gateway.py, `GatewayStats` and the throttled signal that carries it to the diagnostic entities.
-- A subscriber that raises is swallowed by the source, so a signal sent is a snapshot recorded.
pub mod Timely
use my_home_stability.Prelude.{
  ℕ, ◌+◌, ◌-◌, Bool, false, not, ◌&&◌, Option, none, some, List, ◌∷◌, ltb, if◌then◌else◌, is_some,
}

pub data SessionState : Type 0 where
  disconnected connecting connected auth_failed : SessionState

pub record GatewayStats : Type 0 where
  pub is_connected : Bool
  pub last_frame_at : Option ℕ
  pub frames_rx : ℕ
  pub reconnects : ℕ
  pub commands_sent : ℕ
  pub commands_dropped : ℕ
  pub queue_length : ℕ
  pub session_state : SessionState

-- `published` is what went out on the stats signal, the newest first; `stats_timer` is the
-- instant at which the pending flush is due.
pub record Signals : Type 0 where
  pub stats : GatewayStats
  pub published : List GatewayStats
  pub last_stats_publish : Option ℕ
  pub stats_timer : Option ℕ

unfoldable pub schedule_stats_flush : ℕ → ℕ → Signals → Signals
schedule_stats_flush now delay s =
    if is_some s.stats_timer then s else record s { stats_timer = some (now + delay) }

unfoldable pub cancel_stats_flush : Signals → Signals
cancel_stats_flush s = record s { stats_timer = none }

-- the time since the last publication is below the interval
abbrev pub too_soon : ℕ → ℕ → Option ℕ → Bool
too_soon interval now none = false
too_soon interval now (some last) = ltb (now - last) interval

abbrev pub since : ℕ → Option ℕ → ℕ
since now none = 0
since now (some last) = now - last

unfoldable pub publish_stats : ℕ → ℕ → Bool → Signals → Signals
unfolding schedule_stats_flush cancel_stats_flush
publish_stats interval now immediate s =
    if not immediate && too_soon interval now s.last_stats_publish
    then schedule_stats_flush now (interval - since now s.last_stats_publish) s
    else (let t = cancel_stats_flush s in
        record t { last_stats_publish = some now; published = s.stats ∷ s.published })

-- `_refresh_stats`, on the snapshot that the handler takes of itself
unfoldable pub refresh_signals : ℕ → ℕ → Bool → Bool → GatewayStats → Signals → Signals
unfolding publish_stats
refresh_signals interval now publish immediate snapshot s =
    let t : Signals = record s { stats = snapshot } in
    if publish then publish_stats interval now immediate t else t
