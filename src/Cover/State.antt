-- ===== src/Cover/State.antt =====
-- cover.py: the state of `MyHOMECover`. Home Assistant's timers are the instants at which they fire;
-- a frame that was handed to the gateway, a `_FrameDelivery`, is known by its number.
use my_home_stability.Prelude.{ℕ, Bool, String, Option, List}

-- `OPENING` and `CLOSING`
pub data Movement : Type 0 where
  opening closing : Movement

-- `_MovementModel`
pub record MovementModel (W : Type 0) : Type 0 where
  pub slat_time : W
  pub opening_roll : W
  pub closing_roll : W
  pub curtain_up : W
  pub curtain_down : W
  pub stop_latency : W
  pub start_delay : W
  pub two_phase : Bool

-- What `_adopt_travel_model` sets: the numbers of the next movements, and what is derived of them.
pub record TravelModel (W : Type 0) : Type 0 where
  pub shutter_run : W
  pub opening_time : W
  pub closing_time : W
  pub roll : W
  pub movement : MovementModel W
  pub has_tilt : Bool
  pub advanced_move_timeout : W

-- what became of a frame: the instant it was written, or that it never was
pub data Outcome (W : Type 0) : Type 0 where
  delivered : W → Outcome W
  dropped : Outcome W

-- What `send` gives: a refusal, or a frame, whose outcome may be known already.
pub data Handover (W : Type 0) : Type 0 where
  refused : Handover W
  taken : Option (Outcome W) → Handover W

-- `_PendingStop`
pub record PendingStop (W : Type 0) : Type 0 where
  pub delivery : ℕ
  pub interrupted : Option Movement
  pub frozen_position : Option ℕ
  pub frozen_tilt : Option ℕ
  pub base_elapsed : W
  pub queued_at : W
  pub move_started_at : Option W

-- the end-of-run timer: which arming it is, and when it fires
pub record StopTimer (W : Type 0) : Type 0 where
  pub generation : ℕ
  pub due : W

-- the timer of an advanced actuator: the bound on its movement, or the grace of the probe
pub data AdvancedTimer (W : Type 0) : Type 0 where
  movement_timeout probe_grace : W → AdvancedTimer W

-- a frame that the cover hands to the gateway
pub data CoverFrame : Type 0 where
  raise_shutter lower_shutter stop_shutter status : CoverFrame
  set_shutter_level : ℕ → CoverFrame

pub record Cover (W : Type 0) : Type 0 where
  pub advanced : Bool
  pub inverted : Bool
  pub tilt : Bool
  pub height : Option W
  pub profile : Option String
  pub calibration_source : String
  pub travel : TravelModel W
  pub run : MovementModel W
  pub current_position : Option ℕ
  pub current_tilt : Option ℕ
  pub is_closed : Option Bool
  pub moving : Option Movement
  pub move_started_at : Option W
  pub move_start_position : Option ℕ
  pub move_start_tilt : Option ℕ
  pub target_position : Option ℕ
  pub own_command_at : Option W
  pub own_command : Option Movement
  pub stopped_direction : Option Movement
  pub own_free_run : Bool
  pub echo_after_restart : Bool
  pub move_duration : Option W
  pub end_position : Option ℕ
  pub end_tilt : Option ℕ
  pub stop_timer : Option (StopTimer W)
  pub stop_timer_generation : ℕ
  pub ticking : Bool
  pub echo_recheck : Option W
  pub advanced_timer : Option (AdvancedTimer W)
  pub advanced_probe_pending : Bool
  pub move_delivery : Option ℕ
  pub pending_stop : Option (PendingStop W)
  pub direction_delivery : Option ℕ
  pub stop_delivered_at : Option W
  pub move_delivered_at : Option W
  pub motor_started_at : Option W
  pub stop_status_at : Option W
  pub motor_start_event : Bool
  pub movement_end_event : Bool
  pub calib_end_hook : Bool
  pub hooks_run : ℕ
  pub calibrating : ℕ
  pub frames : ℕ
  pub sent : List CoverFrame
