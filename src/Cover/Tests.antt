-- ===== src/Cover/Tests.antt =====
-- cover.py: a shutter of twenty seconds, whose floats are whole thousandths.
use my_home_stability.Prelude.{
  ℕ, zero, suc, ◌+◌, ◌-◌, ◌*◌, ◌/◌, ◌≡◌, refl, true, false, ◌&&◌, not, none, some, ltb, leb, ◌==◌,
  is_some, if◌then◌else◌, ◌∷◌,
}
use my_home_stability.Cover.Number.{Float, pos, num, larger, smaller, same, clamp_percent}
use my_home_stability.Cover.Roll.{roll_tau, or_float, clamped_roll}
use my_home_stability.Cover.State.{opening, delivered, taken, Cover, stop_shutter}
use my_home_stability.Cover.Travel.{
  adopt_travel_model, estimate, estimate_of, both, travel, travel_opening, slat_left, normalise,
  normalise_whole, settled, travel_time, curtain_tau,
}
use my_home_stability.Cover.Movement.{
  apply_motor_start, apply_movement_delivery, stop_offset, start_movement, begun, set_off,
  attach_movement, arm_movement_deadline, arm_deadline_in, cancel_timers, cancel_echo_recheck,
  cancel_advanced_timer, start_from, end_of,
}
use my_home_stability.Cover.Stop.{
  movement_deadline, end_or_rearm, end_run, send_stop, or_continue, after_stop, attach_stop,
  waiting, hand_over,
}
use my_home_stability.Cover.Events.{handle_event}
use my_home_stability.Cover.Commands.{open_cover, move}
use my_home_stability.Cover.Lifecycle.{
  ResolvedModel, Kept, new_cover, apply_calibration, extra_restore_state_data, added_to_hass,
}
use my_home_stability.Cover.Health.{known, healthy, CoverReach, created, then_by, by_open}
use my_home_stability.Cover.Health.Runs.{CoverReach-healthy}
use my_home_stability.Cover.Estimate.{estimate-known, added-estimate}
use my_home_stability.Cover.Deadline.{early, accepted, movement_deadline-sent}
use my_home_stability.Cover.Window.{stopped_frame, handle_event-twice}
use my_home_stability.Cover.Recalibrated.{apply_calibration-commutes}

-- Newton's steps towards the square root of a number of millionths.
root_from : ℕ → ℕ → ℕ → ℕ
root_from zero n guess = guess
root_from (suc fuel) n guess = root_from fuel n ((guess + n / (guess + 1)) / 2)

instance abbrev thousandths : Float ℕ
unfolding root_from
thousandths = record {
  of = λ n. n * 1000;
  plus = λ a b. a + b;
  minus = λ a b. a - b;
  times = λ a b. a * b / 1000;
  over = λ a b. a * 1000 / b;
  square_root = λ a. root_from 20 (a * 1000) a;
  le = leb;
  lt = ltb;
  round = λ a. pos ((a + 500) / 1000);
}

abbrev model : ResolvedModel ℕ
model = record {
  values = record {
    shutter_run = some 20000;
    opening_time = some 20000;
    closing_time = some 18000;
    slat_time = some 2000;
    roll = none;
    opening_roll = none;
    closing_roll = none;
    stop_latency = some 100;
    start_delay = some 500;
  };
  height = none;
  profile = none;
  source = "";
}

abbrev fresh : Cover ℕ
fresh = new_cover false false true model

-- Opened at second 10 from an unknown position; the frame still waits.
abbrev opened : Cover ℕ
opened = open_cover 10000 (taken none) fresh

opened_reach : CoverReach opened
opened_reach =
    then_by fresh opened (created false false true model) (by_open fresh 10000 (taken none))

CoverReach-healthy_example : healthy opened ≡ true
CoverReach-healthy_example = CoverReach-healthy opened opened_reach

estimate-known_example : known (estimate 12000 0 opened).0 (estimate 12000 0 opened).1 ≡ true
estimate-known_example = estimate-known opened 12000 0 opened_reach

opened-advanced : opened.advanced ≡ false
unfolding open_cover move hand_over start_movement begun set_off attach_movement
    arm_movement_deadline arm_deadline_in cancel_timers cancel_echo_recheck cancel_advanced_timer
    new_cover normalise_whole settled start_from end_of estimate estimate_of travel_time curtain_tau
    roll_tau adopt_travel_model thousandths larger smaller or_float same clamped_roll stop_offset
opened-advanced = refl

opened-estimate : estimate 11500 (num 0) opened ≡ (some 0, some 50)
unfolding open_cover move hand_over start_movement begun set_off attach_movement
    arm_movement_deadline arm_deadline_in cancel_timers cancel_echo_recheck cancel_advanced_timer
    new_cover normalise_whole settled start_from end_of estimate estimate_of travel_time curtain_tau
    roll_tau adopt_travel_model thousandths larger smaller or_float same clamped_roll stop_offset
    travel travel_opening slat_left normalise clamp_percent both
opened-estimate = refl

added-estimate_example :
    let kept : Kept = record { extra = extra_restore_state_data 11500 opened; last = none } in
    let e = added_to_hass kept fresh in (e.current_position ≡ some 0) × (e.current_tilt ≡ some 50)
unfolding new_cover adopt_travel_model thousandths larger or_float same
added-estimate_example =
    added-estimate opened fresh 11500 0 50 none opened_reach opened-advanced opened-estimate refl
      refl refl

-- A run from 50 to 80, whose frame was written at second 11, half a second before the motor.
abbrev running_up : Cover ℕ
running_up = record (new_cover false false true model) {
  current_position = some 50;
  current_tilt = some 100;
  moving = some opening;
  move_started_at = some 11500;
  move_start_position = some 50;
  move_start_tilt = some 100;
  target_position = some 80;
  own_command_at = some 11000;
  own_command = some opening;
  move_delivered_at = some 11000;
  move_duration = some 5400;
  end_position = some 80;
  end_tilt = some 100;
  stop_timer = some (record { generation = 4; due = 16800 });
  stop_timer_generation = 4;
  ticking = true;
  frames = 1;
}

-- Its stop goes out at second 16.8, a tenth before the end of the run, and not sooner.
running_up-sent :
    ((movement_deadline 16800 4 (taken none) running_up).sent ≡ stop_shutter ∷ running_up.sent)
    × ((movement_deadline 16000 4 (taken none) running_up).sent ≡ running_up.sent)
unfolding new_cover movement_deadline end_or_rearm end_run send_stop or_continue after_stop
    attach_stop waiting hand_over thousandths arm_movement_deadline arm_deadline_in stop_offset
    adopt_travel_model larger or_float same
running_up-sent = (refl, refl)

movement_deadline-sent_example : (movement_deadline 16800 4 (taken none) running_up).sent ≡ (
    if (4 == running_up.stop_timer_generation && not (is_some running_up.move_delivery))
      && (not (
            early 16800
              (stop_offset running_up)
              running_up.move_started_at
              running_up.move_duration)
          && (is_some running_up.target_position && accepted {W = ℕ} (taken none)))
    then stop_shutter ∷ running_up.sent
    else running_up.sent)
movement_deadline-sent_example = movement_deadline-sent 16800 4 (taken none) running_up

handle_event-twice_example :
    let e = handle_event 11500 stopped_frame running_up in
    (e.moving ≡ running_up.moving)
    × (estimate 13000 0 e ≡ estimate 13000 0 running_up)
    × (e.stop_timer ≡ running_up.stop_timer)
    × ((handle_event 12000 stopped_frame e).moving
        ≡ (if is_some running_up.move_delivery then running_up.moving else none))
unfolding new_cover thousandths
handle_event-twice_example =
    handle_event-twice 11500 12000 11000 13000 0 opening running_up refl refl refl refl

apply_calibration-commutes_example :
    (estimate 11600 0 (apply_calibration model running_up) ≡ estimate 11600 0 running_up)
    × (apply_motor_start 11600 (apply_calibration model running_up)
        ≡ apply_calibration model (apply_motor_start 11600 running_up))
    × (apply_movement_delivery 11600 0 (delivered 11500) (apply_calibration model running_up)
        ≡ apply_calibration model (apply_movement_delivery 11600 0 (delivered 11500) running_up))
unfolding new_cover
apply_calibration-commutes_example =
    apply_calibration-commutes model running_up 11600 11500 0 0 refl
