-- ===== src/Cover/Echo.antt =====
-- cover.py: which frames are the gateway's echo of a command of ours, `_is_echo`, and the status
-- that is read again after one that may have been real.
use my_home_stability.Prelude.{
  Bool, true, false, not, ◌&&◌, Option, none, some, is_some, if◌then◌else◌,
}
use my_home_stability.Cover.Number.{Float, num, ◌⊞◌, ◌⊟◌, ◌⊘◌}
use my_home_stability.Cover.State.{Movement, Handover, refused, taken, status, Cover}
use my_home_stability.Cover.Movement.{runs, cancel_echo_recheck}
use my_home_stability.Cover.Stop.{hand_over}

unfoldable pub interrupts : Option Movement → Option Movement → Bool
interrupts none stopped = false
interrupts (some direction) stopped = runs stopped direction

module _ {W : Type 0} ⦃f : Float W⦄ where
  -- `STOP_ECHO_WINDOW_SEC`, `ECHO_RECHECK_DELAY_SEC`
  abbrev pub stop_echo_window : W
  stop_echo_window = num 3 ⊘ num 2

  abbrev pub echo_recheck_delay : W
  echo_recheck_delay = num 2

  -- `_schedule_echo_recheck`
  unfoldable pub schedule_echo_recheck : W → Cover W → Cover W
  unfolding cancel_echo_recheck
  schedule_echo_recheck now c = record (cancel_echo_recheck c) {
    echo_recheck = some (now ⊞ echo_recheck_delay);
  }

  -- an echo inside its window, and what it leaves
  unfoldable pub swallow : W → Bool → Bool → Cover W → Cover W
  swallow now recheck pending c =
      let closed : Cover W = record c { own_command_at = none } in
      if pending
      then schedule_echo_recheck now c
      else if recheck
      then schedule_echo_recheck now closed
      else closed

  -- a frame of the shape of an echo, by the window that opened at `at`
  unfoldable pub in_window : W → W → Bool → Bool → Cover W → Cover W × Bool
  unfolding swallow
  in_window now at recheck pending c =
      if f.le stop_echo_window (now ⊟ at) && not pending
      then (c, false)
      else (swallow now recheck pending c, true)

  unfoldable pub echo_by : W → Option Movement → Option W → Bool → Cover W → Cover W × Bool
  unfolding in_window interrupts
  echo_by now frame none commanded c = (c, false)
  echo_by now frame (some at) true c =
      if is_some frame
      then (c, false)
      else in_window now at c.echo_after_restart (is_some c.move_delivery) c
  echo_by now frame (some at) false c =
      if interrupts frame c.stopped_direction then in_window now at true false c else (c, false)

  -- `_is_echo` of a frame that names a movement, or of "stopped"
  unfoldable pub is_echo : W → Option Movement → Cover W → Cover W × Bool
  unfolding echo_by
  is_echo now frame c = echo_by now frame c.own_command_at (is_some c.own_command) c

  -- `async_update`
  unfoldable pub update : Handover W → Cover W → Cover W
  update refused c = c
  update (taken _) c = hand_over status c

  -- `_async_echo_recheck`
  unfoldable pub echo_recheck_fires : Handover W → Cover W → Cover W
  unfolding update
  echo_recheck_fires answer c =
      let t : Cover W = record c { echo_recheck = none } in
      if is_some c.moving && not c.echo_after_restart then t else update answer t
