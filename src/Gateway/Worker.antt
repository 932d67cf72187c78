-- ===== src/Gateway/Worker.antt =====
-- gateway.py: `_deliver`, `_on_command_result` and one round of `sending_loop`.
-- What the gateway and the clocks do during an attempt is an argument, an `Attempt`. The other
-- tasks run between a worker's rounds: a step of theirs that falls inside an attempt is taken
-- before or after it.
use my_home_stability.Prelude.{
  ℕ, zero, suc, ◌+◌, ◌-◌, ◌*◌, String, Bool, true, false, ◌&&◌, Option, none, some, List, [], ◌∷◌,
  ◌++◌, ltb, if◌then◌else◌, min,
}
use my_home_stability.Gateway.Command.{QueuedCommand, mark_delivered, mark_dropped}
use my_home_stability.Gateway.Handler.{
  Handler, Direction, refresh_stats, record_frame, give_up, forget_session, note_session,
  close_session, handle_auth_failure,
}

-- An exception, by the `except` clause that takes it; `cancelled` is `CancelledError`.
pub data Failure : Type 0 where
  rejected transport unexpected cancelled : Failure

pub record CommandResult : Type 0 where
  pub acknowledged : Bool
  pub replies : List String

pub data Answer : Type 0 where
  failed : Failure → Answer
  answered : CommandResult → Answer

-- One attempt: whether opening a session fails (asked only where there is none), the clock before
-- the write, what `send_command` does, and the clock after it.
pub record Attempt : Type 0 where
  pub opening : Option Failure
  pub written_at : ℕ
  pub answer : Answer
  pub ended_at : ℕ

-- How `_deliver` ends: with its Boolean, or by an exception that leaves it.
pub data Ending : Type 0 where
  returned : Bool → Ending
  raised : Failure → Ending

-- `session` is what `_deliver` returns; after an exception nobody gets it.
pub record Delivery : Type 0 where
  pub session : Option ℕ
  pub item : QueuedCommand
  pub handler : Handler
  pub ending : Ending

abbrev pub command_attempts : ℕ
command_attempts = 2

unfoldable pub record_replies : ℕ → List String → Handler → Handler
record_replies now [] h = h
record_replies now (r ∷ rs) h = record_replies now rs (record_frame now Direction.reply r h)

-- `_on_command_result`; what the dispatched replies make the entities send are steps of their own.
-- `_dispatch_message` raises no error; a cancellation while it runs is left out.
unfoldable pub on_command_result : ℕ → QueuedCommand → CommandResult → Handler → Handler
on_command_result now item result h =
    let acked : Handler = record h {
      command_ack_at =
          if result.acknowledged && item.is_status_request then some now else h.command_ack_at;
      commands_sent = h.commands_sent + 1;
    } in
    refresh_stats now true false (record_replies now result.replies acked)

-- the end of an abandoned command: `return None, False`
unfoldable pub abandon : ℕ → QueuedCommand → Handler → Delivery
abandon now item h =
    let (item', h') = give_up now item h in
    record { session = none; item = item'; handler = h'; ending = returned false }

-- An exception inside the `try`: `retry` is the rest of the loop where there is one.
unfoldable pub on_failure :
    ℕ → ℕ → Option ℕ → QueuedCommand → Handler → Option (Handler → Delivery) → Failure → Delivery
on_failure worker now session item h retry Failure.rejected =
    abandon now item (handle_auth_failure now (forget_session worker (close_session session h)))
on_failure worker now session item h (some retry) Failure.transport =
    retry (forget_session worker (close_session session h))
on_failure worker now session item h none Failure.transport =
    abandon now item (forget_session worker (close_session session h))
on_failure worker now session item h retry other = record {
  session = session;
  item = item;
  handler = h;
  ending = raised other;
}

-- the gateway answered: the delivery is reported with the instant of this attempt's write
unfoldable pub on_answer : ℕ → ℕ → ℕ → QueuedCommand → Handler → CommandResult → Delivery
on_answer written_at now session item h result =
    let (item', run) = mark_delivered written_at item in
    record {
      session = some session;
      item = item';
      handler = on_command_result now item' result (record h { reports = h.reports ++ run });
      ending = returned true;
    }

-- what `send_command` came back with
unfoldable pub write_answer :
    ℕ → Attempt → ℕ → QueuedCommand → Handler → Option (Handler → Delivery) → Answer → Delivery
write_answer worker a session item h retry (failed f) =
    on_failure worker a.ended_at (some session) item h retry f
write_answer worker a session item h retry (answered result) =
    on_answer a.written_at a.ended_at session item h result

-- the write, on an open session
unfoldable pub write :
    ℕ → Attempt → ℕ → QueuedCommand → Handler → Option (Handler → Delivery) → Delivery
write worker a session item h retry =
    write_answer worker a session item (record_frame a.written_at Direction.command item.frame h)
      retry a.answer

-- `if session is None`: a session that fails to open is closed where it was made.
unfoldable pub open_session :
    ℕ → Attempt → QueuedCommand → Handler → Option (Handler → Delivery) → Option Failure → Delivery
open_session worker a item h retry (some f) = on_failure worker a.ended_at none item h retry f
open_session worker a item h retry none =
    write worker a h.next_channel item (note_session worker h) retry

-- One round of the loop.
unfoldable pub attempt :
    ℕ → Attempt → Option ℕ → QueuedCommand → Handler → Option (Handler → Delivery) → Delivery
attempt worker a (some session) item h retry = write worker a session item h retry
attempt worker a none item h retry = open_session worker a item h retry a.opening

-- `_deliver`: the rounds left after this one, and what happens in each; a retry has no session.
unfoldable pub deliver_from : ℕ → ℕ → (ℕ → Attempt) → Option ℕ → QueuedCommand → Handler → Delivery
deliver_from zero worker env session item h = attempt worker (env zero) session item h none
deliver_from (suc left) worker env session item h =
    attempt worker (env (suc left)) session item h (some (deliver_from left worker env none item))

unfoldable pub deliver : ℕ → (ℕ → Attempt) → Option ℕ → QueuedCommand → Handler → Delivery
unfolding deliver_from
deliver worker env session item h = deliver_from (command_attempts - 1) worker env session item h

-- The variables of `sending_loop`, and whether the task goes on.
pub record Worker : Type 0 where
  pub session : Option ℕ
  pub backoff : ℕ
  pub running : Bool

-- `backoff = min(backoff * 2, self.max_backoff)`, after the sleep, unless the workers stop
unfoldable pub back_off : Handler → Worker → Worker
back_off h w =
    if h.stop_command_workers
    then w
    else record w { backoff = min (w.backoff * 2) h.timing.max_backoff }

-- the `finally` of the round: `item.mark_dropped()` once more
unfoldable pub settle_last : QueuedCommand → Handler → Handler
settle_last item h = record h { reports = h.reports ++ (mark_dropped item).1 }

-- `finally` of the task
unfoldable pub end_worker : ℕ → Worker → Handler → Worker × Handler
end_worker worker w h = (
  record w { session = none; running = false },
  forget_session worker (close_session w.session h),
)

-- `except Exception`
unfoldable pub on_unexpected : ℕ → ℕ → Worker → QueuedCommand → Handler → Worker × Handler
on_unexpected worker now w item h =
    let (item', h') = give_up now item (forget_session worker (close_session w.session h)) in
    (back_off h' (record w { session = none }), settle_last item' h')

-- What follows the call of `_deliver`, by how it ended.
unfoldable pub after_delivery : ℕ → ℕ → Worker → Delivery → Ending → Worker × Handler
after_delivery worker now w d (returned true) = (
  record w { session = d.session; backoff = d.handler.timing.initial_backoff },
  settle_last d.item d.handler,
)
after_delivery worker now w d (returned false) =
    (back_off d.handler (record w { session = d.session }), settle_last d.item d.handler)
after_delivery worker now w d (raised Failure.cancelled) =
    end_worker worker w (settle_last d.item d.handler)
after_delivery worker now w d (raised _) = on_unexpected worker now w d.item d.handler

unfoldable pub expire : ℕ → QueuedCommand → Handler → Handler
expire now item h = let (item', h') = give_up now item h in settle_last item' h'

-- One round of `sending_loop` with a dequeued item: the age test, the delivery, the back-off.
unfoldable pub sending_round :
    ℕ → ℕ → (ℕ → Attempt) → ℕ → Worker → QueuedCommand → Handler → Worker × Handler
sending_round worker now env ended_at w item h =
    if ltb h.timing.command_ttl (now - item.enqueued_at)
    then (w, expire now item h)
    else (let d = deliver worker env w.session item h in
        after_delivery worker ended_at w d d.ending)

unfoldable pub close_idle : ℕ → Worker → Handler → Option ℕ → Worker × Handler
close_idle worker w h none = (w, h)
close_idle worker w h (some c) =
    (record w { session = none }, forget_session worker (close_session (some c) h))

-- The round in which nothing came for `command_session_idle`.
unfoldable pub idle_round : ℕ → Worker → Handler → Worker × Handler
idle_round worker w h = close_idle worker w h w.session
