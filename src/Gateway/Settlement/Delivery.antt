-- ===== src/Gateway/Settlement/Delivery.antt =====
-- The balance of a handler through `_deliver`.
use my_home_stability.Prelude.{
  ℕ, zero, suc, ◌+◌, ◌≡◌, refl, Option, none, some, ◌++◌, arith, ◌-◌, inl,
}
use my_home_stability.Gateway.Command.{QueuedCommand, mark_dropped, mark_delivered}
use my_home_stability.Gateway.Handler.{
  Handler, Direction, give_up, note_session, handle_auth_failure,
}
use my_home_stability.Gateway.Worker.{
  Failure, CommandResult, Answer, failed, answered, Attempt, Delivery, abandon, on_failure,
  on_answer, write_answer, write, open_session, attempt, deliver_from, deliver, command_attempts,
}
use my_home_stability.Gateway.Settlement.{
  owed, mixed, reported-append, owed-mark_dropped, reported-mark_delivered, owed-mark_delivered,
}
use my_home_stability.Gateway.Settlement.Balance.{
  balance, mixed_pending, balance-give_up, mixed-give_up, balance-handle_auth_failure,
  mixed-handle_auth_failure,
}
use my_home_stability.Gateway.Settlement.Untouched.{
  Untouched, Takes, Takes-trans, auth_failure-Takes, balance-Untouched, mixed-Untouched,
  record_frame-Untouched, dropped_session-Untouched, on_command_result-Untouched,
}

-- What a delivery of `item` from the handler `h` keeps, however it ends.
pub record Settles (h : Handler) (item : QueuedCommand) (d : Delivery) : Type 0 where
  pub kept : (c : ℕ) → balance c d.handler + owed c d.item ≡ balance c h + owed c item
  pub queue : Takes h d.handler
  pub one_caller : mixed d.item ≡ 0
  pub unmixed : mixed_pending h ≡ 0 → mixed_pending d.handler ≡ 0

-- The same after a change that touches neither the queue nor the reports.
Settles-Untouched :
    (h h' : Handler) (item : QueuedCommand) (d : Delivery)
    → Untouched h h'
    → Settles h' item d
    → Settles h item d
Settles-Untouched h h' item d u s = record {
  kept = λ c. omega (arith, s.kept c, balance-Untouched c h h' u);
  queue = Takes-trans h h' d.handler (inl u.0) s.queue;
  one_caller = s.one_caller;
  unmixed = λ z. s.unmixed (omega (arith, mixed-Untouched h h' u));
}

-- The same after a rejected password.
Settles-auth :
    (now : ℕ) (h : Handler) (item : QueuedCommand) (d : Delivery)
    → Settles (handle_auth_failure now h) item d
    → Settles h item d
Settles-auth now h item d s = record {
  kept = λ c. omega (arith, s.kept c, balance-handle_auth_failure c now h);
  queue = Takes-trans h (handle_auth_failure now h) d.handler (auth_failure-Takes now h) s.queue;
  one_caller = s.one_caller;
  unmixed = λ z. s.unmixed (mixed-handle_auth_failure now h);
}

pub mixed-mark_dropped : (item : QueuedCommand) → mixed (mark_dropped item).0 ≡ mixed item
unfolding mixed mark_dropped
mixed-mark_dropped item = ground arith

mixed-mark_delivered :
    (at : ℕ) (item : QueuedCommand) → mixed (mark_delivered at item).0 ≡ mixed item
unfolding mixed mark_delivered
mixed-mark_delivered at item = ground arith

pub give_up-item :
    (now : ℕ) (item : QueuedCommand) (h : Handler) → (give_up now item h).0 ≡ (mark_dropped item).0
unfolding give_up
give_up-item now item h = refl

pub give_up-queue :
    (now : ℕ) (item : QueuedCommand) (h : Handler)
    → (give_up now item h).1.send_buffer ≡ h.send_buffer
unfolding give_up
give_up-queue now item h = refl

abandon-Settles :
    (now : ℕ) (item : QueuedCommand) (h : Handler)
    → mixed item ≡ 0
    → Settles h item (abandon now item h)
unfolding abandon
abandon-Settles now item h m = record {
  kept = λ c.
      rw (give_up-item now item h)
        (omega (arith, balance-give_up c now item h, owed-mark_dropped c item));
  queue = inl (give_up-queue now item h);
  one_caller = rw (give_up-item now item h) (omega (arith, mixed-mark_dropped item));
  unmixed = λ z. omega (arith, mixed-give_up now item h);
}

-- What the rest of the loop must do, where there is a rest.
abbrev Retries : QueuedCommand → Option (Handler → Delivery) → Type 0
Retries item none = Unit
Retries item (some retry) = (t : Handler) → Settles t item (retry t)

on_failure-Settles :
    (worker now : ℕ) (session : Option ℕ) (item : QueuedCommand) (h : Handler)
    (retry : Option (Handler → Delivery)) (f : Failure)
    → mixed item ≡ 0
    → Retries item retry
    → Settles h item (on_failure worker now session item h retry f)
unfolding on_failure
on_failure-Settles worker now session item h retry Failure.rejected m r =
    Settles-Untouched h _ item _ (dropped_session-Untouched worker session h)
      (Settles-auth now _ item _ (abandon-Settles now item _ m))
on_failure-Settles worker now session item h (some retry) Failure.transport m r =
    Settles-Untouched h _ item _ (dropped_session-Untouched worker session h) (r _)
on_failure-Settles worker now session item h none Failure.transport m r =
    Settles-Untouched h _ item _ (dropped_session-Untouched worker session h)
      (abandon-Settles now item _ m)
on_failure-Settles worker now session item h retry Failure.unexpected m r = record {
  kept = λ c. refl;
  queue = inl refl;
  one_caller = m;
  unmixed = λ z. z;
}
on_failure-Settles worker now session item h retry Failure.cancelled m r = record {
  kept = λ c. refl;
  queue = inl refl;
  one_caller = m;
  unmixed = λ z. z;
}

delivered_handler : ℕ → QueuedCommand → Handler → Handler
delivered_handler at item h = record h { reports = h.reports ++ (mark_delivered at item).1 }

balance-delivered :
    (c at : ℕ) (item : QueuedCommand) (h : Handler)
    → mixed item ≡ 0
    → balance c (delivered_handler at item h) ≡ balance c h + owed c item
unfolding balance delivered_handler
balance-delivered c at item h m = omega (
  arith,
  reported-append c h.reports (mark_delivered at item).1,
  reported-mark_delivered c at item m,
)

mixed-delivered :
    (at : ℕ) (item : QueuedCommand) (h : Handler)
    → mixed_pending (delivered_handler at item h) ≡ mixed_pending h
unfolding mixed_pending delivered_handler
mixed-delivered at item h = refl

on_answer-parts :
    (written_at now session : ℕ) (item : QueuedCommand) (h : Handler) (result : CommandResult)
    → let d = on_answer written_at now session item h result in
      (d.item ≡ (mark_delivered written_at item).0)
      × Untouched (delivered_handler written_at item h) d.handler
unfolding on_answer delivered_handler
on_answer-parts written_at now session item h result =
    (refl, on_command_result-Untouched now (mark_delivered written_at item).0 result _)

on_answer-Settles :
    (written_at now session : ℕ) (item : QueuedCommand) (h : Handler) (result : CommandResult)
    → mixed item ≡ 0
    → Settles h item (on_answer written_at now session item h result)
unfolding delivered_handler
on_answer-Settles written_at now session item h result m =
    let (e, u) = on_answer-parts written_at now session item h result in
    let d = on_answer written_at now session item h result in
    let t = delivered_handler written_at item h in
    record {
      kept = λ c. rw e (
          omega (
            arith,
            balance-Untouched c t d.handler u,
            balance-delivered c written_at item h m,
            owed-mark_delivered c written_at item,
          ));
      queue = inl u.0;
      one_caller = rw e (omega (arith, mixed-mark_delivered written_at item));
      unmixed =
          λ z. omega (arith, mixed-Untouched t d.handler u, mixed-delivered written_at item h);
    }

write_answer-Settles :
    (worker : ℕ) (a : Attempt) (session : ℕ) (item : QueuedCommand) (t : Handler)
    (retry : Option (Handler → Delivery)) (answer : Answer)
    → mixed item ≡ 0
    → Retries item retry
    → Settles t item (write_answer worker a session item t retry answer)
unfolding write_answer
write_answer-Settles worker a session item t retry (failed f) m r =
    on_failure-Settles worker a.ended_at (some session) item t retry f m r
write_answer-Settles worker a session item t retry (answered result) m r =
    on_answer-Settles a.written_at a.ended_at session item t result m

write-Settles :
    (worker : ℕ) (a : Attempt) (session : ℕ) (item : QueuedCommand) (h : Handler)
    (retry : Option (Handler → Delivery))
    → mixed item ≡ 0
    → Retries item retry
    → Settles h item (write worker a session item h retry)
unfolding write
write-Settles worker a session item h retry m r =
    Settles-Untouched h _ item _
      (record_frame-Untouched a.written_at Direction.command item.frame h)
      (write_answer-Settles worker a session item _ retry a.answer m r)

open_session-Settles :
    (worker : ℕ) (a : Attempt) (item : QueuedCommand) (h : Handler)
    (retry : Option (Handler → Delivery)) (opening : Option Failure)
    → mixed item ≡ 0
    → Retries item retry
    → Settles h item (open_session worker a item h retry opening)
unfolding open_session note_session
open_session-Settles worker a item h retry (some f) m r =
    on_failure-Settles worker a.ended_at none item h retry f m r
open_session-Settles worker a item h retry none m r =
    Settles-Untouched h _ item _ (refl, refl)
      (write-Settles worker a h.next_channel item _ retry m r)

attempt-Settles :
    (worker : ℕ) (a : Attempt) (session : Option ℕ) (item : QueuedCommand) (h : Handler)
    (retry : Option (Handler → Delivery))
    → mixed item ≡ 0
    → Retries item retry
    → Settles h item (attempt worker a session item h retry)
unfolding attempt
attempt-Settles worker a (some s) item h retry m r = write-Settles worker a s item h retry m r
attempt-Settles worker a none item h retry m r =
    open_session-Settles worker a item h retry a.opening m r

pub deliver_from-Settles :
    (left worker : ℕ) (env : ℕ → Attempt) (session : Option ℕ) (item : QueuedCommand) (h : Handler)
    → mixed item ≡ 0
    → Settles h item (deliver_from left worker env session item h)
unfolding deliver_from
deliver_from-Settles zero worker env session item h m =
    attempt-Settles worker (env zero) session item h none m tt
deliver_from-Settles (suc left) worker env session item h m =
    attempt-Settles worker (env (suc left)) session item h _ m
      (λ t. deliver_from-Settles left worker env none item t m)

pub deliver-Settles :
    (worker : ℕ) (env : ℕ → Attempt) (session : Option ℕ) (item : QueuedCommand) (h : Handler)
    → mixed item ≡ 0
    → Settles h item (deliver worker env session item h)
unfolding deliver
deliver-Settles worker env session item h m =
    deliver_from-Settles (command_attempts - 1) worker env session item h m
