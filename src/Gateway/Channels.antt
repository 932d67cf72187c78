-- ===== src/Gateway/Channels.antt =====
-- gateway.py: which command channels stay open. A worker closes the channel that it knows of.
pub mod Cancelled
use my_home_stability.Prelude.{
  ℕ, zero, suc, ◌+◌, ◌-◌, ◌≤◌, ◌<◌, ◌≡◌, refl, ap, subst, Bool, true, false, not, ◌||◌, Option,
  none, some, List, [], ◌∷◌, ◌++◌, arith, ◌==◌, keep, String,
}
use my_home_stability.Gateway.Command.{QueuedCommand, mark_delivered}
use my_home_stability.Gateway.Handler.{
  Handler, Direction, give_up, refresh_stats, record_frame, forget_session, close_session,
  note_session, handle_auth_failure, discard_queued, set_connected,
}
use my_home_stability.Gateway.Worker.{
  Failure, CommandResult, Answer, failed, answered, Attempt, Ending, returned, raised, Delivery,
  record_replies, on_command_result, abandon, on_failure, on_answer, write_answer, write,
  open_session, attempt, deliver_from, deliver, command_attempts, Worker, settle_last, end_worker,
  after_delivery, sending_round,
}

-- all of these are below `n`
abbrev pub AllBelow : ℕ → List ℕ → Type 0
AllBelow n [] = Unit
AllBelow n (c ∷ cs) = (c < n) × AllBelow n cs

-- `c` is none of these
abbrev pub Absent : ℕ → List ℕ → Type 0
Absent c [] = Unit
Absent c (d ∷ ds) = ((d == c) ≡ false) × Absent c ds

abbrev pub has : ℕ → List ℕ → Bool
has c [] = false
has c (d ∷ ds) = d == c || has c ds

-- The open channels are the worker's own, where it has one, and `others`, in whichever order.
abbrev pub Holds : Option ℕ → List ℕ → ℕ → List ℕ → Type 0
Holds none others next opened = (opened ≡ others) × AllBelow next others
Holds (some c) others next opened =
    (has c opened ≡ true) × (keep (λ d. not (d == c)) opened ≡ others) × AllBelow next opened

abbrev pub HoldsIn : Option ℕ → List ℕ → Handler → Type 0
HoldsIn s others h = Holds s others h.next_channel h.open_channels

-- `h'` has the channels of `h`.
abbrev SameChannels : Handler → Handler → Type 0
SameChannels h h' = (h'.open_channels ≡ h.open_channels) × (h'.next_channel ≡ h.next_channel)

holds-same :
    (s : Option ℕ) (others : List ℕ) (h h' : Handler)
    → SameChannels h h'
    → HoldsIn s others h
    → HoldsIn s others h'
holds-same s others h h' (o, n) k = rw (o, n) k

keep-Absent : (c : ℕ) (cs : List ℕ) → Absent c cs → keep (λ d. not (d == c)) cs ≡ cs
keep-Absent c [] a = refl
keep-Absent c (d ∷ ds) a = ground (arith, keep-Absent c ds a.1)

keep-below : (p : ℕ → Bool) (n : ℕ) (cs : List ℕ) → AllBelow n cs → AllBelow n (keep p cs)
keep-below p n [] a = tt
keep-below p n (c ∷ cs) a = ground (arith, keep-below p n cs a.1, a)

below_step : (n : ℕ) (cs : List ℕ) → AllBelow n cs → AllBelow (n + 1) cs × Absent n cs
below_step n [] a = (tt, tt)
below_step n (c ∷ cs) a = ground (arith, below_step n cs a.1)

close_session-holds :
    (s : Option ℕ) (others : List ℕ) (h : Handler)
    → HoldsIn s others h
    → HoldsIn none others (close_session s h)
unfolding close_session
close_session-holds none others h k = k
close_session-holds (some c) others h k = (
  k.1,
  subst (AllBelow h.next_channel) k.1
      (keep-below (λ d. not (d == c)) h.next_channel h.open_channels k.2),
)

note_session-holds :
    (worker : ℕ) (others : List ℕ) (h : Handler)
    → HoldsIn none others h
    → HoldsIn (some h.next_channel) others (note_session worker h)
unfolding note_session
note_session-holds worker others h (o, b) =
    let (below, absent) = below_step h.next_channel others b in
    rw o
      (ground arith, ground (arith, keep-Absent h.next_channel others absent), (omega arith, below))

record_frame-same :
    (now : ℕ) (d : Direction) (f : String) (h : Handler) → SameChannels h (record_frame now d f h)
unfolding record_frame
record_frame-same now Direction.command f h = (refl, refl)
record_frame-same now Direction.monitor f h = (refl, refl)
record_frame-same now Direction.reply f h = (refl, refl)

record_replies-same :
    (now : ℕ) (rs : List String) (h : Handler) → SameChannels h (record_replies now rs h)
unfolding record_replies
record_replies-same now [] h = (refl, refl)
record_replies-same now (r ∷ rs) h =
    let (o, n) = record_frame-same now Direction.reply r h in
    let (o', n') = record_replies-same now rs (record_frame now Direction.reply r h) in (cc, cc)

on_command_result-same :
    (now : ℕ) (item : QueuedCommand) (result : CommandResult) (h : Handler)
    → SameChannels h (on_command_result now item result h)
unfolding on_command_result refresh_stats
on_command_result-same now item result h = record_replies-same now result.replies _

give_up-same :
    (now : ℕ) (item : QueuedCommand) (h : Handler) → SameChannels h (give_up now item h).1
unfolding give_up refresh_stats
give_up-same now item h = (refl, refl)

auth_failure-same : (now : ℕ) (h : Handler) → SameChannels h (handle_auth_failure now h)
unfolding handle_auth_failure set_connected refresh_stats discard_queued
auth_failure-same now h = ground arith

-- What is claimed of the channels at the end of `_deliver`, where it returns.
abbrev pub HoldsAfter : List ℕ → Option ℕ → Handler → Ending → Type 0
HoldsAfter others s h (returned _) = HoldsIn s others h
HoldsAfter others s h (raised _) = Unit

abbrev HoldsBy : List ℕ → Delivery → Type 0
HoldsBy others d = HoldsAfter others d.session d.handler d.ending

abandon-holds :
    (now : ℕ) (others : List ℕ) (item : QueuedCommand) (h : Handler)
    → HoldsIn none others h
    → HoldsBy others (abandon now item h)
unfolding abandon
abandon-holds now others item h k =
    holds-same none others h (give_up now item h).1 (give_up-same now item h) k

abbrev Retries : List ℕ → Option (Handler → Delivery) → Type 0
Retries others none = Unit
Retries others (some retry) = (t : Handler) → HoldsIn none others t → HoldsBy others (retry t)

dropped-holds :
    (worker : ℕ) (s : Option ℕ) (others : List ℕ) (h : Handler)
    → HoldsIn s others h
    → HoldsIn none others (forget_session worker (close_session s h))
unfolding forget_session
dropped-holds worker s others h k = close_session-holds s others h k

on_failure-holds :
    (worker now : ℕ) (others : List ℕ) (s : Option ℕ) (item : QueuedCommand) (h : Handler)
    (retry : Option (Handler → Delivery)) (f : Failure)
    → HoldsIn s others h
    → Retries others retry
    → HoldsBy others (on_failure worker now s item h retry f)
unfolding on_failure
on_failure-holds worker now others s item h retry Failure.rejected k r =
    let t = forget_session worker (close_session s h) in
    abandon-holds now others item (handle_auth_failure now t) (
      holds-same none others t (handle_auth_failure now t) (auth_failure-same now t)
        (dropped-holds worker s others h k))
on_failure-holds worker now others s item h (some retry) Failure.transport k r =
    r (forget_session worker (close_session s h)) (dropped-holds worker s others h k)
on_failure-holds worker now others s item h none Failure.transport k r =
    abandon-holds now others item (forget_session worker (close_session s h))
      (dropped-holds worker s others h k)
on_failure-holds worker now others s item h retry Failure.unexpected k r = tt
on_failure-holds worker now others s item h retry Failure.cancelled k r = tt

write_answer-holds :
    (worker : ℕ) (a : Attempt) (others : List ℕ) (s : ℕ) (item : QueuedCommand) (h : Handler)
    (retry : Option (Handler → Delivery)) (answer : Answer)
    → HoldsIn (some s) others h
    → Retries others retry
    → HoldsBy others (write_answer worker a s item h retry answer)
unfolding write_answer on_answer
write_answer-holds worker a others s item h retry (failed f) k r =
    on_failure-holds worker a.ended_at others (some s) item h retry f k r
write_answer-holds worker a others s item h retry (answered result) k r =
    let (item', run) = mark_delivered a.written_at item in
    let t : Handler = record h { reports = h.reports ++ run } in
    holds-same (some s) others h (on_command_result a.ended_at item' result t)
      (on_command_result-same a.ended_at item' result t) k

write-holds :
    (worker : ℕ) (a : Attempt) (others : List ℕ) (s : ℕ) (item : QueuedCommand) (h : Handler)
    (retry : Option (Handler → Delivery))
    → HoldsIn (some s) others h
    → Retries others retry
    → HoldsBy others (write worker a s item h retry)
unfolding write
write-holds worker a others s item h retry k r =
    let t = record_frame a.written_at Direction.command item.frame h in
    write_answer-holds worker a others s item t retry a.answer
      (holds-same (some s) others h t
        (record_frame-same a.written_at Direction.command item.frame h) k)
      r

open_session-holds :
    (worker : ℕ) (a : Attempt) (others : List ℕ) (item : QueuedCommand) (h : Handler)
    (retry : Option (Handler → Delivery)) (opening : Option Failure)
    → HoldsIn none others h
    → Retries others retry
    → HoldsBy others (open_session worker a item h retry opening)
unfolding open_session
open_session-holds worker a others item h retry (some f) k r =
    on_failure-holds worker a.ended_at others none item h retry f k r
open_session-holds worker a others item h retry none k r =
    write-holds worker a others h.next_channel item (note_session worker h) retry
      (note_session-holds worker others h k) r

attempt-holds :
    (worker : ℕ) (a : Attempt) (others : List ℕ) (s : Option ℕ) (item : QueuedCommand) (h : Handler)
    (retry : Option (Handler → Delivery))
    → HoldsIn s others h
    → Retries others retry
    → HoldsBy others (attempt worker a s item h retry)
unfolding attempt
attempt-holds worker a others (some s) item h retry k r =
    write-holds worker a others s item h retry k r
attempt-holds worker a others none item h retry k r =
    open_session-holds worker a others item h retry a.opening k r

deliver_from-holds :
    (left worker : ℕ) (env : ℕ → Attempt) (others : List ℕ) (s : Option ℕ) (item : QueuedCommand)
    (h : Handler)
    → HoldsIn s others h
    → HoldsBy others (deliver_from left worker env s item h)
unfolding deliver_from
deliver_from-holds zero worker env others s item h k =
    attempt-holds worker (env zero) others s item h none k tt
deliver_from-holds (suc left) worker env others s item h k =
    attempt-holds worker (env (suc left)) others s item h
      (some (deliver_from left worker env none item)) k
      (λ t kt. deliver_from-holds left worker env others none item t kt)

-- Where `_deliver` returns, answered or not, and began with the open channels those of the other
-- workers and its own, if it has one, in whichever order and all numbered below the next, the
-- channels open are again those of the other workers and the one that it gives back: each channel
-- that it gave up is closed.
pub deliver_holds :
    (worker : ℕ) (env : ℕ → Attempt) (others : List ℕ) (s : Option ℕ) (item : QueuedCommand)
    (h : Handler)
    → HoldsIn s others h
    → let d = deliver worker env s item h in HoldsAfter others d.session d.handler d.ending
unfolding deliver
deliver_holds worker env others s item h k =
    deliver_from-holds (command_attempts - 1) worker env others s item h k
