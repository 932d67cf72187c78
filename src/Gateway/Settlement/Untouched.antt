-- ===== src/Gateway/Settlement/Untouched.antt =====
-- What the steps of `_deliver` leave of the queue and the reports.
use my_home_stability.Prelude.{
  ℕ, ◌≡◌, refl, Option, none, some, List, [], ◌∷◌, arith, String, ◌⊎◌, inl, inr, ap, ◌∙◌,
}
use my_home_stability.Gateway.Command.{QueuedCommand}
use my_home_stability.Gateway.Queue.{pending}
use my_home_stability.Gateway.Handler.{
  Handler, Direction, refresh_stats, record_frame, forget_session, close_session,
  handle_auth_failure, set_connected, discard_queued,
}
use my_home_stability.Gateway.Worker.{CommandResult, record_replies, on_command_result}
use my_home_stability.Gateway.Settlement.Balance.{balance, mixed_pending, drain_queue_lem}

-- `h'` has the queue and the reports of `h`.
abbrev pub Untouched : Handler → Handler → Type 0
Untouched h h' = (h'.send_buffer ≡ h.send_buffer) × (h'.reports ≡ h.reports)

-- `h'` has the queue of `h`, or an empty one.
abbrev pub Takes : Handler → Handler → Type 0
Takes h h' = (h'.send_buffer ≡ h.send_buffer) ⊎ (pending h'.send_buffer ≡ [])

pub Takes-trans : (h t h' : Handler) → Takes h t → Takes t h' → Takes h h'
Takes-trans h t h' (inl a) (inl b) = inl (b ∙ a)
Takes-trans h t h' (inr a) (inl b) = inr (ap pending b ∙ a)
Takes-trans h t h' a (inr b) = inr b

pub auth_failure-Takes : (now : ℕ) (h : Handler) → Takes h (handle_auth_failure now h)
unfolding handle_auth_failure set_connected refresh_stats discard_queued pending
auth_failure-Takes now h = inr (ground (arith, drain_queue_lem h.send_buffer))

pub balance-Untouched : (c : ℕ) (h h' : Handler) → Untouched h h' → balance c h' ≡ balance c h
unfolding balance
balance-Untouched c h h' (b, r) = rw (b, r)

pub mixed-Untouched : (h h' : Handler) → Untouched h h' → mixed_pending h' ≡ mixed_pending h
unfolding mixed_pending
mixed-Untouched h h' (b, r) = rw b

pub record_frame-Untouched :
    (now : ℕ) (d : Direction) (f : String) (h : Handler) → Untouched h (record_frame now d f h)
unfolding record_frame
record_frame-Untouched now Direction.command f h = (refl, refl)
record_frame-Untouched now Direction.monitor f h = (refl, refl)
record_frame-Untouched now Direction.reply f h = (refl, refl)

close_session-Untouched : (s : Option ℕ) (h : Handler) → Untouched h (close_session s h)
unfolding close_session
close_session-Untouched none h = (refl, refl)
close_session-Untouched (some c) h = (refl, refl)

pub dropped_session-Untouched :
    (worker : ℕ) (s : Option ℕ) (h : Handler)
    → Untouched h (forget_session worker (close_session s h))
unfolding forget_session
dropped_session-Untouched worker s h = close_session-Untouched s h

record_replies-Untouched :
    (now : ℕ) (rs : List String) (h : Handler) → Untouched h (record_replies now rs h)
unfolding record_replies
record_replies-Untouched now [] h = (refl, refl)
record_replies-Untouched now (r ∷ rs) h =
    let (b, p) = record_frame-Untouched now Direction.reply r h in
    let (b', p') = record_replies-Untouched now rs (record_frame now Direction.reply r h) in
    (cc, cc)

pub on_command_result-Untouched :
    (now : ℕ) (item : QueuedCommand) (result : CommandResult) (h : Handler)
    → Untouched h (on_command_result now item result h)
unfolding on_command_result refresh_stats
on_command_result-Untouched now item result h = record_replies-Untouched now result.replies _
