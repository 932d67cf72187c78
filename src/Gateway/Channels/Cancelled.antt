-- ===== src/Gateway/Channels/Cancelled.antt =====
-- gateway.py: a sending worker that is cancelled during a write, and the channel that it had opened.
use my_home_stability.Prelude.{
  ℕ, ◌-◌, ◌≤◌, ◌≡◌, refl, Option, none, some, List, [], ◌∷◌, arith, Bool, false, not, ◌||◌, ◌==◌,
  keep,
}
use my_home_stability.Gateway.Command.{QueuedCommand}
use my_home_stability.Gateway.Handler.{
  Handler, Direction, record_frame, forget_session, close_session, note_session,
}
use my_home_stability.Gateway.Worker.{
  Failure, failed, Attempt, raised, Delivery, on_failure, write_answer, write, open_session,
  attempt, deliver_from, deliver, Worker, settle_last, end_worker, after_delivery, sending_round,
}

-- the channel that the command was the first to open, and the cancelled write on it
abbrev pub CancelledOnNew : (ℕ → Attempt) → Type 0
CancelledOnNew env = ((env 1).opening ≡ none) × ((env 1).answer ≡ failed Failure.cancelled)

open_session-new :
    (worker : ℕ) (a : Attempt) (item : QueuedCommand) (h : Handler)
    (retry : Option (Handler → Delivery))
    → a.opening ≡ none
    → a.answer ≡ failed Failure.cancelled
    → open_session worker a item h retry a.opening ≡ record {
      session = some h.next_channel;
      item = item;
      handler = record_frame a.written_at Direction.command item.frame (note_session worker h);
      ending = raised Failure.cancelled;
    }
unfolding open_session write write_answer on_failure
open_session-new worker a item h retry o f = rw (o, open_session) (rw (f, write_answer) refl)

deliver-new :
    (worker : ℕ) (env : ℕ → Attempt) (item : QueuedCommand) (h : Handler)
    → CancelledOnNew env
    → deliver worker env none item h ≡ record {
      session = some h.next_channel;
      item = item;
      handler =
          record_frame (env 1).written_at Direction.command item.frame (note_session worker h);
      ending = raised Failure.cancelled;
    }
unfolding deliver deliver_from attempt
deliver-new worker env item h c = open_session-new worker (env 1) item h _ c.0 c.1

sending_round-young :
    (worker now : ℕ) (env : ℕ → Attempt) (ended_at : ℕ) (w : Worker) (item : QueuedCommand)
    (h : Handler)
    → now - item.enqueued_at ≤ h.timing.command_ttl
    → sending_round worker now env ended_at w item h
      ≡ (let d = deliver worker env w.session item h in after_delivery worker ended_at w d d.ending)
unfolding sending_round
sending_round-young worker now env ended_at w item h age = ground arith

-- The map has an entry of the worker.
abbrev pub has_entry : ℕ → List (ℕ × ℕ) → Bool
has_entry worker [] = false
has_entry worker ((w, c) ∷ rest) = w == worker || has_entry worker rest

keep-forgets :
    (worker : ℕ) (xs : List (ℕ × ℕ)) → has_entry worker (keep (λ e. not (e.0 == worker)) xs) ≡ false
keep-forgets worker [] = refl
keep-forgets worker ((w, c) ∷ rest) = ground (arith, keep-forgets worker rest)

-- A worker with no session that is cancelled while it waits for the answer to a command, on the
-- session that it has just opened for it, ends with no session and forgets its entry in the
-- handler's map, and the channel it opened stays open.
pub cancelled_round_leaves_open :
    (worker now : ℕ) (env : ℕ → Attempt) (ended_at : ℕ) (w : Worker) (item : QueuedCommand)
    (h : Handler)
    → CancelledOnNew env
    → w.session ≡ none
    → now - item.enqueued_at ≤ h.timing.command_ttl
    → let (w', h') = sending_round worker now env ended_at w item h in
      (w'.session ≡ none)
      × (has_entry worker h'.command_sessions ≡ false)
      × (h'.open_channels ≡ h.next_channel ∷ h.open_channels)
unfolding after_delivery end_worker settle_last forget_session close_session record_frame
    note_session
cancelled_round_leaves_open worker now env ended_at w item h c s age =
    rw (sending_round-young worker now env ended_at w item h age) (
      rw s (
        rw (deliver-new worker env item h c) (
          refl,
          keep-forgets worker
              (settle_last item (
                record_frame (env 1).written_at Direction.command item.frame
                  (note_session worker h))).command_sessions,
          refl,
        )))
