-- ===== src/Gateway/Settlement/Balance.antt =====
-- The balance of a handler: reports that ran plus frames that wait and are still to be settled.
use my_home_stability.Prelude.{
  ℕ, zero, suc, ◌+◌, ◌<◌, ◌≡◌, refl, Bool, true, Option, List, [], ◌∷◌, ◌++◌, arith, length,
}
use my_home_stability.Gateway.Command.{QueuedCommand, mark_dropped}
use my_home_stability.Gateway.Queue
use my_home_stability.Gateway.Queue.{CommandQueue, empty_queue, qsize, pending, put, put_nowait}
use my_home_stability.Gateway.Queue.Contents.{weigh}
use my_home_stability.Gateway.Handler.{
  Handler, give_up, drain_from, drain_queue, drop_all, discard_queued, set_connected,
  handle_auth_failure,
}
use my_home_stability.Gateway.Stats.{SessionState}
use my_home_stability.Gateway.Settlement.{
  reported, owed, mixed, reported-append, reported-mark_dropped,
}

unfoldable pub balance : ℕ → Handler → ℕ
balance c h = reported c h.reports + weigh (owed c) (pending h.send_buffer)

-- the frames that wait and have two different callers
unfoldable pub mixed_pending : Handler → ℕ
mixed_pending h = weigh mixed (pending h.send_buffer)

-- What an operation that settles `item` by giving it up does to the balance.
pub balance-give_up :
    (c now : ℕ) (item : QueuedCommand) (h : Handler)
    → balance c (give_up now item h).1 ≡ balance c h + owed c item
unfolding balance give_up
balance-give_up c now item h =
    omega (arith, reported-append c h.reports (mark_dropped item).1, reported-mark_dropped c item)

pub mixed-give_up :
    (now : ℕ) (item : QueuedCommand) (h : Handler)
    → mixed_pending (give_up now item h).1 ≡ mixed_pending h
unfolding mixed_pending give_up
mixed-give_up now item h = refl

drained :
    (fuel : ℕ) (stops queue : List QueuedCommand)
    → length stops + length queue < fuel
    → drain_from fuel (record { queue = queue; stops = stops }) ≡ (stops ++ queue, empty_queue)
unfolding drain_from Queue.get
drained zero stops queue h = absurd (omega arith)
drained (suc fuel) [] [] h = refl
drained (suc fuel) [] (x ∷ queue) h = cc (drained fuel [] queue (omega arith))
drained (suc fuel) (x ∷ stops) queue h = cc (drained fuel stops queue (omega arith))

-- The drain takes every frame, in the order of delivery, and leaves the queue empty.
pub drain_queue_lem : (q : CommandQueue) → drain_queue q ≡ (pending q, empty_queue)
unfolding drain_queue pending qsize
drain_queue_lem q = drained (suc (qsize q)) q.stops q.queue (omega arith)

reported-drop_all :
    (c : ℕ) (items : List QueuedCommand) → reported c (drop_all items) ≡ weigh (owed c) items
unfolding drop_all weigh reported
reported-drop_all c [] = refl
reported-drop_all c (item ∷ items) = omega (
  arith,
  reported-append c (mark_dropped item).1 (drop_all items),
  reported-mark_dropped c item,
  reported-drop_all c items,
)

pub discard_queued-parts :
    (h : Handler)
    → ((discard_queued h).send_buffer ≡ empty_queue)
      × ((discard_queued h).reports ≡ h.reports ++ drop_all (pending h.send_buffer))
unfolding discard_queued
discard_queued-parts h = rw (drain_queue_lem h.send_buffer) (refl, refl)

-- Discarding the queue settles what it discards.
pub balance-discard_queued : (c : ℕ) (h : Handler) → balance c (discard_queued h) ≡ balance c h
unfolding balance
balance-discard_queued c h =
    let (b, r) = discard_queued-parts h in
    rw (b, r)
      (unfold pending weigh in
        omega (
          arith,
          reported-append c h.reports (drop_all (pending h.send_buffer)),
          reported-drop_all c (pending h.send_buffer),
        ))

pub mixed-discard_queued : (h : Handler) → mixed_pending (discard_queued h) ≡ 0
unfolding mixed_pending pending weigh
mixed-discard_queued h = rw ((discard_queued-parts h).0) refl

pub set_connected-parts :
    (now : ℕ) (up : Bool) (s : Option SessionState) (h : Handler)
    → ((set_connected now up s h).send_buffer ≡ h.send_buffer)
      × ((set_connected now up s h).reports ≡ h.reports)
unfolding set_connected
set_connected-parts now up s h = (refl, refl)

stop_all : Handler → Handler
stop_all h = record h { stop_event_listener = true; stop_command_workers = true }

auth_failure-parts :
    (now : ℕ) (h : Handler)
    → ((handle_auth_failure now h).send_buffer ≡ (discard_queued (stop_all h)).send_buffer)
      × ((handle_auth_failure now h).reports ≡ (discard_queued (stop_all h)).reports)
unfolding handle_auth_failure set_connected stop_all
auth_failure-parts now h = ground arith

-- A rejected password settles what waits.
pub balance-handle_auth_failure :
    (c now : ℕ) (h : Handler) → balance c (handle_auth_failure now h) ≡ balance c h
unfolding balance stop_all
balance-handle_auth_failure c now h =
    let (b, r) = auth_failure-parts now h in rw (b, r) (balance-discard_queued c (stop_all h))

pub mixed-handle_auth_failure :
    (now : ℕ) (h : Handler) → mixed_pending (handle_auth_failure now h) ≡ 0
unfolding mixed_pending
mixed-handle_auth_failure now h =
    rw ((auth_failure-parts now h).0) (mixed-discard_queued (stop_all h))
