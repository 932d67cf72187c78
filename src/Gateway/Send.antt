-- ===== src/Gateway/Send.antt =====
-- gateway.py: `send`, `send_status_request` and `_enqueue`, the way into the command queue.
-- `now` is the monotonic clock. The Boolean is what the caller gets back: "it was queued".
use my_home_stability.Prelude.{
  ℕ, String, Bool, true, false, ◌&&◌, ◌||◌, not, Option, none, some, List, [], ◌∷◌, str_eq,
  if◌then◌else◌, is_some,
}
use my_home_stability.Gateway.Command.{Message, QueuedCommand, queued_command}
use my_home_stability.Gateway.Queue.{CommandQueue, put_nowait, pending}
use my_home_stability.Gateway.Handler.{Handler, refresh_stats, give_up}

-- the `try` around `put_nowait`
unfoldable pub enqueue_open : ℕ → QueuedCommand → Handler → Option CommandQueue → Handler × Bool
enqueue_open now item h none = ((give_up now item h).1, false)
enqueue_open now item h (some q) =
    (refresh_stats now false false (record h { send_buffer = q }), true)

unfoldable pub enqueue : ℕ → Message → Bool → Option ℕ → Option ℕ → Handler → Handler × Bool
enqueue now message is_status_request on_delivered on_dropped h =
    let item = queued_command message is_status_request now on_delivered on_dropped in
    if h.closed || h.stop_command_workers
    then ((give_up now item h).1, false)
    else enqueue_open now item h (put_nowait h.send_buffer item)

unfoldable pub send : ℕ → Message → Option ℕ → Option ℕ → Handler → Handler × Bool
send now message on_delivered on_dropped h = enqueue now message false on_delivered on_dropped h

any_status : String → List QueuedCommand → Bool
any_status frame [] = false
any_status frame (item ∷ items) =
    (item.is_status_request && str_eq item.frame frame) || any_status frame items

-- `_has_pending_status`, over `_pending_commands`
unfoldable pub has_pending_status : String → Handler → Bool
unfolding any_status pending
has_pending_status frame h = any_status frame (pending h.send_buffer)

unfoldable pub send_status_request : ℕ → Message → Option ℕ → Option ℕ → Handler → Handler × Bool
send_status_request now message on_delivered on_dropped h =
    if not (is_some on_delivered) && (not (is_some on_dropped) && has_pending_status message.text h)
    then (h, true)
    else enqueue now message true on_delivered on_dropped h
