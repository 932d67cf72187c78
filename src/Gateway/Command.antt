-- ===== src/Gateway/Command.antt =====
-- gateway.py, `_QueuedCommand`: one frame waiting for the sending worker.
-- Instants and durations are numbers of milliseconds on the monotonic clock. A caller's callback
-- is the number under which it is known; running it is a `Report`, in the order of the calls.
use my_home_stability.Prelude.{
  ℕ, String, Bool, true, false, Option, none, some, List, [], ◌∷◌, if◌then◌else◌,
}
use text.Mathlib.Text.{starts_with}

-- What the code reads off an `OWNCommand`: its text, its WHO, its bare WHERE, its bus interface.
pub record Message : Type 0 where
  pub text : String
  pub who : Option ℕ
  pub bare_where : Option String
  pub interface : Option String

pub data Report : Type 0 where
  delivered : ℕ → ℕ → Report
  dropped : ℕ → Report

pub record QueuedCommand : Type 0 where
  pub message : Message
  pub is_status_request : Bool
  pub enqueued_at : ℕ
  pub frame : String
  pub on_delivered : Option ℕ
  pub on_dropped : Option ℕ
  pub is_stop : Bool
  pub settled : Bool

abbrev pub stop_frame_prefix : String
stop_frame_prefix = "*2*0*"

-- The constructor with `__post_init__`: no frame is given, so it is the message's text.
unfoldable pub queued_command : Message → Bool → ℕ → Option ℕ → Option ℕ → QueuedCommand
queued_command message is_status_request now on_delivered on_dropped = record {
  message = message;
  is_status_request = is_status_request;
  enqueued_at = now;
  frame = message.text;
  on_delivered = on_delivered;
  on_dropped = on_dropped;
  is_stop = starts_with message.text stop_frame_prefix;
  settled = false;
}

-- What calling an optional callback adds to the reports. An exception in it is swallowed.
call : Option ℕ → (ℕ → Report) → List Report
call none f = []
call (some c) f = f c ∷ []

unfoldable pub settle : Option ℕ → (ℕ → Report) → QueuedCommand → QueuedCommand × List Report
unfolding call
settle callback report item =
    if item.settled then (item, []) else (record item { settled = true }, call callback report)

unfoldable pub mark_delivered : ℕ → QueuedCommand → QueuedCommand × List Report
unfolding settle
mark_delivered at item = settle item.on_delivered (λ c. delivered c at) item

unfoldable pub mark_dropped : QueuedCommand → QueuedCommand × List Report
unfolding settle
mark_dropped item = settle item.on_dropped dropped item
