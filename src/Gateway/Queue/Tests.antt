-- ===== src/Gateway/Queue/Tests.antt =====
-- Runs of the command queue, and the theorems about it at concrete commands.
use my_home_stability.Prelude.{◌≤◌, ◌≡◌, refl, ◌⊎◌, String, false, none, some, [], ◌∷◌, ◌++◌}
use my_home_stability.Gateway.Command.{Message, QueuedCommand, queued_command}
use my_home_stability.Gateway.Queue.{
  CommandQueue, AddressKey, address_key, blocks, put, get, qsize, pending, put_nowait,
  command_queue_maxsize, last_index_for, last_index_from, place, has_key, key_eq, option_eq, nat_eq,
}
use my_home_stability.Gateway.Queue.Order.{command_of, device_frames, put_fifo, get-pending}
use my_home_stability.Gateway.Queue.Bypass.{stop_overtakes, Splits}
use my_home_stability.Gateway.Queue.Contents.{put_nowait_bound}
use my_home_stability.Gateway.Queue.Lanes.{offer, fetch, run_ops, Fifo, device_events, run_ops-Fifo}

abbrev to_shutter : String → String → Message
to_shutter frame where_ = record {
  text = frame;
  who = some 2;
  bare_where = some where_;
  interface = none;
}

abbrev up : QueuedCommand
up = queued_command (to_shutter "*2*1*21##" "21") false 0 (some 7) (some 7)

abbrev other_up : QueuedCommand
other_up = queued_command (to_shutter "*2*1*22##" "22") false 10 (some 8) (some 8)

abbrev stop : QueuedCommand
stop = queued_command (to_shutter "*2*0*21##" "21") false 20 (some 9) (some 9)

abbrev shutter : AddressKey
shutter = record { who = some 2; bare_where = "21"; interface = none }

abbrev waiting : CommandQueue
waiting = record { queue = up ∷ other_up ∷ []; stops = [] }

-- The stop goes behind the command of its own shutter and before that of the other one.
stop_placed : pending (put waiting stop) ≡ up ∷ stop ∷ other_up ∷ []
unfolding pending put last_index_for place last_index_from queued_command blocks has_key key_eq
    address_key option_eq nat_eq
stop_placed = refl

put_fifo_example :
    device_frames shutter (pending (put waiting stop))
    ≡ device_frames shutter (pending waiting) ++ device_frames shutter (stop ∷ [])
put_fifo_example = put_fifo shutter waiting stop

get-pending_example : pending waiting ≡ up ∷ pending (record { queue = other_up ∷ []; stops = [] })
unfolding get
get-pending_example = get-pending waiting (record { queue = other_up ∷ []; stops = [] }) up refl

put_nowait_bound_example :
    (put_nowait waiting stop ≡ none) × (command_queue_maxsize ≤ qsize waiting)
    ⊎ (put_nowait waiting stop ≡ some (put waiting stop))
      × (qsize (put waiting stop) ≤ command_queue_maxsize)
put_nowait_bound_example = put_nowait_bound waiting stop

stop_overtakes_example : Splits (command_of shutter) waiting (put waiting stop) stop
unfolding queued_command address_key
stop_overtakes_example = stop_overtakes shutter waiting stop refl refl

run_ops-Fifo_example :
    Fifo
      (device_frames shutter (pending waiting))
      (device_events shutter (run_ops (offer stop ∷ fetch ∷ []) waiting).0)
      (device_frames shutter (pending (run_ops (offer stop ∷ fetch ∷ []) waiting).1))
run_ops-Fifo_example = run_ops-Fifo shutter (offer stop ∷ fetch ∷ []) waiting
