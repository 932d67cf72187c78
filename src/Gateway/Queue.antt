-- ===== src/Gateway/Queue.antt =====
-- gateway.py, `_CommandQueue`: two deques behind one bounded queue. A stop frame overtakes the
-- frames of other devices and never those of its own.
pub mod Order
pub mod Bypass
pub mod Contents
pub mod Lanes
mod Tests
use my_home_stability.Prelude.{
  ℕ, zero, suc, ◌+◌, String, Bool, true, false, not, ◌&&◌, Option, none, some, List, [], ◌∷◌, ◌++◌,
  str_eq, leb, ◌==◌, if◌then◌else◌, length, get_elem?, insert_at,
}
use my_home_stability.Gateway.Command.{Message, QueuedCommand}

-- `queue` holds the ordinary frames and `stops` the stop frames, which go first.
pub record CommandQueue : Type 0 where
  pub queue : List QueuedCommand
  pub stops : List QueuedCommand

abbrev pub empty_queue : CommandQueue
empty_queue = record { queue = []; stops = [] }

abbrev pub command_queue_maxsize : ℕ
command_queue_maxsize = 200

-- (WHO, bare WHERE, bus interface)
pub record AddressKey : Type 0 where
  pub who : Option ℕ
  pub bare_where : String
  pub interface : Option String

unfoldable pub address_key : QueuedCommand → Option AddressKey
address_key item = elim item.message.bare_where [
  | none ↦ none
  | some w ↦
      some (record { who = item.message.who; bare_where = w; interface = item.message.interface })
]

option_eq {ℓ} : {A : Type ℓ} → (A → A → Bool) → Option A → Option A → Bool
option_eq eq none none = true
option_eq eq (some a) (some b) = eq a b
option_eq eq _ _ = false

nat_eq : ℕ → ℕ → Bool
nat_eq a b = a == b

-- The comparison of two key tuples.
unfoldable pub key_eq : AddressKey → AddressKey → Bool
unfolding option_eq nat_eq
key_eq a b =
    option_eq nat_eq a.who b.who
    && (str_eq a.bare_where b.bare_where && option_eq str_eq a.interface b.interface)

-- `self._address_key(other) == key`, for a key that is there
unfoldable pub has_key : AddressKey → QueuedCommand → Bool
unfolding address_key key_eq
has_key key item = elim (address_key item) [ none ↦ false | some k ↦ key_eq k key ]

-- A frame of the device that a stop must not overtake: status requests do not count.
unfoldable pub blocks : AddressKey → QueuedCommand → Bool
unfolding has_key
blocks key other = not other.is_status_request && has_key key other

abbrev pub blocks_at : AddressKey → Option QueuedCommand → Bool
blocks_at key none = false
blocks_at key (some other) = blocks key other

-- The loop from the last index down. The answer is the index plus one, since the source's
-- fallback for a frame without a WHERE is `len - 1`, which is -1 on an empty deque.
pub last_index_from : AddressKey → List QueuedCommand → ℕ → Option ℕ
unfolding blocks
last_index_from key queue zero = none
last_index_from key queue (suc index) =
    let rest = last_index_from key queue index in
    if blocks_at key (get_elem? queue index) then some (suc index) else rest

unfoldable pub last_index_for : CommandQueue → QueuedCommand → Option ℕ
unfolding last_index_from
last_index_for q item = elim (address_key item) [
  | none ↦ some (length q.queue)
  | some key ↦ last_index_from key q.queue (length q.queue)
]

-- `insert(behind + 1, item)`, or the deque of the stops where nothing stands before it
pub place : CommandQueue → QueuedCommand → Option ℕ → CommandQueue
place q item none = record q { stops = q.stops ++ item ∷ [] }
place q item (some at) = record q { queue = insert_at at item q.queue }

unfoldable pub put : CommandQueue → QueuedCommand → CommandQueue
unfolding place last_index_for
put q item =
    if not item.is_stop
    then record q { queue = q.queue ++ item ∷ [] }
    else place q item (last_index_for q item)

-- `(self._stops or self._queue).popleft()`; `none` is `QueueEmpty`
unfoldable pub get : CommandQueue → Option (QueuedCommand × CommandQueue)
get q = elim q.stops [
  | item ∷ rest ↦ some (item, record q { stops = rest })
  | [] ↦ elim q.queue [ item ∷ rest ↦ some (item, record q { queue = rest }) | [] ↦ none ]
]

unfoldable pub qsize : CommandQueue → ℕ
qsize q = length q.queue + length q.stops

unfoldable pub pending : CommandQueue → List QueuedCommand
pending q = q.stops ++ q.queue

-- `put_nowait` of the bounded queue: `none` is `QueueFull`.
unfoldable pub put_nowait : CommandQueue → QueuedCommand → Option CommandQueue
unfolding put qsize
put_nowait q item = if leb command_queue_maxsize (qsize q) then none else some (put q item)
