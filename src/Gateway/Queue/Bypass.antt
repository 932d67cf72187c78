-- ===== src/Gateway/Queue/Bypass.antt =====
-- gateway.py, `_CommandQueue`: where a stop frame stands among those that wait.
use my_home_stability.Prelude.{
  ℕ, zero, suc, ◌≡◌, refl, sym, ap, subst, ◌⊎◌, inl, inr, true, Option, none, some, List, [], ◌∷◌,
  ◌++◌, arith, Bool, keep, Bool-cases, length, get_elem?, insert_at, take, drop,
}
use mathlib.Core.List.{append_assoc}
use my_home_stability.Gateway.Command.{QueuedCommand}
use my_home_stability.Gateway.Queue.{
  CommandQueue, AddressKey, address_key, blocks, blocks_at, last_index_from, last_index_for, place,
  put, pending,
}
use my_home_stability.Gateway.Queue.Order.{
  command_of, blocks-command_of, ScanClears-all, last_index_for-eq, put_stop, ScanClears,
}

insert_at-eq {ℓ} :
    {A : Type ℓ} (n : ℕ) (a : A) (xs : List A) → insert_at n a xs ≡ take n xs ++ a ∷ drop n xs
insert_at-eq zero a xs = refl
insert_at-eq (suc n) a [] = refl
insert_at-eq (suc n) a (x ∷ xs) = ap (λ t. x ∷ t) (insert_at-eq n a xs)

take-append-drop {ℓ} : {A : Type ℓ} (n : ℕ) (xs : List A) → xs ≡ take n xs ++ drop n xs
take-append-drop zero xs = refl
take-append-drop (suc n) [] = refl
take-append-drop (suc n) (x ∷ xs) = ap (λ t. x ∷ t) (take-append-drop n xs)

take-suc {ℓ} :
    {A : Type ℓ} (n : ℕ) (xs : List A) (a : A)
    → get_elem? xs n ≡ some a
    → take (suc n) xs ≡ take n xs ++ a ∷ []
take-suc n [] a h = cc
take-suc zero (x ∷ xs) a h = ground arith
take-suc (suc n) (x ∷ xs) a h = ap (λ t. x ∷ t) (take-suc n xs a h)

-- The list is empty, or it ends in such a frame.
abbrev pub EndsIn : (QueuedCommand → Bool) → List QueuedCommand → Type 0
EndsIn p xs =
    (xs ≡ [])
    ⊎ ((front : List QueuedCommand) × (last : QueuedCommand) × (xs ≡ front ++ last ∷ [])
        × (p last ≡ true))

abbrev ScanFinds : AddressKey → List QueuedCommand → Option ℕ → Type 0
ScanFinds key xs none = Unit
ScanFinds key xs (some at) = EndsIn (blocks key) (take at xs)

blocks_at-found :
    (key : AddressKey) (o : Option QueuedCommand)
    → blocks_at key o ≡ true
    → (a : QueuedCommand) × (o ≡ some a) × (blocks key a ≡ true)
blocks_at-found key none h = cc
blocks_at-found key (some a) h = (a, refl, h)

scan_finds :
    (key : AddressKey) (xs : List QueuedCommand) (n : ℕ)
    → ScanFinds key xs (last_index_from key xs n)
unfolding last_index_from
scan_finds key xs zero = tt
scan_finds key xs (suc n) = elim (Bool-cases (blocks_at key (get_elem? xs n))) [
  | inl found ↦
      let (a, e, b) = blocks_at-found key (get_elem? xs n) found in
      rw found (inr (take n xs, a, take-suc n xs a e, b))
  | inr other ↦ rw other (scan_finds key xs n)
]

-- The deque splits at the stop's place: what is before ends in such a frame or is empty, and what is
-- after holds none.
abbrev pub Splits : (QueuedCommand → Bool) → CommandQueue → CommandQueue → QueuedCommand → Type 0
Splits p q q' item =
    (before : List QueuedCommand) × (after : List QueuedCommand) × (q.queue ≡ before ++ after)
    × EndsIn p before
    × (keep p after ≡ [])
    × (pending q' ≡ q.stops ++ (before ++ item ∷ after))

place-Splits :
    (key : AddressKey) (q : CommandQueue) (item : QueuedCommand) (at : Option ℕ)
    → ScanClears key q.queue at
    → ScanFinds key q.queue at
    → Splits (blocks key) q (place q item at) item
unfolding place pending
place-Splits key q item none c f =
    ([], q.queue, refl, inl refl, c, append_assoc q.stops (item ∷ []) q.queue)
place-Splits key q item (some at) c f = (
  take at q.queue,
  drop at q.queue,
  take-append-drop at q.queue,
  f,
  c,
  ap (λ t. q.stops ++ t) (insert_at-eq at item q.queue),
)

stop_blocks :
    (key : AddressKey) (q : CommandQueue) (item : QueuedCommand)
    → item.is_stop ≡ true
    → address_key item ≡ some key
    → Splits (blocks key) q (put q item) item
stop_blocks key q item s k =
    let e = last_index_for-eq key q item k in
    rw (put_stop q item s) (
      place-Splits key q item (last_index_for q item)
        (subst (ScanClears key q.queue) (sym e) (ScanClears-all key q.queue))
        (subst (ScanFinds key q.queue) (sym e) (scan_finds key q.queue (length q.queue))))

-- A stop frame with an address goes right behind the last ordinary frame that waits and is a
-- command for its own device, or to the front of the ordinary frames where there is none: so ahead
-- of all that waits behind that command, the status requests of its own device too. The earlier
-- stops stay ahead of it, and all the other frames keep their order.
pub stop_overtakes :
    (key : AddressKey) (q : CommandQueue) (item : QueuedCommand)
    → item.is_stop ≡ true
    → address_key item ≡ some key
    → Splits (command_of key) q (put q item) item
stop_overtakes key q item s k =
    subst (λ p. Splits p q (put q item) item) (blocks-command_of key) (stop_blocks key q item s k)
