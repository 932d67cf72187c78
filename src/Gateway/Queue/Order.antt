-- ===== src/Gateway/Queue/Order.antt =====
-- gateway.py, `_CommandQueue`: the order of delivery, device by device.
use my_home_stability.Prelude.{
  ℕ, zero, suc, ◌≡◌, refl, sym, ap, subst, ◌∙◌, ◌&&◌, str_eq, eq_iff, String, ◌⊎◌, inl, inr, Bool,
  true, false, Option, none, some, List, [], ◌∷◌, ◌++◌, arith, Bool-cases, not, Option-cases,
  length, get_elem?, insert_at, drop, keep, keep-append,
}
use mathlib.Core.List.{append-nil, append_assoc}
use my_home_stability.Gateway.Command.{QueuedCommand}
use my_home_stability.Gateway.Queue.{
  CommandQueue, AddressKey, address_key, blocks, last_index_from, last_index_for, place, put, get,
  pending, has_key, blocks_at, option_eq, nat_eq, key_eq,
}

-- A command for one device: a frame that is no status request and has that address.
abbrev pub command_of : AddressKey → QueuedCommand → Bool
command_of key item = not item.is_status_request && elim item.message.bare_where [
  | none ↦ false
  | some w ↦
      key_eq (record { who = item.message.who; bare_where = w; interface = item.message.interface })
        key
]

blocks-command : (key : AddressKey) (item : QueuedCommand) → blocks key item ≡ command_of key item
unfolding blocks has_key address_key
blocks-command key item = elim (Option-cases item.message.bare_where) [
  | inl e ↦ rw e
  | inr (w, e) ↦ rw e
]

-- The frames that a stop must not overtake are the commands for its device.
pub blocks-command_of : (key : AddressKey) → blocks key ≡ command_of key
blocks-command_of key = λ i item. blocks-command key item i

-- The commands for one device, as they will be delivered.
abbrev pub device_frames : AddressKey → List QueuedCommand → List QueuedCommand
device_frames key xs = keep (command_of key) xs

-- The frames that a stop of the device must not overtake.
abbrev pub blocking_frames : AddressKey → List QueuedCommand → List QueuedCommand
blocking_frames key xs = keep (blocks key) xs

-- One step of `drop`: the end of the list, or one frame and the rest.
drop_step {ℓ} :
    {A : Type ℓ} (n : ℕ) (xs : List A)
    → (drop n xs ≡ []) × (get_elem? xs n ≡ none)
      ⊎ ((a : A) × (get_elem? xs n ≡ some a) × (drop n xs ≡ a ∷ drop (suc n) xs))
drop_step zero [] = inl (refl, refl)
drop_step zero (x ∷ xs) = inr (x, refl, refl)
drop_step (suc n) [] = inl (refl, refl)
drop_step (suc n) (x ∷ xs) = drop_step n xs

drop-length {ℓ} : {A : Type ℓ} (xs : List A) → drop (length xs) xs ≡ []
drop-length [] = refl
drop-length (x ∷ xs) = drop-length xs

module _ {A : Type 0} (p : A → Bool) (a : A) where
  keep-insert_at-false : (n : ℕ) (xs : List A) → p a ≡ false → keep p (insert_at n a xs) ≡ keep p xs
  keep-insert_at-false zero xs h = rw h
  keep-insert_at-false (suc n) [] h = rw h
  keep-insert_at-false (suc n) (x ∷ xs) h = ground (arith, keep-insert_at-false n xs h)

  keep-insert_at-true :
      (n : ℕ) (xs : List A)
      → p a ≡ true
      → keep p (drop n xs) ≡ []
      → keep p (insert_at n a xs) ≡ keep p xs ++ a ∷ []
  keep-insert_at-true zero xs h e = rw (h, e)
  keep-insert_at-true (suc n) [] h e = rw h
  keep-insert_at-true (suc n) (x ∷ xs) h e = ground (arith, keep-insert_at-true n xs h e)

-- What the scan from index `n` down says of the frames from `n` on, where none of those blocks.
abbrev pub ScanClears : AddressKey → List QueuedCommand → Option ℕ → Type 0
ScanClears key xs none = blocking_frames key xs ≡ []
ScanClears key xs (some at) = blocking_frames key (drop at xs) ≡ []

scan_clears :
    (key : AddressKey) (xs : List QueuedCommand) (n : ℕ)
    → blocking_frames key (drop n xs) ≡ []
    → ScanClears key xs (last_index_from key xs n)
unfolding last_index_from
scan_clears key xs zero h = h
scan_clears key xs (suc n) h = elim (Bool-cases (blocks_at key (get_elem? xs n))) [
  | inl found ↦ rw found h
  | inr other ↦ rw other (
      scan_clears key xs n
        (elim (drop_step n xs) [ inl (e, _) ↦ rw e | inr (a, e, d) ↦ rw d (ground arith) ]))
]

-- A scan of the whole deque.
pub ScanClears-all :
    (key : AddressKey) (xs : List QueuedCommand)
    → ScanClears key xs (last_index_from key xs (length xs))
ScanClears-all key xs = scan_clears key xs (length xs) (rw drop-length)

option_nat_eq_sound : (a b : Option ℕ) → option_eq nat_eq a b ≡ true → a ≡ b
unfolding option_eq nat_eq
option_nat_eq_sound none none e = refl
option_nat_eq_sound (some a) (some b) e = ground arith
option_nat_eq_sound _ _ e = cc

option_str_eq_sound : (a b : Option String) → option_eq str_eq a b ≡ true → a ≡ b
unfolding option_eq
option_str_eq_sound none none e = refl
option_str_eq_sound (some a) (some b) e = ap some ((eq_iff a b).0 e)
option_str_eq_sound _ _ e = cc

and_parts : (a b : Bool) → (a && b) ≡ true → (a ≡ true) × (b ≡ true)
and_parts a b e = ground arith

-- Equal keys are the same key.
key_eq_sound : (a b : AddressKey) → key_eq a b ≡ true → a ≡ b
unfolding key_eq
key_eq_sound a b e =
    let (ew, rest) = and_parts _ _ e in
    let (eb, ei) = and_parts _ _ rest in
    let pw = option_nat_eq_sound a.who b.who ew in
    let pb = (eq_iff a.bare_where b.bare_where).0 eb in
    let pi = option_str_eq_sound a.interface b.interface ei in
    λ i. record { who = pw i; bare_where = pb i; interface = pi i }

-- A frame that blocks for `key` has that address.
blocks-address_key :
    (key : AddressKey) (item : QueuedCommand) → blocks key item ≡ true → address_key item ≡ some key
unfolding blocks has_key
blocks-address_key key item h = elim (Option-cases (address_key item)) [
  | inl e ↦ ground arith
  | inr (k, e) ↦ e ∙ ap some (key_eq_sound k key (ground arith))
]

pub last_index_for-eq :
    (key : AddressKey) (q : CommandQueue) (item : QueuedCommand)
    → address_key item ≡ some key
    → last_index_for q item ≡ last_index_from key q.queue (length q.queue)
unfolding last_index_for
last_index_for-eq key q item e = rw (e, last_index_for)

-- The scan for a frame that itself blocks for `key` is the scan for `key`.
last_index_for-clears :
    (key : AddressKey) (q : CommandQueue) (item : QueuedCommand)
    → blocks key item ≡ true
    → ScanClears key q.queue (last_index_for q item)
last_index_for-clears key q item h =
    subst (λ o. ScanClears key q.queue o)
      (sym (last_index_for-eq key q item (blocks-address_key key item h)))
      (ScanClears-all key q.queue)

place_fifo :
    (key : AddressKey) (q : CommandQueue) (item : QueuedCommand) (at : Option ℕ)
    → (blocks key item ≡ true → ScanClears key q.queue at)
    → blocking_frames key (pending (place q item at))
      ≡ blocking_frames key (pending q) ++ blocking_frames key (item ∷ [])
unfolding place pending
place_fifo key q item none h = elim (Bool-cases (blocks key item)) [
  | inl e ↦ simp (keep-append, append_assoc, e, h e, append-nil)
  | inr e ↦ simp (keep-append, append_assoc, e, append-nil)
]
place_fifo key q item (some at) h = elim (Bool-cases (blocks key item)) [
  | inl e ↦
      simp (keep-append, append_assoc, keep-insert_at-true (blocks key) item at q.queue e (h e), e)
  | inr e ↦ simp (keep-append, keep-insert_at-false (blocks key) item at q.queue e, e, append-nil)
]

pub put_stop :
    (q : CommandQueue) (item : QueuedCommand)
    → item.is_stop ≡ true
    → put q item ≡ place q item (last_index_for q item)
unfolding put
put_stop q item e = simp e

pub put_ordinary :
    (q : CommandQueue) (item : QueuedCommand)
    → item.is_stop ≡ false
    → put q item ≡ record q { queue = q.queue ++ item ∷ [] }
unfolding put
put_ordinary q item e = simp e

-- Whatever is put, the frames that block for a device stay first in, first out.
pub put_blocking :
    (key : AddressKey) (q : CommandQueue) (item : QueuedCommand)
    → blocking_frames key (pending (put q item))
      ≡ blocking_frames key (pending q) ++ blocking_frames key (item ∷ [])
put_blocking key q item = elim (Bool-cases item.is_stop) [
  | inl e ↦
      rw (put_stop q item e)
        (place_fifo key q item (last_index_for q item) (last_index_for-clears key q item))
  | inr e ↦ rw (put_ordinary q item e) (unfold pending in simp (keep-append, append_assoc))
]

-- Whatever is put, the commands for every device stay first in, first out: a command, a stop among
-- them, goes behind all the commands that wait for its own device, and disturbs the order of those
-- for no other. Status requests and frames without a WHERE are no commands for a device here.
pub put_fifo :
    (key : AddressKey) (q : CommandQueue) (item : QueuedCommand)
    → device_frames key (pending (put q item))
      ≡ device_frames key (pending q) ++ device_frames key (item ∷ [])
put_fifo key q item =
    subst (λ p. keep p (pending (put q item)) ≡ keep p (pending q) ++ keep p (item ∷ []))
      (blocks-command_of key) (put_blocking key q item)

-- What is taken is the first of what was pending, and the rest stays as it was.
pub get-pending :
    (q q' : CommandQueue) (item : QueuedCommand)
    → get q ≡ some (item, q')
    → pending q ≡ item ∷ pending q'
unfolding get pending
get-pending q q' item h = ground arith
