-- ===== src/Gateway/Queue/Contents.antt =====
-- gateway.py, `_CommandQueue`: what it holds after a put and a get.
use my_home_stability.Prelude.{
  ℕ, zero, suc, ◌+◌, ◌≤◌, ◌≡◌, inl, inr, Option, none, some, List, [], ◌∷◌, ◌++◌, arith, Bool-cases,
  length, insert_at, length-append, leb, leb→le, refl, ◌⊎◌,
}
use my_home_stability.Gateway.Command.{QueuedCommand}
use my_home_stability.Gateway.Queue.{
  CommandQueue, command_queue_maxsize, place, last_index_for, put, get, qsize, pending, put_nowait,
}
use my_home_stability.Gateway.Queue.Order.{put_stop, put_ordinary}

-- A weight of a list of frames: the sum of a number for each.
unfoldable pub weigh : (QueuedCommand → ℕ) → List QueuedCommand → ℕ
weigh w [] = 0
weigh w (x ∷ xs) = w x + weigh w xs

module _ (w : QueuedCommand → ℕ) where
  pub weigh-append : (xs ys : List QueuedCommand) → weigh w (xs ++ ys) ≡ weigh w xs + weigh w ys
  unfolding weigh
  weigh-append [] ys = omega arith
  weigh-append (x ∷ xs) ys = omega (arith, weigh-append xs ys)

  pub weigh-insert_at :
      (n : ℕ) (a : QueuedCommand) (xs : List QueuedCommand)
      → weigh w (insert_at n a xs) ≡ w a + weigh w xs
  unfolding weigh
  weigh-insert_at zero a xs = omega arith
  weigh-insert_at (suc n) a [] = omega arith
  weigh-insert_at (suc n) a (x ∷ xs) = omega (arith, weigh-insert_at n a xs)

  place-weigh :
      (q : CommandQueue) (item : QueuedCommand) (at : Option ℕ)
      → weigh w (pending (place q item at)) ≡ w item + weigh w (pending q)
  unfolding place pending weigh
  place-weigh q item none = omega (
    arith,
    weigh-append (q.stops ++ item ∷ []) q.queue,
    weigh-append q.stops (item ∷ []),
    weigh-append q.stops q.queue,
  )
  place-weigh q item (some n) = omega (
    arith,
    weigh-append q.stops (insert_at n item q.queue),
    weigh-insert_at n item q.queue,
    weigh-append q.stops q.queue,
  )

  ordinary-weigh :
      (q : CommandQueue) (item : QueuedCommand)
      → weigh w (q.stops ++ (q.queue ++ item ∷ [])) ≡ w item + weigh w (pending q)
  unfolding pending weigh
  ordinary-weigh q item = omega (
    arith,
    weigh-append q.stops (q.queue ++ item ∷ []),
    weigh-append q.queue (item ∷ []),
    weigh-append q.stops q.queue,
  )

  -- Under every weight a put adds exactly the frame that is put.
  pub put-weigh :
      (q : CommandQueue) (item : QueuedCommand)
      → weigh w (pending (put q item)) ≡ w item + weigh w (pending q)
  put-weigh q item = elim (Bool-cases item.is_stop) [
    | inl e ↦ rw (put_stop q item e) (place-weigh q item (last_index_for q item))
    | inr e ↦ rw (put_ordinary q item e) (unfold pending in ordinary-weigh q item)
  ]

  -- Under every weight a get takes exactly the frame that it returns.
  pub get-weigh :
      (q q' : CommandQueue) (item : QueuedCommand)
      → get q ≡ some (item, q')
      → weigh w (pending q) ≡ w item + weigh w (pending q')
  unfolding get pending weigh
  get-weigh q q' item h = ground arith

length-eq-weigh : (xs : List QueuedCommand) → length xs ≡ weigh (λ _. 1) xs
unfolding weigh
length-eq-weigh [] = refl
length-eq-weigh (x ∷ xs) = omega (arith, length-eq-weigh xs)

qsize-eq-weigh : (q : CommandQueue) → qsize q ≡ weigh (λ _. 1) (pending q)
unfolding qsize pending
qsize-eq-weigh q =
    omega (arith, length-eq-weigh (q.stops ++ q.queue), length-append q.stops q.queue)

qsize-put : (q : CommandQueue) (item : QueuedCommand) → qsize (put q item) ≡ qsize q + 1
qsize-put q item =
    omega (arith, qsize-eq-weigh (put q item), qsize-eq-weigh q, put-weigh (λ _. 1) q item)

-- A put that is not refused leaves at most `command_queue_maxsize` frames; it is refused exactly
-- when that many already wait.
pub put_nowait_bound :
    (q : CommandQueue) (item : QueuedCommand)
    → (put_nowait q item ≡ none) × (command_queue_maxsize ≤ qsize q)
      ⊎ (put_nowait q item ≡ some (put q item)) × (qsize (put q item) ≤ command_queue_maxsize)
unfolding put_nowait
put_nowait_bound q item = elim (Bool-cases (leb command_queue_maxsize (qsize q))) [
  | inl full ↦ inl (rw full, leb→le _ _ full)
  | inr free ↦ inr (rw free, ground (arith, qsize-put q item))
]
