-- ===== src/Gateway/Queue/Lanes.antt =====
-- gateway.py, `_CommandQueue`: its runs against plain queues, one for each device.
use my_home_stability.Prelude.{
  ◌≡◌, refl, subst, ◌∙◌, Bool, Option, none, some, List, [], ◌∷◌, ◌++◌, Bool-cases, inl, inr,
  if◌then◌else◌, arith, keep,
}
use mathlib.Core.List.{append-nil}
use my_home_stability.Gateway.Command.{QueuedCommand}
use my_home_stability.Gateway.Queue.{
  CommandQueue, AddressKey, blocks, put, get, pending, put_nowait, qsize,
}
use my_home_stability.Gateway.Queue.Order.{
  command_of, blocks-command_of, device_frames, blocking_frames, put_blocking, get-pending,
}

-- What is asked of the queue, and what it does.
pub data QueueOp : Type 0 where
  offer : QueuedCommand → QueueOp
  fetch : QueueOp

pub data QueueEvent : Type 0 where
  was_put was_got : QueuedCommand → QueueEvent

-- A full queue refuses, and an empty one gives nothing.
unfoldable pub after_offer :
    QueuedCommand → CommandQueue → Option CommandQueue → List QueueEvent × CommandQueue
after_offer item q none = ([], q)
after_offer item q (some q') = (was_put item ∷ [], q')

unfoldable pub after_fetch :
    CommandQueue → Option (QueuedCommand × CommandQueue) → List QueueEvent × CommandQueue
after_fetch q none = ([], q)
after_fetch q (some (item, q')) = (was_got item ∷ [], q')

unfoldable pub op : QueueOp → CommandQueue → List QueueEvent × CommandQueue
unfolding after_offer after_fetch
op (offer item) q = after_offer item q (put_nowait q item)
op fetch q = after_fetch q (get q)

unfoldable pub run_ops : List QueueOp → CommandQueue → List QueueEvent × CommandQueue
run_ops [] q = ([], q)
run_ops (o ∷ os) q = let (es, q') = op o q in let (rest, q'') = run_ops os q' in (es ++ rest, q'')

-- The specification: a plain queue, from one content to another by the events.
pub data Fifo : List QueuedCommand → List QueueEvent → List QueuedCommand → Type 0 where
  no_more : (xs : List QueuedCommand) → Fifo xs [] xs
  put_last :
      (xs ys : List QueuedCommand) (x : QueuedCommand) (es : List QueueEvent)
      → Fifo (xs ++ x ∷ []) es ys
      → Fifo xs (was_put x ∷ es) ys
  got_first :
      (xs ys : List QueuedCommand) (x : QueuedCommand) (es : List QueueEvent)
      → Fifo xs es ys
      → Fifo (x ∷ xs) (was_got x ∷ es) ys

-- The events of such commands.
abbrev events_of : (QueuedCommand → Bool) → List QueueEvent → List QueueEvent
events_of p [] = []
events_of p (was_put x ∷ es) = if p x then was_put x ∷ events_of p es else events_of p es
events_of p (was_got x ∷ es) = if p x then was_got x ∷ events_of p es else events_of p es

-- The events of the commands for one device.
abbrev pub device_events : AddressKey → List QueueEvent → List QueueEvent
device_events key es = events_of (command_of key) es

module _ (key : AddressKey) where
  lane : CommandQueue → List QueuedCommand
  lane q = blocking_frames key (pending q)

  after_put :
      (x : QueuedCommand) (q : CommandQueue) (es : List QueueEvent) (ys : List QueuedCommand)
      → Fifo (lane (put q x)) (events_of (blocks key) es) ys
      → Fifo (lane q) (events_of (blocks key) (was_put x ∷ es)) ys
  unfolding lane
  after_put x q es ys h = elim (Bool-cases (blocks key x)) [
    | inl b ↦ rw b (
        put_last (lane q) ys x (events_of (blocks key) es)
          (subst (λ t. Fifo t (events_of (blocks key) es) ys) (put_blocking key q x ∙ rw b) h))
    | inr b ↦ rw b (
        subst (λ t. Fifo t (events_of (blocks key) es) ys)
          (put_blocking key q x ∙ rw (b, append-nil)) h)
  ]

  after_get :
      (x : QueuedCommand) (q q' : CommandQueue) (es : List QueueEvent) (ys : List QueuedCommand)
      → get q ≡ some (x, q')
      → Fifo (lane q') (events_of (blocks key) es) ys
      → Fifo (lane q) (events_of (blocks key) (was_got x ∷ es)) ys
  unfolding lane
  after_get x q q' es ys g h = rw (get-pending q q' x g) (elim (Bool-cases (blocks key x)) [
    | inl b ↦ rw b (got_first (lane q') ys x (events_of (blocks key) es) h)
    | inr b ↦ rw b h
  ])

  put_nowait-put :
      (x : QueuedCommand) (q q' : CommandQueue) → put_nowait q x ≡ some q' → q' ≡ put q x
  unfolding put_nowait qsize
  put_nowait-put x q q' e = ground (arith, e)

  offered :
      (x : QueuedCommand) (q : CommandQueue) (es : List QueueEvent) (ys : List QueuedCommand)
      (r : Option CommandQueue)
      → put_nowait q x ≡ r
      → Fifo (lane (after_offer x q r).1) (events_of (blocks key) es) ys
      → Fifo (lane q) (events_of (blocks key) ((after_offer x q r).0 ++ es)) ys
  unfolding after_offer
  offered x q es ys none e h = h
  offered x q es ys (some q') e h =
      after_put x q es ys
        (subst (λ t. Fifo (lane t) (events_of (blocks key) es) ys) (put_nowait-put x q q' e) h)

  fetched :
      (q : CommandQueue) (es : List QueueEvent) (ys : List QueuedCommand)
      (r : Option (QueuedCommand × CommandQueue))
      → get q ≡ r
      → Fifo (lane (after_fetch q r).1) (events_of (blocks key) es) ys
      → Fifo (lane q) (events_of (blocks key) ((after_fetch q r).0 ++ es)) ys
  unfolding after_fetch
  fetched q es ys none e h = h
  fetched q es ys (some (x, q')) e h = after_get x q q' es ys e h

  -- One operation, whose events come first.
  step :
      (o : QueueOp) (q : CommandQueue) (es : List QueueEvent) (ys : List QueuedCommand)
      → Fifo (lane (op o q).1) (events_of (blocks key) es) ys
      → Fifo (lane q) (events_of (blocks key) ((op o q).0 ++ es)) ys
  unfolding op
  step (offer x) q es ys h = offered x q es ys (put_nowait q x) refl h
  step fetch q es ys h = fetched q es ys (get q) refl h

  -- The runs, seen by the frames that block for the device.
  run_ops-blocking :
      (os : List QueueOp) (q : CommandQueue)
      → Fifo
          (blocking_frames key (pending q))
          (events_of (blocks key) (run_ops os q).0)
          (blocking_frames key (pending (run_ops os q).1))
  unfolding run_ops lane
  run_ops-blocking [] q = no_more (lane q)
  run_ops-blocking (o ∷ os) q =
      let (rest, q'') = run_ops os (op o q).1 in
      step o q rest (lane q'') (run_ops-blocking os (op o q).1)

  -- The two deques refine plain queues, one for each device: in every run, whatever is offered and
  -- fetched and in whichever order, the commands for one device that are put and got make a run of
  -- a plain queue, from the commands for it that were pending to those that are. Status requests
  -- and frames without a WHERE are no commands for a device here, and a refused offer is no event.
  pub run_ops-Fifo :
      (os : List QueueOp) (q : CommandQueue)
      → Fifo
          (device_frames key (pending q))
          (device_events key (run_ops os q).0)
          (device_frames key (pending (run_ops os q).1))
  run_ops-Fifo os q =
      subst
        (λ p.
          Fifo (keep p (pending q)) (events_of p (run_ops os q).0)
            (keep p (pending (run_ops os q).1)))
        (blocks-command_of key) (run_ops-blocking os q)
