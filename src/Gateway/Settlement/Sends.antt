-- ===== src/Gateway/Settlement/Sends.antt =====
-- The balance of a handler through `send` and `send_status_request`.
use my_home_stability.Gateway.Settlement.Balance.{
  balance, mixed_pending, balance-give_up, mixed-give_up,
}
use my_home_stability.Prelude.{
  ℕ, ◌+◌, ◌≡◌, refl, ◌⊎◌, ◌||◌, Bool, true, false, Option, none, some, arith, inl, inr, Bool-cases,
}
use my_home_stability.Gateway.Command.{Message, QueuedCommand, queued_command}
use my_home_stability.Gateway.Queue.{CommandQueue, put, put_nowait}
use my_home_stability.Gateway.Queue.Contents.{put-weigh}
use my_home_stability.Gateway.Handler.{Handler, give_up, refresh_stats}
use my_home_stability.Gateway.Send.{enqueue, enqueue_open, send_status_request}
use my_home_stability.Gateway.Settlement.{is_for, owed, mixed}

owed-queued_command :
    (c : ℕ) (m : Message) (st : Bool) (now : ℕ) (od op : Option ℕ)
    → owed c (queued_command m st now od op) ≡ is_for c op
unfolding owed queued_command
owed-queued_command c m st now od op = refl

mixed-queued_command :
    (m : Message) (st : Bool) (now : ℕ) (o : Option ℕ) → mixed (queued_command m st now o o) ≡ 0
unfolding mixed queued_command
mixed-queued_command m st now none = refl
mixed-queued_command m st now (some a) = ground arith

put_nowait-cases :
    (q : CommandQueue) (item : QueuedCommand)
    → (put_nowait q item ≡ none) ⊎ (put_nowait q item ≡ some (put q item))
unfolding put_nowait
put_nowait-cases q item = ground arith

-- the handler after a put that was not refused
accepted : ℕ → QueuedCommand → Handler → Handler
accepted now item h =
    refresh_stats now false false (record h { send_buffer = put h.send_buffer item })

balance-accepted :
    (c now : ℕ) (item : QueuedCommand) (h : Handler)
    → balance c (accepted now item h) ≡ balance c h + owed c item
unfolding balance accepted refresh_stats
balance-accepted c now item h = omega (arith, put-weigh (owed c) h.send_buffer item)

mixed-accepted :
    (now : ℕ) (item : QueuedCommand) (h : Handler)
    → mixed_pending (accepted now item h) ≡ mixed_pending h + mixed item
unfolding mixed_pending accepted refresh_stats
mixed-accepted now item h = omega (arith, put-weigh mixed h.send_buffer item)

enqueue_open-cases :
    (now : ℕ) (item : QueuedCommand) (h : Handler)
    → ((enqueue_open now item h (put_nowait h.send_buffer item)).0 ≡ (give_up now item h).1)
      ⊎ ((enqueue_open now item h (put_nowait h.send_buffer item)).0 ≡ accepted now item h)
unfolding enqueue_open accepted
enqueue_open-cases now item h = elim (put_nowait-cases h.send_buffer item) [
  | inl e ↦ inl (rw e)
  | inr e ↦ inr (rw e)
]

enqueue-cases :
    (now : ℕ) (m : Message) (st : Bool) (od op : Option ℕ) (h : Handler)
    → ((enqueue now m st od op h).0 ≡ (give_up now (queued_command m st now od op) h).1)
      ⊎ ((enqueue now m st od op h).0 ≡ accepted now (queued_command m st now od op) h)
unfolding enqueue
enqueue-cases now m st od op h = elim (Bool-cases (h.closed || h.stop_command_workers)) [
  | inl e ↦ inl (simp e)
  | inr e ↦ simp e (enqueue_open-cases now (queued_command m st now od op) h)
]

-- Whether it is queued or refused, a command adds its caller once to the balance.
pub balance-enqueue :
    (c now : ℕ) (m : Message) (st : Bool) (od op : Option ℕ) (h : Handler)
    → balance c (enqueue now m st od op h).0 ≡ balance c h + is_for c op
balance-enqueue c now m st od op h =
    let item = queued_command m st now od op in
    let o = owed-queued_command c m st now od op in
    elim (enqueue-cases now m st od op h) [
      | inl e ↦ rw e (omega (arith, balance-give_up c now item h, o))
      | inr e ↦ rw e (omega (arith, balance-accepted c now item h, o))
    ]

pub mixed-enqueue :
    (now : ℕ) (m : Message) (st : Bool) (o : Option ℕ) (h : Handler)
    → mixed_pending (enqueue now m st o o h).0 ≡ mixed_pending h
mixed-enqueue now m st o h =
    let item = queued_command m st now o o in
    elim (enqueue-cases now m st o o h) [
      | inl e ↦ rw e (mixed-give_up now item h)
      | inr e ↦ rw e (omega (arith, mixed-accepted now item h, mixed-queued_command m st now o))
    ]

-- A status request that is coalesced had no callbacks.
pub balance-send_status_request :
    (c now : ℕ) (m : Message) (od op : Option ℕ) (h : Handler)
    → balance c (send_status_request now m od op h).0 ≡ balance c h + is_for c op
unfolding send_status_request
balance-send_status_request c now m od op h = ground (arith, balance-enqueue c now m true od op h)

pub mixed-send_status_request :
    (now : ℕ) (m : Message) (o : Option ℕ) (h : Handler)
    → mixed_pending (send_status_request now m o o h).0 ≡ mixed_pending h
unfolding send_status_request
mixed-send_status_request now m o h = ground (arith, mixed-enqueue now m true o h)
