-- ===== src/Gateway/Settlement/Rounds.antt =====
-- The balance of a handler through one round of `sending_loop`.
use my_home_stability.Prelude.{
  ℕ, ◌+◌, ◌≡◌, refl, true, false, arith, inl, inr, ◌⊎◌, ◌∙◌, ap, [], Bool-cases, ltb, ◌-◌,
}
use my_home_stability.Gateway.Command.{QueuedCommand, mark_dropped}
use my_home_stability.Gateway.Queue.{pending}
use my_home_stability.Gateway.Queue.Contents.{weigh}
use my_home_stability.Gateway.Handler.{Handler, give_up, forget_session, close_session}
use my_home_stability.Gateway.Worker.{
  Failure, Attempt, Ending, returned, raised, Delivery, Worker, settle_last, end_worker,
  on_unexpected, after_delivery, expire, sending_round,
}
use my_home_stability.Gateway.Settlement.{
  reported, owed, mixed, reported-append, reported-mark_dropped, owed-mark_dropped,
}
use my_home_stability.Gateway.Settlement.Balance.{
  balance, mixed_pending, balance-give_up, mixed-give_up,
}
use my_home_stability.Gateway.Settlement.Untouched.{
  Takes, Takes-trans, Untouched, balance-Untouched, mixed-Untouched, dropped_session-Untouched,
}
use my_home_stability.Gateway.Settlement.Delivery.{
  give_up-queue, Settles, give_up-item, deliver-Settles,
}

-- What a round with `item` does to the handler: it settles the frame, and queues none.
pub record Rounds (h : Handler) (item : QueuedCommand) (h' : Handler) : Type 0 where
  pub settled : (c : ℕ) → balance c h' ≡ balance c h + owed c item
  pub queue : Takes h h'
  pub unmixed : mixed_pending h ≡ 0 → mixed_pending h' ≡ 0

balance-settle_last :
    (c : ℕ) (item : QueuedCommand) (h : Handler)
    → balance c (settle_last item h) ≡ balance c h + owed c item
unfolding balance settle_last
balance-settle_last c item h =
    omega (arith, reported-append c h.reports (mark_dropped item).1, reported-mark_dropped c item)

mixed-settle_last :
    (item : QueuedCommand) (h : Handler) → mixed_pending (settle_last item h) ≡ mixed_pending h
unfolding mixed_pending settle_last
mixed-settle_last item h = refl

settle_last-queue :
    (item : QueuedCommand) (h : Handler) → (settle_last item h).send_buffer ≡ h.send_buffer
unfolding settle_last
settle_last-queue item h = refl

owed_given_up : (c now : ℕ) (item : QueuedCommand) (h : Handler) → owed c (give_up now item h).0 ≡ 0
owed_given_up c now item h = rw (give_up-item now item h) (owed-mark_dropped c item)

expire-Rounds : (now : ℕ) (item : QueuedCommand) (h : Handler) → Rounds h item (expire now item h)
unfolding expire
expire-Rounds now item h =
    let g = give_up now item h in
    record {
      settled = λ c. omega (
        arith,
        balance-settle_last c g.0 g.1,
        balance-give_up c now item h,
        owed_given_up c now item h,
      );
      queue = inl (settle_last-queue g.0 g.1 ∙ give_up-queue now item h);
      unmixed = λ z. omega (arith, mixed-settle_last g.0 g.1, mixed-give_up now item h);
    }

-- The round after a delivery: the `finally` settles what the delivery left.
delivered-Rounds :
    (h : Handler) (item : QueuedCommand) (d : Delivery)
    → Settles h item d
    → Rounds h item (settle_last d.item d.handler)
delivered-Rounds h item d s = record {
  settled = λ c. omega (arith, balance-settle_last c d.item d.handler, s.kept c);
  queue =
      Takes-trans h d.handler (settle_last d.item d.handler) s.queue
        (inl (settle_last-queue d.item d.handler));
  unmixed = λ z. omega (arith, mixed-settle_last d.item d.handler, s.unmixed z);
}

Rounds-Untouched :
    (h t t' : Handler) (item : QueuedCommand) → Untouched t t' → Rounds h item t → Rounds h item t'
Rounds-Untouched h t t' item u r = record {
  settled = λ c. omega (arith, r.settled c, balance-Untouched c t t' u);
  queue = Takes-trans h t t' r.queue (inl u.0);
  unmixed = λ z. omega (arith, r.unmixed z, mixed-Untouched t t' u);
}

on_unexpected-Rounds :
    (worker now : ℕ) (w : Worker) (h : Handler) (item : QueuedCommand) (d : Delivery)
    → Settles h item d
    → Rounds h item (on_unexpected worker now w d.item d.handler).1
unfolding on_unexpected
on_unexpected-Rounds worker now w h item d s =
    let t = forget_session worker (close_session w.session d.handler) in
    let u = dropped_session-Untouched worker w.session d.handler in
    let g = give_up now d.item t in
    record {
      settled = λ c. omega (
        arith,
        balance-settle_last c g.0 g.1,
        balance-give_up c now d.item t,
        owed_given_up c now d.item t,
        balance-Untouched c d.handler t u,
        s.kept c,
      );
      queue =
          Takes-trans h d.handler (settle_last g.0 g.1) s.queue
            (inl (settle_last-queue g.0 g.1 ∙ (give_up-queue now d.item t ∙ u.0)));
      unmixed = λ z. omega (
        arith,
        mixed-settle_last g.0 g.1,
        mixed-give_up now d.item t,
        mixed-Untouched d.handler t u,
        s.unmixed z,
      );
    }

after_delivery-Rounds :
    (worker now : ℕ) (w : Worker) (h : Handler) (item : QueuedCommand) (d : Delivery) (e : Ending)
    → Settles h item d
    → Rounds h item (after_delivery worker now w d e).1
unfolding after_delivery end_worker
after_delivery-Rounds worker now w h item d (returned true) s = delivered-Rounds h item d s
after_delivery-Rounds worker now w h item d (returned false) s = delivered-Rounds h item d s
after_delivery-Rounds worker now w h item d (raised Failure.cancelled) s =
    Rounds-Untouched h _ _ item (dropped_session-Untouched worker w.session _)
      (delivered-Rounds h item d s)
after_delivery-Rounds worker now w h item d (raised _) s =
    on_unexpected-Rounds worker now w h item d s

settled_reports :
    (h : Handler) (item : QueuedCommand) (h' : Handler)
    → Rounds h item h'
    → (h'.send_buffer ≡ h.send_buffer)
        × ((c : ℕ) → reported c h'.reports ≡ reported c h.reports + owed c item)
      ⊎ (pending h'.send_buffer ≡ [])
        × ((c : ℕ)
            → reported c h'.reports
              ≡ reported c h.reports + owed c item + weigh (owed c) (pending h.send_buffer))
unfolding balance weigh
settled_reports h item h' r = elim r.queue [
  | inl e ↦ inl (
    e,
    λ c.
        let same : weigh (owed c) (pending h'.send_buffer)
            ≡ weigh (owed c) (pending h.send_buffer) =
          ap (λ q. weigh (owed c) (pending q)) e in
        omega (arith, r.settled c, same),
  )
  | inr e ↦ inr (
    e,
    λ c.
        let none_left : weigh (owed c) (pending h'.send_buffer) ≡ 0 = ap (weigh (owed c)) e in
        omega (arith, r.settled c, none_left),
  )
]

-- A round of a sending worker, whatever happens to the command that it took.
pub sending_round-Rounds :
    (worker now : ℕ) (env : ℕ → Attempt) (ended_at : ℕ) (w : Worker) (item : QueuedCommand)
    (h : Handler)
    → mixed item ≡ 0
    → Rounds h item (sending_round worker now env ended_at w item h).1
unfolding sending_round
sending_round-Rounds worker now env ended_at w item h m =
    elim (Bool-cases (ltb h.timing.command_ttl (now - item.enqueued_at))) [
      | inl e ↦ simp e (expire-Rounds now item h)
      | inr e ↦ simp e (
          after_delivery-Rounds worker ended_at w h item _ _
            (deliver-Settles worker env w.session item h m))
    ]

-- A round of a sending worker, with a command both of whose callbacks are of one caller, runs the
-- callback that the command owes its caller, whatever happens to it, and no other, and leaves the
-- queue as it was; or else the queue is empty, and for every caller the callbacks that the commands
-- which waited in it owed have been run as well.
pub sending_round-reports :
    (worker now : ℕ) (env : ℕ → Attempt) (ended_at : ℕ) (w : Worker) (item : QueuedCommand)
    (h : Handler)
    → mixed item ≡ 0
    → let h' = (sending_round worker now env ended_at w item h).1 in
      (h'.send_buffer ≡ h.send_buffer)
        × ((c : ℕ) → reported c h'.reports ≡ reported c h.reports + owed c item)
      ⊎ (pending h'.send_buffer ≡ [])
        × ((c : ℕ)
            → reported c h'.reports
              ≡ reported c h.reports + owed c item + weigh (owed c) (pending h.send_buffer))
sending_round-reports worker now env ended_at w item h m =
    settled_reports h item (sending_round worker now env ended_at w item h).1
      (sending_round-Rounds worker now env ended_at w item h m)
