-- ===== src/Gateway/Settlement/Life.antt =====
-- gateway.py: the callbacks of the commands over the whole life of a gateway.
use my_home_stability.Prelude.{
  ℕ, ◌+◌, ◌≤◌, ◌≡◌, refl, false, ◌∙◌, Option, none, some, List, [], ◌∷◌, ◌++◌, arith,
}
use my_home_stability.Gateway.Command.{Message, QueuedCommand}
use my_home_stability.Gateway.Queue
use my_home_stability.Gateway.Queue.{CommandQueue, empty_queue, pending}
use my_home_stability.Gateway.Queue.Contents.{weigh, weigh-append, get-weigh}
use my_home_stability.Gateway.Handler.{
  Timing, Handler, set_connected, refresh_stats, flush_stats, close_session, discard_queued,
}
use my_home_stability.Gateway.Send.{send, enqueue}
use my_home_stability.Gateway.Worker.{Worker, idle_round, close_idle}
use my_home_stability.Gateway.System.{
  begin_close, close_sessions, finish_close, System, note_caller, Step, ask, ask_status, take,
  round, idle, flush, reject, begin, finish, Reach, here, next, initial,
}
use my_home_stability.Gateway.Settlement.{is_for, reported, owed, mixed}
use my_home_stability.Gateway.Settlement.Balance.{
  balance, mixed_pending, balance-discard_queued, mixed-discard_queued, balance-handle_auth_failure,
  mixed-handle_auth_failure, discard_queued-parts,
}
use my_home_stability.Gateway.Settlement.Sends.{
  balance-enqueue, mixed-enqueue, balance-send_status_request, mixed-send_status_request,
}
use my_home_stability.Gateway.Settlement.Untouched.{
  Untouched, balance-Untouched, mixed-Untouched, dropped_session-Untouched,
}
use my_home_stability.Gateway.Settlement.Rounds.{Rounds, sending_round-Rounds}

-- how many of these are the caller `c`
pub calls : ℕ → List ℕ → ℕ
calls c [] = 0
calls c (d ∷ ds) = is_for c (some d) + calls c ds

calls-note_caller :
    (c : ℕ) (o : Option ℕ) (cs : List ℕ) → calls c (note_caller o cs) ≡ calls c cs + is_for c o
unfolding calls
calls-note_caller c none cs = omega arith
calls-note_caller c (some d) cs = omega arith

-- Every call is accounted for: it has been reported, or its command waits or is in hand.
pub record IsBalanced (s : System) : Type 0 where
  pub accounted : (c : ℕ) → balance c s.handler + weigh (owed c) s.in_hand ≡ calls c s.issued
  pub unmixed : mixed_pending s.handler ≡ 0
  pub unmixed_hand : weigh mixed s.in_hand ≡ 0

-- A step that leaves the frames in hand and the callers alone, and changes the handler so.
handler_step :
    (s : System) (h' : Handler)
    → IsBalanced s
    → ((c : ℕ) → balance c h' ≡ balance c s.handler)
    → (mixed_pending s.handler ≡ 0 → mixed_pending h' ≡ 0)
    → IsBalanced (record s { handler = h' })
handler_step s h' b same un = record {
  accounted = λ c. omega (arith, same c, b.accounted c);
  unmixed = un b.unmixed;
  unmixed_hand = b.unmixed_hand;
}

Untouched-step :
    (s : System) (h' : Handler)
    → IsBalanced s
    → Untouched s.handler h'
    → IsBalanced (record s { handler = h' })
Untouched-step s h' b u =
    handler_step s h' b (λ c. balance-Untouched c s.handler h' u)
      (λ z. omega (arith, mixed-Untouched s.handler h' u))

close_idle-Untouched :
    (worker : ℕ) (w : Worker) (h : Handler) (o : Option ℕ) → Untouched h (close_idle worker w h o).1
unfolding close_idle
close_idle-Untouched worker w h none = (refl, refl)
close_idle-Untouched worker w h (some c) = dropped_session-Untouched worker (some c) h

flush_stats-Untouched : (now : ℕ) (h : Handler) → Untouched h (flush_stats now h)
unfolding flush_stats
flush_stats-Untouched now h = ground arith

close_sessions-Untouched : (cs : List (ℕ × ℕ)) (h : Handler) → Untouched h (close_sessions cs h)
unfolding close_sessions close_session
close_sessions-Untouched [] h = (refl, refl)
close_sessions-Untouched ((w, c) ∷ cs) h = close_sessions-Untouched cs (close_session (some c) h)

-- the handler just before the queue is discarded
closing : Handler → Handler
closing h =
    close_sessions h.command_sessions (record h { event_session = false; command_sessions = [] })

finish_close-parts :
    (now : ℕ) (h : Handler) → Untouched (discard_queued (closing h)) (finish_close now h)
unfolding finish_close closing set_connected refresh_stats
finish_close-parts now h = (refl, refl)

closing-Untouched : (h : Handler) → Untouched h (closing h)
unfolding closing
closing-Untouched h =
    close_sessions-Untouched h.command_sessions
      (record h { event_session = false; command_sessions = [] })

balance-finish_close : (c now : ℕ) (h : Handler) → balance c (finish_close now h) ≡ balance c h
balance-finish_close c now h = omega (
  arith,
  balance-Untouched c (discard_queued (closing h)) (finish_close now h) (finish_close-parts now h),
  balance-discard_queued c (closing h),
  balance-Untouched c h (closing h) (closing-Untouched h),
)

mixed-finish_close : (now : ℕ) (h : Handler) → mixed_pending (finish_close now h) ≡ 0
mixed-finish_close now h = omega (
  arith,
  mixed-Untouched (discard_queued (closing h)) (finish_close now h) (finish_close-parts now h),
  mixed-discard_queued (closing h),
)

-- An operation of a caller: it adds the caller to the balance and to the calls.
ask_step :
    (s : System) (h' : Handler) (o : Option ℕ)
    → IsBalanced s
    → ((c : ℕ) → balance c h' ≡ balance c s.handler + is_for c o)
    → mixed_pending h' ≡ mixed_pending s.handler
    → IsBalanced (record s { handler = h'; issued = note_caller o s.issued })
ask_step s h' o b more same = record {
  accounted = λ c. omega (arith, more c, b.accounted c, calls-note_caller c o s.issued);
  unmixed = omega (arith, same, b.unmixed);
  unmixed_hand = b.unmixed_hand;
}

send-eq-enqueue :
    (now : ℕ) (m : Message) (o : Option ℕ) (h : Handler)
    → send now m o o h ≡ enqueue now m false o o h
unfolding send
send-eq-enqueue now m o h = refl

balance-taken :
    (w : QueuedCommand → ℕ) (c : ℕ) (s : System) (item : QueuedCommand) (q : CommandQueue)
    → Queue.get s.handler.send_buffer ≡ some (item, q)
    → weigh w (pending s.handler.send_buffer) + weigh w s.in_hand
      ≡ weigh w (pending q) + weigh w (item ∷ s.in_hand)
unfolding weigh
balance-taken w c s item q e = omega (arith, get-weigh w s.handler.send_buffer q item e)

taken-IsBalanced :
    (s : System) (item : QueuedCommand) (q : CommandQueue)
    → Queue.get s.handler.send_buffer ≡ some (item, q)
    → IsBalanced s
    → IsBalanced
        (record s { handler = record s.handler { send_buffer = q }; in_hand = item ∷ s.in_hand })
unfolding balance mixed_pending
taken-IsBalanced s item q e b = record {
  accounted = λ c. omega (arith, b.accounted c, balance-taken (owed c) c s item q e);
  unmixed = omega (arith, b.unmixed, b.unmixed_hand, balance-taken mixed 0 s item q e);
  unmixed_hand = omega (arith, b.unmixed, b.unmixed_hand, balance-taken mixed 0 s item q e);
}

weigh-hand :
    (w : QueuedCommand → ℕ) (hand before after : List QueuedCommand) (item : QueuedCommand)
    → hand ≡ before ++ item ∷ after
    → weigh w hand ≡ w item + weigh w (before ++ after)
unfolding weigh
weigh-hand w hand before after item e =
    rw e (omega (arith, weigh-append w before (item ∷ after), weigh-append w before after))

round-IsBalanced :
    (s : System) (before after : List QueuedCommand) (item : QueuedCommand) (h' : Handler)
    → s.in_hand ≡ before ++ item ∷ after
    → Rounds s.handler item h'
    → IsBalanced s
    → IsBalanced (record s { handler = h'; in_hand = before ++ after })
round-IsBalanced s before after item h' e r b = record {
  accounted = λ c.
      omega (arith, r.settled c, b.accounted c, weigh-hand (owed c) s.in_hand before after item e);
  unmixed = r.unmixed b.unmixed;
  unmixed_hand = omega (arith, b.unmixed_hand, weigh-hand mixed s.in_hand before after item e);
}

Step-IsBalanced : {s t : System} → Step s t → IsBalanced s → IsBalanced t
unfolding begin_close idle_round
Step-IsBalanced (ask s now m o) b =
    ask_step s _ o b
      (λ c. rw (send-eq-enqueue now m o s.handler) (balance-enqueue c now m false o o s.handler))
      (rw (send-eq-enqueue now m o s.handler) (mixed-enqueue now m false o s.handler))
Step-IsBalanced (ask_status s now m o) b =
    ask_step s _ o b (λ c. balance-send_status_request c now m o o s.handler)
      (mixed-send_status_request now m o s.handler)
Step-IsBalanced (take s item q e) b = taken-IsBalanced s item q e b
Step-IsBalanced (round s before after item worker now env ended_at w e) b =
    round-IsBalanced s before after item _ e
      (sending_round-Rounds worker now env ended_at w item s.handler
        (omega (arith, b.unmixed_hand, weigh-hand mixed s.in_hand before after item e)))
      b
Step-IsBalanced (idle s worker w) b =
    Untouched-step s _ b (close_idle-Untouched worker w s.handler w.session)
Step-IsBalanced (flush s now) b = Untouched-step s _ b (flush_stats-Untouched now s.handler)
Step-IsBalanced (reject s now) b =
    handler_step s _ b (λ c. balance-handle_auth_failure c now s.handler)
      (λ z. mixed-handle_auth_failure now s.handler)
Step-IsBalanced (begin s) b = Untouched-step s _ b (refl, refl)
Step-IsBalanced (finish s now e) b =
    handler_step s _ b (λ c. balance-finish_close c now s.handler)
      (λ z. mixed-finish_close now s.handler)

initial-IsBalanced : (timing : Timing) → IsBalanced (initial timing)
unfolding initial balance mixed_pending weigh reported calls pending
initial-IsBalanced timing = record { accounted = λ c. refl; unmixed = refl; unmixed_hand = refl }

Reach-IsBalanced : {s t : System} → IsBalanced s → Reach s t → IsBalanced t
Reach-IsBalanced b here = b
Reach-IsBalanced b (next r st) = Step-IsBalanced st (Reach-IsBalanced b r)

-- In every run, the callbacks of one caller have run at most as often as the caller has asked.
pub reported-le-calls :
    (timing : Timing) (s : System) (c : ℕ)
    → Reach (initial timing) s
    → reported c s.handler.reports ≤ calls c s.issued
unfolding balance
reported-le-calls timing s c r =
    omega (arith, (Reach-IsBalanced (initial-IsBalanced timing) r).accounted c)

balance-eq-reported :
    (c : ℕ) (h : Handler) → h.send_buffer ≡ empty_queue → balance c h ≡ reported c h.reports
unfolding balance pending weigh
balance-eq-reported c h e = rw e (omega arith)

weigh-nil : (w : QueuedCommand → ℕ) (xs : List QueuedCommand) → xs ≡ [] → weigh w xs ≡ 0
unfolding weigh
weigh-nil w xs e = rw e

send_buffer-finish_close : (now : ℕ) (h : Handler) → (finish_close now h).send_buffer ≡ empty_queue
send_buffer-finish_close now h = (finish_close-parts now h).0 ∙ (discard_queued-parts (closing h)).0

reported-finish_close :
    (c now : ℕ) (h : Handler) → reported c (finish_close now h).reports ≡ balance c h
reported-finish_close c now h = omega (
  arith,
  balance-finish_close c now h,
  balance-eq-reported c (finish_close now h) (send_buffer-finish_close now h),
)

-- When the handler has closed and no worker has a command in hand, every caller has had exactly
-- one callback for each of its commands, delivered or dropped, none left out.
pub reported-eq-calls :
    (timing : Timing) (s : System) (c now : ℕ)
    → Reach (initial timing) s
    → s.in_hand ≡ []
    → reported c (finish_close now s.handler).reports ≡ calls c s.issued
reported-eq-calls timing s c now r e =
    let b = Reach-IsBalanced (initial-IsBalanced timing) r in
    omega
      (arith, reported-finish_close c now s.handler, b.accounted c, weigh-nil (owed c) s.in_hand e)
