-- ===== src/Gateway/Listen/Loop.antt =====
-- gateway.py, `listening_loop`: what its rounds keep.
use my_home_stability.Prelude.{
  ℕ, ◌≤◌, ◌≡◌, refl, ap, subst, ◌∙◌, String, Bool, true, false, not, ◌&&◌, ◌||◌, Option, none, some,
  arith,
}
use my_home_stability.Gateway.Command.{Message, QueuedCommand, queued_command}
use my_home_stability.Gateway.Queue.{CommandQueue, put_nowait}
use my_home_stability.Gateway.Stats.{connecting}
use my_home_stability.Gateway.Handler.{
  Timing, Handler, set_connected, set_session_state, refresh_stats, record_frame,
  handle_auth_failure, discard_queued, give_up,
}
use my_home_stability.Gateway.Send.{send_status_request, enqueue, enqueue_open}
use my_home_stability.Gateway.Worker.{Failure}
use my_home_stability.Gateway.Listen.{
  send_probe, await_probe, probe_or_wait, check_idle, Read, silent, nothing, parsed, ignored,
  broken, Round, Listener, end_listener, lose_session, wait_or_end, listen_on, listen_unless,
  on_event_failure, alive, heard, after_dispatch, after_watchdog, on_read, note_event_session,
  open_and_read, listening_round,
}

-- The loop's own session is there whenever the gateway counts as connected, its wait is bounded, and
-- once it has ended nothing is left open and the gateway counts as disconnected.
pub record IsHonest (l : Listener) (h : Handler) : Type 0 where
  pub connected : (h.is_connected && not l.session) ≡ false
  pub bounded : l.backoff ≤ h.timing.max_backoff
  pub ended : (not l.running && (h.is_connected || (h.event_session || l.session))) ≡ false

-- `h'` counts as connected where `h` does, and has its timing.
abbrev SameLink : Handler → Handler → Type 0
SameLink h h' = (h'.is_connected ≡ h.is_connected) × (h'.timing ≡ h.timing)

enqueue_open-SameLink :
    (now : ℕ) (item : QueuedCommand) (h : Handler) (o : Option CommandQueue)
    → SameLink h (enqueue_open now item h o).0
unfolding enqueue_open give_up refresh_stats
enqueue_open-SameLink now item h none = (refl, refl)
enqueue_open-SameLink now item h (some q) = (refl, refl)

send_status_request-SameLink :
    (now : ℕ) (m : Message) (h : Handler) → SameLink h (send_status_request now m none none h).0
unfolding send_status_request enqueue give_up refresh_stats
send_status_request-SameLink now m h =
    let item = queued_command m true now none none in
    ground (arith, enqueue_open-SameLink now item h (put_nowait h.send_buffer item))

probe_or_wait-SameLink :
    (now : ℕ) (m : Message) (o : Option ℕ) (h : Handler) → SameLink h (probe_or_wait now m o h).0
unfolding probe_or_wait send_probe await_probe
probe_or_wait-SameLink now m none h = ground (arith, send_status_request-SameLink now m h)
probe_or_wait-SameLink now m (some sent) h = ground arith

check_idle-SameLink : (now : ℕ) (m : Message) (h : Handler) → SameLink h (check_idle now m h).0
unfolding check_idle
check_idle-SameLink now m h = ground (arith, probe_or_wait-SameLink now m h.probe_sent_at h)

heard-SameLink : (now : ℕ) (frame : String) (h : Handler) → SameLink h (heard now frame h)
unfolding heard refresh_stats record_frame
heard-SameLink now frame h = (refl, refl)

set_session_state-SameLink :
    (now : ℕ) (h : Handler) → SameLink h (set_session_state now connecting h)
unfolding set_session_state refresh_stats
set_session_state-SameLink now h = ground arith

handle_auth_failure-timing : (now : ℕ) (h : Handler) → (handle_auth_failure now h).timing ≡ h.timing
unfolding handle_auth_failure set_connected refresh_stats discard_queued
handle_auth_failure-timing now h = ground arith

-- What a round is claimed to leave, against the timing it found.
Leaves : Timing → Listener × Handler → Type 0
Leaves timing (l, h) = IsHonest l h × (h.timing ≡ timing)

end_listener-Leaves :
    (now : ℕ) (l : Listener) (h : Handler)
    → l.backoff ≤ h.timing.max_backoff
    → Leaves h.timing (end_listener now l h)
unfolding Leaves end_listener set_connected refresh_stats
end_listener-Leaves now l h b = (record { connected = refl; bounded = b; ended = refl }, refl)

-- A running loop with its session is honest whatever the gateway counts as.
running-IsHonest :
    (l : Listener) (h : Handler)
    → l.session ≡ true
    → l.running ≡ true
    → l.backoff ≤ h.timing.max_backoff
    → IsHonest l h
running-IsHonest l h s r b = record {
  connected = ground (arith, s);
  bounded = b;
  ended = ground (arith, r);
}

module _ (timing : Timing) (initial : timing.initial_backoff ≤ timing.max_backoff) where
  -- the wait of the loop is bounded, by the timing that the handler has
  Fits : Listener → Handler → Type 0
  Fits l h = (h.timing ≡ timing) × (l.backoff ≤ timing.max_backoff)

  ended-Leaves :
      (now : ℕ) (l : Listener) (h : Handler) → Fits l h → Leaves timing (end_listener now l h)
  unfolding Fits
  ended-Leaves now l h (t, b) =
      subst (λ x. Leaves x (end_listener now l h)) t (end_listener-Leaves now l h (rw t b))

  wait_or_end-Leaves :
      (now : ℕ) (l : Listener) (h : Handler) (stop : Bool)
      → Fits l h
      → h.is_connected ≡ false
      → h.event_session ≡ false
      → l.session ≡ false
      → Leaves timing (wait_or_end now l h stop)
  unfolding wait_or_end
  wait_or_end-Leaves now l h true f c e s = ended-Leaves now l h f
  wait_or_end-Leaves now l h false f c e s =
      unfold Leaves Fits in
      (
        record {
          connected = ground (arith, c);
          bounded = omega (arith, ap (λ t. t.max_backoff) (f.0));
          ended = ground (arith, c, e, s);
        },
        f.0,
      )

  lose_session-Leaves :
      (now : ℕ) (l : Listener) (h : Handler) → Fits l h → Leaves timing (lose_session now l h)
  unfolding lose_session set_connected refresh_stats Fits
  lose_session-Leaves now l h f =
      let h' : Handler = record (set_connected now false none h) { event_session = false } in
      wait_or_end-Leaves now (record l { session = false }) h' h'.stop_event_listener f refl refl
        refl

  on_event_failure-Leaves :
      (now : ℕ) (l : Listener) (h : Handler) (e : Failure)
      → Fits l h
      → Leaves timing (on_event_failure now l h e)
  unfolding on_event_failure Fits
  on_event_failure-Leaves now l h Failure.rejected f =
      ended-Leaves now (record l { session = false })
        (handle_auth_failure now (record h { event_session = false }))
        (handle_auth_failure-timing now (record h { event_session = false }) ∙ f.0, f.1)
  on_event_failure-Leaves now l h Failure.transport f = lose_session-Leaves now l h f
  on_event_failure-Leaves now l h Failure.unexpected f = lose_session-Leaves now l h f
  on_event_failure-Leaves now l h Failure.cancelled f = ended-Leaves now l h f

  -- A round that goes on with its session.
  kept-Leaves :
      (l : Listener) (h : Handler)
      → Fits l h
      → l.session ≡ true
      → l.running ≡ true
      → Leaves timing (l, h)
  unfolding Leaves Fits
  kept-Leaves l h (t, b) s r =
      (running-IsHonest l h s r (omega (arith, b, ap (λ x. x.max_backoff) t)), t)

  after_dispatch-Leaves :
      (now : ℕ) (l : Listener) (h : Handler) (o : Option Failure)
      → Fits l h
      → l.session ≡ true
      → l.running ≡ true
      → Leaves timing (after_dispatch now l h o)
  unfolding after_dispatch
  after_dispatch-Leaves now l h none f s r = kept-Leaves l h f s r
  after_dispatch-Leaves now l h (some e) f s r = on_event_failure-Leaves now l h e f

  after_watchdog-Leaves :
      (now : ℕ) (l : Listener) (h : Handler) (lost : Bool)
      → Fits l h
      → l.session ≡ true
      → l.running ≡ true
      → Leaves timing (after_watchdog now l (h, lost))
  unfolding after_watchdog
  after_watchdog-Leaves now l h true f s r = on_event_failure-Leaves now l h Failure.transport f
  after_watchdog-Leaves now l h false f s r = kept-Leaves l h f s r

  alive-Fits : (l : Listener) (h h' : Handler) → Fits l h → SameLink h h' → Fits (alive h l) h'
  unfolding Fits alive
  alive-Fits l h h' (t, b) k = (k.1 ∙ t, omega (arith, initial, ap (λ x. x.initial_backoff) t))

  on_read-Leaves :
      (now : ℕ) (probe : Message) (l : Listener) (h : Handler) (read : Read)
      → Fits l h
      → l.session ≡ true
      → l.running ≡ true
      → Leaves timing (on_read now probe l h read)
  unfolding on_read
  on_read-Leaves now probe l h silent f s r =
      after_watchdog-Leaves now (alive h l) (check_idle now probe h).0 (check_idle now probe h).1
        (alive-Fits l h _ f (check_idle-SameLink now probe h)) s r
  on_read-Leaves now probe l h nothing f s r = on_event_failure-Leaves now l h Failure.transport f
  on_read-Leaves now probe l h (ignored frame) f s r =
      kept-Leaves (alive h l) (heard now frame h) (alive-Fits l h _ f (heard-SameLink now frame h))
        s r
  on_read-Leaves now probe l h (parsed frame o) f s r =
      after_dispatch-Leaves now (alive h l) (heard now frame h) o
        (alive-Fits l h _ f (heard-SameLink now frame h)) s r
  on_read-Leaves now probe l h (broken e) f s r = on_event_failure-Leaves now l h e f

  open_and_read-Leaves :
      (r : Round) (l : Listener) (h : Handler) (o : Option Failure)
      → Fits l h
      → l.running ≡ true
      → Leaves timing (open_and_read r l h o)
  unfolding open_and_read note_event_session set_connected refresh_stats Fits
  open_and_read-Leaves r l h (some e) f g =
      on_event_failure-Leaves r.opened_at (record l { session = true }) h e f
  open_and_read-Leaves r l h none f g =
      on_read-Leaves r.read_at r.probe (record l { session = true })
        (note_event_session r.opened_at h) r.read f refl g

  listen_on-Leaves :
      (r : Round) (l : Listener) (h : Handler) (b : Bool)
      → l.session ≡ b
      → Fits l h
      → l.running ≡ true
      → Leaves timing (listen_on r l h b)
  unfolding listen_on Fits
  listen_on-Leaves r l h true s f g = on_read-Leaves r.read_at r.probe l h r.read f s g
  listen_on-Leaves r l h false s (t, b) g =
      open_and_read-Leaves r l (set_session_state r.opened_at connecting h) r.opening
        ((set_session_state-SameLink r.opened_at h).1 ∙ t, b) g

  listen_unless-Leaves :
      (r : Round) (l : Listener) (h : Handler) (stop : Bool)
      → Fits l h
      → l.running ≡ true
      → Leaves timing (listen_unless r l h stop)
  unfolding listen_unless
  listen_unless-Leaves r l h true f g = ended-Leaves r.opened_at l h f
  listen_unless-Leaves r l h false f g = listen_on-Leaves r l h l.session refl f g

-- Every round of the listening loop, whatever the gateway does in it, leaves the loop honest: the
-- gateway counts as connected only while the loop has its session, the wait before the next try is
-- at most the longest one of the timing, and a loop that has ended has left the gateway counted as
-- disconnected and no event session behind.
pub listening_round-IsHonest :
    (r : Round) (l : Listener) (h : Handler)
    → h.timing.initial_backoff ≤ h.timing.max_backoff
    → l.running ≡ true
    → IsHonest l h
    → let (l', h') = listening_round r l h in IsHonest l' h' × (h'.timing ≡ h.timing)
unfolding listening_round Fits Leaves
listening_round-IsHonest r l h i g b =
    listen_unless-Leaves h.timing i r l h h.stop_event_listener (refl, b.bounded) g
