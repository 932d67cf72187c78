-- ===== src/Gateway/Listen/Watchdog.antt =====
-- gateway.py, `_check_idle`: two looks at one silence.
use my_home_stability.Prelude.{ℕ, ◌≡◌, true, Option, none, some, Bool, ltb}
use my_home_stability.Gateway.Handler.{Handler}

-- `h'` has the watch of `h`: its timing, its last frame, its last acknowledgement.
abbrev SameWatch : Handler → Handler → Type 0
SameWatch h h' =
    (h'.timing ≡ h.timing) × (h'.last_rx ≡ h.last_rx) × (h'.command_ack_at ≡ h.command_ack_at)

-- No acknowledgement, or none but one from before `sent`.
abbrev pub none_since : ℕ → Option ℕ → Bool
none_since sent none = true
none_since sent (some ack) = ltb ack sent
