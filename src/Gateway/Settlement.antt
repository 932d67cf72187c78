-- ===== src/Gateway/Settlement.antt =====
-- How often the callbacks of a command run: the count of reports against the frames still to be
-- settled, through every function of the command path.
pub mod Balance
pub mod Sends
pub mod Untouched
pub mod Delivery
pub mod Rounds
pub mod Life
use my_home_stability.Prelude.{
  ℕ, ◌+◌, ◌≡◌, refl, Bool, true, false, Option, none, some, List, [], ◌∷◌, ◌++◌, arith, ◌==◌,
  if◌then◌else◌, inl, inr, Option-cases,
}
use my_home_stability.Gateway.Command.{
  Report, delivered, dropped, QueuedCommand, queued_command, mark_delivered, mark_dropped,
}

abbrev pub is_for : ℕ → Option ℕ → ℕ
is_for c none = 0
is_for c (some d) = if d == c then 1 else 0

-- how many of these reports went to the caller `c`
unfoldable pub reported : ℕ → List Report → ℕ
reported c [] = 0
reported c (delivered d at ∷ rs) = is_for c (some d) + reported c rs
reported c (dropped d ∷ rs) = is_for c (some d) + reported c rs

-- 1 for a frame of the caller `c` that has not been settled
unfoldable pub owed : ℕ → QueuedCommand → ℕ
owed c item = if item.settled then 0 else is_for c item.on_dropped

abbrev same_caller : Option ℕ → Option ℕ → Bool
same_caller none none = true
same_caller (some a) (some b) = a == b
same_caller _ _ = false

-- 0 for a frame whose two callbacks belong to one caller, or that has neither
unfoldable pub mixed : QueuedCommand → ℕ
mixed item = if same_caller item.on_delivered item.on_dropped then 0 else 1

pub reported-append :
    (c : ℕ) (rs ss : List Report) → reported c (rs ++ ss) ≡ reported c rs + reported c ss
unfolding reported
reported-append c [] ss = omega arith
reported-append c (delivered d at ∷ rs) ss = omega (arith, reported-append c rs ss)
reported-append c (dropped d ∷ rs) ss = omega (arith, reported-append c rs ss)

pub reported-mark_dropped :
    (c : ℕ) (item : QueuedCommand) → reported c (mark_dropped item).1 ≡ owed c item
unfolding mark_dropped reported owed
reported-mark_dropped c item = ground arith

pub owed-mark_dropped : (c : ℕ) (item : QueuedCommand) → owed c (mark_dropped item).0 ≡ 0
unfolding mark_dropped owed
owed-mark_dropped c item = ground arith

same_caller_sound : (a b : Option ℕ) → same_caller a b ≡ true → a ≡ b
same_caller_sound none none e = refl
same_caller_sound (some a) (some b) e = ground arith
same_caller_sound _ _ e = cc

callers-eq : (item : QueuedCommand) → mixed item ≡ 0 → item.on_delivered ≡ item.on_dropped
unfolding mixed
callers-eq item h = same_caller_sound item.on_delivered item.on_dropped (ground arith)

pub reported-mark_delivered :
    (c at : ℕ) (item : QueuedCommand)
    → mixed item ≡ 0
    → reported c (mark_delivered at item).1 ≡ owed c item
unfolding mark_delivered reported owed
reported-mark_delivered c at item h = ground (arith, callers-eq item h)

pub owed-mark_delivered : (c at : ℕ) (item : QueuedCommand) → owed c (mark_delivered at item).0 ≡ 0
unfolding mark_delivered owed
owed-mark_delivered c at item = ground arith
