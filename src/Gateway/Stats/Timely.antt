-- ===== src/Gateway/Stats/Timely.antt =====
-- gateway.py, `_publish_stats`: when a snapshot goes out.
use my_home_stability.Prelude.{
  ℕ, ◌+◌, ◌-◌, ◌≤◌, ◌≡◌, ◌⊎◌, refl, Bool, true, false, not, ◌&&◌, Option, none, some, ◌∷◌, arith,
  if◌then◌else◌, is_some, inl, inr, Bool-cases,
}
use my_home_stability.Gateway.Stats.{
  Signals, schedule_stats_flush, cancel_stats_flush, too_soon, since, publish_stats,
}

-- the flush is due within the interval after the last publication
abbrev pub DueBy : ℕ → Option ℕ → Option ℕ → Type 0
DueBy interval last none = Unit
DueBy interval none (some due) = ⊥
DueBy interval (some last) (some due) = due ≤ last + interval

abbrev pub IsTimely : ℕ → Signals → Type 0
IsTimely interval s = DueBy interval s.last_stats_publish s.stats_timer

-- A snapshot that comes too soon waits for the timer, and one that does not goes out.
publish-soon :
    (interval now : ℕ) (s : Signals)
    → too_soon interval now s.last_stats_publish ≡ true
    → publish_stats interval now false s
      ≡ schedule_stats_flush now (interval - since now s.last_stats_publish) s
unfolding publish_stats
publish-soon interval now s e = simp e

publish-now :
    (interval now : ℕ) (immediate : Bool) (s : Signals)
    → (not immediate && too_soon interval now s.last_stats_publish) ≡ false
    → publish_stats interval now immediate s ≡ record s {
      stats_timer = none;
      last_stats_publish = some now;
      published = s.stats ∷ s.published;
    }
unfolding publish_stats cancel_stats_flush
publish-now interval now immediate s e = simp e

schedule-Due :
    (interval now : ℕ) (last timer : Option ℕ)
    → too_soon interval now last ≡ true
    → DueBy interval last timer
    → DueBy interval last
        (if is_some timer then timer else some (now + (interval - since now last)))
schedule-Due interval now none timer e d = cc
schedule-Due interval now (some last) (some due) e d = d
schedule-Due interval now (some last) none e d = ground arith

-- what is left by scheduling: the timer, and nothing else, may have changed
schedule-parts :
    (now delay : ℕ) (s : Signals)
    → let t = schedule_stats_flush now delay s in
      (t.published ≡ s.published)
      × (t.last_stats_publish ≡ s.last_stats_publish)
      × (t.stats_timer ≡ (if is_some s.stats_timer then s.stats_timer else some (now + delay)))
      × (is_some t.stats_timer ≡ true)
unfolding schedule_stats_flush
schedule-parts now delay s = elim (Bool-cases (is_some s.stats_timer)) [
  | inl e ↦ rw e (refl, refl, refl, e)
  | inr e ↦ rw e (refl, refl, refl, refl)
]

-- Whether the interval has passed or not, a snapshot to be published either goes out at once, with
-- no flush left pending, or comes too soon and has a flush pending. A pending flush is due within
-- the interval after the last publication, before the call and after it.
pub publish_stats-IsTimely :
    (interval now : ℕ) (immediate : Bool) (s : Signals)
    → IsTimely interval s
    → let t = publish_stats interval now immediate s in
      IsTimely interval t
      × ((t.published ≡ s.stats ∷ s.published)
            × (t.last_stats_publish ≡ some now)
            × (t.stats_timer ≡ none)
          ⊎ (t.published ≡ s.published)
            × (is_some t.stats_timer ≡ true)
            × (too_soon interval now s.last_stats_publish ≡ true))
publish_stats-IsTimely interval now true s d =
    rw (publish-now interval now true s refl) (tt, inl (refl, refl, refl))
publish_stats-IsTimely interval now false s d =
    elim (Bool-cases (too_soon interval now s.last_stats_publish)) [
      | inr e ↦ rw (publish-now interval now false s e) (tt, inl (refl, refl, refl))
      | inl e ↦ rw (publish-soon interval now s e) (
          let (p, l, q, some_timer) =
            schedule-parts now (interval - since now s.last_stats_publish) s in
          (
            rw (l, q) (schedule-Due interval now s.last_stats_publish s.stats_timer e d),
            inr (p, some_timer, e),
          ))
    ]
