-- ===== src/Gateway/Throttle/Burst.antt =====
-- gateway.py, `_LogThrottle`: one line that comes again and again.
use my_home_stability.Prelude.{
  ℕ, ◌+◌, ◌-◌, ◌≤◌, ◌<◌, ◌≡◌, ◌∙◌, String, true, ◌&&◌, Option, none, some, List, [], ◌∷◌, arith,
  eq_refl, ltb, length, Bool-cases, inl, inr,
}
use my_home_stability.Dict.{lookup, lookup-insert, lookup-erase}
use my_home_stability.Gateway.Throttle.{LogThrottle, or_zero, emit, suppress, check_last, check}

-- the limiter after this line has come at each of these instants
unfoldable pub run : String → ℕ → List ℕ → LogThrottle → LogThrottle
run key interval [] t = t
run key interval (now ∷ rest) t = run key interval rest (check key interval now t).1

-- all of these instants are less than the interval after `start`
abbrev pub AllWithin : ℕ → ℕ → List ℕ → Type 0
AllWithin start interval [] = Unit
AllWithin start interval (now ∷ rest) = (now - start < interval) × AllWithin start interval rest

-- the line was logged at `start`, and `n` more were suppressed since
abbrev Since : String → ℕ → ℕ → LogThrottle → Type 0
Since key start n t = (lookup key t.last ≡ some start) × (or_zero (lookup key t.suppressed) ≡ n)

emit-Since : (key : String) (now : ℕ) (t : LogThrottle) → Since key now 0 (emit key now t).1
unfolding emit or_zero
emit-Since key now t = (rw lookup-insert (rw eq_refl), rw lookup-erase (rw eq_refl))

suppress-Since :
    (key : String) (start n : ℕ) (t : LogThrottle)
    → Since key start n t
    → Since key start (n + 1) (suppress key t).1
unfolding suppress or_zero
suppress-Since key start n t (l, s) = (l, rw lookup-insert (rw (eq_refl, s)))

check_last-logged :
    (key : String) (interval now : ℕ) (o : Option ℕ) (t : LogThrottle)
    → (check_last key interval now o t).0.0 ≡ true
    → Since key now 0 (check_last key interval now o t).1
unfolding check_last suppress
check_last-logged key interval now none t h = emit-Since key now _
check_last-logged key interval now (some last) t h =
    elim (Bool-cases (ltb 0 interval && ltb (now - last) interval)) [
      | inl e ↦ absurd (ground (arith, h, e))
      | inr e ↦ rw e (emit-Since key now t)
    ]

check-within :
    (key : String) (interval now start n : ℕ) (t : LogThrottle)
    → 0 < interval
    → now - start < interval
    → Since key start n t
    → (check key interval now t).1 ≡ (suppress key t).1
unfolding check check_last
check-within key interval now start n t p w (l, s) = rw l (ground arith)

run-Since :
    (key : String) (interval start n : ℕ) (ts : List ℕ) (t : LogThrottle)
    → 0 < interval
    → AllWithin start interval ts
    → Since key start n t
    → Since key start (n + length ts) (run key interval ts t)
unfolding run
run-Since key interval start n [] t p a s = (s.0, s.1 ∙ omega arith)
run-Since key interval start n (now ∷ ts) t p a s =
    let (l, c) =
      run-Since key interval start (n + 1) ts (check key interval now t).1 p a.1
        (rw (check-within key interval now start n t p a.0 s) (suppress-Since key start n t s)) in
    (l, c ∙ omega arith)

check-after :
    (key : String) (interval later start n : ℕ) (t : LogThrottle)
    → interval ≤ later - start
    → Since key start n t
    → (check key interval later t).0 ≡ (true, n)
unfolding check check_last emit
check-after key interval later start n t w (l, s) = rw l (ground (arith, s))

-- Of a line that comes again and again, the limiter logs the first, suppresses those that follow it
-- in less than the interval, and with the next line after that says how many it has suppressed.
pub check-burst :
    (key : String) (interval start later : ℕ) (ts : List ℕ) (t : LogThrottle)
    → 0 < interval
    → (check key interval start t).0.0 ≡ true
    → AllWithin start interval ts
    → interval ≤ later - start
    → (check key interval later (run key interval ts (check key interval start t).1)).0
      ≡ (true, length ts)
check-burst key interval start later ts t p h a w =
    let first = (check key interval start t).1 in
    let (l, c) =
      run-Since key interval start 0 ts first p a
        (unfold check in check_last-logged key interval start (lookup key t.last) t h) in
    check-after key interval later start (length ts) (run key interval ts first) w
      (l, c ∙ omega arith)
