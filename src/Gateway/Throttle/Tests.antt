-- ===== src/Gateway/Throttle/Tests.antt =====
-- The limiter at a concrete burst.
use my_home_stability.Prelude.{◌≤◌, ◌≡◌, refl, true, [], ◌∷◌, arith, length}
use my_home_stability.Dict.{lookup}
use my_home_stability.Gateway.Throttle.{LogThrottle, max_keys, check, check_last, emit}
use my_home_stability.Gateway.Throttle.Bounds.{check-bound}
use my_home_stability.Gateway.Throttle.Burst.{run, check-burst}

abbrev fresh : LogThrottle
fresh = record { last = []; suppressed = [] }

check-bound_example : length (check "cmd-dropped" 60000 0 fresh).1.last ≤ max_keys
check-bound_example = check-bound "cmd-dropped" 60000 0 fresh (omega arith)

check-burst_example :
    (check "nack" 60000 70000
      (run "nack" 60000 (1000 ∷ 2000 ∷ []) (check "nack" 60000 500 fresh).1)).0
    ≡ (true, 2)
unfolding check check_last emit lookup
check-burst_example =
    check-burst "nack" 60000 500 70000 (1000 ∷ 2000 ∷ []) fresh (omega arith) refl
      (omega arith, (omega arith, tt)) (omega arith)
