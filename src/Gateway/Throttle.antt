-- ===== src/Gateway/Throttle.antt =====
-- gateway.py, `_LogThrottle`: the per-key limiter of repeated log lines.
-- Instants are numbers of milliseconds; the interval 0 stands for none, as it does in the source.
pub mod Bounds
pub mod Burst
mod Tests
use my_home_stability.Prelude.{
  ℕ, ◌+◌, ◌-◌, ◌/◌, String, Bool, true, false, not, ◌&&◌, Option, none, some, List, [], ◌∷◌, ltb,
  leb, length, take, if◌then◌else◌,
}
use my_home_stability.Dict.{Dict, lookup, insert, erase, keys}

pub record LogThrottle : Type 0 where
  pub last : Dict ℕ
  pub suppressed : Dict ℕ

abbrev pub max_keys : ℕ
max_keys = 256

-- `dict.get(key, 0)`
or_zero : Option ℕ → ℕ
or_zero none = 0
or_zero (some n) = n

-- `reset`
unfoldable pub reset : String → LogThrottle → LogThrottle
reset key t = record { last = erase key t.last; suppressed = erase key t.suppressed }

unfoldable pub reset_all : List String → LogThrottle → LogThrottle
unfolding reset
reset_all [] t = t
reset_all (key ∷ rest) t = reset_all rest (reset key t)

-- `sorted(self._last, key=self._last.get)`, which leaves equal instants in their order
unfoldable pub sort_insert_by : (String → ℕ) → String → List String → List String
sort_insert_by at x [] = x ∷ []
sort_insert_by at x (y ∷ ys) =
    let later = y ∷ sort_insert_by at x ys in if leb (at x) (at y) then x ∷ (y ∷ ys) else later

unfoldable pub sorted_by : (String → ℕ) → List String → List String
sorted_by at [] = []
sorted_by at (x ∷ xs) = sort_insert_by at x (sorted_by at xs)

unfoldable pub evict : LogThrottle → LogThrottle
unfolding or_zero reset_all
evict t =
    reset_all (take (max_keys / 4) (sorted_by (λ k. or_zero (lookup k t.last)) (keys t.last))) t

-- the line is logged, with the number of lines that were suppressed before it
unfoldable pub emit : String → ℕ → LogThrottle → (Bool × ℕ) × LogThrottle
unfolding or_zero
emit key now t = (
  (true, or_zero (lookup key t.suppressed)),
  record { last = insert key now t.last; suppressed = erase key t.suppressed },
)

unfoldable pub suppress : String → LogThrottle → (Bool × ℕ) × LogThrottle
unfolding or_zero
suppress key t = (
  (false, 0),
  record t { suppressed = insert key (or_zero (lookup key t.suppressed) + 1) t.suppressed },
)

-- the clause by clause of `check`, on `self._last.get(key)`
unfoldable pub check_last : String → ℕ → ℕ → Option ℕ → LogThrottle → (Bool × ℕ) × LogThrottle
unfolding emit suppress evict
check_last key interval now none t =
    emit key now (if leb max_keys (length t.last) then evict t else t)
check_last key interval now (some last) t =
    if ltb 0 interval && ltb (now - last) interval then suppress key t else emit key now t

-- `check`
unfoldable pub check : String → ℕ → ℕ → LogThrottle → (Bool × ℕ) × LogThrottle
unfolding check_last
check key interval now t = check_last key interval now (lookup key t.last) t
