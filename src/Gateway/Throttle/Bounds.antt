-- ===== src/Gateway/Throttle/Bounds.antt =====
-- gateway.py, `_LogThrottle`: the size of its map.
use my_home_stability.Prelude.{
  ℕ, suc, ◌+◌, ◌≤◌, ◌<◌, ◌≡◌, refl, ap, String, true, Option, none, some, List, [], ◌∷◌, arith,
  eq_refl, length, take, is_some,
}
use my_home_stability.Dict.{Dict, lookup, insert, erase, keys}
use my_home_stability.Gateway.Throttle.{
  LogThrottle, max_keys, or_zero, reset, reset_all, sort_insert_by, sorted_by, evict, emit,
  suppress, check_last, check,
}

-- No key is left of those that are erased, and no others are lost.
length-erase : (k : String) (d : Dict ℕ) → length (erase k d) ≤ length d
unfolding erase
length-erase k [] = omega arith
length-erase k ((j, v) ∷ d) = ground (arith, length-erase k d)

length-erase-some :
    (k : String) (d : Dict ℕ) → is_some (lookup k d) ≡ true → length (erase k d) < length d
unfolding erase lookup
length-erase-some k [] h = cc
length-erase-some k ((j, v) ∷ d) h = ground (arith, length-erase k d, length-erase-some k d)

length-insert-some :
    (k : String) (v : ℕ) (d : Dict ℕ)
    → is_some (lookup k d) ≡ true
    → length (insert k v d) ≡ length d
unfolding insert lookup
length-insert-some k v [] h = cc
length-insert-some k v ((j, w) ∷ d) h = ground (arith, length-insert-some k v d)

length-insert : (k : String) (v : ℕ) (d : Dict ℕ) → length (insert k v d) ≤ length d + 1
unfolding insert
length-insert k v [] = omega arith
length-insert k v ((j, w) ∷ d) = ground (arith, length-insert k v d)

length-reset_all :
    (ks : List String) (t : LogThrottle) → length (reset_all ks t).last ≤ length t.last
unfolding reset_all reset
length-reset_all [] t = omega arith
length-reset_all (k ∷ ks) t = omega (arith, length-reset_all ks (reset k t), length-erase k t.last)

-- every one of these is a key of the map
AllKeys : Dict ℕ → List String → Type 0
AllKeys d [] = Unit
AllKeys d (k ∷ ks) = (is_some (lookup k d) ≡ true) × AllKeys d ks

AllKeys-sort_insert_by :
    (d : Dict ℕ) (at : String → ℕ) (x : String) (ys : List String)
    → is_some (lookup x d) ≡ true
    → AllKeys d ys
    → AllKeys d (sort_insert_by at x ys)
unfolding AllKeys sort_insert_by
AllKeys-sort_insert_by d at x [] h a = (h, tt)
AllKeys-sort_insert_by d at x (y ∷ ys) h a =
    ground (arith, a, AllKeys-sort_insert_by d at x ys h a.1)

AllKeys-sorted_by :
    (d : Dict ℕ) (at : String → ℕ) (xs : List String) → AllKeys d xs → AllKeys d (sorted_by at xs)
unfolding AllKeys sorted_by
AllKeys-sorted_by d at [] a = tt
AllKeys-sorted_by d at (x ∷ xs) a =
    AllKeys-sort_insert_by d at x (sorted_by at xs) a.0 (AllKeys-sorted_by d at xs a.1)

AllKeys-cons :
    (j : String) (v : ℕ) (d : Dict ℕ) (ks : List String) → AllKeys d ks → AllKeys ((j, v) ∷ d) ks
unfolding AllKeys lookup
AllKeys-cons j v d [] a = tt
AllKeys-cons j v d (k ∷ ks) a = (ground (arith, a.0), AllKeys-cons j v d ks a.1)

AllKeys-keys : (d : Dict ℕ) → AllKeys d (keys d)
unfolding AllKeys keys lookup
AllKeys-keys [] = tt
AllKeys-keys ((k, v) ∷ d) =
    (ground (arith, eq_refl k), AllKeys-cons k v d (keys d) (AllKeys-keys d))

length-sort_insert_by :
    (at : String → ℕ) (x : String) (ys : List String)
    → length (sort_insert_by at x ys) ≡ suc (length ys)
unfolding sort_insert_by
length-sort_insert_by at x [] = refl
length-sort_insert_by at x (y ∷ ys) = ground (arith, length-sort_insert_by at x ys)

length-sorted_by : (at : String → ℕ) (xs : List String) → length (sorted_by at xs) ≡ length xs
unfolding sorted_by
length-sorted_by at [] = refl
length-sorted_by at (x ∷ xs) =
    omega (arith, length-sort_insert_by at x (sorted_by at xs), length-sorted_by at xs)

length-keys : (d : Dict ℕ) → length (keys d) ≡ length d
unfolding keys
length-keys [] = refl
length-keys ((k, v) ∷ d) = omega (arith, length-keys d)

-- Forgetting some of the keys, at least one, makes the map shorter.
reset_all-fewer :
    (n : ℕ) (ks : List String) (t : LogThrottle)
    → AllKeys t.last ks
    → 1 ≤ length ks
    → length (reset_all (take (suc n) ks) t).last < length t.last
unfolding reset_all reset AllKeys
reset_all-fewer n [] t a h = absurd (omega arith)
reset_all-fewer n (k ∷ ks) t a h =
    omega (arith, length-reset_all (take n ks) (reset k t), length-erase-some k t.last a.0)

evict-fewer : (t : LogThrottle) → 1 ≤ length t.last → length (evict t).last < length t.last
unfolding evict
evict-fewer t h =
    let at : String → ℕ = λ k. or_zero (lookup k t.last) in
    reset_all-fewer 63 (sorted_by at (keys t.last)) t
      (AllKeys-sorted_by t.last at (keys t.last) (AllKeys-keys t.last))
      (omega (arith, length-sorted_by at (keys t.last), length-keys t.last))

emit-bound :
    (key : String) (now : ℕ) (t : LogThrottle) → length (emit key now t).1.last ≤ length t.last + 1
unfolding emit
emit-bound key now t = length-insert key now t.last

emit-known :
    (key : String) (now : ℕ) (t : LogThrottle)
    → is_some (lookup key t.last) ≡ true
    → length (emit key now t).1.last ≡ length t.last
unfolding emit
emit-known key now t h = length-insert-some key now t.last h

check_last-bound :
    (key : String) (interval now : ℕ) (o : Option ℕ) (t : LogThrottle)
    → lookup key t.last ≡ o
    → length t.last ≤ max_keys
    → length (check_last key interval now o t).1.last ≤ max_keys
unfolding check_last suppress
check_last-bound key interval now none t e b =
    ground (arith, emit-bound key now t, emit-bound key now (evict t), evict-fewer t)
check_last-bound key interval now (some last) t e b =
    ground (arith, b, emit-known key now t (ap is_some e))

-- The map of the limiter never has more than `max_keys` keys, whatever keys it is asked about.
pub check-bound :
    (key : String) (interval now : ℕ) (t : LogThrottle)
    → length t.last ≤ max_keys
    → length (check key interval now t).1.last ≤ max_keys
unfolding check
check-bound key interval now t b = check_last-bound key interval now (lookup key t.last) t refl b
