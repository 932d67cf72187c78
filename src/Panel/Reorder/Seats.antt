-- ===== src/Panel/Reorder/Seats.antt =====
-- panel_write.py, `async_reorder`: the loop over the seats against a single pass.
use my_home_stability.Prelude.{
  ℕ, ◌⊎◌, Option, none, zero, suc, min, ◌≡◌, refl, sym, ap, ◌∙◌, String, Bool, true, false, not,
  List, [], ◌∷◌, ◌++◌, arith, length, insert_at, keep, if◌then◌else◌, length-append, Bool-cases,
  inl, inr, get_elem?, some,
}
use mathlib.Core.List.{append_assoc}
use my_home_stability.Panel.Reorder.{seats_from, insert_all}

-- Every place of the group takes the next of `ws`; all else stays where it is.
unfoldable pub fill : (String → Bool) → List String → List String → List String
fill p [] ws = []
fill p (x ∷ xs) [] = let rest = fill p xs [] in if p x then rest else x ∷ rest
fill p (x ∷ xs) (w ∷ ws) =
    let taken = w ∷ fill p xs ws in let kept = x ∷ fill p xs (w ∷ ws) in if p x then taken else kept

fill-nil : (p : String → Bool) (xs : List String) → fill p xs [] ≡ keep (λ x. not (p x)) xs
unfolding fill
fill-nil p [] = refl
fill-nil p (x ∷ xs) = ground (arith, fill-nil p xs)

insert_at-length {ℓ} :
    {A : Type ℓ} (pre rest : List A) (w : A)
    → insert_at (length pre) w (pre ++ rest) ≡ pre ++ w ∷ rest
insert_at-length [] rest w = refl
insert_at-length (x ∷ pre) rest w = ap (λ t. x ∷ t) (insert_at-length pre rest w)

min-length : (pre rest : List String) → min (length pre) (length (pre ++ rest)) ≡ length pre
min-length pre rest = omega (arith, length-append pre rest)

length-snoc : (pre : List String) (x : String) → length (pre ++ x ∷ []) ≡ suc (length pre)
length-snoc pre x = omega (arith, length-append pre (x ∷ []))

append-snoc :
    (pre : List String) (x : String) (ys : List String) → (pre ++ x ∷ []) ++ ys ≡ pre ++ x ∷ ys
append-snoc pre x ys = append_assoc pre (x ∷ []) ys

insert_all-nil : (ks : List ℕ) (xs : List String) → insert_all ks [] xs ≡ xs
unfolding insert_all
insert_all-nil [] xs = refl
insert_all-nil (k ∷ ks) xs = refl

-- The loop, from the place after `pre` on.
insert_all-fill :
    (p : String → Bool) (xs ws pre : List String)
    → insert_all (seats_from (length pre) p xs) ws (pre ++ keep (λ x. not (p x)) xs)
      ≡ pre ++ fill p xs ws
unfolding insert_all seats_from fill
insert_all-fill p [] ws pre = refl
insert_all-fill p (x ∷ xs) [] pre =
    insert_all-nil (seats_from (length pre) p (x ∷ xs)) _
    ∙ ap (λ t. pre ++ t) (sym (fill-nil p (x ∷ xs)))
insert_all-fill p (x ∷ xs) (w ∷ ws) pre =
    let rest = keep (λ x. not (p x)) xs in
    let took : insert_all (seats_from (suc (length pre)) p xs) ws
          (insert_at (min (length pre) (length (pre ++ rest))) w (pre ++ rest))
        ≡ pre ++ w ∷ fill p xs ws =
      rw (min-length pre rest, insert_at-length pre rest w)
        (let ih = insert_all-fill p xs ws (pre ++ w ∷ []) in
          rw (length-snoc pre w, append-snoc pre w rest, append-snoc pre w (fill p xs ws)) at ih) in
    let left : insert_all (seats_from (suc (length pre)) p xs) (w ∷ ws) (pre ++ x ∷ rest)
        ≡ pre ++ x ∷ fill p xs (w ∷ ws) =
      let ih = insert_all-fill p xs (w ∷ ws) (pre ++ x ∷ []) in
      rw (length-snoc pre x, append-snoc pre x rest, append-snoc pre x (fill p xs (w ∷ ws))) at
        ih in
    elim (Bool-cases (p x)) [ inl e ↦ rw e took | inr e ↦ rw e left ]

-- The loop of the source is that pass.
pub insert_all-eq :
    (p : String → Bool) (xs ws : List String)
    → insert_all (seats_from 0 p xs) ws (keep (λ x. not (p x)) xs) ≡ fill p xs ws
insert_all-eq p xs ws = insert_all-fill p xs ws []

-- all of these are accepted by `p`
abbrev pub AllOf : (String → Bool) → List String → Type 0
AllOf p [] = Unit
AllOf p (w ∷ ws) = (p w ≡ true) × AllOf p ws

-- The members of the group come in the order of `ws`.
pub keep-fill :
    (p : String → Bool) (xs ws : List String)
    → AllOf p ws
    → length ws ≡ length (keep p xs)
    → keep p (fill p xs ws) ≡ ws
unfolding fill
keep-fill p [] [] a h = refl
keep-fill p [] (w ∷ ws) a h = absurd (omega arith)
keep-fill p (x ∷ xs) [] a h = ground (arith, keep-fill p xs [] tt)
keep-fill p (x ∷ xs) (w ∷ ws) a h =
    ground (arith, keep-fill p xs ws a.1, keep-fill p xs (w ∷ ws) a, a.0)

-- the place holds one that `p` accepts
abbrev pub holds : (String → Bool) → Option String → Bool
holds p none = false
holds p (some x) = p x

-- Each place is a place of the group, or holds what it held.
pub get_elem?-fill :
    (p : String → Bool) (xs ws : List String) (i : ℕ)
    → length ws ≡ length (keep p xs)
    → (holds p (get_elem? xs i) ≡ true) ⊎ (get_elem? (fill p xs ws) i ≡ get_elem? xs i)
unfolding fill
get_elem?-fill p [] ws i h = inr refl
get_elem?-fill p (x ∷ xs) [] zero h = ground arith
get_elem?-fill p (x ∷ xs) [] (suc i) h = elim (Bool-cases (p x)) [
  | inl e ↦ absurd (ground arith)
  | inr e ↦ rw e (get_elem?-fill p xs [] i (ground arith))
]
get_elem?-fill p (x ∷ xs) (w ∷ ws) zero h = ground arith
get_elem?-fill p (x ∷ xs) (w ∷ ws) (suc i) h = elim (Bool-cases (p x)) [
  | inl e ↦ rw e (get_elem?-fill p xs ws i (ground arith))
  | inr e ↦ rw e (get_elem?-fill p xs (w ∷ ws) i (ground arith))
]
