-- ===== src/Store/Unique.antt =====
-- Lists of ids in which none comes twice: `normalised_order` gives one, `ordered` keeps it so, and
-- such a list has no more members of another than the other is long.
use my_home_stability.Prelude.{
  ◌+◌, ◌≤◌, ◌≡◌, refl, sym, ap, eq_refl, subst, String, Bool, true, false, not, ◌&&◌, ◌||◌, List,
  [], ◌∷◌, ◌++◌, arith, str_eq, eq_iff, length, keep, Bool-cases, inl, inr,
}
use my_home_stability.Store.Record.{Value, null, flag, number, text, mapping, block}
use my_home_stability.Store.State.{Store, member, normalised_from, normalised_order, ordered}

abbrev pub Unique : List String → Type 0
Unique [] = Unit
Unique (x ∷ xs) = (member x xs ≡ false) × Unique xs

pub member-keep :
    (f : String → Bool) (x : String) (ys : List String)
    → member x (keep f ys) ≡ (member x ys && f x)
unfolding member
member-keep f x [] = refl
member-keep f x (y ∷ ys) =
    let same : str_eq y x ≡ true → f y ≡ f x = λ e. ap f ((eq_iff y x).0 e) in
    ground (arith, same, member-keep f x ys)

pub member-append :
    (x : String) (ys zs : List String) → member x (ys ++ zs) ≡ (member x ys || member x zs)
unfolding member
member-append x [] zs = refl
member-append x (y ∷ ys) zs = ground (arith, member-append x ys zs)

pub keep-Unique : (f : String → Bool) (xs : List String) → Unique xs → Unique (keep f xs)
keep-Unique f [] u = tt
keep-Unique f (x ∷ xs) u = ground (arith, keep-Unique f xs u.1, member-keep f x xs)

append-Unique :
    (xs ys : List String)
    → Unique xs
    → Unique ys
    → ((z : String) → member z xs ≡ true → member z ys ≡ false)
    → Unique (xs ++ ys)
unfolding member
append-Unique [] ys u v d = v
append-Unique (x ∷ xs) ys u v d =
    let rest = append-Unique xs ys u.1 v (λ z m. d z (ground (arith, m))) in
    let here : member x ys ≡ false = d x (ground (arith, eq_refl x)) in
    (ground (arith, here, member-append x xs ys, u.0), rest)

-- `seen` and `out` have no member in common.
Apart : List String → List String → Type 0
Apart seen out = (z : String) → (member z seen && member z out) ≡ false

-- One more id before those that are apart from it and from `seen`.
cons-Apart :
    (item : String) (seen out : List String)
    → member item seen ≡ false
    → Apart (item ∷ seen) out
    → Apart seen (item ∷ out)
unfolding Apart member
cons-Apart item seen out fresh a z =
    let same : str_eq item z ≡ true → member item seen ≡ member z seen =
      λ e. ap (λ t. member t seen) ((eq_iff item z).0 e) in
    ground (arith, same, a z, fresh)

head-Apart :
    (item : String) (seen out : List String) → Apart (item ∷ seen) out → member item out ≡ false
unfolding Apart member
head-Apart item seen out a = ground (arith, a item, eq_refl item)

-- What is left of a list of values has none of those already seen, and none twice.
normalised_from-Unique :
    (seen : List String) (vs : List Value)
    → Unique (normalised_from seen vs) × Apart seen (normalised_from seen vs)
unfolding normalised_from member Apart
normalised_from-Unique seen [] = (tt, λ z. ground arith)
normalised_from-Unique seen (text item ∷ rest) =
    let (u, a) = normalised_from-Unique (item ∷ seen) rest in
    elim (Bool-cases (str_eq item "" || member item seen)) [
      | inl e ↦ rw e (normalised_from-Unique seen rest)
      | inr e ↦ rw e (
        (head-Apart item seen (normalised_from (item ∷ seen) rest) a, u),
        cons-Apart item seen (normalised_from (item ∷ seen) rest) (ground (arith, e)) a,
      )
    ]
normalised_from-Unique seen (null ∷ rest) = normalised_from-Unique seen rest
normalised_from-Unique seen (flag _ ∷ rest) = normalised_from-Unique seen rest
normalised_from-Unique seen (number _ ∷ rest) = normalised_from-Unique seen rest
normalised_from-Unique seen (mapping _ ∷ rest) = normalised_from-Unique seen rest
normalised_from-Unique seen (block _ ∷ rest) = normalised_from-Unique seen rest

-- A normalised order names no cover twice.
pub normalised_order-Unique : (vs : List Value) → Unique (normalised_order vs)
unfolding normalised_order
normalised_order-Unique vs = (normalised_from-Unique [] vs).0

no_member_of_both :
    (first known : List String) (z : String)
    → member z first ≡ true
    → member z (keep (λ id. not (member id first)) known) ≡ false
no_member_of_both first known z m =
    ground (arith, member-keep (λ id. not (member id first)) z known, m)

-- The order of the covers that exist names each of them once.
pub ordered-Unique :
    (s : Store) (known : List String) → Unique s.order → Unique known → Unique (ordered s known)
unfolding ordered
ordered-Unique s known u v =
    let first = keep (λ id. member id known) s.order in
    append-Unique first (keep (λ id. not (member id first)) known)
      (keep-Unique (λ id. member id known) s.order u)
      (keep-Unique (λ id. not (member id first)) known v) (no_member_of_both first known)

-- It names every cover that exists.
pub member-ordered :
    (s : Store) (known : List String) (z : String)
    → member z known ≡ true
    → member z (ordered s known) ≡ true
unfolding ordered
member-ordered s known z m =
    let first = keep (λ id. member id known) s.order in
    ground (
      arith,
      m,
      member-append z first (keep (λ id. not (member id first)) known),
      member-keep (λ id. not (member id first)) z known,
    )

-- And no other.
pub ordered-member :
    (s : Store) (known : List String) (z : String) → member z (ordered s known) ≡ member z known
unfolding ordered
ordered-member s known z =
    let first = keep (λ id. member id known) s.order in
    ground (
      arith,
      member-append z first (keep (λ id. not (member id first)) known),
      member-keep (λ id. not (member id first)) z known,
      member-keep (λ id. member id known) z s.order,
    )

keep_none : (w : String) (xs : List String) → member w xs ≡ false → length (keep (str_eq w) xs) ≡ 0
unfolding member
keep_none w [] m = refl
keep_none w (x ∷ xs) m = ground (arith, eq_iff w x, eq_iff x w, keep_none w xs)

keep_one : (w : String) (xs : List String) → Unique xs → length (keep (str_eq w) xs) ≤ 1
keep_one w [] u = omega arith
keep_one w (x ∷ xs) u =
    let same : str_eq w x ≡ true → member w xs ≡ false =
      λ e. subst (λ t. member t xs ≡ false) (sym ((eq_iff w x).0 e)) u.0 in
    ground (arith, same, keep_one w xs u.1, keep_none w xs)

keep_or :
    (f g h : String → Bool) (xs : List String)
    → ((x : String) → h x ≡ (f x || g x))
    → length (keep h xs) ≤ length (keep f xs) + length (keep g xs)
keep_or f g h [] e = omega arith
keep_or f g h (x ∷ xs) e = ground (arith, e x, keep_or f g h xs e)

keep_nothing : (xs : List String) → length (keep (λ x. member x []) xs) ≡ 0
unfolding member
keep_nothing [] = refl
keep_nothing (x ∷ xs) = keep_nothing xs

-- A list without repetition has at most as many members of `ws` as `ws` is long.
pub pigeons : (ws xs : List String) → Unique xs → length (keep (λ x. member x ws) xs) ≤ length ws
pigeons [] xs u = omega (arith, keep_nothing xs)
pigeons (w ∷ ws) xs u = omega (
  arith,
  pigeons ws xs u,
  keep_one w xs u,
  keep_or (str_eq w) (λ x. member x ws) (λ x. member x (w ∷ ws)) xs (λ x. unfold member in refl),
)
