-- ===== src/Resolve/Gathered.antt =====
-- calibration_store.py: the loop of `resolve_cover_keys`, whatever decides one key.
use my_home_stability.Prelude.{
  ◌≡◌, refl, sym, ap, ◌∙◌, eq_refl, is_some, inl, inr, Bool-cases, String, Bool, true, false, ◌||◌,
  Option, none, some, List, [], ◌∷◌, str_eq, arith, eq_iff, if◌then◌else◌,
}
use mathlib.Core.Option.{some-injective}
use my_home_stability.Dict.{Dict, lookup}
use my_home_stability.Store.State.{member}
use my_home_stability.Resolve.Keys.{
  KeyAnswer, says, silent, key_error, ResolvedKey, add_key, gather,
}

module _ {W : Type 0} where
  unfoldable pub raises : KeyAnswer W → Bool
  raises key_error = true
  raises _ = false

  unfoldable pub item_of : KeyAnswer W → Option (ResolvedKey W)
  item_of (says r) = some r
  item_of _ = none

  unfoldable pub keep_item :
      String → Option (ResolvedKey W) → Dict (ResolvedKey W) → Dict (ResolvedKey W)
  keep_item key none rest = rest
  keep_item key (some r) rest = (key, r) ∷ rest

  -- the answers but for the errors
  unfoldable pub kept : (String → KeyAnswer W) → List String → Dict (ResolvedKey W)
  kept answer [] = []
  kept answer (key ∷ rest) = keep_item key (item_of (answer key)) (kept answer rest)

  unfoldable pub any_raises : (String → KeyAnswer W) → List String → Bool
  any_raises answer [] = false
  any_raises answer (key ∷ rest) = raises (answer key) || any_raises answer rest

  unfoldable pub unless_raised : Bool → Dict (ResolvedKey W) → Option (Dict (ResolvedKey W))
  unless_raised b d = if b then none else some d

  add_key-unless_raised :
      (key : String) (a : KeyAnswer W) (b : Bool) (d : Dict (ResolvedKey W))
      → add_key key a (unless_raised b d)
        ≡ unless_raised (raises a || b) (keep_item key (item_of a) d)
  unfolding add_key unless_raised raises item_of keep_item
  add_key-unless_raised key (says r) true d = refl
  add_key-unless_raised key (says r) false d = refl
  add_key-unless_raised key silent true d = refl
  add_key-unless_raised key silent false d = refl
  add_key-unless_raised key key_error true d = refl
  add_key-unless_raised key key_error false d = refl

  pub gather-kept :
      (answer : String → KeyAnswer W) (ks : List String)
      → gather answer ks ≡ unless_raised (any_raises answer ks) (kept answer ks)
  unfolding gather any_raises kept unless_raised
  gather-kept answer [] = refl
  gather-kept answer (key ∷ rest) =
      rw (gather-kept answer rest)
        (add_key-unless_raised key (answer key) (any_raises answer rest) (kept answer rest))

  unfoldable item_or : Option (ResolvedKey W) → Option (ResolvedKey W) → Option (ResolvedKey W)
  item_or none rest = rest
  item_or (some r) rest = some r

  lookup-keep_item :
      (k key : String) (o : Option (ResolvedKey W)) (d : Dict (ResolvedKey W))
      → lookup k (keep_item key o d) ≡ (if str_eq key k then item_or o (lookup k d) else lookup k d)
  unfolding lookup keep_item item_or
  lookup-keep_item k key none d = ground arith
  lookup-keep_item k key (some r) d = refl

  item_of_same :
      (answer : String → KeyAnswer W) (k key : String)
      → str_eq key k ≡ true
      → item_of (answer key) ≡ item_of (answer k)
  item_of_same answer k key e = ap (λ n. item_of (answer n)) ((eq_iff key k).0 e)

  not_kept :
      (answer : String → KeyAnswer W) (k : String) (ks : List String)
      → item_of (answer k) ≡ none
      → lookup k (kept answer ks) ≡ none
  unfolding kept lookup item_or
  not_kept answer k [] e = refl
  not_kept answer k (key ∷ rest) e =
      rw (lookup-keep_item k key (item_of (answer key)) (kept answer rest))
        (elim (Bool-cases (str_eq key k)) [
          | inl s ↦ rw (s, item_of_same answer k key s, e) (not_kept answer k rest e)
          | inr n ↦ rw n (not_kept answer k rest e)
        ])

  found : (o r : Option (ResolvedKey W)) → (o ≡ none → r ≡ none) → item_or o r ≡ o
  unfolding item_or
  found none r h = h refl
  found (some x) r h = refl

  -- A key that is asked for is kept as it was answered.
  pub lookup-kept :
      (answer : String → KeyAnswer W) (k : String) (ks : List String)
      → member k ks ≡ true
      → lookup k (kept answer ks) ≡ item_of (answer k)
  unfolding kept member
  lookup-kept answer k [] e = ground arith
  lookup-kept answer k (key ∷ rest) e =
      rw (lookup-keep_item k key (item_of (answer key)) (kept answer rest))
        (elim (Bool-cases (str_eq key k)) [
          | inl s ↦
              rw (s, item_of_same answer k key s)
                (found (item_of (answer k)) (lookup k (kept answer rest)) (not_kept answer k rest))
          | inr n ↦ rw n (lookup-kept answer k rest (ground (arith, e, n)))
        ])

  -- Fewer errors key by key are fewer errors.
  pub any_raises_mono :
      (a b : String → KeyAnswer W)
      → ((k : String) → raises (b k) ≡ false → raises (a k) ≡ false)
      → (ks : List String) → any_raises b ks ≡ false
      → any_raises a ks ≡ false
  unfolding any_raises
  any_raises_mono a b h [] e = refl
  any_raises_mono a b h (key ∷ rest) e = ground (arith, h key, any_raises_mono a b h rest)

  unless_raised-some :
      (b : Bool) (d d' : Dict (ResolvedKey W)) → unless_raised b d ≡ some d' → d' ≡ d
  unfolding unless_raised
  unless_raised-some true d d' e = ground (arith, e)
  unless_raised-some false d d' e = sym (some-injective d d' e)

  pub gather-some :
      (answer : String → KeyAnswer W) (ks : List String) (d : Dict (ResolvedKey W))
      → gather answer ks ≡ some d
      → d ≡ kept answer ks
  gather-some answer ks d e =
      unless_raised-some (any_raises answer ks) (kept answer ks) d (sym (gather-kept answer ks) ∙ e)

  says-raises : (a : KeyAnswer W) → is_some (item_of a) ≡ true → raises a ≡ false
  unfolding item_of raises
  says-raises (says r) e = refl
  says-raises silent e = refl
  says-raises key_error e = ground arith

  no_raises :
      (answer : String → KeyAnswer W) (ks : List String)
      → ((k : String) → member k ks ≡ true → is_some (item_of (answer k)) ≡ true)
      → any_raises answer ks ≡ false
  unfolding any_raises member
  no_raises answer [] h = refl
  no_raises answer (key ∷ rest) h =
      rw (says-raises (answer key) (h key (rw eq_refl)))
        (no_raises answer rest (λ k m. h k (ground (arith, m))))

  -- Where every key has a value the loop ends with all of them.
  pub gather-says :
      (answer : String → KeyAnswer W) (ks : List String)
      → ((k : String) → member k ks ≡ true → is_some (item_of (answer k)) ≡ true)
      → gather answer ks ≡ some (kept answer ks)
  unfolding unless_raised
  gather-says answer ks h = rw (gather-kept answer ks, no_raises answer ks h)
