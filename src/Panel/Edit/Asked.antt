-- ===== src/Panel/Edit/Asked.antt =====
-- panel_write.py: what a message asks of the numbers of a cover, and what `_number` accepts.
use my_home_stability.Prelude.{
  ℕ, ◌≡◌, refl, sym, ap, subst, ◌∙◌, String, Bool, true, false, ◌||◌, ◌&&◌, Option, none, some,
  List, [], ◌∷◌, str_eq, eq_iff, arith, if◌then◌else◌, Bool-cases, inl, inr, ◌⊎◌,
}
use my_home_stability.Dict.{Dict, lookup, insert, erase, lookup-insert, lookup-erase}
use my_home_stability.Store.Record.{Value, Record}
use my_home_stability.Store.State.{Store}
use my_home_stability.Panel.Write.{PanelError, Result, ok, err, Work}
use my_home_stability.Panel.Edit.{
  Floats, with_ok, map_ok, CalibrationField, opening_time, closing_time, slat_time, opening_roll,
  closing_roll, field_key, field_bounds, parse_number, within_bounds, number_in, height_in,
  optional_height, edit_overrides, edited_height, cover_config,
}

pub Result-cases :
    {A : Type 0} (r : Result A) → ((a : A) × (r ≡ ok a)) ⊎ ((e : PanelError) × (r ≡ err e))
Result-cases (ok a) = inl (a, refl)
Result-cases (err e) = inr (e, refl)

pub ok-inj : {A : Type 0} (a b : A) → ok a ≡ ok b → a ≡ b
ok-inj a b e = ap (λ r. elim r [ ok x ↦ x | err _ ↦ a ]) e

pub err-ok : {A : Type 0} (e : PanelError) (a : A) → err e ≡ ok a → ⊥
err-ok e a h = cc

-- A chain that is accepted has every part accepted.
pub with_ok-accepted :
    {A B : Type 0} (r : Result A) (next : A → Work B) (b : B) (s : Store)
    → (with_ok r next s).0 ≡ ok b
    → (a : A) × (r ≡ ok a) × ((next a s).0 ≡ ok b)
unfolding with_ok
with_ok-accepted (ok a) next b s e = (a, refl, e)
with_ok-accepted (err f) next b s e = absurd (err-ok f b e)

pub cover_config-accepted :
    (o : Option Record) (b : Bool) (cfg : Record) → cover_config o b ≡ ok cfg → o ≡ some cfg
unfolding cover_config
cover_config-accepted (some r) b cfg e = ap some (ok-inj r cfg e)
cover_config-accepted none true cfg e = absurd (err-ok _ cfg e)
cover_config-accepted none false cfg e = absurd (err-ok _ cfg e)

-- the key of a field
abbrev pub column : CalibrationField → String
column opening_time = "opening_time"
column closing_time = "closing_time"
column slat_time = "slat_time"
column opening_roll = "opening_roll"
column closing_roll = "closing_roll"

abbrev pub or_before : Option (Option Value) → Option (Option Value) → Option (Option Value)
or_before (some v) before = some v
or_before none before = before

-- What the edits ask of a key, by the last of them that names it: nothing, to take its number back,
-- or a number.
abbrev pub asked_for : String → List (CalibrationField × Option Value) → Option (Option Value)
asked_for key [] = none
asked_for key ((k, v) ∷ rest) =
    or_before (asked_for key rest) (if str_eq (column k) key then some v else none)

module _ (p : Floats) where
  -- The typed text is a number, within the bounds.
  abbrev pub IsTyped : Value → ℕ × ℕ → ℕ → Type 0
  IsTyped v (low, high) n =
      (p.float_of (p.replace "," "." (p.strip (p.str v))) ≡ some n)
      × (p.le low n ≡ true)
      × (p.le n high ≡ true)

  -- the bounds of a key, in seconds or as a ratio, and those of a height, in centimetres
  abbrev pub limits : String → ℕ × ℕ
  limits key =
      if str_eq key "slat_time"
      then (p.whole 0, p.whole 60)
      else if str_eq key "opening_roll" || str_eq key "closing_roll"
      then (p.whole 1, p.whole 5)
      else (p.whole 1, p.whole 600)

  abbrev pub height_limits : ℕ × ℕ
  height_limits = (p.whole 20, p.whole 500)

  -- A number as it was asked for: as before, taken back, or the typed one.
  abbrev pub AsAsked : ℕ × ℕ → Option (Option Value) → Option ℕ → Option ℕ → Type 0
  AsAsked bounds none before after = after ≡ before
  AsAsked bounds (some none) before after = after ≡ none
  AsAsked bounds (some (some v)) before after = (n : ℕ) × (after ≡ some n) × IsTyped v bounds n

  within_bounds-accepted :
      (o : Option ℕ) (low high n : ℕ)
      → within_bounds p o (low, high) ≡ ok n
      → (o ≡ some n) × (p.le low n ≡ true) × (p.le n high ≡ true)
  unfolding within_bounds
  within_bounds-accepted none low high n e = absurd (err-ok _ n e)
  within_bounds-accepted (some m) low high n e = elim (Bool-cases (p.le low m && p.le m high)) [
    | inl b ↦
        let same : m ≡ n = ok-inj m n (rw (within_bounds, b) at e) in
        (
          ap some same,
          subst (λ x. p.le low x ≡ true) same (ground (arith, b)),
          subst (λ x. p.le x high ≡ true) same (ground (arith, b)),
        )
    | inr b ↦ absurd (err-ok _ n (rw (within_bounds, b) at e))
  ]

  parse_number-typed :
      (v : Value) (n : ℕ)
      → parse_number p v ≡ some n
      → p.float_of (p.replace "," "." (p.strip (p.str v))) ≡ some n
  unfolding parse_number
  parse_number-typed v n e = elim (Bool-cases (str_eq (p.replace "," "." (p.strip (p.str v))) "")) [
    | inl b ↦ ground (arith, e, b)
    | inr b ↦ rw b at e
  ]

  number_in-IsTyped :
      (v : Value) (bounds : ℕ × ℕ) (n : ℕ) → number_in p v bounds ≡ ok n → IsTyped v bounds n
  unfolding number_in
  number_in-IsTyped v (low, high) n e =
      let (o, l, h) = within_bounds-accepted (parse_number p v) low high n e in
      (parse_number-typed v n o, l, h)

  -- An accepted height is as it was asked for.
  pub optional_height-AsAsked :
      (height : Option Value) (before h : Option ℕ)
      → optional_height p height ≡ ok h
      → AsAsked height_limits (some height) before h
  unfolding optional_height height_in map_ok
  optional_height-AsAsked none before h e = sym (ok-inj none h e)
  optional_height-AsAsked (some v) before h e = elim (Result-cases (number_in p v height_limits)) [
    | inl (n, r) ↦ (
      n,
      sym (ok-inj (some n) h (rw (optional_height, height_in, r) at e)),
      number_in-IsTyped v height_limits n r,
    )
    | inr (f, r) ↦ absurd (err-ok f h (rw (optional_height, height_in, r) at e))
  ]

  pub edited_height-AsAsked :
      (utcnow : String) (covers : Dict Record) (advanced : String → Bool)
      (height : Option (Option Value)) (before h : Option ℕ)
      → edited_height p utcnow covers advanced height before ≡ ok h
      → AsAsked height_limits height before h
  unfolding edited_height
  edited_height-AsAsked utcnow covers advanced none before h e = sym (ok-inj before h e)
  edited_height-AsAsked utcnow covers advanced (some height) before h e =
      optional_height-AsAsked height before h e

  field_key-column : (k : CalibrationField) → field_key k ≡ column k
  unfolding field_key
  field_key-column opening_time = refl
  field_key-column closing_time = refl
  field_key-column slat_time = refl
  field_key-column opening_roll = refl
  field_key-column closing_roll = refl

  field_bounds-limits : (k : CalibrationField) → field_bounds p k ≡ limits (column k)
  unfolding field_bounds
  field_bounds-limits opening_time = refl
  field_bounds-limits closing_time = refl
  field_bounds-limits slat_time = refl
  field_bounds-limits opening_roll = refl
  field_bounds-limits closing_roll = refl

  -- One edit before the others: to take a number back, and to type one.
  erased :
      (k : CalibrationField) (key : String) (os : Dict ℕ) (o : Option (Option Value))
      (after : Option ℕ)
      → AsAsked (limits key) o (lookup key (erase (field_key k) os)) after
      → AsAsked
          (limits key)
          (or_before o (if str_eq (column k) key then some none else none))
          (lookup key os)
          after
  erased k key os (some (some v)) after h = h
  erased k key os (some none) after h = h
  erased k key os none after h =
      let here = h ∙ lookup-erase (field_key k) key os in
      elim (Bool-cases (str_eq (column k) key)) [
        | inl b ↦ rw b (rw (field_key-column k, b) at here)
        | inr b ↦ rw b (rw (field_key-column k, b) at here)
      ]

  inserted :
      (k : CalibrationField) (key : String) (v : Value) (n : ℕ) (os : Dict ℕ)
      (o : Option (Option Value)) (after : Option ℕ)
      → number_in p v (field_bounds p k) ≡ ok n
      → AsAsked (limits key) o (lookup key (insert (field_key k) n os)) after
      → AsAsked
          (limits key)
          (or_before o (if str_eq (column k) key then some (some v) else none))
          (lookup key os)
          after
  inserted k key v n os (some (some w)) after r h = h
  inserted k key v n os (some none) after r h = h
  inserted k key v n os none after r h =
      let here = h ∙ lookup-insert (field_key k) key n os in
      let typed : IsTyped v (limits (column k)) n =
        subst (λ b. IsTyped v b n) (field_bounds-limits k)
          (number_in-IsTyped v (field_bounds p k) n r) in
      elim (Bool-cases (str_eq (column k) key)) [
        | inl b ↦ rw b (
          n,
          rw (field_key-column k, b) at here,
          subst (λ x. IsTyped v (limits x) n) ((eq_iff (column k) key).0 b) typed,
        )
        | inr b ↦ rw b (rw (field_key-column k, b) at here)
      ]

  -- The accepted edits leave every key as it was asked for.
  pub edit_overrides-AsAsked :
      (utcnow : String) (covers : Dict Record) (advanced : String → Bool)
      (edits : List (CalibrationField × Option Value)) (os wanted : Dict ℕ) (key : String)
      → edit_overrides p utcnow covers advanced edits os ≡ ok wanted
      → AsAsked (limits key) (asked_for key edits) (lookup key os) (lookup key wanted)
  unfolding edit_overrides
  edit_overrides-AsAsked utcnow covers advanced [] os wanted key e =
      ap (lookup key) (sym (ok-inj os wanted e))
  edit_overrides-AsAsked utcnow covers advanced ((k, none) ∷ edits) os wanted key e =
      erased k key os (asked_for key edits) (lookup key wanted)
        (edit_overrides-AsAsked utcnow covers advanced edits (erase (field_key k) os) wanted key e)
  edit_overrides-AsAsked utcnow covers advanced ((k, some v) ∷ edits) os wanted key e =
      elim (Result-cases (number_in p v (field_bounds p k))) [
        | inl (n, r) ↦ inserted k key v n os (asked_for key edits) (lookup key wanted) r (
            edit_overrides-AsAsked utcnow covers advanced edits (insert (field_key k) n os) wanted
              key (rw (edit_overrides, r) at e))
        | inr (f, r) ↦ absurd (err-ok f wanted (rw (edit_overrides, r) at e))
      ]
