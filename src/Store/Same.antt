-- ===== src/Store/Same.antt =====
-- calibration_store.py: the comparison of records against the mappings that they stand for.
use my_home_stability.Prelude.{
  ◌≡◌, refl, sym, subst, ap, ◌∙◌, String, Bool, true, ◌&&◌, Option, none, some, [], ◌∷◌, arith,
  str_eq, eq_iff, inl, inr, Bool-cases, Option-cases,
}
use my_home_stability.Dict.{Dict, lookup}
use my_home_stability.Store.Record.{
  Scalar, string, Value, null, flag, number, text, mapping, block, Record, bool_eq, scalar_eq,
  matches, within, dict_eq, value_eq, record_eq, stored_eq, SameValue, SameEntry, SameRecord,
  SameStored,
}

scalar_eq_sound : (a b : Scalar) → scalar_eq a b ≡ true → a ≡ b
unfolding scalar_eq bool_eq
scalar_eq_sound (string a) (string b) e = ground (arith, eq_iff a b)
scalar_eq_sound a b e = ground arith

and_parts : (a b : Bool) → (a && b) ≡ true → (a ≡ true) × (b ≡ true)
and_parts a b e = ground arith

module _ {V : Type 0} (eq : V → V → Bool) where
  matches_lem :
      (v : V) (o : Option V) → matches eq v o ≡ true → (w : V) × (o ≡ some w) × (eq v w ≡ true)
  unfolding matches
  matches_lem v none e = cc
  matches_lem v (some w) e = (w, refl, e)

  within_lem :
      (a b : Dict V) (k : String) (v : V)
      → within eq a b ≡ true
      → lookup k a ≡ some v
      → (w : V) × (lookup k b ≡ some w) × (eq v w ≡ true)
  unfolding within lookup
  within_lem [] b k v e l = cc
  within_lem ((j, u) ∷ a) b k v e l =
      let (here, there) = and_parts (matches eq u (lookup j b)) (within eq a b) e in
      elim (Bool-cases (str_eq j k)) [
        | inl s ↦
            let (w, lw, ew) = matches_lem u (lookup j b) here in
            let jk : j ≡ k = (eq_iff j k).0 s in
            let uv : u ≡ v = ground arith in
            (w, subst (λ x. lookup x b ≡ some w) jk lw, subst (λ x. eq x w ≡ true) uv ew)
        | inr d ↦ within_lem a b k v there (ground arith)
      ]

  within-none :
      (a b : Dict V) (k : String) → within eq b a ≡ true → lookup k a ≡ none → lookup k b ≡ none
  within-none a b k e l = elim (Option-cases (lookup k b)) [
    | inl n ↦ n
    | inr (v, lv) ↦ let (w, lw, _) = within_lem b a k v e lv in cc
  ]

mappings_same :
    (a b : Dict Scalar) → dict_eq scalar_eq a b ≡ true → (k : String) → lookup k a ≡ lookup k b
unfolding dict_eq
mappings_same a b e k =
    let (ab, ba) = and_parts (within scalar_eq a b) (within scalar_eq b a) e in
    elim (Option-cases (lookup k a)) [
      | inl n ↦ n ∙ sym (within-none scalar_eq a b k ba n)
      | inr (v, lv) ↦
          let (w, lw, ew) = within_lem scalar_eq a b k v ab lv in
          lv ∙ (ap some (scalar_eq_sound v w ew) ∙ sym lw)
    ]

value_eq_sound : (a b : Value) → value_eq a b ≡ true → SameValue a b
unfolding value_eq
value_eq_sound (mapping a) (mapping b) e = mappings_same a b e
value_eq_sound (text a) (text b) e = ground (arith, eq_iff a b)
value_eq_sound (flag a) (flag b) e = ground arith
value_eq_sound (number a) (number b) e = ground arith
value_eq_sound (block a) (block b) e = ground arith
value_eq_sound null null e = refl
value_eq_sound _ _ e = cc

pub record_eq_sound : (a b : Record) → record_eq a b ≡ true → SameRecord a b
unfolding record_eq
record_eq_sound a b e k =
    let (ab, ba) = and_parts (within value_eq a b) (within value_eq b a) e in
    elim (Option-cases (lookup k a)) [
      | inl n ↦ rw (n, within-none value_eq a b k ba n) tt
      | inr (v, lv) ↦
          let (w, lw, ew) = within_lem value_eq a b k v ab lv in rw (lv, lw) (value_eq_sound v w ew)
    ]

-- Two stored records that the comparison calls equal are the same mapping, or are both missing.
pub stored_eq_sound : (a b : Option Record) → stored_eq a b ≡ true → SameStored a b
unfolding stored_eq
stored_eq_sound none none e = tt
stored_eq_sound (some a) (some b) e = record_eq_sound a b e
stored_eq_sound none (some b) e = cc
stored_eq_sound (some a) none e = cc

SameValue-refl : (a : Value) → SameValue a a
SameValue-refl (mapping a) = λ k. refl
SameValue-refl _ = refl

SameEntry-refl : (a : Option Value) → SameEntry a a
SameEntry-refl none = tt
SameEntry-refl (some a) = SameValue-refl a

pub SameStored-refl : (a : Option Record) → SameStored a a
SameStored-refl none = tt
SameStored-refl (some a) = λ k. SameEntry-refl (lookup k a)

SameValue-sym : (a b : Value) → SameValue a b → SameValue b a
SameValue-sym (mapping a) (mapping b) h = λ k. sym (h k)
SameValue-sym null null h = sym h
SameValue-sym (flag a) (flag b) h = sym h
SameValue-sym (number a) (number b) h = sym h
SameValue-sym (text a) (text b) h = sym h
SameValue-sym (block a) (block b) h = sym h
SameValue-sym _ _ h = sym h

SameEntry-sym : (a b : Option Value) → SameEntry a b → SameEntry b a
SameEntry-sym (some a) (some b) h = SameValue-sym a b h
SameEntry-sym none none h = tt
SameEntry-sym none (some b) h = h
SameEntry-sym (some a) none h = h

pub SameStored-sym : (a b : Option Record) → SameStored a b → SameStored b a
SameStored-sym (some a) (some b) h = λ k. SameEntry-sym (lookup k a) (lookup k b) (h k)
SameStored-sym none none h = tt
SameStored-sym none (some b) h = h
SameStored-sym (some a) none h = h
