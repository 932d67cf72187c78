-- ===== src/Store/Invariant.antt =====
-- calibration_store.py: the form of the store, and its writing operations as steps.
use my_home_stability.Prelude.{
  ℕ, ◌≡◌, refl, ap, String, true, false, ◌||◌, Option, List, [], ◌∷◌, arith, str_eq, eq_iff,
  eq_refl,
}
use my_home_stability.Dict.{Dict, IsDict}
use my_home_stability.Store.Record.{Value, Record}
use my_home_stability.Store.State.{
  Store, member, normalised_from, normalised_order, as_values, set_order, restore, set_profile,
  set_calibration, remove_calibration,
}
use my_home_stability.Store.Assign.{remove_profile, Assignment, set_assignments}
use my_home_stability.Store.Unique.{Unique}

-- An order with no id twice, and no empty one.
abbrev pub IsNormal : List String → Type 0
IsNormal order = Unique order × (member "" order ≡ false)

normalised_from-keeps :
    (seen xs : List String)
    → Unique xs
    → ((z : String) → member z xs ≡ true → (str_eq z "" || member z seen) ≡ false)
    → normalised_from seen (as_values xs) ≡ xs
unfolding normalised_from as_values member
normalised_from-keeps seen [] u a = refl
normalised_from-keeps seen (x ∷ xs) u a = rw (a x (ground (arith, eq_refl x))) (
    ap (λ t. x ∷ t)
      (normalised_from-keeps (x ∷ seen) xs u.1 (λ z m.
        let away : str_eq x z ≡ true → member x xs ≡ member z xs =
          λ e. ap (λ t. member t xs) ((eq_iff x z).0 e) in
        ground (arith, m, away, u.0, a z))))

-- `normalised_order` leaves such an order as it is.
pub IsNormal-normalised_order :
    (xs : List String) → IsNormal xs → normalised_order (as_values xs) ≡ xs
unfolding normalised_order
IsNormal-normalised_order xs (u, e) = normalised_from-keeps [] xs u (λ z m.
    let same : str_eq z "" ≡ true → member z xs ≡ member "" xs =
      λ q. ap (λ t. member t xs) ((eq_iff z "").0 q) in
    unfold member in ground (arith, m, same, e))

-- The form in which every operation finds the store, and leaves it.
pub record IsSound (s : Store) : Type 0 where
  pub profiles : IsDict s.profiles
  pub covers : IsDict s.covers
  pub order : IsNormal s.order

-- Every operation of the store that writes it.
pub data StoreStep (float_of : String → Option ℕ) (utcnow : String) : Store → Store → Type 0 where
  ordering :
      (s : Store) (order : List Value) (known : Option (List String))
      → StoreStep float_of utcnow s (set_order order known s).0
  restoring :
      (s : Store) (profiles covers : Dict (Option Record)) (order : Option (List String))
      → StoreStep float_of utcnow s (restore profiles covers order s).0
  profiling :
      (s : Store) (name : String) (r : Record) → StoreStep float_of utcnow s (set_profile name r s)
  removing :
      (s : Store) (name : String) → StoreStep float_of utcnow s (remove_profile float_of name s).1
  calibrating :
      (s : Store) (id : String) (r : Record) → StoreStep float_of utcnow s (set_calibration id r s)
  forgetting : (s : Store) (id : String) → StoreStep float_of utcnow s (remove_calibration id s).0
  assigning :
      (s : Store) (batch : List Assignment)
      → StoreStep float_of utcnow s (set_assignments float_of utcnow batch s).0

-- the three parts of one store are sound, and so is another with the same parts
abbrev SameParts : Dict Record → Dict Record → List String → Store → Type 0
SameParts p c o s = (s.profiles ≡ p) × (s.covers ≡ c) × (s.order ≡ o)
