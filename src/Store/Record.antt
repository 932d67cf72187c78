-- ===== src/Store/Record.antt =====
-- calibration_store.py: a record of the `.storage` file, a mapping from keys to JSON values.
-- A float is its code, a number: the store keeps and compares floats, and tells zero apart, and
-- computes with none. `block` is a value that nothing here looks into.
use my_home_stability.Prelude.{
  ℕ, ◌≡◌, String, Bool, true, false, not, ◌&&◌, Option, none, some, [], ◌∷◌, str_eq, ◌==◌,
}
use my_home_stability.Dict.{Dict, lookup}

pub data Scalar : Type 0 where
  nothing : Scalar
  bit : Bool → Scalar
  float : ℕ → Scalar
  string : String → Scalar

pub data Value : Type 0 where
  null : Value
  flag : Bool → Value
  number : ℕ → Value
  text : String → Value
  mapping : Dict Scalar → Value
  block : ℕ → Value

abbrev pub Record : Type 0
Record = Dict Value

unfoldable pub bool_eq : Bool → Bool → Bool
bool_eq true b = b
bool_eq false b = not b

unfoldable pub scalar_eq : Scalar → Scalar → Bool
scalar_eq nothing nothing = true
scalar_eq (bit a) (bit b) = bool_eq a b
scalar_eq (float a) (float b) = a == b
scalar_eq (string a) (string b) = str_eq a b
scalar_eq _ _ = false

module _ {V : Type 0} (eq : V → V → Bool) where
  unfoldable pub matches : V → Option V → Bool
  matches v none = false
  matches v (some w) = eq v w

  -- every entry of `a` is in `b`
  unfoldable pub within : Dict V → Dict V → Bool
  within [] b = true
  within ((k, v) ∷ a) b = matches v (lookup k b) && within a b

  -- Python's `==` on two dicts, whatever their order
  unfoldable pub dict_eq : Dict V → Dict V → Bool
  dict_eq a b = within a b && within b a

unfoldable pub value_eq : Value → Value → Bool
unfolding scalar_eq bool_eq dict_eq
value_eq null null = true
value_eq (flag a) (flag b) = bool_eq a b
value_eq (number a) (number b) = a == b
value_eq (text a) (text b) = str_eq a b
value_eq (mapping a) (mapping b) = dict_eq scalar_eq a b
value_eq (block a) (block b) = a == b
value_eq _ _ = false

unfoldable pub record_eq : Record → Record → Bool
unfolding value_eq dict_eq
record_eq a b = dict_eq value_eq a b

unfoldable pub stored_eq : Option Record → Option Record → Bool
unfolding record_eq
stored_eq none none = true
stored_eq (some a) (some b) = record_eq a b
stored_eq _ _ = false

-- What two records have in common when they are the same mapping: no order of keys is seen.
abbrev pub SameValue : Value → Value → Type 0
SameValue (mapping a) (mapping b) = (k : String) → lookup k a ≡ lookup k b
SameValue a b = a ≡ b

abbrev pub SameEntry : Option Value → Option Value → Type 0
SameEntry (some a) (some b) = SameValue a b
SameEntry none none = Unit
SameEntry _ _ = ⊥

abbrev pub SameRecord : Record → Record → Type 0
SameRecord a b = (k : String) → SameEntry (lookup k a) (lookup k b)

abbrev pub SameStored : Option Record → Option Record → Type 0
SameStored (some a) (some b) = SameRecord a b
SameStored none none = Unit
SameStored _ _ = ⊥
