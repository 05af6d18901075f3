-- ===== src/Wire/Schema.antt =====
-- The schemas of compiled-validators.js as data, and what they say of a value.
pub mod Compile
pub mod Meets
pub mod Nested
pub mod Composed
pub mod Sound
use ja3proxy.Base.{
  ℕ, ◌+◌, Bool, true, false, not, ◌&&◌, ◌||◌, String, List, [], ◌∷◌, ltb, leb, ◌==◌, if◌then◌else◌,
}
use ja3proxy.Wire.Value.{
  Value, null, boolean, number, string, array, object, whole, minus, Number, Elements, no_elements,
  element, Entries, no_entries, entry, is_undefined, is_null, is_string, is_boolean, is_object,
  has_string, equals_one, member,
}

-- An integer has the minimum 0 and a maximum. `ref` is a schema that is compiled to its own function.
mutual
  pub data Schema : Type 0 where
    a_string a_boolean a_null nullable_string nullable_boolean pair_of_strings map_of_strings :
        Schema
    enum : List String → Schema
    integer optional_integer : ℕ → Schema
    array_of optional_array_of : Schema → Schema
    object_with : List String → Bool → Members → Schema
    any_of one_of : Schemas → Schema
    ref : Schema → Schema

  pub data Members : Type 0 where
    no_members : Members
    member_of : String → Schema → Members → Members

  pub data Schemas : Type 0 where
    no_schemas : Schemas
    schema : Schema → Schemas → Schemas

abbrev pub names : Members → List String
names no_members = []
names (member_of key s ms) = key ∷ names ms

abbrev pub in_range : ℕ → Value → Bool
in_range max (number (whole n)) = leb n max
in_range max (number (minus n)) = n == 0
in_range max _ = false

abbrev pub has_all : List String → Value → Bool
has_all [] v = true
has_all (key ∷ keys) v = not (is_undefined (member key v)) && has_all keys v

abbrev pub has_only : List String → Entries → Bool
has_only keys no_entries = true
has_only keys (entry key v fs) = has_string keys key && has_only keys fs

abbrev pub all_items : (Value → Bool) → Elements → Bool
all_items p no_elements = true
all_items p (element v xs) = p v && all_items p xs

abbrev pub all_values : (Value → Bool) → Entries → Bool
all_values p no_entries = true
all_values p (entry key v fs) = p v && all_values p fs

abbrev pub is_pair : Value → Bool
is_pair (array (element v (element w no_elements))) = is_string v && is_string w
is_pair _ = false

abbrev pub items_conform : (Value → Bool) → Value → Bool
items_conform p (array xs) = all_items p xs
items_conform p _ = false

abbrev pub values_conform : (Value → Bool) → Value → Bool
values_conform p (object fs) = all_values p fs
values_conform p _ = false

abbrev pub keys_conform : List String → Value → Bool
keys_conform keys (object fs) = has_only keys fs
keys_conform keys _ = true

unfoldable mutual
  -- The value is valid against the schema.
  pub conforms : Schema → Value → Bool
  conforms a_string v = is_string v
  conforms a_boolean v = is_boolean v
  conforms a_null v = is_null v
  conforms nullable_string v = is_string v || is_null v
  conforms nullable_boolean v = is_boolean v || is_null v
  conforms pair_of_strings v = is_pair v
  conforms map_of_strings v = values_conform is_string v
  conforms (enum values) v = equals_one values v
  conforms (integer max) v = in_range max v
  conforms (optional_integer max) v = in_range max v || is_null v
  conforms (array_of s) v = items_conform (conforms s) v
  conforms (optional_array_of s) v = items_conform (conforms s) v || is_null v
  conforms (object_with required closed ms) v =
      is_object v
      && has_all required v
      && (not closed || keys_conform (names ms) v)
      && members_conform ms v
  conforms (any_of ss) v = ltb 0 (matches ss v)
  conforms (one_of ss) v = matches ss v == 1
  conforms (ref s) v = conforms s v

  pub members_conform : Members → Value → Bool
  members_conform no_members v = true
  members_conform (member_of key s ms) v =
      (is_undefined (member key v) || conforms s (member key v)) && members_conform ms v

  -- How many of the schemas the value is valid against.
  pub matches : Schemas → Value → ℕ
  matches no_schemas v = 0
  matches (schema s ss) v = (if conforms s v then 1 else 0) + matches ss v
