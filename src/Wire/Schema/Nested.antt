-- ===== src/Wire/Schema/Nested.antt =====
-- Objects, arrays and compositions: what the patterns count, given what their parts count.
use ja3proxy.Base.{
  ℕ, ◌≡◌, refl, inl, inr, Bool, true, false, not, ◌&&◌, ◌||◌, String, List, arith, Bool-cases, none,
  some, ltb, if◌then◌else◌,
}
use ja3proxy.Wire.Value.{
  Value, undefined, null, boolean, number, string, array, object, Elements, no_elements, element,
  Entries, no_entries, entry, is_undefined, is_null, is_string, is_object, is_array, has_string,
  member, count_items, item_at,
}
use ja3proxy.Wire.Checks.{
  Check, Mode, test, gated, none_missing, property, properties, known_keys, closed, object_check,
  each_item, each_value, array_check, items_check, nullable_array, string_pair, value_check,
}
use ja3proxy.Wire.Schema.{
  has_all, has_only, all_items, all_values, is_pair, items_conform, values_conform, keys_conform,
}
use ja3proxy.Wire.Schema.Meets.{Meets, passes, Meets-fault, Meets-test, Meets-gate, Meets-same}

-- The check decides the predicate.
abbrev pub Decides : Mode → Check → (Value → Bool) → Type 0
Decides mode c p = (v : Value) (n : ℕ) → Meets mode n (p v) (c v n)

pub property-Decides :
    (mode : Mode) (key : String) (c : Check) (p : Value → Bool)
    → Decides mode c p
    → Decides mode (property key c) (λ v. is_undefined (member key v) || p (member key v))
unfolding property
property-Decides mode key c p d v n = elim (Bool-cases (is_undefined (member key v))) [
  | inl e ↦ rw (e, property) passes
  | inr e ↦ rw (e, property) (d (member key v) n)
]

known_keys_lem :
    (mode : Mode) (keys : List String) (fs : Entries) (n : ℕ)
    → Meets mode n (has_only keys fs) (known_keys mode keys fs n)
unfolding known_keys
known_keys_lem mode keys no_entries n = passes
known_keys_lem mode keys (entry key v fs) n = elim (Bool-cases (has_string keys key)) [
  | inl e ↦ rw (e, known_keys) (known_keys_lem mode keys fs n)
  | inr e ↦ rw (e, known_keys) (Meets-fault mode n)
]

closed_lem :
    (mode : Mode) (c : Bool) (keys : List String) (fs : Entries) (n : ℕ)
    → Meets mode n
        (not c || has_only keys fs)
        (closed mode (if c then some keys else none) (object fs) n)
unfolding closed
closed_lem mode true keys fs n = known_keys_lem mode keys fs n
closed_lem mode false keys fs n = passes

pub object-Decides :
    (mode : Mode) (required : List String) (c : Bool) (keys : List String)
    (props : List (String × Check)) (p : Value → Bool)
    → Decides mode (properties props) p
    → Decides mode
        (object_check mode required (if c then some keys else none) props)
        (λ v. is_object v && has_all required v && (not c || keys_conform keys v) && p v)
unfolding object_check gated
object-Decides mode required c keys props p d (object fs) n =
    elim (Bool-cases (none_missing required (object fs))) [
      | inl e ↦
          rw (e, object_check)
            (Meets-gate n _ _ _ _ (closed_lem mode c keys fs n) (λ h. d (object fs) n))
      | inr e ↦ rw (e, object_check) (Meets-fault mode n)
    ]
object-Decides mode required c keys props p d undefined n = Meets-fault mode n
object-Decides mode required c keys props p d null n = Meets-fault mode n
object-Decides mode required c keys props p d (boolean b) n = Meets-fault mode n
object-Decides mode required c keys props p d (number x) n = Meets-fault mode n
object-Decides mode required c keys props p d (string s) n = Meets-fault mode n
object-Decides mode required c keys props p d (array xs) n = Meets-fault mode n

module _ (mode : Mode) (c : Check) (p : Value → Bool) (d : Decides mode c p) where
  each_item_lem : (xs : Elements) (n : ℕ) → Meets mode n (all_items p xs) (each_item c xs n)
  unfolding each_item
  each_item_lem no_elements n = passes
  each_item_lem (element v xs) n =
      Meets-gate n (p v) (all_items p xs) _ (each_item c xs) (d v n) (λ h. each_item_lem xs n)

  each_value_lem : (fs : Entries) (n : ℕ) → Meets mode n (all_values p fs) (each_value c fs n)
  unfolding each_value
  each_value_lem no_entries n = passes
  each_value_lem (entry key v fs) n =
      Meets-gate n (p v) (all_values p fs) _ (each_value c fs) (d v n) (λ h. each_value_lem fs n)

  pub array-Decides : Decides mode (array_check mode c) (items_conform p)
  unfolding array_check
  array-Decides (array xs) n = each_item_lem xs n
  array-Decides undefined n = Meets-fault mode n
  array-Decides null n = Meets-fault mode n
  array-Decides (boolean b) n = Meets-fault mode n
  array-Decides (number x) n = Meets-fault mode n
  array-Decides (string s) n = Meets-fault mode n
  array-Decides (object fs) n = Meets-fault mode n

  pub value-Decides : Decides mode (value_check mode c) (values_conform p)
  unfolding value_check
  value-Decides (object fs) n = each_value_lem fs n
  value-Decides undefined n = Meets-fault mode n
  value-Decides null n = Meets-fault mode n
  value-Decides (boolean b) n = Meets-fault mode n
  value-Decides (number x) n = Meets-fault mode n
  value-Decides (string s) n = Meets-fault mode n
  value-Decides (array xs) n = Meets-fault mode n

  array_or_null :
      (v : Value)
      → (is_array v || is_null v) && (items_conform p v || is_null v)
        ≡ (items_conform p v || is_null v)
  array_or_null (array xs) = refl
  array_or_null undefined = refl
  array_or_null null = refl
  array_or_null (boolean b) = refl
  array_or_null (number x) = refl
  array_or_null (string s) = refl
  array_or_null (object fs) = refl

  or_false : (b : Bool) → b ≡ (b || false)
  or_false b = ground arith

  items_lem :
      (v : Value) (n : ℕ)
      → is_array v || is_null v ≡ true
      → Meets mode n (items_conform p v || is_null v) (items_check c v n)
  unfolding items_check
  items_lem (array xs) n e = Meets-same n _ _ _ (or_false (all_items p xs)) (each_item_lem xs n)
  items_lem null n e = passes
  items_lem undefined n e = absurd (ground arith)
  items_lem (boolean b) n e = absurd (ground arith)
  items_lem (number x) n e = absurd (ground arith)
  items_lem (string s) n e = absurd (ground arith)
  items_lem (object fs) n e = absurd (ground arith)

  pub nullable_array-Decides :
      Decides mode (nullable_array mode c) (λ v. items_conform p v || is_null v)
  unfolding nullable_array gated
  nullable_array-Decides v n = Meets-same n _ _ _ (array_or_null v) (
      Meets-gate n (is_array v || is_null v) (items_conform p v || is_null v) _ (items_check c v)
        (Meets-test mode (λ w. is_array w || is_null w) v n) (items_lem v n))

pub pair-Decides : (mode : Mode) → Decides mode (string_pair mode) is_pair
unfolding string_pair gated count_items item_at
pair-Decides mode (array no_elements) n = Meets-fault mode n
pair-Decides mode (array (element v no_elements)) n = Meets-fault mode n
pair-Decides mode (array (element v (element w no_elements))) n =
    Meets-gate n (is_string v) (is_string w) _ (λ m. test mode is_string w m)
      (Meets-test mode is_string v n) (λ e. Meets-test mode is_string w n)
pair-Decides mode (array (element v (element w (element x xs)))) n =
    let e : ltb 2 (count_items (element v (element w (element x xs)))) ≡ true = ground arith in
    rw (e, string_pair) (Meets-fault mode n)
pair-Decides mode undefined n = Meets-fault mode n
pair-Decides mode null n = Meets-fault mode n
pair-Decides mode (boolean b) n = Meets-fault mode n
pair-Decides mode (number x) n = Meets-fault mode n
pair-Decides mode (string s) n = Meets-fault mode n
pair-Decides mode (object fs) n = Meets-fault mode n
