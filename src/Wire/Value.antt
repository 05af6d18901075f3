-- ===== src/Wire/Value.antt =====
-- The JavaScript values that the functions of packages/typescript/src/generated/compiled-validators.js
-- are called with, and the language's operators that they use. Functions, symbols and big integers are
-- left out; no contract accepts one.
use ja3proxy.Base.{
  ℕ, zero, suc, Bool, true, false, not, ◌&&◌, ◌||◌, String, str_eq, List, [], ◌∷◌, ltb, leb,
  if◌then◌else◌,
}

-- A number that is no integer keeps its sign and the integer part of its size.
pub data Number : Type 0 where
  whole : ℕ → Number
  minus : ℕ → Number
  fraction : Bool → ℕ → Number
  infinite : Bool → Number
  not_a_number : Number

mutual
  pub data Value : Type 0 where
    undefined null : Value
    boolean : Bool → Value
    number : Number → Value
    string : String → Value
    array : Elements → Value
    object : Entries → Value

  pub data Elements : Type 0 where
    no_elements : Elements
    element : Value → Elements → Elements

  -- The own enumerable properties, in the order of `for`.
  pub data Entries : Type 0 where
    no_entries : Entries
    entry : String → Value → Entries → Entries

-- `!(x % 1) && !isNaN(x)`; the remainder of an infinite number is NaN.
abbrev pub is_whole : Number → Bool
is_whole (whole n) = true
is_whole (minus n) = true
is_whole (fraction negative n) = false
is_whole (infinite negative) = true
is_whole not_a_number = false

-- isFinite
abbrev pub is_finite : Number → Bool
is_finite (infinite negative) = false
is_finite not_a_number = false
is_finite _ = true

-- isNaN
abbrev pub is_nan : Number → Bool
is_nan not_a_number = true
is_nan _ = false

-- `x > max`
abbrev pub exceeds : ℕ → Number → Bool
exceeds max (whole n) = ltb max n
exceeds max (minus n) = false
exceeds max (fraction negative n) = not negative && leb max n
exceeds max (infinite negative) = not negative
exceeds max not_a_number = false

-- `x < 0`; `minus n` is the opposite of `n`, and may be minus zero.
abbrev pub is_negative : Number → Bool
is_negative (minus n) = ltb 0 n
is_negative (fraction negative n) = negative
is_negative (infinite negative) = negative
is_negative _ = false

-- `typeof x == "number" && (!(x % 1) && !isNaN(x)) && isFinite(x)`
abbrev pub is_integer : Value → Bool
is_integer (number x) = is_whole x && is_finite x
is_integer _ = false

abbrev pub is_undefined : Value → Bool
is_undefined undefined = true
is_undefined _ = false

abbrev pub is_null : Value → Bool
is_null null = true
is_null _ = false

abbrev pub is_string : Value → Bool
is_string (string s) = true
is_string _ = false

abbrev pub is_boolean : Value → Bool
is_boolean (boolean b) = true
is_boolean _ = false

-- Array.isArray
abbrev pub is_array : Value → Bool
is_array (array xs) = true
is_array _ = false

-- `x && typeof x == "object" && !Array.isArray(x)`
abbrev pub is_object : Value → Bool
is_object (object fs) = true
is_object _ = false

-- `x === "…"` for one of the strings.
abbrev pub has_string : List String → String → Bool
has_string [] s = false
has_string (t ∷ ts) s = str_eq s t || has_string ts s

abbrev pub equals_one : List String → Value → Bool
equals_one names (string s) = has_string names s
equals_one names _ = false

-- `o[key]`
unfoldable pub lookup : String → Entries → Value
lookup key no_entries = undefined
lookup key (entry name v fs) = if str_eq name key then v else lookup key fs

abbrev pub member : String → Value → Value
member key (object fs) = lookup key fs
member key _ = undefined

unfoldable pub count_items : Elements → ℕ
count_items no_elements = 0
count_items (element v xs) = suc (count_items xs)

-- `a[index]`
unfoldable pub item_at : ℕ → Elements → Value
item_at n no_elements = undefined
item_at zero (element v xs) = v
item_at (suc n) (element v xs) = item_at n xs
