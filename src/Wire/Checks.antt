-- ===== src/Wire/Checks.antt =====
-- The code patterns of packages/typescript/src/generated/compiled-validators.js: what the code of one
-- keyword does with the number `errors`. Of the error list `vErrors` and of a function's `.errors`
-- only the length is kept, which is what the code tests.
use ja3proxy.Base.{
  ℕ, ◌+◌, Bool, true, false, not, ◌&&◌, ◌||◌, String, List, [], ◌∷◌, ltb, ◌==◌, Option, some,
  if◌then◌else◌,
}
use ja3proxy.Wire.Value.{
  Value, number, array, object, Elements, no_elements, element, Entries, no_entries, entry,
  is_finite, is_nan, exceeds, is_negative, is_integer, is_undefined, is_null, is_string, is_array,
  is_object, has_string, equals_one, member, count_items, item_at,
}

-- The code goes on with so many errors, or it has returned false with so many in `.errors`.
pub data Step : Type 0 where
  going : ℕ → Step
  returned : ℕ → Step

abbrev pub Check : Type 0
Check = Value → ℕ → Step

-- The maximum of an integer that has no other.
abbrev pub max_safe : ℕ
max_safe = 9007199254740991

-- What an error does: `return false` behind a list of one error, or `errors++` within a composition.
pub data Mode : Type 0 where
  returns counts : Mode

unfoldable pub fault : Mode → ℕ → Step
fault returns errors = returned 1
fault counts errors = going (errors + 1)

unfoldable pub after : Step → (ℕ → Step) → Step
after (returned n) next = returned n
after (going n) next = next n

unfoldable pub test : Mode → (Value → Bool) → Check
unfolding fault
test mode ok v errors = if ok v then going errors else fault mode errors

-- One keyword behind another, and one behind `if (_errs === errors)`.
unfoldable pub both : Check → Check → Check
unfolding after
both c d v errors = after (c v errors) λ n. d v n

unfoldable pub gated : Check → Check → Check
unfolding after
gated c d v errors = after (c v errors) λ n. if n == errors then d v n else going n

-- `type` and `enum` or `const` of a string.
unfoldable pub string_enum : Mode → List String → Check
unfolding both test
string_enum mode names = both (test mode is_string) (test mode (equals_one names))

unfoldable pub bounds : Mode → ℕ → Check
unfolding fault
bounds mode max (number x) errors =
    if is_finite x
    then if exceeds max x || is_nan x
      then fault mode errors
      else if is_negative x || is_nan x
      then fault mode errors
      else going errors
    else going errors
bounds mode max _ errors = going errors

unfoldable pub integer_check : Mode → ℕ → Check
unfolding gated test bounds
integer_check mode max = gated (test mode is_integer) (bounds mode max)

unfoldable pub nullable_integer : Mode → ℕ → Check
unfolding gated test bounds
nullable_integer mode max = gated (test mode λ v. is_integer v || is_null v) (bounds mode max)

-- `required`: a value is missing where it is undefined.
unfoldable pub none_missing : List String → Value → Bool
none_missing [] v = true
none_missing (key ∷ keys) v = not (is_undefined (member key v)) && none_missing keys v

unfoldable pub property : String → Check → Check
property key c v errors =
    if is_undefined (member key v) then going errors else c (member key v) errors

unfoldable pub properties : List (String × Check) → Check
unfolding property gated
properties [] v errors = going errors
properties ((key, c) ∷ rest) v errors = gated (property key c) (properties rest) v errors

-- The loop over the keys that `additionalProperties: false` makes.
unfoldable pub known_keys : Mode → List String → Entries → ℕ → Step
unfolding fault
known_keys mode keys no_entries errors = going errors
known_keys mode keys (entry key v fs) errors =
    if has_string keys key then known_keys mode keys fs errors else fault mode errors

unfoldable pub closed : Mode → Option (List String) → Check
unfolding known_keys
closed mode (some keys) (object fs) errors = known_keys mode keys fs errors
closed mode _ v errors = going errors

unfoldable pub object_check :
    Mode → List String → Option (List String) → List (String × Check) → Check
unfolding none_missing closed gated properties fault
object_check mode required keys props v errors =
    if is_object v
    then if none_missing required v
      then gated (closed mode keys) (properties props) v errors
      else fault mode errors
    else fault mode errors

-- The loop over an array or over the values of an object, which a failing entry leaves.
unfoldable pub each_item : Check → Elements → ℕ → Step
unfolding after
each_item c no_elements errors = going errors
each_item c (element v xs) errors =
    after (c v errors) λ n. if n == errors then each_item c xs n else going n

unfoldable pub each_value : Check → Entries → ℕ → Step
unfolding after
each_value c no_entries errors = going errors
each_value c (entry key v fs) errors =
    after (c v errors) λ n. if n == errors then each_value c fs n else going n

unfoldable pub array_check : Mode → Check → Check
unfolding each_item fault
array_check mode c (array xs) errors = each_item c xs errors
array_check mode c _ errors = fault mode errors

unfoldable pub items_check : Check → Check
unfolding each_item
items_check c (array xs) errors = each_item c xs errors
items_check c _ errors = going errors

-- `type: ["array", "null"]`
unfoldable pub nullable_array : Mode → Check → Check
unfolding gated test items_check
nullable_array mode c = gated (test mode λ v. is_array v || is_null v) (items_check c)

-- Arrays of two strings.
unfoldable pub string_pair : Mode → Check
unfolding gated test fault
string_pair mode (array xs) errors =
    if ltb 2 (count_items xs)
    then fault mode errors
    else if ltb (count_items xs) 2
    then fault mode errors
    else gated (λ v. test mode is_string (item_at 0 xs)) (λ v. test mode is_string (item_at 1 xs))
        (array xs) errors
string_pair mode _ errors = fault mode errors

unfoldable pub value_check : Mode → Check → Check
unfolding each_value fault
value_check mode c (object fs) errors = each_value c fs errors
value_check mode c _ errors = fault mode errors

-- The branches of `anyOf` and `oneOf` leave their errors and the flag `valid`.
pub data Branches : Type 0 where
  tried : Bool → ℕ → Branches
  left : ℕ → Branches

unfoldable pub any_next : Step → ℕ → (ℕ → Branches) → Branches
any_next (returned n) errors next = left n
any_next (going n) errors next = if n == errors then tried true n else next n

unfoldable pub any_branches : List Check → Value → ℕ → Branches
unfolding any_next
any_branches [] v errors = tried false errors
any_branches (c ∷ cs) v errors = any_next (c v errors) errors (any_branches cs v)

-- A second valid branch ends `oneOf`.
unfoldable pub one_next : Bool → Step → ℕ → (Bool → ℕ → Branches) → Branches
one_next valid (returned n) errors next = left n
one_next valid (going n) errors next =
    if n == errors && valid then tried false n else next (n == errors || valid) n

unfoldable pub one_branches : Bool → List Check → Value → ℕ → Branches
unfolding one_next
one_branches valid [] v errors = tried valid errors
one_branches valid (c ∷ cs) v errors =
    one_next valid (c v errors) errors λ valid' n. one_branches valid' cs v n

-- Behind the branches the errors are reset, or one more is pushed and all are returned.
unfoldable pub composed : Mode → Branches → ℕ → Step
composed mode (tried true n) errors = going errors
composed returns (tried false n) errors = returned (n + 1)
composed counts (tried false n) errors = going (n + 1)
composed mode (left n) errors = returned n

unfoldable pub any_check : Mode → List Check → Check
unfolding any_branches composed
any_check mode cs v errors = composed mode (any_branches cs v errors) errors

unfoldable pub one_check : Mode → List Check → Check
unfolding one_branches composed
one_check mode cs v errors = composed mode (one_branches false cs v errors) errors

-- A function ends with so many errors, and returns whether there are none.
unfoldable pub outcome : Step → ℕ
outcome (going n) = n
outcome (returned n) = n

-- `if (!validate…(…)) { vErrors = vErrors.concat(validate….errors); errors = vErrors.length; }`
unfoldable pub call : (Value → ℕ) → Check
call validate v errors = going (errors + validate v)
