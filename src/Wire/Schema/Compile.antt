-- ===== src/Wire/Schema/Compile.antt =====
-- The patterns of compiled-validators.js, put together along a schema.
use ja3proxy.Base.{◌||◌, String, List, [], ◌∷◌, none, some, if◌then◌else◌}
use ja3proxy.Wire.Value.{is_string, is_boolean, is_null}
use ja3proxy.Wire.Checks.{
  Check, Mode, returns, counts, test, string_enum, integer_check, nullable_integer, object_check,
  array_check, nullable_array, string_pair, value_check, any_check, one_check, outcome, call,
}
use ja3proxy.Wire.Schema.{
  Schema, a_string, a_boolean, a_null, nullable_string, nullable_boolean, pair_of_strings,
  map_of_strings, enum, integer, optional_integer, array_of, optional_array_of, object_with, any_of,
  one_of, ref, Members, no_members, member_of, Schemas, no_schemas, schema, names,
}

unfoldable mutual
  unfolding test string_enum integer_check nullable_integer object_check array_check nullable_array
      string_pair value_check any_check one_check outcome call

  pub compile : Mode → Schema → Check
  compile mode a_string = test mode is_string
  compile mode a_boolean = test mode is_boolean
  compile mode a_null = test mode is_null
  compile mode nullable_string = test mode λ v. is_string v || is_null v
  compile mode nullable_boolean = test mode λ v. is_boolean v || is_null v
  compile mode pair_of_strings = string_pair mode
  compile mode map_of_strings = value_check mode (test mode is_string)
  compile mode (enum values) = string_enum mode values
  compile mode (integer max) = integer_check mode max
  compile mode (optional_integer max) = nullable_integer mode max
  compile mode (array_of s) = array_check mode (compile mode s)
  compile mode (optional_array_of s) = nullable_array mode (compile mode s)
  compile mode (object_with required closed ms) =
      object_check mode required (if closed then some (names ms) else none)
        (compile_members mode ms)
  compile mode (any_of ss) = any_check mode (compile_all ss)
  compile mode (one_of ss) = one_check mode (compile_all ss)
  compile mode (ref s) = call λ v. outcome (compile returns s v 0)

  pub compile_members : Mode → Members → List (String × Check)
  compile_members mode no_members = []
  compile_members mode (member_of key s ms) = (key, compile mode s) ∷ compile_members mode ms

  pub compile_all : Schemas → List Check
  compile_all no_schemas = []
  compile_all (schema s ss) = compile counts s ∷ compile_all ss
