-- ===== src/Wire/Schema/Sound.antt =====
-- Code that is put together along a schema, against the schema.
use ja3proxy.Base.{ℕ, ◌+◌, ◌≡◌, refl, sym, ap, subst, Bool, true, false, ◌||◌, ◌==◌, arith, ltb}
use ja3proxy.Wire.Value.{Value, is_string, is_boolean, is_null}
use ja3proxy.Wire.Checks.{
  Step, going, Mode, returns, counts, properties, any_branches, one_branches, any_check, one_check,
  outcome, call, gated,
}
use ja3proxy.Wire.Schema.{
  Schema, a_string, a_boolean, a_null, nullable_string, nullable_boolean, pair_of_strings,
  map_of_strings, enum, integer, optional_integer, array_of, optional_array_of, object_with, any_of,
  one_of, ref, Members, no_members, member_of, Schemas, no_schemas, schema, names, conforms,
  members_conform, matches,
}
use ja3proxy.Wire.Schema.Compile.{compile, compile_members, compile_all}
use ja3proxy.Wire.Schema.Meets.{
  Meets, passes, adds, leaves, Meets-test, Meets-gate, string_enum_lem, integer_lem,
  nullable_integer_lem,
}
use ja3proxy.Wire.Schema.Nested.{
  Decides, property-Decides, object-Decides, array-Decides, value-Decides, nullable_array-Decides,
  pair-Decides,
}
use ja3proxy.Wire.Schema.Composed.{
  Leaves, chosen, rejected, composed_lem, any_next_lem, one_next_lem, one_if, zero_left,
  Leaves-same,
}

plus_zero : (n : ℕ) → n ≡ n + 0
plus_zero n = omega arith

call_lem :
    (mode : Mode) (n : ℕ) (b : Bool) (x : Step)
    → Meets returns 0 b x
    → Meets mode n b (going (n + outcome x))
unfolding outcome
call_lem mode n b x passes = subst (λ k. Meets mode n true (going k)) (plus_zero n) passes
call_lem mode n b x (adds m h) = adds (n + m) (omega arith)
call_lem mode n b x (leaves m e h) = adds (n + m) (omega arith)

mutual
  unfolding compile compile_members compile_all conforms members_conform matches properties gated
      any_branches one_branches any_check one_check call

  pub compile-Decides : (mode : Mode) (s : Schema) → Decides mode (compile mode s) (conforms s)
  compile-Decides mode a_string v n = Meets-test mode is_string v n
  compile-Decides mode a_boolean v n = Meets-test mode is_boolean v n
  compile-Decides mode a_null v n = Meets-test mode is_null v n
  compile-Decides mode nullable_string v n = Meets-test mode (λ w. is_string w || is_null w) v n
  compile-Decides mode nullable_boolean v n = Meets-test mode (λ w. is_boolean w || is_null w) v n
  compile-Decides mode pair_of_strings v n = pair-Decides mode v n
  compile-Decides mode map_of_strings v n =
      value-Decides mode _ is_string (Meets-test mode is_string) v n
  compile-Decides mode (enum values) v n = string_enum_lem mode values v n
  compile-Decides mode (integer max) v n = integer_lem mode max v n
  compile-Decides mode (optional_integer max) v n = nullable_integer_lem mode max v n
  compile-Decides mode (array_of s) v n =
      array-Decides mode _ (conforms s) (compile-Decides mode s) v n
  compile-Decides mode (optional_array_of s) v n =
      nullable_array-Decides mode _ (conforms s) (compile-Decides mode s) v n
  compile-Decides mode (object_with required closed ms) v n =
      object-Decides mode required closed (names ms) _ (members_conform ms)
        (members-Decides mode ms) v n
  compile-Decides mode (any_of ss) v n = composed_lem mode n _ _ (any_lem ss v n)
  compile-Decides mode (one_of ss) v n = composed_lem mode n _ _ (
      Leaves-same n _ _ _ (ap (λ k. k == 1) (sym (zero_left (matches ss v))))
        (one_lem false ss v n))
  compile-Decides mode (ref s) v n =
      call_lem mode n (conforms s v) _ (compile-Decides returns s v 0)

  members-Decides :
      (mode : Mode) (ms : Members)
      → Decides mode (properties (compile_members mode ms)) (members_conform ms)
  members-Decides mode no_members v n = passes
  members-Decides mode (member_of key s ms) v n =
      Meets-gate n _ _ _ (properties (compile_members mode ms) v)
        (property-Decides mode key _ (conforms s) (compile-Decides mode s) v n)
        (λ e. members-Decides mode ms v n)

  any_lem :
      (ss : Schemas) (v : Value) (n : ℕ)
      → Leaves n (ltb 0 (matches ss v)) (any_branches (compile_all ss) v n)
  any_lem no_schemas v n = rejected n refl (omega arith)
  any_lem (schema s ss) v n = any_next_lem n _ _ _ _ (compile-Decides counts s v n) (any_lem ss v)

  one_lem :
      (valid : Bool) (ss : Schemas) (v : Value) (n : ℕ)
      → Leaves n ((one_if valid + matches ss v) == 1) (one_branches valid (compile_all ss) v n)
  one_lem true no_schemas v n = chosen n refl
  one_lem false no_schemas v n = rejected n refl (omega arith)
  one_lem valid (schema s ss) v n =
      one_next_lem n _ valid _ _ _ (compile-Decides counts s v n)
        (λ valid' m. one_lem valid' ss v m)

outcome_lem : (b : Bool) (x : Step) → Meets returns 0 b x → (outcome x == 0) ≡ b
unfolding outcome
outcome_lem b x passes = refl
outcome_lem b x (adds m h) = ground arith
outcome_lem b x (leaves m e h) = ground arith

pub accepts-compile :
    (s : Schema) (v : Value) → (outcome (compile returns s v 0) == 0) ≡ conforms s v
accepts-compile s v = outcome_lem (conforms s v) _ (compile-Decides returns s v 0)
