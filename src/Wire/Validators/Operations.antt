-- ===== src/Wire/Validators/Operations.antt =====
-- The function validate29 for cookie operations of
-- packages/typescript/src/generated/compiled-validators.js, with the number of its errors for a result.
use ja3proxy.Base.{ℕ, [], ◌∷◌, some}
use ja3proxy.Wire.Value.{Value, is_string}
use ja3proxy.Wire.Checks.{
  Check, returns, counts, test, string_enum, integer_check, object_check, array_check, one_check,
  outcome, call, max_safe,
}
use ja3proxy.Wire.Validators.Cookies.{validate30}

unfoldable pub select_check : Check
select_check =
    object_check counts ("operation" ∷ "partition" ∷ "url" ∷ [])
      (some ("operation" ∷ "partition" ∷ "url" ∷ []))
      (("operation", string_enum counts ("select" ∷ []))
        ∷ ("partition", test counts is_string)
        ∷ ("url", test counts is_string)
        ∷ [])

unfoldable pub set_check : Check
set_check =
    object_check counts ("operation" ∷ "partition" ∷ "url" ∷ "cookies" ∷ "expectedRevision" ∷ [])
      (some ("cookies" ∷ "expectedRevision" ∷ "operation" ∷ "partition" ∷ "url" ∷ []))
      (("cookies", array_check counts (test counts is_string))
        ∷ ("expectedRevision", integer_check counts max_safe)
        ∷ ("operation", string_enum counts ("set" ∷ []))
        ∷ ("partition", test counts is_string)
        ∷ ("url", test counts is_string)
        ∷ [])

unfoldable pub export_check : Check
export_check =
    object_check counts ("operation" ∷ "partition" ∷ []) (some ("operation" ∷ "partition" ∷ [])) (
      ("operation", string_enum counts ("export" ∷ [])) ∷ ("partition", test counts is_string) ∷ [])

unfoldable pub import_check : Check
import_check =
    object_check counts ("operation" ∷ "partition" ∷ "snapshot" ∷ "expectedRevision" ∷ [])
      (some ("expectedRevision" ∷ "operation" ∷ "partition" ∷ "snapshot" ∷ []))
      (("expectedRevision", integer_check counts max_safe)
        ∷ ("operation", string_enum counts ("import" ∷ []))
        ∷ ("partition", test counts is_string)
        ∷ ("snapshot", call validate30)
        ∷ [])

unfoldable pub validate29 : Value → ℕ
validate29 v =
    outcome (one_check returns (select_check ∷ set_check ∷ export_check ∷ import_check ∷ []) v 0)
