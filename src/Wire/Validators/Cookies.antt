-- ===== src/Wire/Validators/Cookies.antt =====
-- The functions for cookies of
-- packages/typescript/src/generated/compiled-validators.js, with the number of their errors for a result.
use ja3proxy.Base.{ℕ, [], ◌∷◌, none, some}
use ja3proxy.Wire.Value.{Value, is_string, is_boolean, is_null}
use ja3proxy.Wire.Checks.{
  returns, counts, test, string_enum, integer_check, nullable_integer, object_check, array_check,
  nullable_array, any_check, outcome, call, max_safe,
}

unfoldable pub validate21 : Value → ℕ
validate21 v = outcome (
    object_check returns
      ("name" ∷ "value" ∷ "domain" ∷ "path" ∷ "secure" ∷ "httpOnly" ∷ "hostOnly" ∷ "partitioned"
        ∷ [])
      (some (
        "domain" ∷ "expiresAtMs" ∷ "hostOnly" ∷ "httpOnly" ∷ "name" ∷ "partitioned" ∷ "path"
        ∷ "sameSite" ∷ "secure" ∷ "value" ∷ []))
      (("domain", test returns is_string)
        ∷ ("expiresAtMs", nullable_integer returns max_safe)
        ∷ ("hostOnly", test returns is_boolean)
        ∷ ("httpOnly", test returns is_boolean)
        ∷ ("name", test returns is_string)
        ∷ ("partitioned", test returns is_boolean)
        ∷ ("path", test returns is_string)
        ∷ (
          "sameSite",
          any_check returns
              (string_enum counts ("Strict" ∷ "Lax" ∷ "None" ∷ []) ∷ test counts is_null ∷ []),
        )
        ∷ ("secure", test returns is_boolean)
        ∷ ("value", test returns is_string)
        ∷ [])
      v 0)

unfoldable pub validate23 : Value → ℕ
validate23 v = outcome (
    object_check returns
      ("name" ∷ "value" ∷ "domain" ∷ "path" ∷ "secure" ∷ "httpOnly" ∷ "hostOnly" ∷ "partitioned"
        ∷ [])
      (some (
        "domain" ∷ "expiresAtMs" ∷ "hostOnly" ∷ "httpOnly" ∷ "name" ∷ "partitioned" ∷ "path"
        ∷ "sameSite" ∷ "secure" ∷ "value" ∷ []))
      (("domain", test returns is_string)
        ∷ ("expiresAtMs", nullable_integer returns max_safe)
        ∷ ("hostOnly", test returns is_boolean)
        ∷ ("httpOnly", test returns is_boolean)
        ∷ ("name", test returns is_string)
        ∷ ("partitioned", test returns is_boolean)
        ∷ ("path", test returns is_string)
        ∷ (
          "sameSite",
          any_check returns
              (string_enum counts ("Strict" ∷ "Lax" ∷ "None" ∷ []) ∷ test counts is_null ∷ []),
        )
        ∷ ("secure", test returns is_boolean)
        ∷ ("value", test returns is_string)
        ∷ [])
      v 0)

unfoldable pub validate22 : Value → ℕ
validate22 v = outcome (
    object_check returns ("partitionKey" ∷ "cookies" ∷ []) (some ("cookies" ∷ "partitionKey" ∷ []))
      (("cookies", array_check returns (call validate23))
        ∷ ("partitionKey", test returns is_string)
        ∷ [])
      v 0)

unfoldable pub validate31 : Value → ℕ
validate31 v = outcome (
    object_check returns
      ("name" ∷ "value" ∷ "domain" ∷ "path" ∷ "secure" ∷ "httpOnly" ∷ "hostOnly" ∷ "partitioned"
        ∷ [])
      (some (
        "domain" ∷ "expiresAtMs" ∷ "hostOnly" ∷ "httpOnly" ∷ "name" ∷ "partitioned" ∷ "path"
        ∷ "sameSite" ∷ "secure" ∷ "value" ∷ []))
      (("domain", test returns is_string)
        ∷ ("expiresAtMs", nullable_integer returns max_safe)
        ∷ ("hostOnly", test returns is_boolean)
        ∷ ("httpOnly", test returns is_boolean)
        ∷ ("name", test returns is_string)
        ∷ ("partitioned", test returns is_boolean)
        ∷ ("path", test returns is_string)
        ∷ (
          "sameSite",
          any_check returns
              (string_enum counts ("Strict" ∷ "Lax" ∷ "None" ∷ []) ∷ test counts is_null ∷ []),
        )
        ∷ ("secure", test returns is_boolean)
        ∷ ("value", test returns is_string)
        ∷ [])
      v 0)

unfoldable pub validate30 : Value → ℕ
validate30 v = outcome (
    object_check returns ("partitionKey" ∷ "cookies" ∷ []) (some ("cookies" ∷ "partitionKey" ∷ []))
      (("cookies", array_check returns (call validate31))
        ∷ ("partitionKey", test returns is_string)
        ∷ [])
      v 0)

unfoldable pub validate35 : Value → ℕ
validate35 v = outcome (
    object_check returns
      ("name" ∷ "value" ∷ "domain" ∷ "path" ∷ "secure" ∷ "httpOnly" ∷ "hostOnly" ∷ "partitioned"
        ∷ [])
      (some (
        "domain" ∷ "expiresAtMs" ∷ "hostOnly" ∷ "httpOnly" ∷ "name" ∷ "partitioned" ∷ "path"
        ∷ "sameSite" ∷ "secure" ∷ "value" ∷ []))
      (("domain", test returns is_string)
        ∷ ("expiresAtMs", nullable_integer returns max_safe)
        ∷ ("hostOnly", test returns is_boolean)
        ∷ ("httpOnly", test returns is_boolean)
        ∷ ("name", test returns is_string)
        ∷ ("partitioned", test returns is_boolean)
        ∷ ("path", test returns is_string)
        ∷ (
          "sameSite",
          any_check returns
              (string_enum counts ("Strict" ∷ "Lax" ∷ "None" ∷ []) ∷ test counts is_null ∷ []),
        )
        ∷ ("secure", test returns is_boolean)
        ∷ ("value", test returns is_string)
        ∷ [])
      v 0)

unfoldable pub validate37 : Value → ℕ
validate37 v = outcome (
    object_check returns ("partitionKey" ∷ "cookies" ∷ []) (some ("cookies" ∷ "partitionKey" ∷ []))
      (("cookies", array_check returns (call validate35))
        ∷ ("partitionKey", test returns is_string)
        ∷ [])
      v 0)

unfoldable pub validate34 : Value → ℕ
validate34 v = outcome (
    object_check returns ("revision" ∷ []) none
      (("cookies", nullable_array returns (call validate35))
        ∷ ("revision", integer_check returns max_safe)
        ∷ ("snapshot", any_check returns (call validate37 ∷ test counts is_null ∷ []))
        ∷ [])
      v 0)
