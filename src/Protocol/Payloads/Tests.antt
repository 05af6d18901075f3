-- ===== src/Protocol/Payloads/Tests.antt =====
-- Values that the checks of packages/typescript/src/protocol.ts accept and refuse, and the theorems
-- at concrete values.
use ja3proxy.Base.{◌≡◌, refl, true, false, some, none, if◌then◌else◌}
use ja3proxy.Wire.Value.{string, object, no_entries, entry, lookup, member, undefined}
use ja3proxy.Protocol.Payloads.Patterns.{
  opaque_text, hexadecimal, one_line, header_name, profile_name, has_key, every,
}
use ja3proxy.Protocol.Payloads.{schema_diagnostics}
use ja3proxy.Protocol.Payloads.Capabilities.{includes, resolve_profile}
use ja3proxy.Protocol.Payloads.Legacy.{schema_diagnostics-member, supplied}
use ja3proxy.Protocol.Payloads.Resolve.{resolve_profile_offered}
use ja3proxy.Protocol.Payloads.Samples.{sample_capabilities, sample_valid}

patterns :
    (opaque_text "ctx-1:a.b_C" ≡ true)
    × (opaque_text "" ≡ false)
    × (opaque_text "a b" ≡ false)
    × (hexadecimal 16 "1111111111111111" ≡ true)
    × (hexadecimal 16 "0000000000000000" ≡ false)
    × (hexadecimal 16 "111111111111111g" ≡ false)
    × (hexadecimal 16 "111" ≡ false)
    × (one_line "a\nb" ≡ false)
    × (header_name "x-y" ≡ true)
    × (header_name "x y" ≡ false)
    × (profile_name "chrome_133" ≡ true)
    × (profile_name "Chrome" ≡ false)
unfolding opaque_text hexadecimal one_line header_name profile_name
patterns = (refl, refl, refl, refl, refl, refl, refl, refl, refl, refl, refl, refl)

schema_diagnostics-member_example :
    (member "spanId" (schema_diagnostics (object (entry "attempt" (string "1") no_entries))) ≡ (
      if has_key "spanId" (entry "attempt" (string "1") no_entries)
      then lookup "spanId" (entry "attempt" (string "1") no_entries)
      else if has_key "spanId" (entry "attempt" (string "1") no_entries)
      then undefined
      else supplied "spanId"))
    × (schema_diagnostics (schema_diagnostics (object (entry "attempt" (string "1") no_entries)))
        ≡ schema_diagnostics (object (entry "attempt" (string "1") no_entries)))
schema_diagnostics-member_example =
    schema_diagnostics-member "spanId" (entry "attempt" (string "1") no_entries)

resolved : resolve_profile sample_capabilities "chrome" ≡ some "chrome_133"
unfolding resolve_profile lookup includes every
resolved = refl

unresolved : resolve_profile sample_capabilities "firefox" ≡ none
unfolding resolve_profile lookup includes every
unresolved = refl

resolve_profile_offered_example :
    (includes "chrome_133" (member "profiles" sample_capabilities) ≡ true)
    × (resolve_profile sample_capabilities "chrome_133" ≡ some "chrome_133")
resolve_profile_offered_example =
    resolve_profile_offered sample_capabilities "chrome" sample_valid resolved
