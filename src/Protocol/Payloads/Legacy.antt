-- ===== src/Protocol/Payloads/Legacy.antt =====
-- Diagnostics of an older service, which packages/typescript/src/protocol.ts completes before it
-- validates them.
use ja3proxy.Base.{
  ◌≡◌, refl, inl, inr, true, false, ◌||◌, String, str_eq, eq_iff, arith, Bool-cases, if◌then◌else◌,
}
use ja3proxy.Wire.Value.{
  Value, undefined, string, object, Entries, no_entries, entry, lookup, member,
}
use ja3proxy.Protocol.Payloads.Patterns.{has_key, with_entry}
use ja3proxy.Protocol.Payloads.{schema_diagnostics, supply_trace, legacy_span_id, legacy_trace_id}

lookup-with_entry :
    (j k : String) (v : Value) (fs : Entries)
    → lookup j (with_entry k v fs) ≡ (if str_eq k j then v else lookup j fs)
unfolding lookup with_entry
lookup-with_entry j k v no_entries = refl
lookup-with_entry j k v (entry i w fs) =
    ground (arith, eq_iff k j, eq_iff i k, eq_iff i j, lookup-with_entry j k v fs)

has_key-with_entry :
    (j k : String) (v : Value) (fs : Entries)
    → has_key j (with_entry k v fs) ≡ (str_eq k j || has_key j fs)
unfolding has_key with_entry
has_key-with_entry j k v no_entries = ground arith
has_key-with_entry j k v (entry i w fs) =
    ground (arith, eq_iff k j, eq_iff i k, eq_iff i j, has_key-with_entry j k v fs)

lookup-absent : (j : String) (fs : Entries) → has_key j fs ≡ false → lookup j fs ≡ undefined
unfolding has_key lookup
lookup-absent j no_entries h = refl
lookup-absent j (entry i w fs) h = ground (arith, lookup-absent j fs)

abbrev pub supplied : String → Value
supplied key =
    if str_eq "spanId" key
    then string legacy_span_id
    else if str_eq "traceId" key
    then string legacy_trace_id
    else undefined

supply_trace-lookup :
    (key : String) (fs : Entries)
    → has_key "spanId" fs ≡ false
    → lookup key (supply_trace fs) ≡ (if has_key key fs then lookup key fs else supplied key)
unfolding supply_trace
supply_trace-lookup key fs none_before = elim (Bool-cases (has_key "traceId" fs)) [
  | inl traced ↦
      rw (traced, lookup-with_entry key "spanId" (string legacy_span_id) fs)
        (ground (
          arith,
          eq_iff "spanId" key,
          eq_iff "traceId" key,
          lookup-absent key fs,
          none_before,
          traced,
        ))
  | inr untraced ↦
      rw
        (
          untraced,
          lookup-with_entry key "spanId" (string legacy_span_id)
              (with_entry "traceId" (string legacy_trace_id) fs),
          lookup-with_entry key "traceId" (string legacy_trace_id) fs,
        )
        (ground (
          arith,
          eq_iff "spanId" key,
          eq_iff "traceId" key,
          lookup-absent key fs,
          none_before,
          untraced,
        ))
]

supply_trace-has_key : (fs : Entries) → has_key "spanId" (supply_trace fs) ≡ true
unfolding supply_trace
supply_trace-has_key fs = ground (
  arith,
  has_key-with_entry "spanId" "spanId" (string legacy_span_id)
      (if has_key "traceId" fs then fs else with_entry "traceId" (string legacy_trace_id) fs),
  eq_iff "spanId" "spanId",
)

-- Every own property keeps its value. Properties are added only where there is no spanId, and then
-- spanId and traceId alone; to complete a value twice is to complete it once.
pub schema_diagnostics-member :
    (key : String) (fs : Entries)
    → (member key (schema_diagnostics (object fs)) ≡ (
        if has_key key fs
        then lookup key fs
        else if has_key "spanId" fs
        then undefined
        else supplied key))
      × (schema_diagnostics (schema_diagnostics (object fs)) ≡ schema_diagnostics (object fs))
unfolding schema_diagnostics
schema_diagnostics-member key fs = elim (Bool-cases (has_key "spanId" fs)) [
  | inl new ↦ rw (new, new) (ground (arith, lookup-absent key fs), refl)
  | inr old ↦ rw (old, supply_trace-has_key fs) (supply_trace-lookup key fs old, refl)
]
