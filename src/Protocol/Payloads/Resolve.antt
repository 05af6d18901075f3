-- ===== src/Protocol/Payloads/Resolve.antt =====
-- The profile that resolveProfile of packages/typescript/src/protocol.ts finds.
use ja3proxy.Base.{◌≡◌, Bool, true, inl, inr, String, str_eq, eq_iff, some, arith, Bool-cases}
use ja3proxy.Wire.Value.{
  Value, undefined, null, boolean, number, string, array, object, Entries, no_entries, entry,
  lookup, member,
}
use ja3proxy.Protocol.Payloads.Capabilities.{
  valid_capabilities, resolve_profile, includes, alias, every_entry, every_field, as_text,
}

-- A test that holds of every entry holds of the one that is found, unless none is.
every_entry-lookup :
    (p : String → Value → Bool) (key text : String) (fs : Entries)
    → every_entry p fs ≡ true
    → lookup key fs ≡ string text
    → p key (string text) ≡ true
unfolding every_entry lookup
every_entry-lookup p key text no_entries h e = cc
every_entry-lookup p key text (entry name v fs) h e = elim (Bool-cases (str_eq name key)) [
  | inl same ↦ ground (arith, eq_iff name key, same)
  | inr other ↦ every_entry-lookup p key text fs (ground arith) (ground (arith, other))
]

valid_capabilities-aliases :
    (caps : Value)
    → valid_capabilities caps ≡ true
    → every_field (alias (member "profiles" caps)) (member "profileAliases" caps) ≡ true
unfolding valid_capabilities
valid_capabilities-aliases caps h = ground arith

alias_target :
    (profiles aliases : Value) (name target : String)
    → every_field (alias profiles) aliases ≡ true
    → member name aliases ≡ string target
    → includes target profiles ≡ true
unfolding every_field alias
alias_target profiles (object fs) name target h e =
    let held = every_entry-lookup (alias profiles) name target fs h e in ground (arith, held)
alias_target profiles undefined name target h e = cc
alias_target profiles null name target h e = cc
alias_target profiles (boolean b) name target h e = cc
alias_target profiles (number n) name target h e = cc
alias_target profiles (string s) name target h e = cc
alias_target profiles (array xs) name target h e = cc

as_text-eq : (v : Value) {p : String} → as_text v ≡ some p → v ≡ string p
as_text-eq (string s) e = ground arith
as_text-eq undefined e = cc
as_text-eq null e = cc
as_text-eq (boolean b) e = cc
as_text-eq (number n) e = cc
as_text-eq (object fs) e = cc
as_text-eq (array xs) e = cc

-- With capabilities that the SDK accepts, the profile found for a name or an alias is one that the
-- service offers, and it is found again under its own name.
pub resolve_profile_offered :
    (caps : Value) (name : String) {p : String}
    → valid_capabilities caps ≡ true
    → resolve_profile caps name ≡ some p
    → (includes p (member "profiles" caps) ≡ true) × (resolve_profile caps p ≡ some p)
unfolding resolve_profile
resolve_profile_offered caps name {p} h e =
    let offered : includes p (member "profiles" caps) ≡ true =
      elim (Bool-cases (includes name (member "profiles" caps))) [
        | inl direct ↦ ground arith
        | inr aliased ↦
            alias_target (member "profiles" caps) (member "profileAliases" caps) name p
              (valid_capabilities-aliases caps h)
              (as_text-eq (member name (member "profileAliases" caps)) (ground arith))
      ] in
    (offered, rw offered)
