-- ===== src/Protocol/Payloads/Capabilities.antt =====
-- packages/typescript/src/protocol.ts: the check of a service's capabilities, and resolveProfile.
use ja3proxy.Base.{
  Bool, true, false, not, ◌&&◌, ◌||◌, String, str_eq, [], ◌∷◌, Option, none, some, ltb, leb,
  if◌then◌else◌,
}
use ja3proxy.Wire.Value.{
  Value, number, string, array, object, whole, element, Entries, no_entries, entry, member,
  equals_one,
}
use ja3proxy.Wire.Validators.{capabilities, validate_wire}
use ja3proxy.Protocol.Payloads.Patterns.{
  text_length, profile_name, positive, nonnegative_integer, every, header_pairs,
}
use ja3proxy.Protocol.Payloads.{is_record, is_profile}

-- `a.includes(s)`
unfoldable pub includes : String → Value → Bool
includes s (array xs) = not (every (λ v. not (equals_one (s ∷ []) v)) xs)
includes s _ = false

unfoldable pub includes_value : Value → Value → Bool
unfolding includes
includes_value (string s) xs = includes s xs
includes_value _ xs = false

unfoldable pub every_item : (Value → Bool) → Value → Bool
every_item p (array xs) = every p xs
every_item p _ = false

unfoldable pub every_entry : (String → Value → Bool) → Entries → Bool
every_entry p no_entries = true
every_entry p (entry key v fs) = p key v && every_entry p fs

-- `Object.entries(v).every(…)`
unfoldable pub every_field : (String → Value → Bool) → Value → Bool
unfolding every_entry
every_field p (object fs) = every_entry p fs
every_field p _ = false

some_text : Value → Bool
some_text (string s) = ltb 0 (text_length s)
some_text _ = false

some_items : Value → Bool
some_items (array (element v xs)) = true
some_items _ = false

unfoldable pub descriptor : Value → Value → Bool
unfolding includes_value
descriptor profiles v =
    includes_value (member "tlsProfile" v) profiles && header_pairs (member "headers" v)

unfoldable pub alias : Value → String → Value → Bool
unfolding includes includes_value
alias profiles name target =
    profile_name name && not (includes name profiles) && includes_value target profiles

abbrev frame_size : Value → Bool
frame_size (number (whole n)) = positive (number (whole n)) && leb n 65536
frame_size _ = false

unfoldable pub limit_field : String → Value → Bool
limit_field key v =
    if str_eq key "maxQueued" || str_eq key "maxQueuedPerPartition"
    then nonnegative_integer v
    else positive v

-- `capabilities`
unfoldable pub valid_capabilities : Value → Bool
unfolding some_text some_items every_item every_field descriptor alias limit_field includes
valid_capabilities v =
    validate_wire capabilities v
    && is_record v
    && equals_one ("ja3proxy" ∷ []) (member "service" v)
    && some_text (member "build" v)
    && some_items (member "profiles" v)
    && every_item is_profile (member "profiles" v)
    && every_item (descriptor (member "profiles" v)) (member "headerDescriptors" v)
    && every_field (alias (member "profiles" v)) (member "profileAliases" v)
    && equals_one ("application/vnd.ja3proxy" ∷ []) (member "contentType" (member "framing" v))
    && frame_size (member "maxMetadataBytes" (member "framing" v))
    && frame_size (member "maxDataBytes" (member "framing" v))
    && positive (member "maxUploadFrames" (member "framing" v))
    && every_field limit_field (member "limits" v)
    && includes "upload" (member "stream" (member "modes" v))
    && includes "download" (member "stream" (member "modes" v))
    && includes "request" (member "cancel" (member "modes" v))
    && includes "stream-drop" (member "cancel" (member "modes" v))

-- `typeof … === 'string'` holds of every target of an alias.
abbrev pub as_text : Value → Option String
as_text (string s) = some s
as_text _ = none

-- resolveProfile
unfoldable pub resolve_profile : Value → String → Option String
unfolding includes
resolve_profile caps name =
    if includes name (member "profiles" caps)
    then some name
    else as_text (member name (member "profileAliases" caps))
