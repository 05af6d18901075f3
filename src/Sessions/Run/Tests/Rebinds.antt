-- ===== src/Sessions/Run/Tests/Rebinds.antt =====
-- A session of packages/typescript/src/sessions.ts that changes its identity, and the theorem at it.
use ja3proxy.Base.{◌≡◌, refl, ◌∙◌, true, none, if◌then◌else◌}
use ja3proxy.Errors.{Code, returned, threw, local_error}
use ja3proxy.Wire.Value.{
  Value, number, string, array, object, whole, no_elements, no_entries, entry, lookup, member,
}
use ja3proxy.Wire.Schema.{conforms}
use ja3proxy.Wire.Contracts
use ja3proxy.Wire.Validators.{
  create_context, cookie_operation, cookie_reply, cookie_snapshot, validate_wire,
}
use ja3proxy.Wire.Validators.Conformance.{validate_wire-conforms}
use ja3proxy.Protocol.Payloads.{valid_cookie_snapshot, valid_cookie_records}
use ja3proxy.Protocol.Payloads.Patterns.{
  opaque, opaque_text, every, one_line, profile_name, nonnegative_integer,
}
use ja3proxy.Protocol.Payloads.Capabilities.{resolve_profile, includes}
use ja3proxy.Protocol.Payloads.Samples.{sample_contexts}
use ja3proxy.Service.{validate_connection, validate_partition}
use ja3proxy.Sessions.{
  Service, post_cookies, delete_context, control, ◌>>=◌, require, give, read, change,
  remove_context, add, mutate, assert_usable, caught, apply_revision, without,
}
use ja3proxy.Sessions.Cookies.{
  cookie_request, operation, import_command, cookies, checked_reply, export_snapshot,
}
use ja3proxy.Sessions.Rebind.{
  rebind_identity, rebind, import_staged, staged, check_active, retire, removal, next_connection,
  committed, committed_cleanup_pending,
}
use ja3proxy.Sessions.Rebind.Open.{
  open_context, pass, context_request, copy_context_info, matches_request, same, resolves_to,
  ttl_entry, ttl_fits,
}
use ja3proxy.Sessions.Run.Triples.{Ends}
use ja3proxy.Sessions.Run.Changes.{Continues, Reports}
use ja3proxy.Sessions.Run.Rebinding.{rebind_identity_outcome}
use ja3proxy.Sessions.Run.Tests.{service, settings, parse, identity, connection, first_world}

abbrev snapshot : Value
snapshot =
    object
      (entry "partitionKey" (string "https://a") (entry "cookies" (array no_elements) no_entries))

abbrev exported_reply : Value
exported_reply = object (entry "revision" (number (whole 3)) (entry "snapshot" snapshot no_entries))

abbrev imported_reply : Value
imported_reply = object (entry "revision" (number (whole 1)) no_entries)

-- It serves the cookies of each context too.
abbrev serving : Service
serving = record service {
  answer = λ sent c. elim c [
    | post_cookies id v ↦
        returned
          (if same (member "operation" v) (string "export") then exported_reply else imported_reply)
    | d ↦ service.answer sent d
  ];
}

abbrev wanted : Value
wanted = context_request settings (next_connection connection identity)

abbrev export_request : Value
export_request = cookie_request settings (operation "export" no_entries)

abbrev import_request : Value
import_request = cookie_request settings (import_command snapshot (number (whole 0)))

conforming :
    (conforms Contracts.create_context wanted ≡ true)
    × (conforms Contracts.cookie_operation export_request ≡ true)
    × (conforms Contracts.cookie_operation import_request ≡ true)
    × (conforms Contracts.cookie_reply exported_reply ≡ true)
    × (conforms Contracts.cookie_reply imported_reply ≡ true)
    × (conforms Contracts.cookie_snapshot snapshot ≡ true)
unfolding conforms lookup context_request ttl_entry
conforming = (refl, refl, refl, refl, refl, refl)

valid :
    (validate_wire create_context wanted ≡ true)
    × (validate_wire cookie_operation export_request ≡ true)
    × (validate_wire cookie_operation import_request ≡ true)
    × (validate_wire cookie_reply exported_reply ≡ true)
    × (validate_wire cookie_reply imported_reply ≡ true)
    × (validate_wire cookie_snapshot snapshot ≡ true)
valid = (
  validate_wire-conforms create_context wanted ∙ conforming.0,
  validate_wire-conforms cookie_operation export_request ∙ conforming.1,
  validate_wire-conforms cookie_operation import_request ∙ conforming.2,
  validate_wire-conforms cookie_reply exported_reply ∙ conforming.3,
  validate_wire-conforms cookie_reply imported_reply ∙ conforming.4,
  validate_wire-conforms cookie_snapshot snapshot ∙ conforming.5,
)

runs : Unit {0}
unfolding rebind_identity rebind mutate assert_usable caught ◌>>=◌ read give require change control
    pass export_snapshot cookies checked_reply valid_cookie_snapshot valid_cookie_records
    nonnegative_integer apply_revision import_staged staged check_active retire removal
    remove_context add without open_context validate_partition opaque opaque_text
    validate_connection resolve_profile includes every lookup one_line profile_name ttl_fits
    matches_request same resolves_to copy_context_info
runs = tt

rebinds :
    (rebind_identity parse serving settings (returned tt) identity first_world).0
    ≡ returned (committed "c1" "c2")
unfolding runs
rebinds = rw (valid.1, valid.3, valid.5, valid.0, sample_contexts.1, valid.2, valid.4) refl

-- It does not delete the old context.
abbrev stubborn : Service
stubborn = record serving {
  answer = λ sent c. elim c [
    | delete_context id ↦ threw (local_error Code.busy none)
    | d ↦ serving.answer sent d
  ];
}

pends :
    (rebind_identity parse stubborn settings (returned tt) identity first_world).0
    ≡ returned (committed_cleanup_pending "c1" "c2" (local_error Code.busy none))
unfolding runs local_error
pends = rw (valid.1, valid.3, valid.5, valid.0, sample_contexts.1, valid.2, valid.4) refl

rebind_identity_outcome_example :
    Ends
      (Reports first_world.session identity)
      (λ v. Continues first_world.session v.session)
      (rebind_identity parse serving settings (returned tt) identity first_world)
rebind_identity_outcome_example =
    rebind_identity_outcome parse serving settings (returned tt) identity first_world
