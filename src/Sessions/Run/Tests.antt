-- ===== src/Sessions/Run/Tests.antt =====
-- A service that opens contexts, a session of packages/typescript/src/sessions.ts over it, and the
-- theorems at that session.
mod Rebinds
use ja3proxy.Base.{◌≡◌, ◌⊎◌, refl, ◌∙◌, true, false, String, List, [], ◌∷◌, Option, none}
use ja3proxy.Platform.{Url}
use ja3proxy.Errors.{Code, returned, threw, local_error}
use ja3proxy.Wire.Value.{
  Value, undefined, boolean, string, array, object, no_elements, element, no_entries, entry, lookup,
}
use ja3proxy.Wire.Schema.{conforms}
use ja3proxy.Wire.Contracts
use ja3proxy.Wire.Validators.{create_context, validate_wire}
use ja3proxy.Wire.Validators.Conformance.{validate_wire-conforms}
use ja3proxy.Protocol.Payloads.Patterns.{opaque, opaque_text, every, one_line, profile_name}
use ja3proxy.Protocol.Payloads.Capabilities.{resolve_profile, includes}
use ja3proxy.Protocol.Payloads.Samples.{sample_capabilities, sample_context, sample_contexts}
use ja3proxy.Service.{validate_connection, validate_partition}
use ja3proxy.Sessions.{
  Service, Settings, World, Sent, post_contexts, post_cookies, delete_context, control, ◌>>=◌,
  require, give, remove_context, add,
}
use ja3proxy.Sessions.Rebind.Open.{
  open_context, pass, context_request, copy_context_info, matches_request, same, resolves_to,
  ttl_entry, ttl_fits,
}
use ja3proxy.Sessions.Close.{close, finish, remove_all}
use ja3proxy.Sessions.Run.{Event, stopped_accepting, create, new_session, opened, run, step}
use ja3proxy.Sessions.Cookies.{set_command, import_command, set_cookies, import_cookies}
use ja3proxy.Sessions.Rebind.{rebind_identity}
use ja3proxy.Sessions.Run.{rebound}
use ja3proxy.Sessions.Run.Triples.{Ends}
use ja3proxy.Sessions.Run.Changes.{Continues, Reports}
use ja3proxy.Sessions.Run.Rebinding.{rebind_identity_outcome}
use ja3proxy.Sessions.Run.Revisions.{Rebound, step_evolves}
use ja3proxy.Sessions.Run.Exact.{Advanced, Untouched, revision_exact}
use ja3proxy.Sessions.Run.Accounts.{accepted, opened_before, Opened, Accounted, Deleted}
use ja3proxy.Sessions.Run.Closing.{no_leak, close_deletes}

-- It answers with the context `c1`, then with `c2`, and lets every context be deleted.
abbrev service : Service
service = record {
  capabilities = λ sent. returned sample_capabilities;
  answer = λ sent c. elim c [
    | post_contexts v ↦
        returned (elim sent [ [] ↦ sample_context "c1" 3 | _ ↦ sample_context "c2" 0 ])
    | post_cookies id v ↦ threw (local_error Code.busy none)
    | delete_context id ↦ returned undefined
  ];
  aborted = λ sent. false;
}

abbrev settings : Settings
settings = record {
  capabilities = sample_capabilities;
  partition = "p";
  managed = true;
  origins = element (string "https://a") no_elements;
  ttl_ms = none;
}

abbrev parse : String → Option Url
parse s = none

abbrev identity : Value
identity =
    object (entry "tlsProfile" (string "chrome") (entry "emulateHeaders" (boolean true) no_entries))

abbrev connection : Value
connection = object (
    entry "identity" identity
      (entry "egress" (object (entry "mode" (string "direct") no_entries)) no_entries))

abbrev opening : Sent
opening = record {
  call = post_contexts (context_request settings connection);
  answer = returned (sample_context "c1" 3);
}

abbrev first_world : World
first_world = record {
  session = new_session connection (copy_context_info (sample_context "c1" 3));
  sent = opening ∷ [];
}

request_conforms : conforms Contracts.create_context (context_request settings connection) ≡ true
unfolding conforms lookup context_request ttl_entry
request_conforms = refl

request_valid : validate_wire create_context (context_request settings connection) ≡ true
request_valid =
    validate_wire-conforms create_context (context_request settings connection) ∙ request_conforms

created : create parse service settings connection ≡ returned first_world
unfolding create open_context pass control ◌>>=◌ require give validate_partition opaque opaque_text
    validate_connection resolve_profile includes every lookup one_line profile_name ttl_fits
    matches_request same resolves_to opened
created = rw request_valid (rw sample_contexts.0 refl)

matched : matches_request sample_capabilities settings connection (sample_context "c1" 3) ≡ true
unfolding matches_request same resolves_to lookup resolve_profile includes every
matched = rw sample_contexts.0 refl

abbrev stopped_session : List Event
stopped_session = stopped_accepting ∷ []

first-Opened :
    Opened service settings "c1" (run parse service settings stopped_session first_world).sent
unfolding run step context_request lookup
first-Opened =
    accepted sample_capabilities (context_request settings connection) (sample_context "c1" 3) refl
      refl refl matched refl

no_leak_example : Accounted "c1" (run parse service settings stopped_session first_world)
no_leak_example =
    no_leak parse service settings connection stopped_session created "c1" first-Opened

closes :
    (close service none (run parse service settings stopped_session first_world)).0 ≡ returned tt
unfolding close finish remove_all remove_context control run step
closes = refl

still-Opened :
    Opened service settings "c1"
      (close service none (run parse service settings stopped_session first_world)).1.sent
unfolding close finish remove_all remove_context control run step
still-Opened = opened_before first-Opened

close_deletes_example :
    ((close service none (run parse service settings stopped_session first_world)).1.session.cleanup
      ≡ [])
    × Deleted "c1"
        (close service none (run parse service settings stopped_session first_world)).1.sent
close_deletes_example =
    close_deletes parse service settings connection stopped_session created none closes "c1"
      still-Opened

-- A deletion that fails leaves the context to be deleted by the next close.
abbrev failing : Service
failing = record service { answer = λ sent c. threw (local_error Code.timeout none) }

still_there : (close failing none first_world).1.session.cleanup ≡ "c1" ∷ []
unfolding close finish remove_all remove_context control local_error add copy_context_info lookup
still_there = refl

step_evolves_example :
    Continues first_world.session
      (step parse service settings (rebound (returned tt) identity) first_world).session
    ⊎ Rebound parse service settings
        (rebound (returned tt) identity)
        first_world
        (step parse service settings (rebound (returned tt) identity) first_world).session
step_evolves_example =
    step_evolves parse service settings (rebound (returned tt) identity) first_world

revision_exact_example :
    Ends
      (λ t.
        Advanced service settings first_world
          (set_command (string "https://a/") (array no_elements)))
      (Untouched first_world)
      (set_cookies service settings
        (returned tt)
        (string "https://a/")
        (array no_elements)
        first_world)
    × Ends
        (λ t. Advanced service settings first_world (import_command undefined))
        (Untouched first_world)
        (import_cookies service settings (returned tt) undefined first_world)
revision_exact_example =
    revision_exact service settings (returned tt) first_world (string "https://a/")
      (array no_elements) undefined
