-- ===== src/Sessions/Rebind.antt =====
-- packages/typescript/src/sessions.ts: openContext and rebindIdentity.
pub mod Open
use ja3proxy.Base.{
  ℕ, ◌+◌, Bool, true, false, not, ◌&&◌, ◌||◌, String, str_eq, List, [], ◌∷◌, Option, none, some,
  ltb, ◌==◌, if◌then◌else◌,
}
use ja3proxy.Platform.{Url}
use ja3proxy.Errors.{Code, Kind, TransportError, Outcome, returned, threw, local_error}
use ja3proxy.Wire.Value.{
  Value, undefined, object, Entries, no_entries, entry, member, is_undefined, number, whole,
}
use ja3proxy.Service.{validate_connection}
use ja3proxy.Sessions.{
  Service, Settings, World, Session, Info, Exec, ◌>>=◌, ◌>>◌, give, require, read, change,
  add_cleanup, remove_context, at_revision, mutate,
}
use ja3proxy.Sessions.Cookies.{Reply, cookies, export_snapshot, import_command}
use Open.{open_context, pass}

-- RebindOutcome
pub data RebindOutcome : Type 0 where
  committed : (previous current : String) → RebindOutcome
  committed_cleanup_pending : (previous current : String) → TransportError → RebindOutcome

-- `{ ...value }` of an object, and of another value that has no properties.
abbrev pub spread : Value → Value
spread (object fs) = object fs
spread v = object no_entries

abbrev pub next_connection : Value → Value → Value
next_connection connection identity = object (
    entry "egress" (spread (member "egress" connection))
      (entry "identity" (spread identity) no_entries))

-- `if (active.aborted) throw …`
unfoldable pub check_active : Service → Exec (Unit {0})
check_active service w =
    if service.aborted w.sent
    then (threw (local_error Code.cancelled none), w)
    else (returned tt, w)

-- The `try` block of the import into the new context.
unfoldable pub import_staged : Service → Settings → Value → Info → Exec ℕ
unfolding check_active
import_staged service settings snapshot next = do
  reply ←
      cookies service settings (import_command snapshot (number (whole next.revision)))
        next.context_id
  require
      (reply.revision == next.revision + 1
        && is_undefined reply.cookies
        && is_undefined reply.snapshot)
      Code.protocol_error none
  check_active service
  give reply.revision

-- Its `catch` block: `removeContext(…).catch(() => undefined)`, and the error is thrown again.
unfoldable pub staged : Service → Info → Outcome ℕ × World → Outcome ℕ × World
staged service next (returned n, w) = (returned n, w)
staged service next (threw e, w) =
    let (o, w') =
      remove_context service next.context_id
        (record w { session = add_cleanup next.context_id w.session }) in
    (threw e, w')

-- `info = { ...next, revision }` and the assignment of the connection.
abbrev pub cut_over : Info → ℕ → Value → Session → Session
cut_over next revision connection s = record s {
  info = record next { revision = revision };
  connection = connection;
}

unfoldable pub removal :
    String → String → Outcome (Unit {0}) × World → Outcome RebindOutcome × World
removal previous current (returned t, w) = (returned (committed previous current), w)
removal previous current (threw e, w) = (returned (committed_cleanup_pending previous current e), w)

-- What follows the cutover.
unfoldable pub retire : Service → String → String → Exec RebindOutcome
unfolding removal
retire service previous current w = removal previous current (remove_context service previous w)

unfoldable pub rebind : (String → Option Url) → Service → Settings → Value → Exec RebindOutcome
unfolding pass export_snapshot import_staged staged retire
rebind parse service settings identity = do
  s ← read
  pass (validate_connection parse settings.capabilities (next_connection s.connection identity))
  snapshot ← export_snapshot service settings
  next ← open_context parse service settings (next_connection s.connection identity)
  change (add_cleanup next.context_id)
  revision ← λ w. staged service next (import_staged service settings snapshot next w)
  change (cut_over next revision (next_connection s.connection identity))
  change (add_cleanup s.info.context_id)
  retire service s.info.context_id next.context_id

-- rebindIdentity
unfoldable pub rebind_identity :
    (String → Option Url) → Service → Settings → Outcome (Unit {0}) → Value → Exec RebindOutcome
unfolding rebind
rebind_identity parse service settings turn identity =
    mutate turn (rebind parse service settings identity)
