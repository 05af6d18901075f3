-- ===== src/Sessions/Cookies.antt =====
-- packages/typescript/src/sessions.ts: the cookie operations of a managed session.
use ja3proxy.Base.{ℕ, ◌+◌, Bool, false, not, ◌&&◌, String, none, some, ◌==◌}
use ja3proxy.Errors.{Code, Kind, Outcome}
use ja3proxy.Errors.Encoding.{as_number}
use ja3proxy.Wire.Value.{
  Value, number, string, array, object, whole, Entries, no_entries, entry, member, is_undefined,
  is_string,
}
use ja3proxy.Wire.Validators.{cookie_operation, cookie_reply, validate_wire}
use ja3proxy.Protocol.Payloads.{is_record, optionally, valid_cookie_records, valid_cookie_snapshot}
use ja3proxy.Protocol.Payloads.Patterns.{nonnegative_integer, every}
use ja3proxy.Sessions.{
  Service, Settings, Exec, ◌>>=◌, ◌>>◌, give, require, read, control, post_cookies, apply_revision,
  mutate,
}

-- CookieReply; an absent part is `undefined`.
pub record Reply : Type 0 where
  pub revision : ℕ
  pub cookies : Value
  pub snapshot : Value

unfoldable pub checked_reply : Value → Exec Reply
checked_reply v = do
  require (validate_wire cookie_reply v && is_record v && nonnegative_integer (member "revision" v))
      Code.protocol_error none
  require (optionally valid_cookie_records (member "cookies" v)) Code.protocol_error none
  require (optionally valid_cookie_snapshot (member "snapshot" v)) Code.protocol_error none
  give (record {
    revision = as_number (member "revision" v);
    cookies = member "cookies" v;
    snapshot = member "snapshot" v;
  })

-- `{ partition, ...command }`
abbrev pub cookie_request : Settings → Entries → Value
cookie_request settings command = object (entry "partition" (string settings.partition) command)

-- cookies
unfoldable pub cookies : Service → Settings → Entries → String → Exec Reply
unfolding checked_reply
cookies service settings command id = do
  require (validate_wire cookie_operation (cookie_request settings command)) Code.invalid_request
      (some Kind.invalid_input)
  v ← control service (post_cookies id (cookie_request settings command))
  checked_reply v

abbrev pub operation : String → Entries → Entries
operation name rest = entry "operation" (string name) rest

-- exportSnapshot
unfoldable pub export_snapshot : Service → Settings → Exec Value
unfolding cookies
export_snapshot service settings = do
  s ← read
  reply ← cookies service settings (operation "export" no_entries) s.info.context_id
  require (not (is_undefined reply.snapshot) && is_undefined reply.cookies) Code.protocol_error none
  apply_revision reply.revision s.info.context_id
  give reply.snapshot

-- getCookies
unfoldable pub get_cookies : Service → Settings → Outcome (Unit {0}) → Value → Exec Value
unfolding cookies
get_cookies service settings turn url = mutate turn (do
  s ← read
  reply ←
      cookies service settings (operation "select" (entry "url" url no_entries)) s.info.context_id
  require (not (is_undefined reply.cookies) && is_undefined reply.snapshot) Code.protocol_error none
  apply_revision reply.revision s.info.context_id
  give reply.cookies)

unfoldable pub strings : Value → Bool
strings (array xs) = every is_string xs
strings _ = false

-- What setCookies and importCookies share: a command that names the revision it expects, and a reply
-- that names the next one and nothing else.
unfoldable pub next_revision : Service → Settings → (Value → Entries) → Exec (Unit {0})
unfolding cookies
next_revision service settings command = do
  s ← read
  reply ← cookies service settings (command (number (whole s.info.revision))) s.info.context_id
  require
      (reply.revision == s.info.revision + 1
        && is_undefined reply.cookies
        && is_undefined reply.snapshot)
      Code.protocol_error none
  apply_revision reply.revision s.info.context_id

abbrev pub set_command : Value → Value → Value → Entries
set_command url values expected =
    operation "set"
      (entry "url" url (entry "cookies" values (entry "expectedRevision" expected no_entries)))

abbrev pub import_command : Value → Value → Entries
import_command snapshot expected =
    operation "import" (entry "snapshot" snapshot (entry "expectedRevision" expected no_entries))

-- setCookies
unfoldable pub set_cookies :
    Service → Settings → Outcome (Unit {0}) → Value → Value → Exec (Unit {0})
unfolding strings next_revision
set_cookies service settings turn url values = mutate turn (do
  require (strings values) Code.invalid_request (some Kind.invalid_input)
  next_revision service settings (set_command url values))

-- exportCookies
unfoldable pub export_cookies : Service → Settings → Outcome (Unit {0}) → Exec Value
unfolding export_snapshot
export_cookies service settings turn = mutate turn (export_snapshot service settings)

-- importCookies
unfoldable pub import_cookies : Service → Settings → Outcome (Unit {0}) → Value → Exec (Unit {0})
unfolding next_revision
import_cookies service settings turn snapshot = mutate turn (do
  require (valid_cookie_snapshot snapshot) Code.invalid_request (some Kind.invalid_input)
  next_revision service settings (import_command snapshot))
