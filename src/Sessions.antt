-- ===== src/Sessions.antt =====
-- packages/typescript/src/sessions.ts: the variables of createSession and its inner functions. The
-- service is an argument: it answers each control call as the calls before it determine, and it says
-- whether the signal is aborted after them. `sent` is what a session has sent, the latest first, with
-- the answers; so a function's effect is a new record of both. Control calls throw SDK errors only.
pub mod Cookies
pub mod Origins
pub mod Rebind
pub mod Close
pub mod Streams
pub mod Run
use ja3proxy.Base.{
  ℕ, ◌+◌, Bool, true, false, not, ◌&&◌, ◌||◌, String, str_eq, List, [], ◌∷◌, ◌++◌, Option, none,
  some, ltb, ◌==◌, if◌then◌else◌,
}
use ja3proxy.Errors.{Code, Kind, TransportError, Outcome, returned, threw, local_error}
use ja3proxy.Errors.Encoding.{as_text, as_number}
use ja3proxy.Wire.Value.{
  Value, undefined, string, object, array, Elements, no_elements, element, Entries, no_entries,
  entry, member, is_undefined, has_string,
}

-- The requests of a session to `service.control`, each with the path that it is sent to.
pub data Call : Type 0 where
  post_contexts : Value → Call
  post_cookies : String → Value → Call
  delete_context : String → Call

pub record Sent : Type 0 where
  pub call : Call
  pub answer : Outcome Value

pub record Service : Type 0 where
  pub capabilities : List Sent → Outcome Value
  pub answer : List Sent → Call → Outcome Value
  pub aborted : List Sent → Bool

-- ContextInfo, as copyContextInfo copies it.
pub record Info : Type 0 where
  pub context_id : String
  pub partition : String
  pub expires_at_ms : ℕ
  pub revision : ℕ
  pub cookie_mode : String
  pub identity : Value

-- `accepting` is what assertOpen of the session's Lifetime tests.
pub record Session : Type 0 where
  pub info : Info
  pub connection : Value
  pub cleanup : List String
  pub lost : Bool
  pub accepting : Bool

pub record World : Type 0 where
  pub session : Session
  pub sent : List Sent

-- What does not change after the creation of a session. `partition` has passed validatePartition.
pub record Settings : Type 0 where
  pub capabilities : Value
  pub partition : String
  pub managed : Bool
  pub origins : Elements
  pub ttl_ms : Option ℕ

abbrev pub Exec : Type 0 → Type 0
Exec A = World → Outcome A × World

abbrev pub next : {A B : Type 0} → (A → Exec B) → Outcome A × World → Outcome B × World
next f (returned a, w) = f a w
next f (threw e, w) = (threw e, w)

-- `await`, in which an error skips what follows.
infixl 5 ◌>>=◌ ◌>>◌
unfoldable pub ◌>>=◌ : {A B : Type 0} → Exec A → (A → Exec B) → Exec B
◌>>=◌ m f w = next f (m w)

abbrev pub ◌>>◌ : {B : Type 0} → Exec (Unit {0}) → Exec B → Exec B
m >> k = m >>= λ _. k

unfoldable pub give : {A : Type 0} → A → Exec A
give a w = (returned a, w)

-- `if (!test) throw localError(code, kind)`
unfoldable pub require : Bool → Code → Option Kind → Exec (Unit {0})
require b c k w = if b then (returned tt, w) else (threw (local_error c k), w)

unfoldable pub change : (Session → Session) → Exec (Unit {0})
change f w = (returned tt, record w { session = f w.session })

unfoldable pub read : Exec Session
read w = (returned w.session, w)

-- service.control
unfoldable pub control : Service → Call → Exec Value
control s c w =
    let o = s.answer w.sent c in (o, record w { sent = record { call = c; answer = o } ∷ w.sent })

-- Set.add and Set.delete
unfoldable pub add : String → List String → List String
add id ids = if has_string ids id then ids else ids ++ id ∷ []

unfoldable pub without : String → List String → List String
without id [] = []
without id (x ∷ xs) = if str_eq x id then without id xs else x ∷ without id xs

abbrev pub add_cleanup : String → Session → Session
add_cleanup id s = record s { cleanup = add id s.cleanup }

abbrev pub delete_cleanup : String → Session → Session
delete_cleanup id s = record s { cleanup = without id s.cleanup }

abbrev pub is_not_found : TransportError → Bool
is_not_found e = elim e.code [ Code.context_not_found ↦ true | _ ↦ false ]

-- markLost
unfoldable pub mark_lost : TransportError → String → Session → Session
mark_lost e id s =
    if str_eq s.info.context_id id && is_not_found e then record s { lost = true } else s

-- `info = { ...info, revision }`
abbrev pub at_revision : ℕ → Session → Session
at_revision n s = record s { info = record s.info { revision = n } }

-- applyRevision; every revision that it is called with has passed nonnegativeInteger.
unfoldable pub apply_revision : ℕ → String → Exec (Unit {0})
apply_revision n id w =
    let s = w.session in
    if not (str_eq s.info.context_id id)
    then (returned tt, w)
    else if ltb n s.info.revision
    then (threw (local_error Code.context_conflict none), w)
    else (returned tt, record w { session = at_revision n s })

-- The `catch` block of removeContext.
not_removed : String → TransportError → Exec (Unit {0})
not_removed id e w =
    if is_not_found e
    then (returned tt, record w { session = delete_cleanup id w.session })
    else (threw e, record w { session = add_cleanup id w.session })

removed : String → Outcome Value → Exec (Unit {0})
unfolding not_removed
removed id (threw e) w = not_removed id e w
removed id (returned v) w =
    if is_undefined v
    then (returned tt, record w { session = delete_cleanup id w.session })
    else not_removed id (local_error Code.protocol_error none) w

-- removeContext
unfoldable pub remove_context : Service → String → Exec (Unit {0})
unfolding control removed
remove_context service id w = let (o, w') = control service (delete_context id) w in removed id o w'

-- assertUsable
unfoldable pub assert_usable : Exec (Unit {0})
assert_usable w =
    if not w.session.accepting
    then (threw (local_error Code.cancelled (some Kind.client_closed)), w)
    else if w.session.lost
    then (threw (local_error Code.context_not_found none), w)
    else (returned tt, w)

-- The `catch` block of mutate.
unfoldable pub caught : {A : Type 0} → String → Outcome A × World → Outcome A × World
caught id (returned a, w) = (returned a, w)
caught id (threw e, w) = (threw e, record w { session = mark_lost e id w.session })

-- What the wait for the session's turn comes to: the turn, or the error of `acquire`, or the one
-- thrown behind it, because the context was lost meanwhile or the signal is aborted.
admitted : {A : Type 0} → Outcome (Unit {0}) → Exec A → Exec A
admitted (threw e) operation w = (threw e, w)
admitted (returned t) operation w = operation w

-- mutate; it runs alone, since the session's Admission has one slot.
unfoldable pub mutate : {A : Type 0} → Outcome (Unit {0}) → Exec A → Exec A
unfolding ◌>>=◌ read admitted assert_usable caught
mutate turn operation = do
  assert_usable
  s ← read
  λ w. caught s.info.context_id (admitted turn operation w)
