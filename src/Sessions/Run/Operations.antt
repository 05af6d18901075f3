-- ===== src/Sessions/Run/Operations.antt =====
-- A property that the parts of the operations of packages/typescript/src/sessions.ts keep is kept by
-- the operations.
use ja3proxy.Base.{Bool, true, false, String, Option, none, ℕ, if◌then◌else◌}
use ja3proxy.Platform.{Url}
use ja3proxy.Errors.{Code, TransportError, Outcome, returned, threw, local_error}
use ja3proxy.Wire.Value.{Value, Entries}
use ja3proxy.Sessions.{
  Service, Settings, World, Session, Call, post_contexts, post_cookies, ◌>>=◌, ◌>>◌, give, require,
  control, mark_lost, apply_revision, Info,
}
use ja3proxy.Sessions.Cookies.{
  Reply, cookies, checked_reply, export_snapshot, get_cookies, next_revision, set_cookies,
  export_cookies, import_cookies, import_command, set_command,
}
use ja3proxy.Sessions.Rebind.Open.{open_context, pass}
use ja3proxy.Sessions.Rebind.{check_active, import_staged}
use ja3proxy.Sessions.Run.Triples.{
  Ends, Keeps, bind-Keeps, require-Keeps, give-Keeps, read-Keeps, mutate-Triple,
}

module _ (service : Service) (settings : Settings) (P : World → Type 0)
    (sending : (id : String) (v : Value) → Keeps P (control service (post_cookies id v)))
    (applying : (n : ℕ) (id : String) → Keeps P (apply_revision n id)) where
  checked_reply-Keeps : (v : Value) → Keeps P (checked_reply v)
  unfolding checked_reply
  checked_reply-Keeps v = bind-Keeps (require-Keeps P _ _ _) λ t.
      bind-Keeps (require-Keeps P _ _ _) λ t. bind-Keeps (require-Keeps P _ _ _) λ t. give-Keeps P _

  pub cookies-Keeps :
      (command : Entries) (id : String) → Keeps P (cookies service settings command id)
  unfolding cookies
  cookies-Keeps command id =
      bind-Keeps (require-Keeps P _ _ _) λ t. bind-Keeps (sending id _) λ v. checked_reply-Keeps v

  -- The reply of `cookies` is tested, its revision applied, and a part of it given back.
  replied-Keeps :
      {A : Type 0} (command : Entries) (id : String) (test : Reply → Bool) (part : Reply → A)
      → Keeps P (do
        reply ← cookies service settings command id
        require (test reply) Code.protocol_error none
        apply_revision reply.revision id
        give (part reply))
  replied-Keeps command id test part =
      bind-Keeps (cookies-Keeps command id) λ reply.
        bind-Keeps (require-Keeps P _ _ _) λ t. bind-Keeps (applying _ _) λ t. give-Keeps P _

  pub export_snapshot-Keeps : Keeps P (export_snapshot service settings)
  unfolding export_snapshot
  export_snapshot-Keeps = bind-Keeps (read-Keeps P) λ s. replied-Keeps _ _ _ _

  pub next_revision-Keeps :
      (command : Value → Entries) → Keeps P (next_revision service settings command)
  unfolding next_revision
  next_revision-Keeps command = bind-Keeps (read-Keeps P) λ s.
      bind-Keeps (cookies-Keeps _ _) λ reply. bind-Keeps (require-Keeps P _ _ _) λ t. applying _ _

  module _
      (losing : (e : TransportError) (id : String) (w : World)
        → P w
        → P (record w { session = mark_lost e id w.session })) where
    pub get_cookies-Keeps :
        (turn : Outcome (Unit {0})) (url : Value) → Keeps P (get_cookies service settings turn url)
    unfolding get_cookies
    get_cookies-Keeps turn url =
        mutate-Triple P turn losing (bind-Keeps (read-Keeps P) λ s. replied-Keeps _ _ _ _)

    pub set_cookies-Keeps :
        (turn : Outcome (Unit {0})) (url values : Value)
        → Keeps P (set_cookies service settings turn url values)
    unfolding set_cookies
    set_cookies-Keeps turn url values =
        mutate-Triple P turn losing
          (bind-Keeps (require-Keeps P _ _ _) λ t. next_revision-Keeps (set_command url values))

    pub export_cookies-Keeps :
        (turn : Outcome (Unit {0})) → Keeps P (export_cookies service settings turn)
    unfolding export_cookies
    export_cookies-Keeps turn = mutate-Triple P turn losing export_snapshot-Keeps

    pub import_cookies-Keeps :
        (turn : Outcome (Unit {0})) (snapshot : Value)
        → Keeps P (import_cookies service settings turn snapshot)
    unfolding import_cookies
    import_cookies-Keeps turn snapshot =
        mutate-Triple P turn losing
          (bind-Keeps (require-Keeps P _ _ _) λ t. next_revision-Keeps (import_command snapshot))

pub pass-Keeps : {A : Type 0} (P : World → Type 0) (o : Outcome A) → Keeps P (pass o)
unfolding pass
pass-Keeps P (returned a) = record { run = λ w p. p }
pass-Keeps P (threw e) = record { run = λ w p. p }

asked : {A : Type 0} (P : World → Type 0) (o : Outcome A) (w : World) → P w → Ends (λ a. P) P (o, w)
asked P (returned a) w p = p
asked P (threw e) w p = p

pub open_context-Keeps :
    (parse : String → Option Url) (service : Service) (settings : Settings) (P : World → Type 0)
    → ((v : Value) → Keeps P (control service (post_contexts v)))
    → (connection : Value) → Keeps P (open_context parse service settings connection)
unfolding open_context
open_context-Keeps parse service settings P posting connection = bind-Keeps (pass-Keeps P _) λ t.
    bind-Keeps (record { run = λ w p. asked P (service.capabilities w.sent) w p })
      λ caps. bind-Keeps (pass-Keeps P _) λ t. bind-Keeps (require-Keeps P _ _ _) λ t.
        bind-Keeps (require-Keeps P _ _ _) λ t.
          bind-Keeps (require-Keeps P _ _ _)
            λ t. bind-Keeps (posting _) λ v. bind-Keeps (require-Keeps P _ _ _) λ t. give-Keeps P _

-- A property of the session alone is kept by what only sends.
pub control-Keeps :
    (service : Service) (call : Call) (P : Session → Type 0)
    → Keeps (λ w. P w.session) (control service call)
unfolding control
control-Keeps service call P = record {
  run = λ w p. asked (λ v. P v.session) (service.answer w.sent call) _ p;
}

active-Ends :
    (P : World → Type 0) (w : World) (b : Bool)
    → P w
    → Ends
        (λ (t : Unit {0}). P)
        P
        (if b then (threw (local_error Code.cancelled none), w) else (returned tt, w))
active-Ends P w true p = p
active-Ends P w false p = p

pub check_active-Keeps : (service : Service) (P : World → Type 0) → Keeps P (check_active service)
unfolding check_active
check_active-Keeps service P = record { run = λ w p. active-Ends P w (service.aborted w.sent) p }

module _ (service : Service) (settings : Settings) (P : World → Type 0)
    (sending : (id : String) (v : Value) → Keeps P (control service (post_cookies id v)))
    (applying : (n : ℕ) (id : String) → Keeps P (apply_revision n id)) where
  pub import_staged-Keeps :
      (snapshot : Value) (next : Info) → Keeps P (import_staged service settings snapshot next)
  unfolding import_staged
  import_staged-Keeps snapshot next =
      bind-Keeps (cookies-Keeps service settings P sending applying _ _) λ reply.
        bind-Keeps (require-Keeps P _ _ _)
          λ t. bind-Keeps (check_active-Keeps service P) λ t. give-Keeps P _
