-- ===== src/Sessions/Run/Revisions.antt =====
-- How the revision of a session of packages/typescript/src/sessions.ts moves.
use ja3proxy.Base.{
  ◌≡◌, ◌⊎◌, refl, sym, ap, subst, inl, inr, Bool, String, List, [], ◌∷◌, Option, none, some, arith,
  ℕ,
}
use ja3proxy.Platform.{Url}
use ja3proxy.Errors.{TransportError, Outcome, returned, threw}
use ja3proxy.Wire.Value.{Value}
use ja3proxy.Sessions.{
  Service, Settings, World, Session, Info, post_cookies, control, apply_revision, remove_context,
}
use ja3proxy.Sessions.Cookies.{get_cookies, set_cookies, export_cookies, import_cookies}
use ja3proxy.Sessions.Rebind.{RebindOutcome, rebind_identity}
use ja3proxy.Sessions.Close.{close, finish, remove_all}
use ja3proxy.Sessions.Streams.{Exchange, accept, apply, failed}
use ja3proxy.Sessions.Run.Triples.{Ends, Keeps, ends_world, either_world}
use ja3proxy.Sessions.Run.Operations.{
  get_cookies-Keeps, set_cookies-Keeps, export_cookies-Keeps, import_cookies-Keeps, control-Keeps,
}
use ja3proxy.Sessions.Run.Changes.{
  Continues, Continues-refl, Reports, After, losing, applying, applied, remove_context-Keeps,
}
use ja3proxy.Sessions.Run.Rebinding.{rebind_identity_outcome}
use ja3proxy.Sessions.Run.{
  Event, got_cookies, did_set, exported, imported, rebound, streamed, stream_failed,
  stopped_accepting, closed, step,
}

-- The session was moved by the rebinding that the event is, to the context that it reports.
pub record Rebound (parse : String → Option Url) (service : Service) (settings : Settings)
    (e : Event) (w : World) (t : Session) : Type 0 where
  pub turn : Outcome (Unit {0})
  pub identity : Value
  pub outcome : RebindOutcome
  pub is_event : e ≡ rebound turn identity
  pub gave : (rebind_identity parse service settings turn identity w).0 ≡ returned outcome
  pub reports :
      Reports w.session identity outcome (rebind_identity parse service settings turn identity w).1

module _ (parse : String → Option Url) (service : Service) (settings : Settings) where
  sending :
      (s : Session) (id : String) (v : Value)
      → Keeps (After s) (control service (post_cookies id v))
  sending s id v = control-Keeps service (post_cookies id v) (Continues s)

  remove_all-Continues :
      (s : Session) (ids : List String) (w : World)
      → Continues s w.session
      → Continues s (remove_all service ids w).1.session
  unfolding remove_all
  remove_all-Continues s [] w c = c
  remove_all-Continues s (id ∷ ids) w c =
      remove_all-Continues s ids (remove_context service id w).1
        (remove_context-Keeps (Continues s) (λ ids t c. ground arith) service id w c)

  close-Continues :
      (s : Session) (late : Option TransportError) (w : World)
      → Continues s w.session
      → Continues s (finish service late w).1.session
  unfolding finish
  close-Continues s (some e) w c = c
  close-Continues s none w c = remove_all-Continues s w.session.cleanup w c

  apply-Continues :
      (s : Session) (r : Option ℕ) (id : String) (w : World)
      → Continues s w.session
      → Continues s (apply r id w).1.session
  unfolding apply
  apply-Continues s none id w c = c
  apply-Continues s (some n) id w c =
      ends_world (After s) (apply_revision n id w) (applied s n id w c)

  accept-Continues :
      (managed : Bool) (current : Info) (x : Exchange) (w : World)
      → Continues w.session (accept managed current x w).1.session
  unfolding accept
  accept-Continues managed current x w =
      either_world (After w.session) _ _ w _ (Continues-refl w.session) (
        apply-Continues w.session x.cookie_revision current.context_id w (Continues-refl w.session))

  rebound-cases :
      (turn : Outcome (Unit {0})) (identity : Value) (w : World) (r : Outcome RebindOutcome × World)
      → r ≡ rebind_identity parse service settings turn identity w
      → Ends (Reports w.session identity) (λ v. Continues w.session v.session) r
      → Continues w.session r.1.session
        ⊎ Rebound parse service settings (rebound turn identity) w r.1.session
  rebound-cases turn identity w (threw e, v) same c = inl c
  rebound-cases turn identity w (returned o, v) same c = inr (record {
    turn = turn;
    identity = identity;
    outcome = o;
    is_event = refl;
    gave = ap (λ p. p.0) (sym same);
    reports = subst (λ p. Reports w.session identity o p.1) same c;
  })

  -- Whatever happens to a session: it keeps its context and its connection, and its revision does not
  -- fall, or what happened is a rebinding that returned, and the session is where its outcome says.
  pub step_evolves :
      (e : Event) (w : World)
      → Continues w.session (step parse service settings e w).session
        ⊎ Rebound parse service settings e w (step parse service settings e w).session
  unfolding step close failed
  step_evolves (got_cookies turn url) w = inl (
      ends_world (After w.session) (get_cookies service settings turn url w) (
        (get_cookies-Keeps service settings _ (sending w.session) (applying w.session)
            (losing w.session) turn url).run
          w (Continues-refl w.session)))
  step_evolves (did_set turn url values) w = inl (
      ends_world (After w.session) (set_cookies service settings turn url values w) (
        (set_cookies-Keeps service settings _ (sending w.session) (applying w.session)
            (losing w.session) turn url values).run
          w (Continues-refl w.session)))
  step_evolves (exported turn) w = inl (
      ends_world (After w.session) (export_cookies service settings turn w) (
        (export_cookies-Keeps service settings _ (sending w.session) (applying w.session)
            (losing w.session) turn).run
          w (Continues-refl w.session)))
  step_evolves (imported turn snapshot) w = inl (
      ends_world (After w.session) (import_cookies service settings turn snapshot w) (
        (import_cookies-Keeps service settings _ (sending w.session) (applying w.session)
            (losing w.session) turn snapshot).run
          w (Continues-refl w.session)))
  step_evolves (rebound turn identity) w =
      rebound-cases turn identity w (rebind_identity parse service settings turn identity w) refl
        (rebind_identity_outcome parse service settings turn identity w)
  step_evolves (streamed current x) w = inl (accept-Continues settings.managed current x w)
  step_evolves (stream_failed e current) w =
      inl (losing w.session e current.context_id w (Continues-refl w.session))
  step_evolves stopped_accepting w =
      inl (record { same_context = refl; same_connection = refl; no_older = omega arith })
  step_evolves (closed late) w = inl (
      close-Continues w.session late _
        (record { same_context = refl; same_connection = refl; no_older = omega arith }))
