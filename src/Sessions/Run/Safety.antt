-- ===== src/Sessions/Run/Safety.antt =====
-- Every context that the service opens for a session of packages/typescript/src/sessions.ts stays in
-- its account until the service confirms that it is gone, and a close that returns has removed all.
use ja3proxy.Base.{
  ◌≡◌, ◌⊎◌, refl, ap, subst, inl, inr, Bool, true, String, eq_iff, List, [], ◌∷◌, Option, none,
  some, arith, ℕ,
}
use ja3proxy.Platform.{Url}
use ja3proxy.Errors.{TransportError, Outcome, returned, threw}
use ja3proxy.Wire.Value.{Value, has_string}
use ja3proxy.Sessions.{
  Service, Settings, World, Info, post_contexts, mark_lost, apply_revision, remove_context, mutate,
}
use ja3proxy.Sessions.Cookies.{get_cookies, set_cookies, export_cookies, import_cookies}
use ja3proxy.Sessions.Rebind.Open.{open_context}
use ja3proxy.Sessions.Run.Triples.{Ends, ends_world, either_world, weaken-Ends, mutate-Triple}
use ja3proxy.Sessions.Run.Accounts.{
  IsSafe, Accounted, kept, deleted, Opened, post_cookies-IsSafe, remove_context-IsSafe,
  mark_lost-IsSafe, apply_revision-IsSafe, change-IsSafe,
}
use ja3proxy.Sessions.Rebind.{rebind, rebind_identity}
use ja3proxy.Sessions.Close.{close, finish, remove_all, stopped}
use ja3proxy.Sessions.Streams.{Exchange, accept, apply, failed}
use ja3proxy.Sessions.Run.Operations.{
  get_cookies-Keeps, set_cookies-Keeps, export_cookies-Keeps, import_cookies-Keeps,
}
use ja3proxy.Sessions.Run.Opening.{Pending, open_context-Triple}
use ja3proxy.Sessions.Run.{
  Event, got_cookies, did_set, exported, imported, rebound, streamed, stream_failed,
  stopped_accepting, closed, step, run, create, blank, opened, new_session,
}
use ja3proxy.Sessions.Run.Operations.{open_context-Keeps, control-Keeps}
use ja3proxy.Sessions.Run.Leaks.{rebind-Keeps}

module _ (parse : String → Option Url) (service : Service) (settings : Settings) where
  losing :
      (e : TransportError) (id : String) (w : World)
      → IsSafe service settings w
      → IsSafe service settings (record w { session = mark_lost e id w.session })
  losing e id w safe = mark_lost-IsSafe service settings e id w safe

  remove_all-IsSafe :
      (ids : List String) (w : World)
      → IsSafe service settings w
      → IsSafe service settings (remove_all service ids w).1
  unfolding remove_all
  remove_all-IsSafe [] w safe = safe
  remove_all-IsSafe (id ∷ ids) w safe = remove_all-IsSafe ids (remove_context service id w).1 (
      ends_world _ (remove_context service id w)
        ((remove_context-IsSafe service settings id).run w safe))

  finish-IsSafe :
      (late : Option TransportError) (w : World)
      → IsSafe service settings w
      → IsSafe service settings (finish service late w).1
  unfolding finish
  finish-IsSafe (some e) w safe = safe
  finish-IsSafe none w safe = remove_all-IsSafe w.session.cleanup w safe

  pub close-IsSafe :
      (late : Option TransportError) (w : World)
      → IsSafe service settings w
      → IsSafe service settings (close service late w).1
  unfolding close
  close-IsSafe late w safe =
      finish-IsSafe late _ (change-IsSafe service settings w (stopped w.session) (λ id h. h) safe)

  apply-IsSafe :
      (r : Option ℕ) (id : String) (w : World)
      → IsSafe service settings w
      → IsSafe service settings (apply r id w).1
  unfolding apply
  apply-IsSafe none id w safe = safe
  apply-IsSafe (some n) id w safe =
      ends_world _ (apply_revision n id w)
        ((apply_revision-IsSafe service settings n id).run w safe)

  accept-IsSafe :
      (managed : Bool) (current : Info) (x : Exchange) (w : World)
      → IsSafe service settings w
      → IsSafe service settings (accept managed current x w).1
  unfolding accept
  accept-IsSafe managed current x w safe =
      either_world (IsSafe service settings) _ _ w _ safe
        (apply-IsSafe x.cookie_revision current.context_id w safe)

  step-IsSafe :
      (e : Event) (w : World)
      → IsSafe service settings w
      → IsSafe service settings (step parse service settings e w)
  unfolding step rebind_identity failed
  step-IsSafe (got_cookies turn url) w safe =
      ends_world _ (get_cookies service settings turn url w) (
        (get_cookies-Keeps service settings _ (post_cookies-IsSafe service settings)
            (apply_revision-IsSafe service settings) losing turn url).run
          w safe)
  step-IsSafe (did_set turn url values) w safe =
      ends_world _ (set_cookies service settings turn url values w) (
        (set_cookies-Keeps service settings _ (post_cookies-IsSafe service settings)
            (apply_revision-IsSafe service settings) losing turn url values).run
          w safe)
  step-IsSafe (exported turn) w safe = ends_world _ (export_cookies service settings turn w) (
      (export_cookies-Keeps service settings _ (post_cookies-IsSafe service settings)
          (apply_revision-IsSafe service settings) losing turn).run
        w safe)
  step-IsSafe (imported turn snapshot) w safe =
      ends_world _ (import_cookies service settings turn snapshot w) (
        (import_cookies-Keeps service settings _ (post_cookies-IsSafe service settings)
            (apply_revision-IsSafe service settings) losing turn snapshot).run
          w safe)
  step-IsSafe (rebound turn identity) w safe =
      ends_world _ (mutate turn (rebind parse service settings identity) w)
        ((mutate-Triple _ turn losing (rebind-Keeps parse service settings identity)).run w safe)
  step-IsSafe (streamed current x) w safe = accept-IsSafe settings.managed current x w safe
  step-IsSafe (stream_failed e current) w safe = losing e current.context_id w safe
  step-IsSafe stopped_accepting w safe =
      change-IsSafe service settings w (stopped w.session) (λ id h. h) safe
  step-IsSafe (closed late) w safe = close-IsSafe late w safe

  pub run-IsSafe :
      (es : List Event) (w : World)
      → IsSafe service settings w
      → IsSafe service settings (run parse service settings es w)
  unfolding run
  run-IsSafe [] w safe = safe
  run-IsSafe (e ∷ es) w safe =
      step-IsSafe e (run parse service settings es w) (run-IsSafe es w safe)

  nothing-Opened : {id : String} → Opened service settings id [] → ⊥
  nothing-Opened o = elim o [ ]

  blank-IsSafe : IsSafe service settings blank
  blank-IsSafe id o = absurd (nothing-Opened o)

  first_kept :
      (connection : Value) (info : Info) (w : World) (id : String)
      → w.session.cleanup ≡ []
      → Accounted id w ⊎ (info.context_id ≡ id)
      → Accounted id (record w { session = new_session connection info })
  first_kept connection info w id e (inl (kept k)) =
      absurd (let held = subst (λ ids. has_string ids id ≡ true) e k in cc)
  first_kept connection info w id e (inl (deleted d)) = deleted d
  first_kept connection info w id e (inr same) = kept (ground (arith, eq_iff id info.context_id))

  opened-IsSafe :
      (connection : Value) (r : Outcome Info × World) {w : World}
      → Ends (Pending parse service settings) (λ v. Unit {0}) r
      → Ends (λ (i : Info) v. v.session.cleanup ≡ []) (λ v. Unit {0}) r
      → opened connection r ≡ returned w
      → IsSafe service settings w
  unfolding opened
  opened-IsSafe connection (threw e, v) p q h = absurd (cc)
  opened-IsSafe connection (returned info, v) p q h =
      subst (IsSafe service settings) (ap the_world h)
        (λ id o. first_kept connection info v id q (p id o))
    where
      the_world : Outcome World → World
      the_world (returned x) = x
      the_world (threw e) = blank

  pub create-IsSafe :
      (connection : Value) {w : World}
      → create parse service settings connection ≡ returned w
      → IsSafe service settings w
  unfolding create
  create-IsSafe connection h =
      opened-IsSafe connection (open_context parse service settings connection blank)
        (weaken-Ends _ _ _ _ (open_context parse service settings connection blank) (λ a v p. p)
          (λ v p. tt)
          ((open_context-Triple parse service settings connection).run blank blank-IsSafe))
        (weaken-Ends _ _ _ _ (open_context parse service settings connection blank) (λ a v p. p)
          (λ v p. tt)
          ((open_context-Keeps parse service settings (λ v. v.session.cleanup ≡ [])
              (λ v. control-Keeps service (post_contexts v) (λ s. s.cleanup ≡ [])) connection).run
            blank refl))
        h
