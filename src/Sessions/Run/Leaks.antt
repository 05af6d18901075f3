-- ===== src/Sessions/Run/Leaks.antt =====
-- No operation of packages/typescript/src/sessions.ts forgets a context that the service opened for
-- the session.
use ja3proxy.Base.{◌≡◌, ◌⊎◌, subst, inl, inr, true, String, Option, ℕ}
use ja3proxy.Platform.{Url}
use ja3proxy.Errors.{Outcome, returned, threw}
use ja3proxy.Wire.Value.{Value, has_string}
use ja3proxy.Sessions.{
  Service, Settings, World, Session, Info, next, change, add, add_cleanup, remove_context,
}
use ja3proxy.Sessions.Run.Triples.{
  Ends, Triple, Keeps, ends_world, bind-Triple, bind-Keeps, read-Keeps,
}
use ja3proxy.Sessions.Run.Accounts.{
  IsSafe, Accounted, kept, deleted, has_string-add, has_string-add_self, post_cookies-IsSafe,
  remove_context-IsSafe, apply_revision-IsSafe, add_cleanup-IsSafe, change-IsSafe,
}
use ja3proxy.Sessions.Rebind.{staged, retire, removal, rebind}
use ja3proxy.Sessions.Run.Operations.{import_staged-Keeps, export_snapshot-Keeps}
use ja3proxy.Sessions.Run.Opening.{Pending, open_context-Triple, pure-Triple}

module _ (parse : String → Option Url) (service : Service) (settings : Settings) where
  change-Keeps :
      (f : Session → Session)
      → ((s : Session) (id : String)
          → has_string s.cleanup id ≡ true
          → has_string (f s).cleanup id ≡ true)
      → Keeps (IsSafe service settings) (change f)
  unfolding change
  change-Keeps f h = record {
    run = λ w safe. change-IsSafe service settings w (f w.session) (h w.session) safe;
  }

  add-Keeps : (id : String) → Keeps (IsSafe service settings) (change (add_cleanup id))
  unfolding change
  add-Keeps id = record { run = λ w safe. add_cleanup-IsSafe service settings id w safe }

  settled :
      (next : Info) (id : String) (w : World)
      → Accounted id w ⊎ (next.context_id ≡ id)
      → Accounted id (record w { session = add_cleanup next.context_id w.session })
  settled next id w (inl (kept k)) = kept (has_string-add next.context_id id w.session.cleanup k)
  settled next id w (inl (deleted d)) = deleted d
  settled next id w (inr same) = kept (
      subst (λ j. has_string (add next.context_id w.session.cleanup) j ≡ true) same
        (has_string-add_self next.context_id w.session.cleanup))

  add-Pending :
      (next : Info)
      → Triple
          (Pending parse service settings next)
          (change (add_cleanup next.context_id))
          (λ t. IsSafe service settings)
          (IsSafe service settings)
  unfolding change
  add-Pending next = record { run = λ w p id o. settled next id w (p id o) }

  removed_again :
      (next : Info) (w : World)
      → IsSafe service settings w
      → IsSafe service settings
          (remove_context service next.context_id
            (record w { session = add_cleanup next.context_id w.session })).1
  removed_again next w safe = ends_world _ (remove_context service next.context_id _) (
      (remove_context-IsSafe service settings next.context_id).run _
        (add_cleanup-IsSafe service settings next.context_id w safe))

  staged-Ends :
      (next : Info) (r : Outcome ℕ × World)
      → Ends (λ n. IsSafe service settings) (IsSafe service settings) r
      → Ends (λ n. IsSafe service settings) (IsSafe service settings) (staged service next r)
  unfolding staged
  staged-Ends next (returned n, w) h = h
  staged-Ends next (threw e, w) h = removed_again next w h

  retire-Ends :
      (previous current : String) (r : Outcome (Unit {0}) × World)
      → Ends (λ n. IsSafe service settings) (IsSafe service settings) r
      → Ends (λ n. IsSafe service settings) (IsSafe service settings) (removal previous current r)
  unfolding removal
  retire-Ends previous current (returned t, w) h = h
  retire-Ends previous current (threw e, w) h = h

  retire-Keeps :
      (previous current : String)
      → Keeps (IsSafe service settings) (retire service previous current)
  unfolding retire
  retire-Keeps previous current = record {
    run = λ w safe.
        retire-Ends previous current _
          ((remove_context-IsSafe service settings previous).run w safe);
  }

  pub rebind-Keeps :
      (identity : Value) → Keeps (IsSafe service settings) (rebind parse service settings identity)
  unfolding rebind
  rebind-Keeps identity = bind-Keeps (read-Keeps _) λ s.
      bind-Keeps (pure-Triple parse service settings _ _) λ t.
        bind-Keeps
          (export_snapshot-Keeps service settings _ (post_cookies-IsSafe service settings)
            (apply_revision-IsSafe service settings))
          λ snapshot. bind-Triple (open_context-Triple parse service settings _) λ next.
            bind-Triple (add-Pending next) λ t.
              bind-Keeps
                (record {
                  run = λ w safe. staged-Ends next _ (
                      (import_staged-Keeps service settings _ (post_cookies-IsSafe service settings)
                          (apply_revision-IsSafe service settings) snapshot next).run
                        w safe);
                })
                λ revision.
                  bind-Keeps (change-Keeps _ (λ s id h. h))
                    λ t. bind-Keeps (add-Keeps _) λ t. retire-Keeps _ _
