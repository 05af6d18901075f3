-- ===== src/Sessions/Run/Closing.antt =====
-- What closing a session of packages/typescript/src/sessions.ts leaves behind.
use ja3proxy.Base.{
  ◌≡◌, refl, ap, ◌∙◌, subst, inl, inr, Bool, true, ◌&&◌, String, eq_iff, List, [], ◌∷◌, Option,
  none, some, arith, Bool-cases,
}
use ja3proxy.Platform.{Url}
use ja3proxy.Errors.{TransportError, Outcome, returned, threw}
use ja3proxy.Wire.Value.{Value, is_undefined, has_string}
use ja3proxy.Sessions.{
  Service, Settings, World, control, remove_context, without, not_removed, removed, is_not_found,
  delete_context,
}
use ja3proxy.Sessions.Run.Accounts.{Accounted, kept, deleted, Deleted, Opened}
use ja3proxy.Sessions.Close.{close, finish, remove_all, first_failure}
use ja3proxy.Sessions.Run.{Event, run, create}
use ja3proxy.Sessions.Run.Safety.{run-IsSafe, create-IsSafe, close-IsSafe}

-- The identifiers of a set that remain when those of a list are taken out one after the other.
purge : List String → List String → List String
purge [] xs = xs
purge (id ∷ ids) xs = purge ids (without id xs)

within : List String → List String → Bool
within ids [] = true
within ids (x ∷ xs) = has_string ids x && within ids xs

within-without :
    (id : String) (ids xs : List String)
    → within (id ∷ ids) xs ≡ true
    → within ids (without id xs) ≡ true
unfolding within without
within-without id ids [] h = refl
within-without id ids (x ∷ xs) h = ground (arith, eq_iff x id, within-without id ids xs)

purge-within : (ids xs : List String) → within ids xs ≡ true → purge ids xs ≡ []
unfolding purge within
purge-within [] [] h = refl
purge-within [] (x ∷ xs) h = absurd (cc)
purge-within (id ∷ ids) xs h = purge-within ids (without id xs) (within-without id ids xs h)

within-cons :
    (x : String) (ids xs : List String) → within ids xs ≡ true → within (x ∷ ids) xs ≡ true
unfolding within
within-cons x ids [] h = refl
within-cons x ids (y ∷ ys) h = ground (arith, within-cons x ids ys)

within_self : (xs : List String) → within xs xs ≡ true
unfolding within
within_self [] = refl
within_self (x ∷ xs) = ground (arith, eq_iff x x, within-cons x xs xs (within_self xs))

not_removed-cleanup :
    (id : String) (e : TransportError) (w : World)
    → (not_removed id e w).0 ≡ returned tt
    → (not_removed id e w).1.session.cleanup ≡ without id w.session.cleanup
unfolding not_removed
not_removed-cleanup id e w h = elim (Bool-cases (is_not_found e)) [
  | inl gone ↦ rw gone refl
  | inr there ↦ absurd (ground (arith, there))
]

removed-cleanup :
    (id : String) (o : Outcome Value) (w : World)
    → (removed id o w).0 ≡ returned tt
    → (removed id o w).1.session.cleanup ≡ without id w.session.cleanup
unfolding removed
removed-cleanup id (threw e) w h = not_removed-cleanup id e w h
removed-cleanup id (returned v) w h = elim (Bool-cases (is_undefined v)) [
  | inl gone ↦ rw gone refl
  | inr other ↦ rw other (not_removed-cleanup id _ w (rw other at h))
]

remove_context-cleanup :
    (service : Service) (id : String) (w : World)
    → (remove_context service id w).0 ≡ returned tt
    → (remove_context service id w).1.session.cleanup ≡ without id w.session.cleanup
unfolding remove_context control
remove_context-cleanup service id w h =
    removed-cleanup id (service.answer w.sent (delete_context id)) _ h

first_failure-returned :
    (o rest : Outcome (Unit {0}))
    → first_failure o rest ≡ returned tt
    → (o ≡ returned tt) × (rest ≡ returned tt)
first_failure-returned (returned t) rest h = (refl, h)
first_failure-returned (threw e) rest h = absurd (cc)

remove_all-cleanup :
    (service : Service) (ids : List String) (w : World)
    → (remove_all service ids w).0 ≡ returned tt
    → (remove_all service ids w).1.session.cleanup ≡ purge ids w.session.cleanup
unfolding remove_all purge
remove_all-cleanup service [] w h = refl
remove_all-cleanup service (id ∷ ids) w h =
    let (first, others) =
      first_failure-returned (remove_context service id w).0
        (remove_all service ids (remove_context service id w).1).0 h in
    remove_all-cleanup service ids (remove_context service id w).1 others
    ∙ ap (purge ids) (remove_context-cleanup service id w first)

finish-cleanup :
    (service : Service) (late : Option TransportError) (w : World)
    → (finish service late w).0 ≡ returned tt
    → (finish service late w).1.session.cleanup ≡ []
unfolding finish
finish-cleanup service (some e) w h = absurd (cc)
finish-cleanup service none w h =
    remove_all-cleanup service w.session.cleanup w h
    ∙ purge-within w.session.cleanup w.session.cleanup (within_self w.session.cleanup)

close-cleanup :
    (service : Service) (late : Option TransportError) (w : World)
    → (close service late w).0 ≡ returned tt
    → (close service late w).1.session.cleanup ≡ []
unfolding close
close-cleanup service late w h = finish-cleanup service late _ h

gone : {id : String} (w : World) → w.session.cleanup ≡ [] → Accounted id w → Deleted id w.sent
gone {id} w e (kept k) = absurd (let held = subst (λ ids. has_string ids id ≡ true) e k in cc)
gone w e (deleted d) = d

module _ (parse : String → Option Url) (service : Service) (settings : Settings)
    (connection : Value) (es : List Event) {w : World}
    (created : create parse service settings connection ≡ returned w) where
  -- Whatever the service answers and in whatever order operations, rebindings, failures and earlier
  -- closes happen: each context whose opening answer the session accepted is in its set of contexts
  -- to delete until the service confirms that it is gone. A context whose opening answer the session
  -- refuses, since it does not match the request, is not meant.
  pub no_leak :
      (id : String)
      → Opened service settings id (run parse service settings es w).sent
      → Accounted id (run parse service settings es w)
  no_leak =
      run-IsSafe parse service settings es w
        (create-IsSafe parse service settings connection created)

  -- When a close returns without an error, the service has confirmed of each context whose opening
  -- answer the session accepted that it is gone, and nothing is left in the set of contexts to delete.
  -- A context whose opening answer the session refused is not meant.
  pub close_deletes :
      (late : Option TransportError)
      → (close service late (run parse service settings es w)).0 ≡ returned tt
      → (id : String)
      → Opened service settings id (close service late (run parse service settings es w)).1.sent
      → ((close service late (run parse service settings es w)).1.session.cleanup ≡ [])
        × Deleted id (close service late (run parse service settings es w)).1.sent
  close_deletes late done id o =
      let before =
        run-IsSafe parse service settings es w
          (create-IsSafe parse service settings connection created) in
      let safe =
        close-IsSafe parse service settings late (run parse service settings es w) before in
      let emptied = close-cleanup service late (run parse service settings es w) done in
      (emptied, gone (close service late (run parse service settings es w)).1 emptied (safe id o))
