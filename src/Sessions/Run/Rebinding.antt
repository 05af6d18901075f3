-- ===== src/Sessions/Run/Rebinding.antt =====
-- What rebindIdentity of packages/typescript/src/sessions.ts reports, and what it leaves.
use ja3proxy.Base.{
  ◌≡◌, true, false, List, ◌∷◌, Bool-cases, inl, inr, refl, ap, String, Option, arith, ℕ,
}
use ja3proxy.Platform.{Url}
use ja3proxy.Errors.{Outcome, returned, threw, local_error, transport_error}
use ja3proxy.Wire.Value.{Value, is_undefined}
use ja3proxy.Sessions.{
  Sent, delete_context, remove_context, removed, not_removed, is_not_found, without, Service,
  Settings, World, Session, Info, Exec, post_contexts, post_cookies, control, change, read,
  add_cleanup,
}
use ja3proxy.Sessions.Run.Accounts.{is_gone, has_string-add_self}
use ja3proxy.Sessions.Rebind.{
  committed, committed_cleanup_pending, import_staged, staged, cut_over, next_connection, retire,
  removal, rebind, rebind_identity,
}
use ja3proxy.Sessions.Run.Triples.{Ends, Triple, Keeps, weaken-Ends, bind-Triple, mutate-Triple}
use ja3proxy.Sessions.Run.Operations.{
  export_snapshot-Keeps, open_context-Keeps, pass-Keeps, control-Keeps, import_staged-Keeps,
}
use ja3proxy.Sessions.Run.Changes.{
  Continues, Continues-refl, CutOver, Reports, complaint, After, losing, applying,
  remove_context-Keeps,
}

module _ (parse : String → Option Url) (service : Service) (settings : Settings) (identity : Value)
    (s : Session) where
  sending : (id : String) (v : Value) → Keeps (After s) (control service (post_cookies id v))
  sending id v = control-Keeps service (post_cookies id v) (Continues s)

  abbrev Started : Session → World → Type 0
  Started r w = Continues s r × Continues s w.session

  read-Triple : Triple (After s) read Started (After s)
  unfolding read
  read-Triple = record { run = λ w c. (c, c) }

  change-Keeps :
      (P : World → Type 0) (f : Session → Session)
      → ((w : World) → P w → P (record w { session = f w.session }))
      → Keeps P (change f)
  unfolding change
  change-Keeps P f h = record { run = h }

  staged-Ends :
      (next : Info) (r : Outcome ℕ × World)
      → Ends (λ n. After s) (After s) r
      → Ends (λ n. After s) (After s) (staged service next r)
  unfolding staged
  staged-Ends next (returned n, w) h = h
  staged-Ends next (threw e, w) h =
      remove_context-Keeps (Continues s) (λ ids t c. ground arith) service next.context_id _
        (ground arith)

  abbrev Moved : String → String → Session → Type 0
  Moved previous current t = CutOver s identity previous current t

  move :
      (r : Session) (next : Info) (n : ℕ) (w : World)
      → Continues s r
      → Moved r.info.context_id next.context_id
          (cut_over next n (next_connection r.connection identity) w.session)
  move r next n w c = record {
    left = c.same_context;
    entered = refl;
    connected = ap (λ k. next_connection k identity) c.same_connection;
  }

  -- The context that was left, after the answer to its deletion.
  module _ (previous current : String) (older : List Sent) where
    Answered : Outcome Value → World → Type 0
    Answered o w =
        Moved previous current w.session
        × (w.sent ≡ record { call = delete_context previous; answer = o } ∷ older)

    gone-Reports :
        (o : Outcome Value) (w : World)
        → is_gone o ≡ true
        → Answered o w
        → Reports s identity (committed previous current) (record w {
          session = record w.session { cleanup = without previous w.session.cleanup };
        })
    unfolding Answered
    gone-Reports o w gone (m, sent) = (
      record { left = m.left; entered = m.entered; connected = m.connected },
      record { answer = o; asked = record { older = older; latest = sent }; gone = gone },
    )

    there-Reports :
        (o : Outcome Value) (w : World)
        → is_gone o ≡ false
        → Answered o w
        → Reports s identity
            (committed_cleanup_pending previous current (complaint o))
            (record w { session = add_cleanup previous w.session })
    unfolding Answered
    there-Reports o w there (m, sent) = (
      record { left = m.left; entered = m.entered; connected = m.connected },
      record {
        answer = o;
        asked = record { older = older; latest = sent };
        there = there;
        error = refl;
        kept = has_string-add_self previous w.session.cleanup;
      },
    )

    removed-Reports :
        (o : Outcome Value) (w : World)
        → Answered o w
        → Ends (Reports s identity) (After s) (removal previous current (removed previous o w))
    unfolding removal removed not_removed local_error transport_error
    removed-Reports (threw e) w a = elim (Bool-cases (is_not_found e)) [
      | inl gone ↦ rw gone (gone-Reports (threw e) w gone a)
      | inr there ↦ rw there (there-Reports (threw e) w there a)
    ]
    removed-Reports (returned v) w a = elim (Bool-cases (is_undefined v)) [
      | inl gone ↦ rw gone (gone-Reports (returned v) w gone a)
      | inr there ↦ rw there (there-Reports (returned v) w there a)
    ]

  retire-Triple :
      (previous current : String)
      → Triple
          (λ w. Moved previous current w.session)
          (retire service previous current)
          (Reports s identity)
          (After s)
  unfolding retire remove_context control Answered
  retire-Triple previous current = record {
    run = λ w m.
        removed-Reports previous current w.sent (service.answer w.sent (delete_context previous)) _
          (m, refl);
  }

  keeping :
      {A : Type 0} {m : Exec A} (r : Session)
      → Keeps (Started r) m
      → Triple (Started r) m (λ a. Started r) (After s)
  keeping {A} {m} r k = record {
    run = λ w c. weaken-Ends _ _ _ _ (m w) (λ a v p. p) (λ v p. p.1) (k.run w c);
  }

  started : {A : Type 0} {m : Exec A} (r : Session) → Keeps (After s) m → Keeps (Started r) m
  started {A} {m} r k = record {
    run = λ w c. weaken-Ends _ _ _ _ (m w) (λ a v p. (c.0, p)) (λ v p. (c.0, p)) (k.run w c.1);
  }

  staged_started :
      (r : Session) (snapshot : Value) (next : Info)
      → Triple
          (Started r)
          (λ w. staged service next (import_staged service settings snapshot next w))
          (λ n. Started r)
          (After s)
  staged_started r snapshot next = record {
    run = λ w c.
        weaken-Ends _ _ _ _ (staged service next (import_staged service settings snapshot next w))
          (λ n v p. (c.0, p)) (λ v p. p)
          (staged-Ends next _ (
            (import_staged-Keeps service settings (After s) sending (applying s) snapshot next).run
              w c.1));
  }

  cutting :
      (r : Session) (next : Info) (n : ℕ)
      → Triple
          (Started r)
          (change (cut_over next n (next_connection r.connection identity)))
          (λ t w. Moved r.info.context_id next.context_id w.session)
          (After s)
  unfolding change
  cutting r next n = record { run = λ w c. move r next n w c.0 }

  accounting :
      (r : Session) (next : Info)
      → Triple
          (λ w. Moved r.info.context_id next.context_id w.session)
          (change (add_cleanup r.info.context_id))
          (λ t w. Moved r.info.context_id next.context_id w.session)
          (After s)
  unfolding change
  accounting r next = record { run = λ w c. ground arith }

  rebind-Triple :
      Triple (After s) (rebind parse service settings identity) (Reports s identity) (After s)
  unfolding rebind
  rebind-Triple = bind-Triple read-Triple λ r.
      bind-Triple (keeping r (pass-Keeps (Started r) _)) λ t.
        bind-Triple
          (keeping r (
            export_snapshot-Keeps service settings (Started r) (λ id v. started r (sending id v))
              (λ n id. started r (applying s n id))))
          λ snapshot.
            bind-Triple
              (keeping r (
                open_context-Keeps parse service settings (Started r)
                  (λ v. started r (control-Keeps service (post_contexts v) (Continues s))) _))
              λ next.
                bind-Triple (keeping r (change-Keeps (Started r) _ (λ w c. (c.0, ground arith))))
                  λ t. bind-Triple (staged_started r snapshot next) λ revision.
                    bind-Triple (cutting r next revision) λ t.
                      bind-Triple (accounting r next)
                        λ t. retire-Triple r.info.context_id next.context_id

-- Whatever the service answers: a rebinding that throws leaves the session with its context and its
-- connection, at the same revision or a later one. One that returns has moved the session to the new
-- connection and to the context that it reports, reports the context that was left, and has last asked
-- the service to delete that one. It reports `committed` when the service has confirmed that the old
-- context is gone; when it reports that the cleanup is pending, the service has not confirmed it, the
-- error is what its answer says, and the session keeps the old context among those to delete.
pub rebind_identity_outcome :
    (parse : String → Option Url) (service : Service) (settings : Settings)
    (turn : Outcome (Unit {0})) (identity : Value) (w : World)
    → Ends
        (Reports w.session identity)
        (λ v. Continues w.session v.session)
        (rebind_identity parse service settings turn identity w)
unfolding rebind_identity
rebind_identity_outcome parse service settings turn identity w =
    (mutate-Triple (After w.session) turn (losing w.session)
        (rebind-Triple parse service settings identity w.session)).run
      w (Continues-refl w.session)
