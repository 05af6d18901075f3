-- ===== src/Sessions/Run/Exact.antt =====
-- The operations of packages/typescript/src/sessions.ts that name the revision they expect.
use ja3proxy.Base.{
  ◌≡◌, ◌+◌, ◌==◌, ◌&&◌, refl, sym, ap, subst, Bool, true, false, String, str_eq, eq_iff, ==_iff,
  ◌∷◌, Option, arith, ℕ, ltb,
}
use ja3proxy.Errors.{Code, Kind, TransportError, Outcome, returned, threw}
use ja3proxy.Wire.Value.{Value, is_undefined, Entries, number, whole}
use ja3proxy.Sessions.{
  Service, Settings, World, Session, Exec, ◌>>=◌, ◌>>◌, require, read, post_cookies, control,
  mark_lost, apply_revision, at_revision,
}
use ja3proxy.Sessions.Cookies.{
  cookies, checked_reply, cookie_request, next_revision, set_cookies, set_command, import_cookies,
  import_command,
}
use ja3proxy.Sessions.Run.Triples.{
  Ends, Triple, Keeps, bind-Triple, bind-Keeps, require-Keeps, require-Triple, give-Keeps,
  weaken-Ends, mutate_at,
}

-- All that an operation may change is left alone, but for `lost` and what was sent.
pub record Untouched (w v : World) : Type 0 where
  pub same_info : v.session.info ≡ w.session.info
  pub same_connection : v.session.connection ≡ w.session.connection
  pub same_cleanup : v.session.cleanup ≡ w.session.cleanup

-- One request was sent, to the session's context, and was answered with a value.
pub record SentOnce (request : Value) (w v : World) : Type 0 where
  pub reply : Value
  pub sent :
      v.sent
      ≡ record { call = post_cookies w.session.info.context_id request; answer = returned reply }
        ∷ w.sent

untouched : (w v : World) → v.session ≡ w.session → Untouched w v
untouched w v e = record {
  same_info = ap (λ s. s.info) e;
  same_connection = ap (λ s. s.connection) e;
  same_cleanup = ap (λ s. s.cleanup) e;
}

module _ (service : Service) (settings : Settings) (w : World) where
  abbrev Asked : Value → World → Type 0
  Asked request v = (v.session ≡ w.session) × SentOnce request w v

  sent_once :
      (request : Value) (o : Outcome Value)
      → Ends
          (λ a. Asked request)
          (Untouched w)
          (
            o,
            record w {
              sent =
                  record { call = post_cookies w.session.info.context_id request; answer = o }
                  ∷ w.sent;
            },
          )
  sent_once request (returned x) = (refl, record { reply = x; sent = refl })
  sent_once request (threw e) = untouched w _ refl

  touched :
      {A : Type 0} {m : Exec A} (request : Value)
      → Keeps (Asked request) m
      → Triple (Asked request) m (λ a. Asked request) (Untouched w)
  touched {A} {m} request k = record {
    run = λ v a. weaken-Ends _ _ _ _ (m v) (λ x u p. p) (λ u p. untouched w u p.0) (k.run v a);
  }

  checked-Triple :
      (request v : Value)
      → Triple (Asked request) (checked_reply v) (λ a. Asked request) (Untouched w)
  unfolding checked_reply
  checked-Triple request v = touched request (
      bind-Keeps (require-Keeps _ _ _ _) λ t.
        bind-Keeps (require-Keeps _ _ _ _)
          λ t. bind-Keeps (require-Keeps _ _ _ _) λ t. give-Keeps _ _)

  abbrev Here : World → Type 0
  Here v = v ≡ w

  first :
      {A : Type 0} (Q : A → World → Type 0) (E : World → Type 0) (m : Exec A)
      → Ends Q E (m w)
      → Triple Here m Q E
  first Q E m h = record { run = λ v e. subst (λ u. Ends Q E (m u)) (sym e) h }

  required :
      (b : Bool) (c : Code) (k : Option Kind)
      → Ends (λ (t : Unit {0}). Here) (Untouched w) (require b c k w)
  unfolding require
  required true c k = refl
  required false c k = untouched w w refl

  cookies-Triple :
      (command : Entries)
      → Triple Here
          (cookies service settings command w.session.info.context_id)
          (λ reply. Asked (cookie_request settings command))
          (Untouched w)
  unfolding cookies control
  cookies-Triple command = bind-Triple (first _ _ _ (required _ _ _)) λ t.
      bind-Triple
        (first _ _ _ (
          sent_once _ (
            service.answer w.sent
              (post_cookies w.session.info.context_id (cookie_request settings command)))))
        λ v. checked-Triple _ v

  -- The session is at the next revision, and nothing else of it has changed; the request named the
  -- revision that the session was at.
  pub record Advanced (command : Value → Entries) (v : World) : Type 0 where
    pub advanced : v.session ≡ at_revision (w.session.info.revision + 1) w.session
    pub asked :
        SentOnce (cookie_request settings (command (number (whole w.session.info.revision)))) w v

  advance :
      (command : Value → Entries) (n : ℕ) (v : World)
      → Asked (cookie_request settings (command (number (whole w.session.info.revision)))) v
      → (n == w.session.info.revision + 1) ≡ true
      → Ends
          (λ (t : Unit {0}). Advanced command)
          (Untouched w)
          (apply_revision n w.session.info.context_id v)
  unfolding apply_revision
  advance command n v a e =
      let next_one : n ≡ w.session.info.revision + 1 =
        (==_iff n (w.session.info.revision + 1)).0 e in
      let same : str_eq v.session.info.context_id w.session.info.context_id ≡ true =
        (eq_iff _ _).1 (ap (λ s. s.info.context_id) a.0) in
      let fresh : ltb n v.session.info.revision ≡ false =
        subst (λ s. ltb n s.info.revision ≡ false) (sym a.0) (ground (arith, next_one)) in
      rw (same, fresh)
        (record {
          advanced = λ i. at_revision (next_one i) (a.0 i);
          asked = record { reply = a.1.reply; sent = a.1.sent };
        })

  and_left : (a b : Bool) → (a && b) ≡ true → a ≡ true
  and_left true b h = refl
  and_left false b h = cc

  at_start :
      {A : Type 0} (Q : A → World → Type 0) (f : Session → Exec A)
      → Triple Here (f w.session) Q (Untouched w)
      → Ends Q (Untouched w) ((read >>= f) w)
  unfolding ◌>>=◌ read
  at_start Q f t = t.run w refl

  next_revision-Ends :
      (command : Value → Entries)
      → Ends (λ t. Advanced command) (Untouched w) (next_revision service settings command w)
  unfolding next_revision
  next_revision-Ends command = at_start _ _ (
      bind-Triple (cookies-Triple (command (number (whole w.session.info.revision)))) λ reply.
        bind-Triple
          (record {
            run = λ v a.
                weaken-Ends _ _ _ _ (require _ _ _ v) (λ t u p. p) (λ u p. untouched w u p.0)
                  ((require-Triple (Asked _) _ _ _).run v a);
          })
          λ t. record {
            run = λ v a. advance command reply.revision v a.0 (
                and_left (reply.revision == w.session.info.revision + 1)
                  (is_undefined reply.cookies)
                  (and_left
                    (reply.revision == w.session.info.revision + 1 && is_undefined reply.cookies)
                    (is_undefined reply.snapshot) a.1));
          })

  lost_untouched :
      (e : TransportError) (id : String) (v : World)
      → Untouched w v
      → Untouched w (record v { session = mark_lost e id v.session })
  unfolding mark_lost
  lost_untouched e id v u = ground arith

  guarded :
      (b : Bool) (c : Code) (k : Option Kind) (command : Value → Entries)
      → Ends
          (λ t. Advanced command)
          (Untouched w)
          ((do require b c k; next_revision service settings command) w)
  unfolding ◌>>=◌ require
  guarded true c k command = next_revision-Ends command
  guarded false c k command = untouched w w refl

-- setCookies and importCookies: on return the session is exactly one revision further and otherwise
-- unchanged, after one request that named the revision it was at; on any error its revision, context,
-- connection and contexts to delete are as before.
pub revision_exact :
    (service : Service) (settings : Settings) (turn : Outcome (Unit {0})) (w : World)
    (url values snapshot : Value)
    → Ends
        (λ t. Advanced service settings w (set_command url values))
        (Untouched w)
        (set_cookies service settings turn url values w)
      × Ends
          (λ t. Advanced service settings w (import_command snapshot))
          (Untouched w)
          (import_cookies service settings turn snapshot w)
unfolding set_cookies import_cookies
revision_exact service settings turn w url values snapshot = (
  mutate_at _ (Untouched w) w (untouched w w refl) turn _ (lost_untouched service settings w)
      (guarded service settings w _ _ _ (set_command url values)),
  mutate_at _ (Untouched w) w (untouched w w refl) turn _ (lost_untouched service settings w)
      (guarded service settings w _ _ _ (import_command snapshot)),
)
