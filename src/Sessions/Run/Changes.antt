-- ===== src/Sessions/Run/Changes.antt =====
-- How the operations of packages/typescript/src/sessions.ts change the context, its revision and the
-- connection of a session.
use ja3proxy.Base.{
  ◌≡◌, ◌≤◌, refl, inl, inr, true, false, String, str_eq, List, ◌∷◌, none, arith, Bool-cases, ℕ, ltb,
}
use ja3proxy.Errors.{Code, TransportError, Outcome, returned, threw, local_error}
use ja3proxy.Wire.Value.{Value, is_undefined, has_string}
use ja3proxy.Sessions.{
  Service, World, Session, Sent, delete_context, control, mark_lost, is_not_found, at_revision,
  apply_revision, not_removed, removed, remove_context,
}
use ja3proxy.Sessions.Rebind.{RebindOutcome, committed, committed_cleanup_pending, next_connection}
use ja3proxy.Sessions.Run.Triples.{Ends, Keeps, ends_world, weaken-Ends}
use ja3proxy.Sessions.Run.Accounts.{has_string-add_self, is_gone}

-- The session still uses the context and the connection, at the same revision or a later one.
pub record Continues (s t : Session) : Type 0 where
  pub same_context : t.info.context_id ≡ s.info.context_id
  pub same_connection : t.connection ≡ s.connection
  pub no_older : s.info.revision ≤ t.info.revision

pub Continues-refl : (s : Session) → Continues s s
Continues-refl s = record { same_context = refl; same_connection = refl; no_older = omega arith }

-- The session has moved to a new context and connection, and the identifiers are the true ones.
pub record CutOver (s : Session) (identity : Value) (previous current : String) (t : Session)
    : Type 0 where
  pub left : previous ≡ s.info.context_id
  pub entered : t.info.context_id ≡ current
  pub connected : t.connection ≡ next_connection s.connection identity

-- The last request of the session was to delete the context, and this was the answer.
pub record Asked (id : String) (answer : Outcome Value) (w : World) : Type 0 where
  pub older : List Sent
  pub latest : w.sent ≡ record { call = delete_context id; answer = answer } ∷ older

-- The service has confirmed that the context is gone.
pub record Confirmed (id : String) (w : World) : Type 0 where
  pub answer : Outcome Value
  pub asked : Asked id answer w
  pub gone : is_gone answer ≡ true

-- What the answer to a deletion says is wrong: it is an error, or it is not empty.
abbrev pub complaint : Outcome Value → TransportError
complaint (threw e) = e
complaint (returned v) = local_error Code.protocol_error none

-- The service has not confirmed that the context is gone, with this error, and it is still to be deleted.
pub record Pending (id : String) (e : TransportError) (w : World) : Type 0 where
  pub answer : Outcome Value
  pub asked : Asked id answer w
  pub there : is_gone answer ≡ false
  pub error : e ≡ complaint answer
  pub kept : has_string w.session.cleanup id ≡ true

abbrev pub Reports : Session → Value → RebindOutcome → World → Type 0
Reports s identity (committed previous current) w =
    CutOver s identity previous current w.session × Confirmed previous w
Reports s identity (committed_cleanup_pending previous current e) w =
    CutOver s identity previous current w.session × Pending previous e w

module _ (s : Session) where
  abbrev pub After : World → Type 0
  After w = Continues s w.session

  pub losing :
      (e : TransportError) (id : String) (w : World)
      → After w
      → After (record w { session = mark_lost e id w.session })
  unfolding mark_lost
  losing e id w c = ground arith

  newer :
      (n : ℕ) (w : World)
      → ltb n w.session.info.revision ≡ false
      → After w
      → Continues s (at_revision n w.session)
  newer n w h c = record {
    same_context = c.same_context;
    same_connection = c.same_connection;
    no_older = ground (arith, h, c.no_older);
  }

  pub applied :
      (n : ℕ) (id : String) (w : World) → After w → Ends (λ t. After) After (apply_revision n id w)
  unfolding apply_revision
  applied n id w c = elim (Bool-cases (str_eq w.session.info.context_id id)) [
    | inr other ↦ rw other c
    | inl same ↦ rw same (elim (Bool-cases (ltb n w.session.info.revision)) [
      | inl older ↦ rw older c
      | inr later ↦ rw later (newer n w later c)
    ])
  ]

  pub applying : (n : ℕ) (id : String) → Keeps After (apply_revision n id)
  applying n id = record { run = applied n id }

-- The session keeps the property, and the context is still to be deleted.
abbrev pub Pends : (Session → Type 0) → String → World → Type 0
Pends P id w = P w.session × (has_string w.session.cleanup id ≡ true)

-- Deleting a context touches only the set of those to delete, which keeps it if the deletion fails.
module _ (P : Session → Type 0)
    (ignores : (ids : List String) (s : Session) → P s → P (record s { cleanup = ids })) where
  not_removed-Ends :
      (id : String) (e : TransportError) (w : World)
      → P w.session
      → Ends (λ t v. P v.session) (Pends P id) (not_removed id e w)
  unfolding not_removed
  not_removed-Ends id e w p = elim (Bool-cases (is_not_found e)) [
    | inl gone ↦ rw gone (ignores _ w.session p)
    | inr there ↦ rw there (ignores _ w.session p, has_string-add_self id w.session.cleanup)
  ]

  removed-Ends :
      (id : String) (o : Outcome Value) (w : World)
      → P w.session
      → Ends (λ t v. P v.session) (Pends P id) (removed id o w)
  unfolding removed
  removed-Ends id (threw e) w p = not_removed-Ends id e w p
  removed-Ends id (returned v) w p = elim (Bool-cases (is_undefined v)) [
    | inl gone ↦ rw gone (ignores _ w.session p)
    | inr other ↦ rw other (not_removed-Ends id _ w p)
  ]

  pub remove_context-Ends :
      (service : Service) (id : String) (w : World)
      → P w.session
      → Ends (λ t v. P v.session) (Pends P id) (remove_context service id w)
  unfolding remove_context control
  remove_context-Ends service id w p =
      removed-Ends id (service.answer w.sent (delete_context id)) _ p

  pub remove_context-Keeps :
      (service : Service) (id : String) (w : World)
      → P w.session
      → P (remove_context service id w).1.session
  remove_context-Keeps service id w p =
      ends_world (λ v. P v.session) (remove_context service id w)
        (weaken-Ends _ _ _ _ (remove_context service id w) (λ t v q. q) (λ v q. q.0)
          (remove_context-Ends service id w p))
