-- ===== src/Sessions/Run/Accounts.antt =====
-- The contexts that a session of packages/typescript/src/sessions.ts has opened, by what it sent, and
-- those that it still means to delete or that are gone.
use ja3proxy.Base.{
  ◌≡◌, ◌≢◌, ◌⊎◌, refl, subst, inl, inr, Bool, true, ◌||◌, String, str_eq, eq_iff, List, [], ◌∷◌,
  ◌++◌, none, arith, Bool-cases, ℕ, ltb,
}
use ja3proxy.Errors.{Code, TransportError, Outcome, returned, threw, local_error}
use ja3proxy.Errors.Encoding.{as_text}
use ja3proxy.Wire.Value.{Value, member, is_undefined, has_string}
use ja3proxy.Sessions.{
  Service, Settings, World, Session, Sent, post_contexts, post_cookies, delete_context, control,
  add, without, add_cleanup, delete_cleanup, is_not_found, mark_lost, at_revision, apply_revision,
  not_removed, removed, remove_context,
}
use ja3proxy.Sessions.Rebind.Open.{matches_request}
use ja3proxy.Sessions.Run.Triples.{Ends, Keeps}

-- The answer to a deletion that says that the context is gone: no content, or CONTEXT_NOT_FOUND.
abbrev pub is_gone : Outcome Value → Bool
is_gone (returned v) = is_undefined v
is_gone (threw e) = is_not_found e

-- The service has confirmed that the context is gone.
pub data Deleted (id : String) : List Sent → Type 0 where
  confirmed :
      {x : Sent} {older : List Sent}
      → x.call ≡ delete_context id
      → is_gone x.answer ≡ true
      → Deleted id (x ∷ older)
  gone_before : {x : Sent} {older : List Sent} → Deleted id older → Deleted id (x ∷ older)

-- The service has opened the context, and the session has accepted the answer.
pub data Opened (service : Service) (settings : Settings) (id : String) : List Sent → Type 0 where
  accepted :
      {x : Sent} {older : List Sent} (caps request v : Value)
      → x.call ≡ post_contexts request
      → x.answer ≡ returned v
      → service.capabilities older ≡ returned caps
      → matches_request caps settings (member "connection" request) v ≡ true
      → as_text (member "contextId" v) ≡ id
      → Opened service settings id (x ∷ older)
  opened_before :
      {x : Sent} {older : List Sent}
      → Opened service settings id older
      → Opened service settings id (x ∷ older)

-- The session will delete the context when it closes, or the context is gone.
pub data Accounted (id : String) (w : World) : Type 0 where
  kept : has_string w.session.cleanup id ≡ true → Accounted id w
  deleted : Deleted id w.sent → Accounted id w

pub has_string-append :
    (xs ys : List String) (j : String)
    → has_string (xs ++ ys) j ≡ (has_string xs j || has_string ys j)
has_string-append [] ys j = refl
has_string-append (x ∷ xs) ys j = ground (arith, has_string-append xs ys j)

pub has_string-add :
    (id j : String) (xs : List String) → has_string xs j ≡ true → has_string (add id xs) j ≡ true
unfolding add
has_string-add id j xs h = ground (arith, has_string-append xs (id ∷ []) j)

pub has_string-add_self : (id : String) (xs : List String) → has_string (add id xs) id ≡ true
unfolding add
has_string-add_self id xs = ground (arith, has_string-append xs (id ∷ []) id, eq_iff id id)

has_string-without :
    (id j : String) (xs : List String)
    → has_string xs j ≡ true
    → (id ≡ j) ⊎ (has_string (without id xs) j ≡ true)
unfolding without
has_string-without id j [] h = absurd (ground arith)
has_string-without id j (x ∷ xs) h = elim (Bool-cases (str_eq x id)) [
  | inl same ↦ elim (Bool-cases (str_eq j x)) [
    | inl found ↦ inl (ground (arith, eq_iff x id, eq_iff j x, same, found))
    | inr other ↦ rw same (has_string-without id j xs (ground (arith, other)))
  ]
  | inr stays ↦ rw stays (without_kept x id j xs h (has_string-without id j xs))
]
  where
    without_kept :
        (x id j : String) (xs : List String)
        → has_string (x ∷ xs) j ≡ true
        → (has_string xs j ≡ true → (id ≡ j) ⊎ (has_string (without id xs) j ≡ true))
        → (id ≡ j) ⊎ (has_string (x ∷ without id xs) j ≡ true)
    without_kept x id j xs h rest = elim (Bool-cases (str_eq j x)) [
      | inl found ↦ inr (ground (arith, found))
      | inr other ↦ elim (rest (ground (arith, other))) [
        | inl e ↦ inl e
        | inr k ↦ inr (ground (arith, k))
      ]
    ]

module _ (service : Service) (settings : Settings) where
  -- No context is forgotten.
  abbrev pub IsSafe : World → Type 0
  IsSafe w = (id : String) → Opened service settings id w.sent → Accounted id w

  move :
      (id : String) (w : World) (s : Session)
      → (has_string w.session.cleanup id ≡ true → has_string s.cleanup id ≡ true)
      → Accounted id w
      → Accounted id (record w { session = s })
  move id w s h (kept k) = kept (h k)
  move id w s h (deleted d) = deleted d

  -- A change of the session that forgets no context.
  pub change-IsSafe :
      (w : World) (s : Session)
      → ((id : String) → has_string w.session.cleanup id ≡ true → has_string s.cleanup id ≡ true)
      → IsSafe w
      → IsSafe (record w { session = s })
  change-IsSafe w s h safe id o = move id w s (h id) (safe id o)

  no_opening :
      (id : String) (x : Sent) (older : List Sent)
      → ((r : Value) → x.call ≢ post_contexts r)
      → Opened service settings id (x ∷ older)
      → Opened service settings id older
  no_opening id x older h (accepted caps request v c a k m e) = absurd (h request c)
  no_opening id x older h (opened_before o) = o

  pub older_account :
      (id : String) (w : World) (x : Sent)
      → Accounted id w
      → Accounted id (record w { sent = x ∷ w.sent })
  older_account id w x (kept k) = kept k
  older_account id w x (deleted d) = deleted (gone_before d)

  send :
      (x : Sent) (w : World)
      → ((r : Value) → x.call ≢ post_contexts r)
      → IsSafe w
      → IsSafe (record w { sent = x ∷ w.sent })
  send x w h safe id o = older_account id w x (safe id (no_opening id x w.sent h o))

  same-Ends :
      {A : Type 0} (P : World → Type 0) (o : Outcome A) (w : World) → P w → Ends (λ a. P) P (o, w)
  same-Ends P (returned a) w p = p
  same-Ends P (threw e) w p = p

  pub post_cookies-IsSafe :
      (id : String) (v : Value) → Keeps IsSafe (control service (post_cookies id v))
  unfolding control
  post_cookies-IsSafe id v = record {
    run = λ w safe. same-Ends IsSafe _ _ (send _ w (λ r. cc) safe);
  }

  -- A deleted context may leave the set.
  drop_deleted :
      (id j : String) (w : World)
      → Deleted id w.sent
      → Accounted j w
      → Accounted j (record w { session = delete_cleanup id w.session })
  drop_deleted id j w d (deleted e) = deleted e
  drop_deleted id j w d (kept k) = elim (has_string-without id j w.session.cleanup k) [
    | inl same ↦ deleted (subst (λ i. Deleted i w.sent) same d)
    | inr other ↦ kept other
  ]

  pub add_cleanup-IsSafe :
      (id : String) (w : World)
      → IsSafe w
      → IsSafe (record w { session = add_cleanup id w.session })
  add_cleanup-IsSafe id w safe =
      change-IsSafe w (add_cleanup id w.session) (λ j h. has_string-add id j w.session.cleanup h)
        safe

  not_removed-IsSafe :
      (id : String) (e : TransportError) (w : World)
      → (is_not_found e ≡ true → Deleted id w.sent)
      → IsSafe w
      → Ends (λ t. IsSafe) IsSafe (not_removed id e w)
  unfolding not_removed
  not_removed-IsSafe id e w d safe = elim (Bool-cases (is_not_found e)) [
    | inl gone ↦ rw gone (λ j o. drop_deleted id j w (d gone) (safe j o))
    | inr there ↦ rw there (add_cleanup-IsSafe id w safe)
  ]

  removed-IsSafe :
      (id : String) (o : Outcome Value) (w : World)
      → (is_gone o ≡ true → Deleted id w.sent)
      → IsSafe w
      → Ends (λ t. IsSafe) IsSafe (removed id o w)
  unfolding removed
  removed-IsSafe id (threw e) w d safe = not_removed-IsSafe id e w d safe
  removed-IsSafe id (returned v) w d safe = elim (Bool-cases (is_undefined v)) [
    | inl gone ↦ rw gone (λ j o. drop_deleted id j w (d gone) (safe j o))
    | inr other ↦ rw other (
        not_removed-IsSafe id (local_error Code.protocol_error none) w
          (unfold local_error in λ h. cc) safe)
  ]

  pub remove_context-IsSafe : (id : String) → Keeps IsSafe (remove_context service id)
  unfolding remove_context control
  remove_context-IsSafe id = record {
    run = λ w safe.
        removed-IsSafe id (service.answer w.sent (delete_context id)) _
          (λ gone. confirmed refl gone) (send _ w (λ r. cc) safe);
  }

  pub mark_lost-IsSafe :
      (e : TransportError) (id : String) (w : World)
      → IsSafe w
      → IsSafe (record w { session = mark_lost e id w.session })
  unfolding mark_lost
  mark_lost-IsSafe e id w safe =
      change-IsSafe w (mark_lost e id w.session) (λ j h. ground (arith, h)) safe

  apply_revision-Ends :
      (n : ℕ) (id : String) (w : World)
      → IsSafe w
      → Ends (λ t. IsSafe) IsSafe (apply_revision n id w)
  unfolding apply_revision
  apply_revision-Ends n id w safe = elim (Bool-cases (str_eq w.session.info.context_id id)) [
    | inr other ↦ rw other safe
    | inl same ↦ rw same (elim (Bool-cases (ltb n w.session.info.revision)) [
      | inl older ↦ rw older safe
      | inr newer ↦ rw newer (change-IsSafe w (at_revision n w.session) (λ j h. h) safe)
    ])
  ]

  pub apply_revision-IsSafe : (n : ℕ) (id : String) → Keeps IsSafe (apply_revision n id)
  apply_revision-IsSafe n id = record { run = apply_revision-Ends n id }
