-- ===== src/Sessions/Run/Opening.antt =====
-- openContext of packages/typescript/src/sessions.ts, and the contexts that it opens.
use ja3proxy.Base.{◌≡◌, ◌⊎◌, refl, inl, inr, true, false, String, ◌∷◌, Option, none, Bool-cases}
use ja3proxy.Platform.{Url}
use ja3proxy.Errors.{Code, TransportError, Outcome, returned, threw}
use ja3proxy.Errors.Encoding.{as_text}
use ja3proxy.Wire.Value.{Value, member, lookup}
use ja3proxy.Sessions.{
  Service, Settings, World, Info, Sent, post_contexts, Exec, ◌>>=◌, ◌>>◌, give, require, control,
}
use ja3proxy.Sessions.Rebind.Open.{
  open_context, pass, context_request, matches_request, copy_context_info,
}
use ja3proxy.Sessions.Run.Triples.{Ends, Triple, weaken-Ends, bind-Triple, require-Keeps}
use ja3proxy.Sessions.Run.Accounts.{
  IsSafe, Accounted, Opened, accepted, opened_before, older_account,
}

connection_of :
    (settings : Settings) (connection : Value)
    → member "connection" (context_request settings connection) ≡ connection
unfolding context_request lookup
connection_of settings connection = refl

module _ (parse : String → Option Url) (service : Service) (settings : Settings) where
  abbrev pub Safe : World → Type 0
  Safe w = IsSafe service settings w

  -- The capabilities that are in use when a request is sent.
  abbrev Ready : Value → World → Type 0
  Ready caps w = Safe w × (service.capabilities w.sent ≡ returned caps)

  -- Behind a request for a context: it is accounted for, or it is the one that the answer names.
  abbrev Posted : Value → Value → Value → World → Type 0
  Posted caps connection v w =
      (id : String)
      → Opened service settings id w.sent
      → Accounted id w
        ⊎ ((matches_request caps settings connection v ≡ true)
            × (as_text (member "contextId" v) ≡ id))

  abbrev pub Pending : Info → World → Type 0
  Pending info w =
      (id : String) → Opened service settings id w.sent → Accounted id w ⊎ (info.context_id ≡ id)

  posted :
      (caps connection v : Value) (w : World) (x : Sent)
      → Ready caps w
      → x.call ≡ post_contexts (context_request settings connection)
      → x.answer ≡ returned v
      → Posted caps connection v (record w { sent = x ∷ w.sent })
  posted caps connection v w x r c a id (accepted caps' request v' c' a' k m e) =
      inr (cc (connection_of settings connection, r.1), cc)
  posted caps connection v w x r c a id (opened_before o) =
      inl (older_account service settings id w x (r.0 id o))

  refused_request :
      (w : World) (x : Sent) (e : TransportError)
      → Safe w
      → x.answer ≡ threw e
      → Safe (record w { sent = x ∷ w.sent })
  refused_request w x e safe a id (accepted caps request v c a' k m i) = absurd (cc)
  refused_request w x e safe a id (opened_before o) =
      older_account service settings id w x (safe id o)

  sent_request :
      (caps connection : Value) (w : World) (o : Outcome Value)
      → Ready caps w
      → Ends
          (λ v. Posted caps connection v)
          Safe
          (
            o,
            record w {
              sent =
                  record { call = post_contexts (context_request settings connection); answer = o }
                  ∷ w.sent;
            },
          )
  sent_request caps connection w (returned v) r = posted caps connection v w _ r refl refl
  sent_request caps connection w (threw e) r = refused_request w _ e r.0 refl

  post_contexts-Triple :
      (caps connection : Value)
      → Triple
          (Ready caps)
          (control service (post_contexts (context_request settings connection)))
          (λ v. Posted caps connection v)
          Safe
  unfolding control
  post_contexts-Triple caps connection = record {
    run = λ w r.
        sent_request caps connection w
          (service.answer w.sent (post_contexts (context_request settings connection))) r;
  }

  -- An answer that is refused opens nothing that the session knows.
  no_match :
      (caps connection v : Value) (w : World)
      → Posted caps connection v w
      → matches_request caps settings connection v ≡ false
      → Safe w
  no_match caps connection v w p other id o = elim (p id o) [ inl a ↦ a | inr m ↦ absurd (cc) ]

  info_of :
      (caps connection v : Value) (w : World)
      → Posted caps connection v w
      → Pending (copy_context_info v) w
  unfolding copy_context_info
  info_of caps connection v w p id o = elim (p id o) [ inl a ↦ inl a | inr m ↦ inr (m.1) ]

  answered :
      (caps connection v : Value) (w : World)
      → Posted caps connection v w
      → Ends Pending Safe (
          (do
            require (matches_request caps settings connection v) Code.protocol_error none
            give (copy_context_info v))
            w)
  unfolding ◌>>=◌ require give
  answered caps connection v w p = elim (Bool-cases (matches_request caps settings connection v)) [
    | inl fits ↦ rw fits (info_of caps connection v w p)
    | inr other ↦ rw other (no_match caps connection v w p other)
  ]

  pub pure-Triple : {A : Type 0} (P : World → Type 0) (o : Outcome A) → Triple P (pass o) (λ a. P) P
  unfolding pass
  pure-Triple P (returned a) = record { run = λ w p. p }
  pure-Triple P (threw e) = record { run = λ w p. p }

  ready :
      (w : World) (o : Outcome Value)
      → Safe w
      → service.capabilities w.sent ≡ o
      → Ends Ready Safe (o, w)
  ready w (returned caps) safe e = (safe, e)
  ready w (threw x) safe e = safe

  weaken_error :
      {A : Type 0} (P E : World → Type 0) (Q : A → World → Type 0) (m : Exec A)
      → ((w : World) → E w → P w)
      → Triple E m Q E
      → Triple E m Q P
  weaken_error P E Q m h t = record {
    run = λ w p. weaken-Ends Q Q E P (m w) (λ a v q. q) h (t.run w p);
  }

  -- A context that is opened is accounted for, but for the one that is given back.
  pub open_context-Triple :
      (connection : Value)
      → Triple Safe (open_context parse service settings connection) Pending Safe
  unfolding open_context
  open_context-Triple connection = bind-Triple (pure-Triple Safe _) λ t.
      bind-Triple (record { run = λ w safe. ready w (service.capabilities w.sent) safe refl })
        λ caps.
          bind-Triple (weaken_error Safe (Ready caps) _ _ (λ w r. r.0) (pure-Triple (Ready caps) _))
            λ t.
              bind-Triple
                (weaken_error Safe (Ready caps) _ _ (λ w r. r.0) (require-Keeps (Ready caps) _ _ _))
                λ t.
                  bind-Triple
                    (weaken_error Safe (Ready caps) _ _ (λ w r. r.0)
                      (require-Keeps (Ready caps) _ _ _))
                    λ t.
                      bind-Triple
                        (weaken_error Safe (Ready caps) _ _ (λ w r. r.0)
                          (require-Keeps (Ready caps) _ _ _))
                        λ t.
                          bind-Triple (post_contexts-Triple caps connection)
                            λ v. record { run = answered caps connection v }
