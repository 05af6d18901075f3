-- ===== src/Sessions/Run/Triples.antt =====
-- What a function of packages/typescript/src/sessions.ts leaves behind, on return and on error, and
-- the rules for the parts that such functions are built of.
use ja3proxy.Base.{◌≡◌, refl, Bool, true, false, not, String, Option, if◌then◌else◌}
use ja3proxy.Errors.{Code, Kind, TransportError, Outcome, returned, threw, local_error}
use ja3proxy.Sessions.{
  World, Exec, next, ◌>>=◌, give, require, read, assert_usable, admitted, mutate, caught, mark_lost,
}

abbrev pub Ends :
    {A : Type 0} → (A → World → Type 0) → (World → Type 0) → Outcome A × World → Type 0
Ends Q E (returned a, w) = Q a w
Ends Q E (threw e, w) = E w

pub record Triple {A : Type 0} (P : World → Type 0) (m : Exec A) (Q : A → World → Type 0)
    (E : World → Type 0) : Type 0 where
  pub run : (w : World) → P w → Ends Q E (m w)

-- A property of the world that holds on before, after and in the error case.
abbrev pub Keeps : {A : Type 0} → (World → Type 0) → Exec A → Type 0
Keeps P m = Triple P m (λ a. P) P

next-Ends :
    {A B : Type 0} (Q : A → World → Type 0) (S : B → World → Type 0) (E : World → Type 0)
    (f : A → Exec B) (r : Outcome A × World)
    → Ends Q E r
    → ((a : A) → Triple (Q a) (f a) S E)
    → Ends S E (next f r)
next-Ends Q S E f (returned a, w) h k = (k a).run w h
next-Ends Q S E f (threw e, w) h k = h

module _ {A B : Type 0} {P : World → Type 0} {m : Exec A} {f : A → Exec B} where
  -- An error ends the sequence.
  pub bind-Triple :
      {Q : A → World → Type 0} {S : B → World → Type 0} {E : World → Type 0}
      → Triple P m Q E
      → ((a : A) → Triple (Q a) (f a) S E)
      → Triple P (m >>= f) S E
  unfolding ◌>>=◌
  bind-Triple {Q} {S} {E} h k = record { run = λ w p. next-Ends Q S E f (m w) (h.run w p) k }

  pub bind-Keeps : Keeps P m → ((a : A) → Keeps P (f a)) → Keeps P (m >>= f)
  bind-Keeps h k = bind-Triple h k

pub weaken-Ends :
    {A : Type 0} (Q S : A → World → Type 0) (E F : World → Type 0) (r : Outcome A × World)
    → ((a : A) (w : World) → Q a w → S a w)
    → ((w : World) → E w → F w)
    → Ends Q E r
    → Ends S F r
weaken-Ends Q S E F (returned a, w) q e h = q a w h
weaken-Ends Q S E F (threw x, w) q e h = e w h

module _ (P : World → Type 0) where
  require-Ends :
      (b : Bool) (e : TransportError) (w : World)
      → P w
      → Ends (λ t v. P v × (b ≡ true)) P (if b then (returned tt, w) else (threw e, w))
  require-Ends true e w p = (p, refl)
  require-Ends false e w p = p

  pub require-Triple :
      (b : Bool) (c : Code) (k : Option Kind) → Triple P (require b c k) (λ t w. P w × (b ≡ true)) P
  unfolding require
  require-Triple b c k = record { run = λ w p. require-Ends b (local_error c k) w p }

  pub require-Keeps : (b : Bool) (c : Code) (k : Option Kind) → Keeps P (require b c k)
  require-Keeps b c k = record {
    run = λ w p.
        weaken-Ends _ (λ t. P) P P (require b c k w) (λ t v h. h.0) (λ v h. h)
          ((require-Triple b c k).run w p);
  }

  pub give-Keeps : {A : Type 0} (a : A) → Keeps P (give a)
  unfolding give
  give-Keeps a = record { run = λ w p. p }

  pub read-Keeps : Keeps P read
  unfolding read
  read-Keeps = record { run = λ w p. p }

  -- A test that sends and changes nothing.
  either-Ends :
      (b : Bool) (e : TransportError) (r : Outcome (Unit {0}) × World) (w : World)
      → P w
      → Ends (λ t. P) P r
      → Ends (λ t. P) P (if b then (threw e, w) else r)
  either-Ends true e r w p h = p
  either-Ends false e r w p h = h

  assert_usable-Keeps : Keeps P assert_usable
  unfolding assert_usable
  assert_usable-Keeps = record {
    run = λ w p.
        either-Ends (not w.session.accepting) _ _ w p
          (either-Ends w.session.lost _ (returned tt, w) w p p);
  }

  admitted-Triple :
      {A : Type 0} {Q : A → World → Type 0} {m : Exec A} (turn : Outcome (Unit {0}))
      → Triple P m Q P
      → Triple P (admitted turn m) Q P
  unfolding admitted
  admitted-Triple (threw e) h = record { run = λ w p. p }
  admitted-Triple (returned t) h = record { run = λ w p. h.run w p }

  caught-Ends :
      {A : Type 0} (Q : A → World → Type 0) (id : String) (r : Outcome A × World)
      → ((e : TransportError) (w : World)
          → P w
          → P (record w { session = mark_lost e id w.session }))
      → Ends Q P r
      → Ends Q P (caught id r)
  unfolding caught
  caught-Ends Q id (returned a, w) lose h = h
  caught-Ends Q id (threw e, w) lose h = lose e w h

  -- What holds of an operation by itself holds of it in its turn, if losing the context keeps it.
  pub mutate-Triple :
      {A : Type 0} {Q : A → World → Type 0} {m : Exec A} (turn : Outcome (Unit {0}))
      → ((e : TransportError) (id : String) (w : World)
          → P w
          → P (record w { session = mark_lost e id w.session }))
      → Triple P m Q P
      → Triple P (mutate turn m) Q P
  unfolding mutate
  mutate-Triple {Q} {m} turn lose h = bind-Triple assert_usable-Keeps λ t.
      bind-Triple read-Keeps λ s. record {
        run = λ w p.
            caught-Ends Q s.info.context_id (admitted turn m w)
              (λ e v q. lose e s.info.context_id v q) ((admitted-Triple turn h).run w p);
      }

pub ends_world :
    {A : Type 0} (P : World → Type 0) (r : Outcome A × World) → Ends (λ a. P) P r → P r.1
ends_world P (returned a, w) h = h
ends_world P (threw e, w) h = h

pub either_world :
    (P : World → Type 0) (b : Bool) (e : TransportError) (w : World)
    (r : Outcome (Unit {0}) × World)
    → P w
    → P r.1
    → P (if b then (threw e, w) else r).1
either_world P true e w r p q = p
either_world P false e w r p q = q

-- `mutate` at one world, which its tests leave as it is.
module _ {A : Type 0} (Q : A → World → Type 0) (E : World → Type 0) (w : World)
    (unchanged : E w) where
  usable_at :
      (b : Bool) (e : TransportError) (f : Unit {0} → Exec A) (r : Outcome (Unit {0}) × World)
      → Ends Q E (next f r)
      → Ends Q E (next f (if b then (threw e, w) else r))
  usable_at true e f r h = unchanged
  usable_at false e f r h = h

  admitted_at :
      (turn : Outcome (Unit {0})) (m : Exec A) → Ends Q E (m w) → Ends Q E (admitted turn m w)
  unfolding admitted
  admitted_at (threw e) m h = unchanged
  admitted_at (returned t) m h = h

  pub mutate_at :
      (turn : Outcome (Unit {0})) (m : Exec A)
      → ((e : TransportError) (id : String) (v : World)
          → E v
          → E (record v { session = mark_lost e id v.session }))
      → Ends Q E (m w)
      → Ends Q E (mutate turn m w)
  unfolding mutate assert_usable ◌>>=◌ read
  mutate_at turn m lose h = usable_at (not w.session.accepting) _ _ _ (
      usable_at w.session.lost _ _ (returned tt, w)
        (caught-Ends E Q w.session.info.context_id (admitted turn m w)
          (λ e v q. lose e w.session.info.context_id v q) (admitted_at turn m h)))
