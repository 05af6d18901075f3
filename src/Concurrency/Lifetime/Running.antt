-- ===== src/Concurrency/Lifetime/Running.antt =====
-- The operations that run: their numbers, and the settled ones.
use ja3proxy.Base.{
  ℕ, suc, ◌<◌, ◌≡◌, refl, subst, inl, inr, Bool, false, List, [], ◌∷◌, ◌++◌, some, ◌==◌, All, arith,
  Bool-cases, Option-cases,
}
use ja3proxy.Concurrency.Lifetime.{
  Operation, Lifetime, mem, register, find_operation, delete_operation, finish, done,
}

pub All-map :
    {P Q : Operation → Type 0}
    → ((op : Operation) → P op → Q op)
    → (ops : List Operation) → All P ops
    → All Q ops
All-map f [] h = tt
All-map f (op ∷ ops) (p, h) = (f op p, All-map f ops h)

pub All-append :
    (P : Operation → Type 0) (ops : List Operation) (op : Operation)
    → All P ops
    → P op
    → All P (ops ++ op ∷ [])
All-append P [] op h p = (p, tt)
All-append P (o ∷ ops) op (q, h) p = (q, All-append P ops op h p)

pub All-delete :
    {P Q : Operation → Type 0} (i : ℕ)
    → ((op : Operation) → (op.id == i) ≡ false → P op → Q op)
    → (ops : List Operation) → All P ops
    → All Q (delete_operation i ops)
All-delete i f [] h = tt
All-delete i f (op ∷ ops) (p, h) = elim (Bool-cases (op.id == i)) [
  | inl e ↦ rw e (All-delete i f ops h)
  | inr e ↦ rw e (f op e p, All-delete i f ops h)
]

pub All-find :
    (P : Operation → Type 0) (i : ℕ) (ops : List Operation) (op : Operation)
    → All P ops
    → find_operation i ops ≡ some op
    → P op
All-find P i [] op h e = absurd (ground arith)
All-find P i (o ∷ ops) op (p, h) e = elim (Bool-cases (o.id == i)) [
  | inl t ↦ subst P (ground arith) p
  | inr t ↦ All-find P i ops op h (ground arith)
]

-- The numbers are below `n`.
abbrev pub Fresh : ℕ → List ℕ → Type 0
Fresh n [] = Unit {0}
Fresh n (i ∷ is) = (i < n) × Fresh n is

pub Fresh-mem : (n : ℕ) (is : List ℕ) → Fresh n is → mem n is ≡ false
Fresh-mem n [] h = refl
Fresh-mem n (i ∷ is) (lt, h) = ground (arith, Fresh-mem n is h)

pub Fresh-suc : (n : ℕ) (is : List ℕ) → Fresh n is → Fresh (suc n) is
Fresh-suc n [] h = tt
Fresh-suc n (i ∷ is) (lt, h) = (omega (arith, lt), Fresh-suc n is h)

-- With any property `Q` of the numbers that running operations have: they are not settled.
abbrev pub Runs : (ℕ → Type 0) → List ℕ → ℕ → Operation → Type 0
Runs Q settled next op = (mem op.id settled ≡ false) × (op.id < next) × Q op.id

pub record Running (Q : ℕ → Type 0) (s : Lifetime) : Type 0 where
  pub running : All (Runs Q s.settled s.next_id) s.operations
  pub given : Fresh s.next_id s.settled

module _ (Q : ℕ → Type 0) where
  pub register-Running :
      (deadline : ℕ) (owns : Bool) (s : Lifetime)
      → Q s.next_id
      → Running Q s
      → Running Q (register deadline owns s)
  unfolding register
  register-Running deadline owns s q r = record {
    running =
        All-append _ s.operations _
          (All-map (λ op (m, lt, h). (m, omega (arith, lt), h)) s.operations r.running)
          (Fresh-mem s.next_id s.settled r.given, omega arith, q);
    given = Fresh-suc s.next_id s.settled r.given;
  }

  pub finish-Running :
      (op : Operation) (s : Lifetime)
      → Runs Q s.settled s.next_id op
      → Running Q s
      → Running Q (finish op s)
  unfolding finish
  finish-Running op s (m, lt, q) r = record {
    running =
        All-delete op.id (λ o e (m', lt', q'). (rw (e, m') refl, lt', q')) s.operations r.running;
    given = (lt, r.given);
  }

  pub done-Running : (i : ℕ) (s : Lifetime) → Running Q s → Running Q (done i s)
  unfolding done
  done-Running i s r = elim (Option-cases (find_operation i s.operations)) [
    | inl e ↦ rw (e, done) r
    | inr (op, e) ↦ rw (e, done) (finish-Running op s (All-find _ i s.operations op r.running e) r)
  ]
