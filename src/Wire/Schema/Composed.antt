-- ===== src/Wire/Schema/Composed.antt =====
-- `anyOf` and `oneOf`: what their branches leave.
use ja3proxy.Base.{
  ℕ, ◌+◌, ◌≤◌, ◌<◌, ◌≡◌, refl, sym, ap, subst, Bool, true, false, ◌==◌, arith, ltb, if◌then◌else◌,
}
use ja3proxy.Wire.Checks.{
  Step, going, returned, Mode, returns, counts, Branches, tried, any_next, one_next, composed,
}
use ja3proxy.Wire.Schema.Meets.{Meets, passes, adds, leaves}

-- Branches whose errors count, tried from `n` errors on.
pub data Leaves (n : ℕ) (b : Bool) : Branches → Type 0 where
  chosen : (m : ℕ) → b ≡ true → Leaves n b (tried true m)
  rejected : (m : ℕ) → b ≡ false → n ≤ m → Leaves n b (tried false m)

pub composed_lem :
    (mode : Mode) (n : ℕ) (b : Bool) (x : Branches)
    → Leaves n b x
    → Meets mode n b (composed mode x n)
unfolding composed
composed_lem mode n b x (chosen m e) = subst (λ c. Meets mode n c (going n)) (sym e) passes
composed_lem returns n b x (rejected m e h) =
    subst (λ c. Meets returns n c (returned (m + 1))) (sym e) (leaves (m + 1) refl (omega arith))
composed_lem counts n b x (rejected m e h) =
    subst (λ c. Meets counts n c (going (m + 1))) (sym e) (adds (m + 1) (omega arith))

Leaves-from : (n m : ℕ) (b : Bool) (x : Branches) → n ≤ m → Leaves m b x → Leaves n b x
Leaves-from n m b x h (chosen k e) = chosen k e
Leaves-from n m b x h (rejected k e g) = rejected k e (omega arith)

pub Leaves-same : (n : ℕ) (b b' : Bool) (x : Branches) → b ≡ b' → Leaves n b x → Leaves n b' x
Leaves-same n b b' x e h = subst (λ c. Leaves n c x) e h

abbrev pub one_if : Bool → ℕ
one_if b = if b then 1 else 0

pub zero_left : (n : ℕ) → n ≡ 0 + n
zero_left n = omega arith

self : (n : ℕ) → (n == n) ≡ true
self n = ground arith

other : (n m : ℕ) → n < m → (m == n) ≡ false
other n m h = ground arith

pub any_next_lem :
    (n k : ℕ) (b : Bool) (x : Step) (next : ℕ → Branches)
    → Meets counts n b x
    → ((m : ℕ) → Leaves m (ltb 0 k) (next m))
    → Leaves n (ltb 0 (one_if b + k)) (any_next x n next)
unfolding any_next
any_next_lem n k b x next passes h = rw (self n) (chosen n (ground arith))
any_next_lem n k b x next (adds m lt) h =
    rw (other n m lt)
      (Leaves-same n _ _ _ (ap (ltb 0) (zero_left k)) (Leaves-from n m _ _ (omega arith) (h m)))
any_next_lem n k b x next (leaves m e lt) h = absurd (ground arith)

pub one_next_lem :
    (n k : ℕ) (valid b : Bool) (x : Step) (next : Bool → ℕ → Branches)
    → Meets counts n b x
    → ((valid' : Bool) (m : ℕ) → Leaves m ((one_if valid' + k) == 1) (next valid' m))
    → Leaves n ((one_if valid + (one_if b + k)) == 1) (one_next valid x n next)
unfolding one_next
one_next_lem n k true b x next passes h = rw (self n) (rejected n (ground arith) (omega arith))
one_next_lem n k false b x next passes h =
    rw (self n) (Leaves-same n _ _ _ (ap (λ j. j == 1) (zero_left (1 + k))) (h true n))
one_next_lem n k valid b x next (adds m lt) h = rw (other n m lt) (
    Leaves-same n _ _ _ (ap (λ j. (one_if valid + j) == 1) (zero_left k))
      (Leaves-from n m _ _ (omega arith) (h valid m)))
one_next_lem n k valid b x next (leaves m e lt) h = absurd (ground arith)
