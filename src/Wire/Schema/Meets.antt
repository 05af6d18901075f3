-- ===== src/Wire/Schema/Meets.antt =====
-- The errors that the code patterns of compiled-validators.js count, against a Boolean.
use ja3proxy.Base.{
  ℕ, ◌+◌, ◌<◌, ◌≡◌, refl, subst, inl, inr, Bool, true, false, ◌&&◌, ◌||◌, String, List, ◌==◌, arith,
  Bool-cases, ltb, leb, if◌then◌else◌,
}
use ja3proxy.Wire.Value.{
  Value, undefined, null, boolean, number, string, array, object, whole, minus, fraction, infinite,
  not_a_number, is_null, is_string, is_integer, equals_one,
}
use ja3proxy.Wire.Checks.{
  Step, going, returned, Mode, returns, counts, fault, after, test, both, gated, bounds,
  string_enum, integer_check, nullable_integer,
}
use ja3proxy.Wire.Schema.{in_range}

-- From `n` errors: nothing is added where the Boolean holds, and at least one is where it does not;
-- the function is only left where errors do not count.
pub data Meets (mode : Mode) (n : ℕ) : Bool → Step → Type 0 where
  passes : Meets mode n true (going n)
  adds : (m : ℕ) → n < m → Meets mode n false (going m)
  leaves : (m : ℕ) → mode ≡ returns → 0 < m → Meets mode n false (returned m)

pub Meets-fault : (mode : Mode) (n : ℕ) → Meets mode n false (fault mode n)
unfolding fault
Meets-fault returns n = leaves 1 refl (omega arith)
Meets-fault counts n = adds (n + 1) (omega arith)

pub Meets-test :
    (mode : Mode) (ok : Value → Bool) (v : Value) (n : ℕ) → Meets mode n (ok v) (test mode ok v n)
unfolding test
Meets-test mode ok v n = elim (Bool-cases (ok v)) [
  | inl e ↦ rw (e, test) passes
  | inr e ↦ rw (e, test) (Meets-fault mode n)
]

self : (n : ℕ) → (n == n) ≡ true
self n = ground arith

other : (n m : ℕ) → n < m → (m == n) ≡ false
other n m h = ground arith

pub Meets-gate :
    {mode : Mode} (n : ℕ) (b b' : Bool) (s : Step) (next : ℕ → Step)
    → Meets mode n b s
    → (b ≡ true → Meets mode n b' (next n))
    → Meets mode n (b && b') (after s λ m. if m == n then next m else going m)
unfolding after
Meets-gate n b b' s next passes h = rw (self n) (h refl)
Meets-gate n b b' s next (adds m lt) h = rw (other n m lt) (adds m lt)
Meets-gate n b b' s next (leaves m e lt) h = leaves m e lt

pub later_Meets :
    {mode : Mode} (n m : ℕ) (b : Bool) (s : Step) → n < m → Meets mode m b s → Meets mode n false s
later_Meets n m b s lt passes = adds m lt
later_Meets n m b s lt (adds k h) = adds k (omega arith)
later_Meets n m b s lt (leaves k e h) = leaves k e h

pub Meets-after :
    {mode : Mode} (n : ℕ) (b b' : Bool) (s : Step) (next : ℕ → Step)
    → Meets mode n b s
    → ((m : ℕ) → Meets mode m b' (next m))
    → Meets mode n (b && b') (after s next)
unfolding after
Meets-after n b b' s next passes h = h n
Meets-after n b b' s next (adds m lt) h = later_Meets n m b' (next m) lt (h m)
Meets-after n b b' s next (leaves m e lt) h = leaves m e lt

-- Another name for the Boolean.
pub Meets-same :
    {mode : Mode} (n : ℕ) (b b' : Bool) (s : Step) → b ≡ b' → Meets mode n b s → Meets mode n b' s
Meets-same {mode} n b b' s e h = subst (λ x. Meets mode n x s) e h

string-equals_one :
    (values : List String) (v : Value) → is_string v && equals_one values v ≡ equals_one values v
string-equals_one values (string s) = refl
string-equals_one values undefined = refl
string-equals_one values null = refl
string-equals_one values (boolean b) = refl
string-equals_one values (number x) = refl
string-equals_one values (array xs) = refl
string-equals_one values (object fs) = refl

pub string_enum_lem :
    (mode : Mode) (values : List String) (v : Value) (n : ℕ)
    → Meets mode n (equals_one values v) (string_enum mode values v n)
unfolding string_enum both
string_enum_lem mode values v n = Meets-same n _ _ _ (string-equals_one values v) (
    Meets-after n (is_string v) (equals_one values v) _ _ (Meets-test mode is_string v n)
      (Meets-test mode (equals_one values) v))

whole_bounds :
    (mode : Mode) (max k n : ℕ) → Meets mode n (leb k max) (bounds mode max (number (whole k)) n)
unfolding bounds
whole_bounds mode max k n = elim (Bool-cases (ltb max k)) [
  | inl e ↦ let f : leb k max ≡ false = ground arith in rw (e, f, bounds) (Meets-fault mode n)
  | inr e ↦ let f : leb k max ≡ true = ground arith in rw (e, f, bounds) passes
]

minus_bounds :
    (mode : Mode) (max k n : ℕ) → Meets mode n (k == 0) (bounds mode max (number (minus k)) n)
unfolding bounds
minus_bounds mode max k n = elim (Bool-cases (ltb 0 k)) [
  | inl e ↦ let f : (k == 0) ≡ false = ground arith in rw (e, f, bounds) (Meets-fault mode n)
  | inr e ↦ let f : (k == 0) ≡ true = ground arith in rw (e, f, bounds) passes
]

bounds_lem :
    (mode : Mode) (max : ℕ) (v : Value) (n : ℕ)
    → is_integer v ≡ true
    → Meets mode n (in_range max v) (bounds mode max v n)
bounds_lem mode max (number (whole k)) n e = whole_bounds mode max k n
bounds_lem mode max (number (minus k)) n e = minus_bounds mode max k n
bounds_lem mode max (number (fraction s k)) n e = absurd (ground arith)
bounds_lem mode max (number (infinite s)) n e = absurd (ground arith)
bounds_lem mode max (number not_a_number) n e = absurd (ground arith)
bounds_lem mode max undefined n e = absurd (ground arith)
bounds_lem mode max null n e = absurd (ground arith)
bounds_lem mode max (boolean b) n e = absurd (ground arith)
bounds_lem mode max (string s) n e = absurd (ground arith)
bounds_lem mode max (array xs) n e = absurd (ground arith)
bounds_lem mode max (object fs) n e = absurd (ground arith)

integer-in_range : (max : ℕ) (v : Value) → is_integer v && in_range max v ≡ in_range max v
integer-in_range max (number (whole k)) = refl
integer-in_range max (number (minus k)) = refl
integer-in_range max (number (fraction s k)) = refl
integer-in_range max (number (infinite s)) = refl
integer-in_range max (number not_a_number) = refl
integer-in_range max undefined = refl
integer-in_range max null = refl
integer-in_range max (boolean b) = refl
integer-in_range max (string s) = refl
integer-in_range max (array xs) = refl
integer-in_range max (object fs) = refl

pub integer_lem :
    (mode : Mode) (max : ℕ) (v : Value) (n : ℕ)
    → Meets mode n (in_range max v) (integer_check mode max v n)
unfolding integer_check gated
integer_lem mode max v n = Meets-same n _ _ _ (integer-in_range max v) (
    Meets-gate n (is_integer v) (in_range max v) _ (bounds mode max v)
      (Meets-test mode is_integer v n) (bounds_lem mode max v n))

-- null is not tested for its bounds.
optional_bounds :
    (mode : Mode) (max : ℕ) (v : Value) (n : ℕ)
    → is_integer v || is_null v ≡ true
    → Meets mode n (in_range max v || is_null v) (bounds mode max v n)
unfolding bounds
optional_bounds mode max null n e = passes
optional_bounds mode max (number x) n e =
    Meets-same n _ _ _ (or_false (in_range max (number x)))
      (bounds_lem mode max (number x) n (ground arith))
  where
    or_false : (b : Bool) → b ≡ (b || false)
    or_false b = ground arith
optional_bounds mode max undefined n e = absurd (ground arith)
optional_bounds mode max (boolean b) n e = absurd (ground arith)
optional_bounds mode max (string s) n e = absurd (ground arith)
optional_bounds mode max (array xs) n e = absurd (ground arith)
optional_bounds mode max (object fs) n e = absurd (ground arith)

optional_range :
    (max : ℕ) (v : Value)
    → (is_integer v || is_null v) && (in_range max v || is_null v) ≡ (in_range max v || is_null v)
optional_range max v = ground (arith, integer-in_range max v)

pub nullable_integer_lem :
    (mode : Mode) (max : ℕ) (v : Value) (n : ℕ)
    → Meets mode n (in_range max v || is_null v) (nullable_integer mode max v n)
unfolding nullable_integer gated
nullable_integer_lem mode max v n = Meets-same n _ _ _ (optional_range max v) (
    Meets-gate n (is_integer v || is_null v) (in_range max v || is_null v) _ (bounds mode max v)
      (Meets-test mode (λ w. is_integer w || is_null w) v n) (optional_bounds mode max v n))
