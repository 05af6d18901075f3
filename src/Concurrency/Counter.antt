-- ===== src/Concurrency/Counter.antt =====
-- The `Map<string, number>` counters of concurrency.ts: an association list in insertion order.
-- A key occurs once in a Map, so `delete` may drop every entry of the key.
use text.Mathlib.TextPositions.{eq_refl}
use ja3proxy.Base.{
  ℕ, zero, suc, ◌+◌, ◌-◌, ◌≡◌, refl, Bool, true, false, List, [], ◌∷◌, ◌++◌, Option, none, some,
  String, str_eq, eq_iff, arith, ◌==◌, if◌then◌else◌, or_else,
}

module _ {ℓ} {V : Type ℓ} where
  unfoldable pub get : String → List (String × V) → Option V
  get k [] = none
  get k ((j, v) ∷ m) = if str_eq j k then some v else get k m

  unfoldable pub set : String → V → List (String × V) → List (String × V)
  set k v [] = (k, v) ∷ []
  set k v ((j, w) ∷ m) = if str_eq j k then (k, v) ∷ m else (j, w) ∷ set k v m

  unfoldable pub delete : String → List (String × V) → List (String × V)
  delete k [] = []
  delete k ((j, w) ∷ m) = if str_eq j k then delete k m else (j, w) ∷ delete k m

  pub get-set :
      (k q : String) (v : V) (m : List (String × V))
      → get q (set k v m) ≡ (if str_eq k q then some v else get q m)
  unfolding get set
  get-set k q v [] = refl
  get-set k q v ((j, w) ∷ m) = ground (arith, eq_iff k q, eq_iff j k, eq_iff j q, get-set k q v m)

  pub get-delete :
      (k q : String) (m : List (String × V))
      → get q (delete k m) ≡ (if str_eq k q then none else get q m)
  unfolding get delete
  get-delete k q [] = ground arith
  get-delete k q ((j, w) ∷ m) = ground (arith, eq_iff k q, eq_iff j k, eq_iff j q, get-delete k q m)

-- `m.set(k, (m.get(k) ?? 0) + 1)`
unfoldable pub increment : String → List (String × ℕ) → List (String × ℕ)
increment k m = set k (or_else (get k m) 0 + 1) m

-- `remaining = m.get(k)! - 1`, then `delete` at 0 and `set` otherwise. A missing key would store
-- NaN: `Counts` below excludes it wherever the code decrements.
unfoldable pub decrement : String → List (String × ℕ) → List (String × ℕ)
decrement k m = elim (get k m) [
  | none ↦ m
  | some n ↦ if n - 1 == 0 then delete k m else set k (n - 1) m
]

unfoldable pub count : String → List String → ℕ
count k [] = 0
count k (j ∷ js) = if str_eq j k then suc (count k js) else count k js

-- What the map holds for a key that occurs n times.
abbrev pub tally : ℕ → Option ℕ
tally zero = none
tally (suc n) = some (suc n)

-- The map counts the keys of the list, with no entry for a key that does not occur.
abbrev pub Counts : List (String × ℕ) → List String → Type 0
Counts m ks = (q : String) → get q m ≡ tally (count q ks)

abbrev pub one_if : Bool → ℕ
one_if true = 1
one_if false = 0

pub or_else-tally : (n : ℕ) → or_else (tally n) 0 ≡ n
or_else-tally zero = refl
or_else-tally (suc n) = refl

pub count-append : (q : String) (xs ys : List String) → count q (xs ++ ys) ≡ count q xs + count q ys
unfolding count
count-append q [] ys = ground arith
count-append q (x ∷ xs) ys = ground (arith, count-append q xs ys)

-- `ks'` is `ks` with one more `k`, in whatever place.
pub increment-Counts :
    (k : String) (m : List (String × ℕ)) (ks ks' : List String)
    → ((q : String) → count q ks' ≡ count q ks + one_if (str_eq k q))
    → Counts m ks
    → Counts (increment k m) ks'
unfolding increment
increment-Counts k m ks ks' more h q = ground (
  arith,
  get-set k q (or_else (get k m) 0 + 1) m,
  more q,
  h q,
  h k,
  eq_iff k q,
  or_else-tally (count k ks),
)

-- A key that the list loses was present, so `decrement` meets an entry.
decrement_hit :
    (k q : String) (m : List (String × ℕ)) (c : ℕ)
    → get k m ≡ some (suc c)
    → get q (decrement k m) ≡ (if str_eq k q then tally c else get q m)
unfolding decrement
decrement_hit k q m zero e = rw (e, decrement) (get-delete k q m)
decrement_hit k q m (suc c) e =
    rw (e, decrement) (ground (arith, get-set k q (suc (suc c) - 1) m, get-delete k q m))

pub decrement-Counts :
    (k : String) (m : List (String × ℕ)) (ks ks' : List String)
    → ((q : String) → count q ks ≡ count q ks' + one_if (str_eq k q))
    → Counts m ks
    → Counts (decrement k m) ks'
decrement-Counts k m ks ks' less h q =
    let present : get k m ≡ some (suc (count k ks')) = ground (arith, h k, less k, eq_refl k) in
    ground (arith, decrement_hit k q m (count k ks') present, less q, h q, eq_iff k q)
