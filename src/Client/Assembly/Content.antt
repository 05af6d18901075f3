-- ===== src/Client/Assembly/Content.antt =====
-- What `buffer` gives for a response body.
use ja3proxy.Base.{
  ◌+◌, ◌*◌, length-append, ◌-◌, ltb, some, ℕ, zero, suc, ◌≤◌, ◌<◌, ◌≡◌, refl, sym, ap, ◌∙◌, subst,
  Bool, true, false, List, [], ◌∷◌, ◌++◌, ◌==◌, length, take, drop, All, arith, Bool-cases, inl,
  inr, append_assoc, append-nil, length-drop, take-append-drop,
}
use ja3proxy.Client.Assembly.{
  ended, BufferBudget, release, block_size, Assembly, fresh, flush, Appended, appended, refused,
  out_of_range, out_of_fuel, grown, count, copy, append, joined, assemble, final_bytes, Buffered,
  buffered, too_large, range_error, failed, exhausted, chunk_taken, buffer_from, buffer,
}
use ja3proxy.Client.Assembly.Rounds.{Took, place-Took, Grew, grow-Grew, copy_lem}
use ja3proxy.Client.Assembly.Account.{
  Tight, Inv, Ledger, Ledger-refl, Ledger-trans, Flushed, flush-Flushed,
}

-- Taking up goes on where a part `p` was taken up.
Took-after :
    (p rest : List ℕ) (a a' : Assembly) (b b' : BufferBudget) (y : Appended)
    → Inv a
    → Inv a'
    → assemble a' ≡ assemble a ++ p
    → Ledger a b a' b'
    → Took rest a' b' y
    → Took (p ++ rest) a b y
Took-after p rest a a' b b' (appended c d) i i' e l (v, bytes, m, tight) = (
  v,
  bytes ∙ ap (λ k. k ++ rest) e ∙ append_assoc (assemble a) p rest,
  Ledger-trans a a' c b b' d l m,
  tight,
)
Took-after p rest a a' b b' (refused c d) i i' e l (m, lacks) = (
  Ledger-trans a a' c b b' d l m,
  omega (
    arith,
    lacks,
    l.same_limit,
    l.balance,
    i.counted,
    i'.counted,
    ap length e,
    length-append (assemble a) p,
    length-append p rest,
  ),
)
Took-after p rest a a' b b' (out_of_range c d) i i' e l h = absurd h
Took-after p rest a a' b b' out_of_fuel i i' e l h = absurd h

-- The statement for a number of rounds.
abbrev Takes : ℕ → Type 0
Takes fuel =
    (rest : List ℕ) (a : Assembly) (b : BufferBudget)
    → Inv a
    → Tight a
    → length rest ≤ block_size
    → length rest < fuel
    → Took rest a b (append fuel rest a b)

-- A copy and the rounds behind it.
grown-Took :
    (fuel : ℕ) (rest : List ℕ) (a : Assembly) (b : BufferBudget) (y : Appended)
    → Takes fuel
    → 0 < length rest
    → length rest ≤ block_size
    → length rest < suc fuel
    → Inv a
    → Grew rest a b y
    → Took rest a b (grown y rest (append fuel))
grown-Took fuel rest a b (appended g b') ih r k f i (v, bytes, l, more, roomy) =
    let c : ℕ = count rest g in
    let (w, copied, kept, tight) = copy_lem rest g v in
    let later : Took (drop c rest) (copy rest g) b' (append fuel (drop c rest) (copy rest g) b') =
      ih (drop c rest) (copy rest g) b' w (tight roomy) (omega (arith, length-drop c rest))
        (omega (arith, length-drop c rest)) in
    subst (λ x. Took x a b (append fuel (drop c rest) (copy rest g) b')) (take-append-drop c rest)
      (Took-after (take c rest) (drop c rest) a (copy rest g) b b' _ i w
        (copied ∙ ap (λ x. x ++ take c rest) bytes)
        (record {
          same_limit = l.same_limit;
          balance = omega (arith, l.balance, kept);
          kept = l.kept;
        })
        later)
grown-Took fuel rest a b (refused g b') ih r k f i l = l
grown-Took fuel rest a b (out_of_range g b') ih r k f i h = absurd h
grown-Took fuel rest a b out_of_fuel ih r k f i h = absurd h

-- The rounds behind a flush.
Flushed-Took :
    (rest : List ℕ) (a f : Assembly) (b : BufferBudget) (y : Appended)
    → Inv a
    → Flushed a f
    → Took rest f b y
    → Took rest a b y
Flushed-Took rest a f b y i fl t =
    Took-after [] rest a f b b y i fl.inv (fl.same_bytes ∙ sym (append-nil (assemble a)))
      (record { same_limit = refl; balance = omega (arith, fl.same_retained); kept = λ h. h }) t

append-Took : (fuel : ℕ) → Takes fuel
unfolding append
append-Took zero rest a b v t k f = absurd (omega arith)
append-Took (suc fuel) [] a b v t k f = (v, sym (append-nil (assemble a)), Ledger-refl a b, t)
append-Took (suc fuel) (x ∷ xs) a b v t k f =
    let fl : Flushed a (flush a) = flush-Flushed a v t in
    Flushed-Took (x ∷ xs) a (flush a) b _ v fl (elim (Bool-cases (length (flush a).current == 0)) [
      | inl e ↦ rw e (place-Took (x ∷ xs) (flush a) b fl.inv (ground arith) k)
      | inr e ↦ rw e (
          grown-Took fuel (x ∷ xs) (flush a) b _ (append-Took fuel) (omega arith) k f fl.inv
            (grow-Grew (x ∷ xs) (flush a) b fl.inv (omega arith) (ground arith) fl.unfull fl.tight))
    ])

same_budget : (b b' : BufferBudget) → b.limit ≡ b'.limit → b.retained ≡ b'.retained → b ≡ b'
same_budget b b' e e' = ap (λ n. record b { limit = n }) e ∙ ap (λ n. record b' { retained = n }) e'

-- The outcome of `buffer` for chunks `bytes` and a budget `b`.
abbrev pub Buffers : List ℕ → Bool → BufferBudget → Buffered → Type 0
Buffers bytes complete b (buffered body b') = (complete ≡ true) × (body ≡ bytes) × (b' ≡ b)
Buffers bytes complete b (too_large b') = (b.limit < b.retained + length bytes * 4) × (b' ≡ b)
Buffers bytes complete b (range_error b') = ⊥
Buffers bytes complete b (failed b') = (complete ≡ false) × (b' ≡ b)
Buffers bytes complete b exhausted = ⊥

given_back :
    (b : BufferBudget) (a : Assembly) (b' : BufferBudget)
    → Ledger fresh b a b'
    → release a.retained b' ≡ b
unfolding release
given_back b a b' l = same_budget _ b l.same_limit (omega (arith, l.balance))

taken-Buffers :
    (chunk bytes : List ℕ) (complete : Bool) (a : Assembly) (b b' : BufferBudget) (y : Appended)
    (next : Assembly → BufferBudget → Buffered)
    → Ledger fresh b a b'
    → Inv a
    → Took chunk a b' y
    → ((c : Assembly) (d : BufferBudget)
        → Inv c
        → Tight c
        → Ledger fresh b c d
        → Buffers (assemble c ++ bytes) complete b (next c d))
    → Buffers (assemble a ++ (chunk ++ bytes)) complete b (chunk_taken y next)
unfolding chunk_taken
taken-Buffers chunk bytes complete a b b' (appended c d) next l i (w, same, m, tight) ih =
    subst (λ x. Buffers x complete b (next c d))
      (ap (λ x. x ++ bytes) same ∙ append_assoc (assemble a) chunk bytes)
      (ih c d w tight (Ledger-trans fresh a c b b' d l m))
taken-Buffers chunk bytes complete a b b' (refused c d) next l i (m, lacks) ih = (
  omega (
    arith,
    lacks,
    l.same_limit,
    l.balance,
    i.counted,
    length-append (assemble a) (chunk ++ bytes),
    length-append chunk bytes,
  ),
  given_back b c d (Ledger-trans fresh a c b b' d l m),
)
taken-Buffers chunk bytes complete a b b' (out_of_range c d) next l i m ih = absurd m
taken-Buffers chunk bytes complete a b b' out_of_fuel next l i m ih = absurd m

-- The array of `size` bytes is filled exactly.
final_bytes_lem : (a : Assembly) → Inv a → final_bytes a ≡ some (assemble a)
final_bytes_lem a v =
    let fits : ltb a.size (length (assemble a)) ≡ false = ground (arith, v.counted) in
    let whole : a.size - length (assemble a) ≡ 0 = omega (arith, v.counted) in
    rw (fits, whole) (ap some (append-nil (assemble a)))

buffer_from-Buffers :
    (chunks : List (List ℕ)) (complete : Bool) (a : Assembly) (b b' : BufferBudget)
    → Inv a
    → Tight a
    → All (λ c. length c ≤ block_size) chunks
    → Ledger fresh b a b'
    → Buffers (assemble a ++ joined chunks) complete b (buffer_from chunks complete a b')
unfolding buffer_from
buffer_from-Buffers [] true a b b' v t h l =
    subst (λ o. Buffers (assemble a ++ []) true b (ended o (release a.retained b')))
      (sym (final_bytes_lem a v)) (refl, sym (append-nil (assemble a)), given_back b a b' l)
buffer_from-Buffers [] false a b b' v t h l = (refl, given_back b a b' l)
buffer_from-Buffers (chunk ∷ chunks) complete a b b' v t (k, h) l =
    taken-Buffers chunk (joined chunks) complete a b b' _ (buffer_from chunks complete) l v
      (append-Took (suc (length chunk)) chunk a b' v t k (omega arith))
      (λ c d w tight m. buffer_from-Buffers chunks complete c b d w tight h m)

-- A body whose chunks are no longer than a block is never a RangeError, and the loop over a chunk
-- ends: `buffer` gives exactly the bytes of the chunks in their order where the exchange completes, or
-- fails because the exchange did not complete, or because a reservation was refused, which it only is
-- where the budget has less left than four times the bytes of the body. In each case the budget is
-- afterwards what it was before.
pub buffer-Buffers :
    (chunks : List (List ℕ)) (complete : Bool) (b : BufferBudget)
    → All (λ c. length c ≤ block_size) chunks
    → Buffers (joined chunks) complete b (buffer chunks complete b)
unfolding buffer
buffer-Buffers chunks complete b h =
    buffer_from-Buffers chunks complete fresh b b
      (record {
        inside = omega arith;
        short = omega arith;
        reserved_twice = omega arith;
        counted = refl;
      })
      (omega arith) h (Ledger-refl fresh b)
