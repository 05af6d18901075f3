-- ===== src/Client/Assembly/Account.antt =====
-- What the collection of a body keeps: its account with the budget, and the bytes when a block is
-- flushed.
use Prim.Native.Nat.{max}
use ja3proxy.Base.{
  ℕ, zero, suc, ◌+◌, ◌*◌, ◌≤◌, ◌<◌, ◌≡◌, refl, sym, ap, ◌∙◌, true, false, List, [], ◌∷◌, ◌++◌,
  Option, none, some, ltb, ◌==◌, length, arith, Bool-cases, inl, inr, append_assoc, append-nil,
  length-append, take_all,
}
use ja3proxy.Client.Assembly.{
  BufferBudget, reserve, block_size, Assembly, flush, zeros, joined, assemble,
}

-- The bytes that the blocks can hold.
abbrev pub room : Assembly → ℕ
room a = length (joined a.blocks) + length a.current

-- Two bytes are reserved for each that a block can hold.
pub record Inv (a : Assembly) : Type 0 where
  pub inside : a.filled ≤ length a.current
  pub short : length a.current ≤ block_size
  pub reserved_twice : a.retained ≡ room a * 2
  pub counted : a.size ≡ length (assemble a)

-- At most half of the current block is unwritten; before a copy, unless the rest fills it.
abbrev pub Tight : Assembly → Type 0
Tight a = length a.current ≤ a.filled * 2

abbrev pub Roomy : List ℕ → Assembly → Type 0
Roomy rest a = length a.current ≤ max (a.filled * 2) (a.filled + length rest)

-- Four times the bytes do not fit into the budget.
abbrev pub Lacks : List ℕ → Assembly → BufferBudget → Type 0
Lacks rest a b = b.limit + a.retained < b.retained + (a.size + length rest) * 4

-- The budget and the account of `buffer` move together, within the limit.
pub record Ledger (a : Assembly) (b : BufferBudget) (a' : Assembly) (b' : BufferBudget)
    : Type 0 where
  pub same_limit : b'.limit ≡ b.limit
  pub balance : b'.retained + a.retained ≡ b.retained + a'.retained
  pub kept : b.retained ≤ b.limit → b'.retained ≤ b'.limit

pub Ledger-refl : (a : Assembly) (b : BufferBudget) → Ledger a b a b
Ledger-refl a b = record { same_limit = refl; balance = refl; kept = λ h. h }

pub Ledger-trans :
    (a a' a'' : Assembly) (b b' b'' : BufferBudget)
    → Ledger a b a' b'
    → Ledger a' b' a'' b''
    → Ledger a b a'' b''
Ledger-trans a a' a'' b b' b'' l l' = record {
  same_limit = l'.same_limit ∙ l.same_limit;
  balance = omega (arith, l.balance, l'.balance);
  kept = λ h. l'.kept (l.kept h);
}

pub joined-append : (xs ys : List (List ℕ)) → joined (xs ++ ys) ≡ joined xs ++ joined ys
joined-append [] ys = refl
joined-append (x ∷ xs) ys =
    ap (λ l. x ++ l) (joined-append xs ys) ∙ sym (append_assoc x (joined xs) (joined ys))

pub length-zeros : (n : ℕ) → length (zeros n) ≡ n
length-zeros zero = refl
length-zeros (suc n) = omega (arith, length-zeros n)

-- What is reserved fits below the limit.
pub reserve_cases {ℓ} :
    (P : Option BufferBudget → Type ℓ) (n : ℕ) (b : BufferBudget)
    → (b.limit < b.retained + n → P none)
    → (b.retained + n ≤ b.limit → P (some (record b { retained = b.retained + n })))
    → P (reserve n b)
unfolding reserve
reserve_cases P n b refuse grant = elim (Bool-cases (ltb b.limit (b.retained + n))) [
  | inl e ↦ rw (e, reserve) (refuse (ground arith))
  | inr e ↦ rw (e, reserve) (grant (ground arith))
]

-- Flushing moves the full block, and leaves an empty one or one with room to double.
pub record Flushed (a f : Assembly) : Type 0 where
  pub inv : Inv f
  pub same_bytes : assemble f ≡ assemble a
  pub same_retained : f.retained ≡ a.retained
  pub unfull : f.filled < block_size
  pub tight : Tight f

pub flush_full : (a : Assembly) → Inv a → Tight a → a.filled ≡ block_size → Flushed a (flush a)
unfolding flush
flush_full a v t e =
    let test : (a.filled == block_size) ≡ true = ground arith in
    let blocks : joined (a.blocks ++ a.current ∷ []) ≡ joined a.blocks ++ a.current =
      joined-append a.blocks (a.current ∷ [])
      ∙ ap (λ l. joined a.blocks ++ l) (append-nil a.current) in
    let bytes : joined (a.blocks ++ a.current ∷ []) ++ [] ≡ assemble a =
      append-nil _
      ∙ blocks
      ∙ ap (λ l. joined a.blocks ++ l)
          (sym (take_all a.filled a.current (omega (arith, e, v.short)))) in
    rw (test, flush)
      (record {
        inv = record {
          inside = omega arith;
          short = omega arith;
          reserved_twice = omega (
            arith,
            v.reserved_twice,
            ap length blocks,
            length-append (joined a.blocks) a.current,
          );
          counted = v.counted ∙ ap length (sym bytes);
        };
        same_bytes = bytes;
        same_retained = refl;
        unfull = omega arith;
        tight = omega arith;
      })

pub flush_kept :
    (a : Assembly) → Inv a → Tight a → (a.filled == block_size) ≡ false → Flushed a (flush a)
unfolding flush
flush_kept a v t e =
    rw (e, flush)
      (record {
        inv = v;
        same_bytes = refl;
        same_retained = refl;
        unfull = ground (arith, v.inside, v.short);
        tight = t;
      })

pub flush-Flushed : (a : Assembly) → Inv a → Tight a → Flushed a (flush a)
flush-Flushed a v t = elim (Bool-cases (a.filled == block_size)) [
  | inl e ↦ flush_full a v t (ground arith)
  | inr e ↦ flush_kept a v t e
]
