-- ===== src/Client/Assembly/Rounds.antt =====
-- One round of the loop over a chunk: the collected bytes and the account of reservations.
use Prim.Native.Nat.{min}
use ja3proxy.Base.{
  ℕ, zero, suc, ◌+◌, ◌-◌, ◌*◌, ◌≤◌, ◌<◌, ◌≡◌, refl, sym, ap, ◌∙◌, false, List, [], ◌∷◌, ◌++◌, ltb,
  ◌==◌, length, take, drop, arith, Bool-cases, inl, inr, append_assoc, append-nil, length-append,
  length-take, length-drop, take_all, take-append_le,
}
use ja3proxy.Client.Assembly.{
  BufferBudget, reserve, block_size, Assembly, zeros, Appended, appended, refused, out_of_range,
  out_of_fuel, place, placed, capacity, grow, widened, count, copy, joined, assemble,
}
use ja3proxy.Client.Assembly.Account.{
  Inv, Tight, Roomy, Lacks, Ledger, Ledger-refl, length-zeros, reserve_cases,
}

-- What taking up `rest` must keep.
abbrev pub Took : List ℕ → Assembly → BufferBudget → Appended → Type 0
Took rest a b (appended a' b') =
    Inv a' × (assemble a' ≡ assemble a ++ rest) × Ledger a b a' b' × Tight a'
Took rest a b (refused a' b') = Ledger a b a' b' × Lacks rest a b
Took rest a b (out_of_range a' b') = ⊥
Took rest a b out_of_fuel = ⊥

take_none : (n : ℕ) (xs : List ℕ) → length xs ≡ 0 → take n xs ≡ []
take_none zero xs e = refl
take_none (suc n) [] e = refl
take_none (suc n) (x ∷ xs) e = absurd (omega (arith, e))

size_lem :
    (a : Assembly)
    → length (assemble a) ≡ length (joined a.blocks) + min a.filled (length a.current)
size_lem a = omega (
  arith,
  length-append (joined a.blocks) (take a.filled a.current),
  length-take a.filled a.current,
)

pub place-Took :
    (rest : List ℕ) (a : Assembly) (b : BufferBudget)
    → Inv a
    → length a.current ≡ 0
    → length rest ≤ block_size
    → Took rest a b (place rest a b)
unfolding place
place-Took rest a b v e h =
    reserve_cases (λ o. Took rest a b (placed rest a b o)) (length rest * 2) b
      (λ lacks. (
        Ledger-refl a b,
        omega (arith, lacks, v.reserved_twice, v.counted, e, v.inside, size_lem a),
      ))
      λ fits.
        let bytes : joined a.blocks ++ take (length rest) rest ≡ assemble a ++ rest =
          ap (λ l. joined a.blocks ++ l) (take_all (length rest) rest (omega arith))
          ∙ ap (λ l. l ++ rest)
              (sym (append-nil (joined a.blocks))
                ∙ ap (λ l. joined a.blocks ++ l) (sym (take_none a.filled a.current e))) in
        (
          record {
            inside = omega arith;
            short = h;
            reserved_twice = omega (arith, v.reserved_twice, e);
            counted = omega (arith, v.counted, ap length bytes, length-append (assemble a) rest);
          },
          bytes,
          record { same_limit = refl; balance = omega arith; kept = λ k. fits },
          omega arith,
        )

-- Growth makes room and keeps the bytes.
abbrev pub Grew : List ℕ → Assembly → BufferBudget → Appended → Type 0
Grew rest a b (appended a' b') =
    Inv a'
    × (assemble a' ≡ assemble a)
    × Ledger a b a' b'
    × (a'.filled < length a'.current)
    × Roomy rest a'
Grew rest a b (refused a' b') = Ledger a b a' b' × Lacks rest a b
Grew rest a b (out_of_range a' b') = ⊥
Grew rest a b out_of_fuel = ⊥

widened-Grew :
    (rest : List ℕ) (a : Assembly) (b : BufferBudget)
    → Inv a
    → 0 < length a.current
    → a.filled ≡ length a.current
    → a.filled < block_size
    → (let n = capacity rest a - length a.current in
        Grew rest a b (widened n a b (reserve (n * 2) b)))
widened-Grew rest a b v c full u =
    let n : ℕ = capacity rest a - length a.current in
    let grown : length (a.current ++ zeros n) ≡ length a.current + n =
      omega (arith, length-append a.current (zeros n), length-zeros n) in
    let bytes : joined a.blocks ++ take a.filled (a.current ++ zeros n) ≡ assemble a =
      ap (λ l. joined a.blocks ++ l) (take-append_le a.filled a.current (zeros n) v.inside) in
    reserve_cases (λ o. Grew rest a b (widened n a b o)) (n * 2) b
      (λ lacks. (
        Ledger-refl a b,
        omega (arith, lacks, v.reserved_twice, v.counted, full, v.short, size_lem a),
      ))
      λ fits. (
        record {
          inside = omega (arith, grown, v.inside);
          short = omega (arith, grown, v.short);
          reserved_twice = omega (arith, grown, v.reserved_twice);
          counted = v.counted ∙ ap length (sym bytes);
        },
        bytes,
        record { same_limit = refl; balance = omega arith; kept = λ k. fits },
        omega (arith, grown, full, u, c),
        omega (arith, grown, full, v.short),
      )

pub grow-Grew :
    (rest : List ℕ) (a : Assembly) (b : BufferBudget)
    → Inv a
    → 0 < length rest
    → 0 < length a.current
    → a.filled < block_size
    → Tight a
    → Grew rest a b (grow rest a b)
unfolding grow
grow-Grew rest a b v r c u t = elim (Bool-cases (a.filled == length a.current)) [
  | inr e ↦ rw (e, grow) (v, refl, Ledger-refl a b, ground (arith, v.inside), omega (arith, t))
  | inl e ↦
      let full : a.filled ≡ length a.current = ground arith in
      let fits : ltb (capacity rest a) (length a.current) ≡ false = ground (arith, v.short) in
      rw (e, fits, grow) (widened-Grew rest a b v c full u)
]

take_whole :
    (n : ℕ) (xs ys zs : List ℕ) → n ≡ length (xs ++ ys) → take n (xs ++ (ys ++ zs)) ≡ xs ++ ys
take_whole n xs ys zs e =
    ap (take n) (sym (append_assoc xs ys zs))
    ∙ take-append_le n (xs ++ ys) zs (omega (arith, e))
    ∙ take_all n (xs ++ ys) (omega (arith, e))

-- A copy writes the bytes that fit.
pub copy_lem :
    (rest : List ℕ) (a : Assembly)
    → Inv a
    → Inv (copy rest a)
      × (assemble (copy rest a) ≡ assemble a ++ take (count rest a) rest)
      × ((copy rest a).retained ≡ a.retained)
      × (Roomy rest a → Tight (copy rest a))
unfolding copy
copy_lem rest a v =
    let c : ℕ = count rest a in
    let old : List ℕ = take a.filled a.current in
    let new : List ℕ = take c rest in
    let tail : List ℕ = drop (a.filled + c) a.current in
    let old_length : length old ≡ a.filled =
      omega (arith, length-take a.filled a.current, v.inside) in
    let new_length : length new ≡ c = omega (arith, length-take c rest) in
    let whole : length (old ++ (new ++ tail)) ≡ length a.current = omega (
      arith,
      length-append old (new ++ tail),
      length-append new tail,
      length-drop (a.filled + c) a.current,
      old_length,
      new_length,
      v.inside,
    ) in
    let bytes : joined a.blocks ++ take (a.filled + c) (old ++ (new ++ tail)) ≡ assemble a ++ new =
      ap (λ l. joined a.blocks ++ l)
        (take_whole (a.filled + c) old new tail
          (omega (arith, length-append old new, old_length, new_length)))
      ∙ sym (append_assoc (joined a.blocks) old new) in
    (
      record {
        inside = omega (arith, whole, v.inside);
        short = omega (arith, whole, v.short);
        reserved_twice = omega (arith, whole, v.reserved_twice);
        counted =
            omega (arith, v.counted, ap length bytes, length-append (assemble a) new, new_length);
      },
      bytes,
      refl,
      λ h. omega (arith, whole, h, v.inside),
    )
