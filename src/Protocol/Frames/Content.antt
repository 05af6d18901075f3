-- ===== src/Protocol/Frames/Content.antt =====
-- What `exact` gives, in terms of the bytes that are still to come.
use ja3proxy.Base.{
  ℕ, zero, suc, ◌+◌, ◌-◌, ◌≤◌, ◌<◌, ◌≡◌, refl, sym, ap, ◌∙◌, subst, Bool, ◌&&◌, List, [], ◌∷◌, ◌++◌,
  leb, ◌==◌, if◌then◌else◌, length, take, drop, arith, inl, inr, append-nil, Bool-cases,
  length-append, drop_all,
}
use ja3proxy.Protocol.Frames.{
  Read, bytes, other, failure, FrameReader, Exact, got, Exact, piece, advance, exact_loop, exact,
}
use ja3proxy.Protocol.Frames.Rounds.{
  flat, content, IsLive, Reads, advance-IsLive, copy_last, copy_chunk, rounds, exact_loop_done,
  Reads-later, copied, round_copy, round_end, round_empty, round_chunk, add_zero,
}

-- The statement for a number of rounds.
abbrev Handles : ℕ → ℕ → Bool → Type 0
Handles fuel size eof =
    (written : List ℕ) (r : FrameReader)
    → IsLive r
    → length written ≤ size
    → rounds r ≤ fuel
    → Reads size eof written (content r) (exact_loop fuel size eof written r)

full_Reads :
    (size : ℕ) (eof : Bool) (written c : List ℕ) (r : FrameReader)
    → IsLive r
    → length written ≡ size
    → content r ≡ c
    → Reads size eof written c (got written, r)
full_Reads size eof written c r live h e =
    let z : size - length written ≡ 0 = omega arith in
    inl (
      omega arith,
      ap got (sym (append-nil written) ∙ ap (λ k. written ++ take k c) (sym z)),
      live,
      e ∙ ap (λ k. drop k c) (sym z),
    )

copied-Reads :
    (fuel size : ℕ) (eof : Bool) (written : List ℕ) (r : FrameReader)
    → Handles fuel size eof
    → IsLive r
    → length written < size
    → length r.source + 2 ≤ fuel
    → Reads size eof written (content r) (copied fuel size eof written r)
copied-Reads zero size eof written r ih live h f = absurd (omega arith)
copied-Reads (suc fuel) size eof written r ih live h f =
    elim (Bool-cases (leb (size - length written) (length (drop r.offset r.chunk)))) [
      | inl fits ↦
          let le : size - length written ≤ length (drop r.offset r.chunk) = ground arith in
          let (w, n, c) = copy_last size written r live h (ground arith) in
          subst (Reads size eof written (content r))
            (sym (exact_loop_done fuel size eof _ _ (omega arith)))
            (inl (
              omega (arith, le, length-append (drop r.offset r.chunk) (flat r.source)),
              ap got w,
              advance-IsLive size written r live h,
              c,
            ))
      | inr more ↦
          let lt : length (drop r.offset r.chunk) < size - length written = ground arith in
          let (w, o, c) = copy_chunk size written r live h (ground arith) in
          Reads-later size eof written (drop r.offset r.chunk) (flat r.source) _ (ground arith) (
            subst (λ w'. Reads size eof w' (flat r.source) (copied (suc fuel) size eof written r)) w
              (subst
                (λ c'.
                  Reads size eof (written ++ piece size written r) c'
                    (copied (suc fuel) size eof written r))
                c
                (ih _ (advance size written r) (advance-IsLive size written r live h) (short w lt)
                  (one_round o))))
    ]
  where
    short :
        written ++ piece size written r ≡ written ++ drop r.offset r.chunk
        → length (drop r.offset r.chunk) < size - length written
        → length (written ++ piece size written r) ≤ size
    short w lt = omega (arith, ap length w, length-append written (drop r.offset r.chunk))

    one_round :
        (advance size written r).offset ≡ length r.chunk
        → rounds (advance size written r) ≤ suc fuel
    one_round o = ground arith

-- A round that reads first.
refill_Reads :
    (fuel size : ℕ) (eof : Bool) (written : List ℕ) (r : FrameReader) (source : List Read)
    → r.source ≡ source
    → Handles fuel size eof
    → IsLive r
    → length written < size
    → r.offset ≡ length r.chunk
    → length r.source + 1 ≤ fuel
    → Reads size eof written (flat source) (exact_loop (suc fuel) size eof written r)
refill_Reads fuel size eof written r [] src ih live h o f = inr (
  omega arith,
  round_end fuel size eof written r live h o src
      ∙ ap (λ n. if eof && n == 0 then Exact.end_of_stream else Exact.incomplete)
          (add_zero (length written)),
)
refill_Reads fuel size eof written r (bytes [] ∷ rest) src ih live h o f =
    subst (Reads size eof written (flat rest))
      (sym (round_empty fuel size eof written r rest live h o src))
      (ih written _
        (record {
          going = live.going;
          inside = omega arith;
          source_bytes = rw src at live.source_bytes;
        })
        (omega arith) (omega (arith, ap length src)))
refill_Reads fuel size eof written r (bytes (x ∷ xs) ∷ rest) src ih live h o f =
    subst (Reads size eof written (x ∷ xs ++ flat rest))
      (sym (round_chunk fuel size eof written r x xs rest live h o src))
      (copied-Reads fuel size eof written _ ih
        (record {
          going = live.going;
          inside = omega arith;
          source_bytes = rw src at live.source_bytes;
        })
        h (omega (arith, ap length src)))
refill_Reads fuel size eof written r (other ∷ rest) src ih live h o f =
    absurd (rw src at live.source_bytes)
refill_Reads fuel size eof written r (failure ∷ rest) src ih live h o f =
    absurd (rw src at live.source_bytes)

exact_loop_Reads : (fuel size : ℕ) (eof : Bool) → Handles fuel size eof
exact_loop_Reads zero size eof written r live h f = absurd (ground arith)
exact_loop_Reads (suc fuel) size eof written r live h f =
    elim (Bool-cases (leb size (length written))) [
      | inl full ↦
          subst (Reads size eof written (content r))
            (sym (exact_loop_done fuel size eof written r (ground arith)))
            (full_Reads size eof written (content r) r live (ground arith) refl)
      | inr more ↦ elim (Bool-cases (r.offset == length r.chunk)) [
        | inl o ↦
            subst (λ c. Reads size eof written c (exact_loop (suc fuel) size eof written r))
              (ap (λ l. l ++ flat r.source) (sym (drop_all r.offset r.chunk (ground arith))))
              (refill_Reads fuel size eof written r r.source refl (exact_loop_Reads fuel size eof)
                live (ground arith) (ground arith) (ground arith))
        | inr o ↦
            subst (Reads size eof written (content r))
              (sym (round_copy fuel size eof written r live (ground arith) (ground arith)))
              (copied-Reads fuel size eof written r (exact_loop_Reads fuel size eof) live
                (ground arith) (ground arith))
      ]
    ]

-- `exact` on a live reader: where enough bytes are to come it gives them and leaves the rest, and
-- otherwise it gives null if that is allowed and no byte came, and throws if not. It never runs out of
-- fuel.
pub exact-Reads :
    (size : ℕ) (eof : Bool) (r : FrameReader)
    → IsLive r
    → Reads size eof [] (content r) (exact size eof r)
unfolding exact
exact-Reads size eof r live =
    exact_loop_Reads (length r.source + 3) size eof [] r live (omega arith) (ground arith)
