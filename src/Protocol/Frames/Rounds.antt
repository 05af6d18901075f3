-- ===== src/Protocol/Frames/Rounds.antt =====
-- What one round of the loop of `exact` copies.
use ja3proxy.Base.{
  ℕ, suc, ◌+◌, ◌-◌, min, ◌≤◌, ◌<◌, ◌≡◌, ◌≢◌, sym, ap, ◌∙◌, Bool, false, ◌&&◌, List, [], ◌∷◌, ◌++◌,
  ◌==◌, if◌then◌else◌, length, take, drop, arith, ◌⊎◌, inl, inr, append_assoc, length-append,
  length-take, length-drop, take-append_le, take-append_ge, drop-append_le, drop-append_ge,
  drop-drop, take_all, drop_all,
}
use ja3proxy.Protocol.Frames.{
  Read, bytes, FrameReader, Exact, got, Exact, piece, advance, exact_loop,
}

-- The bytes of the reads, where each gives a Uint8Array.
abbrev pub flat : List Read → List ℕ
flat [] = []
flat (bytes xs ∷ rest) = xs ++ flat rest
flat (_ ∷ rest) = flat rest

abbrev pub AllBytes : List Read → Type 0
AllBytes [] = Unit {0}
AllBytes (bytes xs ∷ rest) = AllBytes rest
AllBytes (_ ∷ rest) = ⊥

abbrev pub content : FrameReader → List ℕ
content r = drop r.offset r.chunk ++ flat r.source

-- A reader before its end, over a stream of byte chunks.
pub record IsLive (r : FrameReader) : Type 0 where
  pub going : r.ended ≡ false
  pub inside : r.offset ≤ length r.chunk
  pub source_bytes : AllBytes r.source

-- Reading `size` bytes where `c` is to come and `written` was read.
abbrev pub Reads : ℕ → Bool → List ℕ → List ℕ → Exact × FrameReader → Type 0
Reads size allow_eof written c (e, r) =
    ((size ≤ length written + length c)
      × (e ≡ got (written ++ take (size - length written) c))
      × IsLive r
      × (content r ≡ drop (size - length written) c))
    ⊎ ((length written + length c < size)
        × (e ≡ (
            if allow_eof && (length written + length c) == 0
            then Exact.end_of_stream
            else Exact.incomplete)))

module _ (size : ℕ) (written : List ℕ) (r : FrameReader) (live : IsLive r)
    (h : length written < size) where
  abbrev pub left : ℕ
  left = size - length written

  abbrev pub unread : List ℕ
  unread = drop r.offset r.chunk

  pub advance-IsLive : IsLive (advance size written r)
  advance-IsLive = record {
    going = live.going;
    inside = omega (arith, live.inside);
    source_bytes = live.source_bytes;
  }

  pub length-unread : length unread ≡ length r.chunk - r.offset
  length-unread = length-drop r.offset r.chunk

  -- A round that copies all that is wanted.
  pub copy_last :
      left ≤ length unread
      → (written ++ piece size written r ≡ written ++ take left (content r))
        × (length (written ++ piece size written r) ≡ size)
        × (content (advance size written r) ≡ drop left (content r))
  copy_last le =
      let m : min left (length r.chunk - r.offset) ≡ left = omega (arith, length-unread) in
      (
        ap (λ k. written ++ take k unread) m
            ∙ ap (λ l. written ++ l) (sym (take-append_le left unread (flat r.source) le)),
        omega (
          arith,
          length-append written (piece size written r),
          length-take (min left (length r.chunk - r.offset)) unread,
          length-unread,
        ),
        ap (λ k. drop (r.offset + k) r.chunk ++ flat r.source) m
            ∙ sym (
                drop-append_le left unread (flat r.source) le
                ∙ ap (λ l. l ++ flat r.source) (drop-drop left r.offset r.chunk)),
      )

  -- A round that copies the rest of the chunk.
  pub copy_chunk :
      length unread < left
      → (written ++ piece size written r ≡ written ++ unread)
        × (r.offset + min left (length r.chunk - r.offset) ≡ length r.chunk)
        × (content (advance size written r) ≡ flat r.source)
  copy_chunk lt =
      let m : min left (length r.chunk - r.offset) ≡ length unread = omega (arith, length-unread) in
      let e : r.offset + min left (length r.chunk - r.offset) ≡ length r.chunk =
        omega (arith, length-unread, live.inside) in
      (
        ap (λ k. written ++ take k unread) m
            ∙ ap (λ l. written ++ l) (take_all (length unread) unread (omega arith)),
        e,
        ap (λ k. drop k r.chunk ++ flat r.source) e
            ∙ ap (λ l. l ++ flat r.source) (drop_all (length r.chunk) r.chunk (omega arith)),
      )

-- The rounds that a reader can still need.
abbrev pub rounds : FrameReader → ℕ
rounds r = length r.source + (if r.offset == length r.chunk then 2 else 3)

pub exact_loop_done :
    (fuel size : ℕ) (eof : Bool) (written : List ℕ) (r : FrameReader)
    → size ≤ length written
    → exact_loop (suc fuel) size eof written r ≡ (got written, r)
unfolding exact_loop
exact_loop_done fuel size eof written r h = ground arith

-- Reading goes on where a round left off.
module _ (size : ℕ) (eof : Bool) (written d c : List ℕ) (x : Exact × FrameReader)
    (h : length written + length d < size) where
  pub left_after : size - length (written ++ d) ≡ size - length written - length d
  left_after = omega (arith, length-append written d)

  pub same_total : length (written ++ d) + length c ≡ length written + length (d ++ c)
  same_total = omega (arith, length-append written d, length-append d c)

  pub Reads-later : Reads size eof (written ++ d) c x → Reads size eof written (d ++ c) x
  Reads-later (inl (le, e, live, rest)) = inl (
    omega (arith, same_total),
    e
        ∙ ap got (
            append_assoc written d _
            ∙ ap (λ l. written ++ l)
                (ap (λ k. d ++ take k c) left_after
                  ∙ sym (take-append_ge (size - length written) d c (omega arith)))),
    live,
    rest
        ∙ ap (λ k. drop k c) left_after
        ∙ sym (drop-append_ge (size - length written) d c (omega arith)),
  )
  Reads-later (inr (lt, e)) = inr (
    omega (arith, same_total),
    e ∙ ap (λ n. if eof && n == 0 then Exact.end_of_stream else Exact.incomplete) same_total,
  )

abbrev pub copied : ℕ → ℕ → Bool → List ℕ → FrameReader → Exact × FrameReader
copied fuel size eof written r =
    exact_loop fuel size eof (written ++ piece size written r) (advance size written r)

-- What the loop does in one round.
pub round_copy :
    (fuel size : ℕ) (eof : Bool) (written : List ℕ) (r : FrameReader)
    → IsLive r
    → length written < size
    → r.offset ≢ length r.chunk
    → exact_loop (suc fuel) size eof written r ≡ copied fuel size eof written r
unfolding exact_loop
round_copy fuel size eof written r live h ne = ground (arith, live.going)

pub round_end :
    (fuel size : ℕ) (eof : Bool) (written : List ℕ) (r : FrameReader)
    → IsLive r
    → length written < size
    → r.offset ≡ length r.chunk
    → r.source ≡ []
    → (exact_loop (suc fuel) size eof written r).0
      ≡ (if eof && length written == 0 then Exact.end_of_stream else Exact.incomplete)
unfolding exact_loop
round_end fuel size eof written r live h eq src = ground (arith, live.going)

pub round_empty :
    (fuel size : ℕ) (eof : Bool) (written : List ℕ) (r : FrameReader) (rest : List Read)
    → IsLive r
    → length written < size
    → r.offset ≡ length r.chunk
    → r.source ≡ bytes [] ∷ rest
    → exact_loop (suc fuel) size eof written r
      ≡ exact_loop fuel size eof written (record r { chunk = []; offset = 0; source = rest })
unfolding exact_loop
round_empty fuel size eof written r rest live h eq src = ground (arith, live.going)

pub round_chunk :
    (fuel size : ℕ) (eof : Bool) (written : List ℕ) (r : FrameReader) (x : ℕ) (xs : List ℕ)
    (rest : List Read)
    → IsLive r
    → length written < size
    → r.offset ≡ length r.chunk
    → r.source ≡ bytes (x ∷ xs) ∷ rest
    → exact_loop (suc fuel) size eof written r
      ≡ copied fuel size eof written (record r { chunk = x ∷ xs; offset = 0; source = rest })
unfolding exact_loop
round_chunk fuel size eof written r x xs rest live h eq src = ground (arith, live.going)

pub add_zero : (n : ℕ) → n ≡ n + 0
add_zero n = omega arith
