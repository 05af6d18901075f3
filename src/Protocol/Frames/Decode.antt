-- ===== src/Protocol/Frames/Decode.antt =====
-- `next` against a decoder of the whole remaining byte sequence.
use native.Mathlib.Nat.{sub-zero}
use ja3proxy.Base.{
  ℕ, zero, suc, ◌+◌, ◌<◌, ◌≡◌, refl, ap, ◌∙◌, subst, Bool, true, false, ◌||◌, not, List, [], ◌∷◌,
  ltb, leb, ◌==◌, if◌then◌else◌, length, take, drop, arith, inl, inr, Bool-cases,
}
use ja3proxy.Protocol.Frames.{
  FrameReader, Exact, exact_loop, exact, Next, next, next_payload, after_header, payload_of,
  get_uint32, is_frame_type,
}
use ja3proxy.Protocol.Frames.Content.{exact-Reads}
use ja3proxy.Protocol.Frames.Rounds.{IsLive, Reads, content}

-- The limits of a reader stay.
abbrev pub SameLimits : FrameReader → FrameReader → Type 0
SameLimits r r' = (r'.metadata_limit ≡ r.metadata_limit) × (r'.data_limit ≡ r.data_limit)

exact_loop-SameLimits :
    (fuel size : ℕ) (eof : Bool) (written : List ℕ) (r : FrameReader)
    → SameLimits r (exact_loop fuel size eof written r).1
unfolding exact_loop
exact_loop-SameLimits zero size eof written r = (refl, refl)
exact_loop-SameLimits (suc fuel) size eof written r = grind (arith, exact_loop-SameLimits fuel)

exact-SameLimits : (size : ℕ) (eof : Bool) (r : FrameReader) → SameLimits r (exact size eof r).1
unfolding exact
exact-SameLimits size eof r = exact_loop-SameLimits (length r.source + 3) size eof [] r

pub data Decoded : Type 0 where
  decoded : ℕ → List ℕ → List ℕ → Decoded
  at_end cut_short malformed : Decoded

-- The first frame of a byte sequence and the bytes behind it.
unfoldable pub decode_payload : ℕ → ℕ → ℕ → ℕ → List ℕ → Decoded
decode_payload metadata_limit data_limit kind size rest =
    if not (is_frame_type kind) || ltb (if kind == 2 then data_limit else metadata_limit) size
    then malformed
    else if leb size (length rest)
    then decoded kind (take size rest) (drop size rest)
    else cut_short

unfoldable pub decode : ℕ → ℕ → List ℕ → Decoded
unfolding decode_payload
decode metadata_limit data_limit (kind ∷ a ∷ b ∷ c ∷ d ∷ rest) =
    decode_payload metadata_limit data_limit kind (get_uint32 a b c d) rest
decode metadata_limit data_limit [] = at_end
decode metadata_limit data_limit _ = cut_short

abbrev pub Agrees : FrameReader → Decoded → Next × FrameReader → Type 0
Agrees r (decoded kind payload rest) (e, r') =
    (e ≡ Next.a_frame kind payload) × IsLive r' × (content r' ≡ rest) × SameLimits r r'
Agrees r at_end (e, r') = e ≡ Next.end_of_stream
Agrees r cut_short (e, r') = e ≡ Next.incomplete
Agrees r malformed (e, r') = e ≡ Next.invalid

finish_payload :
    (kind size : ℕ) (r : FrameReader) (x : Exact × FrameReader)
    → Reads size false [] (content r) x
    → SameLimits r x.1
    → Agrees r
        (if leb size (length (content r))
          then decoded kind (take size (content r)) (drop size (content r))
          else cut_short)
        (payload_of kind x.0, x.1)
unfolding payload_of
finish_payload kind size r (e, r') (inl (le, eq, live, c)) same =
    let yes' : leb size (length (content r)) ≡ true = ground arith in
    rw (yes', eq)
      (
        ap (λ k. Next.a_frame kind (take k (content r))) (sub-zero size),
        live,
        c ∙ ap (λ k. drop k (content r)) (sub-zero size),
        same,
      )
finish_payload kind size r (e, r') (inr (lt, eq)) same =
    let no' : leb size (length (content r)) ≡ false = ground arith in rw (no', eq) refl

next_payload-decode :
    (kind size : ℕ) (r : FrameReader)
    → IsLive r
    → Agrees r
        (decode_payload r.metadata_limit r.data_limit kind size (content r))
        (next_payload kind size r)
unfolding next_payload decode_payload
next_payload-decode kind size r live =
    elim (Bool-cases (
      not (is_frame_type kind)
      || ltb (if kind == 2 then r.data_limit else r.metadata_limit) size)) [
        | inl bad ↦ rw (bad, next_payload) refl
        | inr fine ↦
            rw (fine, next_payload)
              (finish_payload kind size r (exact size false r) (exact-Reads size false r live)
                (exact-SameLimits size false r))
      ]

-- What a later reader gives, it gives for an earlier one with the same limits.
Agrees-later :
    (r s : FrameReader) (d : Decoded) (x : Next × FrameReader)
    → SameLimits r s
    → Agrees s d x
    → Agrees r d x
Agrees-later r s (decoded kind payload rest) x same (e, live, c, l) =
    (e, live, c, (l.0 ∙ same.0, l.1 ∙ same.1))
Agrees-later r s at_end x same h = h
Agrees-later r s cut_short x same h = h
Agrees-later r s malformed x same h = h

header_short :
    (c : List ℕ) (r : FrameReader) (x : Exact × FrameReader)
    → length c < 5
    → Reads 5 true [] c x
    → x.0 ≡ (if length c == 0 then Exact.end_of_stream else Exact.incomplete)
header_short c r x short (inl (le, _, _, _)) = absurd (omega arith)
header_short c r x short (inr (lt, e)) =
    e ∙ ap (λ n. if n == 0 then Exact.end_of_stream else Exact.incomplete) (omega arith)

header_decode :
    (c : List ℕ) (r : FrameReader) (x : Exact × FrameReader)
    → Reads 5 true [] c x
    → SameLimits r x.1
    → Agrees r (decode r.metadata_limit r.data_limit c) (after_header x.0 x.1)
unfolding decode after_header
header_decode [] r x reads same = rw (header_short [] r x (omega arith) reads) refl
header_decode (a ∷ []) r x reads same = rw (header_short (a ∷ []) r x (omega arith) reads) refl
header_decode (a ∷ b ∷ []) r x reads same =
    rw (header_short (a ∷ b ∷ []) r x (omega arith) reads) refl
header_decode (a ∷ b ∷ c ∷ []) r x reads same =
    rw (header_short (a ∷ b ∷ c ∷ []) r x (omega arith) reads) refl
header_decode (a ∷ b ∷ c ∷ d ∷ []) r x reads same =
    rw (header_short (a ∷ b ∷ c ∷ d ∷ []) r x (omega arith) reads) refl
header_decode (kind ∷ a ∷ b ∷ c ∷ d ∷ rest) r (e, r') (inr (lt, _)) same = absurd (omega arith)
header_decode (kind ∷ a ∷ b ∷ c ∷ d ∷ rest) r (e, r') (inl (le, eq, live, cont)) same = rw eq (
    Agrees-later r r' _ (next_payload kind (get_uint32 a b c d) r') same (
      subst (λ l. Agrees r' l (next_payload kind (get_uint32 a b c d) r'))
        (cc (cont, same.0, same.1)) (next_payload-decode kind (get_uint32 a b c d) r' live)))

-- On a live reader `next` gives exactly what the decoder finds in the bytes that are still to come,
-- however the stream cuts them into chunks: the first frame, with the reader left live before the
-- rest, or null at the end, or the exception of a truncated or of a malformed frame.
pub next-decode :
    (r : FrameReader)
    → IsLive r
    → Agrees r (decode r.metadata_limit r.data_limit (content r)) (next r)
unfolding next
next-decode r live =
    header_decode (content r) r (exact 5 true r) (exact-Reads 5 true r live)
      (exact-SameLimits 5 true r)
