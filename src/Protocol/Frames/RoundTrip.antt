-- ===== src/Protocol/Frames/RoundTrip.antt =====
-- Frames that `frame` wrote, read by `next`.
use ja3proxy.Base.{
  ℕ, ◌^◌, ◌/◌, ◌%◌, ◌≤◌, ◌<◌, ◌≡◌, refl, sym, ap, ◌∙◌, subst, subst₂, true, List, [], ◌∷◌, ◌++◌,
  ◌==◌, if◌then◌else◌, length, take, drop, arith, length-append, take-append_le, drop-append_le,
  take_all, drop_all,
}
use ja3proxy.Protocol.Frames.{
  Read, FrameReader, Next, a_frame, next, frame, get_uint32, is_frame_type, create,
}
use ja3proxy.Protocol.Frames.Rounds.{IsLive, content, AllBytes, flat}
use ja3proxy.Protocol.Frames.Decode.{Decoded, decoded, decode, decode_payload, next-decode, Agrees}

-- A frame that the reader's limits and the length field allow.
pub record Fits (metadata_limit data_limit : ℕ) (kind : ℕ) (payload : List ℕ) : Type 0 where
  pub known : is_frame_type kind ≡ true
  pub short : length payload ≤ (if kind == 2 then data_limit else metadata_limit)
  pub in_field : length payload < 2 ^ 32

get-set_uint32 :
    (n : ℕ)
    → n < 2 ^ 32
    → get_uint32 (n / 2 ^ 24 % 256) (n / 2 ^ 16 % 256) (n / 2 ^ 8 % 256) (n % 256) ≡ n
unfolding get_uint32
get-set_uint32 n h = omega arith

take_exact : (xs ys : List ℕ) → take (length xs) (xs ++ ys) ≡ xs
take_exact xs ys =
    take-append_le (length xs) xs ys (omega arith) ∙ take_all (length xs) xs (omega arith)

drop_exact : (xs ys : List ℕ) → drop (length xs) (xs ++ ys) ≡ ys
drop_exact xs ys =
    drop-append_le (length xs) xs ys (omega arith)
    ∙ ap (λ l. l ++ ys) (drop_all (length xs) xs (omega arith))

kind_byte : (kind : ℕ) → is_frame_type kind ≡ true → kind % 256 ≡ kind
kind_byte kind h = ground arith

decode_payload-Fits :
    (m d kind : ℕ) (payload rest : List ℕ)
    → Fits m d kind payload
    → decode_payload m d kind (length payload) (payload ++ rest) ≡ decoded kind payload rest
unfolding decode_payload
decode_payload-Fits m d kind payload rest fits = ground (
  arith,
  fits.known,
  fits.short,
  take_exact payload rest,
  drop_exact payload rest,
  length-append payload rest,
)

-- Decoding undoes encoding, whatever follows.
pub decode-frame :
    (m d kind : ℕ) (payload rest : List ℕ)
    → Fits m d kind payload
    → decode m d (frame kind payload ++ rest) ≡ decoded kind payload rest
unfolding decode frame
decode-frame m d kind payload rest fits =
    rw (get-set_uint32 (length payload) fits.in_field, kind_byte kind fits.known)
      (decode_payload-Fits m d kind payload rest fits)

-- The frames of a list, one behind the other.
abbrev pub frames : List (ℕ × List ℕ) → List ℕ
frames [] = []
frames ((kind, payload) ∷ fs) = frame kind payload ++ frames fs

abbrev pub AllFit : ℕ → ℕ → List (ℕ × List ℕ) → Type 0
AllFit m d [] = Unit {0}
AllFit m d ((kind, payload) ∷ fs) = Fits m d kind payload × AllFit m d fs

-- Calls of `next` give the frames in order, and then null.
abbrev pub Gives : List (ℕ × List ℕ) → FrameReader → Type 0
Gives [] r = (next r).0 ≡ Next.end_of_stream
Gives ((kind, payload) ∷ fs) r = ((next r).0 ≡ a_frame kind payload) × Gives fs (next r).1

Agrees-at :
    (r : FrameReader) (d : Decoded)
    → IsLive r
    → decode r.metadata_limit r.data_limit (content r) ≡ d
    → Agrees r d (next r)
Agrees-at r d live e = subst (λ x. Agrees r x (next r)) e (next-decode r live)

live-Gives :
    (fs : List (ℕ × List ℕ)) (r : FrameReader)
    → IsLive r
    → AllFit r.metadata_limit r.data_limit fs
    → content r ≡ frames fs
    → Gives fs r
unfolding decode
live-Gives [] r live fit c = Agrees-at r Decoded.at_end live (rw c refl)
live-Gives ((kind, payload) ∷ fs) r live (fits, fit) c =
    let (e, live', c', (m, d)) = Agrees-at r (decoded kind payload (frames fs)) live (
      ap (decode r.metadata_limit r.data_limit) c
      ∙ decode-frame _ _ kind payload (frames fs) fits) in
    (e, live-Gives fs (next r).1 live' (subst₂ (λ x y. AllFit x y fs) (sym m) (sym d) fit) c')

-- A new reader over a stream that is any cutting, into byte chunks of any sizes, of the frames that
-- `frame` wrote for a list of types and payloads within the limits gives back that list, frame by
-- frame and in order, and then null.
pub next-frame :
    (fs : List (ℕ × List ℕ)) (source : List Read) (metadata_limit data_limit : ℕ)
    → AllBytes source
    → flat source ≡ frames fs
    → AllFit metadata_limit data_limit fs
    → Gives fs (create source metadata_limit data_limit)
unfolding create
next-frame fs source m d all_bytes e fit =
    live-Gives fs (create source m d)
      (record { going = refl; inside = omega arith; source_bytes = all_bytes }) fit e
