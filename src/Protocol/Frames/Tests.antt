-- ===== src/Protocol/Frames/Tests.antt =====
-- Frames read from a stream that is cut inside a header and inside a payload.
use ja3proxy.Base.{ℕ, ◌≡◌, refl, List, [], ◌∷◌, arith, false, true}
use ja3proxy.Protocol.Frames.{
  Read, bytes, other, failure, FrameReader, Next, a_frame, next, frame, create, exact_loop, exact,
  next_payload, payload_of, after_header, set_uint32, get_uint32,
}
use ja3proxy.Protocol.Frames.Rounds.{content, flat, Reads}
use ja3proxy.Protocol.Frames.Content.{exact-Reads}
use ja3proxy.Protocol.Frames.Decode.{next-decode, Agrees, decode, decode_payload}
use ja3proxy.Protocol.Frames.RoundTrip.{next-frame, Gives, frames}

runs : Unit {0}
unfolding next frame create exact_loop exact next_payload payload_of after_header set_uint32
    get_uint32 decode decode_payload
runs = tt

abbrev source : List Read
source =
    bytes (1 ∷ 0 ∷ 0 ∷ [])
    ∷ bytes []
    ∷ bytes (0 ∷ 2 ∷ 7 ∷ [])
    ∷ bytes (8 ∷ 3 ∷ 0 ∷ 0 ∷ 0 ∷ 0 ∷ [])
    ∷ []

abbrev reader : FrameReader
reader = record {
  chunk = 9 ∷ [];
  offset = 1;
  source = source;
  ended = false;
  metadata_limit = 4;
  data_limit = 2;
}

abbrev sent : List (ℕ × List ℕ)
sent = (1, 7 ∷ 8 ∷ []) ∷ (3, []) ∷ []

first : ((next reader).0 ≡ a_frame 1 (7 ∷ 8 ∷ [])) × ((next (next reader).1).0 ≡ a_frame 3 [])
unfolding runs
first = (refl, refl)

refusals :
    ((next (create (bytes (5 ∷ 0 ∷ 0 ∷ 0 ∷ 0 ∷ []) ∷ []) 4 4)).0 ≡ Next.invalid)
    × ((next (create (bytes (2 ∷ 0 ∷ 0 ∷ 0 ∷ 5 ∷ []) ∷ []) 9 4)).0 ≡ Next.invalid)
    × ((next (create (bytes (2 ∷ 0 ∷ 0 ∷ 0 ∷ 2 ∷ 7 ∷ []) ∷ []) 9 4)).0 ≡ Next.incomplete)
    × ((next (create (bytes (2 ∷ []) ∷ other ∷ []) 9 4)).0 ≡ Next.invalid)
    × ((next (create (failure ∷ []) 9 4)).0 ≡ Next.read_failed)
    × ((next (create [] 9 4)).0 ≡ Next.end_of_stream)
unfolding runs
refusals = (refl, refl, refl, refl, refl, refl)

next-decode_example : Agrees reader (decode 4 2 (content reader)) (next reader)
next-decode_example =
    next-decode reader (record { going = refl; inside = omega arith; source_bytes = tt })

cut_lem : flat source ≡ frames sent
unfolding runs
cut_lem = refl

next-frame_example : Gives sent (create source 4 2)
next-frame_example = next-frame sent source 4 2 tt cut_lem (
  record { known = refl; short = omega arith; in_field = omega arith },
  (record { known = refl; short = omega arith; in_field = omega arith }, tt),
)

exact-Reads_example : Reads 2 true [] (content reader) (exact 2 true reader)
exact-Reads_example =
    exact-Reads 2 true reader (record { going = refl; inside = omega arith; source_bytes = tt })
