-- ===== src/Protocol/Upload/Tests.antt =====
-- Uploads that end in each way.
use ja3proxy.Base.{ℕ, ◌≡◌, ◌≢◌, refl, List, [], ◌∷◌, ◌++◌, arith, length, ◌<◌, ◌≤◌, All}
use ja3proxy.Protocol.Frames.{bytes, other, failure}
use ja3proxy.Protocol.Upload.{
  Body, buffer, stream, range_error, type_error, source_error, start, fill, fail, cancel, send_data,
  send_filled, refill, pull, finished, out_of_fuel, failed, drain,
}
use ja3proxy.Protocol.Upload.Delivery.{drain-start, data_frames, joined, body_bytes}
use ja3proxy.Protocol.Upload.Termination.{drain_ends}

runs : Unit {0}
unfolding start fill fail cancel send_data send_filled refill pull drain
runs = tt

abbrev body : Body
body = stream (bytes (5 ∷ 6 ∷ 7 ∷ []) ∷ bytes [] ∷ bytes (8 ∷ []) ∷ [])

abbrev sent : List (ℕ × List ℕ)
sent = (1, 1 ∷ []) ∷ (2, 5 ∷ 6 ∷ []) ∷ (2, 7 ∷ []) ∷ (2, 8 ∷ []) ∷ (3, []) ∷ []

sends_all : drain 9 (start (1 ∷ []) body 4 2 4) ≡ (sent, finished)
unfolding runs
sends_all = refl

refusals :
    ((drain 9 (start [] body 3 2 4)).1 ≡ failed range_error)
    × ((drain 9 (start [] body 4 2 3)).1 ≡ failed range_error)
    × ((drain 9 (start [] (stream (bytes [] ∷ bytes [] ∷ [])) 4 2 2)).1 ≡ failed range_error)
    × ((drain 9 (start [] (stream (other ∷ [])) 4 2 2)).1 ≡ failed type_error)
    × ((drain 9 (start [] (stream (failure ∷ [])) 4 2 2)).1 ≡ failed source_error)
    × (drain 9 (start [] (buffer []) 4 2 2) ≡ ((1, []) ∷ (3, []) ∷ [], finished))
unfolding runs
refusals = (refl, refl, refl, refl, refl, refl)

drain-start_example :
    (pieces : List (List ℕ)) × (sent ≡ (1, 1 ∷ []) ∷ (data_frames pieces ++ (3, []) ∷ []))
    × (joined pieces ≡ body_bytes body)
    × All (λ p. (0 < length p) × (length p ≤ 2)) pieces
    × (length (body_bytes body) ≤ 4)
    × (length pieces < 4)
drain-start_example = drain-start (1 ∷ []) body 4 2 4 9 sent (omega arith) (omega arith) sends_all

drain_ends_example : (drain 6 (start [] body 3 2 4)).1 ≢ out_of_fuel
drain_ends_example = drain_ends [] body 3 2 4 6 (omega arith) (omega arith) (omega arith)
