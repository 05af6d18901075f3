-- ===== src/Protocol/Upload/Termination.antt =====
-- The end of an upload that is pulled again and again.
use ja3proxy.Base.{ℕ, zero, suc, ◌+◌, ◌<◌, ◌≢◌, ap, List, length, arith, length-append}
use ja3proxy.Protocol.Upload.{
  Body, Upload, Pulled, sends, sends_end, closes, fails, start, pull, out_of_fuel, after_pull,
  drain,
}
use ja3proxy.Protocol.Upload.Delivery.{opened, opened-IsOpen, content-opened, body_bytes}
use ja3proxy.Protocol.Upload.Pulling.{Sent, pull_lem}
use ja3proxy.Protocol.Upload.Filling.{content, IsOpen}

open_ends :
    (fuel : ℕ) (u : Upload) → IsOpen u → length (content u) < fuel → (drain fuel u).1 ≢ out_of_fuel
unfolding drain
open_ends zero u o h = absurd (omega arith)
open_ends (suc fuel) u o h = go (pull u).0 (pull u).1 (pull_lem u o) (open_ends fuel (pull u).1)
  where
    go :
        (x : Pulled) (v : Upload)
        → Sent u (x, v)
        → (IsOpen v → length (content v) < fuel → (drain fuel v).1 ≢ out_of_fuel)
        → (after_pull x (drain fuel v)).1 ≢ out_of_fuel
    go (sends kind p) v sent ih =
        ih sent.3 (omega (arith, sent.1, ap length sent.9, length-append p (content v)))
    go sends_end v sent ih = λ e. cc
    go closes v sent ih = absurd sent
    go (fails x) v sent ih = λ e. cc

-- Where a data frame may hold at least one byte and the upload at least one frame, as accepted
-- capabilities say, a consumer that pulls to the end comes to it: two pulls more than the body has
-- bytes are enough, whatever the body's reads give and in whatever way the upload ends.
pub drain_ends :
    (metadata : List ℕ) (body : Body) (max_bytes max_data max_frames fuel : ℕ)
    → 0 < max_data
    → 0 < max_frames
    → length (body_bytes body) + 1 < fuel
    → (drain fuel (start metadata body max_bytes max_data max_frames)).1 ≢ out_of_fuel
unfolding drain pull start opened
drain_ends metadata body max_bytes max_data max_frames zero d f h = absurd (omega arith)
drain_ends metadata body max_bytes max_data max_frames (suc fuel) d f h =
    open_ends fuel (opened metadata body max_bytes max_data max_frames)
      (opened-IsOpen metadata body max_bytes max_data max_frames d f)
      (omega (arith, ap length (content-opened metadata body max_bytes max_data max_frames)))
