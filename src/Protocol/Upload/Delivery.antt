-- ===== src/Protocol/Upload/Delivery.antt =====
-- What an upload that ends well has sent.
use ja3proxy.Base.{
  ℕ, zero, suc, ◌+◌, ◌≤◌, ◌<◌, ◌≡◌, refl, sym, ap, ◌∙◌, subst, false, List, [], ◌∷◌, ◌++◌, map,
  length, arith, ◌⊎◌, inl, inr, length-append, append-nil, All,
}
use ja3proxy.Protocol.Frames.Rounds.{flat}
use ja3proxy.Protocol.Upload.{
  Body, buffer, stream, Upload, Pulled, sends, sends_end, closes, fails, start, pull, Ending,
  finished, after_pull, drain,
}
use ja3proxy.Protocol.Upload.Filling.{content, IsOpen}
use ja3proxy.Protocol.Upload.Pulling.{Sent, pull_lem}

abbrev pub joined : List (List ℕ) → List ℕ
joined [] = []
joined (p ∷ ps) = p ++ joined ps

abbrev pub data_frames : List (List ℕ) → List (ℕ × List ℕ)
data_frames = map λ p. (2, p)

-- The frames of an upload that ended well, from where it stands.
pub record Delivered (u : Upload) (fs : List (ℕ × List ℕ)) : Type 0 where
  pub pieces : List (List ℕ)
  pub all_frames : fs ≡ data_frames pieces ++ (3, []) ∷ []
  pub all_bytes : joined pieces ≡ content u
  pub piece_sizes : All (λ p. (0 < length p) × (length p ≤ u.max_data)) pieces
  pub byte_bound : u.sent_bytes + length (content u) ≤ u.max_bytes
  pub frame_bound : u.frames + length pieces < u.max_frames

Delivered-end : (u : Upload) → IsOpen u → content u ≡ [] → Delivered u ((3, []) ∷ [])
Delivered-end u o e = record {
  pieces = [];
  all_frames = refl;
  all_bytes = sym e;
  piece_sizes = tt;
  byte_bound = omega (arith, o.bytes_kept, ap length e);
  frame_bound = omega (arith, o.frames_kept);
}

Delivered-more :
    (u v : Upload) (kind : ℕ) (p : List ℕ) (fs : List (ℕ × List ℕ))
    → Sent u (sends kind p, v)
    → Delivered v fs
    → Delivered u ((kind, p) ∷ fs)
Delivered-more u v kind p fs (k, some_bytes, bounded, o, a, b, c, d, f, g) r = record {
  pieces = p ∷ r.pieces;
  all_frames = ap (λ n. (n, p) ∷ fs) k ∙ ap (λ l. (2, p) ∷ l) r.all_frames;
  all_bytes = ap (λ l. p ++ l) r.all_bytes ∙ sym g;
  piece_sizes = (
    (some_bytes, bounded),
    subst (λ n. All (λ q. (0 < length q) × (length q ≤ n)) r.pieces) b r.piece_sizes,
  );
  byte_bound = omega (arith, r.byte_bound, ap length g, length-append p (content v));
  frame_bound = omega (arith, r.frame_bound);
}

drain_lem :
    (fuel : ℕ) (u : Upload) (fs : List (ℕ × List ℕ))
    → IsOpen u
    → drain fuel u ≡ (fs, finished)
    → Delivered u fs
unfolding drain
drain_lem zero u fs o e = absurd (ground arith)
drain_lem (suc fuel) u fs o e =
    go (pull u).0 (pull u).1 (pull_lem u o) (drain fuel (pull u).1)
      (λ gs. drain_lem fuel (pull u).1 gs) e
  where
    go :
        (x : Pulled) (v : Upload)
        → Sent u (x, v)
        → (rest : List (ℕ × List ℕ) × Ending)
        → ((gs : List (ℕ × List ℕ)) → IsOpen v → rest ≡ (gs, finished) → Delivered v gs)
        → after_pull x rest ≡ (fs, finished)
        → Delivered u fs
    go (sends kind p) v sent (gs, ending) ih eq =
        subst (Delivered u) (ap (λ x. x.0) eq)
          (Delivered-more u v kind p gs sent (ih gs sent.3 (ground arith)))
    go sends_end v sent rest ih eq = subst (Delivered u) (ap (λ x. x.0) eq) (Delivered-end u o sent)
    go closes v sent rest ih eq = absurd sent
    go (fails x) v sent rest ih eq = absurd (ground arith)

-- The bytes of a body.
abbrev pub body_bytes : Body → List ℕ
body_bytes (buffer xs) = xs
body_bytes (stream reads) = flat reads

module _ (metadata : List ℕ) (body : Body) (max_bytes max_data max_frames : ℕ) where
  unfoldable pub opened : Upload
  unfolding start
  opened = record (start metadata body max_bytes max_data max_frames) { stage = 1 }

  pub opened-IsOpen : 0 < max_data → 0 < max_frames → IsOpen opened
  unfolding opened start
  opened-IsOpen d f = record {
    going = refl;
    behind_metadata = refl;
    inside = omega arith;
    source_rest = rest body;
    data_room = d;
    bytes_kept = omega arith;
    frames_kept = f;
  }
    where
      rest :
          (b : Body)
          → ((start metadata b max_bytes max_data max_frames).source_ended ≡ false)
            ⊎ ((start metadata b max_bytes max_data max_frames).source ≡ [])
      rest (buffer xs) = inr refl
      rest (stream reads) = inl refl

  pub pull-start :
      pull (start metadata body max_bytes max_data max_frames) ≡ (sends 1 metadata, opened)
  unfolding pull start opened
  pull-start = refl

  pub content-opened : content opened ≡ body_bytes body
  unfolding opened start
  content-opened = of_body body
    where
      of_body :
          (b : Body)
          → content (record (start metadata b max_bytes max_data max_frames) { stage = 1 })
            ≡ body_bytes b
      of_body (buffer xs) = append-nil xs
      of_body (stream reads) = refl

  -- An upload that ends well has sent the metadata in one frame of type 1, then every byte of the
  -- body, in order, in frames of type 2 that are neither empty nor longer than `max_data`, and an
  -- empty frame of type 3; the body kept to `max_bytes` and the data frames stayed below
  -- `max_frames`. The limits are positive.
  pub drain-start :
      (fuel : ℕ) (fs : List (ℕ × List ℕ))
      → 0 < max_data
      → 0 < max_frames
      → drain fuel (start metadata body max_bytes max_data max_frames) ≡ (fs, finished)
      → (pieces : List (List ℕ)) × (fs ≡ (1, metadata) ∷ (data_frames pieces ++ (3, []) ∷ []))
        × (joined pieces ≡ body_bytes body)
        × All (λ p. (0 < length p) × (length p ≤ max_data)) pieces
        × (length (body_bytes body) ≤ max_bytes)
        × (length pieces < max_frames)
  unfolding drain pull start opened
  drain-start zero fs d f e = absurd (ground arith)
  drain-start (suc fuel) fs d f e =
      let r : Delivered opened (drain fuel opened).0 =
        drain_lem fuel opened (drain fuel opened).0 (opened-IsOpen d f)
          (ap (λ x. ((drain fuel opened).0, x)) (ap (λ x. x.1) e)) in
      (
        r.pieces,
        sym (ap (λ x. x.0) e) ∙ ap (λ l. (1, metadata) ∷ l) r.all_frames,
        r.all_bytes ∙ content-opened,
        r.piece_sizes,
        omega (arith, r.byte_bound, ap length content-opened),
        omega (arith, r.frame_bound),
      )
