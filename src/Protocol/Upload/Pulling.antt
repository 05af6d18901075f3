-- ===== src/Protocol/Upload/Pulling.antt =====
-- What one pull of an open upload sends.
use ja3proxy.Base.{
  ℕ, zero, suc, ◌+◌, ◌-◌, min, ◌≤◌, ◌<◌, ◌≡◌, refl, sym, ap, ◌∙◌, subst, List, [], ◌∷◌, ◌++◌, ltb,
  leb, length, take, drop, arith, inl, inr, Bool-cases, append_assoc, length-take, length-drop,
  drop-drop,
}
use ja3proxy.Protocol.Frames.Rounds.{flat}
use ja3proxy.Protocol.Upload.{
  Upload, Pulled, sends, sends_end, closes, fails, Filled, full, broken, fail, next_chunk,
  send_data, send_filled, refill, pull,
}
use ja3proxy.Protocol.Upload.Filling.{content, IsOpen, SameCounts, Refilled, refill_lem}

-- A pull of an open upload.
abbrev pub Sent : Upload → Pulled × Upload → Type 0
Sent u (sends kind payload, v) =
    (kind ≡ 2)
    × (0 < length payload)
    × (length payload ≤ u.max_data)
    × IsOpen v
    × (v.max_bytes ≡ u.max_bytes)
    × (v.max_data ≡ u.max_data)
    × (v.max_frames ≡ u.max_frames)
    × (v.sent_bytes ≡ u.sent_bytes + length payload)
    × (v.frames ≡ u.frames + 1)
    × (content u ≡ payload ++ content v)
Sent u (sends_end, v) = content u ≡ []
Sent u (closes, v) = ⊥
Sent u (fails e, v) = Unit {0}

pub length-next_chunk :
    (u : Upload)
    → u.offset < length u.pending
    → 0 < u.max_data
    → (0 < length (next_chunk u))
      × (length (next_chunk u) ≤ u.max_data)
      × (u.offset + length (next_chunk u) ≤ length u.pending)
length-next_chunk u h m = omega (
  arith,
  length-take (min (length u.pending) (u.offset + u.max_data) - u.offset) (drop u.offset u.pending),
  length-drop u.offset u.pending,
)

pub take-append-drop_taken : (n : ℕ) (xs : List ℕ) → take n xs ++ drop (length (take n xs)) xs ≡ xs
take-append-drop_taken zero xs = refl
take-append-drop_taken (suc n) [] = refl
take-append-drop_taken (suc n) (x ∷ xs) = ap (λ l. x ∷ l) (take-append-drop_taken n xs)

pub content-next_chunk :
    (u : Upload)
    → content u
      ≡ next_chunk u ++ (drop (u.offset + length (next_chunk u)) u.pending ++ flat u.source)
content-next_chunk u =
    ap (λ l. l ++ flat u.source)
      (sym (
          take-append-drop_taken (min (length u.pending) (u.offset + u.max_data) - u.offset)
            (drop u.offset u.pending))
        ∙ ap (λ l. next_chunk u ++ l) (drop-drop (length (next_chunk u)) u.offset u.pending))
    ∙ append_assoc (next_chunk u) _ (flat u.source)

pub send_data_lem : (u : Upload) → IsOpen u → u.offset < length u.pending → Sent u (send_data u)
unfolding send_data fail
send_data_lem u o h = elim (Bool-cases (ltb u.max_bytes (u.sent_bytes + length (next_chunk u)))) [
  | inl big ↦ rw (big, send_data) tt
  | inr fits ↦ elim (Bool-cases (leb u.max_frames (u.frames + 1))) [
    | inl many ↦ rw (fits, many, send_data) tt
    | inr few ↦
        let (some_bytes, bounded, within) = length-next_chunk u h o.data_room in
        rw (fits, few, send_data)
          (
            refl,
            some_bytes,
            bounded,
            record {
              going = o.going;
              behind_metadata = o.behind_metadata;
              inside = within;
              source_rest = o.source_rest;
              data_room = o.data_room;
              bytes_kept = ground arith;
              frames_kept = ground arith;
            },
            refl,
            refl,
            refl,
            refl,
            refl,
            content-next_chunk u,
          )
  ]
]

pub Sent-from :
    (u v : Upload) (x : Pulled × Upload)
    → SameCounts u v
    → content v ≡ content u
    → Sent v x
    → Sent u x
Sent-from u v (sends kind payload, w) s e (k, some_bytes, bounded, o, a, b, c, d, f, g) = (
  k,
  some_bytes,
  omega (arith, s.max_data),
  o,
  a ∙ s.max_bytes,
  b ∙ s.max_data,
  c ∙ s.max_frames,
  omega (arith, d, s.sent_bytes),
  omega (arith, f, s.frames),
  sym e ∙ g,
)
Sent-from u v (sends_end, w) s e h = sym e ∙ h
Sent-from u v (closes, w) s e h = h
Sent-from u v (fails x, w) s e h = tt

pub send_filled_lem :
    (u : Upload) (c : List ℕ) (f : Filled) → Refilled u c f → c ≡ content u → Sent u (send_filled f)
unfolding send_filled fail
send_filled_lem u c (broken e v) r eq = tt
send_filled_lem u c (full v) (o, same, cont, left) eq =
    elim (Bool-cases (ltb v.offset (length v.pending))) [
      | inl more ↦
          rw (more, send_filled)
            (Sent-from u v (send_data v) same (cont ∙ eq) (send_data_lem v o (ground arith)))
      | inr done ↦
          rw (done, send_filled) (elim left [ inl lt ↦ absurd (ground arith) | inr e ↦ sym eq ∙ e ])
    ]

pub open_pull : (u : Upload) → IsOpen u → pull u ≡ send_filled (refill u)
unfolding pull
open_pull u o = ground (arith, o.going, o.behind_metadata)

pub pull_lem : (u : Upload) → IsOpen u → Sent u (pull u)
pull_lem u o =
    subst (Sent u) (sym (open_pull u o))
      (send_filled_lem u (content u) (refill u) (refill_lem u o) refl)
