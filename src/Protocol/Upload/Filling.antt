-- ===== src/Protocol/Upload/Filling.antt =====
-- Open uploads, and the loop that fills `pending`.
use ja3proxy.Base.{
  ℕ, ◌+◌, ◌≤◌, ◌<◌, ◌≡◌, refl, sym, ap, ◌∙◌, subst, Bool, true, false, List, [], ◌∷◌, ◌++◌, leb,
  ◌==◌, length, drop, arith, ◌⊎◌, inl, inr, Bool-cases, drop_all,
}
use ja3proxy.Protocol.Frames.{Read, bytes, other, failure}
use ja3proxy.Protocol.Frames.Rounds.{flat}
use ja3proxy.Protocol.Upload.{Upload, fill, Filled, full, broken, refill}

-- The body's bytes that are not sent yet.
abbrev pub content : Upload → List ℕ
content u = drop u.offset u.pending ++ flat u.source

-- An upload behind its metadata and before its end.
pub record IsOpen (u : Upload) : Type 0 where
  pub going : u.ended ≡ false
  pub behind_metadata : u.stage ≡ 1
  pub inside : u.offset ≤ length u.pending
  pub source_rest : (u.source_ended ≡ false) ⊎ (u.source ≡ [])
  pub data_room : 0 < u.max_data
  pub bytes_kept : u.sent_bytes ≤ u.max_bytes
  pub frames_kept : u.frames < u.max_frames

pub record SameCounts (u v : Upload) : Type 0 where
  pub max_bytes : v.max_bytes ≡ u.max_bytes
  pub max_data : v.max_data ≡ u.max_data
  pub max_frames : v.max_frames ≡ u.max_frames
  pub sent_bytes : v.sent_bytes ≡ u.sent_bytes
  pub frames : v.frames ≡ u.frames

-- A filled upload holds bytes to send, or all was sent.
abbrev pub Refilled : Upload → List ℕ → Filled → Type 0
Refilled u c (full v) =
    IsOpen v × SameCounts u v × (content v ≡ c) × ((v.offset < length v.pending) ⊎ (c ≡ []))
Refilled u c (broken e v) = Unit {0}

-- An open upload with other source fields.
pub reopened :
    (u : Upload) (pending : List ℕ) (offset : ℕ) (source : List Read) (source_ended : Bool)
    (empty_reads : ℕ)
    → offset ≤ length pending
    → (source_ended ≡ false) ⊎ (source ≡ [])
    → IsOpen u
    → IsOpen (record u {
      pending = pending;
      offset = offset;
      source = source;
      source_ended = source_ended;
      empty_reads = empty_reads;
    })
reopened u pending offset source source_ended empty_reads h rest o = record {
  going = o.going;
  behind_metadata = o.behind_metadata;
  inside = h;
  source_rest = rest;
  data_room = o.data_room;
  bytes_kept = o.bytes_kept;
  frames_kept = o.frames_kept;
}

pub same_counts :
    (u : Upload) (pending : List ℕ) (offset : ℕ) (source : List Read) (source_ended : Bool)
    (empty_reads : ℕ)
    → SameCounts u (record u {
      pending = pending;
      offset = offset;
      source = source;
      source_ended = source_ended;
      empty_reads = empty_reads;
    })
same_counts u pending offset source source_ended empty_reads = record {
  max_bytes = refl;
  max_data = refl;
  max_frames = refl;
  sent_bytes = refl;
  frames = refl;
}

pub Refilled-from :
    (u v : Upload) (c : List ℕ) (f : Filled) → SameCounts u v → Refilled v c f → Refilled u c f
Refilled-from u v c (broken e w) s r = tt
Refilled-from u v c (full w) s (o, t, same, left) = (o, omega arith, same, left)

pub fill_lem :
    (reads : List Read) (u : Upload)
    → IsOpen u
    → u.offset ≡ length u.pending
    → u.source_ended ≡ false
    → Refilled u (flat reads) (fill reads u)
unfolding fill
fill_lem [] u o e more = (
  reopened u u.pending u.offset [] true u.empty_reads o.inside (inr refl) o,
  same_counts u u.pending u.offset [] true u.empty_reads,
  ap (λ l. l ++ []) (drop_all u.offset u.pending (omega arith)),
  inr refl,
)
fill_lem (other ∷ rest) u o e more = tt
fill_lem (failure ∷ rest) u o e more = tt
fill_lem (bytes [] ∷ rest) u o e more = elim (Bool-cases (leb u.max_frames (u.empty_reads + 1))) [
  | inl many ↦ rw (many, fill) tt
  | inr few ↦
      rw (few, fill)
        (Refilled-from u _ (flat rest) _
          (same_counts u [] 0 u.source u.source_ended (u.empty_reads + 1))
          (fill_lem rest _
            (reopened u [] 0 u.source u.source_ended (u.empty_reads + 1) (omega arith) (inl more) o)
            refl more))
]
fill_lem (bytes (x ∷ xs) ∷ rest) u o e more = (
  reopened u (x ∷ xs) 0 rest u.source_ended 0 (omega arith) (inl more) o,
  same_counts u (x ∷ xs) 0 rest u.source_ended 0,
  refl,
  inl (omega arith),
)

pub refill_kept :
    (u : Upload)
    → (u.offset < length u.pending) ⊎ (u.source_ended ≡ true)
    → u.offset ≤ length u.pending
    → refill u ≡ full u
unfolding refill
refill_kept u h le = ground arith

pub refill_read :
    (u : Upload) → u.offset ≡ length u.pending → u.source_ended ≡ false → refill u ≡ fill u.source u
unfolding refill
refill_read u e more = ground arith

pub kept_content : (u : Upload) → IsOpen u → u.offset ≡ length u.pending → content u ≡ flat u.source
kept_content u o e = ap (λ l. l ++ flat u.source) (drop_all u.offset u.pending (omega arith))

pub refill_lem : (u : Upload) → IsOpen u → Refilled u (content u) (refill u)
refill_lem u o = elim (Bool-cases (u.offset == length u.pending)) [
  | inr e ↦
      let lt : u.offset < length u.pending = ground (arith, o.inside) in
      subst (Refilled u (content u)) (sym (refill_kept u (inl lt) o.inside))
        (o, omega arith, refl, inl lt)
  | inl e ↦
      let eq : u.offset ≡ length u.pending = ground arith in
      elim (Bool-cases u.source_ended) [
        | inr more ↦ subst (Refilled u (content u)) (sym (refill_read u eq more)) (
            subst (λ c. Refilled u c (fill u.source u)) (sym (kept_content u o eq))
              (fill_lem u.source u o eq more))
        | inl last ↦
            let none' : u.source ≡ [] = ground (arith, o.source_rest) in
            subst (Refilled u (content u)) (sym (refill_kept u (inr last) o.inside))
              (o, omega arith, refl, inr (kept_content u o eq ∙ ap flat none'))
      ]
]
