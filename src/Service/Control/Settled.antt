-- ===== src/Service/Control/Settled.antt =====
-- What a control call of packages/typescript/src/service.ts returns or throws.
use ja3proxy.Base.{
  ℕ, ◌+◌, ◌≤◌, ◌≡◌, refl, inl, inr, Bool, true, false, ◌&&◌, List, [], ◌∷◌, ◌++◌, append-nil,
  append_assoc, Option, none, some, ltb, leb, ◌==◌, length, length-append, arith, Bool-cases,
}
use ja3proxy.Errors.{TransportError, Thrown, returned}
use ja3proxy.Wire.Value.{Value, undefined}
use ja3proxy.Service.Control.{
  Chunk, bytes, other, Stream, Response, Tried, got, failed, read_chunks, read_json, is_ok, is_json,
  receive, Conditions, settle, exchange, attempt, control, reported, json, ended,
}

-- The bytes of a list of chunks that are all bytes.
pub data Bytes : List Chunk → List ℕ → Type 0 where
  no_bytes : Bytes [] []
  more_bytes :
      {cs : List Chunk} {rest : List ℕ} (bs : List ℕ)
      → Bytes cs rest
      → Bytes (bytes bs ∷ cs) (bs ++ rest)

-- The stream was read to its end, was within the limit, and its bytes are JSON for the value.
pub record Read (limit : ℕ) (parse : List ℕ → Option Value) (s : Stream) (v : Value) : Type 0 where
  pub text : List ℕ
  pub whole : Bytes s.chunks text
  pub ended : s.failure ≡ none
  pub within : length text ≤ limit
  pub parsed : parse text ≡ some v

json-got : (o : Option Value) {v : Value} → json o ≡ got v → o ≡ some v
unfolding json
json-got none h = absurd (ground arith)
json-got (some w) h = ground arith

ended-got :
    (parse : List ℕ → Option Value) (failure : Option Thrown) (read : List ℕ) {v : Value}
    → ended parse failure read ≡ got v
    → (failure ≡ none) × (parse read ≡ some v)
unfolding ended
ended-got parse (some e) read h = absurd (ground arith)
ended-got parse none read h = (refl, json-got (parse read) h)

leb_of : {a b : ℕ} → ltb b a ≡ false → a ≤ b
leb_of h = ground arith

read_chunks-got :
    (limit : ℕ) (parse : List ℕ → Option Value) (failure : Option Thrown) (read : List ℕ)
    (cs : List Chunk) {v : Value}
    → length read ≤ limit
    → read_chunks limit parse failure read cs ≡ got v
    → (text : List ℕ) × Bytes cs text
      × (failure ≡ none)
      × (length (read ++ text) ≤ limit)
      × (parse (read ++ text) ≡ some v)
unfolding read_chunks
read_chunks-got limit parse failure read [] le h =
    let (done, parsed) = ended-got parse failure read h in
    ([], no_bytes, done, rw (append-nil read) le, rw (append-nil read) parsed)
read_chunks-got limit parse failure read (other ∷ cs) le h = absurd (ground arith)
read_chunks-got limit parse failure read (bytes bs ∷ cs) {v} le h =
    elim (Bool-cases (ltb limit (length read + length bs))) [
      | inl large ↦ absurd (ground (arith, large))
      | inr fits ↦
          let (text, all_bytes, done, within, parsed) =
            read_chunks-got limit parse failure (read ++ bs) cs {v = v}
              (omega (arith, length-append read bs, leb_of fits)) (ground (arith, fits)) in
          (
            bs ++ text,
            more_bytes bs all_bytes,
            done,
            rw (← append_assoc read bs text) within,
            rw (← append_assoc read bs text) parsed,
          )
    ]

read_json-got :
    (limit : ℕ) (parse : List ℕ → Option Value) (body : Option Stream) {v : Value}
    → read_json limit parse body ≡ got v
    → (s : Stream) × (body ≡ some s) × Read limit parse s v
unfolding read_json
read_json-got limit parse none h = absurd (ground arith)
read_json-got limit parse (some s) {v} h =
    let (text, whole, ended, within, parsed) =
      read_chunks-got limit parse s.failure [] s.chunks {v = v} (omega arith) h in
    (
      s,
      refl,
      record { text = text; whole = whole; ended = ended; within = within; parsed = parsed },
    )

reported-got :
    (status : ℕ) (t : Tried Value) {v : Value}
    → reported status t ≡ got v
    → (is_ok status ≡ true) × (t ≡ got v)
unfolding reported
reported-got status (failed e) h = absurd (ground arith)
reported-got status (got w) h = elim (Bool-cases (is_ok status)) [
  | inl fine ↦ (fine, ground arith)
  | inr bad ↦ absurd (ground (arith, bad))
]

-- The response was a success with the value, or with no content for the value `undefined`.
pub data Carries (limit : ℕ) (parse : List ℕ → Option Value) (r : Response) (v : Value)
    : Type 0 where
  no_content : r.status ≡ 204 → v ≡ undefined → Carries limit parse r v
  content :
      (s : Stream)
      → is_ok r.status ≡ true
      → is_json r.media_type ≡ true
      → r.body ≡ some s
      → Read limit parse s v
      → Carries limit parse r v

read_content :
    (limit : ℕ) (parse : List ℕ → Option Value) (r : Response) {v : Value}
    → is_json r.media_type ≡ true
    → reported r.status (read_json limit parse r.body) ≡ got v
    → Carries limit parse r v
read_content limit parse r {v = v} media h =
    let (fine, all_read) = reported-got r.status (read_json limit parse r.body) h in
    let (s, body, held) = read_json-got limit parse r.body all_read in
    content s fine media body held

receive-got :
    (limit : ℕ) (parse : List ℕ → Option Value) (r : Response) {v : Value}
    → receive limit parse r ≡ got v
    → Carries limit parse r v
unfolding receive
receive-got limit parse r {v} h = elim (Bool-cases (leb 300 r.status && leb r.status 399)) [
  | inl redirect ↦ absurd (ground (arith, redirect))
  | inr direct ↦ elim (Bool-cases (is_ok r.status && r.status == 204)) [
    | inl empty ↦ no_content (ground (arith, empty)) (ground (arith, direct, empty))
    | inr full ↦ elim (Bool-cases (is_json r.media_type)) [
      | inl media ↦ read_content limit parse r {v = v} media (ground (arith, direct, full, media))
      | inr media ↦ absurd (ground (arith, direct, full, media))
    ]
  ]
]

settle-returned :
    (c : Conditions) (received : Bool) (t : Tried Value) {v : Value}
    → settle c received t ≡ returned v
    → t ≡ got v
unfolding settle
settle-returned c received (got w) h = ground arith
settle-returned c received (failed e) h = absurd (ground arith)

exchange-returned :
    (limit : ℕ) (parse : List ℕ → Option Value) (c : Conditions) (t : Tried Response) {v : Value}
    → exchange limit parse c t ≡ returned v
    → (r : Response) × (t ≡ got r) × Carries limit parse r v
unfolding exchange settle
exchange-returned limit parse c (failed e) h = absurd (ground arith)
exchange-returned limit parse c (got r) {v} h =
    (r, refl, receive-got limit parse r (settle-returned c true (receive limit parse r) h))

attempt-returned :
    (limit : ℕ) (parse : List ℕ → Option Value) (c : Conditions) (refusal : Option TransportError)
    {v : Value}
    → attempt limit parse c refusal ≡ returned v
    → (refusal ≡ none)
      × (c.fits ≡ true)
      × (c.aborted_before ≡ false)
      × (exchange limit parse c c.fetched ≡ returned v)
unfolding attempt settle
attempt-returned limit parse c (some e) h = absurd (ground arith)
attempt-returned limit parse c none h = elim (Bool-cases c.fits) [
  | inr large ↦ absurd (ground (arith, large))
  | inl fits ↦ elim (Bool-cases c.aborted_before) [
    | inl late ↦ absurd (ground (arith, fits, late))
    | inr early ↦ (refl, fits, early, ground (arith, fits, early))
  ]
]

-- A control call returns a value only if it was admitted, its body fitted the limit, the signal was
-- not aborted before, and the service answered with success: without content for `undefined`, or with
-- a JSON body that was read to its end within the limit and parses as the value.
pub control-returned :
    (limit : ℕ) (parse : List ℕ → Option Value) (c : Conditions) {v : Value}
    → control limit parse c ≡ returned v
    → (c.refusal ≡ none)
      × (c.fits ≡ true)
      × (c.aborted_before ≡ false)
      × (r : Response) × (c.fetched ≡ got r)
      × Carries limit parse r v
unfolding control
control-returned limit parse c {v} h =
    let (admitted, fits, early, done) = attempt-returned limit parse c c.refusal h in
    let (r, answered, carried) = exchange-returned limit parse c c.fetched {v = v} done in
    (admitted, fits, early, r, answered, carried)
