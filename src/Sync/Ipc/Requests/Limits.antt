-- ===== src/Sync/Ipc/Requests/Limits.antt =====
-- What a request that packages/typescript/src/sync/ipc.ts returns is bounded by.
use ja3proxy.Base.{
  ℕ, ◌≤◌, ◌≡◌, refl, subst, inl, inr, Bool, true, false, ◌&&◌, Option, none, some, ltb, leb, length,
  arith, Bool-cases, String, if◌then◌else◌,
}
use ja3proxy.Platform.{Url}
use ja3proxy.Errors.{Outcome, returned}
use ja3proxy.Wire.Value.{Value, lookup, is_undefined}
use ja3proxy.Protocol.Payloads.Patterns.{max_safe_integer}
use ja3proxy.Sync.Ipc.{
  object_of, keys, text, optional_text, url, reject_unless, max_timeout_ms, max_metadata_bytes,
}
use ja3proxy.Sync.Ipc.Config.Bounds.{
  Returns, Yields, bind-Yields, give-Yields, OptionalRange, optional_integer-Range, anything,
}
use ja3proxy.Sync.Ipc.Requests.{
  Pairs, pair_bytes, limited, all_pairs, headers, Body, absent, null_body, other_body, text_body,
  bytes_body, body_bytes, body_of, attempt_of, SessionRequest, session_request, Request, request,
  target_of,
}

abbrev pub FitsHeaders : (Pairs → Bool) → Option Pairs → Type 0
FitsHeaders valid none = Unit {0}
FitsHeaders valid (some ps) =
    (length ps ≤ 4096) × (pair_bytes ps ≤ max_metadata_bytes) × (valid ps ≡ true)

pub record IsBounded (valid : Pairs → Bool) (max_bytes : ℕ) (r : SessionRequest) : Type 0 where
  pub body : body_bytes r.body ≤ max_bytes
  pub headers : FitsHeaders valid r.headers
  pub timeout : OptionalRange 1 max_timeout_ms r.timeout_ms
  pub response : OptionalRange 1 max_safe_integer r.max_response_bytes

fits_body : (b : Body) (max : ℕ) → ltb max (body_bytes b) ≡ false → body_bytes b ≤ max
fits_body b max h = ground arith

sized :
    (b : Body) (max : ℕ) (c : Bool) (e : Outcome Body)
    → Returns (λ x. body_bytes x ≤ max) e
    → (c ≡ false → body_bytes b ≤ max)
    → Returns (λ x. body_bytes x ≤ max) (if c then e else returned b)
sized b max true e h k = h
sized b max false e h k = k refl

body_of-le : (b : Body) (max : ℕ) → Yields (λ x. body_bytes x ≤ max) (body_of b max)
unfolding body_of
body_of-le other_body max = record { holds = tt }
body_of-le absent max = record { holds = sized absent max _ _ tt (fits_body absent max) }
body_of-le null_body max = record { holds = sized null_body max _ _ tt (fits_body null_body max) }
body_of-le (text_body s) max = record {
  holds = sized (text_body s) max _ _ tt (fits_body (text_body s) max);
}
body_of-le (bytes_body bs) max = record {
  holds = sized (bytes_body bs) max _ _ tt (fits_body (bytes_body bs) max);
}

pub accepted : (b : Bool) → Yields (λ (t : Unit {0}). b ≡ true) (reject_unless b)
accepted true = record { holds = refl }
accepted false = record { holds = tt }

limited-Fits :
    (valid : Pairs → Bool) (ps : Pairs)
    → Yields (λ qs. FitsHeaders valid (some qs)) (limited valid ps)
unfolding limited
limited-Fits valid ps =
    bind-Yields _ (accepted (leb (length ps) 4096 && leb (pair_bytes ps) max_metadata_bytes))
      λ t small.
        bind-Yields _ (accepted (valid ps))
          λ t fine. give-Yields (ground (arith, small), ground (arith, small), fine)

headers-Fits : (valid : Pairs → Bool) (v : Value) → Yields (FitsHeaders valid) (headers valid v)
unfolding headers
headers-Fits valid v = elim (Bool-cases (is_undefined v)) [
  | inl missing ↦ rw missing (record { holds = tt })
  | inr given ↦ rw given (
      bind-Yields _ (anything (all_pairs v))
        λ ps u. bind-Yields _ (limited-Fits valid ps) λ qs h. record { holds = h })
]

module _ (parse : String → Option Url) (valid : Pairs → Bool) where
  session_request-IsBounded :
      (v : Value) (b : Body) (max : ℕ)
      → Yields (IsBounded valid max) (session_request parse valid v b max)
  unfolding session_request
  session_request-IsBounded v b max = bind-Yields _ (anything (object_of v)) λ fs u.
      bind-Yields _ (anything (keys fs _)) λ t u. bind-Yields _ (body_of-le b max) λ body small.
        bind-Yields _ (anything (attempt_of (lookup "attempt" fs))) λ attempt u.
          bind-Yields _ (headers-Fits valid (lookup "headers" fs)) λ hs fit.
            bind-Yields _ (anything (url parse (lookup "url" fs))) λ target u.
              bind-Yields _ (anything (text (lookup "method" fs) 64)) λ method u.
                bind-Yields _ (optional_integer-Range (lookup "timeoutMs" fs) max_timeout_ms)
                  λ timeout ht.
                    bind-Yields _
                      (optional_integer-Range (lookup "maxResponseBytes" fs) max_safe_integer)
                      λ maximum hm.
                        bind-Yields _ (anything (optional_text (lookup "requestId" fs) 128)) λ id u.
                          record {
                            holds = record {
                              body = small;
                              headers = fit;
                              timeout = ht;
                              response = hm;
                            };
                          }

  -- A request that `request` returns has a body of at most the configured bytes, at most 4096
  -- headers that the platform accepts, of at most 1 MiB in all, and a timeout and a response limit, if
  -- any, within their ranges.
  pub request-IsBounded :
      (v : Value) (b : Body) (max : ℕ) {r : Request}
      → request parse valid v b max ≡ returned r
      → IsBounded valid max r.common
  unfolding request
  request-IsBounded v b max {r} h =
      let held : Yields (λ (q : Request). IsBounded valid max q.common)
          (request parse valid v b max) =
        bind-Yields _ (anything (object_of v)) λ fs u.
          bind-Yields _ (session_request-IsBounded _ b max) λ common small.
            bind-Yields _ (anything (text (lookup "partition" fs) 1024)) λ partition u.
              bind-Yields _ (anything (target_of (lookup "connection" fs) (lookup "contextId" fs)))
                λ target u. record { holds = small } in
      subst (Returns (λ (q : Request). IsBounded valid max q.common)) h held.holds
