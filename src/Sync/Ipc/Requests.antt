-- ===== src/Sync/Ipc/Requests.antt =====
-- packages/typescript/src/sync/ipc.ts: identity, connection, headers, sessionRequest and request.
-- `valid_headers` is what the class Headers accepts; a body is an argument of its own.
pub mod Limits
mod Tests
use ja3proxy.Base.{
  ℕ, ◌+◌, ◌<◌, Bool, true, false, not, ◌&&◌, ◌||◌, String, str_eq, List, [], ◌∷◌, Option, none,
  some, ltb, leb, length, if◌then◌else◌,
}
use ja3proxy.Platform.{Url}
use ja3proxy.Errors.{Code, Kind, Outcome, returned, threw, local_error}
use ja3proxy.Errors.Encoding.{as_number}
use ja3proxy.Wire.Value.{
  Value, boolean, string, array, object, Elements, no_elements, element, Entries, no_entries, entry,
  lookup, is_undefined, equals_one, has_string, count_items,
}
use ja3proxy.Protocol.Payloads.Patterns.{codes, nonnegative_integer, max_safe_integer}
use ja3proxy.Sync.{◌>>=◌, ◌>>◌}
use ja3proxy.Sync.Ipc.{
  object_of, keys, text, optional_text, integer, optional_integer, url, invalid, reject_unless,
  max_timeout_ms, max_metadata_bytes,
}

pub record Identity : Type 0 where
  pub tls_profile : String
  pub emulate_headers : Bool
  pub user_agent : Option String

unfoldable pub flag : Value → Outcome Bool
flag (boolean b) = returned b
flag v = invalid

-- identity
unfoldable pub identity : Value → Outcome Identity
unfolding flag
identity v = do
  fs ← object_of v
  keys fs ("tlsProfile" ∷ "emulateHeaders" ∷ "userAgent" ∷ [])
  emulate ← flag (lookup "emulateHeaders" fs)
  profile ← text (lookup "tlsProfile" fs) 64
  agent ← optional_text (lookup "userAgent" fs) 8192
  returned (record { tls_profile = profile; emulate_headers = emulate; user_agent = agent })

pub data Egress : Type 0 where
  direct : Egress
  proxy : String → Egress

pub record ConnectionSpec : Type 0 where
  pub egress : Egress
  pub identity : Identity

unfoldable pub egress_of : Entries → Outcome Egress
egress_of fs =
    if equals_one ("direct" ∷ []) (lookup "mode" fs) && is_undefined (lookup "url" fs)
    then returned direct
    else if not (equals_one ("proxy" ∷ []) (lookup "mode" fs))
    then invalid
    else (do u ← text (lookup "url" fs) 8192; returned (proxy u))

-- connection
unfoldable pub connection : Value → Outcome ConnectionSpec
unfolding egress_of
connection v = do
  fs ← object_of v
  keys fs ("egress" ∷ "identity" ∷ [])
  es ← object_of (lookup "egress" fs)
  keys es ("mode" ∷ "url" ∷ [])
  egress ← egress_of es
  id ← identity (lookup "identity" fs)
  returned (record { egress = egress; identity = id })

-- Buffer.byteLength
abbrev pub utf8_length : List ℕ → ℕ
utf8_length [] = 0
utf8_length (c ∷ cs) =
    (if ltb c 128 then 1 else if ltb c 2048 then 2 else if ltb c 65536 then 3 else 4)
    + utf8_length cs

abbrev pub byte_length : String → ℕ
byte_length s = utf8_length (codes s)

abbrev pub Pairs : Type 0
Pairs = List (String × String)

pub pair_bytes : Pairs → ℕ
pair_bytes [] = 0
pair_bytes ((name, content) ∷ ps) = byte_length name + byte_length content + pair_bytes ps

pair_of : Value → Outcome (String × String)
pair_of (array (element (string name) (element (string content) no_elements))) =
    returned (name, content)
pair_of v = invalid

pub pairs_of : Elements → Outcome Pairs
unfolding pair_of
pairs_of no_elements = returned []
pairs_of (element v xs) = do p ← pair_of v; ps ← pairs_of xs; returned (p ∷ ps)

content_of : String → Value → Outcome (String × String)
content_of name (string s) = returned (name, s)
content_of name v = invalid

pub fields_of : Entries → Outcome Pairs
unfolding content_of
fields_of no_entries = returned []
fields_of (entry name v fs) = do p ← content_of name v; ps ← fields_of fs; returned (p ∷ ps)

all_pairs : Value → Outcome Pairs
unfolding pairs_of fields_of
all_pairs (array xs) = pairs_of xs
all_pairs (object fs) = fields_of fs
all_pairs v = invalid

limited : (Pairs → Bool) → Pairs → Outcome Pairs
unfolding pair_bytes
limited valid_headers ps = do
  reject_unless (leb (length ps) 4096 && leb (pair_bytes ps) max_metadata_bytes)
  reject_unless (valid_headers ps)
  returned ps

-- headers
pub headers : (Pairs → Bool) → Value → Outcome (Option Pairs)
unfolding all_pairs limited
headers valid_headers v =
    if is_undefined v
    then returned none
    else (do ps ← all_pairs v; qs ← limited valid_headers ps; returned (some qs))

pub data Body : Type 0 where
  absent null_body other_body : Body
  text_body : String → Body
  bytes_body : List ℕ → Body

pub body_bytes : Body → ℕ
body_bytes (text_body s) = byte_length s
body_bytes (bytes_body bs) = length bs
body_bytes _ = 0

-- The tests of a body.
body_of : Body → ℕ → Outcome Body
unfolding body_bytes
body_of other_body max = invalid
body_of b max =
    if ltb max (body_bytes b)
    then threw (local_error Code.body_too_large (some Kind.buffer_limit))
    else returned b

attempt_of : Value → Outcome (Option ℕ)
attempt_of v =
    if is_undefined v
    then returned none
    else if nonnegative_integer v
    then returned (some (as_number v))
    else invalid

pub record SessionRequest : Type 0 where
  pub url : String
  pub method : String
  pub headers : Option Pairs
  pub body : Body
  pub timeout_ms : Option ℕ
  pub max_response_bytes : Option ℕ
  pub attempt : Option ℕ
  pub request_id : Option String

-- `{ partition, connection, contextId, ...rest }`
pub rest_of : List String → Entries → Entries
rest_of taken no_entries = no_entries
rest_of taken (entry key v fs) =
    let rest = rest_of taken fs in if has_string taken key then rest else entry key v rest

pub data Target : Type 0 where
  over : ConnectionSpec → Target
  within : String → Target

pub record Request : Type 0 where
  pub common : SessionRequest
  pub partition : String
  pub target : Target

target_of : Value → Value → Outcome Target
target_of spec context =
    if not (is_undefined spec) && is_undefined context
    then (do c ← connection spec; returned (over c))
    else if not (is_undefined context) && is_undefined spec
    then (do id ← text context 256; returned (within id))
    else invalid

module _ (parse : String → Option Url) (valid_headers : Pairs → Bool) where
  -- sessionRequest
  pub session_request : Value → Body → ℕ → Outcome SessionRequest
  unfolding body_of attempt_of
  session_request v b max_bytes = do
    fs ← object_of v
    keys fs (
        "url" ∷ "method" ∷ "headers" ∷ "body" ∷ "timeoutMs" ∷ "maxResponseBytes" ∷ "attempt"
        ∷ "requestId" ∷ [])
    body ← body_of b max_bytes
    attempt ← attempt_of (lookup "attempt" fs)
    hs ← headers valid_headers (lookup "headers" fs)
    target ← url parse (lookup "url" fs)
    method ← text (lookup "method" fs) 64
    timeout ← optional_integer (lookup "timeoutMs" fs) max_timeout_ms
    maximum ← optional_integer (lookup "maxResponseBytes" fs) max_safe_integer
    request_id ← optional_text (lookup "requestId" fs) 128
    returned (record {
      url = target;
      method = method;
      headers = hs;
      body = body;
      timeout_ms = timeout;
      max_response_bytes = maximum;
      attempt = attempt;
      request_id = request_id;
    })

  -- request
  pub request : Value → Body → ℕ → Outcome Request
  unfolding target_of rest_of
  request v b max_bytes = do
    fs ← object_of v
    common ←
        session_request (object (rest_of ("partition" ∷ "connection" ∷ "contextId" ∷ []) fs)) b
          max_bytes
    partition ← text (lookup "partition" fs) 1024
    target ← target_of (lookup "connection" fs) (lookup "contextId" fs)
    returned (record { common = common; partition = partition; target = target })
