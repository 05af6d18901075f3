-- ===== src/Protocol/Payloads/Patterns.antt =====
-- The regular expressions and the tests of single values in packages/typescript/src/protocol.ts. A
-- text is read by its code points; `length` counts its UTF-16 units, as JavaScript does.
use Prim.Native.Char.{code}
use ja3proxy.Base.{
  ℕ, ◌+◌, Bool, true, false, not, ◌&&◌, ◌||◌, String, str_eq, List, [], ◌∷◌, ltb, leb, ◌==◌, length,
  all, if◌then◌else◌,
}
use ja3proxy.Wire.Value.{
  Value, number, string, array, whole, minus, Elements, no_elements, element, Entries, no_entries,
  entry,
}

abbrev pub codes : String → List ℕ
codes String.[] = []
codes (String.◌∷◌ c s) = code c ∷ codes s

-- `s.length`
abbrev pub units : List ℕ → ℕ
units [] = 0
units (c ∷ cs) = (if ltb c 65536 then 1 else 2) + units cs

abbrev pub text_length : String → ℕ
text_length s = units (codes s)

abbrev pub is_digit : ℕ → Bool
is_digit c = leb b'0' c && leb c b'9'

abbrev pub is_lower : ℕ → Bool
is_lower c = leb b'a' c && leb c b'z'

abbrev pub is_upper : ℕ → Bool
is_upper c = leb b'A' c && leb c b'Z'

abbrev pub one_of_codes : List ℕ → ℕ → Bool
one_of_codes [] c = false
one_of_codes (d ∷ ds) c = c == d || one_of_codes ds c

-- `^[class]{low,high}$` for a class of ASCII characters.
unfoldable pub spans : (ℕ → Bool) → ℕ → ℕ → String → Bool
spans class low high s =
    all class (codes s) && leb low (length (codes s)) && leb (length (codes s)) high

abbrev opaque_class : ℕ → Bool
opaque_class c =
    is_upper c || is_lower c || is_digit c || one_of_codes (b'_' ∷ b'.' ∷ b':' ∷ b'-' ∷ []) c

unfoldable pub opaque_text : String → Bool
unfolding spans
opaque_text s = spans opaque_class 1 128 s

-- `opaque`
unfoldable pub opaque : Value → Bool
opaque (string s) = opaque_text s
opaque _ = false

-- `^[a-z0-9_.]{1,64}$`
unfoldable pub profile_name : String → Bool
unfolding spans
profile_name s = spans (λ c. is_lower c || is_digit c || one_of_codes (b'_' ∷ b'.' ∷ []) c) 1 64 s

abbrev hex_class : ℕ → Bool
hex_class c = leb b'a' c && leb c b'f' || is_digit c

-- `^(?!0{n}$)[a-f0-9]{n}$`
unfoldable pub hexadecimal : ℕ → String → Bool
unfolding spans
hexadecimal n s = not (spans (λ c. c == b'0') n n s) && spans hex_class n n s

token_marks : List ℕ
token_marks =
    b'!' ∷ b'#' ∷ b'$' ∷ b'%' ∷ b'&' ∷ 39 ∷ b'*' ∷ b'+' ∷ b'.' ∷ b'^' ∷ b'_' ∷ b'`' ∷ b'|' ∷ b'~'
    ∷ b'-' ∷ []

abbrev token_class : ℕ → Bool
unfolding token_marks
token_class c = one_of_codes token_marks c || is_digit c || is_upper c || is_lower c

unfoldable pub header_name : String → Bool
unfolding token_marks
header_name s = leb 1 (length (codes s)) && all token_class (codes s)

-- `!/[\r\n\0]/.test(s)`
unfoldable pub one_line : String → Bool
one_line s = all (λ c. not (one_of_codes (13 ∷ 10 ∷ 0 ∷ []) c)) (codes s)

-- Number.MAX_SAFE_INTEGER
abbrev pub max_safe_integer : ℕ
max_safe_integer = 9007199254740991

unfoldable pub positive : Value → Bool
positive (number (whole n)) = leb n max_safe_integer && ltb 0 n
positive _ = false

-- Minus zero is a safe integer that is not below zero.
unfoldable pub nonnegative_integer : Value → Bool
nonnegative_integer (number (whole n)) = leb n max_safe_integer
nonnegative_integer (number (minus n)) = n == 0
nonnegative_integer _ = false

-- `value.every(…)`
unfoldable pub every : (Value → Bool) → Elements → Bool
every p no_elements = true
every p (element v xs) = p v && every p xs

-- `key in value`, of the own properties.
unfoldable pub has_key : String → Entries → Bool
has_key key no_entries = false
has_key key (entry name v fs) = str_eq name key || has_key key fs

-- `{ ...fs, [key]: v }`
unfoldable pub with_entry : String → Value → Entries → Entries
with_entry key v no_entries = entry key v no_entries
with_entry key v (entry name w fs) =
    if str_eq name key then entry key v fs else entry name w (with_entry key v fs)

header_pair : Value → Bool
header_pair (array (element (string name) (element (string content) no_elements))) =
    header_name name && one_line content
header_pair _ = false

-- `headerPairs`
unfoldable pub header_pairs : Value → Bool
unfolding header_pair
header_pairs (array pairs) = every header_pair pairs
header_pairs _ = false
