-- ===== src/Client/Assembly.antt =====
-- The method `buffer` of packages/typescript/src/client.ts, which collects a response body in blocks,
-- and class BufferBudget of packages/typescript/src/concurrency.ts, which it reserves the blocks from.
-- What the body's reads give is a list of chunks, and how the exchange ends.

pub mod Account
pub mod Rounds
pub mod Content
mod Tests
use Prim.Native.Nat.{max}
use ja3proxy.Base.{
  ℕ, zero, suc, ◌+◌, ◌-◌, ◌*◌, min, Bool, true, false, List, [], ◌∷◌, ◌++◌, Option, none, some, ltb,
  ◌==◌, if◌then◌else◌, length, take, drop,
}

-- BufferBudget
pub record BufferBudget : Type 0 where
  pub limit : ℕ
  pub retained : ℕ

pub create : ℕ → Option BufferBudget
create limit = if ltb 0 limit then some (record { limit = limit; retained = 0 }) else none

-- `reserve` gives none where it throws BODY_TOO_LARGE.
pub reserve : ℕ → BufferBudget → Option BufferBudget
reserve n b =
    if ltb b.limit (b.retained + n) then none else some (record b { retained = b.retained + n })

pub release : ℕ → BufferBudget → BufferBudget
release n b = record b { retained = b.retained - n }

abbrev pub block_size : ℕ
block_size = 65536

-- The local variables of `buffer`; `current` is an array of which `filled` bytes are written.
pub record Assembly : Type 0 where
  pub blocks : List (List ℕ)
  pub current : List ℕ
  pub filled : ℕ
  pub retained : ℕ
  pub size : ℕ

abbrev pub fresh : Assembly
fresh = record { blocks = []; current = []; filled = 0; retained = 0; size = 0 }

pub flush : Assembly → Assembly
flush a =
    if a.filled == block_size
    then record a { blocks = a.blocks ++ a.current ∷ []; current = []; filled = 0 }
    else a

-- `new Uint8Array(n)`
abbrev pub zeros : ℕ → List ℕ
zeros zero = []
zeros (suc n) = 0 ∷ zeros n

-- How a chunk is taken up: wholly, or up to a refused reservation, or to a RangeError where an array
-- does not fit into the grown one.
pub data Appended : Type 0 where
  appended refused out_of_range : Assembly → BufferBudget → Appended
  out_of_fuel : Appended

-- The branch for an empty `current`: the rest of the chunk becomes the block.
abbrev pub placed : List ℕ → Assembly → BufferBudget → Option BufferBudget → Appended
placed rest a b none = refused a b
placed rest a b (some b') =
    appended
      (record a {
        retained = a.retained + length rest * 2;
        current = rest;
        filled = length rest;
        size = a.size + length rest;
      })
      b'

pub place : List ℕ → Assembly → BufferBudget → Appended
unfolding reserve
place rest a b = placed rest a b (reserve (length rest * 2) b)

abbrev pub capacity : List ℕ → Assembly → ℕ
capacity rest a = min block_size (max (length a.current * 2) (a.filled + length rest))

abbrev pub widened : ℕ → Assembly → BufferBudget → Option BufferBudget → Appended
widened n a b none = refused a b
widened n a b (some b') =
    appended (record a { retained = a.retained + n * 2; current = a.current ++ zeros n }) b'

-- The growth of a full `current`; an array that shrinks would throw in `set`.
pub grow : List ℕ → Assembly → BufferBudget → Appended
unfolding reserve
grow rest a b =
    let n = capacity rest a - length a.current in
    if a.filled == length a.current
    then if ltb (capacity rest a) (length a.current)
      then out_of_range a b
      else widened n a b (reserve (n * 2) b)
    else appended a b

abbrev pub count : List ℕ → Assembly → ℕ
count rest a = min (length a.current - a.filled) (length rest)

pub copy : List ℕ → Assembly → Assembly
copy rest a = record a {
  current =
      take a.filled a.current
      ++ (take (count rest a) rest ++ drop (a.filled + count rest a) a.current);
  filled = a.filled + count rest a;
  size = a.size + count rest a;
}

-- Behind `grow`: copy, and go on with what is left of the chunk.
abbrev pub grown : Appended → List ℕ → (List ℕ → Assembly → BufferBudget → Appended) → Appended
grown (appended a b) rest next = next (drop (count rest a) rest) (copy rest a) b
grown (refused a b) rest next = refused a b
grown (out_of_range a b) rest next = out_of_range a b
grown out_of_fuel rest next = out_of_fuel

-- The loop over one chunk.
pub append : ℕ → List ℕ → Assembly → BufferBudget → Appended
unfolding flush place grow copy
append zero rest a b = out_of_fuel
append (suc fuel) [] a b = appended a b
append (suc fuel) (x ∷ xs) a b =
    let more = grown (grow (x ∷ xs) (flush a) b) (x ∷ xs) (append fuel) in
    if length (flush a).current == 0 then place (x ∷ xs) (flush a) b else more

abbrev pub joined : List (List ℕ) → List ℕ
joined [] = []
joined (x ∷ xs) = x ++ joined xs

-- The bytes that the final assembly writes.
abbrev pub assemble : Assembly → List ℕ
assemble a = joined a.blocks ++ take a.filled a.current

-- `body`, an array of `size` bytes; none where the bytes do not fit and `set` throws.
abbrev pub final_bytes : Assembly → Option (List ℕ)
final_bytes a =
    if ltb a.size (length (assemble a))
    then none
    else some (assemble a ++ zeros (a.size - length (assemble a)))

-- A response body, or the error that ends `buffer`, with the budget after its `finally`.
pub data Buffered : Type 0 where
  buffered : List ℕ → BufferBudget → Buffered
  too_large range_error failed : BufferBudget → Buffered
  exhausted : Buffered

abbrev pub ended : Option (List ℕ) → BufferBudget → Buffered
ended none b = range_error b
ended (some body) b = buffered body b

-- Behind one chunk: go on, or leave with the reservations given back.
abbrev pub chunk_taken : Appended → (Assembly → BufferBudget → Buffered) → Buffered
unfolding release
chunk_taken (appended a b) next = next a b
chunk_taken (refused a b) next = too_large (release a.retained b)
chunk_taken (out_of_range a b) next = range_error (release a.retained b)
chunk_taken out_of_fuel next = exhausted

-- `complete` says whether the stream and the exchange end without an error.
pub buffer_from : List (List ℕ) → Bool → Assembly → BufferBudget → Buffered
unfolding append release
buffer_from [] complete a b =
    if complete then ended (final_bytes a) (release a.retained b) else failed (release a.retained b)
buffer_from (chunk ∷ chunks) complete a b =
    chunk_taken (append (suc (length chunk)) chunk a b) (buffer_from chunks complete)

pub buffer : List (List ℕ) → Bool → BufferBudget → Buffered
unfolding buffer_from
buffer chunks complete b = buffer_from chunks complete fresh b
