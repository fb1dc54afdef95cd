-- ===== src/Wire.antt =====
-- include/keymaster/serializable.h and serializable.cpp: bytes appended to and copied from buffers.
-- Pointers are 64-bit addresses and words are little-endian. An `Out` is a position in the buffer
-- that is written, with the bytes written so far; an `In` is a position in the buffer that is read,
-- with the bytes from there on. A failed read returns `none`: no caller goes on reading after it.
pub mod RoundTrip
pub mod Bounds
pub mod Carries
pub mod Advances
mod Examples
use platform_system_keymaste.Common.{
  ℕ, zero, suc, ◌+◌, ◌-◌, ◌*◌, ◌/◌, ◌%◌, Bool, ◌||◌, List, [], ◌∷◌, ◌++◌, Option, none, some,
  length, take, drop, ltb, leb, ◌==◌, if◌then◌else◌, to_uint32, to_uint64, uint32_max,
}

pub record Out : Type 0 where
  pub written : List ℕ
  pub ptr : ℕ
  pub end : ℕ

pub record In : Type 0 where
  pub bytes : List ℕ
  pub ptr : ℕ
  pub end : ℕ

infixl 5 ◌>>=◌
abbrev pub ◌>>=◌ {ℓ κ} : {A : Type ℓ} {B : Type κ} → Option A → (A → Option B) → Option B
none >>= f = none
some a >>= f = f a

-- The memory of a word of so many bytes, and the word in such a memory.
unfoldable pub le_bytes : ℕ → ℕ → List ℕ
le_bytes zero v = []
le_bytes (suc k) v = v % 256 ∷ le_bytes k (v / 256)

unfoldable pub le_value : List ℕ → ℕ
le_value [] = 0
le_value (b ∷ bs) = b + 256 * le_value bs

-- `__pval(p) + len < __pval(p)`
abbrev pub wraps : ℕ → ℕ → Bool
wraps ptr len = ltb (to_uint64 (ptr + len)) ptr

unfoldable pub append_to_buf : List ℕ → Out → Out
append_to_buf bytes o =
    if wraps o.ptr (length bytes)
    then o
    else if leb (o.ptr + length bytes) o.end
    then record o { written = o.written ++ bytes; ptr = o.ptr + length bytes }
    else o

unfoldable pub append_uint32_to_buf : ℕ → Out → Out
append_uint32_to_buf v o = append_to_buf (le_bytes 4 (to_uint32 v)) o

unfoldable pub append_uint64_to_buf : ℕ → Out → Out
append_uint64_to_buf v o = append_to_buf (le_bytes 8 v) o

unfoldable pub append_size_and_data_to_buf : List ℕ → Out → Out
append_size_and_data_to_buf bytes o = append_to_buf bytes (append_uint32_to_buf (length bytes) o)

-- The loop of `append_uint32_array_to_buf`.
unfoldable pub append_words : List ℕ → Out → Out
append_words [] o = o
append_words (v ∷ vs) o = append_words vs (append_uint32_to_buf v o)

unfoldable pub append_uint32_array_to_buf : List ℕ → Out → Out
append_uint32_array_to_buf vs o =
    if leb (uint32_max / 4) (length vs) || wraps o.ptr (length vs * 4)
    then o
    else append_words vs (append_uint32_to_buf (length vs) o)

unfoldable pub copy_from_buf : ℕ → In → Option (List ℕ × In)
copy_from_buf size i =
    if wraps i.ptr size
    then none
    else if ltb i.end (i.ptr + size)
    then none
    else some (take size i.bytes, record i { bytes = drop size i.bytes; ptr = i.ptr + size })

unfoldable pub copy_uint32_from_buf : In → Option (ℕ × In)
copy_uint32_from_buf i = do (bytes, i') ← copy_from_buf 4 i; some (le_value bytes, i')

unfoldable pub copy_uint64_from_buf : In → Option (ℕ × In)
copy_uint64_from_buf i = do (bytes, i') ← copy_from_buf 8 i; some (le_value bytes, i')

-- `alloc n` is whether `new (std::nothrow) uint8_t[n]` succeeds.
unfoldable pub copy_size_and_data_from_buf : (ℕ → Bool) → In → Option (List ℕ × In)
copy_size_and_data_from_buf alloc i = do
  (size, i') ← copy_uint32_from_buf i
  if wraps i'.ptr size
      then none
      else if ltb i'.end (i'.ptr + size)
      then none
      else if size == 0
      then some ([], i')
      else if alloc size
      then copy_from_buf size i'
      else none

-- The loop of `copy_uint32_array_from_buf`.
unfoldable pub copy_words : ℕ → In → Option (List ℕ × In)
copy_words zero i = some ([], i)
copy_words (suc n) i = do
  (v, i') ← copy_uint32_from_buf i
  (vs, i'') ← copy_words n i'
  some (v ∷ vs, i'')

-- `alloc n` is whether an array of so many bytes is allocated; an entry of the array has 4 bytes.
unfoldable pub copy_uint32_array_from_buf : (ℕ → Bool) → In → Option (List ℕ × In)
copy_uint32_array_from_buf alloc i = do
  (count, i') ← copy_uint32_from_buf i
  let array_end = to_uint64 (i'.ptr + count * 4)
  if leb (uint32_max / 4) count || ltb array_end i'.ptr || ltb i'.end array_end
      then none
      else if alloc (count * 4)
      then copy_words count i'
      else none
