-- ===== src/Wire/RoundTrip.antt =====
-- Reading back what was written, and the bounds of both, for serializable.h and serializable.cpp.
use platform_system_keymaste.Common.{
  ℕ, zero, suc, ◌+◌, ◌*◌, ◌/◌, ◌≤◌, ◌<◌, ◌≡◌, refl, ap, ◌∙◌, Bool, true, List, [], ◌∷◌, ◌++◌,
  append_assoc, append-nil, none, some, arith, length, All, length-append, take-append, drop-append,
  ◌==◌, ltb, to_uint32, if◌then◌else◌, uint32_max,
}
use platform_system_keymaste.Wire.{
  Out, In, wraps, le_bytes, le_value, append_to_buf, append_uint32_to_buf, append_uint64_to_buf,
  append_size_and_data_to_buf, append_words, append_uint32_array_to_buf, copy_from_buf,
  copy_uint32_from_buf, copy_uint64_from_buf, copy_size_and_data_from_buf, copy_words,
  copy_uint32_array_from_buf,
}

-- There is room for so many bytes, in a buffer that ends inside the address space.
abbrev pub Room : ℕ → Out → Type 0
Room n o = (o.ptr + n ≤ o.end) × (o.end < 0x1_0000_0000_0000_0000)

abbrev pub wrote : List ℕ → Out → Out
wrote bytes o = record o { written = o.written ++ bytes; ptr = o.ptr + length bytes }

abbrev pub input : List ℕ → ℕ → ℕ → In
input bytes ptr end = record { bytes = bytes; ptr = ptr; end = end }

pub length-le_bytes : (k v : ℕ) → length (le_bytes k v) ≡ k
unfolding le_bytes
length-le_bytes zero v = refl
length-le_bytes (suc k) v = ap suc (length-le_bytes k (v / 256))

pub le_value-le_bytes_4 : (v : ℕ) → v < 0x1_0000_0000 → le_value (le_bytes 4 v) ≡ v
unfolding le_value le_bytes
le_value-le_bytes_4 v h = omega arith

pub le_value-le_bytes_8 : (v : ℕ) → v < 0x1_0000_0000_0000_0000 → le_value (le_bytes 8 v) ≡ v
unfolding le_value le_bytes
le_value-le_bytes_8 v h = omega arith

pub append_to_buf-fits :
    (bytes : List ℕ) (o : Out) → Room (length bytes) o → append_to_buf bytes o ≡ wrote bytes o
unfolding append_to_buf
append_to_buf-fits bytes o h = ground arith

pub wrote-wrote : (xs ys : List ℕ) (o : Out) → wrote ys (wrote xs o) ≡ wrote (xs ++ ys) o
wrote-wrote xs ys o = ground (arith, append_assoc o.written xs ys, length-append xs ys)

-- An append of one word, and what follows it.
pub append_uint32_fits :
    (v : ℕ) (o : Out)
    → v < 0x1_0000_0000
    → Room 4 o
    → append_uint32_to_buf v o ≡ wrote (le_bytes 4 v) o
unfolding append_uint32_to_buf
append_uint32_fits v o hv h =
    let e : to_uint32 v ≡ v = omega arith in rw e (append_to_buf-fits (le_bytes 4 v) o (length_4 h))
  where
    length_4 : Room 4 o → Room (length (le_bytes 4 v)) o
    length_4 r = rw length-le_bytes r

pub append_uint64_fits :
    (v : ℕ) (o : Out) → Room 8 o → append_uint64_to_buf v o ≡ wrote (le_bytes 8 v) o
unfolding append_uint64_to_buf
append_uint64_fits v o h = append_to_buf-fits (le_bytes 8 v) o (rw length-le_bytes h)

abbrev pub sized : List ℕ → List ℕ
sized bytes = le_bytes 4 (length bytes) ++ bytes

pub append_size_and_data_fits :
    (bytes : List ℕ) (o : Out)
    → length bytes < 0x1_0000_0000
    → Room (4 + length bytes) o
    → append_size_and_data_to_buf bytes o ≡ wrote (sized bytes) o
unfolding append_size_and_data_to_buf
append_size_and_data_fits bytes o hv h = rw (append_uint32_fits (length bytes) o hv (omega arith)) (
    append_to_buf-fits bytes (wrote (le_bytes 4 (length bytes)) o)
      (omega (arith, length-le_bytes 4 (length bytes)))
    ∙ wrote-wrote (le_bytes 4 (length bytes)) bytes o)

pub copy_from_buf-append :
    (xs rest : List ℕ) (ptr end : ℕ)
    → ptr + length xs ≤ end
    → end < 0x1_0000_0000_0000_0000
    → copy_from_buf (length xs) (input (xs ++ rest) ptr end)
      ≡ some (xs, input rest (ptr + length xs) end)
unfolding copy_from_buf
copy_from_buf-append xs rest ptr end h he = ground (arith, take-append xs rest, drop-append xs rest)

pub copy_uint32_append :
    (v : ℕ) (rest : List ℕ) (ptr end : ℕ)
    → v < 0x1_0000_0000
    → ptr + 4 ≤ end
    → end < 0x1_0000_0000_0000_0000
    → copy_uint32_from_buf (input (le_bytes 4 v ++ rest) ptr end)
      ≡ some (v, input rest (ptr + 4) end)
unfolding copy_uint32_from_buf
copy_uint32_append v rest ptr end hv h he = ground (
  arith,
  copy_from_buf-append (le_bytes 4 v) rest ptr end,
  le_value-le_bytes_4 v,
  length-le_bytes 4 v,
)

pub copy_uint64_append :
    (v : ℕ) (rest : List ℕ) (ptr end : ℕ)
    → v < 0x1_0000_0000_0000_0000
    → ptr + 8 ≤ end
    → end < 0x1_0000_0000_0000_0000
    → copy_uint64_from_buf (input (le_bytes 8 v ++ rest) ptr end)
      ≡ some (v, input rest (ptr + 8) end)
unfolding copy_uint64_from_buf
copy_uint64_append v rest ptr end hv h he = ground (
  arith,
  copy_from_buf-append (le_bytes 8 v) rest ptr end,
  le_value-le_bytes_8 v,
  length-le_bytes 8 v,
)

-- Reading a size and the bytes after it.
pub copy_size_and_data_append :
    (alloc : ℕ → Bool) (bytes rest : List ℕ) (ptr end : ℕ)
    → ((n : ℕ) → alloc n ≡ true)
    → length bytes < 0x1_0000_0000
    → ptr + 4 + length bytes ≤ end
    → end < 0x1_0000_0000_0000_0000
    → copy_size_and_data_from_buf alloc (input (sized bytes ++ rest) ptr end)
      ≡ some (bytes, input rest (ptr + 4 + length bytes) end)
unfolding copy_size_and_data_from_buf
copy_size_and_data_append alloc bytes rest ptr end can hv h he =
    rw
      (
        append_assoc (le_bytes 4 (length bytes)) bytes rest,
        copy_uint32_append (length bytes) (bytes ++ rest) ptr end hv (omega arith) he,
      )
      (body bytes refl)
  where
    body :
        (xs : List ℕ)
        → xs ≡ bytes
        → (if wraps (ptr + 4) (length bytes)
            then none
            else if ltb end (ptr + 4 + length bytes)
            then none
            else if length bytes == 0
            then some ([], input (bytes ++ rest) (ptr + 4) end)
            else if alloc (length bytes)
            then copy_from_buf (length bytes) (input (bytes ++ rest) (ptr + 4) end)
            else none)
          ≡ some (bytes, input rest (ptr + 4 + length bytes) end)
    body [] e = ground arith
    body (x ∷ xs) e =
        ground (arith, can (length bytes), copy_from_buf-append bytes rest (ptr + 4) end)

unfoldable pub words : List ℕ → List ℕ
words [] = []
words (v ∷ vs) = le_bytes 4 v ++ words vs

abbrev pub IsWord : ℕ → Type 0
IsWord v = v < 0x1_0000_0000

pub length-words : (vs : List ℕ) → length (words vs) ≡ length vs * 4
unfolding words
length-words [] = refl
length-words (v ∷ vs) =
    omega (arith, length-append (le_bytes 4 v) (words vs), length-words vs, length-le_bytes 4 v)

append_words_fits :
    (vs : List ℕ) (o : Out)
    → All IsWord vs
    → Room (length vs * 4) o
    → append_words vs o ≡ wrote (words vs) o
unfolding append_words words
append_words_fits [] o hv h = ground (arith, append-nil o.written)
append_words_fits (v ∷ vs) o hv h = rw (append_uint32_fits v o hv.0 (omega arith)) (
    append_words_fits vs (wrote (le_bytes 4 v) o) hv.1 (omega (arith, length-le_bytes 4 v))
    ∙ wrote-wrote (le_bytes 4 v) (words vs) o)

pub append_uint32_array_fits :
    (vs : List ℕ) (o : Out)
    → All IsWord vs
    → length vs < uint32_max / 4
    → Room (4 + length vs * 4) o
    → append_uint32_array_to_buf vs o ≡ wrote (le_bytes 4 (length vs) ++ words vs) o
unfolding append_uint32_array_to_buf
append_uint32_array_fits vs o hv small h = ground (
  arith,
  append_uint32_fits (length vs) o,
  append_words_fits vs (wrote (le_bytes 4 (length vs)) o) hv,
  length-le_bytes 4 (length vs),
  wrote-wrote (le_bytes 4 (length vs)) (words vs) o,
)

copy_words_append :
    (vs rest : List ℕ) (ptr end : ℕ)
    → All IsWord vs
    → ptr + length vs * 4 ≤ end
    → end < 0x1_0000_0000_0000_0000
    → copy_words (length vs) (input (words vs ++ rest) ptr end)
      ≡ some (vs, input rest (ptr + length vs * 4) end)
unfolding copy_words words
copy_words_append [] rest ptr end hv h he = ground arith
copy_words_append (v ∷ vs) rest ptr end hv h he = rw (append_assoc (le_bytes 4 v) (words vs) rest) (
    ground (
      arith,
      copy_uint32_append v (words vs ++ rest) ptr end hv.0,
      copy_words_append vs rest (ptr + 4) end hv.1,
    ))

pub copy_uint32_array_append :
    (alloc : ℕ → Bool) (vs rest : List ℕ) (ptr end : ℕ)
    → ((n : ℕ) → alloc n ≡ true)
    → All IsWord vs
    → length vs < uint32_max / 4
    → ptr + 4 + length vs * 4 ≤ end
    → end < 0x1_0000_0000_0000_0000
    → copy_uint32_array_from_buf alloc
        (input (le_bytes 4 (length vs) ++ (words vs ++ rest)) ptr end)
      ≡ some (vs, input rest (ptr + 4 + length vs * 4) end)
unfolding copy_uint32_array_from_buf
copy_uint32_array_append alloc vs rest ptr end can hv small h he = ground (
  arith,
  can (length vs * 4),
  copy_uint32_append (length vs) (words vs ++ rest) ptr end,
  copy_words_append vs rest (ptr + 4) end hv,
)

abbrev pub output : ℕ → ℕ → Out
output ptr end = record { written = []; ptr = ptr; end = end }

module _ (alloc : ℕ → Bool) (start end : ℕ) (can : (n : ℕ) → alloc n ≡ true)
    (he : end < 0x1_0000_0000_0000_0000) where
  -- Bytes that `append_size_and_data_to_buf` writes to a buffer with room for them and their size,
  -- fewer than 2^32, are read back by `copy_size_and_data_from_buf`, whatever follows, and the read
  -- ends where the write did. Memory can be allocated.
  pub copy-append_size_and_data :
      (bytes rest : List ℕ)
      → length bytes < 0x1_0000_0000
      → start + 4 + length bytes ≤ end
      → let o = append_size_and_data_to_buf bytes (output start end) in
        copy_size_and_data_from_buf alloc (input (o.written ++ rest) start end)
        ≡ some (bytes, input rest o.ptr end)
  copy-append_size_and_data bytes rest hv h =
      rw (append_size_and_data_fits bytes (output start end) hv (omega arith)) (
        copy_size_and_data_append alloc bytes rest start end can hv h he
        ∙ (ground (
          arith,
          length-append (le_bytes 4 (length bytes)) bytes,
          length-le_bytes 4 (length bytes),
        )))

  -- An array of 32-bit words, fewer than UINT32_MAX / 4, that `append_uint32_array_to_buf` writes to a
  -- buffer with room for it and its length is read back by `copy_uint32_array_from_buf`, whatever
  -- follows, and the read ends where the write did. Memory can be allocated.
  pub copy-append_uint32_array :
      (vs rest : List ℕ)
      → All IsWord vs
      → length vs < uint32_max / 4
      → start + 4 + length vs * 4 ≤ end
      → let o = append_uint32_array_to_buf vs (output start end) in
        copy_uint32_array_from_buf alloc (input (o.written ++ rest) start end)
        ≡ some (vs, input rest o.ptr end)
  copy-append_uint32_array vs rest hv small h =
      rw
        (
          append_uint32_array_fits vs (output start end) hv small (omega arith),
          append_assoc (le_bytes 4 (length vs)) (words vs) rest,
        )
        (copy_uint32_array_append alloc vs rest start end can hv small h he
          ∙ (ground (
            arith,
            length-append (le_bytes 4 (length vs)) (words vs),
            length-le_bytes 4 (length vs),
            length-words vs,
          )))
