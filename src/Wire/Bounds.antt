-- ===== src/Wire/Bounds.antt =====
-- No append writes behind the end of its buffer, and no copy reads behind the end of its input
-- (serializable.h, serializable.cpp).
use platform_system_keymaste.Common.{
  ℕ, ◌+◌, ◌≤◌, ◌<◌, ◌≡◌, refl, sym, ap, ◌∙◌, Bool, List, [], ◌∷◌, ◌++◌, Option, none, some, arith,
  length, length-append, length-take, length-drop, ◌==◌, ltb, if◌then◌else◌, take-append-drop,
  append_assoc, ◌⊎◌, inl, inr,
}
use platform_system_keymaste.Wire.{
  Out, In, ◌>>=◌, wraps, le_value, append_to_buf, append_uint32_to_buf, append_size_and_data_to_buf,
  append_words, append_uint32_array_to_buf, copy_from_buf, copy_uint32_from_buf,
  copy_size_and_data_from_buf,
}

-- The position is that of the bytes written from `start` on, and lies inside the buffer.
pub record IsWithin (start : ℕ) (o : Out) : Type 0 where
  pub position : start + length o.written ≡ o.ptr
  pub inside : o.ptr ≤ o.end

pub append_to_buf-IsWithin :
    (start : ℕ) (bytes : List ℕ) (o : Out)
    → IsWithin start o
    → IsWithin start (append_to_buf bytes o)
unfolding append_to_buf
append_to_buf-IsWithin start bytes o w = ground (arith, length-append o.written bytes)

pub append_uint32-IsWithin :
    (start v : ℕ) (o : Out) → IsWithin start o → IsWithin start (append_uint32_to_buf v o)
unfolding append_uint32_to_buf
append_uint32-IsWithin start v o w = append_to_buf-IsWithin start _ o w

-- Whatever the bytes and the room, `append_size_and_data_to_buf` stays inside the buffer.
pub append_size_and_data-IsWithin :
    (start : ℕ) (bytes : List ℕ) (o : Out)
    → IsWithin start o
    → IsWithin start (append_size_and_data_to_buf bytes o)
unfolding append_size_and_data_to_buf
append_size_and_data-IsWithin start bytes o w =
    append_to_buf-IsWithin start bytes _ (append_uint32-IsWithin start _ o w)

append_words-IsWithin :
    (start : ℕ) (vs : List ℕ) (o : Out) → IsWithin start o → IsWithin start (append_words vs o)
unfolding append_words
append_words-IsWithin start [] o w = w
append_words-IsWithin start (v ∷ vs) o w =
    append_words-IsWithin start vs _ (append_uint32-IsWithin start v o w)

-- From a position inside the buffer, appending an array of words of any length, with room for it or
-- not, leaves the position inside the buffer, behind the bytes written.
pub append_uint32_array-IsWithin :
    (start : ℕ) (vs : List ℕ) (o : Out)
    → IsWithin start o
    → IsWithin start (append_uint32_array_to_buf vs o)
unfolding append_uint32_array_to_buf
append_uint32_array-IsWithin start vs o w = ground (
  arith,
  append_words-IsWithin start vs (append_uint32_to_buf (length vs) o),
  append_uint32-IsWithin start (length vs) o w,
)

-- The input holds the bytes up to its end, which lies inside the address space.
pub record IsInput (i : In) : Type 0 where
  pub filled : i.ptr + length i.bytes ≡ i.end
  pub bounded : i.end < 0x1_0000_0000_0000_0000

-- A read of so many bytes in `bytes`, from `i` to `j`.
pub record Reads (size : ℕ) (bytes : List ℕ) (i j : In) : Type 0 where
  pub size_eq : length bytes ≡ size
  pub split : i.bytes ≡ bytes ++ j.bytes
  pub ptr_eq : j.ptr ≡ i.ptr + size
  pub end_eq : j.end ≡ i.end

-- A read that succeeds returns as many bytes as asked for, the next of the input, and moves on by
-- them, to a position that is not behind the end.
pub copy_from_buf-Reads :
    (size : ℕ) (i : In) {bytes : List ℕ} {j : In}
    → IsInput i
    → copy_from_buf size i ≡ some (bytes, j)
    → IsInput j × Reads size bytes i j
unfolding copy_from_buf
copy_from_buf-Reads size i {bytes} {j} v h = (
  ground (arith, length-drop size i.bytes),
  ground (arith, length-take size i.bytes, take-append-drop size i.bytes),
)

-- What a chain of reads that succeeds has read first.
pub >>=-eq-some {ℓ κ} :
    {A : Type ℓ} {B : Type κ} (m : Option A) (f : A → Option B) {b : B}
    → (m >>= f) ≡ some b
    → (a : A) × (m ≡ some a) × (f a ≡ some b)
>>=-eq-some none f h = cc
>>=-eq-some (some a) f h = (a, refl, h)

pub copy_uint32-Reads :
    (i : In) {v : ℕ} {j : In}
    → IsInput i
    → copy_uint32_from_buf i ≡ some (v, j)
    → (bytes : List ℕ) × (le_value bytes ≡ v) × IsInput j × Reads 4 bytes i j
unfolding copy_uint32_from_buf
copy_uint32-Reads i {v} {j} w h =
    let ((bytes, k), e, f) = >>=-eq-some (copy_from_buf 4 i) _ h in
    let (u, r) = copy_from_buf-Reads 4 i w e in (bytes, cc, ground (arith, u), ground (arith, r))

Reads-append :
    (m n : ℕ) (xs ys : List ℕ) {i j k : In}
    → Reads m xs i j
    → Reads n ys j k
    → Reads (m + n) (xs ++ ys) i k
Reads-append m n xs ys {i} {j} {k} r q = record {
  size_eq = omega (arith, length-append xs ys, r.size_eq, q.size_eq);
  split = r.split ∙ ap (λ l. xs ++ l) q.split ∙ sym (append_assoc xs ys k.bytes);
  ptr_eq = omega (arith, r.ptr_eq, q.ptr_eq);
  end_eq = q.end_eq ∙ r.end_eq;
}

abbrev sized_rest : (ℕ → Bool) → ℕ → In → Option (List ℕ × In)
sized_rest alloc size i' =
    if wraps i'.ptr size
    then none
    else if ltb i'.end (i'.ptr + size)
    then none
    else if size == 0
    then some ([], i')
    else if alloc size
    then copy_from_buf size i'
    else none

sized_rest-cases :
    (alloc : ℕ → Bool) (size : ℕ) (i : In) {bytes : List ℕ} {j : In}
    → sized_rest alloc size i ≡ some (bytes, j)
    → ((size ≡ 0) × (bytes ≡ []) × (j ≡ i)) ⊎ (copy_from_buf size i ≡ some (bytes, j))
sized_rest-cases alloc size i h = ground arith

sized_rest-Reads :
    (alloc : ℕ → Bool) (size : ℕ) (i : In) {bytes : List ℕ} {j : In}
    → IsInput i
    → sized_rest alloc size i ≡ some (bytes, j)
    → IsInput j × Reads size bytes i j
sized_rest-Reads alloc size i {bytes} {j} w h = elim (sized_rest-cases alloc size i h) [
  | inl (z, b, e) ↦ (ground (arith, w), ground arith)
  | inr e ↦ copy_from_buf-Reads size i w e
]

-- The bytes that `copy_size_and_data_from_buf` returns are those behind a size of four bytes, as
-- many as it says, and all of them lie before the end of the input, whatever the input holds.
pub copy_size_and_data-Reads :
    (alloc : ℕ → Bool) (i : In) {bytes : List ℕ} {j : In}
    → IsInput i
    → copy_size_and_data_from_buf alloc i ≡ some (bytes, j)
    → (header : List ℕ) × (le_value header ≡ length bytes)
      × IsInput j
      × Reads (4 + length bytes) (header ++ bytes) i j
unfolding copy_size_and_data_from_buf
copy_size_and_data-Reads alloc i {bytes} {j} w h =
    let ((size, k), e, f) = >>=-eq-some (copy_uint32_from_buf i) _ h in
    let (header, hv, u, r) = copy_uint32-Reads i w e in
    let (u', q) = sized_rest-Reads alloc size k u f in
    (header, hv ∙ sym q.size_eq, u', rw (q.size_eq) (Reads-append 4 size header bytes r q))
