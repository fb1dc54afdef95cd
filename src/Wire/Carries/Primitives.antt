-- ===== src/Wire/Carries/Primitives.antt =====
-- The serializers of serializable.h, as a write and a read of the same value.
use platform_system_keymaste.Common.{
  ℕ, ◌+◌, ◌*◌, ◌/◌, ◌<◌, ◌≡◌, refl, ap, ◌∙◌, true, Bool, List, ◌++◌, append_assoc, some, arith,
  length, All, length-append, uint32_max,
}
use platform_system_keymaste.Wire.{
  le_bytes, append_uint32_to_buf, append_uint64_to_buf, append_size_and_data_to_buf,
  append_uint32_array_to_buf, copy_uint32_from_buf, copy_uint64_from_buf,
  copy_size_and_data_from_buf, copy_uint32_array_from_buf,
}
use platform_system_keymaste.Wire.RoundTrip.{
  input, sized, words, IsWord, length-le_bytes, length-words, append_uint32_fits,
  append_uint64_fits, append_size_and_data_fits, append_uint32_array_fits, copy_uint32_append,
  copy_uint64_append, copy_size_and_data_append, copy_uint32_array_append,
}
use platform_system_keymaste.Wire.Carries.{Carries}

pub uint32-Carries :
    (v : ℕ)
    → v < 0x1_0000_0000
    → Carries 4 (append_uint32_to_buf v) copy_uint32_from_buf (λ w. w ≡ v)
uint32-Carries v h = record {
  bytes = le_bytes 4 v;
  length_eq = length-le_bytes 4 v;
  writes = λ o room. append_uint32_fits v o h (omega (arith, length-le_bytes 4 v));
  yields = λ rest ptr end room low. (
    v,
    rw length-le_bytes
        (copy_uint32_append v rest ptr end h (omega (arith, length-le_bytes 4 v)) (omega arith)),
    refl,
  );
}

pub uint64-Carries :
    (v : ℕ)
    → v < 0x1_0000_0000_0000_0000
    → Carries 8 (append_uint64_to_buf v) copy_uint64_from_buf (λ w. w ≡ v)
uint64-Carries v h = record {
  bytes = le_bytes 8 v;
  length_eq = length-le_bytes 8 v;
  writes = λ o room. append_uint64_fits v o (omega (arith, length-le_bytes 8 v));
  yields = λ rest ptr end room low. (
    v,
    rw length-le_bytes
        (copy_uint64_append v rest ptr end h (omega (arith, length-le_bytes 8 v)) (omega arith)),
    refl,
  );
}

module _ (alloc : ℕ → Bool) (can : (n : ℕ) → alloc n ≡ true) where
  pub sized-Carries :
      (data' : List ℕ)
      → length data' < 0x1_0000_0000
      → Carries
          (4 + length data')
          (append_size_and_data_to_buf data')
          (copy_size_and_data_from_buf alloc)
          (λ w. w ≡ data')
  sized-Carries data' h =
      let len = length-append (le_bytes 4 (length data')) data' in
      let four = length-le_bytes 4 (length data') in
      record {
        bytes = sized data';
        length_eq = omega (arith, len, four);
        writes = λ o room. append_size_and_data_fits data' o h (omega (arith, len, four));
        yields = λ rest ptr end room low. (
          data',
          copy_size_and_data_append alloc data' rest ptr end can h (omega (arith, len, four))
                (omega arith)
              ∙ ap (λ n. some (data', input rest n end)) (omega (arith, len, four)),
          refl,
        );
      }

  pub uint32_array-Carries :
      (vs : List ℕ)
      → All IsWord vs
      → length vs < uint32_max / 4
      → Carries
          (4 + length vs * 4)
          (append_uint32_array_to_buf vs)
          (copy_uint32_array_from_buf alloc)
          (λ w. w ≡ vs)
  uint32_array-Carries vs h small =
      let len = length-append (le_bytes 4 (length vs)) (words vs) in
      let four = length-le_bytes 4 (length vs) in
      let many = length-words vs in
      record {
        bytes = le_bytes 4 (length vs) ++ words vs;
        length_eq = omega (arith, len, four, many);
        writes = λ o room. append_uint32_array_fits vs o h small (omega (arith, len, four, many));
        yields = λ rest ptr end room low. (
          vs,
          ap (λ xs. copy_uint32_array_from_buf alloc (input xs ptr end))
                (append_assoc (le_bytes 4 (length vs)) (words vs) rest)
              ∙ copy_uint32_array_append alloc vs rest ptr end can h small
                  (omega (arith, len, four, many)) (omega arith)
              ∙ ap (λ n. some (vs, input rest n end)) (omega (arith, len, four, many)),
          refl,
        );
      }
