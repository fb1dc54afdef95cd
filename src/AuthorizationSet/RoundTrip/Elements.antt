-- ===== src/AuthorizationSet/RoundTrip/Elements.antt =====
-- The parameters of a set, as `Serialize` of authorization_set.cpp writes them, are read back.
use platform_system_keymaste.Common.{
  ℕ, ◌+◌, ◌≤◌, ◌<◌, ◌≡◌, refl, ap, Bool, true, false, List, [], ◌∷◌, ◌++◌, Option, none, some,
  arith, length-append, ltb, ◌||◌, to_uint64, if◌then◌else◌,
}
use platform_system_keymaste.Defs.Tag.{
  TagType, km_invalid, km_enum, km_enum_rep, km_uint, km_uint_rep, km_ulong, km_ulong_rep, km_date,
  km_bool, km_bignum, km_bytes,
}
use platform_system_keymaste.Wire.{In, ◌>>=◌, append_uint32_to_buf, copy_uint32_from_buf}
use platform_system_keymaste.Wire.RoundTrip.{input}
use platform_system_keymaste.Wire.Carries.{Carries, Writes-then, Yields-bind, Carries-one}
use platform_system_keymaste.Wire.Carries.Primitives.{uint32-Carries, uint64-Carries}
use platform_system_keymaste.AuthorizationSet.{
  Value, enumerated, integer, long_integer, date_time, boolean, blob, Slice,
}
use platform_system_keymaste.AuthorizationSet.Codec.{
  append_bool, append_slice, append_value, copy_bool, byte_of, copy_slice, copy_value,
}

-- A value is the member of the union that the type says, and fits in its field; a byte string lies in
-- the indirect data.
abbrev pub IsWireValue : ℕ → TagType → Value Slice → Type 0
IsWireValue size km_enum (enumerated n) = n < 0x1_0000_0000
IsWireValue size km_enum_rep (enumerated n) = n < 0x1_0000_0000
IsWireValue size km_uint (integer n) = n < 0x1_0000_0000
IsWireValue size km_uint_rep (integer n) = n < 0x1_0000_0000
IsWireValue size km_ulong (long_integer n) = n < 0x1_0000_0000_0000_0000
IsWireValue size km_ulong_rep (long_integer n) = n < 0x1_0000_0000_0000_0000
IsWireValue size km_date (date_time n) = n < 0x1_0000_0000_0000_0000
IsWireValue size km_bool (boolean b) = Unit
IsWireValue size km_bignum (blob s) = (s.offset + s.data_length ≤ size) × (size < 0x1_0000_0000)
IsWireValue size km_bytes (blob s) = (s.offset + s.data_length ≤ size) × (size < 0x1_0000_0000)
IsWireValue size _ _ = ⊥

unfoldable pub value_size : TagType → ℕ
value_size km_invalid = 0
value_size km_enum = 4
value_size km_enum_rep = 4
value_size km_uint = 4
value_size km_uint_rep = 4
value_size km_ulong = 8
value_size km_ulong_rep = 8
value_size km_date = 8
value_size km_bool = 1
value_size km_bignum = 8
value_size km_bytes = 8

-- What `copy_slice` makes of a length and an offset that it has read.
abbrev pub checked_slice : ℕ → ℕ → ℕ → In → Option (Value Slice × In)
checked_slice size data_length offset i =
    if ltb (to_uint64 (data_length + offset)) data_length
      || ltb size offset
      || ltb size (offset + data_length)
    then none
    else some (blob (record { offset = offset; data_length = data_length }), i)

checked_slice-inside :
    (size data_length offset : ℕ) (i : In)
    → offset + data_length ≤ size
    → size < 0x1_0000_0000
    → checked_slice size data_length offset i
      ≡ some (blob (record { offset = offset; data_length = data_length }), i)
checked_slice-inside size data_length offset i h small = ground arith

slice-Carries :
    (s : Slice) (size : ℕ)
    → s.offset + s.data_length ≤ size
    → size < 0x1_0000_0000
    → Carries 8 (append_slice s) (copy_slice size) (λ w. w ≡ blob s)
unfolding append_slice copy_slice
slice-Carries s size h small =
    let x = uint32-Carries s.data_length (omega arith) in
    let y = uint32-Carries s.offset (omega arith) in
    record {
      bytes = x.bytes ++ y.bytes;
      length_eq = omega (arith, length-append x.bytes y.bytes, x.length_eq, y.length_eq);
      writes =
          Writes-then (append_uint32_to_buf s.data_length) (append_uint32_to_buf s.offset) x.bytes
            y.bytes x.writes y.writes;
      yields =
          Yields-bind copy_uint32_from_buf
            (λ n i.
              ◌>>=◌ {B = Value Slice × In} (copy_uint32_from_buf i)
                (λ p. checked_slice size n p.0 p.1))
            (λ w. w ≡ s.data_length) (λ w. w ≡ blob s) x.bytes y.bytes x.yields
            (λ n e rest ptr end room low.
              let (m, e', e'') = y.yields rest ptr end room low in
              (
                blob s,
                rw (e, e', e'') (checked_slice-inside size s.data_length s.offset _ h small),
                refl,
              ));
    }

copy_bool-byte_of :
    (b : Bool) (rest : List ℕ) (ptr end : ℕ)
    → ptr + 1 ≤ end
    → copy_bool (input (byte_of b ∷ rest) ptr end) ≡ some (boolean b, input rest (ptr + 1) end)
unfolding copy_bool
copy_bool-byte_of true rest ptr end room = ground arith
copy_bool-byte_of false rest ptr end room = ground arith

bool-Carries : (b : Bool) → Carries 1 (append_bool b) copy_bool (λ w. w ≡ boolean b)
unfolding append_bool
bool-Carries b = record {
  bytes = byte_of b ∷ [];
  length_eq = refl;
  writes = λ o room. ground arith;
  yields =
      λ rest ptr end room low. (boolean b, copy_bool-byte_of b rest ptr end (omega arith), refl);
}

pub value-Carries :
    (size : ℕ) (t : TagType) (v : Value Slice)
    → IsWireValue size t v
    → Carries (value_size t) (append_value t v) (copy_value size t) (λ w. w ≡ v)
unfolding value_size append_value copy_value
value-Carries size km_enum (enumerated n) h =
    Carries-one (λ n. enumerated n) _ (uint32-Carries n h) (λ a p. ap (λ n. enumerated n) p)
value-Carries size km_enum_rep (enumerated n) h =
    Carries-one (λ n. enumerated n) _ (uint32-Carries n h) (λ a p. ap (λ n. enumerated n) p)
value-Carries size km_uint (integer n) h =
    Carries-one (λ n. integer n) _ (uint32-Carries n h) (λ a p. ap (λ n. integer n) p)
value-Carries size km_uint_rep (integer n) h =
    Carries-one (λ n. integer n) _ (uint32-Carries n h) (λ a p. ap (λ n. integer n) p)
value-Carries size km_ulong (long_integer n) h =
    Carries-one (λ n. long_integer n) _ (uint64-Carries n h) (λ a p. ap (λ n. long_integer n) p)
value-Carries size km_ulong_rep (long_integer n) h =
    Carries-one (λ n. long_integer n) _ (uint64-Carries n h) (λ a p. ap (λ n. long_integer n) p)
value-Carries size km_date (date_time n) h =
    Carries-one (λ n. date_time n) _ (uint64-Carries n h) (λ a p. ap (λ n. date_time n) p)
value-Carries size km_bool (boolean b) h = bool-Carries b
value-Carries size km_bignum (blob s) h = slice-Carries s size h.0 h.1
value-Carries size km_bytes (blob s) h = slice-Carries s size h.0 h.1
value-Carries size _ _ h = absurd h
