-- ===== src/AuthorizationSet/Codec.antt =====
-- The serialization of AuthorizationSet: authorization_set.cpp. The indirect data come first, then the
-- number and the size of the parameters, and the parameters, each as its tag and its value; a byte
-- string is written as its length and its offset in the indirect data.
use platform_system_keymaste.Common.{
  ℕ, zero, suc, ◌+◌, ◌*◌, Bool, true, false, not, ◌||◌, List, [], ◌∷◌, ◌++◌, Option, none, some,
  length, ltb, ◌==◌, if◌then◌else◌, to_uint64,
}
use platform_system_keymaste.Defs.Tag.{
  TagType, km_invalid, km_enum, km_enum_rep, km_uint, km_uint_rep, km_ulong, km_ulong_rep, km_date,
  km_bool, km_bignum, km_bytes, Tag, tag_get_type, is_blob_tag,
}
use platform_system_keymaste.Wire.{
  Out, In, ◌>>=◌, append_uint32_to_buf, append_uint64_to_buf, append_size_and_data_to_buf,
  copy_uint32_from_buf, copy_uint64_from_buf, copy_size_and_data_from_buf,
}
use platform_system_keymaste.AuthorizationSet.{
  Value, enumerated, integer, long_integer, date_time, boolean, blob, enumerated_of, integer_of,
  long_integer_of, date_time_of, boolean_of, blob_of, Slice, null_slice, Elem, malformed_data,
  AuthorizationSet,
}
use platform_system_keymaste.AuthorizationSet.Memory.{Heap, free_data, set_invalid, reserve_elems}

-- The numbers of the tags, and the size of keymaster_key_param_t in memory.
pub record Layout : Type 0 where
  pub tag_code : Tag → ℕ
  pub tag_of_code : ℕ → Tag
  pub sizeof_param : ℕ

unfoldable pub size_of_type : TagType → ℕ
size_of_type km_invalid = 4
size_of_type km_enum = 8
size_of_type km_enum_rep = 8
size_of_type km_uint = 8
size_of_type km_uint_rep = 8
size_of_type km_ulong = 12
size_of_type km_ulong_rep = 12
size_of_type km_date = 12
size_of_type km_bool = 5
size_of_type km_bignum = 12
size_of_type km_bytes = 12

unfoldable pub serialized_size_of_elements : List Elem → ℕ
unfolding size_of_type
serialized_size_of_elements [] = 0
serialized_size_of_elements (e ∷ es) =
    size_of_type (tag_get_type e.tag) + serialized_size_of_elements es

unfoldable pub serialized_size : AuthorizationSet → ℕ
serialized_size s = 4 + length s.indirect_data + 4 + 4 + serialized_size_of_elements s.elems

abbrev pub byte_of : Bool → ℕ
byte_of true = 1
byte_of false = 0

-- The pointer moves even where the byte has no room.
unfoldable pub append_bool : Bool → Out → Out
append_bool b o =
    if ltb o.ptr o.end
    then record o { written = o.written ++ byte_of b ∷ []; ptr = o.ptr + 1 }
    else record o { ptr = o.ptr + 1 }

unfoldable pub append_slice : Slice → Out → Out
append_slice s o = append_uint32_to_buf s.offset (append_uint32_to_buf s.data_length o)

-- The value of a parameter whose tag has this type.
unfoldable pub append_value : TagType → Value Slice → Out → Out
unfolding append_bool append_slice
append_value km_invalid v o = o
append_value km_enum v o = append_uint32_to_buf (enumerated_of v) o
append_value km_enum_rep v o = append_uint32_to_buf (enumerated_of v) o
append_value km_uint v o = append_uint32_to_buf (integer_of v) o
append_value km_uint_rep v o = append_uint32_to_buf (integer_of v) o
append_value km_ulong v o = append_uint64_to_buf (long_integer_of v) o
append_value km_ulong_rep v o = append_uint64_to_buf (long_integer_of v) o
append_value km_date v o = append_uint64_to_buf (date_time_of v) o
append_value km_bool v o = append_bool (boolean_of v) o
append_value km_bignum v o = append_slice (blob_of null_slice v) o
append_value km_bytes v o = append_slice (blob_of null_slice v) o

unfoldable pub copy_bool : In → Option (Value Slice × In)
copy_bool i =
    if ltb i.ptr i.end
    then elim i.bytes [
      | [] ↦ none
      | b ∷ bs ↦ some (boolean (not (b == 0)), record i { bytes = bs; ptr = i.ptr + 1 })
    ]
    else none

-- A byte string has to lie inside the indirect data, which are so many bytes.
unfoldable pub copy_slice : ℕ → In → Option (Value Slice × In)
copy_slice indirect_size i = do
  (data_length, i') ← copy_uint32_from_buf i
  (offset, i'') ← copy_uint32_from_buf i'
  if ltb (to_uint64 (data_length + offset)) data_length
        || ltb indirect_size offset
        || ltb indirect_size (offset + data_length)
      then none
      else some (blob (record { offset = offset; data_length = data_length }), i'')

unfoldable pub copy_value : ℕ → TagType → In → Option (Value Slice × In)
unfolding copy_bool copy_slice
copy_value size km_invalid i = none
copy_value size km_enum i = do (n, j) ← copy_uint32_from_buf i; some (enumerated n, j)
copy_value size km_enum_rep i = do (n, j) ← copy_uint32_from_buf i; some (enumerated n, j)
copy_value size km_uint i = do (n, j) ← copy_uint32_from_buf i; some (integer n, j)
copy_value size km_uint_rep i = do (n, j) ← copy_uint32_from_buf i; some (integer n, j)
copy_value size km_ulong i = do (n, j) ← copy_uint64_from_buf i; some (long_integer n, j)
copy_value size km_ulong_rep i = do (n, j) ← copy_uint64_from_buf i; some (long_integer n, j)
copy_value size km_date i = do (n, j) ← copy_uint64_from_buf i; some (date_time n, j)
copy_value size km_bool i = copy_bool i
copy_value size km_bignum i = copy_slice size i
copy_value size km_bytes i = copy_slice size i

-- The number and the size of the parameters.
unfoldable pub copy_counts : In → Option (ℕ × ℕ × In)
copy_counts i = do
  (count, i') ← copy_uint32_from_buf i
  (size, i'') ← copy_uint32_from_buf i'
  some (count, size, i'')

module _ (layout : Layout) where
  open layout use {tag_code, tag_of_code, sizeof_param}

  unfoldable pub serialize_elem : Elem → Out → Out
  unfolding append_value
  serialize_elem e o =
      append_value (tag_get_type e.tag) e.value (append_uint32_to_buf (tag_code e.tag) o)

  unfoldable pub serialize_elems : List Elem → Out → Out
  unfolding serialize_elem
  serialize_elems [] o = o
  serialize_elems (e ∷ es) o = serialize_elems es (serialize_elem e o)

  unfoldable pub serialize : AuthorizationSet → Out → Out
  unfolding serialize_elems
  serialize s o = serialize_elems s.elems (
      append_uint32_to_buf (serialized_size_of_elements s.elems)
        (append_uint32_to_buf (length s.elems) (append_size_and_data_to_buf s.indirect_data o)))

  unfoldable pub deserialize_elem : ℕ → In → Option (Elem × In)
  unfolding copy_value
  deserialize_elem size i = do
    (code, i') ← copy_uint32_from_buf i
    (v, i'') ← copy_value size (tag_get_type (tag_of_code code)) i'
    some (record { tag = tag_of_code code; value = v }, i'')

  unfoldable pub deserialize_elems : ℕ → ℕ → In → Option (List Elem × In)
  unfolding deserialize_elem
  deserialize_elems size zero i = some ([], i)
  deserialize_elems size (suc n) i = do
    (e, i') ← deserialize_elem size i
    (es, i'') ← deserialize_elems size n i'
    some (e ∷ es, i'')

  -- The checks on the number and the size of the parameters.
  unfoldable pub is_malformed : ℕ → ℕ → In → Bool
  is_malformed elements_count elements_size i =
      ltb i.end (i.ptr + elements_size)
      || ltb elements_size (elements_count * 4)
      || ltb (to_uint64 (i.ptr + elements_count * sizeof_param)) i.ptr

  -- The parameters are read up to the end that their size gives, and put in the set.
  unfoldable pub read_elements : ℕ → ℕ → In → AuthorizationSet × Bool → AuthorizationSet × Option In
  unfolding deserialize_elems set_invalid free_data
  read_elements count size i (s, false) = (s, none)
  read_elements count size i (s, true) =
      elim (deserialize_elems (length s.indirect_data) count (record i { end = i.ptr + size })) [
        | none ↦ (set_invalid malformed_data s, none)
        | some (es, i') ↦ (record s { elems = es }, some (record i' { end = i.end }))
      ]

  unfoldable pub checked_elements :
      Heap → AuthorizationSet → Option (ℕ × ℕ × In) → AuthorizationSet × Option In
  unfolding is_malformed read_elements set_invalid free_data
  checked_elements heap s none = (set_invalid malformed_data s, none)
  checked_elements heap s (some (count, size, i)) =
      if is_malformed count size i
      then (set_invalid malformed_data s, none)
      else read_elements count size i (reserve_elems heap count s)

  unfoldable pub deserialize_elements_data :
      Heap → AuthorizationSet → In → AuthorizationSet × Option In
  unfolding checked_elements copy_counts
  deserialize_elements_data heap s i = checked_elements heap s (copy_counts i)

-- The new array has the size of the data, and `indirect_data_capacity_` stays as it is.
unfoldable pub deserialize_indirect_data :
    Heap → AuthorizationSet → In → AuthorizationSet × Option In
unfolding set_invalid free_data
deserialize_indirect_data heap s i = elim (copy_size_and_data_from_buf heap.alloc_bytes i) [
  | none ↦ (set_invalid malformed_data s, none)
  | some (bytes, i') ↦
      (record s { indirect_data = bytes; indirect_allocated = length bytes }, some i')
]

-- `ComputeIndirectDataSize` of the set's own parameters.
unfoldable pub data_lengths : List Elem → ℕ
data_lengths [] = 0
data_lengths (e ∷ es) =
    let rest = data_lengths es in
    if is_blob_tag e.tag then (blob_of null_slice e.value).data_length + rest else rest

unfoldable pub check_data_size : AuthorizationSet × Option In → AuthorizationSet × Option In
unfolding data_lengths set_invalid free_data
check_data_size (s, none) = (s, none)
check_data_size (s, some i) =
    if length s.indirect_data == data_lengths s.elems
    then (s, some i)
    else (set_invalid malformed_data s, none)

module _ (layout : Layout) (heap : Heap) where
  unfoldable pub deserialize_elements : AuthorizationSet × Option In → AuthorizationSet × Option In
  unfolding deserialize_elements_data
  deserialize_elements (s, none) = (s, none)
  deserialize_elements (s, some i) = deserialize_elements_data layout heap s i

  -- `Deserialize`: the set, and the rest of the input, or none for false.
  unfoldable pub deserialize : AuthorizationSet → In → AuthorizationSet × Option In
  unfolding check_data_size deserialize_elements deserialize_indirect_data free_data
  deserialize s i =
      check_data_size (deserialize_elements (deserialize_indirect_data heap (free_data s) i))
