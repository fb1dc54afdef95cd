-- ===== src/AuthorizationSet/Examples.antt =====
-- Tests of AuthorizationSet, and its theorems at concrete inputs.
use platform_system_keymaste.Common.{
  ℕ, ◌+◌, ◌++◌, ◌≡◌, ◌⊎◌, refl, true, [], ◌∷◌, some, arith, length, get_elem?,
}
use platform_system_keymaste.Defs.Tag.{Tag, is_blob_tag}
use platform_system_keymaste.AuthorizationSet.{
  enumerated, blob, enumerated_of, Param, Elem, ok, AuthorizationSet,
}
use platform_system_keymaste.AuthorizationSet.Memory.{Heap, push_back}
use platform_system_keymaste.AuthorizationSet.Contents.{IsValid}
use platform_system_keymaste.AuthorizationSet.Push.{IsSmall, Pushed, contents-push_back}
use platform_system_keymaste.AuthorizationSet.Query.{
  get_tag_count, get_tag_value, get_tag_value_rep,
}
use platform_system_keymaste.AuthorizationSet.Lookup.{
  having, member_of, get_tag_count_lem, get_tag_value_lem, get_tag_value_rep_lem,
}
use platform_system_keymaste.Defs.Tag.{tag_get_type, is_blob_type}
use platform_system_keymaste.Common.{none, false}
use platform_system_keymaste.AuthorizationSet.{empty_set}
use platform_system_keymaste.Wire.{
  In, copy_from_buf, copy_uint32_from_buf, copy_size_and_data_from_buf, le_value,
}
use platform_system_keymaste.AuthorizationSet.Memory.{reserve_elems, free_data}
use platform_system_keymaste.AuthorizationSet.Push.{failed}
use platform_system_keymaste.AuthorizationSet.Codec.{
  Layout, serialized_size_of_elements, size_of_type, copy_value, copy_slice, deserialize_elem,
  deserialize_elems, is_malformed, read_elements, copy_counts, checked_elements,
  deserialize_elements_data, deserialize_elements, deserialize_indirect_data, data_lengths,
  check_data_size, deserialize,
}
use platform_system_keymaste.Wire.RoundTrip.{input, output}
use platform_system_keymaste.AuthorizationSet.Codec.{serialized_size, serialize}
use platform_system_keymaste.AuthorizationSet.RoundTrip.{deserialize-serialize-SameSet}
use platform_system_keymaste.AuthorizationSet.RoundTrip.Whole.{SameSet, IsPlenty, IsWritable}
use platform_system_keymaste.AuthorizationSet.Deserialized.{IsRead, deserialize-IsRead}
use platform_system_keymaste.AuthorizationSet.Deserialized.Overflow.{push_back-outside}

abbrev plenty : Heap
plenty = record { alloc_elems = λ n. true; alloc_bytes = λ n. true }

abbrev purpose_entry : ℕ → Elem
purpose_entry n = record { tag = Tag.purpose; value = enumerated n }

abbrev nonce_entry : Elem
nonce_entry = record { tag = Tag.nonce; value = blob (record { offset = 0; data_length = 2 }) }

-- Two purposes and a nonce of two bytes, with the arrays full.
abbrev sample : AuthorizationSet
sample = record {
  elems = purpose_entry 2 ∷ nonce_entry ∷ purpose_entry 3 ∷ [];
  elems_capacity = 3;
  indirect_data = 7 ∷ 8 ∷ [];
  indirect_data_capacity = 2;
  indirect_allocated = 2;
  error = ok;
}

sample-IsValid : IsValid sample
sample-IsValid = record {
  elems_fit = omega arith;
  data_fit = omega arith;
  allocated = omega arith;
  slices = (omega arith, (omega arith, (omega arith, tt)));
}

abbrev app_id : Param
app_id = record { tag = Tag.application_id; value = blob (9 ∷ []) }

sample-IsSmall : IsSmall app_id sample
sample-IsSmall = record { elems_small = omega arith; data_small = omega arith }

contents-push_back_example : Pushed plenty app_id sample (push_back plenty app_id sample)
unfolding is_blob_tag
contents-push_back_example =
    contents-push_back plenty app_id sample tt sample-IsValid sample-IsSmall refl

get_tag_count_example :
    get_tag_count sample Tag.purpose ≡ some (length (having Tag.purpose sample.elems))
get_tag_count_example = get_tag_count_lem sample refl Tag.purpose

get_tag_value_example :
    get_tag_value (λ v. enumerated_of v) sample Tag.purpose
    ≡ member_of (λ v. enumerated_of v) (get_elem? (having Tag.purpose sample.elems) 0)
get_tag_value_example = get_tag_value_lem (λ v. enumerated_of v) sample refl Tag.purpose

get_tag_value_rep_example :
    get_tag_value_rep (λ v. enumerated_of v) sample Tag.purpose 1
    ≡ member_of (λ v. enumerated_of v) (get_elem? (having Tag.purpose sample.elems) 1)
get_tag_value_rep_example = get_tag_value_rep_lem (λ v. enumerated_of v) sample refl Tag.purpose 1

abbrev layout : Layout
layout = record { tag_code = λ t. 1; tag_of_code = λ n. Tag.nonce; sizeof_param = 24 }

-- One parameter, a nonce of two bytes.
abbrev nonce_bytes : In
nonce_bytes = record {
  bytes =
      2 ∷ 0 ∷ 0 ∷ 0 ∷ 7 ∷ 8 ∷ 1 ∷ 0 ∷ 0 ∷ 0 ∷ 12 ∷ 0 ∷ 0 ∷ 0 ∷ 2 ∷ 0 ∷ 0 ∷ 0 ∷ 2 ∷ 0 ∷ 0 ∷ 0 ∷ 0 ∷ 0
      ∷ 0 ∷ 0 ∷ [];
  ptr = 100;
  end = 126;
}

nonce_bytes_read :
    (deserialize layout plenty empty_set nonce_bytes).1
    ≡ some (record { bytes = []; ptr = 126; end = 126 })
unfolding deserialize check_data_size deserialize_elements deserialize_indirect_data free_data
    copy_size_and_data_from_buf copy_uint32_from_buf copy_from_buf le_value
    deserialize_elements_data copy_counts checked_elements is_malformed read_elements reserve_elems
    deserialize_elems deserialize_elem copy_value copy_slice tag_get_type data_lengths is_blob_tag
    is_blob_type
nonce_bytes_read = refl

deserialize-IsRead_example : IsRead (deserialize layout plenty empty_set nonce_bytes).0
deserialize-IsRead_example =
    deserialize-IsRead layout plenty empty_set nonce_bytes
      (record { bytes = []; ptr = 126; end = 126 }) nonce_bytes_read

-- What those bytes are read as.
abbrev read_set : AuthorizationSet
read_set = record {
  elems = nonce_entry ∷ [];
  elems_capacity = 1;
  indirect_data = 7 ∷ 8 ∷ [];
  indirect_data_capacity = 0;
  indirect_allocated = 2;
  error = ok;
}

read_set_eq : (deserialize layout plenty empty_set nonce_bytes).0 ≡ read_set
unfolding deserialize check_data_size deserialize_elements deserialize_indirect_data free_data
    copy_size_and_data_from_buf copy_uint32_from_buf copy_from_buf le_value
    deserialize_elements_data copy_counts checked_elements is_malformed read_elements reserve_elems
    deserialize_elems deserialize_elem copy_value copy_slice tag_get_type data_lengths is_blob_tag
    is_blob_type
read_set_eq = refl

read_set-IsRead : IsRead read_set
unfolding data_lengths is_blob_tag is_blob_type tag_get_type
read_set-IsRead = record {
  good = refl;
  elems_fit = omega arith;
  slices = (omega arith, tt);
  data_size = refl;
  no_capacity = refl;
  allocated = refl;
}

push_back-outside_example :
    (push_back plenty app_id read_set ≡ none)
    ⊎ (push_back plenty app_id read_set ≡ some (failed, false))
unfolding is_blob_tag is_blob_type tag_get_type
push_back-outside_example =
    push_back-outside plenty app_id read_set read_set-IsRead refl (omega arith) (omega arith)
      (omega arith) (omega arith) (omega arith)

read_set-IsWritable : IsWritable layout read_set
unfolding data_lengths is_blob_tag is_blob_type tag_get_type serialized_size_of_elements
    size_of_type
read_set-IsWritable = record {
  elems_ok =
      (record { tag_eq = refl; word = omega arith; value_ok = (omega arith, omega arith) }, tt);
  data_small = omega arith;
  elems_small = omega arith;
  array_small = omega arith;
  data_used = refl;
}

plenty-IsPlenty : IsPlenty plenty
plenty-IsPlenty = record { elems_given = λ n. refl; bytes_given = λ n. refl }

deserialize-serialize-SameSet_example :
    let o = serialize layout read_set (output 100 200) in
    let d = deserialize layout plenty sample (input (o.written ++ []) 100 200) in
    (o.ptr ≡ 100 + serialized_size read_set)
    × SameSet read_set d.0
    × (d.1 ≡ some (input [] o.ptr 200))
unfolding serialized_size serialized_size_of_elements size_of_type tag_get_type
deserialize-serialize-SameSet_example =
    deserialize-serialize-SameSet layout plenty read_set sample [] 100 200 read_set-IsWritable
      plenty-IsPlenty (omega arith) (omega arith)
