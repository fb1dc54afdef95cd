-- ===== src/KeyBlob/Examples.antt =====
-- The theorems on key blobs at concrete inputs.
use platform_system_keymaste.Common.{ℕ, ◌≡◌, refl, true, List, [], ◌∷◌, ◌++◌, some, arith, length}
use platform_system_keymaste.Defs.Tag.{Tag}
use platform_system_keymaste.Defs.Codes.{KeymasterError}
use platform_system_keymaste.Wire.{
  le_value, copy_from_buf, copy_uint32_from_buf, copy_size_and_data_from_buf,
}
use platform_system_keymaste.AuthorizationSet.{empty_set}
use platform_system_keymaste.AuthorizationSet.Memory.{free_data, reserve_elems}
use platform_system_keymaste.AuthorizationSet.Codec.{
  serialized_size, serialized_size_of_elements, copy_counts, deserialize_elems, is_malformed,
  read_elements, checked_elements, deserialize_elements_data, deserialize_elements,
  deserialize_indirect_data, data_lengths, check_data_size, deserialize,
}
use platform_system_keymaste.AuthorizationSet.RoundTrip.Whole.{copy_set, IsPlenty, IsWritable}
use platform_system_keymaste.AndroidKeymaster.{success, Parsed}
use platform_system_keymaste.KeyBlob.{
  Vault, same_bytes, compute_hmac, blob_size, key_material_size, serialize_blob, copy_parts,
  deserialize_unchecked, deserialize_blob,
}
use platform_system_keymaste.KeyBlob.Integrity.{IsSealed, deserialize_blob-IsSealed}
use platform_system_keymaste.KeyBlob.RoundTrip.{
  HasMac, IsStorable, SameParts, deserialize_blob-serialize_blob,
}

abbrev mac_bytes : List ℕ
mac_bytes = 1 ∷ 2 ∷ 3 ∷ 4 ∷ 5 ∷ 6 ∷ 7 ∷ 8 ∷ []

abbrev vault : Vault
vault = record {
  layout = record { tag_code = λ t. 1; tag_of_code = λ n. Tag.nonce; sizeof_param = 24 };
  heap = record { alloc_elems = λ n. true; alloc_bytes = λ n. true };
  hmac = λ bytes. some mac_bytes;
  ssl_error = KeymasterError.unknown_error;
  blob_address = 1000;
  hidden_address = 2000;
}

vault-IsPlenty : IsPlenty vault.heap
vault-IsPlenty = record { elems_given = λ n. refl; bytes_given = λ n. refl }

vault-HasMac : HasMac vault
vault-HasMac = record {
  mac_of = λ bytes. mac_bytes;
  hmac_eq = λ bytes. refl;
  mac_long = λ bytes. omega arith;
}

empty_set-IsWritable : IsWritable vault.layout empty_set
unfolding data_lengths serialized_size_of_elements
empty_set-IsWritable = record {
  elems_ok = tt;
  data_small = omega arith;
  elems_small = omega arith;
  array_small = omega arith;
  data_used = refl;
}

stored-IsStorable : IsStorable vault (9 ∷ []) empty_set empty_set
unfolding blob_size key_material_size serialized_size serialized_size_of_elements
stored-IsStorable = record {
  material_small = omega arith;
  hw_writable = empty_set-IsWritable;
  sw_writable = empty_set-IsWritable;
  low = omega arith;
}

deserialize_blob-serialize_blob_example :
    (blob : List ℕ) × (serialize_blob vault (9 ∷ []) empty_set empty_set empty_set ≡ success blob)
    × (length blob ≡ blob_size (9 ∷ []) empty_set empty_set)
    × ((p : Parsed) × (deserialize_blob vault 3000 blob empty_set ≡ success p)
        × SameParts (9 ∷ []) empty_set empty_set p)
unfolding blob_size key_material_size serialized_size serialized_size_of_elements
deserialize_blob-serialize_blob_example =
    deserialize_blob-serialize_blob vault (9 ∷ []) empty_set empty_set empty_set 3000 vault-IsPlenty
      vault-HasMac stored-IsStorable (omega arith)

abbrev no_params : List ℕ
no_params = 0 ∷ 0 ∷ 0 ∷ 0 ∷ 0 ∷ 0 ∷ 0 ∷ 0 ∷ 0 ∷ 0 ∷ 0 ∷ 0 ∷ []

abbrev stored : List ℕ
stored = 0 ∷ 1 ∷ 0 ∷ 0 ∷ 0 ∷ 9 ∷ (no_params ++ no_params ++ mac_bytes)

abbrev stored_parts : Parsed
stored_parts = record { key_material = 9 ∷ []; hw_enforced = empty_set; sw_enforced = empty_set }

stored_read : deserialize_blob vault 3000 stored empty_set ≡ success stored_parts
unfolding deserialize_blob deserialize_unchecked compute_hmac same_bytes copy_parts copy_set
    copy_size_and_data_from_buf copy_uint32_from_buf copy_from_buf le_value deserialize
    check_data_size deserialize_elements deserialize_indirect_data free_data
    deserialize_elements_data copy_counts checked_elements is_malformed read_elements reserve_elems
    deserialize_elems data_lengths
stored_read = refl

deserialize_blob-IsSealed_example : IsSealed vault 3000 stored empty_set stored_parts
deserialize_blob-IsSealed_example =
    deserialize_blob-IsSealed vault 3000 stored empty_set stored_parts stored_read
