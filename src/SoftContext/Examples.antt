-- ===== src/SoftContext/Examples.antt =====
-- The upgrade of a key at a concrete input.
use platform_system_keymaste.Common.{
  none, ◌⊎◌, ℕ, ◌≡◌, refl, true, false, List, [], ◌∷◌, ◌++◌, some, arith,
}
use platform_system_keymaste.Defs.Tag.{Tag, tag_get_type, same_tag, is_blob_tag, is_blob_type}
use platform_system_keymaste.Defs.Codes.{KeymasterError, is_ok}
use platform_system_keymaste.Wire.{
  le_bytes, append_to_buf, append_uint32_to_buf, append_size_and_data_to_buf,
}
use platform_system_keymaste.AuthorizationSet.{integer, AuthorizationSet, empty_set}
use platform_system_keymaste.AuthorizationSet.Memory.{
  push_back, make_room, make_indirect_room, reserve_elems, reserve_indirect, store_elem, store_blob,
  append_elem, stored, copy_indirect,
}
use platform_system_keymaste.AuthorizationSet.Query.{
  find, find_loop, contains, get_tag_value, get_tag_value_blob,
}
use platform_system_keymaste.AuthorizationSet.Codec.{
  serialize, serialize_elems, serialize_elem, append_value, serialized_size,
  serialized_size_of_elements, size_of_type,
}
use platform_system_keymaste.AndroidKeymaster.{success, Parsed}
use platform_system_keymaste.KeyBlob.{
  Vault, compute_hmac, hidden_bytes, blob_size, blob_body, key_material_size, serialize_material,
  serialize_blob,
}
use platform_system_keymaste.AuthorizationSet.RoundTrip.Whole.{IsPlenty}
use platform_system_keymaste.SoftContext.{
  SoftContext, set_integer, upgrade_integer_tag, translate_error, push_blob, push_present,
  build_hidden_authorizations, zero_os_version, store_upgraded, patchlevel_upgraded,
  version_upgraded, upgrade_parsed, upgrade_key_blob,
}
use platform_system_keymaste.SoftContext.{Upgraded}
use platform_system_keymaste.SoftContext.Versions.{Raises, upgrade_integer_tag-Raises}
use platform_system_keymaste.SoftContext.Upgrade.{IsStored, IsUpgraded, upgrade_key_blob-IsUpgraded}

abbrev mac_bytes : List ℕ
mac_bytes = 1 ∷ 2 ∷ 3 ∷ 4 ∷ 5 ∷ 6 ∷ 7 ∷ 8 ∷ []

abbrev vault : Vault
vault = record {
  layout = record { tag_code = λ t. 1; tag_of_code = λ n. Tag.nonce; sizeof_param = 24 };
  heap = record { alloc_elems = λ n. true; alloc_bytes = λ n. true };
  hmac = λ bytes. some mac_bytes;
  ssl_error = KeymasterError.unknown_error;
  blob_address = 1000;
  hidden_address = 2000;
}

vault-IsPlenty : IsPlenty vault.heap
vault-IsPlenty = record { elems_given = λ n. refl; bytes_given = λ n. refl }

-- A key of version 7.0.0 and a patch level of January 2017.
abbrev old_key : Parsed
old_key = record {
  key_material = 9 ∷ [];
  hw_enforced = empty_set;
  sw_enforced = record empty_set {
    elems =
        record { tag = Tag.os_version; value = integer 70000 }
        ∷ record { tag = Tag.os_patchlevel; value = integer 201701 }
        ∷ [];
    elems_capacity = 2;
  };
}

abbrev context : SoftContext
context = record {
  vault = vault;
  root_of_trust = 5 ∷ [];
  os_version = 80000;
  os_patchlevel = 201801;
  has_km1_device = false;
  parse_key_blob = λ bytes params. success old_key;
}

abbrev no_params : List ℕ
no_params = 0 ∷ 0 ∷ 0 ∷ 0 ∷ 0 ∷ 0 ∷ 0 ∷ 0 ∷ 0 ∷ 0 ∷ 0 ∷ 0 ∷ []

abbrev new_versions : List ℕ
new_versions =
    0 ∷ 0 ∷ 0 ∷ 0 ∷ 2 ∷ 0 ∷ 0 ∷ 0 ∷ 16 ∷ 0 ∷ 0 ∷ 0 ∷ 1 ∷ 0 ∷ 0 ∷ 0 ∷ 128 ∷ 56 ∷ 1 ∷ 0 ∷ 1 ∷ 0 ∷ 0
    ∷ 0 ∷ 73 ∷ 20 ∷ 3 ∷ 0 ∷ []

abbrev new_blob : List ℕ
new_blob = 0 ∷ 1 ∷ 0 ∷ 0 ∷ 0 ∷ 9 ∷ (no_params ++ new_versions ++ mac_bytes)

upgraded_eq : upgrade_key_blob context [] empty_set ≡ some (success (some new_blob))
unfolding upgrade_key_blob upgrade_parsed zero_os_version version_upgraded patchlevel_upgraded
    store_upgraded upgrade_integer_tag set_integer build_hidden_authorizations push_present
    push_blob translate_error find find_loop contains get_tag_value get_tag_value_blob same_tag
    is_ok tag_get_type is_blob_tag is_blob_type push_back append_elem make_room make_indirect_room
    reserve_elems reserve_indirect store_elem store_blob stored copy_indirect serialize_blob
    compute_hmac blob_size blob_body key_material_size serialize_material hidden_bytes serialize
    serialize_elems serialize_elem append_value serialized_size serialized_size_of_elements
    size_of_type le_bytes append_to_buf append_uint32_to_buf append_size_and_data_to_buf
upgraded_eq = refl

upgrade_key_blob-IsUpgraded_example :
    (p : Parsed) × (sw' : AuthorizationSet) × (context.parse_key_blob [] empty_set ≡ success p)
    × IsUpgraded context p.sw_enforced sw'
    × (((some new_blob ≡ none) × (sw' ≡ p.sw_enforced))
        ⊎ IsStored context empty_set p sw' (some new_blob))
upgrade_key_blob-IsUpgraded_example =
    upgrade_key_blob-IsUpgraded context vault-IsPlenty empty_set [] (some new_blob)
      (λ p e. old_key_good p e) upgraded_eq
  where
    old_key_good :
        (p : Parsed)
        → success old_key ≡ success p
        → p.sw_enforced.error ≡ platform_system_keymaste.AuthorizationSet.ok
    old_key_good p e = ground arith

abbrev old_set : AuthorizationSet
old_set = old_key.sw_enforced

upgrade_integer_tag-Raises_example :
    (u : Upgraded) × (upgrade_integer_tag vault.heap Tag.key_size 256 old_set false ≡ some u)
    × Raises Tag.key_size 256 old_set false u
unfolding is_blob_tag is_blob_type tag_get_type
upgrade_integer_tag-Raises_example =
    upgrade_integer_tag-Raises vault.heap Tag.key_size 256 old_set false vault-IsPlenty refl refl
      (omega arith, omega arith)
