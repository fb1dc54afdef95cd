-- ===== src/KeyBlob.antt =====
-- The integrity-assured key blobs of integrity_assured_key_blob.cpp: a version, the key material, the
-- two sets of authorizations, and a MAC over these and the hidden authorizations. A KeymasterKeyBlob is
-- the list of its bytes.
pub mod RoundTrip
pub mod Integrity
mod Examples
use platform_system_keymaste.Common.{
  ℕ, ◌+◌, ◌-◌, Bool, true, false, not, ◌&&◌, ◌||◌, List, [], ◌∷◌, ◌++◌, Option, none, some, length,
  take, drop, ltb, ◌==◌, if◌then◌else◌,
}
use platform_system_keymaste.Defs.Codes.{KeymasterError}
use platform_system_keymaste.Wire.{
  Out, In, ◌>>=◌, append_size_and_data_to_buf, copy_size_and_data_from_buf,
}
use platform_system_keymaste.AuthorizationSet.{AuthorizationSet}
use platform_system_keymaste.AuthorizationSet.Memory.{Heap}
use platform_system_keymaste.AuthorizationSet.Codec.{Layout, serialize, serialized_size}
use platform_system_keymaste.AuthorizationSet.RoundTrip.Whole.{copy_set}
use platform_system_keymaste.AndroidKeymaster.{Answer, success, failure, Parsed}

-- `hmac` is HMAC-SHA256 of OpenSSL under HMAC_KEY, which may fail. New arrays for a blob and for the
-- serialized hidden authorizations have these addresses.
pub record Vault : Type 0 where
  pub layout : Layout
  pub heap : Heap
  pub hmac : List ℕ → Option (List ℕ)
  pub ssl_error : KeymasterError
  pub blob_address : ℕ
  pub hidden_address : ℕ

abbrev pub hmac_size : ℕ
hmac_size = 8

abbrev pub blob_version : ℕ
blob_version = 0

abbrev pub new_buffer : ℕ → ℕ → Out
new_buffer address size = record { written = []; ptr = address; end = address + size }

unfoldable pub key_material_size : List ℕ → ℕ
key_material_size material = 4 + length material

unfoldable pub serialize_material : List ℕ → Out → Out
serialize_material material o = append_size_and_data_to_buf material o

unfoldable pub blob_size : List ℕ → AuthorizationSet → AuthorizationSet → ℕ
unfolding key_material_size
blob_size material hw sw =
    1 + key_material_size material + serialized_size hw + serialized_size sw + hmac_size

-- memcmp
unfoldable pub same_bytes : List ℕ → List ℕ → Bool
same_bytes [] [] = true
same_bytes [] (y ∷ ys) = false
same_bytes (x ∷ xs) [] = false
same_bytes (x ∷ xs) (y ∷ ys) = let rest = same_bytes xs ys in x == y && rest

module _ (v : Vault) where
  open v use {layout, heap, hmac, ssl_error, blob_address, hidden_address}

  unfoldable pub hidden_bytes : AuthorizationSet → List ℕ
  hidden_bytes hidden =
      (serialize layout hidden (new_buffer hidden_address (serialized_size hidden))).written

  unfoldable pub compute_hmac : List ℕ → AuthorizationSet → Answer (List ℕ)
  unfolding hidden_bytes
  compute_hmac bytes hidden =
      if heap.alloc_bytes (serialized_size hidden)
      then elim (hmac (bytes ++ hidden_bytes hidden)) [
        | none ↦ failure ssl_error
        | some tmp ↦ success (take hmac_size tmp)
      ]
      else failure KeymasterError.memory_allocation_failed

  -- What is written before the MAC; the sizes in `blob_size` leave room for it.
  unfoldable pub blob_body : List ℕ → AuthorizationSet → AuthorizationSet → List ℕ
  unfolding blob_size serialize_material
  blob_body material hw sw =
      let o = new_buffer blob_address (blob_size material hw sw) in
      let o' : Out = record o { written = blob_version ∷ []; ptr = o.ptr + 1 } in
      (serialize layout sw (serialize layout hw (serialize_material material o'))).written

  -- `SerializeIntegrityAssuredBlob`
  unfoldable pub serialize_blob :
      List ℕ → AuthorizationSet → AuthorizationSet → AuthorizationSet → Answer (List ℕ)
  unfolding blob_body blob_size compute_hmac
  serialize_blob material hidden hw sw =
      if heap.alloc_bytes (blob_size material hw sw)
      then elim (compute_hmac (blob_body material hw sw) hidden) [
        | failure e ↦ failure e
        | success mac ↦ success (blob_body material hw sw ++ mac)
      ]
      else failure KeymasterError.memory_allocation_failed

  unfoldable pub copy_parts : In → Option (Parsed × In)
  copy_parts i = do
    (material, i1) ← copy_size_and_data_from_buf heap.alloc_bytes i
    (hw, i2) ← copy_set layout heap i1
    (sw, i3) ← copy_set layout heap i2
    some (record { key_material = material; hw_enforced = hw; sw_enforced = sw }, i3)

  -- `DeserializeIntegrityAssuredBlob_NoHmacCheck`, of a blob at this address.
  unfoldable pub deserialize_unchecked : ℕ → List ℕ → Answer Parsed
  unfolding copy_parts
  deserialize_unchecked address [] = failure KeymasterError.invalid_key_blob
  deserialize_unchecked address (version ∷ bytes) =
      let parts = copy_parts (record {
        bytes = bytes;
        ptr = address + 1;
        end = address + (1 + length bytes) - hmac_size;
      }) in
      if ltb (1 + length bytes) hmac_size || not (version == blob_version)
      then failure KeymasterError.invalid_key_blob
      else elim parts [ none ↦ failure KeymasterError.invalid_key_blob | some (p, i) ↦ success p ]

  -- `DeserializeIntegrityAssuredBlob`, of a blob at this address.
  unfoldable pub deserialize_blob : ℕ → List ℕ → AuthorizationSet → Answer Parsed
  unfolding deserialize_unchecked compute_hmac same_bytes
  deserialize_blob address blob hidden =
      let size = length blob - hmac_size in
      if ltb (length blob) hmac_size
      then failure KeymasterError.invalid_key_blob
      else elim (compute_hmac (take size blob) hidden) [
        | failure e ↦ failure e
        | success computed ↦
            if same_bytes (drop size blob) computed
            then deserialize_unchecked address blob
            else failure KeymasterError.invalid_key_blob
      ]
