-- ===== src/Messages/BeginOperationRequest.antt =====
-- BeginOperationRequest of android_keymaster_messages.cpp.
use platform_system_keymaste.Common.{ℕ, ◌+◌, ◌≡◌, List, Option, some, arith}
use platform_system_keymaste.Wire.{Out, In, ◌>>=◌, append_uint32_to_buf, copy_uint32_from_buf}
use platform_system_keymaste.Wire.RoundTrip.{IsWord}
use platform_system_keymaste.Wire.Carries.{Carries, Carries-three}
use platform_system_keymaste.Wire.Carries.Primitives.{uint32-Carries}
use platform_system_keymaste.Wire.Advances.{Advances, three-Advances, uint32-Advances}
use platform_system_keymaste.AuthorizationSet.{AuthorizationSet}
use platform_system_keymaste.AuthorizationSet.RoundTrip.Whole.{IsWritable, SameSet}
use platform_system_keymaste.Messages.{
  Platform, key_blob_size, serialize_key_blob, deserialize_key_blob, copy_params, append_params,
}
use platform_system_keymaste.Messages.Fields.{
  IsShort, IsReliable, Carries-size, key_blob-Carries, params-Carries, key_blob-Advances,
  params-Advances,
}
use platform_system_keymaste.AuthorizationSet.Codec

pub record BeginOperationRequest : Type 0 where
  pub purpose : ℕ
  pub key_blob : List ℕ
  pub additional_params : AuthorizationSet

unfoldable pub serialized_size : BeginOperationRequest → ℕ
serialized_size m = 4 + key_blob_size m.key_blob + Codec.serialized_size m.additional_params

unfoldable pub serialize : Platform → BeginOperationRequest → Out → Out
serialize platform m o =
    append_params platform m.additional_params
      (serialize_key_blob m.key_blob (append_uint32_to_buf m.purpose o))

unfoldable pub deserialize : Platform → In → Option (BeginOperationRequest × In)
deserialize platform i = do
  (purpose, i1) ← copy_uint32_from_buf i
  (key_blob, i2) ← deserialize_key_blob platform i1
  (additional_params, i3) ← copy_params platform i2
  some
      (record { purpose = purpose; key_blob = key_blob; additional_params = additional_params }, i3)

-- Every field fits in its place.
abbrev pub Fits : Platform → BeginOperationRequest → Type 0
Fits platform m =
    (IsWord m.purpose) × (IsShort m.key_blob) × (IsWritable platform.layout m.additional_params)

-- The second has the fields of the first.
abbrev pub Same : BeginOperationRequest → BeginOperationRequest → Type 0
Same m w =
    (w.purpose ≡ m.purpose)
    × (w.key_blob ≡ m.key_blob)
    × (SameSet m.additional_params w.additional_params)

pub serialize-Carries :
    (platform : Platform) (m : BeginOperationRequest)
    → IsReliable platform
    → Fits platform m
    → Carries (serialized_size m) (serialize platform m) (deserialize platform) (Same m)
unfolding serialized_size serialize deserialize
serialize-Carries platform m r h = Carries-size (omega arith) (
    Carries-three (λ a b c. record { purpose = a; key_blob = b; additional_params = c }) (Same m)
      (uint32-Carries m.purpose h.0) (key_blob-Carries platform r m.key_blob h.1)
      (params-Carries platform r m.additional_params h.2) (λ a b c p q s. (p, q, s)))

pub deserialize-Advances : (platform : Platform) → Advances (deserialize platform)
unfolding deserialize
deserialize-Advances platform =
    three-Advances (λ a b c. record { purpose = a; key_blob = b; additional_params = c })
      uint32-Advances (key_blob-Advances platform) (params-Advances platform)
