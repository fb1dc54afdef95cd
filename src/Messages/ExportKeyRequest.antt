-- ===== src/Messages/ExportKeyRequest.antt =====
-- ExportKeyRequest of android_keymaster_messages.cpp.
use platform_system_keymaste.Common.{ℕ, ◌+◌, ◌≡◌, List, Option, some, arith}
use platform_system_keymaste.Wire.{Out, In, ◌>>=◌, append_uint32_to_buf, copy_uint32_from_buf}
use platform_system_keymaste.Wire.RoundTrip.{IsWord}
use platform_system_keymaste.Wire.Carries.{Carries, Carries-three}
use platform_system_keymaste.Wire.Carries.Primitives.{uint32-Carries}
use platform_system_keymaste.Wire.Advances.{Advances, three-Advances, uint32-Advances}
use platform_system_keymaste.AuthorizationSet.{AuthorizationSet}
use platform_system_keymaste.AuthorizationSet.RoundTrip.Whole.{IsWritable, SameSet}
use platform_system_keymaste.Messages.{
  Platform, key_blob_size, serialize_key_blob, deserialize_key_blob, copy_params, append_params,
}
use platform_system_keymaste.Messages.Fields.{
  IsShort, IsReliable, Carries-size, key_blob-Carries, params-Carries, key_blob-Advances,
  params-Advances,
}
use platform_system_keymaste.AuthorizationSet.Codec

pub record ExportKeyRequest : Type 0 where
  pub additional_params : AuthorizationSet
  pub key_format : ℕ
  pub key_blob : List ℕ

unfoldable pub serialized_size : ExportKeyRequest → ℕ
serialized_size m = Codec.serialized_size m.additional_params + 4 + key_blob_size m.key_blob

unfoldable pub serialize : Platform → ExportKeyRequest → Out → Out
serialize platform m o =
    serialize_key_blob m.key_blob
      (append_uint32_to_buf m.key_format (append_params platform m.additional_params o))

unfoldable pub deserialize : Platform → In → Option (ExportKeyRequest × In)
deserialize platform i = do
  (additional_params, i1) ← copy_params platform i
  (key_format, i2) ← copy_uint32_from_buf i1
  (key_blob, i3) ← deserialize_key_blob platform i2
  some (
    record { additional_params = additional_params; key_format = key_format; key_blob = key_blob },
    i3,
  )

-- Every field fits in its place.
abbrev pub Fits : Platform → ExportKeyRequest → Type 0
Fits platform m =
    (IsWritable platform.layout m.additional_params) × (IsWord m.key_format) × (IsShort m.key_blob)

-- The second has the fields of the first.
abbrev pub Same : ExportKeyRequest → ExportKeyRequest → Type 0
Same m w =
    (SameSet m.additional_params w.additional_params)
    × (w.key_format ≡ m.key_format)
    × (w.key_blob ≡ m.key_blob)

pub serialize-Carries :
    (platform : Platform) (m : ExportKeyRequest)
    → IsReliable platform
    → Fits platform m
    → Carries (serialized_size m) (serialize platform m) (deserialize platform) (Same m)
unfolding serialized_size serialize deserialize
serialize-Carries platform m r h = Carries-size (omega arith) (
    Carries-three (λ a b c. record { additional_params = a; key_format = b; key_blob = c }) (Same m)
      (params-Carries platform r m.additional_params h.0) (uint32-Carries m.key_format h.1)
      (key_blob-Carries platform r m.key_blob h.2) (λ a b c p q s. (p, q, s)))

pub deserialize-Advances : (platform : Platform) → Advances (deserialize platform)
unfolding deserialize
deserialize-Advances platform =
    three-Advances (λ a b c. record { additional_params = a; key_format = b; key_blob = c })
      (params-Advances platform) uint32-Advances (key_blob-Advances platform)
