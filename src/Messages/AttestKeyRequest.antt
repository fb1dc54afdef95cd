-- ===== src/Messages/AttestKeyRequest.antt =====
-- AttestKeyRequest of android_keymaster_messages.cpp.
use platform_system_keymaste.Common.{ℕ, ◌+◌, ◌≡◌, List, Option, some, arith}
use platform_system_keymaste.Wire.{Out, In, ◌>>=◌}
use platform_system_keymaste.Wire.Carries.{Carries, Carries-two}
use platform_system_keymaste.Wire.Advances.{Advances, two-Advances}
use platform_system_keymaste.AuthorizationSet.{AuthorizationSet}
use platform_system_keymaste.AuthorizationSet.RoundTrip.Whole.{IsWritable, SameSet}
use platform_system_keymaste.Messages.{
  Platform, key_blob_size, serialize_key_blob, deserialize_key_blob, copy_params, append_params,
}
use platform_system_keymaste.Messages.Fields.{
  IsShort, IsReliable, Carries-size, key_blob-Carries, params-Carries, key_blob-Advances,
  params-Advances,
}
use platform_system_keymaste.AuthorizationSet.Codec

pub record AttestKeyRequest : Type 0 where
  pub key_blob : List ℕ
  pub attest_params : AuthorizationSet

unfoldable pub serialized_size : AttestKeyRequest → ℕ
serialized_size m = key_blob_size m.key_blob + Codec.serialized_size m.attest_params

unfoldable pub serialize : Platform → AttestKeyRequest → Out → Out
serialize platform m o = append_params platform m.attest_params (serialize_key_blob m.key_blob o)

unfoldable pub deserialize : Platform → In → Option (AttestKeyRequest × In)
deserialize platform i = do
  (key_blob, i1) ← deserialize_key_blob platform i
  (attest_params, i2) ← copy_params platform i1
  some (record { key_blob = key_blob; attest_params = attest_params }, i2)

-- Every field fits in its place.
abbrev pub Fits : Platform → AttestKeyRequest → Type 0
Fits platform m = (IsShort m.key_blob) × (IsWritable platform.layout m.attest_params)

-- The second has the fields of the first.
abbrev pub Same : AttestKeyRequest → AttestKeyRequest → Type 0
Same m w = (w.key_blob ≡ m.key_blob) × (SameSet m.attest_params w.attest_params)

pub serialize-Carries :
    (platform : Platform) (m : AttestKeyRequest)
    → IsReliable platform
    → Fits platform m
    → Carries (serialized_size m) (serialize platform m) (deserialize platform) (Same m)
unfolding serialized_size serialize deserialize
serialize-Carries platform m r h = Carries-size (omega arith) (
    Carries-two (λ a b. record { key_blob = a; attest_params = b }) (Same m)
      (key_blob-Carries platform r m.key_blob h.0) (params-Carries platform r m.attest_params h.1)
      (λ a b p q. (p, q)))

pub deserialize-Advances : (platform : Platform) → Advances (deserialize platform)
unfolding deserialize
deserialize-Advances platform =
    two-Advances (λ a b. record { key_blob = a; attest_params = b }) (key_blob-Advances platform)
      (params-Advances platform)
