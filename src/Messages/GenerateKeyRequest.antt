-- ===== src/Messages/GenerateKeyRequest.antt =====
-- GenerateKeyRequest of android_keymaster_messages.h.
use platform_system_keymaste.Common.{ℕ, Option, some, arith}
use platform_system_keymaste.Wire.{Out, In, ◌>>=◌}
use platform_system_keymaste.Wire.Carries.{Carries, Carries-one}
use platform_system_keymaste.Wire.Advances.{Advances, map-Advances}
use platform_system_keymaste.AuthorizationSet.{AuthorizationSet}
use platform_system_keymaste.AuthorizationSet.RoundTrip.Whole.{IsWritable, SameSet}
use platform_system_keymaste.Messages.{Platform, copy_params, append_params}
use platform_system_keymaste.Messages.Fields.{
  IsReliable, Carries-size, params-Carries, params-Advances,
}
use platform_system_keymaste.AuthorizationSet.Codec

pub record GenerateKeyRequest : Type 0 where
  pub key_description : AuthorizationSet

unfoldable pub serialized_size : GenerateKeyRequest → ℕ
serialized_size m = Codec.serialized_size m.key_description

unfoldable pub serialize : Platform → GenerateKeyRequest → Out → Out
serialize platform m o = append_params platform m.key_description o

unfoldable pub deserialize : Platform → In → Option (GenerateKeyRequest × In)
deserialize platform i = do
  (key_description, i1) ← copy_params platform i
  some (record { key_description = key_description }, i1)

-- Every field fits in its place.
abbrev pub Fits : Platform → GenerateKeyRequest → Type 0
Fits platform m = IsWritable platform.layout m.key_description

-- The second has the fields of the first.
abbrev pub Same : GenerateKeyRequest → GenerateKeyRequest → Type 0
Same m w = SameSet m.key_description w.key_description

pub serialize-Carries :
    (platform : Platform) (m : GenerateKeyRequest)
    → IsReliable platform
    → Fits platform m
    → Carries (serialized_size m) (serialize platform m) (deserialize platform) (Same m)
unfolding serialized_size serialize deserialize
serialize-Carries platform m r h = Carries-size (omega arith) (
    Carries-one (λ a. record { key_description = a }) (Same m)
      (params-Carries platform r m.key_description h) (λ a p. p))

pub deserialize-Advances : (platform : Platform) → Advances (deserialize platform)
unfolding deserialize
deserialize-Advances platform =
    map-Advances (λ a. record { key_description = a }) (params-Advances platform)
