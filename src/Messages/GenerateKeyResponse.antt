-- ===== src/Messages/GenerateKeyResponse.antt =====
-- What GenerateKeyResponse of android_keymaster_messages.cpp holds besides the error.
use platform_system_keymaste.Common.{ℕ, ◌+◌, ◌≡◌, List, Option, some, arith}
use platform_system_keymaste.Wire.{Out, In, ◌>>=◌}
use platform_system_keymaste.Wire.Carries.{Carries, Carries-three}
use platform_system_keymaste.Wire.Advances.{Advances, three-Advances}
use platform_system_keymaste.AuthorizationSet.{AuthorizationSet}
use platform_system_keymaste.AuthorizationSet.RoundTrip.Whole.{IsWritable, SameSet}
use platform_system_keymaste.Messages.{
  Platform, key_blob_size, serialize_key_blob, deserialize_key_blob, copy_params, append_params,
}
use platform_system_keymaste.Messages.Fields.{
  IsShort, IsReliable, Carries-size, key_blob-Carries, params-Carries, key_blob-Advances,
  params-Advances,
}
use platform_system_keymaste.AuthorizationSet.Codec

pub record GenerateKeyResponse : Type 0 where
  pub key_blob : List ℕ
  pub enforced : AuthorizationSet
  pub unenforced : AuthorizationSet

unfoldable pub serialized_size : GenerateKeyResponse → ℕ
serialized_size m =
    key_blob_size m.key_blob + Codec.serialized_size m.enforced + Codec.serialized_size m.unenforced

unfoldable pub serialize : Platform → GenerateKeyResponse → Out → Out
serialize platform m o =
    append_params platform m.unenforced
      (append_params platform m.enforced (serialize_key_blob m.key_blob o))

unfoldable pub deserialize : Platform → In → Option (GenerateKeyResponse × In)
deserialize platform i = do
  (key_blob, i1) ← deserialize_key_blob platform i
  (enforced, i2) ← copy_params platform i1
  (unenforced, i3) ← copy_params platform i2
  some (record { key_blob = key_blob; enforced = enforced; unenforced = unenforced }, i3)

-- Every field fits in its place.
abbrev pub Fits : Platform → GenerateKeyResponse → Type 0
Fits platform m =
    (IsShort m.key_blob)
    × (IsWritable platform.layout m.enforced)
    × (IsWritable platform.layout m.unenforced)

-- The second has the fields of the first.
abbrev pub Same : GenerateKeyResponse → GenerateKeyResponse → Type 0
Same m w =
    (w.key_blob ≡ m.key_blob)
    × (SameSet m.enforced w.enforced)
    × (SameSet m.unenforced w.unenforced)

pub serialize-Carries :
    (platform : Platform) (m : GenerateKeyResponse)
    → IsReliable platform
    → Fits platform m
    → Carries (serialized_size m) (serialize platform m) (deserialize platform) (Same m)
unfolding serialized_size serialize deserialize
serialize-Carries platform m r h = Carries-size (omega arith) (
    Carries-three (λ a b c. record { key_blob = a; enforced = b; unenforced = c }) (Same m)
      (key_blob-Carries platform r m.key_blob h.0) (params-Carries platform r m.enforced h.1)
      (params-Carries platform r m.unenforced h.2) (λ a b c p q s. (p, q, s)))

pub deserialize-Advances : (platform : Platform) → Advances (deserialize platform)
unfolding deserialize
deserialize-Advances platform =
    three-Advances (λ a b c. record { key_blob = a; enforced = b; unenforced = c })
      (key_blob-Advances platform) (params-Advances platform) (params-Advances platform)
