-- ===== src/Messages/DeleteKeyRequest.antt =====
-- DeleteKeyRequest of android_keymaster_messages.cpp.
use platform_system_keymaste.Common.{ℕ, ◌≡◌, List, Option, some, arith}
use platform_system_keymaste.Wire.{Out, In, ◌>>=◌}
use platform_system_keymaste.Wire.Carries.{Carries, Carries-one}
use platform_system_keymaste.Wire.Advances.{Advances, map-Advances}
use platform_system_keymaste.Messages.{
  Platform, key_blob_size, serialize_key_blob, deserialize_key_blob,
}
use platform_system_keymaste.Messages.Fields.{
  IsShort, IsReliable, Carries-size, key_blob-Carries, key_blob-Advances,
}

pub record DeleteKeyRequest : Type 0 where
  pub key_blob : List ℕ

unfoldable pub serialized_size : DeleteKeyRequest → ℕ
serialized_size m = key_blob_size m.key_blob

unfoldable pub serialize : DeleteKeyRequest → Out → Out
serialize m o = serialize_key_blob m.key_blob o

unfoldable pub deserialize : Platform → In → Option (DeleteKeyRequest × In)
deserialize platform i = do
  (key_blob, i1) ← deserialize_key_blob platform i
  some (record { key_blob = key_blob }, i1)

-- Every field fits in its place.
abbrev pub Fits : Platform → DeleteKeyRequest → Type 0
Fits platform m = IsShort m.key_blob

-- The second has the fields of the first.
abbrev pub Same : DeleteKeyRequest → DeleteKeyRequest → Type 0
Same m w = w.key_blob ≡ m.key_blob

pub serialize-Carries :
    (platform : Platform) (m : DeleteKeyRequest)
    → IsReliable platform
    → Fits platform m
    → Carries (serialized_size m) (serialize m) (deserialize platform) (Same m)
unfolding serialized_size serialize deserialize
serialize-Carries platform m r h = Carries-size (omega arith) (
    Carries-one (λ a. record { key_blob = a }) (Same m) (key_blob-Carries platform r m.key_blob h)
      (λ a p. p))

pub deserialize-Advances : (platform : Platform) → Advances (deserialize platform)
unfolding deserialize
deserialize-Advances platform =
    map-Advances (λ a. record { key_blob = a }) (key_blob-Advances platform)
