-- ===== src/Messages/UpgradeKeyResponse.antt =====
-- What UpgradeKeyResponse of android_keymaster_messages.cpp holds besides the error.
use platform_system_keymaste.Common.{ℕ, ◌≡◌, List, Option, some, arith}
use platform_system_keymaste.Wire.{Out, In, ◌>>=◌}
use platform_system_keymaste.Wire.Carries.{Carries, Carries-one}
use platform_system_keymaste.Wire.Advances.{Advances, map-Advances}
use platform_system_keymaste.Messages.{
  Platform, key_blob_size, serialize_key_blob, deserialize_key_blob,
}
use platform_system_keymaste.Messages.Fields.{
  IsShort, IsReliable, Carries-size, key_blob-Carries, key_blob-Advances,
}

pub record UpgradeKeyResponse : Type 0 where
  pub upgraded_key : List ℕ

unfoldable pub serialized_size : UpgradeKeyResponse → ℕ
serialized_size m = key_blob_size m.upgraded_key

unfoldable pub serialize : UpgradeKeyResponse → Out → Out
serialize m o = serialize_key_blob m.upgraded_key o

unfoldable pub deserialize : Platform → In → Option (UpgradeKeyResponse × In)
deserialize platform i = do
  (upgraded_key, i1) ← deserialize_key_blob platform i
  some (record { upgraded_key = upgraded_key }, i1)

-- Every field fits in its place.
abbrev pub Fits : Platform → UpgradeKeyResponse → Type 0
Fits platform m = IsShort m.upgraded_key

-- The second has the fields of the first.
abbrev pub Same : UpgradeKeyResponse → UpgradeKeyResponse → Type 0
Same m w = w.upgraded_key ≡ m.upgraded_key

pub serialize-Carries :
    (platform : Platform) (m : UpgradeKeyResponse)
    → IsReliable platform
    → Fits platform m
    → Carries (serialized_size m) (serialize m) (deserialize platform) (Same m)
unfolding serialized_size serialize deserialize
serialize-Carries platform m r h = Carries-size (omega arith) (
    Carries-one (λ a. record { upgraded_key = a }) (Same m)
      (key_blob-Carries platform r m.upgraded_key h) (λ a p. p))

pub deserialize-Advances : (platform : Platform) → Advances (deserialize platform)
unfolding deserialize
deserialize-Advances platform =
    map-Advances (λ a. record { upgraded_key = a }) (key_blob-Advances platform)
