-- ===== src/Messages/GetKeyCharacteristicsResponse.antt =====
-- What GetKeyCharacteristicsResponse of android_keymaster_messages.cpp holds besides the
-- error.
use platform_system_keymaste.Common.{ℕ, ◌+◌, Option, some, arith}
use platform_system_keymaste.Wire.{Out, In, ◌>>=◌}
use platform_system_keymaste.Wire.Carries.{Carries, Carries-two}
use platform_system_keymaste.Wire.Advances.{Advances, two-Advances}
use platform_system_keymaste.AuthorizationSet.{AuthorizationSet}
use platform_system_keymaste.AuthorizationSet.RoundTrip.Whole.{IsWritable, SameSet}
use platform_system_keymaste.Messages.{Platform, copy_params, append_params}
use platform_system_keymaste.Messages.Fields.{
  IsReliable, Carries-size, params-Carries, params-Advances,
}
use platform_system_keymaste.AuthorizationSet.Codec

pub record GetKeyCharacteristicsResponse : Type 0 where
  pub enforced : AuthorizationSet
  pub unenforced : AuthorizationSet

unfoldable pub serialized_size : GetKeyCharacteristicsResponse → ℕ
serialized_size m = Codec.serialized_size m.enforced + Codec.serialized_size m.unenforced

unfoldable pub serialize : Platform → GetKeyCharacteristicsResponse → Out → Out
serialize platform m o = append_params platform m.unenforced (append_params platform m.enforced o)

unfoldable pub deserialize : Platform → In → Option (GetKeyCharacteristicsResponse × In)
deserialize platform i = do
  (enforced, i1) ← copy_params platform i
  (unenforced, i2) ← copy_params platform i1
  some (record { enforced = enforced; unenforced = unenforced }, i2)

-- Every field fits in its place.
abbrev pub Fits : Platform → GetKeyCharacteristicsResponse → Type 0
Fits platform m =
    (IsWritable platform.layout m.enforced) × (IsWritable platform.layout m.unenforced)

-- The second has the fields of the first.
abbrev pub Same : GetKeyCharacteristicsResponse → GetKeyCharacteristicsResponse → Type 0
Same m w = (SameSet m.enforced w.enforced) × (SameSet m.unenforced w.unenforced)

pub serialize-Carries :
    (platform : Platform) (m : GetKeyCharacteristicsResponse)
    → IsReliable platform
    → Fits platform m
    → Carries (serialized_size m) (serialize platform m) (deserialize platform) (Same m)
unfolding serialized_size serialize deserialize
serialize-Carries platform m r h = Carries-size (omega arith) (
    Carries-two (λ a b. record { enforced = a; unenforced = b }) (Same m)
      (params-Carries platform r m.enforced h.0) (params-Carries platform r m.unenforced h.1)
      (λ a b p q. (p, q)))

pub deserialize-Advances : (platform : Platform) → Advances (deserialize platform)
unfolding deserialize
deserialize-Advances platform =
    two-Advances (λ a b. record { enforced = a; unenforced = b }) (params-Advances platform)
      (params-Advances platform)
