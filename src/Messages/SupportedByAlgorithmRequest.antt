-- ===== src/Messages/SupportedByAlgorithmRequest.antt =====
-- SupportedByAlgorithmRequest of android_keymaster_messages.h, the base of SupportedImportFormatsRequest and
-- SupportedExportFormatsRequest.
use platform_system_keymaste.Common.{ℕ, ◌≡◌, Option, some, arith}
use platform_system_keymaste.Wire.{Out, In, ◌>>=◌, append_uint32_to_buf, copy_uint32_from_buf}
use platform_system_keymaste.Wire.RoundTrip.{IsWord}
use platform_system_keymaste.Wire.Carries.{Carries, Carries-one}
use platform_system_keymaste.Wire.Carries.Primitives.{uint32-Carries}
use platform_system_keymaste.Wire.Advances.{Advances, map-Advances, uint32-Advances}
use platform_system_keymaste.Messages.{Platform}
use platform_system_keymaste.Messages.Fields.{IsReliable, Carries-size}

pub record SupportedByAlgorithmRequest : Type 0 where
  pub algorithm : ℕ

unfoldable pub serialized_size : SupportedByAlgorithmRequest → ℕ
serialized_size m = 4

unfoldable pub serialize : SupportedByAlgorithmRequest → Out → Out
serialize m o = append_uint32_to_buf m.algorithm o

unfoldable pub deserialize : In → Option (SupportedByAlgorithmRequest × In)
deserialize i = do
  (algorithm, i1) ← copy_uint32_from_buf i
  some (record { algorithm = algorithm }, i1)

-- Every field fits in its place.
abbrev pub Fits : Platform → SupportedByAlgorithmRequest → Type 0
Fits platform m = IsWord m.algorithm

-- The second has the fields of the first.
abbrev pub Same : SupportedByAlgorithmRequest → SupportedByAlgorithmRequest → Type 0
Same m w = w.algorithm ≡ m.algorithm

pub serialize-Carries :
    (platform : Platform) (m : SupportedByAlgorithmRequest)
    → IsReliable platform
    → Fits platform m
    → Carries (serialized_size m) (serialize m) deserialize (Same m)
unfolding serialized_size serialize deserialize
serialize-Carries platform m r h =
    Carries-size (omega arith) (
      Carries-one (λ a. record { algorithm = a }) (Same m) (uint32-Carries m.algorithm h)
        (λ a p. p))

pub deserialize-Advances : Advances deserialize
unfolding deserialize
deserialize-Advances = map-Advances (λ a. record { algorithm = a }) uint32-Advances
