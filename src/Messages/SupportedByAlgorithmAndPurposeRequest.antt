-- ===== src/Messages/SupportedByAlgorithmAndPurposeRequest.antt =====
-- SupportedByAlgorithmAndPurposeRequest of android_keymaster_messages.h, the base of
-- SupportedBlockModesRequest, SupportedPaddingModesRequest and SupportedDigestsRequest.
use platform_system_keymaste.Common.{ℕ, ◌+◌, ◌≡◌, Option, some, arith}
use platform_system_keymaste.Wire.{Out, In, ◌>>=◌, append_uint32_to_buf, copy_uint32_from_buf}
use platform_system_keymaste.Wire.RoundTrip.{IsWord}
use platform_system_keymaste.Wire.Carries.{Carries, Carries-two}
use platform_system_keymaste.Wire.Carries.Primitives.{uint32-Carries}
use platform_system_keymaste.Wire.Advances.{Advances, two-Advances, uint32-Advances}
use platform_system_keymaste.Messages.{Platform}
use platform_system_keymaste.Messages.Fields.{IsReliable, Carries-size}

pub record SupportedByAlgorithmAndPurposeRequest : Type 0 where
  pub algorithm : ℕ
  pub purpose : ℕ

unfoldable pub serialized_size : SupportedByAlgorithmAndPurposeRequest → ℕ
serialized_size m = 4 + 4

unfoldable pub serialize : SupportedByAlgorithmAndPurposeRequest → Out → Out
serialize m o = append_uint32_to_buf m.purpose (append_uint32_to_buf m.algorithm o)

unfoldable pub deserialize : In → Option (SupportedByAlgorithmAndPurposeRequest × In)
deserialize i = do
  (algorithm, i1) ← copy_uint32_from_buf i
  (purpose, i2) ← copy_uint32_from_buf i1
  some (record { algorithm = algorithm; purpose = purpose }, i2)

-- Every field fits in its place.
abbrev pub Fits : Platform → SupportedByAlgorithmAndPurposeRequest → Type 0
Fits platform m = (IsWord m.algorithm) × (IsWord m.purpose)

-- The second has the fields of the first.
abbrev pub Same :
    SupportedByAlgorithmAndPurposeRequest → SupportedByAlgorithmAndPurposeRequest → Type 0
Same m w = (w.algorithm ≡ m.algorithm) × (w.purpose ≡ m.purpose)

pub serialize-Carries :
    (platform : Platform) (m : SupportedByAlgorithmAndPurposeRequest)
    → IsReliable platform
    → Fits platform m
    → Carries (serialized_size m) (serialize m) deserialize (Same m)
unfolding serialized_size serialize deserialize
serialize-Carries platform m r h = Carries-size (omega arith) (
    Carries-two (λ a b. record { algorithm = a; purpose = b }) (Same m)
      (uint32-Carries m.algorithm h.0) (uint32-Carries m.purpose h.1) (λ a b p q. (p, q)))

pub deserialize-Advances : Advances deserialize
unfolding deserialize
deserialize-Advances =
    two-Advances (λ a b. record { algorithm = a; purpose = b }) uint32-Advances uint32-Advances
