-- ===== src/Messages/SupportedResponse.antt =====
-- What SupportedResponse of android_keymaster_messages.h holds besides the error: the base of the six
-- responses that list algorithms, block modes, padding modes, digests and formats.
use platform_system_keymaste.Common.{
  ℕ, ◌+◌, ◌*◌, ◌/◌, ◌<◌, ◌≡◌, List, Option, some, length, All, uint32_max,
}
use platform_system_keymaste.Wire.{
  Out, In, ◌>>=◌, append_uint32_array_to_buf, copy_uint32_array_from_buf,
}
use platform_system_keymaste.Wire.RoundTrip.{IsWord}
use platform_system_keymaste.Wire.Carries.{Carries, Carries-one}
use platform_system_keymaste.Wire.Carries.Primitives.{uint32_array-Carries}
use platform_system_keymaste.Wire.Advances.{Advances, map-Advances, uint32_array-Advances}
use platform_system_keymaste.Messages.{Platform}
use platform_system_keymaste.Messages.Fields.{IsReliable}

pub record SupportedResponse : Type 0 where
  pub results : List ℕ

unfoldable pub serialized_size : SupportedResponse → ℕ
serialized_size m = 4 + length m.results * 4

unfoldable pub serialize : SupportedResponse → Out → Out
serialize m o = append_uint32_array_to_buf m.results o

unfoldable pub deserialize : Platform → In → Option (SupportedResponse × In)
deserialize platform i = do
  (results, i1) ← copy_uint32_array_from_buf platform.heap.alloc_bytes i
  some (record { results = results }, i1)

-- The results fit in four bytes each, and their number in the field before them.
abbrev pub Fits : Platform → SupportedResponse → Type 0
Fits platform m = All IsWord m.results × (length m.results < uint32_max / 4)

abbrev pub Same : SupportedResponse → SupportedResponse → Type 0
Same m w = w.results ≡ m.results

pub serialize-Carries :
    (platform : Platform) (m : SupportedResponse)
    → IsReliable platform
    → Fits platform m
    → Carries (serialized_size m) (serialize m) (deserialize platform) (Same m)
unfolding serialized_size serialize deserialize
serialize-Carries platform m r h =
    Carries-one (λ a. record { results = a }) (Same m)
      (uint32_array-Carries platform.heap.alloc_bytes r.plenty.bytes_given m.results h.0 h.1)
      (λ a p. p)

pub deserialize-Advances : (platform : Platform) → Advances (deserialize platform)
unfolding deserialize
deserialize-Advances platform =
    map-Advances (λ a. record { results = a }) (uint32_array-Advances platform.heap.alloc_bytes)
