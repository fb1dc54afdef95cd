-- ===== src/Messages/AddEntropyRequest.antt =====
-- AddEntropyRequest of android_keymaster_messages.cpp.
use platform_system_keymaste.Common.{ℕ, Option, some, arith}
use platform_system_keymaste.Wire.{Out, In, ◌>>=◌}
use platform_system_keymaste.Wire.Carries.{Carries, Carries-one}
use platform_system_keymaste.Wire.Advances.{Advances, map-Advances}
use platform_system_keymaste.Buffer.{Buffer}
use platform_system_keymaste.Messages.{Platform, copy_buffer}
use platform_system_keymaste.Messages.Fields.{
  IsShortBuffer, SameBuffer, IsReliable, Carries-size, buffer-Carries, buffer-Advances,
}
use platform_system_keymaste.Buffer

pub record AddEntropyRequest : Type 0 where
  pub random_data : Buffer

unfoldable pub serialized_size : AddEntropyRequest → ℕ
serialized_size m = Buffer.serialized_size m.random_data

unfoldable pub serialize : AddEntropyRequest → Out → Out
serialize m o = Buffer.serialize m.random_data o

unfoldable pub deserialize : Platform → In → Option (AddEntropyRequest × In)
deserialize platform i = do
  (random_data, i1) ← copy_buffer platform i
  some (record { random_data = random_data }, i1)

-- Every field fits in its place.
abbrev pub Fits : Platform → AddEntropyRequest → Type 0
Fits platform m = IsShortBuffer m.random_data

-- The second has the fields of the first.
abbrev pub Same : AddEntropyRequest → AddEntropyRequest → Type 0
Same m w = SameBuffer m.random_data w.random_data

pub serialize-Carries :
    (platform : Platform) (m : AddEntropyRequest)
    → IsReliable platform
    → Fits platform m
    → Carries (serialized_size m) (serialize m) (deserialize platform) (Same m)
unfolding serialized_size serialize deserialize
serialize-Carries platform m r h = Carries-size (omega arith) (
    Carries-one (λ a. record { random_data = a }) (Same m)
      (buffer-Carries platform r m.random_data h) (λ a p. p))

pub deserialize-Advances : (platform : Platform) → Advances (deserialize platform)
unfolding deserialize
deserialize-Advances platform =
    map-Advances (λ a. record { random_data = a }) (buffer-Advances platform)
