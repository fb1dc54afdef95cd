-- ===== src/Messages/ExportKeyResponse.antt =====
-- What ExportKeyResponse of android_keymaster_messages.cpp holds besides the error.
use platform_system_keymaste.Common.{ℕ, ◌+◌, ◌≡◌, List, Option, some, arith, length}
use platform_system_keymaste.Wire.{
  Out, In, ◌>>=◌, append_size_and_data_to_buf, copy_size_and_data_from_buf,
}
use platform_system_keymaste.Wire.Carries.{Carries, Carries-one}
use platform_system_keymaste.Wire.Carries.Primitives.{sized-Carries}
use platform_system_keymaste.Wire.Advances.{Advances, map-Advances, size_and_data-Advances}
use platform_system_keymaste.Messages.{Platform}
use platform_system_keymaste.Messages.Fields.{IsShort, IsReliable, Carries-size}

pub record ExportKeyResponse : Type 0 where
  pub key_data : List ℕ

unfoldable pub serialized_size : ExportKeyResponse → ℕ
serialized_size m = (4 + length m.key_data)

unfoldable pub serialize : ExportKeyResponse → Out → Out
serialize m o = append_size_and_data_to_buf m.key_data o

unfoldable pub deserialize : Platform → In → Option (ExportKeyResponse × In)
deserialize platform i = do
  (key_data, i1) ← copy_size_and_data_from_buf platform.heap.alloc_bytes i
  some (record { key_data = key_data }, i1)

-- Every field fits in its place.
abbrev pub Fits : Platform → ExportKeyResponse → Type 0
Fits platform m = IsShort m.key_data

-- The second has the fields of the first.
abbrev pub Same : ExportKeyResponse → ExportKeyResponse → Type 0
Same m w = w.key_data ≡ m.key_data

pub serialize-Carries :
    (platform : Platform) (m : ExportKeyResponse)
    → IsReliable platform
    → Fits platform m
    → Carries (serialized_size m) (serialize m) (deserialize platform) (Same m)
unfolding serialized_size serialize deserialize
serialize-Carries platform m r h = Carries-size (omega arith) (
    Carries-one (λ a. record { key_data = a }) (Same m)
      (sized-Carries platform.heap.alloc_bytes r.plenty.bytes_given m.key_data h) (λ a p. p))

pub deserialize-Advances : (platform : Platform) → Advances (deserialize platform)
unfolding deserialize
deserialize-Advances platform =
    map-Advances (λ a. record { key_data = a }) (size_and_data-Advances platform.heap.alloc_bytes)
