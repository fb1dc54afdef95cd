-- ===== src/Messages/ImportKeyRequest.antt =====
-- ImportKeyRequest of android_keymaster_messages.cpp.
use platform_system_keymaste.Common.{ℕ, ◌+◌, ◌≡◌, List, Option, some, arith, length}
use platform_system_keymaste.Wire.{
  Out, In, ◌>>=◌, append_uint32_to_buf, append_size_and_data_to_buf, copy_uint32_from_buf,
  copy_size_and_data_from_buf,
}
use platform_system_keymaste.Wire.RoundTrip.{IsWord}
use platform_system_keymaste.Wire.Carries.{Carries, Carries-three}
use platform_system_keymaste.Wire.Carries.Primitives.{uint32-Carries, sized-Carries}
use platform_system_keymaste.Wire.Advances.{
  Advances, three-Advances, uint32-Advances, size_and_data-Advances,
}
use platform_system_keymaste.AuthorizationSet.{AuthorizationSet}
use platform_system_keymaste.AuthorizationSet.RoundTrip.Whole.{IsWritable, SameSet}
use platform_system_keymaste.Messages.{Platform, copy_params, append_params}
use platform_system_keymaste.Messages.Fields.{
  IsShort, IsReliable, Carries-size, params-Carries, params-Advances,
}
use platform_system_keymaste.AuthorizationSet.Codec

pub record ImportKeyRequest : Type 0 where
  pub key_description : AuthorizationSet
  pub key_format : ℕ
  pub key_data : List ℕ

unfoldable pub serialized_size : ImportKeyRequest → ℕ
serialized_size m = Codec.serialized_size m.key_description + 4 + (4 + length m.key_data)

unfoldable pub serialize : Platform → ImportKeyRequest → Out → Out
serialize platform m o =
    append_size_and_data_to_buf m.key_data
      (append_uint32_to_buf m.key_format (append_params platform m.key_description o))

unfoldable pub deserialize : Platform → In → Option (ImportKeyRequest × In)
deserialize platform i = do
  (key_description, i1) ← copy_params platform i
  (key_format, i2) ← copy_uint32_from_buf i1
  (key_data, i3) ← copy_size_and_data_from_buf platform.heap.alloc_bytes i2
  some (
    record { key_description = key_description; key_format = key_format; key_data = key_data },
    i3,
  )

-- Every field fits in its place.
abbrev pub Fits : Platform → ImportKeyRequest → Type 0
Fits platform m =
    (IsWritable platform.layout m.key_description) × (IsWord m.key_format) × (IsShort m.key_data)

-- The second has the fields of the first.
abbrev pub Same : ImportKeyRequest → ImportKeyRequest → Type 0
Same m w =
    (SameSet m.key_description w.key_description)
    × (w.key_format ≡ m.key_format)
    × (w.key_data ≡ m.key_data)

pub serialize-Carries :
    (platform : Platform) (m : ImportKeyRequest)
    → IsReliable platform
    → Fits platform m
    → Carries (serialized_size m) (serialize platform m) (deserialize platform) (Same m)
unfolding serialized_size serialize deserialize
serialize-Carries platform m r h = Carries-size (omega arith) (
    Carries-three (λ a b c. record { key_description = a; key_format = b; key_data = c }) (Same m)
      (params-Carries platform r m.key_description h.0) (uint32-Carries m.key_format h.1)
      (sized-Carries platform.heap.alloc_bytes r.plenty.bytes_given m.key_data h.2)
      (λ a b c p q s. (p, q, s)))

pub deserialize-Advances : (platform : Platform) → Advances (deserialize platform)
unfolding deserialize
deserialize-Advances platform =
    three-Advances (λ a b c. record { key_description = a; key_format = b; key_data = c })
      (params-Advances platform) uint32-Advances (size_and_data-Advances platform.heap.alloc_bytes)
