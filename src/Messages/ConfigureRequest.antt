-- ===== src/Messages/ConfigureRequest.antt =====
-- ConfigureRequest of android_keymaster_messages.h.
use platform_system_keymaste.Common.{ℕ, ◌+◌, ◌≡◌, Option, some, arith}
use platform_system_keymaste.Wire.{Out, In, ◌>>=◌, append_uint32_to_buf, copy_uint32_from_buf}
use platform_system_keymaste.Wire.RoundTrip.{IsWord}
use platform_system_keymaste.Wire.Carries.{Carries, Carries-two}
use platform_system_keymaste.Wire.Carries.Primitives.{uint32-Carries}
use platform_system_keymaste.Wire.Advances.{Advances, two-Advances, uint32-Advances}
use platform_system_keymaste.Messages.{Platform}
use platform_system_keymaste.Messages.Fields.{IsReliable, Carries-size}

pub record ConfigureRequest : Type 0 where
  pub os_version : ℕ
  pub os_patchlevel : ℕ

unfoldable pub serialized_size : ConfigureRequest → ℕ
serialized_size m = 4 + 4

unfoldable pub serialize : ConfigureRequest → Out → Out
serialize m o = append_uint32_to_buf m.os_patchlevel (append_uint32_to_buf m.os_version o)

unfoldable pub deserialize : In → Option (ConfigureRequest × In)
deserialize i = do
  (os_version, i1) ← copy_uint32_from_buf i
  (os_patchlevel, i2) ← copy_uint32_from_buf i1
  some (record { os_version = os_version; os_patchlevel = os_patchlevel }, i2)

-- Every field fits in its place.
abbrev pub Fits : Platform → ConfigureRequest → Type 0
Fits platform m = (IsWord m.os_version) × (IsWord m.os_patchlevel)

-- The second has the fields of the first.
abbrev pub Same : ConfigureRequest → ConfigureRequest → Type 0
Same m w = (w.os_version ≡ m.os_version) × (w.os_patchlevel ≡ m.os_patchlevel)

pub serialize-Carries :
    (platform : Platform) (m : ConfigureRequest)
    → IsReliable platform
    → Fits platform m
    → Carries (serialized_size m) (serialize m) deserialize (Same m)
unfolding serialized_size serialize deserialize
serialize-Carries platform m r h = Carries-size (omega arith) (
    Carries-two (λ a b. record { os_version = a; os_patchlevel = b }) (Same m)
      (uint32-Carries m.os_version h.0) (uint32-Carries m.os_patchlevel h.1) (λ a b p q. (p, q)))

pub deserialize-Advances : Advances deserialize
unfolding deserialize
deserialize-Advances =
    two-Advances (λ a b. record { os_version = a; os_patchlevel = b }) uint32-Advances
      uint32-Advances
