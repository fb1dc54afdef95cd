-- ===== src/Messages/AbortOperationRequest.antt =====
-- AbortOperationRequest of android_keymaster_messages.h.
use platform_system_keymaste.Common.{ℕ, ◌≡◌, Option, some, arith}
use platform_system_keymaste.Wire.{Out, In, ◌>>=◌, append_uint64_to_buf, copy_uint64_from_buf}
use platform_system_keymaste.Wire.Carries.{Carries, Carries-one}
use platform_system_keymaste.Wire.Carries.Primitives.{uint64-Carries}
use platform_system_keymaste.Wire.Advances.{Advances, map-Advances, uint64-Advances}
use platform_system_keymaste.Messages.{Platform}
use platform_system_keymaste.Messages.Fields.{IsWord64, IsReliable, Carries-size}

pub record AbortOperationRequest : Type 0 where
  pub op_handle : ℕ

unfoldable pub serialized_size : AbortOperationRequest → ℕ
serialized_size m = 8

unfoldable pub serialize : AbortOperationRequest → Out → Out
serialize m o = append_uint64_to_buf m.op_handle o

unfoldable pub deserialize : In → Option (AbortOperationRequest × In)
deserialize i = do
  (op_handle, i1) ← copy_uint64_from_buf i
  some (record { op_handle = op_handle }, i1)

-- Every field fits in its place.
abbrev pub Fits : Platform → AbortOperationRequest → Type 0
Fits platform m = IsWord64 m.op_handle

-- The second has the fields of the first.
abbrev pub Same : AbortOperationRequest → AbortOperationRequest → Type 0
Same m w = w.op_handle ≡ m.op_handle

pub serialize-Carries :
    (platform : Platform) (m : AbortOperationRequest)
    → IsReliable platform
    → Fits platform m
    → Carries (serialized_size m) (serialize m) deserialize (Same m)
unfolding serialized_size serialize deserialize
serialize-Carries platform m r h =
    Carries-size (omega arith) (
      Carries-one (λ a. record { op_handle = a }) (Same m) (uint64-Carries m.op_handle h)
        (λ a p. p))

pub deserialize-Advances : Advances deserialize
unfolding deserialize
deserialize-Advances = map-Advances (λ a. record { op_handle = a }) uint64-Advances
