-- ===== src/Messages/UpdateOperationRequest.antt =====
-- UpdateOperationRequest of android_keymaster_messages.cpp.
use platform_system_keymaste.Common.{
  ℕ, ◌+◌, ◌≤◌, ◌≡◌, Option, some, arith, ltb, ◌==◌, if◌then◌else◌,
}
use platform_system_keymaste.Wire.{Out, In, ◌>>=◌, append_uint64_to_buf, copy_uint64_from_buf}
use platform_system_keymaste.Wire.Carries.{Carries, Carries-three}
use platform_system_keymaste.Wire.Carries.Primitives.{uint64-Carries}
use platform_system_keymaste.Wire.Advances.{Advances, three-Advances, uint64-Advances}
use platform_system_keymaste.Buffer.{Buffer}
use platform_system_keymaste.AuthorizationSet.{AuthorizationSet}
use platform_system_keymaste.AuthorizationSet.RoundTrip.Whole.{IsWritable, SameSet}
use platform_system_keymaste.Messages.{
  Platform, copy_buffer, copy_params, append_params, append_if, copy_if,
}
use platform_system_keymaste.Messages.Fields.{
  IsWord64, IsShortBuffer, SameBuffer, Sent, IsReliable, Carries-size, if-Carries, params-Carries,
  buffer-Carries, copy_if-Advances, params-Advances, buffer-Advances,
}
use platform_system_keymaste.AuthorizationSet.Codec
use platform_system_keymaste.Buffer

pub record UpdateOperationRequest : Type 0 where
  pub op_handle : ℕ
  pub input : Buffer
  pub additional_params : AuthorizationSet

unfoldable pub serialized_size : ℕ → UpdateOperationRequest → ℕ
serialized_size version m =
    if version == 0
    then 8 + Buffer.serialized_size m.input
    else 8 + Buffer.serialized_size m.input + Codec.serialized_size m.additional_params

unfoldable pub serialize : Platform → ℕ → UpdateOperationRequest → Out → Out
serialize platform version m o =
    append_if (ltb 0 version) (append_params platform m.additional_params)
      (Buffer.serialize m.input (append_uint64_to_buf m.op_handle o))

unfoldable pub deserialize :
    Platform → ℕ → UpdateOperationRequest → In → Option (UpdateOperationRequest × In)
deserialize platform version old i = do
  (op_handle, i1) ← copy_uint64_from_buf i
  (input, i2) ← copy_buffer platform i1
  (additional_params, i3) ← copy_if (ltb 0 version) old.additional_params (copy_params platform) i2
  some (record { op_handle = op_handle; input = input; additional_params = additional_params }, i3)

-- Every field fits in its place.
abbrev pub Fits : Platform → ℕ → UpdateOperationRequest → Type 0
Fits platform version m =
    (version ≤ 3)
    × (IsWord64 m.op_handle)
    × (IsShortBuffer m.input)
    × (IsWritable platform.layout m.additional_params)

-- The last has those fields of the second that are sent, and the others from the first.
abbrev pub Same :
    ℕ → UpdateOperationRequest → UpdateOperationRequest → UpdateOperationRequest → Type 0
Same version old m w =
    (w.op_handle ≡ m.op_handle)
    × (SameBuffer m.input w.input)
    × (Sent (ltb 0 version) (SameSet m.additional_params) old.additional_params w.additional_params)

pub serialize-Carries :
    (platform : Platform) (version : ℕ) (old : UpdateOperationRequest) (m : UpdateOperationRequest)
    → IsReliable platform
    → Fits platform version m
    → Carries
        (serialized_size version m)
        (serialize platform version m)
        (deserialize platform version old)
        (Same version old m)
unfolding serialized_size serialize deserialize
serialize-Carries platform version old m r h = Carries-size (ground arith) (
    Carries-three (λ a b c. record { op_handle = a; input = b; additional_params = c })
      (Same version old m) (uint64-Carries m.op_handle h.1) (buffer-Carries platform r m.input h.2)
      (if-Carries (ltb 0 version) old.additional_params
        (λ sent. params-Carries platform r m.additional_params h.3))
      (λ a b c p q s. (p, q, s)))

pub deserialize-Advances :
    (platform : Platform) (version : ℕ) (old : UpdateOperationRequest)
    → Advances (deserialize platform version old)
unfolding deserialize
deserialize-Advances platform version old =
    three-Advances (λ a b c. record { op_handle = a; input = b; additional_params = c })
      uint64-Advances (buffer-Advances platform)
      (copy_if-Advances (ltb 0 version) old.additional_params (params-Advances platform))
