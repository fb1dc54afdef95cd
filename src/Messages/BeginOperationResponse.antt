-- ===== src/Messages/BeginOperationResponse.antt =====
-- What BeginOperationResponse of android_keymaster_messages.cpp holds besides the error.
use platform_system_keymaste.Common.{
  ℕ, ◌+◌, ◌≤◌, ◌≡◌, Option, some, arith, ltb, ◌==◌, if◌then◌else◌,
}
use platform_system_keymaste.Wire.{Out, In, ◌>>=◌, append_uint64_to_buf, copy_uint64_from_buf}
use platform_system_keymaste.Wire.Carries.{Carries, Carries-two}
use platform_system_keymaste.Wire.Carries.Primitives.{uint64-Carries}
use platform_system_keymaste.Wire.Advances.{Advances, two-Advances, uint64-Advances}
use platform_system_keymaste.AuthorizationSet.{AuthorizationSet}
use platform_system_keymaste.AuthorizationSet.RoundTrip.Whole.{IsWritable, SameSet}
use platform_system_keymaste.Messages.{Platform, copy_params, append_params, append_if, copy_if}
use platform_system_keymaste.Messages.Fields.{
  IsWord64, Sent, IsReliable, Carries-size, if-Carries, params-Carries, copy_if-Advances,
  params-Advances,
}
use platform_system_keymaste.AuthorizationSet.Codec

pub record BeginOperationResponse : Type 0 where
  pub op_handle : ℕ
  pub output_params : AuthorizationSet

unfoldable pub serialized_size : ℕ → BeginOperationResponse → ℕ
serialized_size version m = if version == 0 then 8 else 8 + Codec.serialized_size m.output_params

unfoldable pub serialize : Platform → ℕ → BeginOperationResponse → Out → Out
serialize platform version m o =
    append_if (ltb 0 version) (append_params platform m.output_params)
      (append_uint64_to_buf m.op_handle o)

unfoldable pub deserialize :
    Platform → ℕ → BeginOperationResponse → In → Option (BeginOperationResponse × In)
deserialize platform version old i = do
  (op_handle, i1) ← copy_uint64_from_buf i
  (output_params, i2) ← copy_if (ltb 0 version) old.output_params (copy_params platform) i1
  some (record { op_handle = op_handle; output_params = output_params }, i2)

-- Every field fits in its place.
abbrev pub Fits : Platform → ℕ → BeginOperationResponse → Type 0
Fits platform version m =
    (version ≤ 3) × (IsWord64 m.op_handle) × (IsWritable platform.layout m.output_params)

-- The last has those fields of the second that are sent, and the others from the first.
abbrev pub Same :
    ℕ → BeginOperationResponse → BeginOperationResponse → BeginOperationResponse → Type 0
Same version old m w =
    (w.op_handle ≡ m.op_handle)
    × (Sent (ltb 0 version) (SameSet m.output_params) old.output_params w.output_params)

pub serialize-Carries :
    (platform : Platform) (version : ℕ) (old : BeginOperationResponse) (m : BeginOperationResponse)
    → IsReliable platform
    → Fits platform version m
    → Carries
        (serialized_size version m)
        (serialize platform version m)
        (deserialize platform version old)
        (Same version old m)
unfolding serialized_size serialize deserialize
serialize-Carries platform version old m r h = Carries-size (ground arith) (
    Carries-two (λ a b. record { op_handle = a; output_params = b }) (Same version old m)
      (uint64-Carries m.op_handle h.1)
      (if-Carries (ltb 0 version) old.output_params
        (λ sent. params-Carries platform r m.output_params h.2))
      (λ a b p q. (p, q)))

pub deserialize-Advances :
    (platform : Platform) (version : ℕ) (old : BeginOperationResponse)
    → Advances (deserialize platform version old)
unfolding deserialize
deserialize-Advances platform version old =
    two-Advances (λ a b. record { op_handle = a; output_params = b }) uint64-Advances
      (copy_if-Advances (ltb 0 version) old.output_params (params-Advances platform))
