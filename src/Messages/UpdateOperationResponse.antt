-- ===== src/Messages/UpdateOperationResponse.antt =====
-- What UpdateOperationResponse of android_keymaster_messages.cpp holds besides the error. In
-- the switch of `NonErrorSerializedSize` a case falls through to the next one; a version above 3 trips
-- the assertion.
use platform_system_keymaste.Common.{
  ℕ, ◌+◌, ◌≤◌, ◌≡◌, Option, some, arith, ltb, ◌==◌, ◌||◌, if◌then◌else◌,
}
use platform_system_keymaste.Wire.{Out, In, ◌>>=◌, append_uint32_to_buf, copy_uint32_from_buf}
use platform_system_keymaste.Wire.RoundTrip.{IsWord}
use platform_system_keymaste.Wire.Carries.{Carries, Carries-three}
use platform_system_keymaste.Wire.Carries.Primitives.{uint32-Carries}
use platform_system_keymaste.Wire.Advances.{Advances, three-Advances, uint32-Advances}
use platform_system_keymaste.Buffer.{Buffer}
use platform_system_keymaste.AuthorizationSet.{AuthorizationSet}
use platform_system_keymaste.AuthorizationSet.RoundTrip.Whole.{IsWritable, SameSet}
use platform_system_keymaste.Messages.{
  Platform, copy_buffer, copy_params, append_params, append_if, copy_if,
}
use platform_system_keymaste.Messages.Fields.{
  IsShortBuffer, SameBuffer, Sent, IsReliable, Carries-size, if-Carries, params-Carries,
  buffer-Carries, copy_if-Advances, params-Advances, buffer-Advances,
}
use platform_system_keymaste.AuthorizationSet.Codec
use platform_system_keymaste.Buffer

pub record UpdateOperationResponse : Type 0 where
  pub output : Buffer
  pub input_consumed : ℕ
  pub output_params : AuthorizationSet

unfoldable pub serialized_size : ℕ → UpdateOperationResponse → ℕ
serialized_size version m =
    let case_0 = Buffer.serialized_size m.output in
    let case_1 = 4 + case_0 in
    let case_2 = Codec.serialized_size m.output_params + case_1 in
    if version == 3 || version == 2
    then case_2
    else if version == 1
    then case_1
    else if version == 0
    then case_0
    else 0

unfoldable pub serialize : Platform → ℕ → UpdateOperationResponse → Out → Out
serialize platform version m o =
    append_if (ltb 1 version) (append_params platform m.output_params) (
      append_if (ltb 0 version) (append_uint32_to_buf m.input_consumed)
        (Buffer.serialize m.output o))

unfoldable pub deserialize :
    Platform → ℕ → UpdateOperationResponse → In → Option (UpdateOperationResponse × In)
deserialize platform version old i = do
  (output, i1) ← copy_buffer platform i
  (input_consumed, i2) ← copy_if (ltb 0 version) old.input_consumed (copy_uint32_from_buf) i1
  (output_params, i3) ← copy_if (ltb 1 version) old.output_params (copy_params platform) i2
  some (
    record { output = output; input_consumed = input_consumed; output_params = output_params },
    i3,
  )

-- Every field fits in its place.
abbrev pub Fits : Platform → ℕ → UpdateOperationResponse → Type 0
Fits platform version m =
    (version ≤ 3)
    × (IsShortBuffer m.output)
    × (IsWord m.input_consumed)
    × (IsWritable platform.layout m.output_params)

-- The last has those fields of the second that are sent, and the others from the first.
abbrev pub Same :
    ℕ → UpdateOperationResponse → UpdateOperationResponse → UpdateOperationResponse → Type 0
Same version old m w =
    (SameBuffer m.output w.output)
    × (Sent (ltb 0 version) (λ a. a ≡ m.input_consumed) old.input_consumed w.input_consumed)
    × (Sent (ltb 1 version) (SameSet m.output_params) old.output_params w.output_params)

pub serialize-Carries :
    (platform : Platform) (version : ℕ) (old : UpdateOperationResponse)
    (m : UpdateOperationResponse)
    → IsReliable platform
    → Fits platform version m
    → Carries
        (serialized_size version m)
        (serialize platform version m)
        (deserialize platform version old)
        (Same version old m)
unfolding serialized_size serialize deserialize
serialize-Carries platform version old m r h = Carries-size (ground (arith, h.0)) (
    Carries-three (λ a b c. record { output = a; input_consumed = b; output_params = c })
      (Same version old m) (buffer-Carries platform r m.output h.1)
      (if-Carries (ltb 0 version) old.input_consumed (λ sent. uint32-Carries m.input_consumed h.2))
      (if-Carries (ltb 1 version) old.output_params
        (λ sent. params-Carries platform r m.output_params h.3))
      (λ a b c p q s. (p, q, s)))

pub deserialize-Advances :
    (platform : Platform) (version : ℕ) (old : UpdateOperationResponse)
    → Advances (deserialize platform version old)
unfolding deserialize
deserialize-Advances platform version old =
    three-Advances (λ a b c. record { output = a; input_consumed = b; output_params = c })
      (buffer-Advances platform)
      (copy_if-Advances (ltb 0 version) old.input_consumed uint32-Advances)
      (copy_if-Advances (ltb 1 version) old.output_params (params-Advances platform))
