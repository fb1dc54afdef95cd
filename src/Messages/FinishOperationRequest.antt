-- ===== src/Messages/FinishOperationRequest.antt =====
-- FinishOperationRequest of android_keymaster_messages.cpp. In the switch of `SerializedSize` a
-- case falls through to the next one; a version above 3 trips the assertion.
use platform_system_keymaste.Common.{
  ℕ, ◌+◌, ◌≤◌, ◌≡◌, Option, some, arith, ltb, ◌==◌, ◌||◌, if◌then◌else◌,
}
use platform_system_keymaste.Wire.{Out, In, ◌>>=◌, append_uint64_to_buf, copy_uint64_from_buf}
use platform_system_keymaste.Wire.Carries.{Carries, Carries-four}
use platform_system_keymaste.Wire.Carries.Primitives.{uint64-Carries}
use platform_system_keymaste.Wire.Advances.{Advances, four-Advances, uint64-Advances}
use platform_system_keymaste.Buffer.{Buffer}
use platform_system_keymaste.AuthorizationSet.{AuthorizationSet}
use platform_system_keymaste.AuthorizationSet.RoundTrip.Whole.{IsWritable, SameSet}
use platform_system_keymaste.Messages.{
  Platform, copy_buffer, copy_params, append_params, append_if, copy_if,
}
use platform_system_keymaste.Messages.Fields.{
  IsWord64, IsShortBuffer, SameBuffer, Sent, IsReliable, Carries-size, if-Carries, params-Carries,
  buffer-Carries, copy_if-Advances, params-Advances, buffer-Advances,
}
use platform_system_keymaste.AuthorizationSet.Codec
use platform_system_keymaste.Buffer

pub record FinishOperationRequest : Type 0 where
  pub op_handle : ℕ
  pub signature : Buffer
  pub additional_params : AuthorizationSet
  pub input : Buffer

unfoldable pub serialized_size : ℕ → FinishOperationRequest → ℕ
serialized_size version m =
    let case_0 = 8 + Buffer.serialized_size m.signature in
    let case_1 = Codec.serialized_size m.additional_params + case_0 in
    let case_3 = Buffer.serialized_size m.input + case_1 in
    if version == 3
    then case_3
    else if version == 2 || version == 1
    then case_1
    else if version == 0
    then case_0
    else 0

unfoldable pub serialize : Platform → ℕ → FinishOperationRequest → Out → Out
serialize platform version m o = append_if (ltb 2 version) (Buffer.serialize m.input) (
    append_if (ltb 0 version) (append_params platform m.additional_params)
      (Buffer.serialize m.signature (append_uint64_to_buf m.op_handle o)))

unfoldable pub deserialize :
    Platform → ℕ → FinishOperationRequest → In → Option (FinishOperationRequest × In)
deserialize platform version old i = do
  (op_handle, i1) ← copy_uint64_from_buf i
  (signature, i2) ← copy_buffer platform i1
  (additional_params, i3) ← copy_if (ltb 0 version) old.additional_params (copy_params platform) i2
  (input, i4) ← copy_if (ltb 2 version) old.input (copy_buffer platform) i3
  some (
    record {
      op_handle = op_handle;
      signature = signature;
      additional_params = additional_params;
      input = input;
    },
    i4,
  )

-- Every field fits in its place.
abbrev pub Fits : Platform → ℕ → FinishOperationRequest → Type 0
Fits platform version m =
    (version ≤ 3)
    × (IsWord64 m.op_handle)
    × (IsShortBuffer m.signature)
    × (IsWritable platform.layout m.additional_params)
    × (IsShortBuffer m.input)

-- The last has those fields of the second that are sent, and the others from the first.
abbrev pub Same :
    ℕ → FinishOperationRequest → FinishOperationRequest → FinishOperationRequest → Type 0
Same version old m w =
    (w.op_handle ≡ m.op_handle)
    × (SameBuffer m.signature w.signature)
    × (Sent (ltb 0 version) (SameSet m.additional_params) old.additional_params w.additional_params)
    × (Sent (ltb 2 version) (SameBuffer m.input) old.input w.input)

pub serialize-Carries :
    (platform : Platform) (version : ℕ) (old : FinishOperationRequest) (m : FinishOperationRequest)
    → IsReliable platform
    → Fits platform version m
    → Carries
        (serialized_size version m)
        (serialize platform version m)
        (deserialize platform version old)
        (Same version old m)
unfolding serialized_size serialize deserialize
serialize-Carries platform version old m r h = Carries-size (ground (arith, h.0)) (
    Carries-four
      (λ a b c d. record { op_handle = a; signature = b; additional_params = c; input = d })
      (Same version old m) (uint64-Carries m.op_handle h.1)
      (buffer-Carries platform r m.signature h.2)
      (if-Carries (ltb 0 version) old.additional_params
        (λ sent. params-Carries platform r m.additional_params h.3))
      (if-Carries (ltb 2 version) old.input (λ sent. buffer-Carries platform r m.input h.4))
      (λ a b c d p q s t. (p, q, s, t)))

pub deserialize-Advances :
    (platform : Platform) (version : ℕ) (old : FinishOperationRequest)
    → Advances (deserialize platform version old)
unfolding deserialize
deserialize-Advances platform version old =
    four-Advances
      (λ a b c d. record { op_handle = a; signature = b; additional_params = c; input = d })
      uint64-Advances (buffer-Advances platform)
      (copy_if-Advances (ltb 0 version) old.additional_params (params-Advances platform))
      (copy_if-Advances (ltb 2 version) old.input (buffer-Advances platform))
