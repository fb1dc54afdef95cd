-- ===== src/Messages/FinishOperationResponse.antt =====
-- What FinishOperationResponse of android_keymaster_messages.cpp holds besides the error.
use platform_system_keymaste.Common.{ℕ, ◌+◌, ◌≤◌, Option, some, arith, ltb, if◌then◌else◌}
use platform_system_keymaste.Wire.{Out, In, ◌>>=◌}
use platform_system_keymaste.Wire.Carries.{Carries, Carries-two}
use platform_system_keymaste.Wire.Advances.{Advances, two-Advances}
use platform_system_keymaste.Buffer.{Buffer}
use platform_system_keymaste.AuthorizationSet.{AuthorizationSet}
use platform_system_keymaste.AuthorizationSet.RoundTrip.Whole.{IsWritable, SameSet}
use platform_system_keymaste.Messages.{
  Platform, copy_buffer, copy_params, append_params, append_if, copy_if,
}
use platform_system_keymaste.Messages.Fields.{
  IsShortBuffer, SameBuffer, Sent, IsReliable, Carries-size, if-Carries, params-Carries,
  buffer-Carries, copy_if-Advances, params-Advances, buffer-Advances,
}
use platform_system_keymaste.AuthorizationSet.Codec
use platform_system_keymaste.Buffer

pub record FinishOperationResponse : Type 0 where
  pub output : Buffer
  pub output_params : AuthorizationSet

unfoldable pub serialized_size : ℕ → FinishOperationResponse → ℕ
serialized_size version m =
    if ltb version 2
    then Buffer.serialized_size m.output
    else Buffer.serialized_size m.output + Codec.serialized_size m.output_params

unfoldable pub serialize : Platform → ℕ → FinishOperationResponse → Out → Out
serialize platform version m o =
    append_if (ltb 1 version) (append_params platform m.output_params) (Buffer.serialize m.output o)

unfoldable pub deserialize :
    Platform → ℕ → FinishOperationResponse → In → Option (FinishOperationResponse × In)
deserialize platform version old i = do
  (output, i1) ← copy_buffer platform i
  (output_params, i2) ← copy_if (ltb 1 version) old.output_params (copy_params platform) i1
  some (record { output = output; output_params = output_params }, i2)

-- Every field fits in its place.
abbrev pub Fits : Platform → ℕ → FinishOperationResponse → Type 0
Fits platform version m =
    (version ≤ 3) × (IsShortBuffer m.output) × (IsWritable platform.layout m.output_params)

-- The last has those fields of the second that are sent, and the others from the first.
abbrev pub Same :
    ℕ → FinishOperationResponse → FinishOperationResponse → FinishOperationResponse → Type 0
Same version old m w =
    (SameBuffer m.output w.output)
    × (Sent (ltb 1 version) (SameSet m.output_params) old.output_params w.output_params)

pub serialize-Carries :
    (platform : Platform) (version : ℕ) (old : FinishOperationResponse)
    (m : FinishOperationResponse)
    → IsReliable platform
    → Fits platform version m
    → Carries
        (serialized_size version m)
        (serialize platform version m)
        (deserialize platform version old)
        (Same version old m)
unfolding serialized_size serialize deserialize
serialize-Carries platform version old m r h = Carries-size (ground arith) (
    Carries-two (λ a b. record { output = a; output_params = b }) (Same version old m)
      (buffer-Carries platform r m.output h.1)
      (if-Carries (ltb 1 version) old.output_params
        (λ sent. params-Carries platform r m.output_params h.2))
      (λ a b p q. (p, q)))

pub deserialize-Advances :
    (platform : Platform) (version : ℕ) (old : FinishOperationResponse)
    → Advances (deserialize platform version old)
unfolding deserialize
deserialize-Advances platform version old =
    two-Advances (λ a b. record { output = a; output_params = b }) (buffer-Advances platform)
      (copy_if-Advances (ltb 1 version) old.output_params (params-Advances platform))
