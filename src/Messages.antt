-- ===== src/Messages.antt =====
-- The messages of android_keymaster_messages.h and android_keymaster_messages.cpp, one module per
-- class, which has its fields, `SerializedSize`, `Serialize` and `Deserialize`. `Deserialize` gets what
-- the message held before, which a field keeps that is not read, and returns the message and the rest
-- of the input, or none for false; what a read that fails leaves in the message is left out, since no
-- caller looks at it. An enumerator is the number that is sent for it. Here are what the messages
-- share.
pub mod Fields
pub mod Response
pub mod Classes
pub mod Kinds
mod Examples
pub mod SupportedByAlgorithmRequest
pub mod SupportedByAlgorithmAndPurposeRequest
pub mod ConfigureRequest
pub mod AbortOperationRequest
pub mod GenerateKeyRequest
pub mod GenerateKeyResponse
pub mod ImportKeyResponse
pub mod GetKeyCharacteristicsRequest
pub mod GetKeyCharacteristicsResponse
pub mod BeginOperationRequest
pub mod BeginOperationResponse
pub mod UpdateOperationRequest
pub mod UpdateOperationResponse
pub mod FinishOperationRequest
pub mod FinishOperationResponse
pub mod AddEntropyRequest
pub mod ImportKeyRequest
pub mod ExportKeyRequest
pub mod ExportKeyResponse
pub mod DeleteKeyRequest
pub mod AttestKeyRequest
pub mod UpgradeKeyRequest
pub mod UpgradeKeyResponse
pub mod SupportedResponse
pub mod GetVersionResponse
pub mod AttestKeyResponse
use platform_system_keymaste.Common.{
  ℕ, ◌+◌, ◌*◌, Bool, List, Option, none, some, length, if◌then◌else◌, ◌==◌, ltb,
}
use platform_system_keymaste.Defs.Codes.{KeymasterError}
use platform_system_keymaste.Wire.{
  Out, In, append_size_and_data_to_buf, copy_size_and_data_from_buf,
}
use platform_system_keymaste.Buffer
use platform_system_keymaste.Buffer.{Buffer, Allocator}
use platform_system_keymaste.AuthorizationSet.{AuthorizationSet}
use platform_system_keymaste.AuthorizationSet.Memory.{Heap}
use platform_system_keymaste.AuthorizationSet.Codec
use platform_system_keymaste.AuthorizationSet.Codec.{Layout}
use platform_system_keymaste.AuthorizationSet.RoundTrip.Whole.{copy_set}

-- What the platform decides: the numbers of the tags and the errors, and which memory can be
-- allocated.
pub record Platform : Type 0 where
  pub layout : Layout
  pub heap : Heap
  pub buffers : Allocator
  pub alloc_entries : ℕ → Bool
  pub error_code : KeymasterError → ℕ
  pub error_of_code : ℕ → KeymasterError

unfoldable pub key_blob_size : List ℕ → ℕ
key_blob_size key_blob = 4 + length key_blob

unfoldable pub serialize_key_blob : List ℕ → Out → Out
serialize_key_blob key_blob o = append_size_and_data_to_buf key_blob o

unfoldable pub deserialize_key_blob : Platform → In → Option (List ℕ × In)
deserialize_key_blob platform i = copy_size_and_data_from_buf platform.heap.alloc_bytes i

abbrev read_buffer : Buffer × Option In → Option (Buffer × In)
read_buffer (b, none) = none
read_buffer (b, some i) = some (b, i)

-- `Deserialize` of a Buffer and of an AuthorizationSet, which begin by emptying it.
unfoldable pub copy_buffer : Platform → In → Option (Buffer × In)
copy_buffer platform i = read_buffer (Buffer.deserialize platform.buffers Buffer.empty i)

abbrev pub copy_params : Platform → In → Option (AuthorizationSet × In)
copy_params platform i = copy_set platform.layout platform.heap i

abbrev pub append_params : Platform → AuthorizationSet → Out → Out
append_params platform s o = Codec.serialize platform.layout s o

-- A field that is sent under a condition.
unfoldable pub append_if : Bool → (Out → Out) → Out → Out
append_if b f o = if b then f o else o

unfoldable pub copy_if {ℓ} : {A : Type ℓ} → Bool → A → (In → Option (A × In)) → In → Option (A × In)
copy_if b old c i = if b then c i else some (old, i)
