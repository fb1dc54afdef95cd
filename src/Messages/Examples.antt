-- ===== src/Messages/Examples.antt =====
-- The theorems on the messages at concrete inputs.
use platform_system_keymaste.Common.{
  ℕ, zero, suc, ◌+◌, ◌≤◌, ◌≡◌, refl, ap, true, List, [], ◌∷◌, ◌++◌, some, arith, length, ◌==◌,
  if◌then◌else◌,
}
use platform_system_keymaste.Defs.Tag.{Tag, tag_get_type, is_blob_tag, is_blob_type}
use platform_system_keymaste.Defs.Codes.{KeymasterError, is_ok}
use platform_system_keymaste.Defs.Codes
use platform_system_keymaste.Wire.{
  In, le_value, copy_from_buf, copy_uint32_from_buf, copy_size_and_data_from_buf,
}
use platform_system_keymaste.Wire.RoundTrip.{input, output}
use platform_system_keymaste.Wire.Advances.{IsHeld, IsMoved}
use platform_system_keymaste.Buffer.{Buffer, Allocator, readable, available_read}
use platform_system_keymaste.Buffer.Queue.{IsValid}
use platform_system_keymaste.Buffer
use platform_system_keymaste.AuthorizationSet.{enumerated, AuthorizationSet, empty_set}
use platform_system_keymaste.AuthorizationSet.Codec.{
  Layout, data_lengths, serialized_size_of_elements, size_of_type,
}
use platform_system_keymaste.AuthorizationSet.Codec
use platform_system_keymaste.AuthorizationSet.RoundTrip.Whole.{IsWritable}
use platform_system_keymaste.Messages.{Platform, copy_if}
use platform_system_keymaste.Messages.Fields.{IsReliable}
use platform_system_keymaste.Messages.Response.{Response}
use platform_system_keymaste.Messages.Response
use platform_system_keymaste.Messages.UpdateOperationResponse.{UpdateOperationResponse}
use platform_system_keymaste.Messages.UpdateOperationResponse
use platform_system_keymaste.Messages.AttestKeyResponse.{
  AttestKeyResponse, max_chain_entry_count, deserialize-chain, allocate_chain, copy_entries,
}
use platform_system_keymaste.Messages.AttestKeyResponse
use platform_system_keymaste.Messages.Classes.{response_class}
use platform_system_keymaste.Messages.Classes.Responses.{
  update_operation_response_class, attest_key_response_class,
}
use platform_system_keymaste.Messages.Kinds.{
  update_operation_response, attest_key_response, class_of, deserialize-serialize_message,
  deserialize-inside,
}

zeros : ℕ → List ℕ
zeros zero = []
zeros (suc n) = 0 ∷ zeros n

length-zeros : (n : ℕ) → length (zeros n) ≡ n
unfolding zeros
length-zeros zero = refl
length-zeros (suc n) = ap suc (length-zeros n)

abbrev platform : Platform
platform = record {
  layout = record { tag_code = λ t. 1; tag_of_code = λ n. Tag.purpose; sizeof_param = 24 };
  heap = record { alloc_elems = λ n. true; alloc_bytes = λ n. true };
  buffers = record { alloc = λ n. true; fresh = zeros; length-fresh = length-zeros };
  alloc_entries = λ n. true;
  error_code = λ e. if is_ok e then 0 else 1;
  error_of_code = λ n. if n == 0 then Codes.ok else KeymasterError.unknown_error;
}

platform-IsReliable : IsReliable platform
platform-IsReliable = record {
  plenty = record { elems_given = λ n. refl; bytes_given = λ n. refl };
  buffers_given = λ n. refl;
  entries_given = λ n. refl;
}

abbrev params : AuthorizationSet
params = record empty_set { elems = record { tag = Tag.purpose; value = enumerated 2 } ∷ [] }

abbrev bytes_of : List ℕ → Buffer
bytes_of bytes = record {
  memory = bytes;
  buffer_size = length bytes;
  read_position = 0;
  write_position = length bytes;
}

abbrev updated : Response UpdateOperationResponse
updated = record {
  error = KeymasterError.ok;
  body = record { output = bytes_of (5 ∷ 6 ∷ []); input_consumed = 3; output_params = params };
}

abbrev blank : Response UpdateOperationResponse
blank = record {
  error = KeymasterError.unknown_error;
  body = record { output = bytes_of []; input_consumed = 0; output_params = empty_set };
}

params-IsWritable : IsWritable platform.layout params
unfolding data_lengths is_blob_tag is_blob_type tag_get_type serialized_size_of_elements
    size_of_type
params-IsWritable = record {
  elems_ok = (record { tag_eq = refl; word = omega arith; value_ok = omega arith }, tt);
  data_small = omega arith;
  elems_small = omega arith;
  array_small = omega arith;
  data_used = refl;
}

bytes-IsValid : (bytes : List ℕ) → IsValid (bytes_of bytes)
bytes-IsValid bytes = record { size_eq = refl; read_le = omega arith; write_le = omega arith }

deserialize-serialize_message_example :
    unfold class_of response_class update_operation_response_class in
    let c = class_of platform 3 update_operation_response in
    let o = c.serialize updated (output 100 300) in
    (o.ptr ≡ 100 + c.serialized_size updated)
    × ((w : c.Message) × (c.deserialize blank (input (o.written ++ []) 100 300)
          ≡ some (w, input [] o.ptr 300))
        × c.Same blank updated w)
unfolding class_of response_class update_operation_response_class Response.serialized_size is_ok
    UpdateOperationResponse.serialized_size Buffer.serialized_size available_read readable
    Codec.serialized_size serialized_size_of_elements size_of_type tag_get_type
deserialize-serialize_message_example =
    deserialize-serialize_message platform 3 update_operation_response updated blank [] 100 300
      platform-IsReliable
      (
        (refl, omega arith),
        (omega arith, (bytes-IsValid (5 ∷ 6 ∷ []), omega arith), omega arith, params-IsWritable),
      )
      (omega arith) (omega arith)

-- A response with a chain of one certificate of two bytes.
abbrev chain_bytes : In
chain_bytes = input (1 ∷ 0 ∷ 0 ∷ 0 ∷ 2 ∷ 0 ∷ 0 ∷ 0 ∷ 7 ∷ 8 ∷ []) 100 110

abbrev chain : AttestKeyResponse
chain = record { certificate_chain = (7 ∷ 8 ∷ []) ∷ [] }

chain_bytes_read :
    AttestKeyResponse.deserialize platform chain_bytes ≡ some (chain, input [] 110 110)
unfolding AttestKeyResponse.deserialize copy_entries allocate_chain copy_size_and_data_from_buf
    copy_uint32_from_buf copy_from_buf le_value
chain_bytes_read = refl

deserialize-chain_example :
    (length chain.certificate_chain ≤ max_chain_entry_count)
    × (platform.alloc_entries (length chain.certificate_chain) ≡ true)
deserialize-chain_example = deserialize-chain platform chain_bytes chain_bytes_read

-- The same with the number of no error before it.
abbrev response_bytes : In
response_bytes = input (0 ∷ 0 ∷ 0 ∷ 0 ∷ chain_bytes.bytes) 96 110

abbrev no_chain : Response AttestKeyResponse
no_chain = record { error = KeymasterError.unknown_error; body = record { certificate_chain = [] } }

abbrev attested : Response AttestKeyResponse
attested = record { error = KeymasterError.ok; body = chain }

response_bytes_read :
    Response.deserialize platform
      (λ old. AttestKeyResponse.deserialize platform)
      no_chain
      response_bytes
    ≡ some (attested, input [] 110 110)
unfolding Response.deserialize copy_if is_ok AttestKeyResponse.deserialize copy_entries
    allocate_chain copy_size_and_data_from_buf copy_uint32_from_buf copy_from_buf le_value
response_bytes_read = refl

response_bytes-IsHeld : IsHeld response_bytes
response_bytes-IsHeld = record { inside = omega arith; held = omega arith; bounded = omega arith }

deserialize-inside_example : IsMoved response_bytes (input [] 110 110)
unfolding class_of response_class attest_key_response_class
deserialize-inside_example =
    deserialize-inside platform 3 attest_key_response no_chain response_bytes response_bytes-IsHeld
      attested (input [] 110 110) response_bytes_read
