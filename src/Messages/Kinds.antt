-- ===== src/Messages/Kinds.antt =====
-- The classes of messages by name: android_keymaster_messages.h. Every one of them is written and read
-- back.
use platform_system_keymaste.Common.{ℕ, ◌+◌, ◌≤◌, ◌<◌, ◌≡◌, List, ◌++◌, some}
use platform_system_keymaste.Wire.{In}
use platform_system_keymaste.Wire.RoundTrip.{input, output}
use platform_system_keymaste.Wire.Carries.{Carries-round}
use platform_system_keymaste.Wire.Advances.{IsHeld, IsMoved}
use platform_system_keymaste.Messages.{Platform}
use platform_system_keymaste.Messages.Fields.{IsReliable}
use platform_system_keymaste.Messages.Classes.{MessageClass, response_class, empty_class}
use platform_system_keymaste.Messages.Classes.Requests.{
  supported_by_algorithm_request_class, supported_by_algorithm_and_purpose_request_class,
  generate_key_request_class, get_key_characteristics_request_class, begin_operation_request_class,
  update_operation_request_class, finish_operation_request_class, abort_operation_request_class,
  add_entropy_request_class, import_key_request_class, export_key_request_class,
  delete_key_request_class, attest_key_request_class, upgrade_key_request_class,
  configure_request_class,
}
use platform_system_keymaste.Messages.Classes.Responses.{
  supported_response_class, generate_key_response_class, get_key_characteristics_response_class,
  begin_operation_response_class, update_operation_response_class, finish_operation_response_class,
  import_key_response_class, export_key_response_class, get_version_response_class,
  attest_key_response_class, upgrade_key_response_class,
}

pub data Kind : Type 0 where
  supported_algorithms_request supported_import_formats_request : Kind
  supported_export_formats_request supported_block_modes_request : Kind
  supported_padding_modes_request supported_digests_request generate_key_request : Kind
  get_key_characteristics_request begin_operation_request update_operation_request : Kind
  finish_operation_request abort_operation_request add_entropy_request import_key_request : Kind
  export_key_request delete_key_request delete_all_keys_request get_version_request : Kind
  attest_key_request upgrade_key_request configure_request supported_algorithms_response : Kind
  supported_block_modes_response supported_padding_modes_response : Kind
  supported_digests_response supported_import_formats_response : Kind
  supported_export_formats_response generate_key_response : Kind
  get_key_characteristics_response begin_operation_response update_operation_response : Kind
  finish_operation_response abort_operation_response add_entropy_response : Kind
  import_key_response export_key_response delete_key_response delete_all_keys_response : Kind
  get_version_response attest_key_response upgrade_key_response configure_response : Kind

unfoldable pub class_of : (platform : Platform) → ℕ → Kind → MessageClass platform
unfolding response_class empty_class
class_of platform version supported_algorithms_request = empty_class platform version
class_of platform version supported_import_formats_request =
    supported_by_algorithm_request_class platform version
class_of platform version supported_export_formats_request =
    supported_by_algorithm_request_class platform version
class_of platform version supported_block_modes_request =
    supported_by_algorithm_and_purpose_request_class platform version
class_of platform version supported_padding_modes_request =
    supported_by_algorithm_and_purpose_request_class platform version
class_of platform version supported_digests_request =
    supported_by_algorithm_and_purpose_request_class platform version
class_of platform version generate_key_request = generate_key_request_class platform version
class_of platform version get_key_characteristics_request =
    get_key_characteristics_request_class platform version
class_of platform version begin_operation_request = begin_operation_request_class platform version
class_of platform version update_operation_request = update_operation_request_class platform version
class_of platform version finish_operation_request = finish_operation_request_class platform version
class_of platform version abort_operation_request = abort_operation_request_class platform version
class_of platform version add_entropy_request = add_entropy_request_class platform version
class_of platform version import_key_request = import_key_request_class platform version
class_of platform version export_key_request = export_key_request_class platform version
class_of platform version delete_key_request = delete_key_request_class platform version
class_of platform version delete_all_keys_request = empty_class platform version
class_of platform version get_version_request = empty_class platform version
class_of platform version attest_key_request = attest_key_request_class platform version
class_of platform version upgrade_key_request = upgrade_key_request_class platform version
class_of platform version configure_request = configure_request_class platform version
class_of platform version supported_algorithms_response =
    response_class platform (supported_response_class platform version)
class_of platform version supported_block_modes_response =
    response_class platform (supported_response_class platform version)
class_of platform version supported_padding_modes_response =
    response_class platform (supported_response_class platform version)
class_of platform version supported_digests_response =
    response_class platform (supported_response_class platform version)
class_of platform version supported_import_formats_response =
    response_class platform (supported_response_class platform version)
class_of platform version supported_export_formats_response =
    response_class platform (supported_response_class platform version)
class_of platform version generate_key_response =
    response_class platform (generate_key_response_class platform version)
class_of platform version get_key_characteristics_response =
    response_class platform (get_key_characteristics_response_class platform version)
class_of platform version begin_operation_response =
    response_class platform (begin_operation_response_class platform version)
class_of platform version update_operation_response =
    response_class platform (update_operation_response_class platform version)
class_of platform version finish_operation_response =
    response_class platform (finish_operation_response_class platform version)
class_of platform version abort_operation_response =
    response_class platform (empty_class platform version)
class_of platform version add_entropy_response =
    response_class platform (empty_class platform version)
class_of platform version import_key_response =
    response_class platform (import_key_response_class platform version)
class_of platform version export_key_response =
    response_class platform (export_key_response_class platform version)
class_of platform version delete_key_response =
    response_class platform (empty_class platform version)
class_of platform version delete_all_keys_response =
    response_class platform (empty_class platform version)
class_of platform version get_version_response =
    response_class platform (get_version_response_class platform version)
class_of platform version attest_key_response =
    response_class platform (attest_key_response_class platform version)
class_of platform version upgrade_key_response =
    response_class platform (upgrade_key_response_class platform version)
class_of platform version configure_response =
    response_class platform (empty_class platform version)

-- A message of any class and version, whose fields fit in their places, is written, into a buffer with
-- room for it, as exactly `SerializedSize` bytes, and `Deserialize` of any message of the class makes
-- of these bytes one with the same fields that are sent, and stops where the writing did, whatever
-- follows: enumerators, handles, byte strings and chains are equal, buffers have the same bytes to
-- read, sets have the same parameters. Fields that the version does not have, and those of a response
-- with an error, stay. The buffer lies in the lower half of the address space, memory can be
-- allocated, and the number of the error of a response names it.
pub deserialize-serialize_message :
    (platform : Platform) (version : ℕ) (kind : Kind)
    (m old : (class_of platform version kind).Message) (rest : List ℕ) (start end : ℕ)
    → IsReliable platform
    → (class_of platform version kind).Fits m
    → start + (class_of platform version kind).serialized_size m ≤ end
    → end < 0x8000_0000_0000_0000
    → let c = class_of platform version kind in
      let o = c.serialize m (output start end) in
      (o.ptr ≡ start + c.serialized_size m)
      × ((w : c.Message) × (c.deserialize old (input (o.written ++ rest) start end)
            ≡ some (w, input rest o.ptr end))
          × c.Same old m w)
deserialize-serialize_message platform version kind m old rest start end r h room low =
    Carries-round ((class_of platform version kind).carries m old r h) rest start end room low

-- Whatever bytes a message of any class and version is read from, if `Deserialize` says true, it has
-- moved forward to a position that is not behind the end, which stays where it was, and over as many
-- bytes of the input as the position says. At first the position is not behind the end, the input has
-- the bytes up to the end, and the end lies in the lower half of the address space.
pub deserialize-inside :
    (platform : Platform) (version : ℕ) (kind : Kind)
    (old : (class_of platform version kind).Message) (i : In)
    → IsHeld i
    → let c = class_of platform version kind in
      (m : c.Message) (j : In) → c.deserialize old i ≡ some (m, j) → IsMoved i j
deserialize-inside platform version kind old i h m j e =
    ((class_of platform version kind).advances old).moved i m j h e
