-- ===== src/Lib.antt =====
-- A verification library for the software keymaster: the code that stores keys' authorizations, decides
-- whether a key may be used, and moves its data over a wire.
--
-- Parts and files
--   Common, Common/Tests, Common/Lists
--       Boolean tests on numbers, the integers of 32 and 64 bits, and lists over native numbers.
--   Defs/Tag, Defs/Codes
--       The tags of include/keymaster/keymaster_tags.h, and the error codes and purposes that the
--       source names. Their numbers stand in headers outside the repository, so that the model has
--       constructors for them, and one more for any other number.
--   Wire, with RoundTrip, Bounds, Carries (and its Primitives), Advances
--       The functions append_* and copy_* of serializable.cpp and include/keymaster/serializable.h.
--       An output is an address, an end and the bytes written so far; an input is an address, an end
--       and the bytes that follow. An address is a number below 2 ^ 64, and its sums wrap. Carries is
--       about values that are written and read back, part by part, Advances about where a read ends.
--   Buffer, Buffer/Queue, Buffer/Growth
--       The class Buffer of the same two files: an array, its size, and a position for reads and one
--       for writes. Each method is a function from a buffer to a buffer and its result.
--   AuthorizationSet, with Memory, Contents, Push, Query, Lookup, Codec, Deserialized,
--     RoundTrip, Advances
--       The class AuthorizationSet of authorization_set.cpp: Memory has what allocates, Query the
--       searches and getters, Codec the serialization. Its abstract view, `contents`, is the list of its
--       parameters; a byte string is an offset and a length inside a set, and a list of bytes outside.
--   Messages, with a module per class, Fields, Response, Classes, Kinds
--       The messages of android_keymaster_messages.cpp and include/keymaster/android_keymaster_messages.h.
--       Every class is a record with SerializedSize, Serialize and Deserialize; Response is what all
--       responses share. Classes has the interface of a class of messages, which Classes/Requests and
--       Classes/Responses fill, and Kinds has the classes by name.
--   Enforcement, with AccessTime, AccessCount, Token, Rules, Begin, Operation
--       The class KeymasterEnforcement of keymaster_enforcement.cpp. Its state is the two tables, and
--       AuthorizeBegin is a function from the state to the state and an error code. Begin/Rounds is about
--       the loop over a key's parameters, Begin/Sound says what a permission means, Begin/Uses and
--       Begin/Limit how uses are counted over calls, and
--       Operation/Sound what permits an update or a finish.
--   OperationTable, with Handles, Adding, Slots
--       The class OperationTable of operation_table.cpp: slots for operations under random handles.
--       Handles is about searches and deletions, Adding about additions, Slots about room for them.
--   AndroidKeymaster, with Load, Loading, Keys, Handlers, Lifecycle, Beginning,
--     Sequences, Progress
--       The handlers of android_keymaster.cpp. A handler is a function from the state, which is the
--       table and what the policy keeps, and a request to the state and a response. Lifecycle is about
--       updates and ends of operations, Beginning about their beginnings, Loading about loaded keys,
--       Sequences about requests in any order, Progress about requests to begin that succeed.
--   KeyBlob, with Integrity, RoundTrip
--       The blobs of integrity_assured_key_blob.cpp, as lists of bytes.
--   SoftContext, with Versions, Upgrade
--       UpgradeKeyBlob of soft_keymaster_context.cpp, and the hidden authorizations that it builds.
--   SoftContext/OldBlob, with Bounds
--       ParseOldSoftkeymasterBlob of the same file, until it decodes the key. An int is its 32 bits.
--
-- How they interact
--   A Buffer is serialized by the functions of Wire, an AuthorizationSet and the messages by these and
--   those of their parts. KeymasterEnforcement reads AuthorizationSets by
--   the getters of AuthorizationSet/Query. AndroidKeymaster calls it for each operation in its table,
--   and the virtual methods of the other classes.
--
-- Parameters
--   Whether an allocation succeeds is an argument (Heap, Allocator, or a test of the size). The virtual
--   methods of KeymasterEnforcement are the record Context; the numbers of enumerators, the layout of
--   an authentication token and the conversion of byte order are the record Platform. The methods of
--   KeymasterContext, of keys, of factories and of the subclasses of Operation are the record Services;
--   the numbers of the tags in a serialized set are the record Layout, which is part of the record
--   Platform of Messages, beside the numbers of the errors. An enumerator in a message is its number. HMAC
--   and the addresses of new arrays are the record Vault; ParseKeyBlob is a field of SoftContext.
--
-- Bounds and fuel
--   `get_tag_count` runs on fuel, one more round than the set has entries, and the theorem about it
--   says that this is enough. A search index starts at -1, which is `none` here. Sums that wrap in the
--   source are written with the remainder by 2 ^ 32 or 2 ^ 64; where a theorem assumes that they do
--   not, a hypothesis says so. A write outside an array of an AuthorizationSet is `none`. The sizes that
--   the copy constructor of an AuthorizationSet leaves uninitialised for an invalid set are 0.
--
-- What is not modelled
--   AuthorizationSet: sorting, deduplication, union and difference.
--   AndroidKeymaster: the requests for supported algorithms, modes and formats, which copy lists.
--   KeymasterEnforcement: CreateKeyId, a hash by OpenSSL.
--   The subclasses of Operation, keys and factories, the encrypted key blobs, the rest of
--   SoftKeymasterContext, the device, and the glue to OpenSSL.
mod Common
pub mod Defs
pub mod Wire
pub mod Buffer
pub mod AuthorizationSet
pub mod Enforcement
pub mod Messages
pub mod OperationTable
pub mod AndroidKeymaster
pub mod KeyBlob
pub mod SoftContext
