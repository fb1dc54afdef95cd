-- ===== src/Buffer.antt =====
-- The class Buffer of include/keymaster/serializable.h and serializable.cpp.
-- `memory` is the array that `buffer_` points to, empty for a null pointer. `fresh n` is what a new
-- array of n bytes holds before it is written, and `alloc n` whether it can be allocated.
pub mod Queue
pub mod Growth
mod Examples
use platform_system_keymaste.Common.{
  ℕ, ◌+◌, ◌-◌, ◌≡◌, ◌≤◌, Bool, true, false, List, [], ◌∷◌, ◌++◌, Option, none, some, length, take,
  drop, ltb, leb, if◌then◌else◌, to_uint64,
}
use platform_system_keymaste.Wire.{
  Out, In, wraps, append_size_and_data_to_buf, copy_size_and_data_from_buf,
}

pub record Buffer : Type 0 where
  pub memory : List ℕ
  pub buffer_size : ℕ
  pub read_position : ℕ
  pub write_position : ℕ

pub record Allocator : Type 0 where
  pub alloc : ℕ → Bool
  pub fresh : ℕ → List ℕ
  pub length-fresh : (n : ℕ) → length (fresh n) ≡ n

abbrev pub empty : Buffer
empty = record { memory = []; buffer_size = 0; read_position = 0; write_position = 0 }

-- `Clear` wipes the memory before it lets it go.
unfoldable pub clear : Buffer → Buffer
clear b = empty

unfoldable pub available_write : Buffer → ℕ
available_write b = b.buffer_size - b.write_position

unfoldable pub available_read : Buffer → ℕ
available_read b = b.write_position - b.read_position

-- The bytes from `peek_read` on, `available_read` of them.
unfoldable pub readable : Buffer → List ℕ
unfolding available_read
readable b = take (available_read b) (drop b.read_position b.memory)

-- memcpy(memory + pos, bytes, length bytes)
unfoldable pub overwrite : List ℕ → ℕ → List ℕ → List ℕ
overwrite memory pos bytes = take pos memory ++ (bytes ++ drop (pos + length bytes) memory)

module _ (m : Allocator) where
  open m use {alloc, fresh}

  -- The sum of sizes is a size_t, which wraps.
  unfoldable pub reserve : Buffer → ℕ → Buffer × Bool
  unfolding available_write
  reserve b size =
      if ltb (available_write b) size
      then (let new_size = to_uint64 (b.buffer_size + size - available_write b) in
          if alloc new_size
          then (
            record {
              memory = overwrite (fresh new_size) 0 (readable b);
              buffer_size = new_size;
              read_position = 0;
              write_position = b.write_position - b.read_position;
            },
            true,
          )
          else (b, false))
      else (b, true)

  -- `Reinitialize(size_t size)`
  unfoldable pub reinitialize_size : Buffer → ℕ → Buffer × Bool
  unfolding clear
  reinitialize_size b size =
      if alloc size
      then (record (clear b) { memory = fresh size; buffer_size = size }, true)
      else (clear b, false)

  -- `Reinitialize(const void* data, size_t data_len)`, at the address of the data.
  unfoldable pub reinitialize : Buffer → ℕ → List ℕ → Buffer × Bool
  unfolding clear
  reinitialize b address bytes =
      let size = length bytes in
      if wraps address size
      then (clear b, false)
      else if alloc size
      then (
        record { memory = bytes; buffer_size = size; read_position = 0; write_position = size },
        true,
      )
      else (clear b, false)

  -- `Reinitialize(const Buffer& buffer)`, of another buffer whose readable bytes are at the address.
  unfoldable pub reinitialize_buffer : Buffer → ℕ → Buffer → Buffer × Bool
  unfolding reinitialize readable
  reinitialize_buffer b address buffer = reinitialize b address (readable buffer)

  unfoldable pub deserialize : Buffer → In → (Buffer × Option In)
  unfolding clear
  deserialize b i = elim (copy_size_and_data_from_buf alloc i) [
    | none ↦ (clear b, none)
    | some (bytes, i') ↦ (
      record (clear b) {
        memory = bytes;
        buffer_size = length bytes;
        write_position = length bytes;
      },
      some i',
    )
  ]

unfoldable pub write : Buffer → List ℕ → Buffer × Bool
unfolding available_write overwrite
write b src = if ltb (available_write b) (length src) then (b, false) else (
  record b {
    memory = overwrite b.memory b.write_position src;
    write_position = b.write_position + length src;
  },
  true,
)

-- The bytes read, if there are as many as asked for.
unfoldable pub read : Buffer → ℕ → Buffer × Option (List ℕ)
unfolding available_read
read b read_length = if ltb (available_read b) read_length then (b, none) else (
  record b { read_position = b.read_position + read_length },
  some (take read_length (drop b.read_position b.memory)),
)

-- The distance is an int, taken as the size_t that it is converted to; a sum of size_t wraps.
unfoldable pub advance_read : Buffer → ℕ → Buffer × Bool
advance_read b distance =
    if leb (to_uint64 (b.read_position + distance)) b.write_position
    then (record b { read_position = to_uint64 (b.read_position + distance) }, true)
    else (b, false)

unfoldable pub advance_write : Buffer → ℕ → Buffer × Bool
advance_write b distance =
    if leb (to_uint64 (b.write_position + distance)) b.buffer_size
    then (record b { write_position = to_uint64 (b.write_position + distance) }, true)
    else (b, false)

unfoldable pub serialized_size : Buffer → ℕ
unfolding available_read
serialized_size b = 4 + available_read b

unfoldable pub serialize : Buffer → Out → Out
serialize b o = append_size_and_data_to_buf (readable b) o
