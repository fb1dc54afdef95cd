-- ===== src/Buffer/Growth.antt =====
-- What keeps a buffer well formed, what `reserve` keeps, and a buffer written to a message and read
-- back. (Class Buffer, serializable.h and serializable.cpp.)
use platform_system_keymaste.Common.{
  inl, inr, Option-cases, ℕ, ◌+◌, ◌-◌, ◌≤◌, ◌<◌, ◌≡◌, refl, true, List, ◌++◌, some, arith, length,
  take, drop, length-append, length-take, length-drop, take-append, take-length, leb, to_uint64,
}
use platform_system_keymaste.Wire.{In, copy_size_and_data_from_buf}
use platform_system_keymaste.Wire.RoundTrip.{output, input, copy-append_size_and_data}
use platform_system_keymaste.Buffer.{
  Buffer, Allocator, clear, available_read, available_write, readable, overwrite, reserve,
  reinitialize, reinitialize_size, reinitialize_buffer, deserialize, write, read, advance_read,
  advance_write, serialize, serialized_size,
}
use platform_system_keymaste.Buffer.Queue.{IsValid, length-readable}

length-overwrite :
    (memory : List ℕ) (pos : ℕ) (bytes : List ℕ)
    → pos + length bytes ≤ length memory
    → length (overwrite memory pos bytes) ≡ length memory
unfolding overwrite
length-overwrite memory pos bytes h = omega (
  arith,
  length-append (take pos memory) (bytes ++ drop (pos + length bytes) memory),
  length-append bytes (drop (pos + length bytes) memory),
  length-take pos memory,
  length-drop (pos + length bytes) memory,
)

readable-overwrite :
    (mid : List ℕ) (size : ℕ) (memory : List ℕ)
    → readable (record {
      memory = overwrite memory 0 mid;
      buffer_size = size;
      read_position = 0;
      write_position = length mid;
    })
      ≡ mid
unfolding readable overwrite available_read
readable-overwrite mid size memory =
    let e : length mid - 0 ≡ length mid = omega arith in rw e (take-append mid _)

-- The methods that move the positions of a buffer.
pub data Call : Type 0 where
  writes : List ℕ → Call
  reads : ℕ → Call
  advances_read : ℕ → Call
  advances_write : ℕ → Call
  clears : Call
  reserves : ℕ → Call
  reinitializes_size : ℕ → Call
  reinitializes : ℕ → List ℕ → Call
  reinitializes_buffer : ℕ → Buffer → Call
  deserializes : In → Call

module _ (m : Allocator) where
  unfoldable pub step : Buffer → Call → Buffer
  step b (writes src) = (write b src).0
  step b (reads n) = (read b n).0
  step b (advances_read n) = (advance_read b n).0
  step b (advances_write n) = (advance_write b n).0
  step b clears = clear b
  step b (reserves n) = (reserve m b n).0
  step b (reinitializes_size n) = (reinitialize_size m b n).0
  step b (reinitializes p bytes) = (reinitialize m b p bytes).0
  step b (reinitializes_buffer p buffer) = (reinitialize_buffer m b p buffer).0
  step b (deserializes i) = (deserialize m b i).0

  -- The sizes that a call adds do not wrap, and an advance does not move behind the readable bytes'
  -- start.
  abbrev pub IsSane : Buffer → Call → Type 0
  IsSane b (reserves n) = b.write_position + n < 0x1_0000_0000_0000_0000
  IsSane b (advances_write n) = (b.write_position + n < 0x1_0000_0000_0000_0000)
  IsSane b _ = Unit {0}

  -- The new size, where no sum wraps: the readable bytes fit, with room for as many as asked for.
  new_size_eq :
      (b : Buffer) (n : ℕ)
      → b.write_position + n < 0x1_0000_0000_0000_0000
      → IsValid b
      → to_uint64 (b.buffer_size + n - (b.buffer_size - b.write_position)) ≡ b.write_position + n
  new_size_eq b n s v = omega (arith, v.write_le)

  reserve-IsValid :
      (b : Buffer) (n : ℕ)
      → b.write_position + n < 0x1_0000_0000_0000_0000
      → IsValid b
      → IsValid (reserve m b n).0
  unfolding reserve available_read
  reserve-IsValid b n s v = rw (new_size_eq b n s v) (
      ground (
        arith,
        length-overwrite (m.fresh (b.write_position + n)) 0 (readable b),
        length-readable b v,
        m.length-fresh (b.write_position + n),
      ))

  readable_front :
      (b : Buffer) (size : ℕ) (memory : List ℕ)
      → IsValid b
      → readable (record {
        memory = overwrite memory 0 (readable b);
        buffer_size = size;
        read_position = 0;
        write_position = b.write_position - b.read_position;
      })
        ≡ readable b
  readable_front b size memory v = rw (← length_eq) (readable-overwrite (readable b) size memory)
    where
      length_eq : length (readable b) ≡ b.write_position - b.read_position
      length_eq = unfold available_read in length-readable b v

  -- `reserve` keeps the bytes that can be read, and returns true exactly when so many bytes can be
  -- written afterwards. The sizes do not wrap.
  pub readable-reserve :
      (b : Buffer) (n : ℕ)
      → IsValid b
      → b.write_position + n < 0x1_0000_0000_0000_0000
      → (readable (reserve m b n).0 ≡ readable b)
        × ((reserve m b n).1 ≡ leb n (available_write (reserve m b n).0))
  unfolding reserve available_write
  readable-reserve b n v s = rw (new_size_eq b n s v) (
    ground (arith, readable_front b (b.write_position + n) (m.fresh (b.write_position + n)) v),
    ground (arith, v),
  )

  -- Every method that moves the positions of a buffer, `Deserialize` and the three `Reinitialize`
  -- included, whether it succeeds or not, keeps them in order inside its memory, if no size that it
  -- adds wraps.
  pub step-IsValid : (b : Buffer) (c : Call) → IsSane b c → IsValid b → IsValid (step b c)
  unfolding step
  step-IsValid b (writes src) s v =
      unfold write in ground (arith, length-overwrite b.memory b.write_position src)
  step-IsValid b (reads n) s v = unfold read in ground arith
  step-IsValid b (advances_read n) s v = unfold advance_read in ground arith
  step-IsValid b (advances_write n) s v = unfold advance_write in ground arith
  step-IsValid b clears s v = unfold clear in ground arith
  step-IsValid b (reserves n) s v = reserve-IsValid b n s v
  step-IsValid b (reinitializes_size n) s v =
      unfold reinitialize_size in ground (arith, m.length-fresh n)
  step-IsValid b (reinitializes p bytes) s v = unfold reinitialize in ground arith
  step-IsValid b (reinitializes_buffer p buffer) s v =
      unfold reinitialize_buffer reinitialize in ground arith
  step-IsValid b (deserializes i) s v =
      unfold deserialize clear in
      elim (Option-cases (copy_size_and_data_from_buf m.alloc i)) [
        | inl q ↦ ground arith
        | inr ((bytes, i'), q) ↦ ground arith
      ]

pub readable_all :
    (bytes : List ℕ)
    → readable (record {
      memory = bytes;
      buffer_size = length bytes;
      read_position = 0;
      write_position = length bytes;
    })
      ≡ bytes
unfolding readable available_read
readable_all bytes =
    let e : length bytes - 0 ≡ length bytes = omega arith in rw e (take-length bytes)

module _ (m : Allocator) (start end : ℕ) (can : (n : ℕ) → m.alloc n ≡ true)
    (he : end < 0x1_0000_0000_0000_0000) where
  -- What `Serialize` writes of a buffer, with room for `SerializedSize` bytes and fewer than 2^32 of
  -- them readable, `Deserialize` reads back into any buffer: the same bytes can be read from it, it
  -- is well formed, and the reading ends where the writing did. Memory can be allocated.
  pub deserialize-serialize :
      (b c : Buffer) (rest : List ℕ)
      → IsValid b
      → length (readable b) < 0x1_0000_0000
      → start + serialized_size b ≤ end
      → let o = serialize b (output start end) in
        let d = deserialize m c (input (o.written ++ rest) start end) in
        (readable d.0 ≡ readable b) × IsValid d.0 × (d.1 ≡ some (input rest o.ptr end))
  unfolding serialize serialized_size deserialize clear
  deserialize-serialize b c rest v small room =
      let e =
        copy-append_size_and_data m.alloc start end can he (readable b) rest small
          (omega (arith, length-readable b v)) in
      rw (e, deserialize) (readable_all (readable b), ground arith, refl)
