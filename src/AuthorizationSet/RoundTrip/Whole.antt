-- ===== src/AuthorizationSet/RoundTrip/Whole.antt =====
-- A whole set, as `Serialize` of authorization_set.cpp writes it, is read back by `Deserialize`.
use platform_system_keymaste.Common.{
  ℕ, ◌+◌, ◌*◌, ◌<◌, ◌≤◌, ◌≡◌, refl, ap, true, false, List, ◌++◌, Option, none, some, arith, length,
  All, length-append, append_assoc,
}
use platform_system_keymaste.Wire.{
  In, append_uint32_to_buf, append_size_and_data_to_buf, copy_uint32_from_buf,
  copy_size_and_data_from_buf,
}
use platform_system_keymaste.Wire.RoundTrip.{input}
use platform_system_keymaste.Wire.Carries.{Writes, Carries, Writes-then}
use platform_system_keymaste.Wire.Carries.Primitives.{uint32-Carries, sized-Carries}
use platform_system_keymaste.AuthorizationSet.{ok, AuthorizationSet, empty_set}
use platform_system_keymaste.AuthorizationSet.Memory.{Heap, free_data, reserve_elems}
use platform_system_keymaste.AuthorizationSet.Codec.{
  Layout, serialized_size_of_elements, serialized_size, serialize_elems, serialize, copy_counts,
  deserialize_elems, is_malformed, read_elements, checked_elements, deserialize_elements_data,
  deserialize_indirect_data, data_lengths, check_data_size, deserialize_elements, deserialize,
}
use platform_system_keymaste.AuthorizationSet.RoundTrip.Lists.{
  IsWireElem, elems-Carries, count-serialized_size,
}

abbrev pub some_input : AuthorizationSet × Option In → Option (AuthorizationSet × In)
some_input (s, none) = none
some_input (s, some i) = some (s, i)

-- `Deserialize` of a set that was empty, or none for false.
unfoldable pub copy_set : Layout → Heap → In → Option (AuthorizationSet × In)
copy_set layout heap i = some_input (deserialize layout heap empty_set i)

-- The parameters and the bytes are those of the other set, and the set is valid.
pub record SameSet (s t : AuthorizationSet) : Type 0 where
  pub elems_eq : t.elems ≡ s.elems
  pub data_eq : t.indirect_data ≡ s.indirect_data
  pub error_eq : t.error ≡ ok

-- Every `new` gives an array.
pub record IsPlenty (heap : Heap) : Type 0 where
  pub elems_given : (n : ℕ) → heap.alloc_elems n ≡ true
  pub bytes_given : (n : ℕ) → heap.alloc_bytes n ≡ true

-- The sizes of a set have four bytes each, its array lies in the lower half of the address space,
-- and every byte of its indirect data belongs to a parameter.
pub record IsWritable (layout : Layout) (s : AuthorizationSet) : Type 0 where
  pub elems_ok : All (IsWireElem layout (length s.indirect_data)) s.elems
  pub data_small : length s.indirect_data < 0x1_0000_0000
  pub elems_small : serialized_size_of_elements s.elems < 0x1_0000_0000
  pub array_small : length s.elems * layout.sizeof_param < 0x8000_0000_0000_0000
  pub data_used : length s.indirect_data ≡ data_lengths s.elems

module _ (layout : Layout) (heap : Heap) (s : AuthorizationSet) (v : IsWritable layout s)
    (plenty : IsPlenty heap) where
  abbrev count : ℕ
  count = length s.elems

  abbrev size : ℕ
  size = serialized_size_of_elements s.elems

  list :
      Carries size
        (serialize_elems layout s.elems)
        (deserialize_elems layout (length s.indirect_data) (length s.elems))
        (λ r. r ≡ s.elems)
  list = elems-Carries layout (length s.indirect_data) s.elems v.elems_ok

  number : Carries 4 (append_uint32_to_buf count) copy_uint32_from_buf (λ w. w ≡ count)
  number = uint32-Carries count (omega (arith, count-serialized_size s.elems, v.elems_small))

  extent : Carries 4 (append_uint32_to_buf size) copy_uint32_from_buf (λ w. w ≡ size)
  extent = uint32-Carries size v.elems_small

  copy_counts-written :
      (rest : List ℕ) (ptr end : ℕ)
      → ptr + 8 ≤ end
      → end < 0x8000_0000_0000_0000
      → copy_counts (input (number.bytes ++ (extent.bytes ++ rest)) ptr end)
        ≡ some (count, size, input rest (ptr + 8) end)
  unfolding copy_counts
  copy_counts-written rest ptr end room low =
      let (n, e, e') =
        number.yields (extent.bytes ++ rest) ptr end (omega (arith, number.length_eq)) low in
      let (m, d, d') =
        extent.yields rest (ptr + length number.bytes) end
          (omega (arith, number.length_eq, extent.length_eq)) low in
      let at : ptr + length number.bytes + length extent.bytes ≡ ptr + 8 =
        omega (arith, number.length_eq, extent.length_eq) in
      rw (e, d, e', d', at) refl

  -- The set with its indirect data read, and its parameters not yet.
  abbrev half : AuthorizationSet
  half = record empty_set {
    indirect_data = s.indirect_data;
    indirect_allocated = length s.indirect_data;
  }

  abbrev reserved : AuthorizationSet
  reserved = record half { elems_capacity = count }

  abbrev loaded : AuthorizationSet
  loaded = record reserved { elems = s.elems }

  reserve_elems-half : reserve_elems heap count half ≡ (reserved, true)
  unfolding reserve_elems
  reserve_elems-half = ground (arith, plenty.elems_given count)

  is_malformed-written :
      (rest : List ℕ) (ptr end : ℕ)
      → ptr + size ≤ end
      → end < 0x8000_0000_0000_0000
      → is_malformed layout count size (input rest ptr end) ≡ false
  unfolding is_malformed
  is_malformed-written rest ptr end room low =
      ground (arith, count-serialized_size s.elems, v.array_small)

  read_elements-written :
      (rest : List ℕ) (ptr end : ℕ)
      → ptr + size ≤ end
      → end < 0x8000_0000_0000_0000
      → read_elements layout count size (input (list.bytes ++ rest) ptr end) (reserved, true)
        ≡ (loaded, some (input rest (ptr + size) end))
  unfolding read_elements
  read_elements-written rest ptr end room low =
      let (es, e, e') =
        list.yields rest ptr (ptr + size) (omega (arith, list.length_eq)) (omega arith) in
      ground (arith, e, e', list.length_eq)

  tail_bytes : List ℕ
  tail_bytes = number.bytes ++ (extent.bytes ++ list.bytes)

  length-tail_bytes : length tail_bytes ≡ 8 + size
  unfolding tail_bytes
  length-tail_bytes = omega (
    arith,
    length-append number.bytes (extent.bytes ++ list.bytes),
    length-append extent.bytes list.bytes,
    number.length_eq,
    extent.length_eq,
    list.length_eq,
  )

  tail_bytes-rest :
      (rest : List ℕ) → tail_bytes ++ rest ≡ number.bytes ++ (extent.bytes ++ (list.bytes ++ rest))
  unfolding tail_bytes
  tail_bytes-rest rest =
      rw (append_assoc number.bytes (extent.bytes ++ list.bytes) rest)
        (ap (λ xs. number.bytes ++ xs) (append_assoc extent.bytes list.bytes rest))

  deserialize_elements_data-written :
      (rest : List ℕ) (ptr end : ℕ)
      → ptr + (8 + size) ≤ end
      → end < 0x8000_0000_0000_0000
      → deserialize_elements_data layout heap half (input (tail_bytes ++ rest) ptr end)
        ≡ (loaded, some (input rest (ptr + (8 + size)) end))
  unfolding deserialize_elements_data checked_elements
  deserialize_elements_data-written rest ptr end room low = ground (
    arith,
    tail_bytes-rest rest,
    copy_counts-written (list.bytes ++ rest) ptr end (omega arith) low,
    reserve_elems-half,
    is_malformed-written (list.bytes ++ rest) (ptr + 8) end (omega arith) low,
    read_elements-written rest (ptr + 8) end (omega arith) low,
  )

  tail_bytes-written : Writes tail_bytes (λ o.
      serialize_elems layout s.elems (append_uint32_to_buf size (append_uint32_to_buf count o)))
  unfolding tail_bytes
  tail_bytes-written =
      Writes-then (append_uint32_to_buf count)
        (λ o. serialize_elems layout s.elems (append_uint32_to_buf size o)) number.bytes
        (extent.bytes ++ list.bytes) number.writes
        (Writes-then (append_uint32_to_buf size) (serialize_elems layout s.elems) extent.bytes
          list.bytes extent.writes list.writes)

  data' :
      Carries
        (4 + length s.indirect_data)
        (append_size_and_data_to_buf s.indirect_data)
        (copy_size_and_data_from_buf heap.alloc_bytes)
        (λ w. w ≡ s.indirect_data)
  data' = sized-Carries heap.alloc_bytes plenty.bytes_given s.indirect_data v.data_small

  deserialize-written :
      (rest : List ℕ) (ptr end : ℕ)
      → ptr + length (data'.bytes ++ tail_bytes) ≤ end
      → end < 0x8000_0000_0000_0000
      → deserialize layout heap empty_set (input ((data'.bytes ++ tail_bytes) ++ rest) ptr end)
        ≡ (loaded, some (input rest (ptr + length (data'.bytes ++ tail_bytes)) end))
  unfolding deserialize deserialize_indirect_data deserialize_elements check_data_size free_data
  deserialize-written rest ptr end room low =
      let len = length-append data'.bytes tail_bytes in
      let (w, e, e') = data'.yields (tail_bytes ++ rest) ptr end (omega (arith, len)) low in
      ground (
        arith,
        append_assoc data'.bytes tail_bytes rest,
        e,
        e',
        len,
        length-tail_bytes,
        v.data_used,
        deserialize_elements_data-written rest (ptr + length data'.bytes) end
            (omega (arith, len, length-tail_bytes)) low,
      )

  -- What `Serialize` writes is as long as `SerializedSize` says, and `Deserialize` makes of it the same
  -- set.
  pub set-Carries :
      Carries (serialized_size s) (serialize layout s) (copy_set layout heap) (SameSet s)
  unfolding serialized_size serialize copy_set
  set-Carries =
      let len = length-append data'.bytes tail_bytes in
      record {
        bytes = data'.bytes ++ tail_bytes;
        length_eq = omega (arith, len, length-tail_bytes, data'.length_eq);
        writes =
            Writes-then (append_size_and_data_to_buf s.indirect_data)
              (λ o.
                serialize_elems layout s.elems
                  (append_uint32_to_buf size (append_uint32_to_buf count o)))
              data'.bytes tail_bytes data'.writes tail_bytes-written;
        yields = λ rest ptr end room low. (
          loaded,
          ap some_input (deserialize-written rest ptr end room low),
          record { elems_eq = refl; data_eq = refl; error_eq = refl },
        );
      }
