-- ===== src/AuthorizationSet/Deserialized.antt =====
-- What `Deserialize` of authorization_set.cpp leaves in a set, whatever the bytes are.
pub mod Elements
pub mod Overflow
use platform_system_keymaste.Common.{
  ℕ, zero, suc, ◌+◌, ◌*◌, ◌≤◌, ◌<◌, ◌≡◌, refl, sym, ap, ◌∙◌, ◌⊎◌, inl, inr, Bool, true, false, not,
  ◌||◌, List, [], ◌∷◌, Option, none, some, arith, length, All, ltb, leb, ◌==◌, if◌then◌else◌,
  Bool-cases, Option-cases, to_uint64,
}
use platform_system_keymaste.Defs.Tag.{
  TagType, km_invalid, km_enum, km_enum_rep, km_uint, km_uint_rep, km_ulong, km_ulong_rep, km_date,
  km_bool, km_bignum, km_bytes, Tag, tag_get_type, is_blob_tag,
}
use platform_system_keymaste.Wire.{
  In, ◌>>=◌, copy_uint32_from_buf, copy_uint64_from_buf, copy_size_and_data_from_buf,
}
use platform_system_keymaste.Wire.Bounds.{>>=-eq-some}
use platform_system_keymaste.AuthorizationSet.{
  Value, enumerated, integer, long_integer, date_time, boolean, blob, blob_of, Slice, null_slice,
  Param, Elem, Error, ok, malformed_data, AuthorizationSet, empty_set, is_ok,
}
use platform_system_keymaste.AuthorizationSet.Memory.{
  Heap, free_data, set_invalid, reserve_elems, stored, copy_indirect, sub64, make_room,
  make_indirect_room, store_blob, store_elem, push_back,
}
use platform_system_keymaste.AuthorizationSet.Contents.{SliceFits, ElemFits}
use platform_system_keymaste.AuthorizationSet.Push.{failed, make_room-Grown}
use platform_system_keymaste.AuthorizationSet.Codec.{
  Layout, copy_bool, copy_slice, copy_value, deserialize_elem, deserialize_elems, is_malformed,
  read_elements, copy_counts, checked_elements, deserialize_elements_data,
  deserialize_indirect_data, data_lengths, check_data_size, deserialize_elements, deserialize,
}
use platform_system_keymaste.AuthorizationSet.Deserialized.Elements.{deserialize_elems-All}

-- A set whose byte strings all lie in its indirect data, and are as long together. Its array has no
-- spare room, and its capacity is on record as 0.
pub record IsRead (s : AuthorizationSet) : Type 0 where
  pub good : s.error ≡ ok
  pub elems_fit : length s.elems ≤ s.elems_capacity
  pub slices : All (ElemFits (length s.indirect_data)) s.elems
  pub data_size : length s.indirect_data ≡ data_lengths s.elems
  pub no_capacity : s.indirect_data_capacity ≡ 0
  pub allocated : s.indirect_allocated ≡ length s.indirect_data

-- After the first step of `Deserialize`.
abbrev HasData : AuthorizationSet → Type 0
HasData s =
    (s.error ≡ ok)
    × (s.elems_capacity ≡ 0)
    × (s.indirect_data_capacity ≡ 0)
    × (s.indirect_allocated ≡ length s.indirect_data)

deserialize_indirect_data-HasData :
    (heap : Heap) (s : AuthorizationSet) (i j : In)
    → (deserialize_indirect_data heap (free_data s) i).1 ≡ some j
    → HasData (deserialize_indirect_data heap (free_data s) i).0
unfolding deserialize_indirect_data free_data
deserialize_indirect_data-HasData heap s i j h =
    elim (Option-cases (copy_size_and_data_from_buf heap.alloc_bytes i)) [
      | inl q ↦ absurd (ground arith)
      | inr ((bytes, k), q) ↦ rw (q, deserialize_indirect_data) (refl, refl, refl, refl)
    ]

reserve_elems-HasData :
    (heap : Heap) (count : ℕ) (s : AuthorizationSet)
    → HasData s
    → (reserve_elems heap count s).1 ≡ true
    → let s' = (reserve_elems heap count s).0 in
      (s'.error ≡ ok)
      × (count ≤ s'.elems_capacity)
      × (s'.indirect_data_capacity ≡ 0)
      × (s'.indirect_allocated ≡ length s'.indirect_data)
unfolding reserve_elems
reserve_elems-HasData heap count s d h = ground (arith, d)

module _ (layout : Layout) where
  -- The set that is left, but for the check of the data's size.
  abbrev ReadElements : AuthorizationSet → Type 0
  ReadElements s =
      (s.error ≡ ok)
      × (length s.elems ≤ s.elems_capacity)
      × All (ElemFits (length s.indirect_data)) s.elems
      × (s.indirect_data_capacity ≡ 0)
      × (s.indirect_allocated ≡ length s.indirect_data)

  read_elements_lem :
      (count size : ℕ) (i j : In) (s : AuthorizationSet)
      → (s.error ≡ ok)
      → (count ≤ s.elems_capacity)
      → (s.indirect_data_capacity ≡ 0)
      → (s.indirect_allocated ≡ length s.indirect_data)
      → (read_elements layout count size i (s, true)).1 ≡ some j
      → ReadElements (read_elements layout count size i (s, true)).0
  unfolding read_elements
  read_elements_lem count size i j s e c k a h =
      let i_end : In = record i { end = i.ptr + size } in
      elim (Option-cases (deserialize_elems layout (length s.indirect_data) count i_end)) [
        | inl q ↦ absurd (ground arith)
        | inr ((es, i'), q) ↦
            let (fits, len) =
              deserialize_elems-All layout (length s.indirect_data) count i_end i' es q in
            rw (q, read_elements) (e, omega (arith, len), fits, k, a)
      ]

  read_reserved_lem :
      (count size : ℕ) (i j : In) (p : AuthorizationSet × Bool)
      → (p.1 ≡ true
          → (p.0.error ≡ ok)
            × (count ≤ p.0.elems_capacity)
            × (p.0.indirect_data_capacity ≡ 0)
            × (p.0.indirect_allocated ≡ length p.0.indirect_data))
      → (read_elements layout count size i p).1 ≡ some j
      → ReadElements (read_elements layout count size i p).0
  unfolding read_elements
  read_reserved_lem count size i j (s, false) k h = cc
  read_reserved_lem count size i j (s, true) k h =
      let (e, c, z, a) = k refl in read_elements_lem count size i j s e c z a h

  checked_elements_lem :
      (heap : Heap) (s : AuthorizationSet) (o : Option (ℕ × ℕ × In)) (j : In)
      → HasData s
      → (checked_elements layout heap s o).1 ≡ some j
      → ReadElements (checked_elements layout heap s o).0
  unfolding checked_elements
  checked_elements_lem heap s none j d h = cc
  checked_elements_lem heap s (some (count, size, i)) j d h =
      elim (Bool-cases (is_malformed layout count size i)) [
        | inl bad ↦ absurd (ground arith)
        | inr good ↦ rw good (
            read_reserved_lem count size i j (reserve_elems heap count s)
              (reserve_elems-HasData heap count s d) (ground arith))
      ]

  deserialize_elements_lem :
      (heap : Heap) (p : AuthorizationSet × Option In) (j : In)
      → ((k : In) → p.1 ≡ some k → HasData p.0)
      → (deserialize_elements layout heap p).1 ≡ some j
      → ReadElements (deserialize_elements layout heap p).0
  unfolding deserialize_elements deserialize_elements_data
  deserialize_elements_lem heap (s, none) j k h = cc
  deserialize_elements_lem heap (s, some i) j k h =
      checked_elements_lem heap s (copy_counts i) j (k i refl) h

  check_data_size-IsRead :
      (p : AuthorizationSet × Option In) (j : In)
      → ((k : In) → p.1 ≡ some k → ReadElements p.0)
      → (check_data_size p).1 ≡ some j
      → IsRead (check_data_size p).0
  unfolding check_data_size
  check_data_size-IsRead (s, none) j k h = cc
  check_data_size-IsRead (s, some i) j k h =
      elim (Bool-cases (length s.indirect_data == data_lengths s.elems)) [
        | inl same ↦
            let (e, fit, slices, z, a) = k i refl in
            rw same (record {
              good = e;
              elems_fit = fit;
              slices = slices;
              data_size = ground arith;
              no_capacity = z;
              allocated = a;
            })
        | inr differ ↦ absurd (ground arith)
      ]

  -- Whatever bytes a set is read from, if Deserialize says true, the set is valid, and the byte string
  -- of each of its parameters lies in the set's own array; they are as long together as the array is.
  -- The capacity of that array is on record as 0.
  pub deserialize-IsRead :
      (heap : Heap) (s : AuthorizationSet) (i j : In)
      → (deserialize layout heap s i).1 ≡ some j
      → IsRead (deserialize layout heap s i).0
  unfolding deserialize
  deserialize-IsRead heap s i j h =
      let data' = deserialize_indirect_data heap (free_data s) i in
      check_data_size-IsRead (deserialize_elements layout heap data') j
        (λ k q.
          deserialize_elements_lem heap data' k
            (λ m q'. deserialize_indirect_data-HasData heap s i m q') q)
        h
