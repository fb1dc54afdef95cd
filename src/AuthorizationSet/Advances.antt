-- ===== src/AuthorizationSet/Advances.antt =====
-- Whatever the input holds, `Deserialize` of authorization_set.cpp reads inside it.
use platform_system_keymaste.Common.{
  ℕ, zero, suc, ◌+◌, ◌≤◌, ◌≡◌, refl, Bool, true, false, List, [], ◌∷◌, Option, none, some, arith,
  length, Option-cases, Bool-cases, inl, inr,
}
use platform_system_keymaste.Defs.Tag.{
  TagType, km_invalid, km_enum, km_enum_rep, km_uint, km_uint_rep, km_ulong, km_ulong_rep, km_date,
  km_bool, km_bignum, km_bytes, tag_get_type,
}
use platform_system_keymaste.Wire.{In, ◌>>=◌, copy_uint32_from_buf, copy_size_and_data_from_buf}
use platform_system_keymaste.Wire.Bounds.{>>=-eq-some}
use platform_system_keymaste.AuthorizationSet.RoundTrip.Elements.{checked_slice}
use platform_system_keymaste.Wire.Advances.{
  IsHeld, IsMoved, IsMoved-IsHeld, IsMoved-trans, IsMoved-refl, Advances, none-Advances,
  some-Advances, bind-Advances, map-Advances, uint32-Advances, uint64-Advances,
  size_and_data-Advances,
}
use platform_system_keymaste.AuthorizationSet.{
  Value, enumerated, integer, long_integer, date_time, Slice, Elem, AuthorizationSet, empty_set,
}
use platform_system_keymaste.AuthorizationSet.Memory.{Heap, reserve_elems, free_data}
use platform_system_keymaste.AuthorizationSet.Codec.{
  Layout, copy_bool, copy_slice, copy_value, copy_counts, deserialize_elem, deserialize_elems,
  is_malformed, read_elements, checked_elements, deserialize_elements_data,
  deserialize_indirect_data, check_data_size, deserialize_elements, deserialize,
}
use platform_system_keymaste.AuthorizationSet.RoundTrip.Whole.{some_input, copy_set}

bool-Advances : Advances copy_bool
unfolding copy_bool
bool-Advances = record { moved = λ i a j h e. ground (arith, h) }

checked_slice-Advances : (size n m : ℕ) → Advances (checked_slice size n m)
checked_slice-Advances size n m = record { moved = λ i a j h e. ground (arith, IsMoved-refl h) }

slice-Advances : (size : ℕ) → Advances (copy_slice size)
unfolding copy_slice
slice-Advances size =
    bind-Advances
      (λ n i.
        ◌>>=◌ {B = Value Slice × In} (copy_uint32_from_buf i) (λ p. checked_slice size n p.0 p.1))
      uint32-Advances
      (λ n.
        bind-Advances (λ m i. checked_slice size n m i) uint32-Advances
          (λ m. checked_slice-Advances size n m))

copy_counts-IsMoved :
    (i : In) (count size : ℕ) (j : In)
    → IsHeld i
    → copy_counts i ≡ some (count, size, j)
    → IsMoved i j
unfolding copy_counts
copy_counts-IsMoved i count size j h e =
    let ((n, k), d, f) = >>=-eq-some (copy_uint32_from_buf i) _ e in
    let ((m, l), d', f') = >>=-eq-some (copy_uint32_from_buf k) _ f in
    let p = uint32-Advances.moved i n k h d in
    let q = uint32-Advances.moved k m l (IsMoved-IsHeld h p) d' in
    let r = IsMoved-trans p q in ground (arith, r, f')

value-Advances : (size : ℕ) (t : TagType) → Advances (copy_value size t)
unfolding copy_value
value-Advances size km_invalid = none-Advances
value-Advances size km_enum = map-Advances (λ n. enumerated n) uint32-Advances
value-Advances size km_enum_rep = map-Advances (λ n. enumerated n) uint32-Advances
value-Advances size km_uint = map-Advances (λ n. integer n) uint32-Advances
value-Advances size km_uint_rep = map-Advances (λ n. integer n) uint32-Advances
value-Advances size km_ulong = map-Advances (λ n. long_integer n) uint64-Advances
value-Advances size km_ulong_rep = map-Advances (λ n. long_integer n) uint64-Advances
value-Advances size km_date = map-Advances (λ n. date_time n) uint64-Advances
value-Advances size km_bool = bool-Advances
value-Advances size km_bignum = slice-Advances size
value-Advances size km_bytes = slice-Advances size

module _ (layout : Layout) where
  open layout use {tag_of_code}

  abbrev with_tag : ℕ → Value Slice → Elem
  with_tag code v = record { tag = tag_of_code code; value = v }

  elem-Advances : (size : ℕ) → Advances (deserialize_elem layout size)
  unfolding deserialize_elem
  elem-Advances size =
      bind-Advances
        (λ code i.
          ◌>>=◌ {B = Elem × In} (copy_value size (tag_get_type (tag_of_code code)) i)
            (λ p. some (with_tag code p.0, p.1)))
        uint32-Advances
        (λ code.
          map-Advances (λ v. with_tag code v)
            (value-Advances size (tag_get_type (tag_of_code code))))

  elems-Advances : (size n : ℕ) → Advances (deserialize_elems layout size n)
  unfolding deserialize_elems
  elems-Advances size zero = some-Advances []
  elems-Advances size (suc n) =
      bind-Advances
        (λ e i.
          ◌>>=◌ {B = List Elem × In} (deserialize_elems layout size n i) (λ p. some (e ∷ p.0, p.1)))
        (elem-Advances size) (λ e. map-Advances (λ es. e ∷ es) (elems-Advances size n))

  read_elements-IsMoved :
      (count size : ℕ) (i j : In) (p : AuthorizationSet × Bool)
      → IsHeld i
      → i.ptr + size ≤ i.end
      → (read_elements layout count size i p).1 ≡ some j
      → IsMoved i j
  unfolding read_elements
  read_elements-IsMoved count size i j (s, false) h room e = cc
  read_elements-IsMoved count size i j (s, true) h room e =
      let i_end : In = record i { end = i.ptr + size } in
      elim (Option-cases (deserialize_elems layout (length s.indirect_data) count i_end)) [
        | inl q ↦ absurd (ground arith)
        | inr ((es, i'), q) ↦
            let x = elems-Advances (length s.indirect_data) count in
            let m =
              x.moved i_end es i'
                (record {
                  inside = omega arith;
                  held = omega (arith, h.held);
                  bounded = omega (arith, h.bounded);
                })
                q in
            ground (arith, m, h)
      ]

  checked_elements-IsMoved :
      (heap : Heap) (s : AuthorizationSet) (i j : In)
      → IsHeld i
      → (checked_elements layout heap s (copy_counts i)).1 ≡ some j
      → IsMoved i j
  unfolding checked_elements is_malformed
  checked_elements-IsMoved heap s i j h e = elim (Option-cases (copy_counts i)) [
    | inl q ↦ absurd (ground arith)
    | inr ((count, size, k), q) ↦
        let m = copy_counts-IsMoved i count size k h q in
        elim (Bool-cases (is_malformed layout count size k)) [
          | inl bad ↦ absurd (ground arith)
          | inr good ↦ IsMoved-trans m (
              read_elements-IsMoved count size k j (reserve_elems heap count s) (IsMoved-IsHeld h m)
                (ground arith) (ground arith))
        ]
  ]

  indirect_data-IsMoved :
      (heap : Heap) (s : AuthorizationSet) (i j : In)
      → IsHeld i
      → (deserialize_indirect_data heap s i).1 ≡ some j
      → IsMoved i j
  unfolding deserialize_indirect_data
  indirect_data-IsMoved heap s i j h e =
      elim (Option-cases (copy_size_and_data_from_buf heap.alloc_bytes i)) [
        | inl q ↦ absurd (ground arith)
        | inr ((bytes, k), q) ↦
            let x = size_and_data-Advances heap.alloc_bytes in
            let m = x.moved i bytes k h q in ground (arith, m)
      ]

  deserialize_elements-IsMoved :
      (heap : Heap) (i j : In) (p : AuthorizationSet × Option In)
      → IsHeld i
      → ((k : In) → p.1 ≡ some k → IsMoved i k)
      → (deserialize_elements layout heap p).1 ≡ some j
      → IsMoved i j
  unfolding deserialize_elements deserialize_elements_data
  deserialize_elements-IsMoved heap i j (s, none) h m e = cc
  deserialize_elements-IsMoved heap i j (s, some k) h m e =
      let n = m k refl in
      IsMoved-trans n (checked_elements-IsMoved heap s k j (IsMoved-IsHeld h n) e)

  check_data_size-some :
      (p : AuthorizationSet × Option In) (j : In) → (check_data_size p).1 ≡ some j → p.1 ≡ some j
  unfolding check_data_size
  check_data_size-some (s, none) j e = cc
  check_data_size-some (s, some i) j e = ground arith

  -- Whatever bytes a set is read from, if `Deserialize` says true, it has moved forward over bytes
  -- that the input has, to a position that is not behind the end.
  pub deserialize-IsMoved :
      (heap : Heap) (s : AuthorizationSet) (i j : In)
      → IsHeld i
      → (deserialize layout heap s i).1 ≡ some j
      → IsMoved i j
  unfolding deserialize
  deserialize-IsMoved heap s i j h e =
      let data' = deserialize_indirect_data heap (free_data s) i in
      deserialize_elements-IsMoved heap i j data' h
        (λ k q. indirect_data-IsMoved heap (free_data s) i k h q)
        (check_data_size-some (deserialize_elements layout heap data') j e)

some_input-some :
    (p : AuthorizationSet × Option In) {s : AuthorizationSet} {j : In}
    → some_input p ≡ some (s, j)
    → p.1 ≡ some j
some_input-some (s, none) e = cc
some_input-some (s, some i) e = cc

pub copy_set-Advances : (layout : Layout) (heap : Heap) → Advances (copy_set layout heap)
unfolding copy_set
copy_set-Advances layout heap = record {
  moved = λ i a j h e. deserialize-IsMoved layout heap empty_set i j h (some_input-some _ e);
}
