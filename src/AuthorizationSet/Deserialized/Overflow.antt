-- ===== src/AuthorizationSet/Deserialized/Overflow.antt =====
-- What `push_back` of authorization_set.cpp does to a set that `Deserialize` has filled.
use platform_system_keymaste.Common.{
  ℕ, ◌*◌, ◌≤◌, ◌<◌, ◌≡◌, refl, ◌⊎◌, inl, inr, true, false, List, [], none, some, arith, length,
}
use platform_system_keymaste.Defs.Tag.{is_blob_tag}
use platform_system_keymaste.AuthorizationSet.{blob_of, Param, AuthorizationSet}
use platform_system_keymaste.AuthorizationSet.Memory.{
  Heap, copy_indirect, make_indirect_room, store_blob, store_elem, push_back,
}
use platform_system_keymaste.AuthorizationSet.Push.{failed, make_room-Grown}
use platform_system_keymaste.AuthorizationSet.Deserialized.{IsRead}

module _ (heap : Heap) where
  -- Nothing is reserved for a byte string if the capacity on record is 0, but the data are not empty.
  no_room_made :
      (size : ℕ) (s : AuthorizationSet)
      → s.indirect_data_capacity ≡ 0
      → 1 ≤ length s.indirect_data
      → length s.indirect_data < 0x1_0000_0000
      → size < 0x1_0000_0000
      → make_indirect_room heap size s ≡ (s, true)
  unfolding make_indirect_room
  no_room_made size s z some_data small fits = ground arith

  copy_outside :
      (bytes : List ℕ) (s : AuthorizationSet)
      → s.indirect_allocated ≡ length s.indirect_data
      → 1 ≤ length bytes
      → copy_indirect bytes s ≡ none
  unfolding copy_indirect
  copy_outside bytes s a some_bytes = ground arith

  store_outside :
      (p : Param) (s : AuthorizationSet)
      → s.indirect_data_capacity ≡ 0
      → s.indirect_allocated ≡ length s.indirect_data
      → is_blob_tag p.tag ≡ true
      → 1 ≤ length (blob_of [] p.value)
      → length (blob_of [] p.value) < 0x1_0000_0000
      → 1 ≤ length s.indirect_data
      → length s.indirect_data < 0x1_0000_0000
      → store_elem heap p (s, true) ≡ none
  unfolding store_elem store_blob
  store_outside p s z a t some_bytes small some_data small' =
      let made = no_room_made (length (blob_of [] p.value)) s z some_data small' small in
      let out = copy_outside (blob_of [] p.value) s a some_bytes in ground (arith, made, out)

  no_elem : (p : Param) → store_elem heap p (failed, false) ≡ some (failed, false)
  unfolding store_elem
  no_elem p = refl

  -- A push of a byte string on a set that was read from bytes, and has byte strings already, writes
  -- outside the set's array, or finds no memory for the parameter. For the capacity on record is 0, so
  -- that the room that is left is a wrapped difference, and nothing is reserved. The lengths are below
  -- 2 ^ 32, and the capacity for parameters can be doubled.
  pub push_back-outside :
      (p : Param) (s : AuthorizationSet)
      → IsRead s
      → is_blob_tag p.tag ≡ true
      → 1 ≤ length (blob_of [] p.value)
      → length (blob_of [] p.value) < 0x1_0000_0000
      → 1 ≤ length s.indirect_data
      → length s.indirect_data < 0x1_0000_0000
      → s.elems_capacity * 2 < 0x1_0000_0000_0000_0000
      → (push_back heap p s ≡ none) ⊎ (push_back heap p s ≡ some (failed, false))
  unfolding push_back
  push_back-outside p s r t some_bytes small some_data small' double =
      elim (make_room-Grown heap s r.elems_fit double r.good) [
        | inl (c, g, room) ↦
            let out =
              store_outside p (record s { elems_capacity = c }) r.no_capacity r.allocated t
                some_bytes small some_data small' in
            inl (ground (arith, r.good, g, out))
        | inr g ↦ inr (ground (arith, r.good, g, no_elem p))
      ]
