-- ===== src/AuthorizationSet/Memory.antt =====
-- The operations of AuthorizationSet that allocate: authorization_set.cpp.
use platform_system_keymaste.Common.{
  ℕ, ◌+◌, ◌-◌, ◌*◌, Bool, true, false, not, List, [], ◌∷◌, ◌++◌, Option, none, some, length, leb,
  ltb, ◌==◌, if◌then◌else◌, to_uint64,
}
use platform_system_keymaste.Defs.Tag.{is_blob_tag}
use platform_system_keymaste.AuthorizationSet.{
  blob_of, with_blob, null_slice, Param, Elem, Error, ok, allocation_failure, AuthorizationSet,
  empty_set, is_ok, contents,
}

-- Whether `new (std::nothrow)` gives an array of so many parameters, or bytes.
pub record Heap : Type 0 where
  pub alloc_elems : ℕ → Bool
  pub alloc_bytes : ℕ → Bool

-- `FreeData`, which wipes the arrays by `Clear` before it deletes them.
unfoldable pub free_data : AuthorizationSet → AuthorizationSet
free_data s = empty_set

-- `Clear`, which keeps the arrays.
unfoldable pub clear : AuthorizationSet → AuthorizationSet
clear s = record s { elems = []; indirect_data = [] }

unfoldable pub set_invalid : Error → AuthorizationSet → AuthorizationSet
set_invalid e s = record (free_data s) { error = e }

-- The result: what was taken from the set that is moved, and what is left of it.
unfoldable pub move_from : AuthorizationSet → AuthorizationSet × AuthorizationSet
move_from set = (set, empty_set)

unfoldable pub compute_indirect_data_size : List Param → ℕ
compute_indirect_data_size [] = 0
compute_indirect_data_size (p ∷ ps) =
    let rest = compute_indirect_data_size ps in
    if is_blob_tag p.tag then length (blob_of [] p.value) + rest else rest

-- A difference of size_t.
abbrev pub sub64 : ℕ → ℕ → ℕ
sub64 a b = to_uint64 (a + 0x1_0000_0000_0000_0000 - b)

-- The parameter as it is stored, its byte string at an offset of the set's own array.
unfoldable pub stored : ℕ → Param → Elem
stored offset p =
    if is_blob_tag p.tag
    then record {
      tag = p.tag;
      value =
          with_blob (record { offset = offset; data_length = length (blob_of [] p.value) }) p.value;
    }
    else record { tag = p.tag; value = with_blob null_slice p.value }

-- memcpy to the end of the indirect data; `none` if it would write outside the array.
unfoldable pub copy_indirect : List ℕ → AuthorizationSet → Option AuthorizationSet
copy_indirect bytes s =
    if leb (length s.indirect_data + length bytes) s.indirect_allocated
    then some (record s { indirect_data = s.indirect_data ++ bytes })
    else none

-- `elems_[elems_size_++] = elem`, in an array of `elems_capacity_` parameters; `none` if it would
-- write outside the array.
unfoldable pub append_elem : Elem → AuthorizationSet → Option (AuthorizationSet × Bool)
append_elem elem s =
    if ltb (length s.elems) s.elems_capacity
    then some (record s { elems = s.elems ++ elem ∷ [] }, true)
    else none

module _ (heap : Heap) where
  open heap use {alloc_elems, alloc_bytes}

  unfoldable pub reserve_elems : ℕ → AuthorizationSet → AuthorizationSet × Bool
  unfolding set_invalid free_data
  reserve_elems count s =
      if not (is_ok s.error)
      then (s, false)
      else if ltb s.elems_capacity count
      then (if alloc_elems count
          then (record s { elems_capacity = count }, true)
          else (set_invalid allocation_failure s, false))
      else (s, true)

  -- The offsets of the stored byte strings stay, since all of them move with the array.
  unfoldable pub reserve_indirect : ℕ → AuthorizationSet → AuthorizationSet × Bool
  unfolding set_invalid free_data
  reserve_indirect size s =
      if not (is_ok s.error)
      then (s, false)
      else if ltb s.indirect_data_capacity size
      then (if alloc_bytes size
          then (record s { indirect_data_capacity = size; indirect_allocated = size }, true)
          else (set_invalid allocation_failure s, false))
      else (s, true)

  -- The room for one more parameter.
  unfoldable pub make_room : AuthorizationSet → AuthorizationSet × Bool
  unfolding reserve_elems
  make_room s =
      if leb s.elems_capacity (length s.elems)
      then reserve_elems (if s.elems_capacity == 0 then 8 else to_uint64 (s.elems_capacity * 2)) s
      else (s, true)

  -- The room for the byte string of one more parameter.
  unfoldable pub make_indirect_room : ℕ → AuthorizationSet → AuthorizationSet × Bool
  unfolding reserve_indirect
  make_indirect_room size s =
      if ltb (sub64 s.indirect_data_capacity (length s.indirect_data)) size
      then reserve_indirect (to_uint64 (2 * (s.indirect_data_capacity + size))) s
      else (s, true)

  -- The byte string goes to the end of the indirect data, if there is room for it.
  unfoldable pub store_blob : Param → AuthorizationSet × Bool → Option (AuthorizationSet × Bool)
  store_blob p (s, false) = some (s, false)
  store_blob p (s, true) = elim (copy_indirect (blob_of [] p.value) s) [
    | none ↦ none
    | some s' ↦ append_elem (stored (length s.indirect_data) p) s'
  ]

  unfoldable pub store_elem : Param → AuthorizationSet × Bool → Option (AuthorizationSet × Bool)
  store_elem p (s, false) = some (s, false)
  store_elem p (s, true) =
      if is_blob_tag p.tag
      then store_blob p (make_indirect_room (length (blob_of [] p.value)) s)
      else append_elem (stored 0 p) s

  -- `push_back(keymaster_key_param_t elem)`; `none` is a write outside allocated memory.
  unfoldable pub push_back : Param → AuthorizationSet → Option (AuthorizationSet × Bool)
  push_back p s = if not (is_ok s.error) then some (s, false) else store_elem p (make_room s)

  -- The loop of `push_back(const keymaster_key_param_set_t& set)`.
  unfoldable pub push_each : List Param → AuthorizationSet → Option (AuthorizationSet × Bool)
  push_each [] s = some (s, true)
  push_each (p ∷ ps) s = elim (push_back p s) [
    | none ↦ none
    | some (s', done) ↦ if done then push_each ps s' else some (s', false)
  ]

  unfoldable pub push_back_set : List Param → AuthorizationSet → Option (AuthorizationSet × Bool)
  push_back_set ps s =
      if not (is_ok s.error)
      then some (s, false)
      else (let (s', done) = reserve_elems (length s.elems + length ps) s in
          if not done
          then some (s', false)
          else (let (s'', done') =
                reserve_indirect (length s'.indirect_data + compute_indirect_data_size ps) s' in
              if not done' then some (s'', false) else push_each ps s''))

-- `CopyIndirectData`, for parameters that come from elsewhere: the array is filled in order.
unfoldable pub copy_indirect_data : ℕ → List Param → List Elem × List ℕ
unfolding stored
copy_indirect_data offset [] = ([], [])
copy_indirect_data offset (p ∷ ps) =
    let bytes = (if is_blob_tag p.tag then blob_of [] p.value else []) in
    let (elems, data') = copy_indirect_data (offset + length bytes) ps in
    (stored offset p ∷ elems, bytes ++ data')

module _ (heap : Heap) where
  -- `Reinitialize(const keymaster_key_param_t* elems, const size_t count)`, for parameters that do
  -- not lie in the set itself. An empty list stands for a null pointer too.
  unfoldable pub reinitialize : List Param → AuthorizationSet → AuthorizationSet × Bool
  unfolding free_data
  reinitialize [] s = (free_data s, true)
  reinitialize (p ∷ ps) s =
      let params = p ∷ ps in
      let (s', done) = reserve_elems heap (length params) (free_data s) in
      if not done
      then (s', false)
      else (let (s'', done') = reserve_indirect heap (compute_indirect_data_size params) s' in
          if not done'
          then (s'', false)
          else (let (elems, bytes) = copy_indirect_data 0 params in
              (record s'' { elems = elems; indirect_data = bytes; error = ok }, true)))

  -- The copy constructor. Of an invalid set it copies only the error; the sizes, which it leaves
  -- uninitialised, are 0 here.
  unfoldable pub copied : AuthorizationSet → AuthorizationSet
  unfolding reinitialize
  copied s =
      if not (is_ok s.error)
      then record empty_set { error = s.error }
      else (reinitialize (contents s) empty_set).0
