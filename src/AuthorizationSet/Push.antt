-- ===== src/AuthorizationSet/Push.antt =====
-- `push_back` of authorization_set.cpp appends to the list that the clients of a set see.
use platform_system_keymaste.Common.{
  ℕ, ◌+◌, ◌*◌, ◌≤◌, ◌<◌, ◌≡◌, refl, sym, ap, ◌⊎◌, inl, inr, Bool, true, false, List, [], ◌∷◌, ◌++◌,
  map, append-nil, Option, some, arith, length, All, All-append, length-append, Bool-cases, leb,
  ltb, ◌==◌, if◌then◌else◌, to_uint64,
}
use mathlib.Core.List.{map-append}
use platform_system_keymaste.Defs.Tag.{is_blob_tag}
use platform_system_keymaste.AuthorizationSet.{
  blob_of, Param, Elem, ok, allocation_failure, AuthorizationSet, empty_set, resolve, contents,
}
use platform_system_keymaste.AuthorizationSet.Memory.{
  Heap, stored, sub64, make_room, make_indirect_room, copy_indirect, append_elem, store_blob,
  store_elem, push_back,
}
use platform_system_keymaste.AuthorizationSet.Contents.{
  ElemFits, IsValid, IsTagged, map-resolve-append, All-ElemFits-mono, resolve-stored, stored_scalar,
  stored-ElemFits,
}

abbrev pub failed : AuthorizationSet
failed = record empty_set { error = allocation_failure }

-- A doubling of the capacities does not wrap.
pub record IsSmall (p : Param) (s : AuthorizationSet) : Type 0 where
  pub elems_small : s.elems_capacity * 2 < 0x1_0000_0000_0000_0000
  pub data_small :
      2 * (s.indirect_data_capacity + length (blob_of [] p.value)) < 0x1_0000_0000_0000_0000

-- One more parameter behind the others, its bytes behind the others' bytes.
record Extends (s : AuthorizationSet) (bytes : List ℕ) (p : Param) (s' : AuthorizationSet)
    : Type 0 where
  elem : Elem
  elems_eq : s'.elems ≡ s.elems ++ elem ∷ []
  data_eq : s'.indirect_data ≡ s.indirect_data ++ bytes
  elem_fits : ElemFits (length s.indirect_data + length bytes) elem
  elem_eq : resolve (s.indirect_data ++ bytes) elem ≡ p

contents-Extends :
    {s s' : AuthorizationSet} {bytes : List ℕ} {p : Param}
    → Extends s bytes p s'
    → All (ElemFits (length s.indirect_data)) s.elems
    → contents s' ≡ contents s ++ p ∷ []
unfolding contents
contents-Extends {s} {s'} {bytes} {p} x v =
    rw (x.data_eq, x.elems_eq, map-append, map-resolve-append _ bytes s.elems v)
      (ap (λ q. map (resolve s.indirect_data) s.elems ++ q ∷ []) x.elem_eq)

Extends-IsValid :
    {s s' : AuthorizationSet} {bytes : List ℕ} {p : Param}
    → Extends s bytes p s'
    → IsValid s
    → length s.elems < s'.elems_capacity
    → length s.indirect_data + length bytes ≤ s'.indirect_data_capacity
    → s'.indirect_data_capacity ≤ s'.indirect_allocated
    → IsValid s'
Extends-IsValid {s} {s'} {bytes} {p} x v room data_room a = record {
  elems_fit = omega (arith, ap length x.elems_eq, length-append s.elems (x.elem ∷ []));
  data_fit = omega (arith, ap length x.data_eq, length-append s.indirect_data bytes);
  allocated = a;
  slices =
      rw (x.elems_eq, x.data_eq, length-append s.indirect_data bytes)
        (All-append _ s.elems (x.elem ∷ [])
          (All-ElemFits-mono (length s.indirect_data) _ s.elems (omega arith) v.slices)
          (x.elem_fits, tt));
}

copy_indirect_fits :
    (bytes : List ℕ) (s : AuthorizationSet)
    → length s.indirect_data + length bytes ≤ s.indirect_allocated
    → copy_indirect bytes s ≡ some (record s { indirect_data = s.indirect_data ++ bytes })
unfolding copy_indirect
copy_indirect_fits bytes s h = ground arith

append_elem_fits :
    (e : Elem) (s : AuthorizationSet)
    → length s.elems < s.elems_capacity
    → append_elem e s ≡ some (record s { elems = s.elems ++ e ∷ [] }, true)
unfolding append_elem
append_elem_fits e s h = ground arith

-- What growing leaves: the same set with a larger capacity, or the set that no memory was had for.
abbrev pub Grown : AuthorizationSet → AuthorizationSet × Bool → Type 0
Grown s r =
    ((c : ℕ) × (r ≡ (record s { elems_capacity = c }, true)) × (length s.elems < c))
    ⊎ (r ≡ (failed, false))

abbrev GrownData : ℕ → AuthorizationSet → AuthorizationSet × Bool → Type 0
GrownData size s r =
    ((c : ℕ) × (a : ℕ) × (r
        ≡ (record s { indirect_data_capacity = c; indirect_allocated = a }, true))
      × (length s.indirect_data + size ≤ c)
      × (c ≤ a))
    ⊎ (r ≡ (failed, false))

module _ (heap : Heap) where
  pub make_room-Grown :
      (s : AuthorizationSet)
      → length s.elems ≤ s.elems_capacity
      → s.elems_capacity * 2 < 0x1_0000_0000_0000_0000
      → s.error ≡ ok
      → Grown s (make_room heap s)
  unfolding make_room
  make_room-Grown s v small e =
      let n = if s.elems_capacity == 0 then 8 else to_uint64 (s.elems_capacity * 2) in
      elim (Bool-cases (leb s.elems_capacity (length s.elems))) [
        | inl full ↦ elim (Bool-cases (heap.alloc_elems n)) [
          | inl can ↦ inl (n, ground arith, ground arith)
          | inr cannot ↦ inr (ground arith)
        ]
        | inr room ↦ inl (s.elems_capacity, ground arith, ground arith)
      ]

  make_indirect_room-Grown :
      (size : ℕ) (s : AuthorizationSet)
      → length s.indirect_data ≤ s.indirect_data_capacity
      → s.indirect_data_capacity ≤ s.indirect_allocated
      → 2 * (s.indirect_data_capacity + size) < 0x1_0000_0000_0000_0000
      → s.error ≡ ok
      → GrownData size s (make_indirect_room heap size s)
  unfolding make_indirect_room
  make_indirect_room-Grown size s v a small e =
      let n = to_uint64 (2 * (s.indirect_data_capacity + size)) in
      elim (Bool-cases (ltb (sub64 s.indirect_data_capacity (length s.indirect_data)) size)) [
        | inl full ↦ elim (Bool-cases (heap.alloc_bytes n)) [
          | inl can ↦ inl (n, n, ground arith, ground arith, ground arith)
          | inr cannot ↦ inr (ground arith)
        ]
        | inr room ↦
            inl (s.indirect_data_capacity, s.indirect_allocated, ground arith, ground arith, a)
      ]

  -- The result of a push on a well-formed set: the parameter is last, or memory ran out.
  abbrev pub Pushed : Param → AuthorizationSet → Option (AuthorizationSet × Bool) → Type 0
  Pushed p s r =
      ((s' : AuthorizationSet) × (r ≡ some (s', true))
        × (contents s' ≡ contents s ++ p ∷ [])
        × IsValid s'
        × (s'.error ≡ ok))
      ⊎ (r ≡ some (failed, false))

  push_scalar-Pushed :
      (p : Param) (s : AuthorizationSet) (c : ℕ)
      → IsTagged p
      → is_blob_tag p.tag ≡ false
      → IsValid s
      → s.error ≡ ok
      → length s.elems < c
      → Pushed p s
          (some (record s { elems_capacity = c; elems = s.elems ++ stored 0 p ∷ [] }, true))
  push_scalar-Pushed p s c t h v e room =
      let (read_back, fits) = stored_scalar s.indirect_data p t h in
      let s' : AuthorizationSet = record s {
        elems_capacity = c;
        elems = s.elems ++ stored 0 p ∷ [];
      } in
      let x : Extends s [] p s' = record {
        elem = stored 0 p;
        elems_eq = refl;
        data_eq = sym (append-nil s.indirect_data);
        elem_fits = omega arith;
        elem_eq = rw append-nil read_back;
      } in
      inl (
        s',
        refl,
        contents-Extends x v.slices,
        Extends-IsValid x v room (omega (arith, v.data_fit)) v.allocated,
        e,
      )

  store_blob-Pushed :
      (p : Param) (s : AuthorizationSet) (c k a : ℕ)
      → IsTagged p
      → is_blob_tag p.tag ≡ true
      → IsValid s
      → s.error ≡ ok
      → length s.elems < c
      → length s.indirect_data + length (blob_of [] p.value) ≤ k
      → k ≤ a
      → Pushed p s (
          store_blob heap p (
            record s { elems_capacity = c; indirect_data_capacity = k; indirect_allocated = a },
            true,
          ))
  unfolding store_blob
  store_blob-Pushed p s c k a t h v e room fits le =
      let bytes = blob_of [] p.value in
      let grown : AuthorizationSet = record s {
        elems_capacity = c;
        indirect_data_capacity = k;
        indirect_allocated = a;
      } in
      let s' : AuthorizationSet = record grown {
        elems = s.elems ++ stored (length s.indirect_data) p ∷ [];
        indirect_data = s.indirect_data ++ bytes;
      } in
      let x : Extends s bytes p s' = record {
        elem = stored (length s.indirect_data) p;
        elems_eq = refl;
        data_eq = refl;
        elem_fits = stored-ElemFits (length s.indirect_data) _ p h (omega arith);
        elem_eq = resolve-stored s.indirect_data p t h;
      } in
      inl (
        s',
        rw (copy_indirect_fits bytes grown (omega arith), store_blob)
            (append_elem_fits _ (record grown { indirect_data = s.indirect_data ++ bytes }) room),
        contents-Extends x v.slices,
        Extends-IsValid x v room fits le,
        e,
      )

  store_elem-Pushed :
      (p : Param) (s : AuthorizationSet) (c : ℕ)
      → IsTagged p
      → IsValid s
      → s.error ≡ ok
      → length s.elems < c
      → 2 * (s.indirect_data_capacity + length (blob_of [] p.value)) < 0x1_0000_0000_0000_0000
      → Pushed p s (store_elem heap p (record s { elems_capacity = c }, true))
  unfolding store_elem
  store_elem-Pushed p s c t v e room small = elim (Bool-cases (is_blob_tag p.tag)) [
    | inl h ↦
        rw h
          (elim (make_indirect_room-Grown (length (blob_of [] p.value))
            (record s { elems_capacity = c }) v.data_fit v.allocated small e) [
              | inl (k, a, g, fits, le) ↦ rw g (store_blob-Pushed p s c k a t h v e room fits le)
              | inr g ↦ inr (rw g (unfold store_blob in refl))
            ])
    | inr h ↦
        rw (h, append_elem_fits (stored 0 p) (record s { elems_capacity = c }) room)
          (push_scalar-Pushed p s c t h v e room)
  ]

  push_back_ok :
      (p : Param) (s : AuthorizationSet)
      → s.error ≡ ok
      → push_back heap p s ≡ store_elem heap p (make_room heap s)
  unfolding push_back
  push_back_ok p s e = ground arith

  -- A push on a well-formed set whose capacities can be doubled writes inside allocated memory. It
  -- either puts the parameter behind the others, and the set stays well formed, or finds no memory,
  -- and the set is then empty and marked by ALLOCATION_FAILURE.
  pub contents-push_back :
      (p : Param) (s : AuthorizationSet)
      → IsTagged p
      → IsValid s
      → IsSmall p s
      → s.error ≡ ok
      → Pushed p s (push_back heap p s)
  contents-push_back p s t v small e =
      rw (push_back_ok p s e) (elim (make_room-Grown s v.elems_fit small.elems_small e) [
        | inl (c, g, room) ↦ rw g (store_elem-Pushed p s c t v e room small.data_small)
        | inr g ↦ inr (rw g (unfold store_elem in refl))
      ])
