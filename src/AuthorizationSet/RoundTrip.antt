-- ===== src/AuthorizationSet/RoundTrip.antt =====
-- What `Serialize` of authorization_set.cpp writes of a set, `Deserialize` reads back.
use platform_system_keymaste.Common.{
  ℕ, ◌+◌, ◌≤◌, ◌<◌, ◌≡◌, refl, ap, ◌∙◌, List, ◌++◌, Option, some, none,
}
use platform_system_keymaste.Wire.{In}
use platform_system_keymaste.Wire.RoundTrip.{input, output}
use platform_system_keymaste.Wire.Carries.{Carries-round}
use platform_system_keymaste.AuthorizationSet.{AuthorizationSet, empty_set}
use platform_system_keymaste.AuthorizationSet.Memory.{Heap, free_data}
use platform_system_keymaste.AuthorizationSet.Codec.{
  Layout, serialized_size, serialize, deserialize,
}
pub mod Elements
pub mod Lists
pub mod Whole
use platform_system_keymaste.AuthorizationSet.RoundTrip.Whole.{
  some_input, copy_set, SameSet, IsPlenty, IsWritable, set-Carries,
}

some_input-eq :
    {d : AuthorizationSet × Option In} {s : AuthorizationSet} {i : In}
    → some_input d ≡ some (s, i)
    → d ≡ (s, some i)
some_input-eq {d = (s', none)} h = cc
some_input-eq {d = (s', some i')} h = cc

module _ (layout : Layout) (heap : Heap) where
  deserialize-copy_set :
      (s : AuthorizationSet) (i : In) {t : AuthorizationSet} {j : In}
      → copy_set layout heap i ≡ some (t, j)
      → deserialize layout heap s i ≡ (t, some j)
  unfolding copy_set deserialize free_data
  deserialize-copy_set s i h = some_input-eq h

  -- A set whose parameters have values of their tags' types, whose sizes fit in four bytes each and
  -- whose byte strings fill its indirect data is written, into a buffer with room for it, as
  -- `SerializedSize` bytes, and `Deserialize` of any set makes of these bytes the same parameters with
  -- the same indirect data and no error, and stops where the writing did, whatever follows. The
  -- numbers of the tags name the tags, the buffer and the array of parameters lie in the lower half of
  -- the address space, and memory can be allocated.
  pub deserialize-serialize-SameSet :
      (s t : AuthorizationSet) (rest : List ℕ) (start end : ℕ)
      → IsWritable layout s
      → IsPlenty heap
      → start + serialized_size s ≤ end
      → end < 0x8000_0000_0000_0000
      → let o = serialize layout s (output start end) in
        let d = deserialize layout heap t (input (o.written ++ rest) start end) in
        (o.ptr ≡ start + serialized_size s) × SameSet s d.0 × (d.1 ≡ some (input rest o.ptr end))
  deserialize-serialize-SameSet s t rest start end v plenty room low =
      let (p, (u, e, same)) =
        Carries-round (set-Carries layout heap s v plenty) rest start end room low in
      let d = deserialize-copy_set t _ e in (p, rw d same, ap (λ x. x.1) d)
