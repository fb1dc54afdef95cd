-- ===== src/AuthorizationSet/Deserialized/Elements.antt =====
-- The parameters that `Deserialize` of authorization_set.cpp reads: each byte string lies in the
-- indirect data.
use platform_system_keymaste.Common.{
  ℕ, zero, suc, ◌≡◌, refl, ap, inl, inr, not, List, [], ◌∷◌, Option, none, some, arith, length, All,
  ltb, ◌==◌, Bool-cases, Option-cases,
}
use platform_system_keymaste.Defs.Tag.{
  TagType, km_invalid, km_enum, km_enum_rep, km_uint, km_uint_rep, km_ulong, km_ulong_rep, km_date,
  km_bool, km_bignum, km_bytes, tag_get_type,
}
use platform_system_keymaste.Wire.{In, ◌>>=◌, copy_uint32_from_buf, copy_uint64_from_buf}
use platform_system_keymaste.Wire.Bounds.{>>=-eq-some}
use platform_system_keymaste.AuthorizationSet.{
  Value, enumerated, integer, long_integer, date_time, boolean, blob_of, Slice, null_slice, Elem,
}
use platform_system_keymaste.AuthorizationSet.Contents.{SliceFits, ElemFits}
use platform_system_keymaste.AuthorizationSet.Codec.{
  Layout, copy_bool, copy_slice, copy_value, deserialize_elem, deserialize_elems,
}

copy_slice-SliceFits :
    (size : ℕ) (i j : In) (v : Value Slice)
    → copy_slice size i ≡ some (v, j)
    → SliceFits size (blob_of null_slice v)
unfolding copy_slice
copy_slice-SliceFits size i j v h = elim (Option-cases (copy_uint32_from_buf i)) [
  | inl q ↦ absurd (ground arith)
  | inr ((n, i'), q) ↦ elim (Option-cases (copy_uint32_from_buf i')) [
    | inl q' ↦ absurd (ground arith)
    | inr ((m, i''), q') ↦ ground arith
  ]
]

scalar-SliceFits :
    (size : ℕ) (make : ℕ → Value Slice) (o : Option (ℕ × In)) (j : In) (v : Value Slice)
    → ((n : ℕ) → blob_of null_slice (make n) ≡ null_slice)
    → ◌>>=◌ {B = Value Slice × In} o (λ p. some (make p.0, p.1)) ≡ some (v, j)
    → SliceFits size (blob_of null_slice v)
scalar-SliceFits size make none j v e h = cc
scalar-SliceFits size make (some (n, k)) j v e h =
    let eq : v ≡ make n = ground arith in rw (eq, e n) (omega arith)

copy_bool-SliceFits :
    (size : ℕ) (bytes : List ℕ) (ptr end : ℕ) (j : In) (v : Value Slice)
    → copy_bool (record { bytes = bytes; ptr = ptr; end = end }) ≡ some (v, j)
    → SliceFits size (blob_of null_slice v)
unfolding copy_bool
copy_bool-SliceFits size [] ptr end j v h = absurd (ground arith)
copy_bool-SliceFits size (b ∷ bs) ptr end j v h = elim (Bool-cases (ltb ptr end)) [
  | inl q ↦ let eq : v ≡ boolean (not (b == 0)) = ground arith in rw eq (omega arith)
  | inr q ↦ absurd (ground arith)
]

copy_value-SliceFits :
    (size : ℕ) (t : TagType) (i j : In) (v : Value Slice)
    → copy_value size t i ≡ some (v, j)
    → SliceFits size (blob_of null_slice v)
unfolding copy_value
copy_value-SliceFits size km_invalid i j v h = cc
copy_value-SliceFits size km_enum i j v h =
    scalar-SliceFits size (λ n. enumerated n) (copy_uint32_from_buf i) j v (λ n. refl) h
copy_value-SliceFits size km_enum_rep i j v h =
    scalar-SliceFits size (λ n. enumerated n) (copy_uint32_from_buf i) j v (λ n. refl) h
copy_value-SliceFits size km_uint i j v h =
    scalar-SliceFits size (λ n. integer n) (copy_uint32_from_buf i) j v (λ n. refl) h
copy_value-SliceFits size km_uint_rep i j v h =
    scalar-SliceFits size (λ n. integer n) (copy_uint32_from_buf i) j v (λ n. refl) h
copy_value-SliceFits size km_ulong i j v h =
    scalar-SliceFits size (λ n. long_integer n) (copy_uint64_from_buf i) j v (λ n. refl) h
copy_value-SliceFits size km_ulong_rep i j v h =
    scalar-SliceFits size (λ n. long_integer n) (copy_uint64_from_buf i) j v (λ n. refl) h
copy_value-SliceFits size km_date i j v h =
    scalar-SliceFits size (λ n. date_time n) (copy_uint64_from_buf i) j v (λ n. refl) h
copy_value-SliceFits size km_bool i j v h = copy_bool-SliceFits size i.bytes i.ptr i.end j v h
copy_value-SliceFits size km_bignum i j v h = copy_slice-SliceFits size i j v h
copy_value-SliceFits size km_bytes i j v h = copy_slice-SliceFits size i j v h

module _ (layout : Layout) where
  deserialize_elem-ElemFits :
      (size : ℕ) (i j : In) (e : Elem)
      → deserialize_elem layout size i ≡ some (e, j)
      → ElemFits size e
  unfolding deserialize_elem
  deserialize_elem-ElemFits size i j e h =
      let ((code, i'), q, h') = >>=-eq-some (copy_uint32_from_buf i) _ h in
      let t = tag_get_type (layout.tag_of_code code) in
      let ((v, i''), q', h'') = >>=-eq-some (copy_value size t i') _ h' in
      let fits = copy_value-SliceFits size t i' i'' v q' in
      let eq : e ≡ record { tag = layout.tag_of_code code; value = v } = ground arith in rw eq fits

  pub deserialize_elems-All :
      (size n : ℕ) (i j : In) (es : List Elem)
      → deserialize_elems layout size n i ≡ some (es, j)
      → All (ElemFits size) es × (length es ≡ n)
  unfolding deserialize_elems
  deserialize_elems-All size zero i j es h = let eq : es ≡ [] = ground arith in rw eq (tt, refl)
  deserialize_elems-All size (suc n) i j es h =
      let ((e, i'), q, h') = >>=-eq-some (deserialize_elem layout size i) _ h in
      let ((es', i''), q', h'') = >>=-eq-some (deserialize_elems layout size n i') _ h' in
      let (a, len) = deserialize_elems-All size n i' i'' es' q' in
      let eq : es ≡ e ∷ es' = ground arith in
      rw eq ((deserialize_elem-ElemFits size i i' e q, a), ap suc len)
