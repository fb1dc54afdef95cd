-- ===== src/AuthorizationSet/RoundTrip/Lists.antt =====
-- The list of the parameters, as `SerializeElementsData` of authorization_set.cpp writes it, is read
-- back.
use platform_system_keymaste.Common.{
  ℕ, ◌+◌, ◌*◌, ◌≤◌, ◌<◌, ◌≡◌, refl, ap, ◌∙◌, List, [], ◌∷◌, ◌++◌, some, arith, length, All,
  length-append, append-nil,
}
use platform_system_keymaste.Defs.Tag.{
  TagType, km_invalid, km_enum, km_enum_rep, km_uint, km_uint_rep, km_ulong, km_ulong_rep, km_date,
  km_bool, km_bignum, km_bytes, Tag, tag_get_type,
}
use platform_system_keymaste.Wire.{In, ◌>>=◌, append_uint32_to_buf, copy_uint32_from_buf}
use platform_system_keymaste.Wire.Carries.{Carries, Writes-then, Yields-bind, Carries-two}
use platform_system_keymaste.Wire.Carries.Primitives.{uint32-Carries}
use platform_system_keymaste.AuthorizationSet.{Value, Slice, Elem}
use platform_system_keymaste.AuthorizationSet.Codec.{
  Layout, size_of_type, serialized_size_of_elements, append_value, copy_value, serialize_elem,
  serialize_elems, deserialize_elem, deserialize_elems,
}
use platform_system_keymaste.AuthorizationSet.RoundTrip.Elements.{
  IsWireValue, value_size, value-Carries,
}

size_of_type-value_size : (t : TagType) → size_of_type t ≡ 4 + value_size t
unfolding size_of_type value_size
size_of_type-value_size km_invalid = refl
size_of_type-value_size km_enum = refl
size_of_type-value_size km_enum_rep = refl
size_of_type-value_size km_uint = refl
size_of_type-value_size km_uint_rep = refl
size_of_type-value_size km_ulong = refl
size_of_type-value_size km_ulong_rep = refl
size_of_type-value_size km_date = refl
size_of_type-value_size km_bool = refl
size_of_type-value_size km_bignum = refl
size_of_type-value_size km_bytes = refl

pub count-serialized_size : (es : List Elem) → length es * 4 ≤ serialized_size_of_elements es
unfolding serialized_size_of_elements
count-serialized_size [] = omega arith
count-serialized_size (e ∷ es) =
    omega (arith, count-serialized_size es, size_of_type-value_size (tag_get_type e.tag))

abbrev elem_of : Tag → Value Slice → Elem
elem_of t v = record { tag = t; value = v }

module _ (layout : Layout) (size : ℕ) where
  open layout use {tag_code, tag_of_code}

  -- The number of the tag names the tag, and the value is one of the tag's type that fits.
  pub record IsWireElem (e : Elem) : Type 0 where
    pub tag_eq : tag_of_code (tag_code e.tag) ≡ e.tag
    pub word : tag_code e.tag < 0x1_0000_0000
    pub value_ok : IsWireValue size (tag_get_type e.tag) e.value

  module _ (e : Elem) (h : IsWireElem e) where
    tag-value : {t : Tag} {w : Value Slice} → t ≡ e.tag → w ≡ e.value → elem_of t w ≡ e
    tag-value {t} {w} q p = ap (λ a. elem_of a w) q ∙ ap (λ v. elem_of e.tag v) p

    elem-Carries :
        Carries
          (size_of_type (tag_get_type e.tag))
          (serialize_elem layout e)
          (deserialize_elem layout size)
          (λ a. a ≡ e)
    unfolding serialize_elem deserialize_elem
    elem-Carries =
        let x = uint32-Carries (tag_code e.tag) h.word in
        let y = value-Carries size (tag_get_type e.tag) e.value h.value_ok in
        record {
          bytes = x.bytes ++ y.bytes;
          length_eq = omega (
            arith,
            length-append x.bytes y.bytes,
            x.length_eq,
            y.length_eq,
            size_of_type-value_size (tag_get_type e.tag),
          );
          writes =
              Writes-then (append_uint32_to_buf (tag_code e.tag))
                (append_value (tag_get_type e.tag) e.value) x.bytes y.bytes x.writes y.writes;
          yields =
              Yields-bind copy_uint32_from_buf
                (λ n i.
                  ◌>>=◌ {B = Elem × In} (copy_value size (tag_get_type (tag_of_code n)) i)
                    (λ p. some (elem_of (tag_of_code n) p.0, p.1)))
                (λ w. w ≡ tag_code e.tag) (λ w. w ≡ e) x.bytes y.bytes x.yields
                (λ n p rest ptr end room low.
                  let (v, e', e'') = y.yields rest ptr end room low in
                  (e, rw (p, h.tag_eq, e', e'') refl, refl));
        }

  pub elems-Carries :
      (es : List Elem)
      → All IsWireElem es
      → Carries
          (serialized_size_of_elements es)
          (serialize_elems layout es)
          (deserialize_elems layout size (length es))
          (λ r. r ≡ es)
  unfolding serialized_size_of_elements serialize_elems deserialize_elems
  elems-Carries [] h = record {
    bytes = [];
    length_eq = refl;
    writes = λ o room. ground (arith, append-nil o.written);
    yields = λ rest ptr end room low. ([], ground arith, refl);
  }
  elems-Carries (e ∷ es) h =
      Carries-two (λ a rest. a ∷ rest) (λ r. r ≡ e ∷ es) (elem-Carries e h.0) (elems-Carries es h.1)
        (λ a rest p q. cc)
