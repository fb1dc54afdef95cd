-- ===== src/AuthorizationSet/Contents.antt =====
-- A set refines the list of its parameters: what push_back, clear and erase of authorization_set.cpp
-- do to the list that clients see.
use platform_system_keymaste.Common.{
  ℕ, ◌+◌, ◌≤◌, ◌≡◌, refl, ap, ◌∙◌, Bool, true, false, List, [], ◌∷◌, ◌++◌, map, arith, length, take,
  drop, All, take-le, drop-le, drop-append, take-length, length-drop,
}
use platform_system_keymaste.Defs.Tag.{is_blob_tag}
use platform_system_keymaste.AuthorizationSet.{
  Value, blob, blob_of, with_blob, Slice, null_slice, Param, Elem, AuthorizationSet, slice_of,
  resolve,
}
use platform_system_keymaste.AuthorizationSet.Memory.{stored}

-- The stored slice lies in the bytes in use.
abbrev pub SliceFits : ℕ → Slice → Type 0
SliceFits size s = s.offset + s.data_length ≤ size

abbrev pub ElemFits : ℕ → Elem → Type 0
ElemFits size e = SliceFits size (blob_of null_slice e.value)

pub record IsValid (s : AuthorizationSet) : Type 0 where
  pub elems_fit : length s.elems ≤ s.elems_capacity
  pub data_fit : length s.indirect_data ≤ s.indirect_data_capacity
  pub allocated : s.indirect_data_capacity ≤ s.indirect_allocated
  pub slices : All (ElemFits (length s.indirect_data)) s.elems

-- The tag says which member of the union is there.
abbrev pub IsBlob : Value (List ℕ) → Type 0
IsBlob (blob b) = Unit
IsBlob _ = ⊥

abbrev pub IsScalar : Value (List ℕ) → Type 0
IsScalar (blob b) = ⊥
IsScalar _ = Unit

abbrev pub Tagged : Bool → Value (List ℕ) → Type 0
Tagged true v = IsBlob v
Tagged false v = IsScalar v

abbrev pub IsTagged : Param → Type 0
IsTagged p = Tagged (is_blob_tag p.tag) p.value

slice_of-append :
    (xs ys : List ℕ) (s : Slice) → SliceFits (length xs) s → slice_of (xs ++ ys) s ≡ slice_of xs s
unfolding slice_of
slice_of-append xs ys s h =
    ap (take s.data_length) (drop-le s.offset xs ys (omega arith))
    ∙ take-le s.data_length (drop s.offset xs) ys (omega (arith, length-drop s.offset xs))

slice_of_end :
    (xs ys : List ℕ)
    → slice_of (xs ++ ys) (record { offset = length xs; data_length = length ys }) ≡ ys
unfolding slice_of
slice_of_end xs ys = ap (take (length ys)) (drop-append xs ys) ∙ take-length ys

resolve-append :
    (xs ys : List ℕ) (e : Elem) → ElemFits (length xs) e → resolve (xs ++ ys) e ≡ resolve xs e
unfolding resolve
resolve-append xs ys e h =
    ap (λ b. record { tag = e.tag; value = with_blob b e.value })
      (slice_of-append xs ys (blob_of null_slice e.value) h)

pub map-resolve-append :
    (xs ys : List ℕ) (es : List Elem)
    → All (ElemFits (length xs)) es
    → map (resolve (xs ++ ys)) es ≡ map (resolve xs) es
map-resolve-append xs ys [] h = refl
map-resolve-append xs ys (e ∷ es) h =
    ground (arith, resolve-append xs ys e h.0, map-resolve-append xs ys es h.1)

pub All-ElemFits-mono :
    (m n : ℕ) (es : List Elem) → m ≤ n → All (ElemFits m) es → All (ElemFits n) es
All-ElemFits-mono m n [] le h = tt
All-ElemFits-mono m n (e ∷ es) le h = (omega (arith, h.0), All-ElemFits-mono m n es le h.1)

-- What is stored of a tagged parameter reads back as the parameter.
pub resolve-stored :
    (xs : List ℕ) (p : Param)
    → IsTagged p
    → is_blob_tag p.tag ≡ true
    → resolve (xs ++ blob_of [] p.value) (stored (length xs) p) ≡ p
unfolding resolve stored
resolve-stored xs p t h = go p.value refl
  where
    go :
        (v : Value (List ℕ))
        → p.value ≡ v
        → resolve (xs ++ blob_of [] p.value) (stored (length xs) p) ≡ p
    go (blob b) e = ground (arith, slice_of_end xs b)
    go _ e = ground arith

pub stored_scalar :
    (xs : List ℕ) (p : Param)
    → IsTagged p
    → is_blob_tag p.tag ≡ false
    → (resolve xs (stored 0 p) ≡ p) × ElemFits (length xs) (stored 0 p)
unfolding resolve stored
stored_scalar xs p t h = go p.value refl
  where
    go :
        (v : Value (List ℕ))
        → p.value ≡ v
        → (resolve xs (stored 0 p) ≡ p) × ElemFits (length xs) (stored 0 p)
    go (blob b) e = ground arith
    go _ e = ground arith

pub stored-ElemFits :
    (offset size : ℕ) (p : Param)
    → is_blob_tag p.tag ≡ true
    → offset + length (blob_of [] p.value) ≤ size
    → ElemFits size (stored offset p)
unfolding stored
stored-ElemFits offset size p h le = go p.value refl
  where
    go : (v : Value (List ℕ)) → p.value ≡ v → ElemFits size (stored offset p)
    go (blob b) e = ground arith
    go _ e = ground arith
