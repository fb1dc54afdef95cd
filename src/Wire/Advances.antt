-- ===== src/Wire/Advances.antt =====
-- A read that succeeds moves on, over bytes that the input has, to a position that is not behind the
-- end (serializable.h, serializable.cpp): for the reads that are built from these.
use platform_system_keymaste.Common.{
  ℕ, zero, suc, ◌+◌, ◌≤◌, ◌<◌, ◌≡◌, refl, Bool, List, [], ◌∷◌, Option, none, some, arith, length,
  length-drop, if◌then◌else◌, true, false, ltb, leb, ◌||◌, ◌==◌, ◌*◌, ◌/◌, to_uint64, uint32_max,
}
use platform_system_keymaste.Wire.{
  In, ◌>>=◌, wraps, le_value, copy_from_buf, copy_uint32_from_buf, copy_uint64_from_buf,
  copy_size_and_data_from_buf, copy_words, copy_uint32_array_from_buf,
}
use platform_system_keymaste.Wire.Bounds.{>>=-eq-some}

-- The input has the bytes up to its end, and maybe more, which lies in the lower half of the
-- address space.
pub record IsHeld (i : In) : Type 0 where
  pub inside : i.ptr ≤ i.end
  pub held : i.end ≤ i.ptr + length i.bytes
  pub bounded : i.end < 0x8000_0000_0000_0000

-- From i to j, forward and not behind the end, over as many bytes.
pub record IsMoved (i j : In) : Type 0 where
  pub forward : i.ptr ≤ j.ptr
  pub inside : j.ptr ≤ j.end
  pub end_eq : j.end ≡ i.end
  pub bytes_eq : j.ptr + length j.bytes ≡ i.ptr + length i.bytes

pub IsMoved-IsHeld : {i j : In} → IsHeld i → IsMoved i j → IsHeld j
IsMoved-IsHeld h m = record {
  inside = m.inside;
  held = omega (arith, h.held, m.end_eq, m.bytes_eq);
  bounded = omega (arith, h.bounded, m.end_eq);
}

pub IsMoved-refl : {i : In} → IsHeld i → IsMoved i i
IsMoved-refl h = record { forward = omega arith; inside = h.inside; end_eq = refl; bytes_eq = refl }

pub IsMoved-trans : {i j k : In} → IsMoved i j → IsMoved j k → IsMoved i k
IsMoved-trans p q = record {
  forward = omega (arith, p.forward, q.forward);
  inside = q.inside;
  end_eq = omega (arith, p.end_eq, q.end_eq);
  bytes_eq = omega (arith, p.bytes_eq, q.bytes_eq);
}

module _ {A : Type 0} where
  -- Every read that succeeds moves on.
  pub record Advances (c : In → Option (A × In)) : Type 0 where
    pub moved : (i : In) (a : A) (j : In) → IsHeld i → c i ≡ some (a, j) → IsMoved i j

  pub none-Advances : Advances (λ i. none)
  none-Advances = record { moved = λ i a j h e. cc }

  pub some-Advances : (a : A) → Advances (λ i. some (a, i))
  some-Advances a = record { moved = λ i b j h e. ground (arith, IsMoved-refl h) }

  pub if-Advances :
      (b : Bool) {c d : In → Option (A × In)}
      → Advances c
      → Advances d
      → Advances (λ i. if b then c i else d i)
  if-Advances true x y = x
  if-Advances false x y = y

module _ {A B : Type 0} {c : In → Option (A × In)} where
  pub bind-Advances :
      (k : A → In → Option (B × In))
      → Advances c
      → ((a : A) → Advances (k a))
      → Advances (λ i. ◌>>=◌ {B = B × In} (c i) (λ p. k p.0 p.1))
  bind-Advances k x y = record {
    moved = λ i b l h e.
        let ((a, j), d, f) = >>=-eq-some (c i) _ e in
        let m = x.moved i a j h d in
        let n = y a in IsMoved-trans m (n.moved j b l (IsMoved-IsHeld h m) f);
  }

  pub map-Advances :
      (f : A → B) → Advances c → Advances (λ i. ◌>>=◌ {B = B × In} (c i) (λ p. some (f p.0, p.1)))
  map-Advances f x = bind-Advances (λ a i. some (f a, i)) x (λ a. some-Advances (f a))

-- A value made of two, three or four that are read one behind the other.
module _ {A A' B : Type 0} {c : In → Option (A × In)} {c' : In → Option (A' × In)} where
  pub two-Advances :
      (h : A → A' → B)
      → Advances c
      → Advances c'
      → Advances (λ i.
        ◌>>=◌ {B = B × In} (c i) (λ p. ◌>>=◌ {B = B × In} (c' p.1) (λ p'. some (h p.0 p'.0, p'.1))))
  two-Advances h x y =
      bind-Advances (λ a i. ◌>>=◌ {B = B × In} (c' i) (λ p'. some (h a p'.0, p'.1))) x
        (λ a. map-Advances (h a) y)

module _ {A A' A'' B : Type 0} {c : In → Option (A × In)} {c' : In → Option (A' × In)}
    {c'' : In → Option (A'' × In)} where
  pub three-Advances :
      (h : A → A' → A'' → B)
      → Advances c
      → Advances c'
      → Advances c''
      → Advances (λ i. ◌>>=◌ {B = B × In} (c i) (λ p.
        ◌>>=◌ {B = B × In}
          (c' p.1)
          (λ p'. ◌>>=◌ {B = B × In} (c'' p'.1) (λ p''. some (h p.0 p'.0 p''.0, p''.1)))))
  three-Advances h x y z =
      bind-Advances
        (λ a i.
          ◌>>=◌ {B = B × In} (c' i)
            (λ p'. ◌>>=◌ {B = B × In} (c'' p'.1) (λ p''. some (h a p'.0 p''.0, p''.1))))
        x (λ a. two-Advances (h a) y z)

module _ {A A' A'' D B : Type 0} {c : In → Option (A × In)} {c' : In → Option (A' × In)}
    {c'' : In → Option (A'' × In)} {d : In → Option (D × In)} where
  pub four-Advances :
      (h : A → A' → A'' → D → B)
      → Advances c
      → Advances c'
      → Advances c''
      → Advances d
      → Advances (λ i. ◌>>=◌ {B = B × In} (c i) (λ p. ◌>>=◌ {B = B × In} (c' p.1) (λ p'.
        ◌>>=◌ {B = B × In}
          (c'' p'.1)
          (λ p''. ◌>>=◌ {B = B × In} (d p''.1) (λ r. some (h p.0 p'.0 p''.0 r.0, r.1))))))
  four-Advances h x y z v =
      bind-Advances
        (λ a i. ◌>>=◌ {B = B × In} (c' i) (λ p'.
          ◌>>=◌ {B = B × In} (c'' p'.1)
            (λ p''. ◌>>=◌ {B = B × In} (d p''.1) (λ r. some (h a p'.0 p''.0 r.0, r.1)))))
        x (λ a. three-Advances (h a) y z v)

pub copy_from_buf-Advances : (size : ℕ) → Advances (copy_from_buf size)
unfolding copy_from_buf
copy_from_buf-Advances size = record {
  moved = λ i a j h e. ground (arith, h, length-drop size i.bytes);
}

pub uint32-Advances : Advances copy_uint32_from_buf
unfolding copy_uint32_from_buf
uint32-Advances = map-Advances (λ bytes. le_value bytes) (copy_from_buf-Advances 4)

pub uint64-Advances : Advances copy_uint64_from_buf
unfolding copy_uint64_from_buf
uint64-Advances = map-Advances (λ bytes. le_value bytes) (copy_from_buf-Advances 8)

copy_words-Advances : (n : ℕ) → Advances (copy_words n)
unfolding copy_words
copy_words-Advances zero = some-Advances []
copy_words-Advances (suc n) =
    bind-Advances (λ v i. ◌>>=◌ {B = List ℕ × In} (copy_words n i) (λ p. some (v ∷ p.0, p.1)))
      uint32-Advances (λ v. map-Advances (λ vs. v ∷ vs) (copy_words-Advances n))

module _ (alloc : ℕ → Bool) where
  abbrev sized_rest : ℕ → In → Option (List ℕ × In)
  sized_rest size i =
      if wraps i.ptr size
      then none
      else if ltb i.end (i.ptr + size)
      then none
      else if size == 0
      then some ([], i)
      else if alloc size
      then copy_from_buf size i
      else none

  sized_rest-Advances : (size : ℕ) → Advances (sized_rest size)
  sized_rest-Advances size = record {
    moved = λ i a j h e.
        let x = copy_from_buf-Advances size in ground (arith, x.moved i a j h, IsMoved-refl h);
  }

  pub size_and_data-Advances : Advances (copy_size_and_data_from_buf alloc)
  unfolding copy_size_and_data_from_buf
  size_and_data-Advances = bind-Advances sized_rest uint32-Advances sized_rest-Advances

  abbrev array_rest : ℕ → In → Option (List ℕ × In)
  array_rest count i =
      let array_end = to_uint64 (i.ptr + count * 4) in
      if leb (uint32_max / 4) count || ltb array_end i.ptr || ltb i.end array_end
      then none
      else if alloc (count * 4)
      then copy_words count i
      else none

  array_rest-Advances : (count : ℕ) → Advances (array_rest count)
  array_rest-Advances count = record {
    moved = λ i a j h e. let x = copy_words-Advances count in ground (arith, x.moved i a j h);
  }

  pub uint32_array-Advances : Advances (copy_uint32_array_from_buf alloc)
  unfolding copy_uint32_array_from_buf
  uint32_array-Advances = bind-Advances array_rest uint32-Advances array_rest-Advances
