-- ===== src/Wire/Carries.antt =====
-- Writing a value and reading it back, in parts: for the serializers that are built from those of
-- serializable.h.
pub mod Primitives
use platform_system_keymaste.Common.{
  ℕ, ◌+◌, ◌*◌, ◌/◌, ◌≤◌, ◌<◌, ◌≡◌, refl, ap, ◌∙◌, true, Bool, List, ◌++◌, append_assoc, Option,
  some, arith, length, All, length-append, uint32_max,
}
use platform_system_keymaste.Wire.{
  Out, In, ◌>>=◌, le_bytes, append_uint32_to_buf, append_uint64_to_buf, append_size_and_data_to_buf,
  append_uint32_array_to_buf, copy_uint32_from_buf, copy_uint64_from_buf,
  copy_size_and_data_from_buf, copy_uint32_array_from_buf,
}
use platform_system_keymaste.Wire.RoundTrip.{
  Room, wrote, input, output, sized, words, IsWord, length-le_bytes, length-words, wrote-wrote,
  append_uint32_fits, append_uint64_fits, append_size_and_data_fits, append_uint32_array_fits,
  copy_uint32_append, copy_uint64_append, copy_size_and_data_append, copy_uint32_array_append,
}

-- In a buffer with room for them, f writes these bytes.
abbrev pub Writes : List ℕ → (Out → Out) → Type 0
Writes bytes f = (o : Out) → Room (length bytes) o → f o ≡ wrote bytes o

module _ {A : Type 0} where
  -- From these bytes, whatever follows, c reads a value of which P holds, and no byte more. The buffer
  -- ends in the lower half of the address space.
  abbrev pub Yields : List ℕ → (In → Option (A × In)) → (A → Type 0) → Type 0
  Yields bytes c P =
      (rest : List ℕ) (ptr end : ℕ)
      → ptr + length bytes ≤ end
      → end < 0x8000_0000_0000_0000
      → (a : A) × (c (input (bytes ++ rest) ptr end)
          ≡ some (a, input rest (ptr + length bytes) end))
        × P a

  -- What f writes, n bytes, c reads back, up to P.
  pub record Carries (n : ℕ) (f : Out → Out) (c : In → Option (A × In)) (P : A → Type 0)
      : Type 0 where
    pub bytes : List ℕ
    pub length_eq : length bytes ≡ n
    pub writes : Writes bytes f
    pub yields : Yields bytes c P

pub Writes-then :
    (f g : Out → Out) (xs ys : List ℕ)
    → Writes xs f
    → Writes ys g
    → Writes (xs ++ ys) (λ o. g (f o))
Writes-then f g xs ys wf wg o room =
    let e = length-append xs ys in
    ap g (wf o (omega (arith, e))) ∙ wg (wrote xs o) (omega (arith, e)) ∙ wrote-wrote xs ys o

module _ {A B : Type 0} (c : In → Option (A × In)) (k : A → In → Option (B × In)) (P : A → Type 0)
    (Q : B → Type 0) (xs ys : List ℕ) where
  pub Yields-bind :
      Yields xs c P
      → ((a : A) → P a → Yields ys (k a) Q)
      → Yields (xs ++ ys) (λ i. ◌>>=◌ {B = B × In} (c i) (λ p. k p.0 p.1)) Q
  Yields-bind yc yk rest ptr end h low =
      let len = length-append xs ys in
      let (a, e, p) = yc (ys ++ rest) ptr end (omega (arith, len)) low in
      let (b, e', q) = yk a p rest (ptr + length xs) end (omega (arith, len)) low in
      let at : ptr + length xs + length ys ≡ ptr + length (xs ++ ys) = omega (arith, len) in
      (b, rw (append_assoc xs ys rest, e) (e' ∙ ap (λ n. some (b, input rest n end)) at), q)

-- A value made of one, two, three or four that are read one behind the other.
module _ {A B : Type 0} {n : ℕ} {f : Out → Out} {c : In → Option (A × In)} {P : A → Type 0} where
  Yields-one :
      (h : A → B) (Q : B → Type 0) (x : Carries n f c P)
      → ((a : A) → P a → Q (h a))
      → Yields x.bytes (λ i. ◌>>=◌ {B = B × In} (c i) (λ p. some (h p.0, p.1))) Q
  Yields-one h Q x k rest ptr end room low =
      let (a, e, p) = x.yields rest ptr end room low in (h a, rw e, k a p)

  pub Carries-one :
      (h : A → B) (Q : B → Type 0)
      → Carries n f c P
      → ((a : A) → P a → Q (h a))
      → Carries n f (λ i. ◌>>=◌ {B = B × In} (c i) (λ p. some (h p.0, p.1))) Q
  Carries-one h Q x k = record {
    bytes = x.bytes;
    length_eq = x.length_eq;
    writes = x.writes;
    yields = Yields-one h Q x k;
  }

module _ {A A' B : Type 0} {n m : ℕ} {f g : Out → Out} {c : In → Option (A × In)}
    {c' : In → Option (A' × In)} {P : A → Type 0} {P' : A' → Type 0} where
  Yields-two :
      (h : A → A' → B) (Q : B → Type 0) (x : Carries n f c P) (y : Carries m g c' P')
      → ((a : A) (a' : A') → P a → P' a' → Q (h a a'))
      → Yields
          (x.bytes ++ y.bytes)
          (λ i.
            ◌>>=◌ {B = B × In}
              (c i)
              (λ p. ◌>>=◌ {B = B × In} (c' p.1) (λ p'. some (h p.0 p'.0, p'.1))))
          Q
  Yields-two h Q x y k =
      Yields-bind c (λ a i. ◌>>=◌ {B = B × In} (c' i) (λ p'. some (h a p'.0, p'.1))) P Q x.bytes
        y.bytes x.yields (λ a p. (Yields-one (h a) Q y (λ a' p'. k a a' p p')))

  pub Carries-two :
      (h : A → A' → B) (Q : B → Type 0)
      → Carries n f c P
      → Carries m g c' P'
      → ((a : A) (a' : A') → P a → P' a' → Q (h a a'))
      → Carries
          (n + m)
          (λ o. g (f o))
          (λ i.
            ◌>>=◌ {B = B × In}
              (c i)
              (λ p. ◌>>=◌ {B = B × In} (c' p.1) (λ p'. some (h p.0 p'.0, p'.1))))
          Q
  Carries-two h Q x y k = record {
    bytes = x.bytes ++ y.bytes;
    length_eq = omega (arith, length-append x.bytes y.bytes, x.length_eq, y.length_eq);
    writes = Writes-then f g x.bytes y.bytes x.writes y.writes;
    yields = Yields-two h Q x y k;
  }

module _ {A A' A'' B : Type 0} {n m l : ℕ} {f f' f'' : Out → Out} {c : In → Option (A × In)}
    {c' : In → Option (A' × In)} {c'' : In → Option (A'' × In)} {P : A → Type 0} {P' : A' → Type 0}
    {P'' : A'' → Type 0} where
  Yields-three :
      (h : A → A' → A'' → B) (Q : B → Type 0) (x : Carries n f c P) (y : Carries m f' c' P')
      (z : Carries l f'' c'' P'')
      → ((a : A) (a' : A') (a'' : A'') → P a → P' a' → P'' a'' → Q (h a a' a''))
      → Yields
          (x.bytes ++ (y.bytes ++ z.bytes))
          (λ i. ◌>>=◌ {B = B × In} (c i) (λ p.
            ◌>>=◌ {B = B × In}
              (c' p.1)
              (λ p'. ◌>>=◌ {B = B × In} (c'' p'.1) (λ p''. some (h p.0 p'.0 p''.0, p''.1)))))
          Q
  Yields-three h Q x y z k =
      Yields-bind c
        (λ a i.
          ◌>>=◌ {B = B × In} (c' i)
            (λ p'. ◌>>=◌ {B = B × In} (c'' p'.1) (λ p''. some (h a p'.0 p''.0, p''.1))))
        P Q x.bytes (y.bytes ++ z.bytes) x.yields
        (λ a p. (Yields-two (h a) Q y z (λ a' a'' p' p''. k a a' a'' p p' p'')))

  pub Carries-three :
      (h : A → A' → A'' → B) (Q : B → Type 0)
      → Carries n f c P
      → Carries m f' c' P'
      → Carries l f'' c'' P''
      → ((a : A) (a' : A') (a'' : A'') → P a → P' a' → P'' a'' → Q (h a a' a''))
      → Carries
          (n + m + l)
          (λ o. f'' (f' (f o)))
          (λ i. ◌>>=◌ {B = B × In} (c i) (λ p.
            ◌>>=◌ {B = B × In}
              (c' p.1)
              (λ p'. ◌>>=◌ {B = B × In} (c'' p'.1) (λ p''. some (h p.0 p'.0 p''.0, p''.1)))))
          Q
  Carries-three h Q x y z k = record {
    bytes = x.bytes ++ (y.bytes ++ z.bytes);
    length_eq = omega (
      arith,
      length-append x.bytes (y.bytes ++ z.bytes),
      length-append y.bytes z.bytes,
      x.length_eq,
      y.length_eq,
      z.length_eq,
    );
    writes =
        Writes-then f (λ o. f'' (f' o)) x.bytes (y.bytes ++ z.bytes) x.writes
          (Writes-then f' f'' y.bytes z.bytes y.writes z.writes);
    yields = Yields-three h Q x y z k;
  }

module _ {A A' A'' D B : Type 0} {n m l w : ℕ} {f f' f'' g : Out → Out} {c : In → Option (A × In)}
    {c' : In → Option (A' × In)} {c'' : In → Option (A'' × In)} {e : In → Option (D × In)}
    {P : A → Type 0} {P' : A' → Type 0} {P'' : A'' → Type 0} {R : D → Type 0} where
  Yields-four :
      (h : A → A' → A'' → D → B) (Q : B → Type 0) (x : Carries n f c P) (y : Carries m f' c' P')
      (z : Carries l f'' c'' P'') (v : Carries w g e R)
      → ((a : A) (a' : A') (a'' : A'') (b : D) → P a → P' a' → P'' a'' → R b → Q (h a a' a'' b))
      → Yields
          (x.bytes ++ (y.bytes ++ (z.bytes ++ v.bytes)))
          (λ i. ◌>>=◌ {B = B × In} (c i) (λ p. ◌>>=◌ {B = B × In} (c' p.1) (λ p'.
            ◌>>=◌ {B = B × In}
              (c'' p'.1)
              (λ p''. ◌>>=◌ {B = B × In} (e p''.1) (λ r. some (h p.0 p'.0 p''.0 r.0, r.1))))))
          Q
  Yields-four h Q x y z v k =
      Yields-bind c
        (λ a i. ◌>>=◌ {B = B × In} (c' i) (λ p'.
          ◌>>=◌ {B = B × In} (c'' p'.1)
            (λ p''. ◌>>=◌ {B = B × In} (e p''.1) (λ r. some (h a p'.0 p''.0 r.0, r.1)))))
        P Q x.bytes (y.bytes ++ (z.bytes ++ v.bytes)) x.yields
        (λ a p. (Yields-three (h a) Q y z v (λ a' a'' b p' p'' r. k a a' a'' b p p' p'' r)))

  pub Carries-four :
      (h : A → A' → A'' → D → B) (Q : B → Type 0)
      → Carries n f c P
      → Carries m f' c' P'
      → Carries l f'' c'' P''
      → Carries w g e R
      → ((a : A) (a' : A') (a'' : A'') (b : D) → P a → P' a' → P'' a'' → R b → Q (h a a' a'' b))
      → Carries
          (n + m + l + w)
          (λ o. g (f'' (f' (f o))))
          (λ i. ◌>>=◌ {B = B × In} (c i) (λ p. ◌>>=◌ {B = B × In} (c' p.1) (λ p'.
            ◌>>=◌ {B = B × In}
              (c'' p'.1)
              (λ p''. ◌>>=◌ {B = B × In} (e p''.1) (λ r. some (h p.0 p'.0 p''.0 r.0, r.1))))))
          Q
  Carries-four h Q x y z v k = record {
    bytes = x.bytes ++ (y.bytes ++ (z.bytes ++ v.bytes));
    length_eq = omega (
      arith,
      length-append x.bytes (y.bytes ++ (z.bytes ++ v.bytes)),
      length-append y.bytes (z.bytes ++ v.bytes),
      length-append z.bytes v.bytes,
      x.length_eq,
      y.length_eq,
      z.length_eq,
      v.length_eq,
    );
    writes =
        Writes-then f (λ o. g (f'' (f' o))) x.bytes (y.bytes ++ (z.bytes ++ v.bytes)) x.writes
          (Writes-then f' (λ o. g (f'' o)) y.bytes (z.bytes ++ v.bytes) y.writes
            (Writes-then f'' g z.bytes v.bytes z.writes v.writes));
    yields = Yields-four h Q x y z v k;
  }

-- In a buffer with room for n bytes.
module _ {A : Type 0} {n : ℕ} {f : Out → Out} {c : In → Option (A × In)} {P : A → Type 0} where
  pub Carries-round :
      (x : Carries n f c P) (rest : List ℕ) (start end : ℕ)
      → start + n ≤ end
      → end < 0x8000_0000_0000_0000
      → let o = f (output start end) in
        (o.ptr ≡ start + n)
        × ((a : A) × (c (input (o.written ++ rest) start end) ≡ some (a, input rest o.ptr end))
            × P a)
  Carries-round x rest start end room low =
      let w = x.writes (output start end) (omega (arith, x.length_eq), omega arith) in
      let (a, e, p) = x.yields rest start end (omega (arith, x.length_eq)) low in
      rw w (ap (λ m. start + m) x.length_eq, (a, e, p))
