-- ===== src/Messages/AttestKeyResponse.antt =====
-- What AttestKeyResponse of android_keymaster_messages.cpp holds besides the error: the certificate
-- chain, whose length the reader bounds.
use platform_system_keymaste.Common.{
  ℕ, zero, suc, ◌+◌, ◌≤◌, ◌≡◌, refl, true, false, Bool, List, [], ◌∷◌, ◌++◌, Option, none, some,
  arith, length, All, length-append, ltb, if◌then◌else◌, Option-cases, inl, inr,
}
use platform_system_keymaste.Wire.{
  Out, In, ◌>>=◌, append_uint32_to_buf, append_size_and_data_to_buf, copy_uint32_from_buf,
  copy_size_and_data_from_buf,
}
use platform_system_keymaste.Wire.Carries.{
  Carries, Carries-one, Carries-two, Writes-then, Yields-bind,
}
use platform_system_keymaste.Wire.Carries.Primitives.{uint32-Carries, sized-Carries}
use platform_system_keymaste.Wire.Bounds.{>>=-eq-some}
use platform_system_keymaste.Wire.Advances.{
  Advances, none-Advances, some-Advances, if-Advances, bind-Advances, map-Advances, two-Advances,
  uint32-Advances, size_and_data-Advances,
}
use platform_system_keymaste.Messages.{Platform}
use platform_system_keymaste.Messages.Fields.{IsShort, IsReliable, nothing-Carries}

pub record AttestKeyResponse : Type 0 where
  pub certificate_chain : List (List ℕ)

abbrev pub max_chain_entry_count : ℕ
max_chain_entry_count = 10

-- `AllocateChain`: whether there is an array for so many entries.
unfoldable pub allocate_chain : Platform → ℕ → Bool
allocate_chain platform entry_count =
    if ltb max_chain_entry_count entry_count then false else platform.alloc_entries entry_count

unfoldable pub entries_size : List (List ℕ) → ℕ
entries_size [] = 0
entries_size (entry ∷ entries) = 4 + length entry + entries_size entries

unfoldable pub serialized_size : AttestKeyResponse → ℕ
unfolding entries_size
serialized_size m = 4 + entries_size m.certificate_chain

unfoldable pub append_entries : List (List ℕ) → Out → Out
append_entries [] o = o
append_entries (entry ∷ entries) o = append_entries entries (append_size_and_data_to_buf entry o)

unfoldable pub serialize : AttestKeyResponse → Out → Out
unfolding append_entries
serialize m o =
    append_entries m.certificate_chain (append_uint32_to_buf (length m.certificate_chain) o)

unfoldable pub copy_entries : Platform → ℕ → In → Option (List (List ℕ) × In)
copy_entries platform zero i = some ([], i)
copy_entries platform (suc n) i = do
  (entry, i1) ← copy_size_and_data_from_buf platform.heap.alloc_bytes i
  (entries, i2) ← copy_entries platform n i1
  some (entry ∷ entries, i2)

abbrev copy_chain : Platform → ℕ → In → Option (AttestKeyResponse × In)
copy_chain platform entry_count i =
    if allocate_chain platform entry_count
    then (do
      (entries, i1) ← copy_entries platform entry_count i
      some (record { certificate_chain = entries }, i1))
    else none

unfoldable pub deserialize : Platform → In → Option (AttestKeyResponse × In)
unfolding allocate_chain copy_entries
deserialize platform i = do
  (entry_count, i1) ← copy_uint32_from_buf i
  copy_chain platform entry_count i1

-- The chain is not too long, nor is a certificate.
abbrev pub Fits : Platform → AttestKeyResponse → Type 0
Fits platform m =
    (length m.certificate_chain ≤ max_chain_entry_count) × All IsShort m.certificate_chain

abbrev pub Same : AttestKeyResponse → AttestKeyResponse → Type 0
Same m w = w.certificate_chain ≡ m.certificate_chain

module _ (platform : Platform) (r : IsReliable platform) where
  entries-Carries :
      (entries : List (List ℕ))
      → All IsShort entries
      → Carries
          (entries_size entries)
          (append_entries entries)
          (copy_entries platform (length entries))
          (λ a. a ≡ entries)
  unfolding entries_size append_entries copy_entries
  entries-Carries [] h = nothing-Carries [] (λ a. a ≡ []) refl
  entries-Carries (entry ∷ entries) h =
      Carries-two (λ a rest. a ∷ rest) (λ a. a ≡ entry ∷ entries)
        (sized-Carries platform.heap.alloc_bytes r.plenty.bytes_given entry h.0)
        (entries-Carries entries h.1) (λ a rest p q. cc)

  allocate_chain-given : (n : ℕ) → n ≤ max_chain_entry_count → allocate_chain platform n ≡ true
  unfolding allocate_chain
  allocate_chain-given n h = ground (arith, r.entries_given n)

pub serialize-Carries :
    (platform : Platform) (m : AttestKeyResponse)
    → IsReliable platform
    → Fits platform m
    → Carries (serialized_size m) (serialize m) (deserialize platform) (Same m)
unfolding serialized_size serialize deserialize
serialize-Carries platform m r h =
    let chain = m.certificate_chain in
    let x = uint32-Carries (length chain) (omega (arith, h.0)) in
    let y =
      Carries-one (λ a. record { certificate_chain = a }) (Same m)
        (entries-Carries platform r chain h.1) (λ a p. p) in
    record {
      bytes = x.bytes ++ y.bytes;
      length_eq = omega (arith, length-append x.bytes y.bytes, x.length_eq, y.length_eq);
      writes =
          Writes-then (append_uint32_to_buf (length chain)) (append_entries chain) x.bytes y.bytes
            x.writes y.writes;
      yields =
          Yields-bind copy_uint32_from_buf (copy_chain platform) (λ n. n ≡ length chain) (Same m)
            x.bytes y.bytes x.yields
            (λ n p rest ptr end room low.
              let (w, e, s) = y.yields rest ptr end room low in
              (w, rw (p, allocate_chain-given platform r (length chain) h.0) e, s));
    }

module _ (platform : Platform) where
  entries-Advances : (n : ℕ) → Advances (copy_entries platform n)
  unfolding copy_entries
  entries-Advances zero = some-Advances []
  entries-Advances (suc n) =
      two-Advances (λ a rest. a ∷ rest) (size_and_data-Advances platform.heap.alloc_bytes)
        (entries-Advances n)

  pub deserialize-Advances : Advances (deserialize platform)
  unfolding deserialize
  deserialize-Advances = bind-Advances (copy_chain platform) uint32-Advances (λ n.
      if-Advances (allocate_chain platform n)
        (map-Advances (λ a. record { certificate_chain = a }) (entries-Advances n)) none-Advances)

  length-copy_entries :
      (n : ℕ) (i : In) {entries : List (List ℕ)} {j : In}
      → copy_entries platform n i ≡ some (entries, j)
      → length entries ≡ n
  unfolding copy_entries
  length-copy_entries zero i e = ground arith
  length-copy_entries (suc n) i e =
      let ((entry, k), d, f) =
        >>=-eq-some (copy_size_and_data_from_buf platform.heap.alloc_bytes i) _ e in
      let ((entries, l), d', f') = >>=-eq-some (copy_entries platform n k) _ f in
      ground (arith, length-copy_entries n k d')

  copy_chain-some :
      (n : ℕ) (i : In) {m : AttestKeyResponse} {j : In}
      → copy_chain platform n i ≡ some (m, j)
      → (length m.certificate_chain ≡ n) × (allocate_chain platform n ≡ true)
  copy_chain-some n i {m} {j} e = elim (Option-cases (copy_entries platform n i)) [
    | inl q ↦ absurd (ground arith)
    | inr ((entries, k), q) ↦ ground (arith, length-copy_entries n i q)
  ]

  -- Whatever bytes a certificate chain is read from, it has at most ten certificates, and there was an
  -- array for so many.
  pub deserialize-chain :
      (i : In) {m : AttestKeyResponse} {j : In}
      → deserialize platform i ≡ some (m, j)
      → (length m.certificate_chain ≤ max_chain_entry_count)
        × (platform.alloc_entries (length m.certificate_chain) ≡ true)
  unfolding deserialize allocate_chain
  deserialize-chain i e =
      let ((n, k), d, f) = >>=-eq-some (copy_uint32_from_buf i) _ e in
      let (p, q) = copy_chain-some n k f in ground arith
