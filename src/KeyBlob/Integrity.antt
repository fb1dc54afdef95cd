-- ===== src/KeyBlob/Integrity.antt =====
-- What `DeserializeIntegrityAssuredBlob` of integrity_assured_key_blob.cpp accepts.
use platform_system_keymaste.Common.{
  ℕ, ◌-◌, ◌≡◌, refl, sym, ap, ◌∙◌, inl, inr, true, List, [], ◌∷◌, ◌++◌, arith, length, take, drop,
  Bool-cases, take-append-drop, length-drop,
}
use platform_system_keymaste.AuthorizationSet.{AuthorizationSet}
use platform_system_keymaste.AndroidKeymaster.{success, Parsed}
use platform_system_keymaste.AndroidKeymaster.Beginning.{Answer-cases}
use platform_system_keymaste.KeyBlob.{
  Vault, hmac_size, same_bytes, compute_hmac, deserialize_unchecked, deserialize_blob,
}

pub same_bytes-eq : (xs ys : List ℕ) → same_bytes xs ys ≡ true → xs ≡ ys
unfolding same_bytes
same_bytes-eq [] [] h = refl
same_bytes-eq [] (y ∷ ys) h = cc
same_bytes-eq (x ∷ xs) [] h = cc
same_bytes-eq (x ∷ xs) (y ∷ ys) h =
    let rest : same_bytes xs ys ≡ true = ground arith in
    let e = same_bytes-eq xs ys rest in let e' : x ≡ y = ground arith in cc

pub same_bytes_refl : (xs : List ℕ) → same_bytes xs xs ≡ true
unfolding same_bytes
same_bytes_refl [] = refl
same_bytes_refl (x ∷ xs) = ground (arith, same_bytes_refl xs)

module _ (v : Vault) where
  -- Before the MAC stand these bytes, which it is computed of, with the hidden authorizations; the rest
  -- of the code reads the same blob.
  abbrev pub IsSealed : ℕ → List ℕ → AuthorizationSet → Parsed → Type 0
  IsSealed address blob hidden p =
      (body : List ℕ) × (mac : List ℕ) × (blob ≡ body ++ mac)
      × (length mac ≡ hmac_size)
      × (compute_hmac v body hidden ≡ success mac)
      × (deserialize_unchecked v address blob ≡ success p)

  -- Whatever bytes a blob has, and whatever hidden authorizations are given, if
  -- `DeserializeIntegrityAssuredBlob` says OK, the blob is a body and eight bytes, and these are the MAC
  -- that is computed of that body with those hidden authorizations; what is returned is what the
  -- blob is read as without the check.
  pub deserialize_blob-IsSealed :
      (address : ℕ) (blob : List ℕ) (hidden : AuthorizationSet) (p : Parsed)
      → deserialize_blob v address blob hidden ≡ success p
      → IsSealed address blob hidden p
  unfolding deserialize_blob
  deserialize_blob-IsSealed address blob hidden p h =
      let size = length blob - hmac_size in
      elim (Answer-cases (compute_hmac v (take size blob) hidden)) [
        | inl (e, q) ↦ absurd (ground arith)
        | inr (mac, q) ↦ elim (Bool-cases (same_bytes (drop size blob) mac)) [
          | inr differ ↦ absurd (ground arith)
          | inl same ↦
              let e = same_bytes-eq (drop size blob) mac same in
              (
                take size blob,
                mac,
                sym (take-append-drop size blob) ∙ ap (λ m. take size blob ++ m) e,
                ground (arith, e, length-drop size blob, h),
                q,
                ground arith,
              )
        ]
      ]
