-- ===== src/SoftContext/OldBlob/Bounds.antt =====
-- Where ParseOldSoftkeymasterBlob reads past the end of its blob.
use platform_system_keymaste.Common.{
  ℕ, ◌+◌, ◌≤◌, ◌<◌, ◌≡◌, ◌≢◌, ◌⊎◌, inl, inr, ◌∙◌, List, [], ◌∷◌, ◌++◌, none, some, arith, length,
  length-append, take-append, drop-append,
}
use platform_system_keymaste.KeyBlob.{same_bytes}
use platform_system_keymaste.AndroidKeymaster.{success}
use platform_system_keymaste.SoftContext.OldBlob.{
  soft_key_magic, big_endian, read_four, old_private_key, old_public_key,
  parse_old_softkeymaster_blob,
}

-- The bytes of a blob up to the private key's length.
abbrev pub old_blob : ℕ → ℕ → ℕ → ℕ → ℕ → ℕ → ℕ → ℕ → List ℕ → List ℕ → List ℕ
old_blob t1 t2 t3 t4 a b c d key left =
    soft_key_magic ++ (t1 ∷ t2 ∷ t3 ∷ t4 ∷ a ∷ b ∷ c ∷ d ∷ (key ++ left))

-- Two or three bytes are left, and four are read.
abbrev pub IsShort : List ℕ → Type 0
IsShort left = (2 ≤ length left) × (length left < 4)

old_private_key-IsShort :
    (type : ℕ) (left : List ℕ)
    → (IsShort left × (old_private_key type left ≡ none))
      ⊎ (((length left < 2) ⊎ (4 ≤ length left)) × (old_private_key type left ≢ none))
unfolding old_private_key read_four
old_private_key-IsShort type [] = inr (inl (omega arith), ground arith)
old_private_key-IsShort type (a ∷ []) = inr (inl (omega arith), ground arith)
old_private_key-IsShort type (a ∷ b ∷ []) = inl ((omega arith, omega arith), ground arith)
old_private_key-IsShort type (a ∷ b ∷ c ∷ []) = inl ((omega arith, omega arith), ground arith)
old_private_key-IsShort type (a ∷ b ∷ c ∷ d ∷ p) = inr (inr (omega arith), ground arith)

old_public_key-append :
    (type a b c d : ℕ) (key left : List ℕ)
    → big_endian a b c d ≡ length key
    → old_public_key type (a ∷ b ∷ c ∷ d ∷ (key ++ left)) ≡ old_private_key type left
unfolding old_public_key read_four
old_public_key-append type a b c d key left h =
    rw h (rw (drop-append key left) (ground (arith, length-append key left)))

parse_old-append :
    (t1 t2 t3 t4 a b c d : ℕ) (key left : List ℕ)
    → big_endian a b c d ≡ length key
    → 14 ≤ length key + length left
    → parse_old_softkeymaster_blob (old_blob t1 t2 t3 t4 a b c d key left)
      ≡ old_private_key (big_endian t1 t2 t3 t4) left
unfolding parse_old_softkeymaster_blob read_four same_bytes
parse_old-append t1 t2 t3 t4 a b c d key left h long = ground (
  arith,
  length-append key left,
  old_public_key-append (big_endian t1 t2 t3 t4) a b c d key left h,
)

-- Take a blob with the magic number, a type, the length of the public key in four bytes, the public
-- key and the bytes that are left, of the size at least that is asked for. Its parsing reads past its
-- end if two or three bytes are left, and not if fewer or more are.
pub parse_old_softkeymaster_blob-IsShort :
    (t1 t2 t3 t4 a b c d : ℕ) (key left : List ℕ)
    → big_endian a b c d ≡ length key
    → 14 ≤ length key + length left
    → let r = parse_old_softkeymaster_blob (old_blob t1 t2 t3 t4 a b c d key left) in
      (IsShort left × (r ≡ none)) ⊎ (((length left < 2) ⊎ (4 ≤ length left)) × (r ≢ none))
parse_old_softkeymaster_blob-IsShort t1 t2 t3 t4 a b c d key left h long =
    rw (parse_old-append t1 t2 t3 t4 a b c d key left h long)
      (old_private_key-IsShort (big_endian t1 t2 t3 t4) left)

old_private_key-append :
    (type a b c d : ℕ) (key rest : List ℕ)
    → big_endian a b c d ≡ length key
    → old_private_key type (a ∷ b ∷ c ∷ d ∷ (key ++ rest)) ≡ some (success (type, key))
unfolding old_private_key read_four
old_private_key-append type a b c d key rest h =
    rw h (rw (take-append key rest) (ground (arith, length-append key rest)))

-- A blob with the magic number, a type, and the public and the private key each after its length in
-- four bytes, of the size at least that is asked for, gives its type and its private key, whatever
-- bytes follow.
pub parse_old_softkeymaster_blob-old_blob :
    (t1 t2 t3 t4 a b c d a' b' c' d' : ℕ) (public_key private_key rest : List ℕ)
    → big_endian a b c d ≡ length public_key
    → big_endian a' b' c' d' ≡ length private_key
    → 10 ≤ length public_key + length private_key + length rest
    → parse_old_softkeymaster_blob
        (old_blob t1 t2 t3 t4 a b c d public_key (a' ∷ b' ∷ c' ∷ d' ∷ (private_key ++ rest)))
      ≡ some (success (big_endian t1 t2 t3 t4, private_key))
parse_old_softkeymaster_blob-old_blob t1 t2 t3 t4 a b c d a' b' c' d' public_key private_key rest h
      h' long =
    parse_old-append t1 t2 t3 t4 a b c d public_key (a' ∷ b' ∷ c' ∷ d' ∷ (private_key ++ rest)) h
      (omega (arith, length-append private_key rest))
    ∙ old_private_key-append (big_endian t1 t2 t3 t4) a' b' c' d' private_key rest h'
