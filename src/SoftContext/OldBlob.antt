-- ===== src/SoftContext/OldBlob.antt =====
-- The blobs of the old software keymaster, of soft_keymaster_context.cpp: ParseOldSoftkeymasterBlob
-- until it decodes the key.
pub mod Bounds
mod Examples
use platform_system_keymaste.Common.{
  ℕ, ◌+◌, ◌*◌, ◌%◌, ◌^◌, List, [], ◌∷◌, Option, none, some, not, ltb, length, take, drop,
  if◌then◌else◌,
}
use platform_system_keymaste.Defs.Codes.{KeymasterError}
use platform_system_keymaste.AndroidKeymaster.{Answer, success, failure}
use platform_system_keymaste.KeyBlob.{same_bytes}

abbrev pub soft_key_magic : List ℕ
soft_key_magic = 80 ∷ 75 ∷ 35 ∷ 56 ∷ []

-- Where a `long` has eight bytes.
abbrev pub min_size : ℕ
min_size = 26

-- Four rounds of `n = (n << 8) | *p++`.
abbrev pub big_endian : ℕ → ℕ → ℕ → ℕ → ℕ
big_endian a b c d = ((a * 256 + b) * 256 + c) * 256 + d

-- The four bytes at `p`, as a number, and the bytes after them; `none` is a read past the end.
unfoldable pub read_four : List ℕ → Option (ℕ × List ℕ)
read_four [] = none
read_four (a ∷ []) = none
read_four (a ∷ b ∷ []) = none
read_four (a ∷ b ∷ c ∷ []) = none
read_four (a ∷ b ∷ c ∷ d ∷ p) = some (big_endian a b c d, p)

-- The type and the bytes of the private key, at `p` after the public key.
unfoldable pub old_private_key : ℕ → List ℕ → Option (Answer (ℕ × List ℕ))
unfolding read_four
old_private_key type p =
    if ltb (length p) 2
    then some (failure KeymasterError.invalid_key_blob)
    else elim (read_four p) [
      | none ↦ none
      | some (private_len, key) ↦
          if ltb (length key) private_len
          then some (failure KeymasterError.invalid_key_blob)
          else some (success (type, take private_len key))
    ]

-- The same, at `p` after the type.
unfoldable pub old_public_key : ℕ → List ℕ → Option (Answer (ℕ × List ℕ))
unfolding read_four old_private_key
old_public_key type p = elim (read_four p) [
  | none ↦ none
  | some (public_len, key) ↦
      if ltb (length key) public_len
      then some (failure KeymasterError.invalid_key_blob)
      else old_private_key type (drop public_len key)
]

-- `ParseOldSoftkeymasterBlob` before `d2i_PrivateKey`: the type, as the 32 bits of the `int`, and the
-- bytes of the private key.
unfoldable pub parse_old_softkeymaster_blob : List ℕ → Option (Answer (ℕ × List ℕ))
unfolding read_four old_public_key same_bytes
parse_old_softkeymaster_blob blob =
    if ltb (length blob) min_size
    then some (failure KeymasterError.invalid_key_blob)
    else if not (same_bytes (take 4 blob) soft_key_magic)
    then some (failure KeymasterError.invalid_key_blob)
    else elim (read_four (drop 4 blob)) [ none ↦ none | some (type, p) ↦ old_public_key type p ]
