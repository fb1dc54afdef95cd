-- ===== src/SoftContext/OldBlob/Examples.antt =====
-- A blob of the old software keymaster that is read past its end.
use platform_system_keymaste.Common.{
  ℕ, ◌<◌, ◌≤◌, ◌≡◌, ◌≢◌, ◌⊎◌, refl, List, [], ◌∷◌, none, some, length, arith,
}
use platform_system_keymaste.AndroidKeymaster.{success}
use platform_system_keymaste.SoftContext.OldBlob.{parse_old_softkeymaster_blob}
use platform_system_keymaste.SoftContext.OldBlob.Bounds.{
  old_blob, IsShort, parse_old_softkeymaster_blob-IsShort, parse_old_softkeymaster_blob-old_blob,
}

abbrev public_key : List ℕ
public_key = 1 ∷ 2 ∷ 3 ∷ 4 ∷ 5 ∷ 6 ∷ 7 ∷ 8 ∷ 9 ∷ 10 ∷ 11 ∷ 12 ∷ []

abbrev two_left : List ℕ
two_left = 0 ∷ 0 ∷ []

abbrev short_blob : List ℕ
short_blob = old_blob 0 0 0 6 0 0 0 12 public_key two_left

parse_old_softkeymaster_blob-IsShort_example :
    (IsShort two_left × (parse_old_softkeymaster_blob short_blob ≡ none))
    ⊎ (((length two_left < 2) ⊎ (4 ≤ length two_left))
        × (parse_old_softkeymaster_blob short_blob ≢ none))
parse_old_softkeymaster_blob-IsShort_example =
    parse_old_softkeymaster_blob-IsShort 0 0 0 6 0 0 0 12 public_key two_left refl (omega arith)

parse_old_softkeymaster_blob-old_blob_example :
    parse_old_softkeymaster_blob (old_blob 0 0 0 6 0 0 0 12 public_key (0 ∷ 0 ∷ 0 ∷ 2 ∷ 0 ∷ 0 ∷ []))
    ≡ some (success (6, two_left))
parse_old_softkeymaster_blob-old_blob_example =
    parse_old_softkeymaster_blob-old_blob 0 0 0 6 0 0 0 12 0 0 0 2 public_key two_left [] refl refl
      (omega arith)
