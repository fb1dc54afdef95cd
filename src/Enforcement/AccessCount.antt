-- ===== src/Enforcement/AccessCount.antt =====
-- The class AccessCountMap of keymaster_enforcement.cpp: how often a key was used since boot.
use platform_system_keymaste.Common.{
  ℕ, ◌+◌, ◌<◌, ◌≡◌, refl, Bool, true, false, List, [], ◌∷◌, Option, none, some, arith, length, leb,
  ltb, ◌==◌, ◌&&◌, if◌then◌else◌, to_uint32, uint64_max,
}

pub record AccessCount : Type 0 where
  pub keyid : ℕ
  pub access_count : ℕ

pub record AccessCountMap : Type 0 where
  pub access_count_list : List AccessCount
  pub max_size : ℕ

unfoldable pub count_of : ℕ → List AccessCount → Option ℕ
count_of keyid [] = none
count_of keyid (e ∷ es) = if e.keyid == keyid then some e.access_count else count_of keyid es

-- The count is stored as uint64_t and returned as uint32_t.
unfoldable pub key_access_count : AccessCountMap → ℕ → Option ℕ
key_access_count m keyid = elim (count_of keyid m.access_count_list) [
  | none ↦ none
  | some n ↦ some (to_uint32 n)
]

-- The loop of `IncrementKeyAccessCount`; the flag is whether the key has an entry.
unfoldable pub bump : ℕ → List AccessCount → List AccessCount × Bool
bump keyid [] = ([], false)
bump keyid (e ∷ es) =
    let (rest, found) = bump keyid es in
    if e.keyid == keyid
    then (
      record e {
        access_count = if ltb e.access_count uint64_max then e.access_count + 1 else e.access_count;
      }
          ∷ es,
      true,
    )
    else (e ∷ rest, found)

unfoldable pub add_count_entry : AccessCount → ℕ → List AccessCount × Bool → List AccessCount × Bool
add_count_entry new_entry max_size (list, true) = (list, true)
add_count_entry new_entry max_size (list, false) =
    if leb max_size (length list) then (list, false) else (new_entry ∷ list, true)

unfoldable pub increment_key_access_count : AccessCountMap → ℕ → AccessCountMap × Bool
increment_key_access_count m keyid =
    let new_entry : AccessCount = record { keyid = keyid; access_count = 1 } in
    let (list, done) = add_count_entry new_entry m.max_size (bump keyid m.access_count_list) in
    (record m { access_count_list = list }, done)

-- The uses that are on record for a key.
unfoldable pub uses : ℕ → List AccessCount → ℕ
uses keyid [] = 0
uses keyid (e ∷ es) = if e.keyid == keyid then e.access_count else uses keyid es

pub count_of-uses :
    (keyid : ℕ) (es : List AccessCount) (n : ℕ) → count_of keyid es ≡ some n → uses keyid es ≡ n
unfolding count_of uses
count_of-uses keyid [] n h = cc
count_of-uses keyid (e ∷ es) n h = ground (arith, count_of-uses keyid es n)

pub count_of-none :
    (keyid : ℕ) (es : List AccessCount) → count_of keyid es ≡ none → uses keyid es ≡ 0
unfolding count_of uses
count_of-none keyid [] h = refl
count_of-none keyid (e ∷ es) h = ground (arith, count_of-none keyid es)

uses-bump :
    (keyid j : ℕ) (es : List AccessCount)
    → uses j es < uint64_max
    → uses j (bump keyid es).0
      ≡ (if j == keyid && (bump keyid es).1 then uses j es + 1 else uses j es)
unfolding bump uses
uses-bump keyid j [] h = ground arith
uses-bump keyid j (e ∷ es) h = ground (arith, uses-bump keyid j es)

bump_missing : (keyid : ℕ) (es : List AccessCount) → (bump keyid es).1 ≡ false → uses keyid es ≡ 0
unfolding bump uses
bump_missing keyid [] h = refl
bump_missing keyid (e ∷ es) h = ground (arith, bump_missing keyid es)

-- An increment adds one to the uses of its key if it succeeds, and changes nothing if not; the uses
-- of other keys stay. The uses looked at are below UINT64_MAX.
pub uses-increment :
    (m : AccessCountMap) (keyid j : ℕ)
    → uses j m.access_count_list < uint64_max
    → let r = increment_key_access_count m keyid in
      uses j r.0.access_count_list
      ≡ (if j == keyid && r.1 then uses j m.access_count_list + 1 else uses j m.access_count_list)
unfolding increment_key_access_count add_count_entry uses
uses-increment m keyid j h =
    ground (arith, uses-bump keyid j m.access_count_list h, bump_missing keyid m.access_count_list)
