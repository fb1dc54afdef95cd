-- ===== src/Messages/GetVersionResponse.antt =====
-- What GetVersionResponse of android_keymaster_messages.cpp holds besides the error, and the message
-- version that the client computes of it (android_keymaster_messages.h), an int32_t that may be -1.
use platform_system_keymaste.Common.{
  ℕ, ◌+◌, ◌≡◌, refl, List, [], ◌∷◌, ◌++◌, Option, none, some, arith, ltb, leb, ◌==◌, to_uint64,
  if◌then◌else◌,
}
use platform_system_keymaste.Wire.{Out, In}
use platform_system_keymaste.Wire.Carries.{Carries}
use platform_system_keymaste.Wire.Advances.{Advances}

pub record GetVersionResponse : Type 0 where
  pub major_ver : ℕ
  pub minor_ver : ℕ
  pub subminor_ver : ℕ

unfoldable pub message_version : GetVersionResponse → Option ℕ
message_version m =
    if m.major_ver == 0
    then some 0
    else if m.major_ver == 1
    then (if m.minor_ver == 0 then some 1 else if m.minor_ver == 1 then some 2 else none)
    else if m.major_ver == 2
    then some 3
    else none

unfoldable pub serialized_size : GetVersionResponse → ℕ
serialized_size m = 3

abbrev version_bytes : GetVersionResponse → List ℕ
version_bytes m = m.major_ver ∷ m.minor_ver ∷ m.subminor_ver ∷ []

-- The pointer moves even where the bytes have no room.
unfoldable pub serialize : GetVersionResponse → Out → Out
unfolding serialized_size
serialize m o =
    if leb (to_uint64 (o.ptr + serialized_size m)) o.end
    then record o { written = o.written ++ version_bytes m; ptr = o.ptr + 3 }
    else record o { ptr = o.ptr + serialized_size m }

-- The first three bytes; the input has them where its end says so.
abbrev first_three : In → Option (GetVersionResponse × In)
first_three i = elim i.bytes [
  | x ∷ y ∷ z ∷ rest ↦ some (
    record { major_ver = x; minor_ver = y; subminor_ver = z },
    record i { bytes = rest; ptr = i.ptr + 3 },
  )
  | _ ↦ none
]

unfoldable pub deserialize : In → Option (GetVersionResponse × In)
deserialize i = if ltb i.end (to_uint64 (i.ptr + 3)) then none else first_three i

abbrev pub Same : GetVersionResponse → GetVersionResponse → Type 0
Same m w = w ≡ m

pub serialize-Carries :
    (m : GetVersionResponse) → Carries (serialized_size m) (serialize m) deserialize (Same m)
unfolding serialized_size serialize deserialize
serialize-Carries m = record {
  bytes = version_bytes m;
  length_eq = refl;
  writes = λ o room. ground arith;
  yields = λ rest ptr end room low. (m, ground arith, refl);
}

pub deserialize-Advances : Advances deserialize
unfolding deserialize
deserialize-Advances = record { moved = λ i a j h e. ground (arith, h) }
