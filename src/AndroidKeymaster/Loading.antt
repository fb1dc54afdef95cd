-- ===== src/AndroidKeymaster/Loading.antt =====
-- Which keys `LoadKey` of android_keymaster.cpp lets pass.
use platform_system_keymaste.Common.{
  ℕ, ◌≡◌, ◌⊎◌, inl, inr, List, Option, none, some, arith, Bool-cases, Option-cases,
}
use platform_system_keymaste.Defs.Tag.{Tag}
use platform_system_keymaste.Defs.Codes.{KeymasterError, is_ok, is_ok-eq}
use platform_system_keymaste.AuthorizationSet.{AuthorizationSet}
use platform_system_keymaste.AuthorizationSet.Query.{get_tag_value_int}
use platform_system_keymaste.AndroidKeymaster.{Answer, success, failure, Parsed, Services}
use platform_system_keymaste.AndroidKeymaster.Load.{
  in_either, check_version_info, Loaded, get_key_factory, load_by, load_parsed, load_key,
}
use platform_system_keymaste.AndroidKeymaster.Beginning.{Answer-cases}

-- The patch level that a key has, by its two sets.
abbrev pub patchlevel_of : AuthorizationSet → AuthorizationSet → Option ℕ
patchlevel_of tee sw =
    in_either (get_tag_value_int tee Tag.os_patchlevel) (get_tag_value_int sw Tag.os_patchlevel)

check_version_info_ok :
    (level : ℕ) (tee sw : AuthorizationSet)
    → check_version_info level tee sw ≡ KeymasterError.ok
    → (patchlevel_of tee sw ≡ none) ⊎ (patchlevel_of tee sw ≡ some level)
unfolding check_version_info
check_version_info_ok level tee sw h = elim (Option-cases (patchlevel_of tee sw)) [
  | inl q ↦ inl q
  | inr (n, q) ↦ let eq : n ≡ level = ground arith in inr (rw (← eq) q)
]

module _ {B K F G : Type 0} (s : Services B K F G) where
  load_by_lem :
      (params : AuthorizationSet) (p : Parsed) (o : Answer F) (l : Loaded K F)
      → load_by s params p o ≡ success l
      → (l.hw_enforced ≡ p.hw_enforced) × (l.sw_enforced ≡ p.sw_enforced)
  unfolding load_by
  load_by_lem params p (failure e) l h = absurd (ground arith)
  load_by_lem params p (success f) l h =
      elim (Answer-cases (s.load_key f p.key_material params p.hw_enforced p.sw_enforced)) [
        | inl (e, q) ↦ absurd (ground arith)
        | inr (key, q) ↦ (ground arith, ground arith)
      ]

  load_parsed_lem :
      (params : AuthorizationSet) (p : Parsed) (l : Loaded K F)
      → load_parsed s params p ≡ success l
      → (check_version_info s.system_patchlevel l.hw_enforced l.sw_enforced ≡ KeymasterError.ok)
  unfolding load_parsed
  load_parsed_lem params p l h =
      let error = check_version_info s.system_patchlevel p.hw_enforced p.sw_enforced in
      elim (Bool-cases (is_ok error)) [
        | inl good ↦
            let (a, b) =
              load_by_lem params p (get_key_factory s p.hw_enforced p.sw_enforced) l
                (ground arith) in
            rw (a, b) (is_ok-eq error good)
        | inr bad ↦ absurd (ground arith)
      ]

  -- A key that LoadKey loads, for an operation or an attestation, has no patch level, or that of the
  -- system: it is neither older nor newer.
  pub load_key-patchlevel :
      (key_blob : List ℕ) (params : AuthorizationSet) (l : Loaded K F)
      → load_key s key_blob params ≡ success l
      → (patchlevel_of l.hw_enforced l.sw_enforced ≡ none)
        ⊎ (patchlevel_of l.hw_enforced l.sw_enforced ≡ some s.system_patchlevel)
  unfolding load_key
  load_key-patchlevel key_blob params l h = elim (Answer-cases (s.parse_key_blob key_blob params)) [
    | inl (e, q) ↦ absurd (ground arith)
    | inr (p, q) ↦
        check_version_info_ok s.system_patchlevel l.hw_enforced l.sw_enforced
          (load_parsed_lem params p l (ground arith))
  ]
