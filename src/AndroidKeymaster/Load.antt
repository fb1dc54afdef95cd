-- ===== src/AndroidKeymaster/Load.antt =====
-- `CheckVersionInfo`, `GetKeyFactory` and `LoadKey` of android_keymaster.cpp.
use platform_system_keymaste.Common.{ℕ, List, Option, none, some, ltb, if◌then◌else◌}
use platform_system_keymaste.Defs.Tag.{Tag}
use platform_system_keymaste.Defs.Codes.{KeymasterError, is_ok}
use platform_system_keymaste.AuthorizationSet.{AuthorizationSet}
use platform_system_keymaste.AuthorizationSet.Query.{get_tag_value_enum, get_tag_value_int}
use platform_system_keymaste.AndroidKeymaster.{Answer, success, failure, Parsed, Services}

-- The value in the first set, or else in the second.
abbrev pub in_either : Option ℕ → Option ℕ → Option ℕ
in_either (some n) o = some n
in_either none o = o

unfoldable pub check_version_info : ℕ → AuthorizationSet → AuthorizationSet → KeymasterError
check_version_info os_patchlevel tee_enforced sw_enforced =
    elim (in_either (get_tag_value_int tee_enforced Tag.os_patchlevel)
      (get_tag_value_int sw_enforced Tag.os_patchlevel)) [
        | none ↦ KeymasterError.ok
        | some key_os_patchlevel ↦
            if ltb key_os_patchlevel os_patchlevel
            then KeymasterError.key_requires_upgrade
            else if ltb os_patchlevel key_os_patchlevel
            then KeymasterError.invalid_key_blob
            else KeymasterError.ok
      ]

-- What `LoadKey` leaves behind its pointers.
pub record Loaded (K F : Type 0) : Type 0 where
  pub hw_enforced : AuthorizationSet
  pub sw_enforced : AuthorizationSet
  pub factory : F
  pub key : K

module _ {B K F G : Type 0} (s : Services B K F G) where
  unfoldable pub get_key_factory : AuthorizationSet → AuthorizationSet → Answer F
  get_key_factory hw_enforced sw_enforced =
      elim (in_either (get_tag_value_enum hw_enforced Tag.algorithm)
        (get_tag_value_enum sw_enforced Tag.algorithm)) [
          | none ↦ failure KeymasterError.unsupported_algorithm
          | some algorithm ↦ elim (s.key_factory algorithm) [
            | none ↦ failure KeymasterError.unsupported_algorithm
            | some factory ↦ success factory
          ]
        ]

  unfoldable pub load_by : AuthorizationSet → Parsed → Answer F → Answer (Loaded K F)
  load_by additional_params p (failure error) = failure error
  load_by additional_params p (success factory) =
      elim (s.load_key factory p.key_material additional_params p.hw_enforced p.sw_enforced) [
        | failure error ↦ failure error
        | success key ↦ success (record {
          hw_enforced = p.hw_enforced;
          sw_enforced = p.sw_enforced;
          factory = factory;
          key = key;
        })
      ]

  unfoldable pub load_parsed : AuthorizationSet → Parsed → Answer (Loaded K F)
  unfolding get_key_factory load_by
  load_parsed additional_params p =
      let error = check_version_info s.system_patchlevel p.hw_enforced p.sw_enforced in
      if is_ok error
      then load_by additional_params p (get_key_factory p.hw_enforced p.sw_enforced)
      else failure error

  unfoldable pub load_key : List ℕ → AuthorizationSet → Answer (Loaded K F)
  unfolding load_parsed
  load_key key_blob additional_params = elim (s.parse_key_blob key_blob additional_params) [
    | failure error ↦ failure error
    | success p ↦ load_parsed additional_params p
  ]
