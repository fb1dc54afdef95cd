-- ===== src/SoftContext.antt =====
-- The upgrade of a key's version data by soft_keymaster_context.cpp.
pub mod Versions
pub mod Upgrade
pub mod OldBlob
mod Examples
use platform_system_keymaste.Common.{
  ℕ, zero, suc, Bool, true, false, not, ◌&&◌, List, [], ◌∷◌, Option, none, some, ltb, ◌==◌,
  get_elem?, if◌then◌else◌,
}
use platform_system_keymaste.Defs.Tag.{Tag}
use platform_system_keymaste.Defs.Codes.{KeymasterError, is_ok}
use platform_system_keymaste.Defs.Codes
use platform_system_keymaste.AuthorizationSet.{
  Error, integer, blob, integer_of, Elem, Param, AuthorizationSet, empty_set, allocation_failure,
  malformed_data,
}
use platform_system_keymaste.AuthorizationSet
use platform_system_keymaste.AuthorizationSet.Memory.{Heap, push_back}
use platform_system_keymaste.AuthorizationSet.Query.{
  find, contains, at_index, or_empty, get_tag_value_blob,
}
use platform_system_keymaste.AndroidKeymaster.{Answer, success, failure, Parsed}
use platform_system_keymaste.KeyBlob.{Vault, serialize_blob}
use platform_system_keymaste.Wire.{◌>>=◌}

-- `elems_[index].integer = value`
unfoldable pub set_integer : ℕ → ℕ → List Elem → List Elem
set_integer i value [] = []
set_integer zero value (e ∷ es) = record e { value = integer value } ∷ es
set_integer (suc i) value (e ∷ es) = e ∷ set_integer i value es

-- What `UpgradeIntegerTag` leaves in its two arguments, and its result.
pub record Upgraded : Type 0 where
  pub set : AuthorizationSet
  pub set_changed : Bool
  pub allowed : Bool

-- `none` is a write outside allocated memory. The result of `push_back` is not looked at.
unfoldable pub upgrade_integer_tag : Heap → Tag → ℕ → AuthorizationSet → Bool → Option Upgraded
unfolding set_integer
upgrade_integer_tag heap tag value s changed = elim (find s tag none) [
  | none ↦ elim (push_back heap (record { tag = tag; value = integer value }) s) [
    | none ↦ none
    | some (s', done) ↦ some (record { set = s'; set_changed = true; allowed = true })
  ]
  | some index ↦
      let old = integer_of (or_empty (get_elem? s.elems index)).value in
      if ltb value old
      then some (record { set = s; set_changed = changed; allowed = false })
      else if not (old == value)
      then some (record {
        set = record s { elems = set_integer index value s.elems };
        set_changed = true;
        allowed = true;
      })
      else some (record { set = s; set_changed = changed; allowed = true })
]

-- `TranslateAuthorizationSetError`
unfoldable pub translate_error : Error → KeymasterError
translate_error AuthorizationSet.ok = KeymasterError.ok
translate_error allocation_failure = KeymasterError.memory_allocation_failed
translate_error malformed_data = KeymasterError.unknown_error

-- The fields of SoftKeymasterContext that the upgrade reads. `parse_key_blob` is its `ParseKeyBlob`,
-- which is not modelled, and `has_km1_device` whether `km1_dev_` is no null pointer.
pub record SoftContext : Type 0 where
  pub vault : Vault
  pub root_of_trust : List ℕ
  pub os_version : ℕ
  pub os_patchlevel : ℕ
  pub has_km1_device : Bool
  pub parse_key_blob : List ℕ → AuthorizationSet → Answer Parsed

module _ (x : SoftContext) where
  open x use {vault, root_of_trust, os_version, os_patchlevel, has_km1_device, parse_key_blob}

  unfoldable pub push_blob : Tag → List ℕ → AuthorizationSet → Option AuthorizationSet
  push_blob tag bytes s = elim (push_back vault.heap (record { tag = tag; value = blob bytes }) s) [
    | none ↦ none
    | some (s', done) ↦ some s'
  ]

  unfoldable pub push_present : Tag → AuthorizationSet → AuthorizationSet → Option AuthorizationSet
  unfolding push_blob
  push_present tag input s = elim (get_tag_value_blob input tag) [
    | none ↦ some s
    | some bytes ↦ push_blob tag bytes s
  ]

  -- `BuildHiddenAuthorizations`, of a new set.
  unfoldable pub build_hidden_authorizations : AuthorizationSet → Option (Answer AuthorizationSet)
  unfolding push_present push_blob translate_error
  build_hidden_authorizations input = do
    s1 ← push_present Tag.application_id input empty_set
    s2 ← push_present Tag.application_data input s1
    s3 ← push_blob Tag.root_of_trust root_of_trust s2
    some (
        if is_ok (translate_error s3.error) then success s3 else failure (translate_error s3.error))

  -- The version may fall to zero.
  unfoldable pub zero_os_version : AuthorizationSet → AuthorizationSet × Bool
  unfolding set_integer
  zero_os_version s =
      if os_version == 0
      then elim (find s Tag.os_version none) [
        | none ↦ (s, false)
        | some pos ↦
            if not (integer_of (at_index s pos).value == 0)
            then (record s { elems = set_integer pos os_version s.elems }, true)
            else (s, false)
      ]
      else (s, false)

  unfoldable pub store_upgraded :
      Parsed → AuthorizationSet → AuthorizationSet → Option (Answer (Option (List ℕ)))
  unfolding build_hidden_authorizations
  store_upgraded p params sw = elim (build_hidden_authorizations params) [
    | none ↦ none
    | some (failure e) ↦ some (failure e)
    | some (success hidden) ↦ elim (serialize_blob vault p.key_material hidden p.hw_enforced sw) [
      | failure e ↦ some (failure e)
      | success bytes ↦ some (success (some bytes))
    ]
  ]

  unfoldable pub patchlevel_upgraded :
      Parsed → AuthorizationSet → Option Upgraded → Option (Answer (Option (List ℕ)))
  unfolding store_upgraded
  patchlevel_upgraded p params none = none
  patchlevel_upgraded p params (some u) =
      if not u.allowed
      then some (failure KeymasterError.invalid_argument)
      else if not u.set_changed
      then some (success none)
      else store_upgraded p params u.set

  unfoldable pub version_upgraded :
      Parsed → AuthorizationSet → Option Upgraded → Option (Answer (Option (List ℕ)))
  unfolding patchlevel_upgraded upgrade_integer_tag
  version_upgraded p params none = none
  version_upgraded p params (some u) =
      if not u.allowed
      then some (failure KeymasterError.invalid_argument)
      else patchlevel_upgraded p params
          (upgrade_integer_tag vault.heap Tag.os_patchlevel os_patchlevel u.set u.set_changed)

  unfoldable pub upgrade_parsed : Parsed → AuthorizationSet → Option (Answer (Option (List ℕ)))
  unfolding version_upgraded zero_os_version upgrade_integer_tag
  upgrade_parsed p params =
      let (sw, changed) = zero_os_version p.sw_enforced in
      if has_km1_device
        && contains p.hw_enforced Tag.purpose
        && not (contains p.hw_enforced Tag.os_patchlevel)
      then some (failure KeymasterError.invalid_argument)
      else version_upgraded p params
          (upgrade_integer_tag vault.heap Tag.os_version os_version sw changed)

  -- `UpgradeKeyBlob`: the new blob, or none where none is needed.
  unfoldable pub upgrade_key_blob : List ℕ → AuthorizationSet → Option (Answer (Option (List ℕ)))
  unfolding upgrade_parsed
  upgrade_key_blob key_to_upgrade params = elim (parse_key_blob key_to_upgrade params) [
    | failure e ↦ some (failure e)
    | success p ↦ upgrade_parsed p params
  ]
