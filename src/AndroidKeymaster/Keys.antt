-- ===== src/AndroidKeymaster/Keys.antt =====
-- The handlers of android_keymaster.cpp for requests about keys. None of them changes the state.
use platform_system_keymaste.Common.{ℕ, List, Option, none, some}
use platform_system_keymaste.Defs.Tag.{Tag}
use platform_system_keymaste.Defs.Codes.{KeymasterError}
use platform_system_keymaste.AuthorizationSet.{AuthorizationSet, blob}
use platform_system_keymaste.AuthorizationSet.Memory.{Heap, push_back}
use platform_system_keymaste.AuthorizationSet.Query.{get_tag_value_enum, get_tag_value_blob}
use platform_system_keymaste.AndroidKeymaster.{Answer, success, failure, NewKey, Services}
use platform_system_keymaste.AndroidKeymaster.Load.{
  check_version_info, Loaded, get_key_factory, load_by, load_key,
}

module _ {B K F G : Type 0} (s : Services B K F G) where
  -- The factory of the algorithm that a description of a key names.
  unfoldable pub described_factory : AuthorizationSet → Option F
  described_factory key_description = elim (get_tag_value_enum key_description Tag.algorithm) [
    | none ↦ none
    | some algorithm ↦ s.key_factory algorithm
  ]

  unfoldable pub generate_key_request : AuthorizationSet → Answer NewKey
  unfolding described_factory
  generate_key_request key_description = elim (described_factory key_description) [
    | none ↦ failure KeymasterError.unsupported_algorithm
    | some factory ↦ s.generate_key factory key_description
  ]

  -- The arguments: the description, the format and the key's data.
  unfoldable pub import_key_request : AuthorizationSet → ℕ → List ℕ → Answer NewKey
  unfolding described_factory
  import_key_request key_description key_format key_data =
      elim (described_factory key_description) [
        | none ↦ failure KeymasterError.unsupported_algorithm
        | some factory ↦ s.import_key factory key_description key_format key_data
      ]

  -- The two sets are there with an error of the check too.
  unfoldable pub get_key_characteristics :
      List ℕ → AuthorizationSet → Answer (AuthorizationSet × AuthorizationSet × KeymasterError)
  get_key_characteristics key_blob additional_params =
      elim (s.parse_key_blob key_blob additional_params) [
        | failure error ↦ failure error
        | success p ↦ success (
          p.hw_enforced,
          p.sw_enforced,
          check_version_info s.system_patchlevel p.hw_enforced p.sw_enforced,
        )
      ]

  unfoldable pub export_loaded : ℕ → Answer (Loaded K F) → Answer (List ℕ)
  export_loaded key_format (failure error) = failure error
  export_loaded key_format (success l) = s.formatted_key_material l.key key_format

  -- Other than `LoadKey`, an export asks for no check of the versions.
  unfoldable pub export_key : List ℕ → AuthorizationSet → ℕ → Answer (List ℕ)
  unfolding get_key_factory load_by export_loaded
  export_key key_blob additional_params key_format =
      elim (s.parse_key_blob key_blob additional_params) [
        | failure error ↦ failure error
        | success p ↦
            export_loaded key_format
              (load_by s additional_params p (get_key_factory s p.hw_enforced p.sw_enforced))
      ]

  -- The set that an attestation shows as enforced by software; `none` is a write outside allocated
  -- memory.
  unfoldable pub with_application_id :
      Heap → AuthorizationSet → AuthorizationSet → Option AuthorizationSet
  with_application_id heap attest_params sw_enforced =
      elim (get_tag_value_blob attest_params Tag.attestation_application_id) [
        | none ↦ some sw_enforced
        | some bytes ↦
            elim (push_back heap
              (record { tag = Tag.attestation_application_id; value = blob bytes }) sw_enforced) [
                | none ↦ none
                | some (sw', done) ↦ some sw'
              ]
      ]

  unfoldable pub attest_loaded :
      Heap → AuthorizationSet → Answer (Loaded K F) → Option (Answer (List (List ℕ)))
  unfolding with_application_id
  attest_loaded heap attest_params (failure error) = some (failure error)
  attest_loaded heap attest_params (success l) =
      elim (with_application_id heap attest_params l.sw_enforced) [
        | none ↦ none
        | some sw' ↦ some (s.generate_attestation l.key attest_params l.hw_enforced sw')
      ]

  unfoldable pub attest_key : Heap → List ℕ → AuthorizationSet → Option (Answer (List (List ℕ)))
  unfolding attest_loaded
  attest_key heap key_blob attest_params =
      attest_loaded heap attest_params (load_key s key_blob attest_params)

  unfoldable pub upgrade_key : List ℕ → AuthorizationSet → Answer (List ℕ)
  upgrade_key key_blob upgrade_params = s.upgrade_key_blob key_blob upgrade_params

  unfoldable pub delete_key_request : List ℕ → KeymasterError
  delete_key_request key_blob = s.delete_key key_blob
