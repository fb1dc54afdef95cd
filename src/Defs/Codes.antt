-- ===== src/Defs/Codes.antt =====
-- The error codes that the source names, without their prefix KM_ERROR_. The enumeration stands in
-- hardware/keymaster_defs.h, outside the repository; `other` is any further code.
use platform_system_keymaste.Common.{ℕ, ◌≡◌, ◌≢◌, refl, Bool, true, false}

pub data KeymasterError : Type 0 where
  ok : KeymasterError
  memory_allocation_failed invalid_key_blob unknown_error output_parameter_null : KeymasterError
  unexpected_null_pointer invalid_argument unsupported_key_size : KeymasterError
  verification_failed invalid_input_length unsupported_digest : KeymasterError
  unsupported_purpose unsupported_algorithm key_rate_limit_exceeded : KeymasterError
  keymaster_not_configured unimplemented key_user_not_authenticated : KeymasterError
  key_requires_upgrade incompatible_digest import_parameter_mismatch : KeymasterError
  unsupported_padding_mode unsupported_key_format too_many_operations : KeymasterError
  unsupported_min_mac_length invalid_mac_length incompatible_padding_mode : KeymasterError
  invalid_operation_handle incompatible_purpose unsupported_mac_length : KeymasterError
  key_max_ops_exceeded key_expired caller_nonce_prohibited : KeymasterError
  unsupported_block_mode invalid_tag invalid_nonce incompatible_algorithm : KeymasterError
  unsupported_kdf unsupported_ec_curve missing_min_mac_length missing_mac_length : KeymasterError
  key_not_yet_valid incompatible_block_mode cannot_attest_ids unsupported_tag : KeymasterError
  unsupported_ec_field attestation_challenge_missing : KeymasterError
  attestation_application_id_missing : KeymasterError
  other : ℕ → KeymasterError

-- `error == KM_ERROR_OK`
unfoldable pub is_ok : KeymasterError → Bool
is_ok ok = true
is_ok _ = false

pub is_ok-eq : (e : KeymasterError) → is_ok e ≡ true → e ≡ ok
unfolding is_ok
is_ok-eq ok h = refl
is_ok-eq _ h = cc

pub is_ok-ne : (e : KeymasterError) → is_ok e ≡ false → e ≢ ok
unfolding is_ok
is_ok-ne ok h = cc
is_ok-ne _ h = λ q. cc

-- The keymaster_purpose_t enumerators that the source names, and any other number.
pub data Purpose : Type 0 where
  encrypt decrypt sign verify derive_key : Purpose
  other : ℕ → Purpose
