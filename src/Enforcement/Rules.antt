-- ===== src/Enforcement/Rules.antt =====
-- The tests of `AuthorizeBegin` of keymaster_enforcement.cpp, one for each kind of parameter, and the
-- purposes that a key is for.
use platform_system_keymaste.Common.{
  ℕ, suc, ◌+◌, ◌≡◌, refl, ◌⊎◌, inl, inr, Bool, true, false, List, [], ◌∷◌, Option, none, some, leb,
  ltb, if◌then◌else◌, uint32_max,
}
use platform_system_keymaste.Defs.Tag.{Tag}
use platform_system_keymaste.Defs.Codes.{KeymasterError, Purpose}
use platform_system_keymaste.AuthorizationSet.{Elem, AuthorizationSet}
use platform_system_keymaste.AuthorizationSet.Query.{contains_enum_value}
use platform_system_keymaste.Enforcement.{Platform, Context}
use platform_system_keymaste.Enforcement.AccessTime.{AccessTimeMap, last_key_access_time}
use platform_system_keymaste.Enforcement.AccessCount.{AccessCountMap, key_access_count}

-- The two tables, each with a null pointer if it could not be allocated.
pub record Enforcement : Type 0 where
  pub access_time_map : Option AccessTimeMap
  pub access_count_map : Option AccessCountMap

-- What the switch over a parameter's tag does: the groups of its labels. The last is for tags with
-- nothing to enforce, PADDING_OLD and DIGEST_OLD among them, and for numbers that are no label.
pub data Rule : Type 0 where
  activation origination_expiry usage_expiry min_seconds max_uses secure_id : Rule
  nonce_allowed forbidden unchecked : Rule

unfoldable pub rule_of : Tag → Rule
rule_of Tag.active_datetime = activation
rule_of Tag.origination_expire_datetime = origination_expiry
rule_of Tag.usage_expire_datetime = usage_expiry
rule_of Tag.min_seconds_between_ops = min_seconds
rule_of Tag.max_uses_per_boot = max_uses
rule_of Tag.user_secure_id = secure_id
rule_of Tag.caller_nonce = nonce_allowed
rule_of Tag.invalid = forbidden
rule_of Tag.auth_token = forbidden
rule_of Tag.root_of_trust = forbidden
rule_of Tag.application_data = forbidden
rule_of Tag.attestation_challenge = forbidden
rule_of Tag.attestation_application_id = forbidden
rule_of Tag.attestation_id_brand = forbidden
rule_of Tag.attestation_id_device = forbidden
rule_of Tag.attestation_id_product = forbidden
rule_of Tag.attestation_id_serial = forbidden
rule_of Tag.attestation_id_imei = forbidden
rule_of Tag.attestation_id_meid = forbidden
rule_of Tag.attestation_id_manufacturer = forbidden
rule_of Tag.attestation_id_model = forbidden
rule_of Tag.bootloader_only = forbidden
rule_of _ = unchecked

-- The indices of the last entries with these tags, or -1.
pub record Indices : Type 0 where
  pub auth_timeout_index : Option ℕ
  pub auth_type_index : Option ℕ
  pub no_auth_required_index : Option ℕ

unfoldable pub note_index : Tag → ℕ → Indices → Indices
note_index Tag.auth_timeout pos i = record i { auth_timeout_index = some pos }
note_index Tag.user_auth_type pos i = record i { auth_type_index = some pos }
note_index Tag.no_auth_required pos i = record i { no_auth_required_index = some pos }
note_index _ pos i = i

unfoldable pub find_indices : List Elem → ℕ → Indices → Indices
unfolding note_index
find_indices [] pos i = i
find_indices (e ∷ es) pos i = find_indices es (suc pos) (note_index e.tag pos i)

abbrev pub no_indices : Indices
no_indices = record {
  auth_timeout_index = none;
  auth_type_index = none;
  no_auth_required_index = none;
}

-- The local variables that the loop over the parameters sets.
pub record Checks : Type 0 where
  pub min_ops_timeout : ℕ
  pub update_access_count : Bool
  pub caller_nonce_authorized_by_key : Bool
  pub authentication_required : Bool
  pub auth_token_matched : Bool

abbrev pub initial_checks : Checks
initial_checks = record {
  min_ops_timeout = uint32_max;
  update_access_count = false;
  caller_nonce_authorized_by_key = false;
  authentication_required = false;
  auth_token_matched = false;
}

-- The loop goes on, or the function returns an error.
pub data Outcome (A : Type 0) : Type 0 where
  proceed : A → Outcome A
  refuse : KeymasterError → Outcome A

pub Outcome-cases :
    {A : Type 0} (o : Outcome A)
    → ((e : KeymasterError) × (o ≡ refuse e)) ⊎ ((a : A) × (o ≡ proceed a))
Outcome-cases (proceed a) = inr (a, refl)
Outcome-cases (refuse e) = inl (e, refl)

abbrev pub require : {A : Type 0} → Bool → KeymasterError → A → Outcome A
require true e a = proceed a
require false e a = refuse e

unfoldable pub is_origination_purpose : Purpose → Bool
is_origination_purpose Purpose.encrypt = true
is_origination_purpose Purpose.sign = true
is_origination_purpose _ = false

unfoldable pub is_usage_purpose : Purpose → Bool
is_usage_purpose Purpose.decrypt = true
is_usage_purpose Purpose.verify = true
is_usage_purpose _ = false

unfoldable pub min_time_between_ops_passed : Context → Option AccessTimeMap → ℕ → ℕ → Bool
min_time_between_ops_passed context none min_time keyid = false
min_time_between_ops_passed context (some m) min_time keyid = elim (last_key_access_time m keyid) [
  | none ↦ true
  | some last ↦ leb (min_time + last) context.check_time
]

unfoldable pub max_uses_per_boot_not_exceeded : Option AccessCountMap → ℕ → ℕ → Bool
max_uses_per_boot_not_exceeded none keyid maximum = false
max_uses_per_boot_not_exceeded (some m) keyid maximum = elim (key_access_count m keyid) [
  | none ↦ true
  | some count ↦ ltb count maximum
]

module _ (d : Platform) where
  unfoldable pub contains_purpose : Purpose → AuthorizationSet → KeymasterError
  contains_purpose purpose auth_set =
      if contains_enum_value auth_set Tag.purpose (d.purpose_code purpose)
      then KeymasterError.ok
      else KeymasterError.incompatible_purpose

  unfoldable pub authorized_purpose : Purpose → AuthorizationSet → KeymasterError
  unfolding contains_purpose
  authorized_purpose Purpose.verify auth_set = contains_purpose Purpose.verify auth_set
  authorized_purpose Purpose.encrypt auth_set = contains_purpose Purpose.encrypt auth_set
  authorized_purpose Purpose.sign auth_set = contains_purpose Purpose.sign auth_set
  authorized_purpose Purpose.decrypt auth_set = contains_purpose Purpose.decrypt auth_set
  authorized_purpose Purpose.derive_key auth_set = KeymasterError.unsupported_purpose
  authorized_purpose (Purpose.other n) auth_set = KeymasterError.unsupported_purpose
