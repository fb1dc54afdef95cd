-- ===== src/Enforcement/Begin.antt =====
-- `AuthorizeBegin` of keymaster_enforcement.cpp: the loop over the parameters of the key, and what
-- follows it.
pub mod Rounds
pub mod Sound
pub mod Uses
pub mod Limit
use platform_system_keymaste.Common.{
  ℕ, zero, suc, ◌+◌, Bool, true, false, not, ◌&&◌, ◌||◌, List, [], ◌∷◌, Option, none, some, leb,
  ltb, ◌==◌, if◌then◌else◌, uint32_max,
}
use platform_system_keymaste.Defs.Tag.{Tag}
use platform_system_keymaste.Defs.Codes.{KeymasterError, is_ok, Purpose}
use platform_system_keymaste.AuthorizationSet.{
  Value, Elem, AuthorizationSet, integer_of, long_integer_of, date_time_of,
}
use platform_system_keymaste.AuthorizationSet.Query.{find, contains_enum_value, get_tag_value_enum}
use platform_system_keymaste.Enforcement.{Platform, Context}
use platform_system_keymaste.Enforcement.AccessTime.{
  AccessTimeMap, last_key_access_time, update_key_access_time,
}
use platform_system_keymaste.Enforcement.AccessCount.{
  AccessCountMap, key_access_count, increment_key_access_count,
}
use platform_system_keymaste.Enforcement.Token.{auth_token_matches}
use platform_system_keymaste.Enforcement.Rules.{
  Enforcement, Rule, activation, origination_expiry, usage_expiry, min_seconds, max_uses, secure_id,
  nonce_allowed, forbidden, unchecked, rule_of, Indices, find_indices, no_indices, Checks,
  initial_checks, Outcome, proceed, refuse, require, is_origination_purpose, is_usage_purpose,
  min_time_between_ops_passed, max_uses_per_boot_not_exceeded, authorized_purpose,
}

-- The fixed arguments of one call: the purpose, the key, its authorizations, the operation's
-- parameters, and the indices found first.
pub record Request : Type 0 where
  pub purpose : Purpose
  pub keyid : ℕ
  pub auth_set : AuthorizationSet
  pub operation_params : AuthorizationSet

abbrev pub indices_of : Request → Indices
indices_of r = find_indices r.auth_set.elems 0 no_indices

abbrev pub is_none : Option ℕ → Bool
is_none none = true
is_none (some i) = false

module _ (d : Platform) (context : Context) (st : Enforcement) (r : Request) where
  -- The case of USER_SECURE_ID in a key without NO_AUTH_REQUIRED.
  unfoldable pub check_secure_id : Option ℕ → ℕ → Checks → Checks
  check_secure_id none user_secure_id c = c
  check_secure_id (some timeout_index) user_secure_id c =
      let matched =
        auth_token_matches d context r.auth_set r.operation_params user_secure_id
          (indices_of r).auth_type_index (some timeout_index) 0 true in
      record c {
        authentication_required = true;
        auth_token_matched = c.auth_token_matched || matched;
      }

  unfoldable pub check_rule : Rule → Elem → Checks → Outcome Checks
  check_rule activation e c =
      require (context.activation_date_valid (date_time_of e.value))
        KeymasterError.key_not_yet_valid c
  check_rule origination_expiry e c =
      require
        (not (
          is_origination_purpose r.purpose
          && context.expiration_date_passed (date_time_of e.value)))
        KeymasterError.key_expired c
  check_rule usage_expiry e c =
      require
        (not (is_usage_purpose r.purpose && context.expiration_date_passed (date_time_of e.value)))
        KeymasterError.key_expired c
  check_rule min_seconds e c =
      require (min_time_between_ops_passed context st.access_time_map (integer_of e.value) r.keyid)
        KeymasterError.key_rate_limit_exceeded (record c { min_ops_timeout = integer_of e.value })
  check_rule max_uses e c =
      require (max_uses_per_boot_not_exceeded st.access_count_map r.keyid (integer_of e.value))
        KeymasterError.key_max_ops_exceeded (record c { update_access_count = true })
  check_rule secure_id e c =
      require (is_none (indices_of r).no_auth_required_index) KeymasterError.invalid_key_blob
        (check_secure_id (indices_of r).auth_timeout_index (long_integer_of e.value) c)
  check_rule nonce_allowed e c = proceed (record c { caller_nonce_authorized_by_key = true })
  check_rule forbidden e c = refuse KeymasterError.invalid_key_blob
  check_rule unchecked e c = proceed c

  -- The loop over the key's parameters.
  unfoldable pub check_all : List Elem → Checks → Outcome Checks
  check_all [] c = proceed c
  check_all (e ∷ es) c = elim (check_rule (rule_of e.tag) e c) [
    | refuse error ↦ refuse error
    | proceed c' ↦ check_all es c'
  ]

  unfoldable pub enter_access_time : ℕ → Option AccessTimeMap → Enforcement × KeymasterError
  enter_access_time min_ops_timeout none = (st, KeymasterError.memory_allocation_failed)
  enter_access_time min_ops_timeout (some m) =
      let (m', done) = update_key_access_time m r.keyid context.update_time min_ops_timeout in
      (
        record st { access_time_map = some m' },
        if done then KeymasterError.ok else KeymasterError.too_many_operations,
      )

  unfoldable pub enter_access_count :
      Enforcement → Option AccessCountMap → Enforcement × KeymasterError
  enter_access_count st' none = (st', KeymasterError.memory_allocation_failed)
  enter_access_count st' (some m) =
      let (m', done) = increment_key_access_count m r.keyid in
      (
        record st' { access_count_map = some m' },
        if done then KeymasterError.ok else KeymasterError.too_many_operations,
      )

  unfoldable pub enter_time : Checks → Enforcement × KeymasterError
  enter_time c =
      if c.min_ops_timeout == uint32_max
      then (st, KeymasterError.ok)
      else enter_access_time c.min_ops_timeout st.access_time_map

  unfoldable pub enter_count : Checks → Enforcement → Enforcement × KeymasterError
  enter_count c st' =
      if c.update_access_count
      then enter_access_count st' st'.access_count_map
      else (st', KeymasterError.ok)

  -- The use is entered in the table of the times, and if that succeeds in that of the counts.
  unfoldable pub enter_use : Checks → Enforcement × KeymasterError
  enter_use c =
      let (st', error) = enter_time c in if is_ok error then enter_count c st' else (st', error)

  -- What follows the loop.
  unfoldable pub conclude : Checks → Enforcement × KeymasterError
  conclude c =
      if c.authentication_required && not c.auth_token_matched
      then (st, KeymasterError.key_user_not_authenticated)
      else if not c.caller_nonce_authorized_by_key
          && is_origination_purpose r.purpose
          && not (is_none (find r.operation_params Tag.nonce none))
      then (st, KeymasterError.caller_nonce_prohibited)
      else enter_use c

  unfoldable pub check_and_enter : Outcome Checks → Enforcement × KeymasterError
  check_and_enter (refuse error) = (st, error)
  check_and_enter (proceed c) = conclude c

  unfoldable pub authorize_begin : Enforcement × KeymasterError
  authorize_begin =
      let error = authorized_purpose d r.purpose r.auth_set in
      if is_ok error
      then check_and_enter (check_all r.auth_set.elems initial_checks)
      else (st, error)
