-- ===== src/Enforcement/Token.antt =====
-- `AuthTokenMatches` of keymaster_enforcement.cpp, and what a match means.
use platform_system_keymaste.Common.{
  ℕ, Bool, true, false, not, ◌&&◌, ◌||◌, List, Option, none, some, length, ltb, ◌==◌, if◌then◌else◌,
  bit_and,
}
use platform_system_keymaste.Defs.Tag.{user_auth_type, auth_timeout, auth_token, same_tag}
use platform_system_keymaste.AuthorizationSet.{AuthorizationSet, integer_of}
use platform_system_keymaste.AuthorizationSet.Query.{at_index, get_tag_value_blob}
use platform_system_keymaste.Enforcement.{AuthToken, Platform, Context}

module _ (d : Platform) (context : Context) where
  open d use {hw_auth_token_version, hw_auth_token_size, decode_token, ntoh}
  open context use {validate_token_signature, auth_token_timed_out}

  -- The tests of the token's type, against the mask that the key has.
  unfoldable pub auth_type_matches : AuthorizationSet → Option ℕ → AuthToken → Bool
  auth_type_matches auth_set none token = false
  auth_type_matches auth_set (some type_index) token =
      let elem = at_index auth_set type_index in
      if ltb (length auth_set.elems) type_index
      then false
      else if not (same_tag elem.tag user_auth_type)
      then false
      else not (bit_and (integer_of elem.value) (ntoh token.authenticator_type) == 0)

  -- The test of the token's age, which is made when an operation begins.
  unfoldable pub timeout_holds : AuthorizationSet → Option ℕ → Bool → AuthToken → Bool
  timeout_holds auth_set none is_begin token = true
  timeout_holds auth_set (some timeout_index) false token = true
  timeout_holds auth_set (some timeout_index) true token =
      let elem = at_index auth_set timeout_index in
      same_tag elem.tag auth_timeout && not (auth_token_timed_out token (integer_of elem.value))

  -- A handle of zero, and a key whose authentication lasts for a time, ask for no challenge.
  unfoldable pub challenge_holds : Option ℕ → ℕ → AuthToken → Bool
  challenge_holds none op_handle token = op_handle == 0 || op_handle == token.challenge
  challenge_holds (some timeout_index) op_handle token = true

  unfoldable pub token_accepted :
      AuthorizationSet → ℕ → Option ℕ → Option ℕ → ℕ → Bool → AuthToken → Bool
  token_accepted auth_set user_secure_id type_index timeout_index op_handle is_begin token =
      if not (token.version == hw_auth_token_version)
      then false
      else if not (validate_token_signature token)
      then false
      else if not (challenge_holds timeout_index op_handle token)
      then false
      else if not (user_secure_id == token.user_id)
          && not (user_secure_id == token.authenticator_id)
      then false
      else if not (auth_type_matches auth_set type_index token)
      then false
      else timeout_holds auth_set timeout_index is_begin token

  unfoldable pub token_of_blob : Option (List ℕ) → Option AuthToken
  token_of_blob none = none
  token_of_blob (some bytes) =
      if length bytes == hw_auth_token_size then some (decode_token bytes) else none

  unfoldable pub provided_token : AuthorizationSet → Option AuthToken
  unfolding token_of_blob
  provided_token operation_params = token_of_blob (get_tag_value_blob operation_params auth_token)

  -- The arguments: the key's authorizations, the operation's parameters, the user's id, the indices
  -- of the key's authentication type and timeout or -1, and the operation's handle.
  unfoldable pub auth_token_matches :
      AuthorizationSet → AuthorizationSet → ℕ → Option ℕ → Option ℕ → ℕ → Bool → Bool
  auth_token_matches auth_set operation_params user_secure_id type_index timeout_index op_handle
        is_begin =
      elim (provided_token operation_params) [
        | none ↦ false
        | some token ↦
            token_accepted auth_set user_secure_id type_index timeout_index op_handle is_begin token
      ]
