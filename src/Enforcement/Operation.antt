-- ===== src/Enforcement/Operation.antt =====
-- `AuthorizeOperation` and `AuthorizeUpdateOrFinish` of keymaster_enforcement.cpp.
pub mod Sound
use platform_system_keymaste.Common.{
  ℕ, suc, ◌+◌, ◌≤◌, ◌≡◌, refl, sym, ◌∙◌, ◌≢◌, ◌⊎◌, inl, inr, Bool, true, false, not, ◌&&◌, ◌||◌,
  List, [], ◌∷◌, Option, none, some, arith, ==_iff, ◌==◌, if◌then◌else◌, Bool-cases, Option-cases,
}
use platform_system_keymaste.Defs.Tag.{Tag, same_tag}
use platform_system_keymaste.Defs.Codes.{KeymasterError, Purpose}
use platform_system_keymaste.AuthorizationSet.{Value, Elem, AuthorizationSet, long_integer_of}
use platform_system_keymaste.AuthorizationSet.Query.{get_tag_value_enum}
use platform_system_keymaste.Enforcement.{AuthToken, Platform, Context}
use platform_system_keymaste.Enforcement.Token.{
  provided_token, token_accepted, auth_type_matches, challenge_holds, auth_token_matches,
}
use platform_system_keymaste.Enforcement.Rules.{Enforcement}
use platform_system_keymaste.Enforcement.Begin.{Request, is_none, authorize_begin}
use platform_system_keymaste.Enforcement.Begin.Rounds.{any_elem}

-- What the first loop of `AuthorizeUpdateOrFinish` does at a tag.
pub data Scan : Type 0 where
  nothing_to_check auth_type skip : Scan

unfoldable pub scan_of : Tag → Scan
scan_of Tag.no_auth_required = nothing_to_check
scan_of Tag.auth_timeout = nothing_to_check
scan_of Tag.user_auth_type = auth_type
scan_of _ = skip

-- That loop: `none` if it returns OK, or else the index of the last USER_AUTH_TYPE, or -1.
unfoldable pub scan_auth : List Elem → ℕ → Option ℕ → Option (Option ℕ)
scan_auth [] pos index = some index
scan_auth (e ∷ es) pos index = elim (scan_of e.tag) [
  | nothing_to_check ↦ none
  | auth_type ↦ scan_auth es (suc pos) (some pos)
  | skip ↦ scan_auth es (suc pos) index
]

module _ (d : Platform) (context : Context) where
  module _ (auth_set operation_params : AuthorizationSet) (op_handle : ℕ) where
    abbrev pub id_matches : Option ℕ → Elem → Bool
    id_matches type_index e =
        auth_token_matches d context auth_set operation_params (long_integer_of e.value) type_index
          none op_handle false

    -- The second loop, over the secure ids.
    unfoldable pub match_ids : Option ℕ → List Elem → Bool → KeymasterError
    match_ids type_index [] true = KeymasterError.key_user_not_authenticated
    match_ids type_index [] false = KeymasterError.ok
    match_ids type_index (e ∷ es) required =
        let skipped = match_ids type_index es required in
        let failed = match_ids type_index es true in
        if same_tag e.tag Tag.user_secure_id
        then (if id_matches type_index e then KeymasterError.ok else failed)
        else skipped

    unfoldable pub after_scan : Option (Option ℕ) → KeymasterError
    unfolding match_ids
    after_scan none = KeymasterError.ok
    after_scan (some type_index) = match_ids type_index auth_set.elems (not (is_none type_index))

    unfoldable pub authorize_update_or_finish : KeymasterError
    authorize_update_or_finish = after_scan (scan_auth auth_set.elems 0 none)

  unfoldable pub is_public_key_algorithm : AuthorizationSet → Bool
  is_public_key_algorithm auth_set = elim (get_tag_value_enum auth_set Tag.algorithm) [
    | none ↦ false
    | some a ↦ a == d.algorithm_rsa || a == d.algorithm_ec
  ]

  -- The purposes for which a public key is used, so that anybody may.
  unfoldable pub uses_public_key : Purpose → Bool
  uses_public_key Purpose.encrypt = true
  uses_public_key Purpose.verify = true
  uses_public_key _ = false

  unfoldable pub authorize_operation :
      Enforcement → Request → ℕ → Bool → Enforcement × KeymasterError
  unfolding uses_public_key
  authorize_operation st r op_handle is_begin_operation =
      if is_public_key_algorithm r.auth_set && uses_public_key r.purpose
      then (st, KeymasterError.ok)
      else if is_begin_operation
      then authorize_begin d context st r
      else (st, authorize_update_or_finish r.auth_set r.operation_params op_handle)
