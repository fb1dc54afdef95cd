-- ===== src/Enforcement/Examples.antt =====
-- Tests of KeymasterEnforcement, and its theorems at concrete inputs: keymaster_enforcement.cpp.
use platform_system_keymaste.Common.{
  ℕ, ◌+◌, ◌≤◌, ◌≡◌, ◌≢◌, refl, ◌⊎◌, inl, inr, true, false, ◌&&◌, List, [], ◌∷◌, Option, none, some,
  arith, length, ◌==◌, if◌then◌else◌,
}
use platform_system_keymaste.Defs.Tag.{Tag, same_tag}
use platform_system_keymaste.Defs.Codes.{KeymasterError, is_ok, Purpose}
use platform_system_keymaste.AuthorizationSet.{
  enumerated, integer, long_integer, blob, Elem, AuthorizationSet, empty_set, slice_of,
}
use platform_system_keymaste.AuthorizationSet.Query.{
  find, find_loop, at_index, get_tag_value, get_tag_value_blob, contains_enum_value, any_value,
}
use platform_system_keymaste.Enforcement.{AuthToken, Platform, Context}
use platform_system_keymaste.Enforcement.AccessTime.{
  AccessTimeMap, last_time, last_key_access_time, refresh, add_time_entry, update_key_access_time,
  update_key_access_time_bounded, last_key_access_time-update_self, entry_of, entry_of-update_ne,
}
use platform_system_keymaste.Enforcement.AccessCount.{
  count_of, key_access_count, bump, add_count_entry, uses, increment_key_access_count,
}
use platform_system_keymaste.Enforcement.Token.{
  auth_type_matches, timeout_holds, challenge_holds, token_accepted, token_of_blob, provided_token,
  auth_token_matches,
}
use platform_system_keymaste.Enforcement.Rules.{
  Enforcement, rule_of, note_index, find_indices, is_origination_purpose,
  min_time_between_ops_passed, max_uses_per_boot_not_exceeded, contains_purpose, authorized_purpose,
}
use platform_system_keymaste.Enforcement.Begin.{
  Request, check_secure_id, check_rule, check_all, enter_access_time, enter_access_count,
  enter_time, enter_count, enter_use, conclude, check_and_enter, authorize_begin,
}
use platform_system_keymaste.Enforcement.Begin.Sound.{Authorized, authorize_begin-Authorized}
use platform_system_keymaste.Enforcement.Begin.Uses.{uses_in, is_limited, authorize_begin-uses}
use platform_system_keymaste.Enforcement.Begin.Limit.{Call, LimitsTo, successes, successes-within}
use platform_system_keymaste.Enforcement.Operation.{
  scan_of, scan_auth, match_ids, after_scan, authorize_update_or_finish,
}
use platform_system_keymaste.Enforcement.Operation.Sound.{
  SomeAuthenticates, exempt, asks_authentication, authorize_update_or_finish_ok,
}

abbrev code_of : Purpose → ℕ
code_of Purpose.encrypt = 0
code_of Purpose.decrypt = 1
code_of Purpose.sign = 2
code_of Purpose.verify = 3
code_of Purpose.derive_key = 4
code_of (Purpose.other n) = n

abbrev token : AuthToken
token = record {
  version = 0;
  challenge = 77;
  user_id = 5;
  authenticator_id = 6;
  authenticator_type = 2;
}

-- A platform on which a token is two bytes long, and always the same.
abbrev platform : Platform
platform = record {
  purpose_code = code_of;
  algorithm_rsa = 1;
  algorithm_ec = 3;
  hw_auth_token_version = 0;
  hw_auth_token_size = 2;
  decode_token = λ bytes. token;
  ntoh = λ n. n;
}

abbrev now : Context
now = record {
  activation_date_valid = λ n. true;
  expiration_date_passed = λ n. false;
  auth_token_timed_out = λ t n. false;
  validate_token_signature = λ t. true;
  check_time = 100;
  update_time = 101;
}

abbrev state : Enforcement
state = record {
  access_time_map = some (record {
    last_access_list = record { keyid = 9; access_time = 50; timeout = 100 } ∷ [];
    max_size = 4;
  });
  access_count_map =
      some
        (record { access_count_list = record { keyid = 9; access_count = 1 } ∷ []; max_size = 4 });
}

abbrev sign_entry : Elem
sign_entry = record { tag = Tag.purpose; value = enumerated 2 }

abbrev id_entry : Elem
id_entry = record { tag = Tag.user_secure_id; value = long_integer 5 }

abbrev type_entry : Elem
type_entry = record { tag = Tag.user_auth_type; value = enumerated 2 }

abbrev set_of : List Elem → AuthorizationSet
set_of es = record empty_set { elems = es; elems_capacity = 8 }

-- A key that signs three times, at intervals of ten seconds, for user 5.
abbrev timed_key : AuthorizationSet
timed_key = set_of (
    sign_entry
    ∷ record { tag = Tag.min_seconds_between_ops; value = integer 10 }
    ∷ record { tag = Tag.max_uses_per_boot; value = integer 3 }
    ∷ id_entry
    ∷ record { tag = Tag.user_auth_type; value = enumerated 2 }
    ∷ record { tag = Tag.auth_timeout; value = integer 60 }
    ∷ [])

abbrev params : AuthorizationSet
params =
    record (set_of (
      record { tag = Tag.auth_token; value = blob (record { offset = 0; data_length = 2 }) }
      ∷ [])) { indirect_data = 1 ∷ 2 ∷ []; indirect_data_capacity = 2; indirect_allocated = 2 }

abbrev request : Request
request = record {
  purpose = Purpose.sign;
  keyid = 9;
  auth_set = timed_key;
  operation_params = params;
}

timed_key_ok : (authorize_begin platform now state request).1 ≡ KeymasterError.ok
unfolding authorize_begin authorized_purpose contains_purpose contains_enum_value any_value same_tag
    is_ok check_all check_rule rule_of check_secure_id auth_token_matches provided_token
    token_of_blob get_tag_value_blob get_tag_value find find_loop slice_of find_indices note_index
    min_time_between_ops_passed last_key_access_time last_time max_uses_per_boot_not_exceeded
    key_access_count count_of token_accepted auth_type_matches timeout_holds challenge_holds
    at_index check_and_enter conclude is_origination_purpose enter_use enter_time enter_access_time
    enter_count enter_access_count update_key_access_time refresh increment_key_access_count bump
    add_time_entry add_count_entry
timed_key_ok = refl

authorize_begin-Authorized_example : Authorized platform now state request
authorize_begin-Authorized_example =
    authorize_begin-Authorized platform now state request timed_key_ok

authorize_begin-uses_example :
    uses_in 9 (authorize_begin platform now state request).0.access_count_map ≡ (
      if 9 == 9
        && (is_limited timed_key.elems && is_ok (authorize_begin platform now state request).1)
      then uses_in 9 state.access_count_map + 1
      else uses_in 9 state.access_count_map)
unfolding uses
authorize_begin-uses_example = authorize_begin-uses platform now state request 9 (omega arith)

abbrev calls : List Call
calls = let call : Call = record { context = now; request = request } in call ∷ call ∷ call ∷ []

limited : (request.keyid ≢ request.keyid) ⊎ LimitsTo 3 timed_key.elems
unfolding rule_of
limited = inr (inr (inr (inl (refl, omega arith))))

successes-within_example : uses_in 9 state.access_count_map + successes platform 9 state calls ≤ 3
unfolding uses
successes-within_example =
    successes-within platform 9 3 state calls (limited, (limited, (limited, tt))) (omega arith)
      (omega arith) (omega arith)

-- A key without a timeout, whose operation 77 the token is for.
abbrev handle_key : AuthorizationSet
handle_key =
    set_of (sign_entry ∷ record { tag = Tag.user_auth_type; value = enumerated 2 } ∷ id_entry ∷ [])

handle_key_ok : authorize_update_or_finish platform now handle_key params 77 ≡ KeymasterError.ok
unfolding authorize_update_or_finish after_scan scan_auth scan_of match_ids same_tag
    auth_token_matches provided_token token_of_blob get_tag_value_blob get_tag_value find find_loop
    slice_of token_accepted auth_type_matches timeout_holds challenge_holds at_index
handle_key_ok = refl

authorize_update_or_finish_ok_example :
    (exempt handle_key.elems ≡ true)
    ⊎ (asks_authentication handle_key.elems ≡ false)
    ⊎ ((type_index : Option ℕ) × (scan_auth handle_key.elems 0 none ≡ some type_index)
        × SomeAuthenticates platform now handle_key params 77 type_index handle_key.elems)
authorize_update_or_finish_ok_example =
    authorize_update_or_finish_ok platform now handle_key params 77 handle_key_ok

abbrev times : AccessTimeMap
times = record {
  last_access_list =
      record { keyid = 1; access_time = 50; timeout = 100 }
      ∷ record { keyid = 2; access_time = 50; timeout = 20 }
      ∷ record { keyid = 3; access_time = 60; timeout = 100 }
      ∷ [];
  max_size = 3;
}

update_key_access_time_bounded_example :
    length (update_key_access_time times 4 90 10).0.last_access_list ≤ 3
update_key_access_time_bounded_example = update_key_access_time_bounded times 4 90 10 (omega arith)

updated : (update_key_access_time times 4 90 10).1 ≡ true
unfolding update_key_access_time refresh add_time_entry
updated = refl

last_key_access_time-update_self_example :
    last_key_access_time (update_key_access_time times 4 90 10).0 4 ≡ some 90
last_key_access_time-update_self_example = last_key_access_time-update_self times 4 90 10 updated

entry_of-update_ne_example :
    entry_of 3 (update_key_access_time times 4 90 10).0.last_access_list
    ≡ some (record { keyid = 3; access_time = 60; timeout = 100 })
unfolding entry_of
entry_of-update_ne_example =
    entry_of-update_ne times 4 3 90 10 (record { keyid = 3; access_time = 60; timeout = 100 })
      (omega arith) refl (omega arith)
