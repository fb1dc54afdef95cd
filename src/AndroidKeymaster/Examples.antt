-- ===== src/AndroidKeymaster/Examples.antt =====
-- Tests of AndroidKeymaster, and its theorems at concrete inputs: android_keymaster.cpp.
use platform_system_keymaste.Common.{
  ℕ, ◌≡◌, ◌⊎◌, refl, none, inl, inr, true, false, [], ◌∷◌, some, arith,
}
use platform_system_keymaste.Defs.Tag.{Tag}
use platform_system_keymaste.Defs.Codes.{KeymasterError, Purpose}
use platform_system_keymaste.Buffer.{empty}
use platform_system_keymaste.AuthorizationSet.{enumerated, integer, AuthorizationSet, empty_set}
use platform_system_keymaste.Enforcement.{Platform}
use platform_system_keymaste.OperationTable.{free_entry, entries, find, find_entry}
use platform_system_keymaste.OperationTable.Handles.{IsValid}
use platform_system_keymaste.OperationTable.Adding.{IsFresh}
use platform_system_keymaste.AndroidKeymaster.{success, Operation, Services, Moment, Keymaster}
use platform_system_keymaste.AndroidKeymaster.Handlers.{
  BeginRequest, begin_operation, UpdateRequest, update_operation, FinishRequest, finish_operation,
}
use platform_system_keymaste.AndroidKeymaster.Lifecycle.{
  Ends, GoesOn, finish_operation-Ends, update_operation-GoesOn,
}
use platform_system_keymaste.AndroidKeymaster.Beginning.{
  IsHonest, Begins, IsGranted, begin_operation-Begins,
}
use platform_system_keymaste.AndroidKeymaster.Sequences.{
  begins, aborts, after, Reaches, IsUsual, stays, goes, WasGranted, KeepsPurpose, reached-granted,
}
use platform_system_keymaste.AndroidKeymaster.Progress.{IsReady, begin-after-end}
use platform_system_keymaste.AndroidKeymaster.Handlers.{abort_operation}
use platform_system_keymaste.Defs.Tag.{same_tag}
use platform_system_keymaste.Defs.Codes.{is_ok}
use platform_system_keymaste.AuthorizationSet.Query.{
  find_loop, get_tag_value, get_tag_value_int, get_tag_value_enum,
}
use platform_system_keymaste.AndroidKeymaster.Load.{
  check_version_info, Loaded, get_key_factory, load_by, load_parsed, load_key,
}
use platform_system_keymaste.AndroidKeymaster.Loading.{patchlevel_of, load_key-patchlevel}

abbrev code_of : Purpose → ℕ
code_of Purpose.encrypt = 0
code_of Purpose.decrypt = 1
code_of Purpose.sign = 2
code_of Purpose.verify = 3
code_of Purpose.derive_key = 4
code_of (Purpose.other n) = n

abbrev platform : Platform
platform = record {
  purpose_code = code_of;
  algorithm_rsa = 1;
  algorithm_ec = 3;
  hw_auth_token_version = 0;
  hw_auth_token_size = 2;
  decode_token = λ bytes. record {
    version = 0;
    challenge = 0;
    user_id = 0;
    authenticator_id = 0;
    authenticator_type = 0;
  };
  ntoh = λ n. n;
}

-- A key for signatures, which asks for no authentication.
abbrev key_auths : AuthorizationSet
key_auths = record empty_set {
  elems =
      record { tag = Tag.purpose; value = enumerated 2 }
      ∷ record { tag = Tag.algorithm; value = enumerated 128 }
      ∷ [];
  elems_capacity = 2;
}

-- The other classes, with numbers for keys, factories of keys and the bodies of operations, and a
-- factory of operations for each purpose.
abbrev services : Services ℕ ℕ ℕ Purpose
services = record {
  parse_key_blob = λ blob params.
      success (record { key_material = blob; hw_enforced = key_auths; sw_enforced = empty_set });
  upgrade_key_blob = λ blob params. success blob;
  delete_key = λ blob. KeymasterError.ok;
  delete_all_keys = KeymasterError.ok;
  add_rng_entropy = λ bytes. KeymasterError.ok;
  system_patchlevel = 201801;
  create_key_id = λ blob. some 3;
  key_factory = λ algorithm. some algorithm;
  generate_key =
      λ f params. success (record { key_blob = []; enforced = key_auths; unenforced = empty_set });
  import_key = λ f params format bytes.
      success (record { key_blob = bytes; enforced = key_auths; unenforced = empty_set });
  load_key = λ f material params hw sw. success f;
  operation_factory = λ f purpose. some purpose;
  authorizations = λ k. key_auths;
  formatted_key_material = λ k format. success [];
  generate_attestation = λ k params tee sw. success [];
  create_operation = λ g k params. success (record { created_purpose = g; created_body = 10 });
  begin = λ b params. record {
    begun_body = b;
    begun_params = empty_set;
    begun_error = KeymasterError.ok;
  };
  update = λ b params input. record {
    updated_body = 11;
    updated_params = empty_set;
    updated_output = empty;
    updated_consumed = 0;
    updated_error = KeymasterError.ok;
  };
  finish = λ b params input signature. record {
    finished_params = empty_set;
    finished_output = empty;
    finished_error = KeymasterError.ok;
  };
  abort = λ b. KeymasterError.ok;
}

services-IsHonest : IsHonest services
services-IsHonest = record {
  parse_fails = λ blob params e h. cc;
  load_fails = λ f material params hw sw e h. cc;
  create_fails = λ g k params e h. cc;
}

services-KeepsPurpose : KeepsPurpose platform services
services-KeepsPurpose f purpose g key params c h h' = ground arith

abbrev now : Moment
now = record {
  context = record {
    activation_date_valid = λ n. true;
    expiration_date_passed = λ n. false;
    auth_token_timed_out = λ t n. false;
    validate_token_signature = λ t. true;
    check_time = 100;
    update_time = 101;
  };
  heap = record { alloc_elems = λ n. true; alloc_bytes = λ n. true };
  chance = record {
    has_memory = true;
    random_handle = some 5;
    ssl_error = KeymasterError.unknown_error;
  };
}

abbrev running : Operation ℕ
running = record { purpose = Purpose.sign; key_id = 3; key_auths = key_auths; body = 10 }

-- A policy with tables, and one of two slots taken.
abbrev state : Keymaster ℕ
state = record {
  enforcement = some (record {
    access_time_map = some (record { last_access_list = []; max_size = 4 });
    access_count_map = some (record { access_count_list = []; max_size = 4 });
  });
  operation_table = record {
    table = some (record { handle = 7; operation = some running } ∷ free_entry ∷ []);
    table_size = 2;
  };
}

state-IsValid : IsValid state.operation_table
unfolding entries find_entry
state-IsValid = record {
  marked = (inr (running, refl, omega arith), (inl (refl, refl), tt));
  distinct = (inr refl, (inl refl, tt));
  sized = inr refl;
}

state-IsFresh : IsFresh now.chance state.operation_table
unfolding find find_entry entries
state-IsFresh r h = let eq : r ≡ 5 = ground arith in rw eq refl

abbrev begin_request : BeginRequest
begin_request = record { purpose = Purpose.sign; key_blob = []; additional_params = empty_set }

begin_operation-Begins_example :
    Begins
      (IsGranted platform services now state begin_request)
      state
      (begin_operation platform services now state begin_request)
begin_operation-Begins_example =
    begin_operation-Begins platform services now state begin_request services-IsHonest state-IsValid
      state-IsFresh cc

abbrev update_request : UpdateRequest
update_request = record { op_handle = 7; additional_params = empty_set; input = empty }

update_operation-GoesOn_example :
    GoesOn platform services now state update_request
      (update_operation platform services now state update_request)
update_operation-GoesOn_example =
    update_operation-GoesOn platform services now state update_request state-IsValid

abbrev finish_request : FinishRequest
finish_request = record {
  op_handle = 7;
  additional_params = empty_set;
  input = empty;
  signature = empty;
}

finish_operation-Ends_example :
    Ends 7 state.operation_table
      (finish_operation platform services now state finish_request).0.operation_table
finish_operation-Ends_example =
    finish_operation-Ends platform services now state finish_request state-IsValid

abbrev loaded : Loaded ℕ ℕ
loaded = record { hw_enforced = key_auths; sw_enforced = empty_set; factory = 128; key = 128 }

loaded_eq : load_key services [] empty_set ≡ success loaded
unfolding load_key load_parsed load_by get_key_factory check_version_info get_tag_value_int
    get_tag_value_enum get_tag_value platform_system_keymaste.AuthorizationSet.Query.find find_loop
    same_tag is_ok
loaded_eq = refl

load_key-patchlevel_example :
    (patchlevel_of key_auths empty_set ≡ none) ⊎ (patchlevel_of key_auths empty_set ≡ some 201801)
load_key-patchlevel_example = load_key-patchlevel services [] empty_set loaded loaded_eq

-- An empty table, and the policy without entries.
abbrev fresh_state : Keymaster ℕ
fresh_state = record state {
  operation_table = record { table = some (free_entry ∷ free_entry ∷ []); table_size = 2 };
}

fresh_state-IsValid : IsValid fresh_state.operation_table
unfolding entries find_entry
fresh_state-IsValid = record {
  marked = (inl (refl, refl), (inl (refl, refl), tt));
  distinct = (inl refl, (inl refl, tt));
  sized = inr refl;
}

fresh_state-none : (j : ℕ) → find j fresh_state.operation_table ≡ none
unfolding find find_entry entries
fresh_state-none j = ground arith

fresh_state-IsUsual : IsUsual platform services now fresh_state
fresh_state-IsUsual = (λ r h. fresh_state-none r, cc)

abbrev one_request :
    Reaches platform services fresh_state
      (after platform services now fresh_state (begins begin_request))
one_request = goes now (begins begin_request) stays fresh_state-IsUsual

reached-granted_example :
    IsValid (after platform services now fresh_state (begins begin_request)).operation_table
    × ((j : ℕ) (op : Operation ℕ)
        → find j (after platform services now fresh_state (begins begin_request)).operation_table
          ≡ some op
        → WasGranted platform services one_request j op)
reached-granted_example =
    reached-granted platform services fresh_state
      (after platform services now fresh_state (begins begin_request)) services-IsHonest
      services-KeepsPurpose fresh_state-IsValid fresh_state-none one_request

-- Without a policy.
abbrev lax_state : Keymaster ℕ
lax_state = record state { enforcement = none }

lax_state_found : find 7 lax_state.operation_table ≡ some running
unfolding find find_entry entries
lax_state_found = refl

lax_state-IsReady :
    IsReady platform services now (after platform services now lax_state (aborts 7)) begin_request
unfolding after abort_operation find find_entry entries get_tag_value_enum get_tag_value
    platform_system_keymaste.AuthorizationSet.Query.find find_loop same_tag
lax_state-IsReady = record {
  l = loaded;
  loaded = loaded_eq;
  algorithm = 128;
  has_algorithm = refl;
  factory = Purpose.sign;
  has_factory = refl;
  c = record { created_purpose = Purpose.sign; created_body = 10 };
  created = refl;
  begun = refl;
  key_id = 3;
  allowed = inl refl;
  handle = 5;
  has_handle = refl;
  handle_ne = omega arith;
}

begin-after-end_example :
    let res =
      begin_operation platform services now
        (after platform services now lax_state (aborts 7))
        begin_request in
    (res.1.error ≡ KeymasterError.ok) × (res.1.op_handle ≡ 5)
unfolding lax_state-IsReady
begin-after-end_example =
    begin-after-end platform services now now lax_state (aborts 7) 7 running begin_request
      lax_state-IsReady refl lax_state_found
