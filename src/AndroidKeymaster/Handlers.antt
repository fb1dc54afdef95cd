-- ===== src/AndroidKeymaster/Handlers.antt =====
-- `BeginOperation`, `UpdateOperation`, `FinishOperation` and `AbortOperation` of android_keymaster.cpp.
use platform_system_keymaste.Common.{ℕ, true, false, List, Option, none, some, if◌then◌else◌}
use platform_system_keymaste.Defs.Tag.{Tag}
use platform_system_keymaste.Defs.Codes.{KeymasterError, is_ok, Purpose}
use platform_system_keymaste.Buffer.{Buffer, empty}
use platform_system_keymaste.AuthorizationSet.{AuthorizationSet, empty_set, contents}
use platform_system_keymaste.AuthorizationSet.Memory.{reinitialize, copied}
use platform_system_keymaste.AuthorizationSet.Query.{get_tag_value_enum}
use platform_system_keymaste.Enforcement.{Platform}
use platform_system_keymaste.Enforcement.Rules.{Enforcement}
use platform_system_keymaste.Enforcement.Begin.{Request}
use platform_system_keymaste.Enforcement.Operation.{authorize_operation}
use platform_system_keymaste.OperationTable.{add, find, put, delete}
use platform_system_keymaste.AndroidKeymaster.{
  success, failure, Operation, Created, Services, Moment, Keymaster,
}
use platform_system_keymaste.AndroidKeymaster.Load.{Loaded, load_key}

pub record BeginRequest : Type 0 where
  pub purpose : Purpose
  pub key_blob : List ℕ
  pub additional_params : AuthorizationSet

pub record BeginResponse : Type 0 where
  pub error : KeymasterError
  pub op_handle : ℕ
  pub output_params : AuthorizationSet

pub record UpdateRequest : Type 0 where
  pub op_handle : ℕ
  pub additional_params : AuthorizationSet
  pub input : Buffer

pub record UpdateResponse : Type 0 where
  pub error : KeymasterError
  pub output_params : AuthorizationSet
  pub output : Buffer
  pub input_consumed : ℕ

pub record FinishRequest : Type 0 where
  pub op_handle : ℕ
  pub additional_params : AuthorizationSet
  pub input : Buffer
  pub signature : Buffer

pub record FinishResponse : Type 0 where
  pub error : KeymasterError
  pub output_params : AuthorizationSet
  pub output : Buffer

abbrev pub begin_error : KeymasterError → BeginResponse
begin_error e = record { error = e; op_handle = 0; output_params = empty_set }

abbrev pub update_error : KeymasterError → UpdateResponse
update_error e = record { error = e; output_params = empty_set; output = empty; input_consumed = 0 }

abbrev pub finish_error : KeymasterError → FinishResponse
finish_error e = record { error = e; output_params = empty_set; output = empty }

module _ {B K F G : Type 0} (d : Platform) (s : Services B K F G) (now : Moment) where
  -- The last steps of `BeginOperation`, for an operation that is authorized.
  unfoldable pub run_begin :
      Keymaster B → BeginRequest → K → Operation B → Keymaster B × BeginResponse
  run_begin st r key op =
      let b = s.begin op.body r.additional_params in
      let op' : Operation B = record op {
        body = b.begun_body;
        key_auths = (reinitialize now.heap (contents (s.authorizations key)) op.key_auths).0;
      } in
      let (table, handle, error) = add now.chance op' 0 st.operation_table in
      if is_ok b.begun_error
      then (
        record st { operation_table = table },
        record { error = error; op_handle = handle; output_params = b.begun_params },
      )
      else (st, record { error = b.begun_error; op_handle = 0; output_params = b.begun_params })

  unfoldable pub begin_authorized :
      Keymaster B
      → BeginRequest
      → K
      → Operation B
      → Enforcement
      → Option ℕ
      → Keymaster B × BeginResponse
  unfolding run_begin
  begin_authorized st r key op policy none = (st, begin_error KeymasterError.unknown_error)
  begin_authorized st r key op policy (some key_id) =
      let request : Request = record {
        purpose = r.purpose;
        keyid = key_id;
        auth_set = s.authorizations key;
        operation_params = r.additional_params;
      } in
      let (policy', error) = authorize_operation d now.context policy request 0 true in
      let st' : Keymaster B = record st { enforcement = some policy' } in
      if is_ok error
      then run_begin st' r key (record op { key_id = key_id })
      else (st', begin_error error)

  -- A key's id is of no use without a policy.
  unfoldable pub begin_under :
      Option Enforcement
      → Keymaster B
      → BeginRequest
      → K
      → Operation B
      → Keymaster B × BeginResponse
  unfolding begin_authorized
  begin_under none st r key op = run_begin st r key op
  begin_under (some policy) st r key op =
      begin_authorized st r key op policy (s.create_key_id r.key_blob)

  unfoldable pub begin_created :
      Keymaster B → BeginRequest → K → Created B → Keymaster B × BeginResponse
  unfolding begin_under
  begin_created st r key c =
      let op : Operation B = record {
        purpose = c.created_purpose;
        key_id = 0;
        key_auths = empty_set;
        body = c.created_body;
      } in
      begin_under st.enforcement st r key op

  unfoldable pub begin_loaded :
      Keymaster B → BeginRequest → Loaded K F → Keymaster B × BeginResponse
  unfolding begin_created
  begin_loaded st r l = elim (get_tag_value_enum (s.authorizations l.key) Tag.algorithm) [
    | none ↦ (st, begin_error KeymasterError.unknown_error)
    | some algorithm ↦ elim (s.operation_factory l.factory r.purpose) [
      | none ↦ (st, begin_error KeymasterError.unsupported_purpose)
      | some factory ↦ elim (s.create_operation factory l.key r.additional_params) [
        | failure error ↦ (st, begin_error error)
        | success c ↦ begin_created st r l.key c
      ]
    ]
  ]

  unfoldable pub begin_operation : Keymaster B → BeginRequest → Keymaster B × BeginResponse
  unfolding begin_loaded
  begin_operation st r = elim (load_key s r.key_blob r.additional_params) [
    | failure error ↦ (st, begin_error error)
    | success l ↦ begin_loaded st r l
  ]

  -- What the policy, if there is one, says of an operation that goes on. It is given a copy of the
  -- operation's authorizations, since `Operation::authorizations` returns by value; the copy is empty
  -- if there is no memory for it.
  unfoldable pub authorize_next :
      Option Enforcement → Operation B → AuthorizationSet → ℕ → Option Enforcement × KeymasterError
  authorize_next none op params op_handle = (none, KeymasterError.ok)
  authorize_next (some policy) op params op_handle =
      let request : Request = record {
        purpose = op.purpose;
        keyid = op.key_id;
        auth_set = copied now.heap op.key_auths;
        operation_params = params;
      } in
      let (policy', error) = authorize_operation d now.context policy request op_handle false in
      (some policy', error)

  unfoldable pub run_update :
      Keymaster B → UpdateRequest → Operation B → Keymaster B × UpdateResponse
  run_update st r op =
      let u = s.update op.body r.additional_params r.input in
      let table = put r.op_handle (record op { body = u.updated_body }) st.operation_table in
      (
        record st {
          operation_table = if is_ok u.updated_error then table else (delete r.op_handle table).0;
        },
        record {
          error = u.updated_error;
          output_params = u.updated_params;
          output = u.updated_output;
          input_consumed = u.updated_consumed;
        },
      )

  unfoldable pub update_operation : Keymaster B → UpdateRequest → Keymaster B × UpdateResponse
  unfolding authorize_next run_update
  update_operation st r = elim (find r.op_handle st.operation_table) [
    | none ↦ (st, update_error KeymasterError.invalid_operation_handle)
    | some op ↦
        let (policy, error) = authorize_next st.enforcement op r.additional_params r.op_handle in
        let st' : Keymaster B = record st { enforcement = policy } in
        if is_ok error then run_update st' r op else (
          record st' { operation_table = (delete r.op_handle st.operation_table).0 },
          update_error error,
        )
  ]

  unfoldable pub run_finish : FinishRequest → Operation B → FinishResponse
  run_finish r op =
      let f = s.finish op.body r.additional_params r.input r.signature in
      record {
        error = f.finished_error;
        output_params = f.finished_params;
        output = f.finished_output;
      }

  unfoldable pub finish_operation : Keymaster B → FinishRequest → Keymaster B × FinishResponse
  unfolding authorize_next run_finish
  finish_operation st r = elim (find r.op_handle st.operation_table) [
    | none ↦ (st, finish_error KeymasterError.invalid_operation_handle)
    | some op ↦
        let (policy, error) = authorize_next st.enforcement op r.additional_params r.op_handle in
        (
          record st {
            enforcement = policy;
            operation_table = (delete r.op_handle st.operation_table).0;
          },
          if is_ok error then run_finish r op else finish_error error,
        )
  ]

  unfoldable pub abort_operation : Keymaster B → ℕ → Keymaster B × KeymasterError
  abort_operation st op_handle = elim (find op_handle st.operation_table) [
    | none ↦ (st, KeymasterError.invalid_operation_handle)
    | some op ↦
        (record st { operation_table = (delete op_handle st.operation_table).0 }, s.abort op.body)
  ]
