-- ===== src/AndroidKeymaster/Progress.antt =====
-- When `BeginOperation` of android_keymaster.cpp answers OK: the end of an operation makes room for
-- another one.
use platform_system_keymaste.Common.{ℕ, ◌≡◌, ◌≢◌, refl, inl, inr, true, Option, none, some, subst}
use platform_system_keymaste.Defs.Tag.{Tag}
use platform_system_keymaste.Defs.Codes.{KeymasterError, is_ok}
use platform_system_keymaste.AuthorizationSet.Query.{get_tag_value_enum}
use platform_system_keymaste.Enforcement.{Platform}
use platform_system_keymaste.OperationTable.{find}
use platform_system_keymaste.OperationTable.Slots.{HasRoom, add-HasRoom, delete-HasRoom}
use platform_system_keymaste.AndroidKeymaster.{
  success, Operation, Created, Services, Moment, Keymaster,
}
use platform_system_keymaste.AndroidKeymaster.Load.{Loaded, load_key}
use platform_system_keymaste.AndroidKeymaster.Handlers.{
  BeginRequest, run_begin, begin_authorized, begin_under, begin_created, begin_loaded,
  begin_operation, finish_operation, abort_operation,
}
use platform_system_keymaste.AndroidKeymaster.Beginning.{Allowed, request_of}
use platform_system_keymaste.Enforcement.Rules.{Enforcement}
use platform_system_keymaste.Enforcement.Operation.{authorize_operation}
use platform_system_keymaste.AndroidKeymaster.Sequences.{
  Command, begins, updates, finishes, aborts, after,
}

module _ {B K F G : Type 0} (d : Platform) (s : Services B K F G) where
  -- All that a request to begin needs, but for room in the table.
  pub record IsReady (now : Moment) (st : Keymaster B) (r : BeginRequest) : Type 0 where
    pub l : Loaded K F
    pub loaded : load_key s r.key_blob r.additional_params ≡ success l
    pub algorithm : ℕ
    pub has_algorithm : get_tag_value_enum (s.authorizations l.key) Tag.algorithm ≡ some algorithm
    pub factory : G
    pub has_factory : s.operation_factory l.factory r.purpose ≡ some factory
    pub c : Created B
    pub created : s.create_operation factory l.key r.additional_params ≡ success c
    pub begun : (s.begin c.created_body r.additional_params).begun_error ≡ KeymasterError.ok
    pub key_id : ℕ
    pub allowed : Allowed d s now st r l.key key_id
    pub handle : ℕ
    pub has_handle : now.chance.random_handle ≡ some handle
    pub handle_ne : handle ≢ 0

  module _ (now : Moment) (st : Keymaster B) (r : BeginRequest) (y : IsReady now st r)
      (room : HasRoom st.operation_table) where
    run_begin-HasRoom :
        (st' : Keymaster B) (op : Operation B)
        → st'.operation_table ≡ st.operation_table
        → op.body ≡ y.c.created_body
        → ((run_begin d s now st' r y.l.key op).1.error ≡ KeymasterError.ok)
          × ((run_begin d s now st' r y.l.key op).1.op_handle ≡ y.handle)
    unfolding run_begin is_ok
    run_begin-HasRoom st' op t e =
        rw (t, e, y.begun)
          (add-HasRoom now.chance _ 0 y.handle st.operation_table room y.has_handle y.handle_ne)

    begin_authorized-HasRoom :
        (op : Operation B) (policy : Enforcement)
        → op.body ≡ y.c.created_body
        → s.create_key_id r.key_blob ≡ some y.key_id
        → ((authorize_operation d now.context policy
              (request_of d s now r y.l.key y.key_id)
              0
              true).1
            ≡ KeymasterError.ok)
        → let res = begin_authorized d s now st r y.l.key op policy (s.create_key_id r.key_blob) in
          (res.1.error ≡ KeymasterError.ok) × (res.1.op_handle ≡ y.handle)
    unfolding begin_authorized is_ok
    begin_authorized-HasRoom op policy e id ok =
        let answer =
          authorize_operation d now.context policy (request_of d s now r y.l.key y.key_id) 0 true in
        let run =
          run_begin-HasRoom (record st { enforcement = some answer.0 })
            (record op { key_id = y.key_id }) refl e in
        rw (id, ok, begin_authorized) run

    begin_under-HasRoom :
        (op : Operation B) (o : Option Enforcement)
        → op.body ≡ y.c.created_body
        → st.enforcement ≡ o
        → let res = begin_under d s now o st r y.l.key op in
          (res.1.error ≡ KeymasterError.ok) × (res.1.op_handle ≡ y.handle)
    unfolding begin_under
    begin_under-HasRoom op none e q = run_begin-HasRoom st op refl e
    begin_under-HasRoom op (some policy) e q = elim y.allowed [
      | inl n ↦ absurd cc
      | inr (policy', q', id, ok) ↦
          let same : policy' ≡ policy = cc in
          begin_authorized-HasRoom op policy e id (
            subst
              (λ p.
                (authorize_operation d now.context p (request_of d s now r y.l.key y.key_id) 0
                  true).1
                ≡ KeymasterError.ok)
              same ok)
    ]

    -- A request that has all it needs, room in the table included, is answered with OK.
    begin_operation-HasRoom :
        ((begin_operation d s now st r).1.error ≡ KeymasterError.ok)
        × ((begin_operation d s now st r).1.op_handle ≡ y.handle)
    unfolding begin_operation begin_loaded begin_created
    begin_operation-HasRoom =
        rw (y.loaded, begin_operation)
          (rw (y.has_algorithm, begin_loaded)
            (rw (y.has_factory, begin_loaded)
              (rw (y.created, begin_loaded) (begin_under-HasRoom _ st.enforcement refl refl))))

  -- The request ends the operation with this handle.
  abbrev pub EndsOperation : Command → ℕ → Type 0
  EndsOperation (begins r) handle = ⊥
  EndsOperation (updates r) handle = ⊥
  EndsOperation (finishes r) handle = r.op_handle ≡ handle
  EndsOperation (aborts op_handle) handle = op_handle ≡ handle

  after-HasRoom :
      (now : Moment) (st : Keymaster B) (c : Command) (handle : ℕ) (op : Operation B)
      → EndsOperation c handle
      → find handle st.operation_table ≡ some op
      → HasRoom (after d s now st c).operation_table
  unfolding after finish_operation abort_operation
  after-HasRoom now st (begins r) handle op e f = absurd e
  after-HasRoom now st (updates r) handle op e f = absurd e
  after-HasRoom now st (finishes r) handle op e f =
      let f' : find r.op_handle st.operation_table ≡ some op = rw e f in
      rw (f', after, finish_operation) (delete-HasRoom r.op_handle st.operation_table op f')
  after-HasRoom now st (aborts op_handle) handle op e f =
      let f' : find op_handle st.operation_table ≡ some op = rw e f in
      rw (f', after, abort_operation) (delete-HasRoom op_handle st.operation_table op f')

  -- When an operation that was found under its handle is finished or aborted, whatever the answer, the
  -- next request to begin is not turned away for want of room: it is answered with OK and the random
  -- handle if its key is loaded and has an algorithm with a factory for the purpose, the operation is
  -- created and begins without an error, the policy of that state, if there is one, says OK for the
  -- key's id, and the random handle is not 0.
  pub begin-after-end :
      (now now' : Moment) (st : Keymaster B) (c : Command) (handle : ℕ) (op : Operation B)
      (r : BeginRequest) (ready : IsReady now' (after d s now st c) r)
      → EndsOperation c handle
      → find handle st.operation_table ≡ some op
      → let res = begin_operation d s now' (after d s now st c) r in
        (res.1.error ≡ KeymasterError.ok) × (res.1.op_handle ≡ ready.handle)
  begin-after-end now now' st c handle op r ready e f =
      begin_operation-HasRoom now' (after d s now st c) r ready
        (after-HasRoom now st c handle op e f)
