-- ===== src/AndroidKeymaster/Lifecycle.antt =====
-- How operations begin, go on and end by the handlers of android_keymaster.cpp.
use platform_system_keymaste.Common.{
  ℕ, ◌≡◌, ◌≢◌, refl, sym, subst, ◌⊎◌, inl, inr, true, false, none, some, arith, Bool-cases,
  Option-cases, ◌==◌, if◌then◌else◌,
}
use platform_system_keymaste.Defs.Codes.{KeymasterError, is_ok, is_ok-eq, is_ok-ne}
use platform_system_keymaste.AuthorizationSet.{AuthorizationSet}
use platform_system_keymaste.AuthorizationSet.Memory.{copied}
use platform_system_keymaste.Enforcement.{Platform}
use platform_system_keymaste.Enforcement.Rules.{Enforcement}
use platform_system_keymaste.Enforcement.Operation.{authorize_operation}
use platform_system_keymaste.OperationTable.{OperationTable, find, put, delete}
use platform_system_keymaste.OperationTable.Handles.{IsValid, find-delete, find-put}
use platform_system_keymaste.AndroidKeymaster.{Operation, Services, Moment, Keymaster}
use platform_system_keymaste.AndroidKeymaster.Handlers.{
  UpdateRequest, UpdateResponse, FinishRequest, authorize_next, run_update, update_operation,
  finish_operation, abort_operation,
}

module _ {B : Type 0} where
  -- The table has lost the operation with the handle, and kept the others.
  abbrev pub Ends : ℕ → OperationTable (Operation B) → OperationTable (Operation B) → Type 0
  Ends handle t t' = ((j : ℕ) → find j t' ≡ (if j == handle then none else find j t)) × IsValid t'

  delete-Ends :
      (handle : ℕ) (t : OperationTable (Operation B))
      → handle ≢ 0
      → IsValid t
      → Ends handle t (delete handle t).0
  delete-Ends handle t hz v =
      (λ j. (find-delete handle j t hz v).0, (find-delete handle handle t hz v).1)

  found-ne :
      (handle : ℕ) (t : OperationTable (Operation B)) (op : Operation B)
      → find handle t ≡ some op
      → handle ≢ 0
  unfolding find
  found-ne handle t op h = ground arith

  missing-Ends :
      (handle : ℕ) (t : OperationTable (Operation B))
      → find handle t ≡ none
      → IsValid t
      → Ends handle t t
  missing-Ends handle t h v = (λ j. ground (arith, h), v)

module _ {B K F G : Type 0} (d : Platform) (s : Services B K F G) (now : Moment) where
  -- After FinishOperation on a well-formed table no operation has the handle, whatever it answers; all
  -- others are as before, and the table is well formed.
  pub finish_operation-Ends :
      (st : Keymaster B) (r : FinishRequest)
      → IsValid st.operation_table
      → Ends r.op_handle st.operation_table (finish_operation d s now st r).0.operation_table
  unfolding finish_operation
  finish_operation-Ends st r v = elim (Option-cases (find r.op_handle st.operation_table)) [
    | inl q ↦ rw (q, finish_operation) (missing-Ends r.op_handle st.operation_table q v)
    | inr (op, q) ↦
        rw (q, finish_operation)
          (delete-Ends r.op_handle st.operation_table (found-ne r.op_handle st.operation_table op q)
            v)
  ]

  -- After AbortOperation on a well-formed table no operation has the handle, whatever it answers; all
  -- others are as before, and the table is well formed.
  pub abort_operation-Ends :
      (st : Keymaster B) (op_handle : ℕ)
      → IsValid st.operation_table
      → Ends op_handle st.operation_table (abort_operation d s now st op_handle).0.operation_table
  unfolding abort_operation
  abort_operation-Ends st handle v = elim (Option-cases (find handle st.operation_table)) [
    | inl q ↦ rw (q, abort_operation) (missing-Ends handle st.operation_table q v)
    | inr (op, q) ↦
        rw (q, abort_operation)
          (delete-Ends handle st.operation_table (found-ne handle st.operation_table op q) v)
  ]

module _ {B K F G : Type 0} (d : Platform) (s : Services B K F G) (now : Moment) where
  -- The policy, if there is one, says OK to an update or a finish under the handle: for the operation's
  -- purpose and key, by a copy of its authorizations.
  abbrev pub Permitted : Keymaster B → Operation B → AuthorizationSet → ℕ → Type 0
  Permitted st op params handle =
      (st.enforcement ≡ none)
      ⊎ ((policy : Enforcement) × (st.enforcement ≡ some policy)
          × ((authorize_operation d now.context policy
                (record {
                  purpose = op.purpose;
                  keyid = op.key_id;
                  auth_set = copied now.heap op.key_auths;
                  operation_params = params;
                })
                handle false).1
              ≡ KeymasterError.ok))

  authorize_next-Permitted :
      (st : Keymaster B) (op : Operation B) (params : AuthorizationSet) (handle : ℕ)
      → (authorize_next d s now st.enforcement op params handle).1 ≡ KeymasterError.ok
      → Permitted st op params handle
  unfolding authorize_next
  authorize_next-Permitted st op params handle h = elim (Option-cases st.enforcement) [
    | inl q ↦ inl q
    | inr (policy, q) ↦ inr (
      policy,
      q,
      subst (λ o. (authorize_next d s now o op params handle).1 ≡ KeymasterError.ok) q h,
    )
  ]

  -- What an update may do to the table, and the error that it answers with.
  abbrev pub GoesOn : Keymaster B → UpdateRequest → Keymaster B × UpdateResponse → Type 0
  GoesOn st r res =
      IsValid res.0.operation_table
      × (((res.1.error ≢ KeymasterError.ok)
            × ((j : ℕ)
                → find j res.0.operation_table
                  ≡ (if j == r.op_handle then none else find j st.operation_table)))
          ⊎ ((op : Operation B) × (res.1.error ≡ KeymasterError.ok)
              × (find r.op_handle st.operation_table ≡ some op)
              × Permitted st op r.additional_params r.op_handle
              × ((j : ℕ)
                  → find j res.0.operation_table ≡ (
                      if j == r.op_handle
                      then some (record op {
                        body = (s.update op.body r.additional_params r.input).updated_body;
                      })
                      else find j st.operation_table))))

  run_update-GoesOn :
      (st st' : Keymaster B) (r : UpdateRequest) (op : Operation B)
      → st'.operation_table ≡ st.operation_table
      → find r.op_handle st.operation_table ≡ some op
      → Permitted st op r.additional_params r.op_handle
      → IsValid st.operation_table
      → GoesOn st r (run_update d s now st' r op)
  unfolding run_update is_ok
  run_update-GoesOn st st' r op t q permitted v =
      let u = s.update op.body r.additional_params r.input in
      let op' : Operation B = record op { body = u.updated_body } in
      let kept = λ (j : ℕ). find-put r.op_handle j op' op st.operation_table q v in
      let v' = (kept 0).1 in
      let gone =
        delete-Ends r.op_handle (put r.op_handle op' st.operation_table)
          (found-ne r.op_handle st.operation_table op q) v' in
      elim (Bool-cases (is_ok u.updated_error)) [
        | inl good ↦
            rw (t, good, run_update)
              (v', inr (op, is_ok-eq u.updated_error good, q, permitted, λ j. (kept j).0))
        | inr bad ↦
            rw (t, bad, run_update)
              (
                gone.1,
                inl (is_ok-ne u.updated_error bad, λ j. ground (arith, gone.0 j, (kept j).0)),
              )
      ]

  -- The two ways of an update whose operation is found.
  update_authorized :
      (st : Keymaster B) (r : UpdateRequest) (op : Operation B)
      → find r.op_handle st.operation_table ≡ some op
      → let answer = authorize_next d s now st.enforcement op r.additional_params r.op_handle in
        is_ok answer.1 ≡ true
        → update_operation d s now st r
          ≡ run_update d s now
              (record st {
                enforcement =
                    (authorize_next d s now st.enforcement op r.additional_params r.op_handle).0;
              })
              r
              op
  unfolding update_operation
  update_authorized st r op q good = rw (q, good, update_operation) refl

  update_denied :
      (st : Keymaster B) (r : UpdateRequest) (op : Operation B)
      → find r.op_handle st.operation_table ≡ some op
      → let answer = authorize_next d s now st.enforcement op r.additional_params r.op_handle in
        is_ok answer.1 ≡ false
        → ((update_operation d s now st r).0.operation_table
            ≡ (delete r.op_handle st.operation_table).0)
          × ((update_operation d s now st r).1.error ≡ answer.1)
  unfolding update_operation
  update_denied st r op q bad = rw (q, bad, update_operation) (refl, refl)

  -- On a well-formed table UpdateOperation either answers an error, and then no operation has the
  -- handle any more, or answers OK. Then an operation had the handle, and the policy, if there is one,
  -- said OK to the update, asked about the operation's purpose and key and about a copy of its
  -- authorizations, which is empty if no memory was had for it. The operation stands under its handle as
  -- its subclass has updated it, its purpose, key and authorizations as before. In both cases all other
  -- operations are as before, and the table is well formed.
  pub update_operation-GoesOn :
      (st : Keymaster B) (r : UpdateRequest)
      → IsValid st.operation_table
      → GoesOn st r (update_operation d s now st r)
  unfolding update_operation
  update_operation-GoesOn st r v = elim (Option-cases (find r.op_handle st.operation_table)) [
    | inl q ↦
        rw (q, update_operation) (v, inl (cc, (missing-Ends r.op_handle st.operation_table q v).0))
    | inr (op, q) ↦
        let answer = authorize_next d s now st.enforcement op r.additional_params r.op_handle in
        elim (Bool-cases (is_ok answer.1)) [
          | inl good ↦ subst (GoesOn st r) (sym (update_authorized st r op q good)) (
              run_update-GoesOn st (record st { enforcement = answer.0 }) r op refl q
                (authorize_next-Permitted st op r.additional_params r.op_handle
                  (is_ok-eq answer.1 good))
                v)
          | inr bad ↦
              let (t, e) = update_denied st r op q bad in
              let gone =
                delete-Ends r.op_handle st.operation_table
                  (found-ne r.op_handle st.operation_table op q) v in
              rw (t, e) (gone.1, inl (is_ok-ne answer.1 bad, gone.0))
        ]
  ]
