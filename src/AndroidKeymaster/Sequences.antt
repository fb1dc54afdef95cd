-- ===== src/AndroidKeymaster/Sequences.antt =====
-- Sequences of requests to the handlers of android_keymaster.cpp that are about operations.
use platform_system_keymaste.Common.{
  ℕ, ◌≡◌, ◌≢◌, sym, ◌∙◌, ◌⊎◌, inl, inr, Option, none, some, arith, Bool-cases, subst, ◌==◌,
  if◌then◌else◌,
}
use platform_system_keymaste.Defs.Codes.{KeymasterError, Purpose}
use platform_system_keymaste.Enforcement.{Platform}
use platform_system_keymaste.OperationTable.{OperationTable, find}
use platform_system_keymaste.OperationTable.Handles.{IsValid}
use platform_system_keymaste.OperationTable.Adding.{IsFresh}
use platform_system_keymaste.AndroidKeymaster.{
  success, Operation, Created, Services, Moment, Keymaster,
}
use platform_system_keymaste.AuthorizationSet.{AuthorizationSet}
use platform_system_keymaste.AndroidKeymaster.Handlers.{
  BeginRequest, UpdateRequest, FinishRequest, begin_operation, update_operation, finish_operation,
  abort_operation,
}
use platform_system_keymaste.AndroidKeymaster.Beginning.{
  IsHonest, IsGranted, begin_operation-Begins,
}
use platform_system_keymaste.AndroidKeymaster.Lifecycle.{
  Ends, update_operation-GoesOn, finish_operation-Ends, abort_operation-Ends,
}

pub data Command : Type 0 where
  begins : BeginRequest → Command
  updates : UpdateRequest → Command
  finishes : FinishRequest → Command
  aborts : ℕ → Command

module _ {O : Type 0} where
  -- What is found where one handle has changed.
  found_else :
      (handle j : ℕ) (new : Option O) (t t' : OperationTable O) {op : O}
      → find j t' ≡ (if j == handle then new else find j t)
      → find j t' ≡ some op
      → ((j ≡ handle) × (new ≡ some op)) ⊎ (find j t ≡ some op)
  found_else handle j new t t' e f = elim (Bool-cases (j == handle)) [
    | inl same ↦ inl (ground arith, ground arith)
    | inr other ↦ inr (ground arith)
  ]

module _ {B K F G : Type 0} (d : Platform) (s : Services B K F G) where
  -- The state after a request.
  unfoldable pub after : Moment → Keymaster B → Command → Keymaster B
  after now st (begins r) = (begin_operation d s now st r).0
  after now st (updates r) = (update_operation d s now st r).0
  after now st (finishes r) = (finish_operation d s now st r).0
  after now st (aborts op_handle) = (abort_operation d s now st op_handle).0

  -- A random handle is that of no operation, and OpenSSL's error is translated to an error.
  abbrev pub IsUsual : Moment → Keymaster B → Type 0
  IsUsual now st =
      IsFresh now.chance st.operation_table × (now.chance.ssl_error ≢ KeymasterError.ok)

  -- The states that requests lead to.
  pub data Reaches (start : Keymaster B) : Keymaster B → Type 0 where
    stays : Reaches start start
    goes :
        {st : Keymaster B} (now : Moment) (c : Command)
        → Reaches start st
        → IsUsual now st
        → Reaches start (after now st c)

  -- The request in this state was answered OK, with the handle, and its key was loaded and allowed,
  -- for the purpose and the key of the operation.
  abbrev pub IsBegun : ℕ → Operation B → Moment → Keymaster B → Command → Type 0
  IsBegun j op now st (begins r) =
      let res = (begin_operation d s now st r).1 in
      (res.error ≡ KeymasterError.ok)
      × (res.op_handle ≡ j)
      × (op.purpose ≡ r.purpose)
      × IsGranted d s now st r op
  IsBegun j op now st _ = ⊥

  -- One of the requests that led to the state is the one that has begun the operation.
  abbrev pub WasGranted : {start st : Keymaster B} → Reaches start st → ℕ → Operation B → Type 0
  WasGranted stays j op = ⊥
  WasGranted (goes {st} now c p u) j op = IsBegun j op now st c ⊎ WasGranted p j op

  abbrev AllGranted : {start st : Keymaster B} → Reaches start st → Type 0
  AllGranted {start} {st} p =
      IsValid st.operation_table
      × ((j : ℕ) (op : Operation B) → find j st.operation_table ≡ some op → WasGranted p j op)

  -- What was granted to an operation does not depend on what its subclass keeps.
  WasGranted-body :
      {start st : Keymaster B} (p : Reaches start st) (j : ℕ) (op : Operation B) (body : B)
      → WasGranted p j op
      → WasGranted p j (record op { body = body })
  WasGranted-body stays j op body w = absurd w
  WasGranted-body (goes now (begins r) p u) j op body (inl w) = inl w
  WasGranted-body (goes now (updates r) p u) j op body (inl w) = absurd w
  WasGranted-body (goes now (finishes r) p u) j op body (inl w) = absurd w
  WasGranted-body (goes now (aborts op_handle) p u) j op body (inl w) = absurd w
  WasGranted-body (goes now c p u) j op body (inr w) = inr (WasGranted-body p j op body w)

  -- An operation has the purpose of the factory that makes it.
  abbrev pub KeepsPurpose : Type 0
  KeepsPurpose =
      (f : F) (purpose : Purpose) (g : G) (key : K) (params : AuthorizationSet) (c : Created B)
      → s.operation_factory f purpose ≡ some g
      → s.create_operation g key params ≡ success c
      → c.created_purpose ≡ purpose

  module _ (honest : IsHonest s) (keeps : KeepsPurpose) (start st : Keymaster B) (now : Moment)
      (p : Reaches start st) (u : IsUsual now st) (h : AllGranted p) where
    ended-AllGranted :
        (c : Command) (handle : ℕ)
        → Ends handle st.operation_table (after now st c).operation_table
        → AllGranted (goes now c p u)
    ended-AllGranted c handle e = (
      e.1,
      λ j op f.
          elim (found_else handle j none st.operation_table (after now st c).operation_table (e.0 j)
            f) [ inl q ↦ absurd cc | inr q ↦ inr (h.1 j op q) ],
    )

    begun-AllGranted : (r : BeginRequest) → AllGranted (goes now (begins r) p u)
    unfolding after
    begun-AllGranted r =
        let (v, w) = begin_operation-Begins d s now st r honest h.0 u.0 u.1 in
        (
          v,
          λ j op f. elim w [
            | inl (e, same) ↦ inr (h.1 j op (sym (same j) ∙ f))
            | inr (op', (l, loaded, (g, c, made, created, eq), allowed), e, nz, changed) ↦
                elim (found_else _ j (some op') st.operation_table _ (changed j) f) [
                  | inl (at, q) ↦
                      let same : op' ≡ op = cc in
                      let kept =
                        keeps l.factory r.purpose g l.key r.additional_params c made created in
                      subst (λ o. WasGranted (goes now (begins r) p u) j o) same
                        (inl
                          (e, sym at, eq ∙ kept, (l, loaded, (g, c, made, created, eq), allowed)))
                  | inr q ↦ inr (h.1 j op q)
                ]
          ],
        )

    updated-AllGranted : (r : UpdateRequest) → AllGranted (goes now (updates r) p u)
    unfolding after
    updated-AllGranted r =
        let (v, w) = update_operation-GoesOn d s now st r h.0 in
        (
          v,
          λ j op f. elim w [
            | inl (e, changed) ↦
                elim (found_else r.op_handle j none st.operation_table _ (changed j) f) [
                  | inl q ↦ absurd cc
                  | inr q ↦ inr (h.1 j op q)
                ]
            | inr (op', e, was, permitted, changed) ↦
                let body = (s.update op'.body r.additional_params r.input).updated_body in
                elim (found_else r.op_handle j (some (record op' { body = body }))
                  st.operation_table _ (changed j) f) [
                    | inl (at, q) ↦
                        let same : record op' { body = body } ≡ op = cc in
                        let found : find j st.operation_table ≡ some op' = cc in
                        inr (
                          subst (WasGranted p j) same
                            (WasGranted-body p j op' body (h.1 j op' found)))
                    | inr q ↦ inr (h.1 j op q)
                  ]
          ],
        )

    after-AllGranted : (c : Command) → AllGranted (goes now c p u)
    unfolding after
    after-AllGranted (begins r) = begun-AllGranted r
    after-AllGranted (updates r) = updated-AllGranted r
    after-AllGranted (finishes r) =
        ended-AllGranted (finishes r) r.op_handle (finish_operation-Ends d s now st r h.0)
    after-AllGranted (aborts op_handle) =
        ended-AllGranted (aborts op_handle) op_handle
          (abort_operation-Ends d s now st op_handle h.0)

  -- After any sequence of requests to begin, update, finish and abort operations, from a state with a
  -- well-formed table in which no operation is found, the table is well formed, and every operation
  -- found in it under a handle was begun by one of these requests: BeginOperation answered it OK with
  -- this handle, its purpose is the operation's, its key could be loaded, and the policy that there was
  -- in the state before it, if any, said OK to this purpose for the key's id, which the operation has.
  -- It is assumed that the methods of other classes fail by errors, that a factory makes operations of
  -- the purpose that it was asked for, and at each request that the error OpenSSL's is translated to is
  -- not OK, and that the random handle is that of no operation.
  pub reached-granted :
      (start st : Keymaster B)
      → IsHonest s
      → KeepsPurpose
      → IsValid start.operation_table
      → ((j : ℕ) → find j start.operation_table ≡ none)
      → (p : Reaches start st)
      → IsValid st.operation_table
        × ((j : ℕ) (op : Operation B) → find j st.operation_table ≡ some op → WasGranted p j op)
  reached-granted start _ honest keeps v empty stays =
      (v, λ j op f. absurd (ground (arith, empty j)))
  reached-granted start _ honest keeps v empty (goes {st} now c p u) =
      after-AllGranted honest keeps start st now p u
        (reached-granted start st honest keeps v empty p) c
