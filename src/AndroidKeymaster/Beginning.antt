-- ===== src/AndroidKeymaster/Beginning.antt =====
-- What stands behind an operation that `BeginOperation` of android_keymaster.cpp has begun.
use platform_system_keymaste.Common.{
  ℕ, ◌≡◌, ◌≢◌, refl, sym, subst, ◌⊎◌, inl, inr, true, List, Option, none, some, arith, Bool-cases,
  Option-cases, ◌==◌, if◌then◌else◌,
}
use platform_system_keymaste.Defs.Tag.{Tag}
use platform_system_keymaste.Defs.Codes.{KeymasterError, is_ok, is_ok-eq, is_ok-ne}
use platform_system_keymaste.AuthorizationSet.{AuthorizationSet, contents}
use platform_system_keymaste.AuthorizationSet.Memory.{reinitialize}
use platform_system_keymaste.AuthorizationSet.Query.{get_tag_value_enum}
use platform_system_keymaste.Enforcement.{Platform}
use platform_system_keymaste.Enforcement.Rules.{Enforcement}
use platform_system_keymaste.Enforcement.Begin.{Request}
use platform_system_keymaste.Enforcement.Operation.{authorize_operation}
use platform_system_keymaste.OperationTable.{find}
use platform_system_keymaste.OperationTable.Handles.{IsValid}
use platform_system_keymaste.OperationTable.Adding.{IsFresh, add-Added}
use platform_system_keymaste.AndroidKeymaster.{
  Answer, success, failure, Operation, Created, Parsed, Services, Moment, Keymaster,
}
use platform_system_keymaste.AndroidKeymaster.Load.{
  check_version_info, Loaded, get_key_factory, load_by, load_parsed, load_key,
}
use platform_system_keymaste.AndroidKeymaster.Handlers.{
  BeginRequest, BeginResponse, begin_error, run_begin, begin_authorized, begin_under, begin_created,
  begin_loaded, begin_operation,
}

pub Answer-cases :
    {A : Type 0} (o : Answer A)
    → ((e : KeymasterError) × (o ≡ failure e)) ⊎ ((a : A) × (o ≡ success a))
Answer-cases (success a) = inr (a, refl)
Answer-cases (failure e) = inl (e, refl)

-- The methods of other classes fail by an error.
pub record IsHonest {B K F G : Type 0} (s : Services B K F G) : Type 0 where
  pub parse_fails :
      (key_blob : List ℕ) (params : AuthorizationSet) (e : KeymasterError)
      → s.parse_key_blob key_blob params ≡ failure e
      → e ≢ KeymasterError.ok
  pub load_fails :
      (f : F) (material : List ℕ) (params hw sw : AuthorizationSet) (e : KeymasterError)
      → s.load_key f material params hw sw ≡ failure e
      → e ≢ KeymasterError.ok
  pub create_fails :
      (g : G) (k : K) (params : AuthorizationSet) (e : KeymasterError)
      → s.create_operation g k params ≡ failure e
      → e ≢ KeymasterError.ok

module _ {B K F G : Type 0} (s : Services B K F G) (honest : IsHonest s) where
  get_key_factory-failure :
      (hw sw : AuthorizationSet) (e : KeymasterError)
      → get_key_factory s hw sw ≡ failure e
      → e ≢ KeymasterError.ok
  unfolding get_key_factory
  get_key_factory-failure hw sw e h = ground arith

  load_by-failure :
      (params : AuthorizationSet) (p : Parsed) (o : Answer F) (e : KeymasterError)
      → ((e' : KeymasterError) → o ≡ failure e' → e' ≢ KeymasterError.ok)
      → load_by s params p o ≡ failure e
      → e ≢ KeymasterError.ok
  unfolding load_by
  load_by-failure params p (failure e') e k h = ground (arith, k e' refl)
  load_by-failure params p (success f) e k h =
      elim (Answer-cases (s.load_key f p.key_material params p.hw_enforced p.sw_enforced)) [
        | inl (e', q) ↦
            ground
              (arith, honest.load_fails f p.key_material params p.hw_enforced p.sw_enforced e' q)
        | inr (key, q) ↦ absurd (ground arith)
      ]

  load_parsed-failure :
      (params : AuthorizationSet) (p : Parsed) (e : KeymasterError)
      → load_parsed s params p ≡ failure e
      → e ≢ KeymasterError.ok
  unfolding load_parsed
  load_parsed-failure params p e h =
      let error = check_version_info s.system_patchlevel p.hw_enforced p.sw_enforced in
      elim (Bool-cases (is_ok error)) [
        | inl good ↦
            load_by-failure params p (get_key_factory s p.hw_enforced p.sw_enforced) e
              (get_key_factory-failure p.hw_enforced p.sw_enforced) (ground arith)
        | inr bad ↦ ground (arith, is_ok-ne error bad)
      ]

  load_key-failure :
      (key_blob : List ℕ) (params : AuthorizationSet) (e : KeymasterError)
      → load_key s key_blob params ≡ failure e
      → e ≢ KeymasterError.ok
  unfolding load_key
  load_key-failure key_blob params e h = elim (Answer-cases (s.parse_key_blob key_blob params)) [
    | inl (e', q) ↦ ground (arith, honest.parse_fails key_blob params e' q)
    | inr (p, q) ↦ load_parsed-failure params p e (ground arith)
  ]

module _ {B : Type 0} where
  -- Nothing has begun, and an error says so; or one operation has, of which P holds.
  abbrev pub Begins : (Operation B → Type 0) → Keymaster B → Keymaster B × BeginResponse → Type 0
  Begins P st res =
      IsValid res.0.operation_table
      × (((res.1.error ≢ KeymasterError.ok)
            × ((j : ℕ) → find j res.0.operation_table ≡ find j st.operation_table))
          ⊎ ((op : Operation B) × P op
              × (res.1.error ≡ KeymasterError.ok)
              × (res.1.op_handle ≢ 0)
              × ((j : ℕ)
                  → find j res.0.operation_table
                    ≡ (if j == res.1.op_handle then some op else find j st.operation_table))))

  refuse-Begins :
      (P : Operation B → Type 0) (st st' : Keymaster B) (e : KeymasterError)
      → st'.operation_table ≡ st.operation_table
      → IsValid st.operation_table
      → e ≢ KeymasterError.ok
      → Begins P st (st', begin_error e)
  refuse-Begins P st st' e t v ne = rw t (v, inl (ne, λ j. refl))

module _ {B K F G : Type 0} (d : Platform) (s : Services B K F G) (now : Moment) where
  run_begin-Begins :
      (P : Operation B → Type 0) (st st' : Keymaster B) (r : BeginRequest) (key : K)
      (op : Operation B)
      → st'.operation_table ≡ st.operation_table
      → IsValid st.operation_table
      → IsFresh now.chance st.operation_table
      → now.chance.ssl_error ≢ KeymasterError.ok
      → ((b : B) (auths : AuthorizationSet) → P (record op { body = b; key_auths = auths }))
      → Begins P st (run_begin d s now st' r key op)
  unfolding run_begin
  run_begin-Begins P st st' r key op t v fresh not_ok p =
      let b = s.begin op.body r.additional_params in
      let auths = (reinitialize now.heap (contents (s.authorizations key)) op.key_auths).0 in
      let op' : Operation B = record op { body = b.begun_body; key_auths = auths } in
      let (v', added) = add-Added now.chance op' 0 st.operation_table v fresh not_ok in
      elim (Bool-cases (is_ok b.begun_error)) [
        | inl good ↦
            rw (t, good, run_begin)
              (
                v',
                elim added [
                  | inl (k, hz, f) ↦ inr (op', p b.begun_body auths, k, hz, f)
                  | inr (k, f) ↦ inl (k, f)
                ],
              )
        | inr bad ↦ rw (t, bad, run_begin) (v, inl (is_ok-ne b.begun_error bad, λ j. refl))
      ]

module _ {B K F G : Type 0} (d : Platform) (s : Services B K F G) (now : Moment) where
  abbrev pub request_of : BeginRequest → K → ℕ → Request
  request_of r key key_id = record {
    purpose = r.purpose;
    keyid = key_id;
    auth_set = s.authorizations key;
    operation_params = r.additional_params;
  }

  -- Without a policy anything is allowed; with one, it says OK for the key's id.
  abbrev pub Allowed : Keymaster B → BeginRequest → K → ℕ → Type 0
  Allowed st r key key_id =
      (st.enforcement ≡ none)
      ⊎ ((policy : Enforcement) × (st.enforcement ≡ some policy)
          × (s.create_key_id r.key_blob ≡ some key_id)
          × ((authorize_operation d now.context policy (request_of r key key_id) 0 true).1
              ≡ KeymasterError.ok))

  -- The operation was made by the key's factory for the request's purpose.
  abbrev pub IsMade : BeginRequest → Loaded K F → Operation B → Type 0
  IsMade r l op =
      (g : G) × (c : Created B) × (s.operation_factory l.factory r.purpose ≡ some g)
      × (s.create_operation g l.key r.additional_params ≡ success c)
      × (op.purpose ≡ c.created_purpose)

  -- The request's key was loaded, the operation made for it, and its policy allows the operation.
  abbrev pub IsGranted : Keymaster B → BeginRequest → Operation B → Type 0
  IsGranted st r op =
      (l : Loaded K F) × (load_key s r.key_blob r.additional_params ≡ success l)
      × IsMade r l op
      × Allowed st r l.key op.key_id

  module _ (st : Keymaster B) (r : BeginRequest) (v : IsValid st.operation_table)
      (fresh : IsFresh now.chance st.operation_table)
      (not_ok : now.chance.ssl_error ≢ KeymasterError.ok) (l : Loaded K F)
      (loaded : load_key s r.key_blob r.additional_params ≡ success l) where
    begin_authorized-Begins :
        (op : Operation B) (policy : Enforcement) (id : Option ℕ)
        → IsMade r l op
        → st.enforcement ≡ some policy
        → s.create_key_id r.key_blob ≡ id
        → Begins (IsGranted st r) st (begin_authorized d s now st r l.key op policy id)
    unfolding begin_authorized
    begin_authorized-Begins op policy none made e q =
        refuse-Begins (IsGranted st r) st st _ refl v cc
    begin_authorized-Begins op policy (some key_id) made e q =
        let answer = authorize_operation d now.context policy (request_of r l.key key_id) 0 true in
        elim (Bool-cases (is_ok answer.1)) [
          | inl good ↦
              subst (Begins (IsGranted st r) st)
                (sym (
                  let eq : begin_authorized d s now st r l.key op policy (some key_id)
                      ≡ run_begin d s now (record st { enforcement = some answer.0 }) r l.key
                          (record op { key_id = key_id }) =
                    rw (good, begin_authorized) refl in
                  eq))
                (run_begin-Begins d s now (IsGranted st r) st
                  (record st { enforcement = some answer.0 }) r l.key
                  (record op { key_id = key_id }) refl v fresh not_ok
                  (λ b auths. (l, loaded, made, inr (policy, e, q, is_ok-eq answer.1 good))))
          | inr bad ↦
              subst (Begins (IsGranted st r) st)
                (sym (
                  let eq : begin_authorized d s now st r l.key op policy (some key_id)
                      ≡ (record st { enforcement = some answer.0 }, begin_error answer.1) =
                    rw (bad, begin_authorized) refl in
                  eq))
                (refuse-Begins (IsGranted st r) st (record st { enforcement = some answer.0 })
                  answer.1 refl v (is_ok-ne answer.1 bad))
        ]

    begin_under-Begins :
        (o : Option Enforcement) (op : Operation B)
        → IsMade r l op
        → st.enforcement ≡ o
        → Begins (IsGranted st r) st (begin_under d s now o st r l.key op)
    unfolding begin_under
    begin_under-Begins none op made q =
        run_begin-Begins d s now (IsGranted st r) st st r l.key op refl v fresh not_ok
          (λ b auths. (l, loaded, made, inl q))
    begin_under-Begins (some policy) op made q =
        begin_authorized-Begins op policy (s.create_key_id r.key_blob) made q refl

    begin_created-Begins :
        (g : G) (c : Created B)
        → s.operation_factory l.factory r.purpose ≡ some g
        → s.create_operation g l.key r.additional_params ≡ success c
        → Begins (IsGranted st r) st (begin_created d s now st r l.key c)
    unfolding begin_created
    begin_created-Begins g c q q' = begin_under-Begins st.enforcement _ (g, c, q, q', refl) refl

    begin_loaded-Begins : IsHonest s → Begins (IsGranted st r) st (begin_loaded d s now st r l)
    unfolding begin_loaded
    begin_loaded-Begins honest =
        elim (Option-cases (get_tag_value_enum (s.authorizations l.key) Tag.algorithm)) [
          | inl q ↦ rw (q, begin_loaded) (refuse-Begins (IsGranted st r) st st _ refl v cc)
          | inr (algorithm, q) ↦ elim (Option-cases (s.operation_factory l.factory r.purpose)) [
            | inl q' ↦ rw (q, q', begin_loaded) (refuse-Begins (IsGranted st r) st st _ refl v cc)
            | inr (g, q') ↦ elim (Answer-cases (s.create_operation g l.key r.additional_params)) [
              | inl (e, q'') ↦
                  rw (q, q', q'', begin_loaded)
                    (refuse-Begins (IsGranted st r) st st e refl v
                      (honest.create_fails g l.key r.additional_params e q''))
              | inr (c, q'') ↦ rw (q, q', q'', begin_loaded) (begin_created-Begins g c q' q'')
            ]
          ]
        ]

  -- BeginOperation either says an error, and no operation comes or goes, or says OK: then the key was
  -- loaded, its factory for the request's purpose made the operation, the policy, if there is one, said
  -- OK to the request's purpose for the key's id, which the operation has, and one operation more stands
  -- in the table, under the handle of the response, which is not 0. The table stays well formed. It is assumed that the table was so before, that the methods of other classes fail by
  -- errors, that the error OpenSSL's is translated to is not OK, and that the random handle is that of
  -- no operation.
  pub begin_operation-Begins :
      (st : Keymaster B) (r : BeginRequest)
      → IsHonest s
      → IsValid st.operation_table
      → IsFresh now.chance st.operation_table
      → now.chance.ssl_error ≢ KeymasterError.ok
      → Begins (IsGranted st r) st (begin_operation d s now st r)
  unfolding begin_operation
  begin_operation-Begins st r honest v fresh not_ok =
      elim (Answer-cases (load_key s r.key_blob r.additional_params)) [
        | inl (e, q) ↦
            subst (Begins (IsGranted st r) st)
              (sym (
                let eq : begin_operation d s now st r ≡ (st, begin_error e) =
                  rw (q, begin_operation) refl in
                eq))
              (refuse-Begins (IsGranted st r) st st e refl v
                (load_key-failure s honest r.key_blob r.additional_params e q))
        | inr (l, q) ↦
            subst (Begins (IsGranted st r) st)
              (sym (
                let eq : begin_operation d s now st r ≡ begin_loaded d s now st r l =
                  rw (q, begin_operation) refl in
                eq))
              (begin_loaded-Begins st r v fresh not_ok l q honest)
      ]
