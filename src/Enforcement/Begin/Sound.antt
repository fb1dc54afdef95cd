-- ===== src/Enforcement/Begin/Sound.antt =====
-- What a key and a request have in common when `AuthorizeBegin` of keymaster_enforcement.cpp says OK.
use platform_system_keymaste.Common.{
  ℕ, ◌≡◌, ◌∙◌, ◌⊎◌, inl, inr, true, false, not, ◌&&◌, List, [], ◌∷◌, none, some, arith, All,
  get_elem?, Bool-cases,
}
use platform_system_keymaste.Defs.Tag.{Tag}
use platform_system_keymaste.Defs.Codes.{KeymasterError, is_ok, is_ok-ne, Purpose}
use platform_system_keymaste.AuthorizationSet.{Elem, enumerated_of}
use platform_system_keymaste.AuthorizationSet.Query.{find, contains_enum_value}
use platform_system_keymaste.AuthorizationSet.Lookup.{any_value_lem}
use platform_system_keymaste.Enforcement.{Platform, Context}
use platform_system_keymaste.Enforcement.Rules.{
  Enforcement, Rule, activation, origination_expiry, usage_expiry, min_seconds, max_uses, secure_id,
  nonce_allowed, forbidden, unchecked, rule_of, Checks, initial_checks, proceed, refuse,
  is_origination_purpose, authorized_purpose, Outcome-cases,
}
use platform_system_keymaste.Enforcement.Begin.{
  Request, check_rule, check_all, conclude, enter_use, check_and_enter, authorize_begin,
}
use platform_system_keymaste.Enforcement.Begin.Rounds.{
  any_elem, Passes, has_timeout, secure_entry, matched_entry, nonce_entry, check_all-Loop,
}

module _ (d : Platform) (context : Context) (st : Enforcement) (r : Request) where
  -- What a key demands of an operation that begins, and of the token that comes with it.
  pub record Authorized : Type 0 where
    pub purpose :
        (k : ℕ) × (e : Elem) × (get_elem? r.auth_set.elems k ≡ some e)
        × (e.tag ≡ Tag.purpose)
        × (enumerated_of e.value ≡ d.purpose_code r.purpose)
    pub passes : All (λ e. Passes d context st r (rule_of e.tag) e) r.auth_set.elems
    pub authenticated :
        ((has_timeout d context st r && any_elem (secure_entry d context st r) r.auth_set.elems)
          ≡ false)
        ⊎ (any_elem (matched_entry d context st r) r.auth_set.elems ≡ true)
    pub nonce :
        (is_origination_purpose r.purpose ≡ false)
        ⊎ (find r.operation_params Tag.nonce none ≡ none)
        ⊎ (any_elem (nonce_entry d context st r) r.auth_set.elems ≡ true)

  contains_purpose_ok :
      is_ok (authorized_purpose d r.purpose r.auth_set) ≡ true
      → contains_enum_value r.auth_set Tag.purpose (d.purpose_code r.purpose) ≡ true
  unfolding authorized_purpose is_ok
  contains_purpose_ok h = go r.purpose h
    where
      go :
          (p : Purpose)
          → is_ok (authorized_purpose d p r.auth_set) ≡ true
          → contains_enum_value r.auth_set Tag.purpose (d.purpose_code p) ≡ true
      go Purpose.encrypt h = ground arith
      go _ h = ground arith

  pub conclude_ok :
      (c : Checks)
      → (conclude d context st r c).1 ≡ KeymasterError.ok
      → ((c.authentication_required && not c.auth_token_matched) ≡ false)
        × ((c.caller_nonce_authorized_by_key ≡ true)
            ⊎ (is_origination_purpose r.purpose ≡ false)
            ⊎ (find r.operation_params Tag.nonce none ≡ none))
        × (conclude d context st r c ≡ enter_use d context st r c)
  unfolding conclude
  conclude_ok c h = (ground arith, ground arith, ground arith)

  check_rule-refuse :
      (rule : Rule) (e : Elem) (c : Checks) (error : KeymasterError)
      → check_rule d context st r rule e c ≡ refuse error
      → is_ok error ≡ false
  unfolding check_rule is_ok
  check_rule-refuse activation e c error h = ground arith
  check_rule-refuse origination_expiry e c error h = ground arith
  check_rule-refuse usage_expiry e c error h = ground arith
  check_rule-refuse min_seconds e c error h = ground arith
  check_rule-refuse max_uses e c error h = ground arith
  check_rule-refuse secure_id e c error h = ground arith
  check_rule-refuse nonce_allowed e c error h = cc
  check_rule-refuse forbidden e c error h = ground arith
  check_rule-refuse unchecked e c error h = cc

  pub check_all-refuse :
      (es : List Elem) (c : Checks) (error : KeymasterError)
      → check_all d context st r es c ≡ refuse error
      → is_ok error ≡ false
  unfolding check_all
  check_all-refuse [] c error h = cc
  check_all-refuse (e ∷ es) c error h =
      elim (Outcome-cases (check_rule d context st r (rule_of e.tag) e c)) [
        | inl (error', q) ↦ check_rule-refuse (rule_of e.tag) e c error (q ∙ ground arith)
        | inr (c', q) ↦ check_all-refuse es c' error (ground arith)
      ]

  purpose_ok :
      (authorize_begin d context st r).1 ≡ KeymasterError.ok
      → is_ok (authorized_purpose d r.purpose r.auth_set) ≡ true
  unfolding authorize_begin
  purpose_ok h = elim (Bool-cases (is_ok (authorized_purpose d r.purpose r.auth_set))) [
    | inl good ↦ good
    | inr bad ↦ absurd (is_ok-ne _ bad (ground arith))
  ]

  -- A call that says OK went through the loop, and entered the use.
  pub begin_inversion :
      (authorize_begin d context st r).1 ≡ KeymasterError.ok
      → (c : Checks) × (check_all d context st r r.auth_set.elems initial_checks ≡ proceed c)
        × (authorize_begin d context st r ≡ conclude d context st r c)
  unfolding authorize_begin check_and_enter
  begin_inversion h =
      let p = purpose_ok h in
      elim (Outcome-cases (check_all d context st r r.auth_set.elems initial_checks)) [
        | inl (error, q) ↦ absurd (
            is_ok-ne error (check_all-refuse r.auth_set.elems initial_checks error q)
              (ground arith))
        | inr (c, q) ↦ (c, q, ground arith)
      ]

  -- `AuthorizeBegin` says OK only if the key lists the purpose, each of its parameters permits the
  -- operation, a token matches one of its secure ids where it has an authentication timeout and a
  -- secure id, and the caller gives no nonce to an encryption or signature unless the key allows it.
  pub authorize_begin-Authorized :
      (authorize_begin d context st r).1 ≡ KeymasterError.ok → Authorized
  authorize_begin-Authorized h =
      let (c, q, k) = begin_inversion h in
      let loop = check_all-Loop d context st r r.auth_set.elems initial_checks c q in
      let (auth, nonce, _) = conclude_ok c (ground (arith, k)) in
      record {
        purpose =
            any_value_lem (λ v. enumerated_of v) Tag.purpose (d.purpose_code r.purpose)
              r.auth_set.elems (unfold contains_enum_value in contains_purpose_ok (purpose_ok h));
        passes = loop.passes;
        authenticated = ground (arith, loop.required, loop.matched, auth);
        nonce = ground (arith, loop.nonce, nonce);
      }
