-- ===== src/Enforcement/Begin/Rounds.antt =====
-- What the loop of `AuthorizeBegin` of keymaster_enforcement.cpp demands of each parameter of a key,
-- and how it sets its variables.
use platform_system_keymaste.Common.{
  ℕ, ◌+◌, ◌≤◌, ◌<◌, ◌≡◌, refl, ◌⊎◌, inl, inr, Bool, true, false, not, ◌&&◌, ◌||◌, List, [], ◌∷◌,
  Option, none, some, arith, All, Option-cases,
}
use platform_system_keymaste.AuthorizationSet.{Elem, integer_of, long_integer_of, date_time_of}
use platform_system_keymaste.Enforcement.{Platform, Context}
use platform_system_keymaste.Enforcement.AccessTime.{AccessTimeMap, last_key_access_time}
use platform_system_keymaste.Enforcement.AccessCount.{AccessCountMap, key_access_count}
use platform_system_keymaste.Enforcement.Token.{auth_token_matches}
use platform_system_keymaste.Enforcement.Rules.{
  Enforcement, Rule, activation, origination_expiry, usage_expiry, min_seconds, max_uses, secure_id,
  nonce_allowed, forbidden, unchecked, rule_of, Checks, proceed, is_origination_purpose,
  is_usage_purpose, min_time_between_ops_passed, max_uses_per_boot_not_exceeded, Outcome-cases,
}
use platform_system_keymaste.Enforcement.Begin.{
  Request, indices_of, check_secure_id, check_rule, check_all, is_none,
}

-- Some entry passes the test.
unfoldable pub any_elem : (Elem → Bool) → List Elem → Bool
any_elem f [] = false
any_elem f (e ∷ es) = f e || any_elem f es

abbrev pub is_secure_id : Rule → Bool
is_secure_id secure_id = true
is_secure_id _ = false

abbrev pub is_nonce_allowed : Rule → Bool
is_nonce_allowed nonce_allowed = true
is_nonce_allowed _ = false

abbrev pub is_max_uses : Rule → Bool
is_max_uses max_uses = true
is_max_uses _ = false

abbrev pub interval_after : Rule → Elem → ℕ → ℕ
interval_after min_seconds e n = integer_of e.value
interval_after _ e n = n

-- The interval of the last entry that sets one.
unfoldable pub last_interval : List Elem → ℕ → ℕ
last_interval [] n = n
last_interval (e ∷ es) n = last_interval es (interval_after (rule_of e.tag) e n)

-- The interval has passed since the last use on record, if any.
abbrev pub IsRested : Context → Option AccessTimeMap → ℕ → ℕ → Type 0
IsRested context o keyid interval =
    (m : AccessTimeMap) × (o ≡ some m)
    × ((last_key_access_time m keyid ≡ none)
        ⊎ ((last : ℕ) × (last_key_access_time m keyid ≡ some last)
            × (interval + last ≤ context.check_time)))

-- The uses on record, if any, are fewer than the maximum.
abbrev pub HasUsesLeft : Option AccessCountMap → ℕ → ℕ → Type 0
HasUsesLeft o keyid maximum =
    (m : AccessCountMap) × (o ≡ some m)
    × ((key_access_count m keyid ≡ none)
        ⊎ ((count : ℕ) × (key_access_count m keyid ≡ some count) × (count < maximum)))

passed-IsRested :
    (context : Context) (o : Option AccessTimeMap) (keyid interval : ℕ)
    → min_time_between_ops_passed context o interval keyid ≡ true
    → IsRested context o keyid interval
unfolding min_time_between_ops_passed
passed-IsRested context none keyid interval h = cc
passed-IsRested context (some m) keyid interval h =
    elim (Option-cases (last_key_access_time m keyid)) [
      | inl e ↦ (m, refl, inl e)
      | inr (last, e) ↦ (m, refl, inr (last, e, ground arith))
    ]

not_exceeded-HasUsesLeft :
    (o : Option AccessCountMap) (keyid maximum : ℕ)
    → max_uses_per_boot_not_exceeded o keyid maximum ≡ true
    → HasUsesLeft o keyid maximum
unfolding max_uses_per_boot_not_exceeded
not_exceeded-HasUsesLeft none keyid maximum h = cc
not_exceeded-HasUsesLeft (some m) keyid maximum h = elim (Option-cases (key_access_count m keyid)) [
  | inl e ↦ (m, refl, inl e)
  | inr (count, e) ↦ (m, refl, inr (count, e, ground arith))
]

module _ (d : Platform) (context : Context) (st : Enforcement) (r : Request) where
  -- What an entry of the key demands, by the group of its tag.
  abbrev pub Passes : Rule → Elem → Type 0
  Passes activation e = context.activation_date_valid (date_time_of e.value) ≡ true
  Passes origination_expiry e =
      (is_origination_purpose r.purpose ≡ false)
      ⊎ (context.expiration_date_passed (date_time_of e.value) ≡ false)
  Passes usage_expiry e =
      (is_usage_purpose r.purpose ≡ false)
      ⊎ (context.expiration_date_passed (date_time_of e.value) ≡ false)
  Passes min_seconds e = IsRested context st.access_time_map r.keyid (integer_of e.value)
  Passes max_uses e = HasUsesLeft st.access_count_map r.keyid (integer_of e.value)
  Passes secure_id e = (indices_of r).no_auth_required_index ≡ none
  Passes nonce_allowed e = Unit
  Passes forbidden e = ⊥
  Passes unchecked e = Unit

  abbrev pub has_timeout : Bool
  has_timeout = not (is_none (indices_of r).auth_timeout_index)

  -- The operation's token matches the user's id that the entry holds.
  abbrev pub token_matches : Elem → Bool
  token_matches e =
      auth_token_matches d context r.auth_set r.operation_params (long_integer_of e.value)
        (indices_of r).auth_type_index (indices_of r).auth_timeout_index 0 true

  -- What one round of the loop says of its entry, and of the variables that it sets.
  record Round (rule : Rule) (e : Elem) (c c' : Checks) : Type 0 where
    passes : Passes rule e
    required :
        c'.authentication_required
        ≡ (c.authentication_required || (has_timeout && is_secure_id rule))
    matched :
        c'.auth_token_matched
        ≡ (c.auth_token_matched || (has_timeout && (is_secure_id rule && token_matches e)))
    nonce :
        c'.caller_nonce_authorized_by_key
        ≡ (c.caller_nonce_authorized_by_key || is_nonce_allowed rule)
    counted : c'.update_access_count ≡ (c.update_access_count || is_max_uses rule)
    interval : c'.min_ops_timeout ≡ interval_after rule e c.min_ops_timeout

  check_secure_id-Round :
      (e : Elem) (c : Checks)
      → (indices_of r).no_auth_required_index ≡ none
      → Round secure_id e c (
          check_secure_id d context st r
            (indices_of r).auth_timeout_index
            (long_integer_of e.value)
            c)
  unfolding check_secure_id
  check_secure_id-Round e c free = record {
    passes = free;
    required = ground arith;
    matched = ground arith;
    nonce = ground arith;
    counted = ground arith;
    interval = ground arith;
  }

  check_rule-Round :
      (rule : Rule) (e : Elem) (c c' : Checks)
      → check_rule d context st r rule e c ≡ proceed c'
      → Round rule e c c'
  unfolding check_rule
  check_rule-Round activation e c c' h = ground arith
  check_rule-Round origination_expiry e c c' h = ground arith
  check_rule-Round usage_expiry e c c' h = ground arith
  check_rule-Round min_seconds e c c' h =
      ground (arith, passed-IsRested context st.access_time_map r.keyid (integer_of e.value))
  check_rule-Round max_uses e c c' h =
      ground (arith, not_exceeded-HasUsesLeft st.access_count_map r.keyid (integer_of e.value))
  check_rule-Round secure_id e c c' h = ground (arith, check_secure_id-Round e c)
  check_rule-Round nonce_allowed e c c' h = ground arith
  check_rule-Round forbidden e c c' h = cc
  check_rule-Round unchecked e c c' h = ground arith

  abbrev pub secure_entry : Elem → Bool
  secure_entry e = is_secure_id (rule_of e.tag)

  abbrev pub matched_entry : Elem → Bool
  matched_entry e = is_secure_id (rule_of e.tag) && token_matches e

  abbrev pub nonce_entry : Elem → Bool
  nonce_entry e = is_nonce_allowed (rule_of e.tag)

  abbrev pub counted_entry : Elem → Bool
  counted_entry e = is_max_uses (rule_of e.tag)

  -- What the whole loop says of the entries, and of the variables.
  pub record Loop (es : List Elem) (c c' : Checks) : Type 0 where
    pub passes : All (λ e. Passes (rule_of e.tag) e) es
    pub required :
        c'.authentication_required
        ≡ (c.authentication_required || (has_timeout && any_elem secure_entry es))
    pub matched :
        c'.auth_token_matched ≡ (c.auth_token_matched || (has_timeout && any_elem matched_entry es))
    pub nonce :
        c'.caller_nonce_authorized_by_key
        ≡ (c.caller_nonce_authorized_by_key || any_elem nonce_entry es)
    pub counted : c'.update_access_count ≡ (c.update_access_count || any_elem counted_entry es)
    pub interval : c'.min_ops_timeout ≡ last_interval es c.min_ops_timeout

  Loop-next :
      (e : Elem) (es : List Elem) (c c' c'' : Checks)
      → Round (rule_of e.tag) e c c'
      → Loop es c' c''
      → Loop (e ∷ es) c c''
  unfolding any_elem last_interval
  Loop-next e es c c' c'' round rest = record {
    passes = (round.passes, rest.passes);
    required = ground (arith, round.required, rest.required);
    matched = ground (arith, round.matched, rest.matched);
    nonce = ground (arith, round.nonce, rest.nonce);
    counted = ground (arith, round.counted, rest.counted);
    interval = ground (arith, round.interval, rest.interval);
  }

  check_all_next :
      (e : Elem) (es : List Elem) (c c'' : Checks)
      → check_all d context st r (e ∷ es) c ≡ proceed c''
      → (c' : Checks) × (check_rule d context st r (rule_of e.tag) e c ≡ proceed c')
        × (check_all d context st r es c' ≡ proceed c'')
  unfolding check_all
  check_all_next e es c c'' h =
      elim (Outcome-cases (check_rule d context st r (rule_of e.tag) e c)) [
        | inl (error, q) ↦ absurd (ground arith)
        | inr (c', q) ↦ (c', q, ground arith)
      ]

  pub check_all-Loop :
      (es : List Elem) (c c' : Checks) → check_all d context st r es c ≡ proceed c' → Loop es c c'
  unfolding check_all any_elem last_interval
  check_all-Loop [] c c' h = ground arith
  check_all-Loop (e ∷ es) c c'' h =
      let (c', q, k) = check_all_next e es c c'' h in
      Loop-next e es c c' c'' (check_rule-Round (rule_of e.tag) e c c' q)
        (check_all-Loop es c' c'' k)
