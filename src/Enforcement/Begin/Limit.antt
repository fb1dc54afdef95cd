-- ===== src/Enforcement/Begin/Limit.antt =====
-- A limit on the uses of a key holds over any sequence of calls of `AuthorizeBegin`
-- (keymaster_enforcement.cpp), for this key and for others.
use platform_system_keymaste.Common.{
  ℕ, ◌+◌, ◌≤◌, ◌<◌, ◌≡◌, refl, subst, ◌≢◌, ◌⊎◌, inl, inr, Bool, true, false, ◌&&◌, List, [], ◌∷◌,
  Option, none, some, arith, All, ◌==◌, if◌then◌else◌, Bool-cases, Option-cases, uint32_max,
}
use platform_system_keymaste.Defs.Codes.{KeymasterError, is_ok, is_ok-eq}
use platform_system_keymaste.AuthorizationSet.{Elem, integer_of}
use platform_system_keymaste.Enforcement.{Platform, Context}
use platform_system_keymaste.Enforcement.AccessCount.{
  AccessCountMap, count_of, key_access_count, count_of-uses, count_of-none,
}
use platform_system_keymaste.Enforcement.Rules.{Enforcement, max_uses, rule_of}
use platform_system_keymaste.Enforcement.Begin.{Request, authorize_begin}
use platform_system_keymaste.Enforcement.Begin.Sound.{authorize_begin-Authorized}
use platform_system_keymaste.Enforcement.Begin.Rounds.{any_elem, HasUsesLeft, Passes}
use platform_system_keymaste.Enforcement.Begin.Uses.{uses_in, is_limited, authorize_begin-uses}

-- A call of `AuthorizeBegin`, with what the subclass says at that time.
pub record Call : Type 0 where
  pub context : Context
  pub request : Request

module _ (d : Platform) (keyid : ℕ) where
  abbrev pub counts_as_use : Call → KeymasterError → Bool
  counts_as_use call error = call.request.keyid == keyid && is_ok error

  -- How many of the calls for the key say OK, the state passed from each call to the next.
  unfoldable pub successes : Enforcement → List Call → ℕ
  successes st [] = 0
  successes st (call ∷ calls) =
      let (st', error) = authorize_begin d call.context st call.request in
      let rest = successes st' calls in if counts_as_use call error then rest + 1 else rest

-- An entry limits the uses to at most so many.
abbrev pub LimitsTo : ℕ → List Elem → Type 0
LimitsTo n [] = ⊥
LimitsTo n (e ∷ es) = ((rule_of e.tag ≡ max_uses) × (integer_of e.value ≤ n)) ⊎ LimitsTo n es

LimitsTo-is_limited : (n : ℕ) (es : List Elem) → LimitsTo n es → is_limited es ≡ true
unfolding any_elem
LimitsTo-is_limited n [] h = absurd h
LimitsTo-is_limited n (e ∷ es) (inl (r, le)) = rw (r, any_elem) refl
LimitsTo-is_limited n (e ∷ es) (inr h) = ground (arith, LimitsTo-is_limited n es h)

HasUsesLeft-lt :
    (o : Option AccessCountMap) (keyid n : ℕ)
    → HasUsesLeft o keyid n
    → uses_in keyid o < 0x1_0000_0000
    → (uses_in keyid o ≡ 0) ⊎ (uses_in keyid o < n)
unfolding key_access_count
HasUsesLeft-lt none keyid n h lt = inl refl
HasUsesLeft-lt (some m) keyid n h lt = elim (Option-cases (count_of keyid m.access_count_list)) [
  | inl e ↦ inl (count_of-none keyid m.access_count_list e)
  | inr (c, e) ↦ inr (ground (arith, h, count_of-uses keyid m.access_count_list c e))
]

module _ (d : Platform) (context : Context) (st : Enforcement) (r : Request) (n : ℕ) where
  limit_applies :
      (es : List Elem)
      → LimitsTo n es
      → All (λ e. Passes d context st r (rule_of e.tag) e) es
      → uses_in r.keyid st.access_count_map < 0x1_0000_0000
      → (uses_in r.keyid st.access_count_map ≡ 0) ⊎ (uses_in r.keyid st.access_count_map < n)
  limit_applies [] h a lt = absurd h
  limit_applies (e ∷ es) (inl (q, le)) a lt =
      let left =
        HasUsesLeft-lt st.access_count_map r.keyid (integer_of e.value)
          (subst (λ rule. Passes d context st r rule e) q a.0) lt in
      omega arith
  limit_applies (e ∷ es) (inr h) a lt = limit_applies es h a.1 lt

-- Every call for the key presents it with a limit of at most so many uses.
abbrev pub AllLimited : ℕ → ℕ → List Call → Type 0
AllLimited keyid n [] = Unit {0}
AllLimited keyid n (c ∷ cs) =
    ((c.request.keyid ≢ keyid) ⊎ LimitsTo n c.request.auth_set.elems) × AllLimited keyid n cs

module _ (d : Platform) (keyid n : ℕ) where
  begin_within :
      (st : Enforcement) (call : Call)
      → LimitsTo n call.request.auth_set.elems
      → n < uint32_max
      → uses_in keyid st.access_count_map ≤ n
      → (counts_as_use d keyid call (authorize_begin d call.context st call.request).1 ≡ false)
        ⊎ (uses_in keyid st.access_count_map ≡ 0)
        ⊎ (uses_in keyid st.access_count_map < n)
  begin_within st call h small within =
      elim (Bool-cases
        (counts_as_use d keyid call (authorize_begin d call.context st call.request).1)) [
          | inr not_ok ↦ inl not_ok
          | inl good ↦
              let same : call.request.keyid ≡ keyid = ground arith in
              let says_ok =
                is_ok-eq (authorize_begin d call.context st call.request).1 (ground arith) in
              let auth = authorize_begin-Authorized d call.context st call.request says_ok in
              inr (
                subst
                  (λ k. (uses_in k st.access_count_map ≡ 0) ⊎ (uses_in k st.access_count_map < n))
                  same
                  (limit_applies d call.context st call.request n call.request.auth_set.elems h
                    auth.passes (rw same (omega arith))))
        ]

  -- One call keeps the uses and the successes that are left to come within the limit.
  call_within :
      (st : Enforcement) (call : Call)
      → ((call.request.keyid ≢ keyid) ⊎ LimitsTo n call.request.auth_set.elems)
      → 1 ≤ n
      → n < uint32_max
      → uses_in keyid st.access_count_map ≤ n
      → let res = authorize_begin d call.context st call.request in
        (uses_in keyid res.0.access_count_map ≡ (
          if counts_as_use d keyid call res.1
          then uses_in keyid st.access_count_map + 1
          else uses_in keyid st.access_count_map))
        × (uses_in keyid res.0.access_count_map ≤ n)
  call_within st call (inl other) pos small within =
      let e = authorize_begin-uses d call.context st call.request keyid (omega arith) in
      (ground (arith, e, other), ground (arith, e, other))
  call_within st call (inr h) pos small within =
      let e = authorize_begin-uses d call.context st call.request keyid (omega arith) in
      let q = LimitsTo-is_limited n call.request.auth_set.elems h in
      let left = begin_within st call h small within in
      (ground (arith, e, q), ground (arith, e, q, left))

  -- Over any sequence of calls that present the key with a limit of at most n uses, n not 0 and below
  -- UINT32_MAX, the calls for it that say OK and the uses on record before are n together at most, if
  -- those on record before were n at most. Calls for other keys may stand between.
  pub successes-within :
      (st : Enforcement) (calls : List Call)
      → AllLimited keyid n calls
      → 1 ≤ n
      → n < uint32_max
      → uses_in keyid st.access_count_map ≤ n
      → uses_in keyid st.access_count_map + successes d keyid st calls ≤ n
  unfolding successes
  successes-within st [] h pos small within = omega arith
  successes-within st (call ∷ calls) h pos small within =
      let (e, le) = call_within st call h.0 pos small within in
      let rest =
        successes-within (authorize_begin d call.context st call.request).0 calls h.1 pos small
          le in
      ground (arith, e, rest)
