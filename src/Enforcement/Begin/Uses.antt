-- ===== src/Enforcement/Begin/Uses.antt =====
-- How the uses of a key are counted by `AuthorizeBegin` of keymaster_enforcement.cpp, over any
-- sequence of calls.
use platform_system_keymaste.Common.{
  ℕ, ◌+◌, ◌<◌, ◌≡◌, refl, inl, inr, Bool, ◌&&◌, List, Option, none, some, arith, ◌==◌,
  if◌then◌else◌, uint64_max,
}
use platform_system_keymaste.Defs.Codes.{is_ok}
use platform_system_keymaste.AuthorizationSet.{Elem}
use platform_system_keymaste.Enforcement.{Platform, Context}
use platform_system_keymaste.Enforcement.AccessCount.{AccessCountMap, uses, uses-increment}
use platform_system_keymaste.Enforcement.Rules.{
  Enforcement, rule_of, Checks, initial_checks, Outcome-cases,
}
use platform_system_keymaste.Enforcement.Begin.{
  Request, check_all, enter_access_time, enter_access_count, enter_time, enter_count, enter_use,
  conclude, check_and_enter, authorize_begin,
}
use platform_system_keymaste.Enforcement.Begin.Sound.{check_all-refuse}
use platform_system_keymaste.Enforcement.Begin.Rounds.{any_elem, is_max_uses, check_all-Loop}

-- The uses on record; none without a table.
abbrev pub uses_in : ℕ → Option AccessCountMap → ℕ
uses_in keyid none = 0
uses_in keyid (some m) = uses keyid m.access_count_list

-- The key has an entry that limits its uses.
abbrev pub is_limited : List Elem → Bool
is_limited = any_elem (λ e. is_max_uses (rule_of e.tag))

module _ (d : Platform) (context : Context) (st : Enforcement) (r : Request) (j : ℕ) where
  enter_count-uses :
      (c : Checks) (st' : Enforcement)
      → uses_in j st'.access_count_map < uint64_max
      → let res = enter_count d context st r c st' in
        uses_in j res.0.access_count_map ≡ (
          if j == r.keyid && (c.update_access_count && is_ok res.1)
          then uses_in j st'.access_count_map + 1
          else uses_in j st'.access_count_map)
  unfolding enter_count enter_access_count is_ok
  enter_count-uses c st' h = go st'.access_count_map refl
    where
      go :
          (o : Option AccessCountMap)
          → st'.access_count_map ≡ o
          → let res = enter_count d context st r c st' in
            uses_in j res.0.access_count_map ≡ (
              if j == r.keyid && (c.update_access_count && is_ok res.1)
              then uses_in j st'.access_count_map + 1
              else uses_in j st'.access_count_map)
      go none e = ground arith
      go (some m) e = ground (arith, uses-increment m r.keyid j)

  enter_time-map :
      (c : Checks) → (enter_time d context st r c).0.access_count_map ≡ st.access_count_map
  unfolding enter_time enter_access_time
  enter_time-map c = ground arith

  enter_use-uses :
      (c : Checks)
      → uses_in j st.access_count_map < uint64_max
      → let res = enter_use d context st r c in
        uses_in j res.0.access_count_map ≡ (
          if j == r.keyid && (c.update_access_count && is_ok res.1)
          then uses_in j st.access_count_map + 1
          else uses_in j st.access_count_map)
  unfolding enter_use
  enter_use-uses c h =
      ground (arith, enter_time-map c, enter_count-uses c (enter_time d context st r c).0)

  conclude-uses :
      (c : Checks)
      → uses_in j st.access_count_map < uint64_max
      → let res = conclude d context st r c in
        uses_in j res.0.access_count_map ≡ (
          if j == r.keyid && (c.update_access_count && is_ok res.1)
          then uses_in j st.access_count_map + 1
          else uses_in j st.access_count_map)
  unfolding conclude is_ok
  conclude-uses c h = ground (arith, enter_use-uses c h)

  -- A call adds one to the uses of its key if it says OK and the key limits its uses, and changes
  -- the uses of no key otherwise. The uses looked at are below
  -- UINT64_MAX.
  pub authorize_begin-uses :
      uses_in j st.access_count_map < uint64_max
      → let res = authorize_begin d context st r in
        uses_in j res.0.access_count_map ≡ (
          if j == r.keyid && (is_limited r.auth_set.elems && is_ok res.1)
          then uses_in j st.access_count_map + 1
          else uses_in j st.access_count_map)
  unfolding authorize_begin check_and_enter
  authorize_begin-uses h =
      elim (Outcome-cases (check_all d context st r r.auth_set.elems initial_checks)) [
        | inl (error, q) ↦
            ground (arith, check_all-refuse d context st r r.auth_set.elems initial_checks error q)
        | inr (c, q) ↦ ground (
          arith,
          (check_all-Loop d context st r r.auth_set.elems initial_checks c q).counted,
          conclude-uses c h,
        )
      ]
