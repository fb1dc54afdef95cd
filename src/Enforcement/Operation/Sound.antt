-- ===== src/Enforcement/Operation/Sound.antt =====
-- What permits an update or a finish: `AuthorizeUpdateOrFinish` of keymaster_enforcement.cpp.
use platform_system_keymaste.Common.{
  ℕ, suc, ◌≡◌, refl, ◌⊎◌, inl, inr, Bool, true, false, not, ◌||◌, List, [], ◌∷◌, Option, none, some,
  arith, Bool-cases, Option-cases,
}
use platform_system_keymaste.Defs.Tag.{Tag, same_tag}
use platform_system_keymaste.Defs.Codes.{KeymasterError}
use platform_system_keymaste.AuthorizationSet.{Elem, AuthorizationSet, long_integer_of}
use platform_system_keymaste.Enforcement.{AuthToken, Platform, Context}
use platform_system_keymaste.Enforcement.Token.{
  provided_token, token_accepted, auth_type_matches, challenge_holds, auth_token_matches,
}
use platform_system_keymaste.Enforcement.Begin.{is_none}
use platform_system_keymaste.Enforcement.Begin.Rounds.{any_elem}
use platform_system_keymaste.Defs.Tag.{same_tag-eq}
use platform_system_keymaste.Enforcement.Operation.{
  Scan, nothing_to_check, auth_type, scan_of, scan_auth, id_matches, match_ids, after_scan,
  authorize_update_or_finish,
}

-- A token that came with the operation, is valid, was made for this handle by a user of the entry,
-- and by an authenticator that the key accepts.
module _ (d : Platform) (context : Context) (auth_set operation_params : AuthorizationSet)
    (op_handle : ℕ) where
  abbrev pub Authenticates : Option ℕ → Elem → Type 0
  Authenticates type_index e =
      (token : AuthToken) × (provided_token d context operation_params ≡ some token)
      × (token.version ≡ d.hw_auth_token_version)
      × (context.validate_token_signature token ≡ true)
      × ((op_handle ≡ 0) ⊎ (op_handle ≡ token.challenge))
      × ((long_integer_of e.value ≡ token.user_id)
          ⊎ (long_integer_of e.value ≡ token.authenticator_id))
      × (auth_type_matches d context auth_set type_index token ≡ true)

  abbrev pub SomeAuthenticates : Option ℕ → List Elem → Type 0
  SomeAuthenticates type_index [] = ⊥
  SomeAuthenticates type_index (e ∷ es) =
      ((e.tag ≡ Tag.user_secure_id) × Authenticates type_index e) ⊎ SomeAuthenticates type_index es

  id_matches-Authenticates :
      (type_index : Option ℕ) (e : Elem)
      → id_matches d context auth_set operation_params op_handle type_index e ≡ true
      → Authenticates type_index e
  unfolding auth_token_matches token_accepted challenge_holds
  id_matches-Authenticates type_index e h =
      elim (Option-cases (provided_token d context operation_params)) [
        | inl q ↦ absurd (ground arith)
        | inr (token, q) ↦
            (token, q, ground arith, ground arith, ground arith, ground arith, ground arith)
      ]

abbrev pub is_exempt : Scan → Bool
is_exempt nothing_to_check = true
is_exempt _ = false

abbrev pub is_auth_type : Scan → Bool
is_auth_type auth_type = true
is_auth_type _ = false

-- The key has an entry by which there is nothing to check, and one that asks for authentication.
abbrev pub exempt : List Elem → Bool
exempt = any_elem (λ e. is_exempt (scan_of e.tag))

abbrev pub asks_authentication : List Elem → Bool
asks_authentication =
    any_elem (λ e. is_auth_type (scan_of e.tag) || same_tag e.tag Tag.user_secure_id)

any_elem-or :
    (f g : Elem → Bool) (es : List Elem)
    → any_elem f es ≡ false
    → any_elem g es ≡ false
    → any_elem (λ e. f e || g e) es ≡ false
unfolding any_elem
any_elem-or f g [] hf hg = refl
any_elem-or f g (e ∷ es) hf hg = ground (arith, any_elem-or f g es)

scan_auth-exempt :
    (es : List Elem) (pos : ℕ) (index : Option ℕ) → scan_auth es pos index ≡ none → exempt es ≡ true
unfolding scan_auth any_elem
scan_auth-exempt [] pos index h = cc
scan_auth-exempt (e ∷ es) pos index h =
    ground (arith, scan_auth-exempt es (suc pos) index, scan_auth-exempt es (suc pos) (some pos))

scan_auth-index :
    (es : List Elem) (pos : ℕ) (index found : Option ℕ)
    → scan_auth es pos index ≡ some found
    → is_none found ≡ true
    → (is_none index ≡ true) × (any_elem (λ e. is_auth_type (scan_of e.tag)) es ≡ false)
unfolding scan_auth any_elem
scan_auth-index [] pos index found h k = ground arith
scan_auth-index (e ∷ es) pos index found h k =
    ground (
      arith,
      scan_auth-index es (suc pos) index found,
      scan_auth-index es (suc pos) (some pos) found,
    )

module _ (d : Platform) (context : Context) (auth_set operation_params : AuthorizationSet)
    (op_handle : ℕ) where
  match_ids_ok :
      (type_index : Option ℕ) (es : List Elem) (required : Bool)
      → match_ids d context auth_set operation_params op_handle type_index es required
        ≡ KeymasterError.ok
      → ((required ≡ false) × (any_elem (λ e. same_tag e.tag Tag.user_secure_id) es ≡ false))
        ⊎ SomeAuthenticates d context auth_set operation_params op_handle type_index es
  unfolding match_ids any_elem
  match_ids_ok type_index [] true h = cc
  match_ids_ok type_index [] false h = inl (refl, refl)
  match_ids_ok type_index (e ∷ es) required h =
      elim (Bool-cases (same_tag e.tag Tag.user_secure_id)) [
        | inl is_id ↦
            elim (Bool-cases
              (id_matches d context auth_set operation_params op_handle type_index e)) [
                | inl good ↦ inr (
                    inl (
                      same_tag-eq e.tag Tag.user_secure_id is_id,
                      id_matches-Authenticates d context auth_set operation_params op_handle
                          type_index e good,
                    ))
                | inr bad ↦ elim (match_ids_ok type_index es true (ground arith)) [
                  | inl (q, none_left) ↦ absurd (ground arith)
                  | inr later ↦ inr (inr later)
                ]
              ]
        | inr other ↦ elim (match_ids_ok type_index es required (ground arith)) [
          | inl (q, none_left) ↦ inl (q, ground arith)
          | inr later ↦ inr (inr later)
        ]
      ]

  -- An update or finish is permitted only if the key has an entry by which there is nothing to check,
  -- or asks for no authentication, or the operation's token is valid, was made for its handle, if that
  -- is not 0, has one of the key's secure ids as its user or its authenticator, and is of a type that
  -- the last USER_AUTH_TYPE of the key accepts.
  pub authorize_update_or_finish_ok :
      authorize_update_or_finish d context auth_set operation_params op_handle ≡ KeymasterError.ok
      → (exempt auth_set.elems ≡ true)
        ⊎ (asks_authentication auth_set.elems ≡ false)
        ⊎ ((type_index : Option ℕ) × (scan_auth auth_set.elems 0 none ≡ some type_index)
            × SomeAuthenticates d context auth_set operation_params op_handle type_index
                auth_set.elems)
  unfolding authorize_update_or_finish after_scan
  authorize_update_or_finish_ok h = elim (Option-cases (scan_auth auth_set.elems 0 none)) [
    | inl nothing ↦ inl (scan_auth-exempt auth_set.elems 0 none nothing)
    | inr (index, found) ↦
        elim (match_ids_ok index auth_set.elems (not (is_none index)) (ground arith)) [
          | inl (q, no_ids) ↦
              let (_, no_type) = scan_auth-index auth_set.elems 0 none index found (ground arith) in
              inr (inl (any_elem-or _ _ auth_set.elems no_type no_ids))
          | inr some_id ↦ inr (inr (index, found, some_id))
        ]
  ]
