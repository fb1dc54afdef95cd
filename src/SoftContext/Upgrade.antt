-- ===== src/SoftContext/Upgrade.antt =====
-- What `UpgradeKeyBlob` of soft_keymaster_context.cpp does to the versions of a key.
use platform_system_keymaste.Common.{
  ℕ, ◌≤◌, ◌≡◌, ◌≢◌, refl, sym, ap, ◌∙◌, ◌⊎◌, inl, inr, Bool, true, false, not, ◌&&◌, List, Option,
  none, some, arith, Bool-cases, Option-cases, ◌==◌,
}
use platform_system_keymaste.Defs.Tag.{Tag, is_blob_tag, is_blob_type, tag_get_type}
use platform_system_keymaste.AuthorizationSet.{AuthorizationSet, ok, integer_of}
use platform_system_keymaste.AuthorizationSet.Query.{find, contains, at_index, get_tag_value_int}
use platform_system_keymaste.AuthorizationSet.RoundTrip.Whole.{IsPlenty}
use platform_system_keymaste.AndroidKeymaster.{Answer, success, Parsed}
use platform_system_keymaste.AndroidKeymaster.Beginning.{Answer-cases}
use platform_system_keymaste.KeyBlob.{serialize_blob}
use platform_system_keymaste.SoftContext.{
  SoftContext, Upgraded, upgrade_integer_tag, set_integer, zero_os_version,
  build_hidden_authorizations, store_upgraded, patchlevel_upgraded, version_upgraded,
  upgrade_parsed, upgrade_key_blob,
}
use platform_system_keymaste.SoftContext.Versions.{
  IsRaised, Raises, upgraded-Raises, set_integer_others,
}

module _ (x : SoftContext) where
  -- The new blob is serialized of the set, and the other parts of the key.
  abbrev pub IsStored : AuthorizationSet → Parsed → AuthorizationSet → Option (List ℕ) → Type 0
  IsStored params p sw r =
      (bytes : List ℕ) × (hidden : AuthorizationSet) × (r ≡ some bytes)
      × (build_hidden_authorizations x params ≡ some (success hidden))
      × (serialize_blob x.vault p.key_material hidden p.hw_enforced sw ≡ success bytes)

  -- There is no new blob, since nothing has changed, or the new blob is that of the new set.
  abbrev Kept :
      AuthorizationSet
      → Parsed
      → AuthorizationSet
      → AuthorizationSet
      → Bool
      → Option (List ℕ)
      → Type 0
  Kept params p sw sw' changed r =
      ((r ≡ none) × (sw' ≡ sw) × (changed ≡ false)) ⊎ IsStored params p sw' r

  -- The versions of the new set are the system's, and none was larger before, but that the system's
  -- version may be 0; other integers are the same.
  abbrev pub IsUpgraded : AuthorizationSet → AuthorizationSet → Type 0
  IsUpgraded sw sw' =
      (get_tag_value_int sw' Tag.os_version ≡ some x.os_version)
      × (get_tag_value_int sw' Tag.os_patchlevel ≡ some x.os_patchlevel)
      × ((old : ℕ) → get_tag_value_int sw Tag.os_patchlevel ≡ some old → old ≤ x.os_patchlevel)
      × ((x.os_version ≡ 0)
          ⊎ ((old : ℕ) → get_tag_value_int sw Tag.os_version ≡ some old → old ≤ x.os_version))
      × ((t : Tag)
          → t ≢ Tag.os_version
          → t ≢ Tag.os_patchlevel
          → get_tag_value_int sw' t ≡ get_tag_value_int sw t)

module _ (x : SoftContext) (plenty : IsPlenty x.vault.heap) (params : AuthorizationSet) where
  store_upgraded-IsStored :
      (p : Parsed) (sw : AuthorizationSet) (r : Option (List ℕ))
      → store_upgraded x p params sw ≡ some (success r)
      → IsStored x params p sw r
  unfolding store_upgraded
  store_upgraded-IsStored p sw r h = elim (Option-cases (build_hidden_authorizations x params)) [
    | inl q ↦ absurd (ground arith)
    | inr (a, q) ↦ elim (Answer-cases a) [
      | inl (e, q') ↦ absurd (ground arith)
      | inr (hidden, q') ↦
          elim (Answer-cases (serialize_blob x.vault p.key_material hidden p.hw_enforced sw)) [
            | inl (e, q'') ↦ absurd (ground arith)
            | inr (bytes, q'') ↦ (bytes, hidden, ground arith, ground arith, q'')
          ]
    ]
  ]

  -- A step that goes on only from a result of `UpgradeIntegerTag` has such a result to go on from.
  done-Raises :
      (tag : Tag) (value : ℕ) (sw : AuthorizationSet) (changed : Bool)
      (next : Option Upgraded → Option (Answer (Option (List ℕ)))) (r : Option (List ℕ))
      → sw.error ≡ ok
      → is_blob_tag tag ≡ false
      → next none ≡ none
      → next (upgrade_integer_tag x.vault.heap tag value sw changed) ≡ some (success r)
      → (u : Upgraded) × (upgrade_integer_tag x.vault.heap tag value sw changed ≡ some u)
        × Raises tag value sw changed u
  done-Raises tag value sw changed next r good plain stops h =
      elim (Option-cases (upgrade_integer_tag x.vault.heap tag value sw changed)) [
        | inl e ↦ absurd (let bad : none ≡ some (success r) = sym stops ∙ sym (ap next e) ∙ h in cc)
        | inr (u, e) ↦
            (u, e, upgraded-Raises x.vault.heap tag value sw changed plenty good plain u e)
      ]

  -- The patch level of the set is raised to the system's.
  patchlevel-IsRaised :
      (p : Parsed) (sw : AuthorizationSet) (changed : Bool) (r : Option (List ℕ))
      → sw.error ≡ ok
      → patchlevel_upgraded x p params
          (upgrade_integer_tag x.vault.heap Tag.os_patchlevel x.os_patchlevel sw changed)
        ≡ some (success r)
      → (sw' : AuthorizationSet) × IsRaised Tag.os_patchlevel x.os_patchlevel sw sw'
        × Kept x params p sw sw' changed r
  unfolding patchlevel_upgraded is_blob_tag is_blob_type tag_get_type
  patchlevel-IsRaised p sw changed r good h =
      let (u, e, w) =
        done-Raises Tag.os_patchlevel x.os_patchlevel sw changed
          (λ o. patchlevel_upgraded x p params o) r good refl refl h in
      elim w [
        | inr (refused, same, larger) ↦ absurd (ground arith)
        | inl (granted, raised, told) ↦ elim (Bool-cases u.set_changed) [
          | inl new ↦ (u.set, raised, inr (store_upgraded-IsStored p u.set r (ground arith)))
          | inr kept ↦ elim told [
            | inl new ↦ absurd (ground arith)
            | inr (same, flag) ↦ (u.set, raised, inl (ground arith, same, sym flag ∙ kept))
          ]
        ]
      ]

  version-IsRaised :
      (p : Parsed) (sw : AuthorizationSet) (changed : Bool) (r : Option (List ℕ))
      → sw.error ≡ ok
      → version_upgraded x p params
          (upgrade_integer_tag x.vault.heap Tag.os_version x.os_version sw changed)
        ≡ some (success r)
      → (sw' : AuthorizationSet) × (sw'' : AuthorizationSet) × IsRaised Tag.os_version x.os_version
          sw sw'
        × IsRaised Tag.os_patchlevel x.os_patchlevel sw' sw''
        × Kept x params p sw sw'' changed r
  unfolding version_upgraded is_blob_tag is_blob_type tag_get_type
  version-IsRaised p sw changed r good h =
      let (u, e, w) =
        done-Raises Tag.os_version x.os_version sw changed (λ o. version_upgraded x p params o) r
          good refl refl h in
      elim w [
        | inr (refused, same, larger) ↦ absurd (ground arith)
        | inl (granted, raised, told) ↦
            let (sw'', raised', kept) =
              patchlevel-IsRaised p u.set u.set_changed r raised.0 (ground arith) in
            (
              u.set,
              sw'',
              raised,
              raised',
              elim kept [
                | inr stored ↦ inr stored
                | inl (n, same', flag') ↦ elim told [
                  | inl new ↦ absurd (ground arith)
                  | inr (same, flag) ↦ inl (n, cc, cc)
                ]
              ],
            )
      ]

  -- What `zero_os_version` does: nothing, or the version found becomes the system's, which is 0.
  zero_os_version-cases :
      (s : AuthorizationSet)
      → (((zero_os_version x s).0 ≡ s) × ((zero_os_version x s).1 ≡ false))
        ⊎ (((zero_os_version x s).1 ≡ true)
            × (pos : ℕ) × (x.os_version ≡ 0)
            × (find s Tag.os_version none ≡ some pos)
            × ((zero_os_version x s).0 ≡ record s { elems = set_integer pos x.os_version s.elems }))
  unfolding zero_os_version
  zero_os_version-cases s = elim (Option-cases (find s Tag.os_version none)) [
    | inl q ↦ inl (ground (arith, q), ground (arith, q))
    | inr (pos, q) ↦
        elim (Bool-cases (x.os_version == 0 && not (integer_of (at_index s pos).value == 0))) [
          | inl resets ↦ inr (ground (arith, q), pos, ground arith, q, ground (arith, q))
          | inr keeps ↦ inl (ground (arith, q), ground (arith, q))
        ]
  ]

  zero_os_version_lem :
      (s : AuthorizationSet)
      → s.error ≡ ok
      → let s' = (zero_os_version x s).0 in
        (s'.error ≡ ok)
        × ((x.os_version ≡ 0) ⊎ (s' ≡ s))
        × (((zero_os_version x s).1 ≡ true) ⊎ (s' ≡ s))
        × ((t : Tag) → t ≢ Tag.os_version → get_tag_value_int s' t ≡ get_tag_value_int s t)
  zero_os_version_lem s good = elim (zero_os_version-cases s) [
    | inl (e, flag) ↦ rw (e, flag) (good, inr refl, inr refl, λ t ne. refl)
    | inr (flag, pos, z, q, e) ↦
        rw (e, flag)
          (good, inl z, inl refl, set_integer_others s Tag.os_version x.os_version pos good q)
  ]

  upgrade_parsed-IsUpgraded :
      (p : Parsed) (r : Option (List ℕ))
      → p.sw_enforced.error ≡ ok
      → upgrade_parsed x p params ≡ some (success r)
      → (sw' : AuthorizationSet) × IsUpgraded x p.sw_enforced sw'
        × (((r ≡ none) × (sw' ≡ p.sw_enforced)) ⊎ IsStored x params p sw' r)
  unfolding upgrade_parsed
  upgrade_parsed-IsUpgraded p r good h =
      let z = zero_os_version x p.sw_enforced in
      let (good', zeroed, told, others) = zero_os_version_lem p.sw_enforced good in
      let refused =
        x.has_km1_device
        && contains p.hw_enforced Tag.purpose
        && not (contains p.hw_enforced Tag.os_patchlevel) in
      elim (Bool-cases refused) [
        | inl bad ↦ absurd (ground arith)
        | inr fine ↦
            let apart : Tag.os_version ≢ Tag.os_patchlevel = cc in
            let apart' : Tag.os_patchlevel ≢ Tag.os_version = cc in
            let (sw', sw'', v, w, kept) = version-IsRaised p z.0 z.1 r good' (ground arith) in
            (
              sw'',
              (
                w.3 Tag.os_version apart ∙ v.2,
                w.2,
                λ old e.
                    w.1 old (v.3 Tag.os_patchlevel apart' ∙ others Tag.os_patchlevel apart' ∙ e),
                elim zeroed [
                  | inl zero' ↦ inl zero'
                  | inr same ↦
                      inr (λ old e. v.1 old (ap (λ s. get_tag_value_int s Tag.os_version) same ∙ e))
                ],
                λ t ne ne'. w.3 t ne' ∙ v.3 t ne ∙ others t ne,
              ),
              elim kept [
                | inr stored ↦ inr stored
                | inl (n, same, flag) ↦ elim told [
                  | inl new ↦ absurd (ground arith)
                  | inr same' ↦ inl (n, same ∙ same')
                ]
              ],
            )
      ]

  -- If `UpgradeKeyBlob` answers OK, the blob was parsed, and the software-enforced set that it ends with
  -- has the version and the patch level of the system. The key's patch level was not larger than
  -- the system's, nor its version, unless the system's is 0, and no other integer has changed. Either
  -- the set is the key's own and no new blob is made, or the new blob is the integrity-assured one of
  -- that set, with the key's material and hardware-enforced set and the hidden authorizations built of
  -- the parameters. It is assumed that memory can be allocated, and that the parsed set is valid.
  pub upgrade_key_blob-IsUpgraded :
      (key_to_upgrade : List ℕ) (r : Option (List ℕ))
      → ((p : Parsed)
          → x.parse_key_blob key_to_upgrade params ≡ success p
          → p.sw_enforced.error ≡ ok)
      → upgrade_key_blob x key_to_upgrade params ≡ some (success r)
      → (p : Parsed) × (sw' : AuthorizationSet) × (x.parse_key_blob key_to_upgrade params
          ≡ success p)
        × IsUpgraded x p.sw_enforced sw'
        × (((r ≡ none) × (sw' ≡ p.sw_enforced)) ⊎ IsStored x params p sw' r)
  unfolding upgrade_key_blob
  upgrade_key_blob-IsUpgraded key_to_upgrade r good h =
      elim (Answer-cases (x.parse_key_blob key_to_upgrade params)) [
        | inl (e, q) ↦ absurd (ground arith)
        | inr (p, q) ↦
            let (sw', u, kept) = upgrade_parsed-IsUpgraded p r (good p q) (ground arith) in
            (p, sw', q, u, kept)
      ]
