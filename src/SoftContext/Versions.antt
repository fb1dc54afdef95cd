-- ===== src/SoftContext/Versions.antt =====
-- What `UpgradeIntegerTag` of soft_keymaster_context.cpp does to the values of a set.
use platform_system_keymaste.Common.{
  subst, ℕ, zero, suc, ◌+◌, ◌≤◌, ◌≡◌, ◌≢◌, refl, sym, ◌∙◌, inl, inr, true, false, List, [], ◌∷◌,
  ◌++◌, Option, none, some, arith, get_elem?, Bool-cases, Option-cases, if◌then◌else◌, ◌==◌, ◌&&◌,
  ◌*◌, ◌<◌, ◌⊎◌, Bool, to_uint64, leb, ltb, length,
}
use platform_system_keymaste.Defs.Tag.{Tag, same_tag, same_tag-eq, same_tag_refl, is_blob_tag}
use platform_system_keymaste.AuthorizationSet.{
  integer, integer_of, Elem, Param, AuthorizationSet, ok,
}
use platform_system_keymaste.AuthorizationSet.Memory.{
  Heap, push_back, store_elem, append_elem, make_room, reserve_elems, stored,
}
use platform_system_keymaste.AuthorizationSet.Push.{make_room-Grown}
use platform_system_keymaste.AuthorizationSet.Query.{
  find, find_loop, or_empty, get_tag_value, get_tag_value_int,
}
use platform_system_keymaste.AuthorizationSet.RoundTrip.Whole.{IsPlenty}
use platform_system_keymaste.SoftContext.{set_integer, Upgraded, upgrade_integer_tag}

-- The integer of the first entry with the tag.
unfoldable pub first_integer : Tag → List Elem → Option ℕ
first_integer tag [] = none
first_integer tag (e ∷ es) =
    let rest = first_integer tag es in
    if same_tag e.tag tag then some (integer_of e.value) else rest

-- What a search says of the first entry with the tag, and of the list with its integer set.
abbrev Hit : Tag → List Elem → ℕ → ℕ → ℕ → Type 0
Hit tag es value n j =
    (k : ℕ) × (j ≡ n + k)
    × (first_integer tag es ≡ some (integer_of (or_empty (get_elem? es k)).value))
    × (first_integer tag (set_integer k value es) ≡ some value)
    × ((t : Tag) → t ≢ tag → first_integer t (set_integer k value es) ≡ first_integer t es)

find_loop-none :
    (tag : Tag) (es : List Elem) (n : ℕ) → find_loop tag es n ≡ none → first_integer tag es ≡ none
unfolding find_loop first_integer
find_loop-none tag [] n h = refl
find_loop-none tag (e ∷ es) n h = ground (arith, find_loop-none tag es (suc n))

other_tag : (a tag t : Tag) → same_tag a tag ≡ true → t ≢ tag → same_tag a t ≡ false
other_tag a tag t h ne = elim (Bool-cases (same_tag a t)) [
  | inl q ↦ absurd (ne (sym (same_tag-eq a t q) ∙ same_tag-eq a tag h))
  | inr q ↦ q
]

find_loop-Hit :
    (tag : Tag) (es : List Elem) (value n j : ℕ)
    → find_loop tag es n ≡ some j
    → Hit tag es value n j
unfolding find_loop first_integer set_integer
find_loop-Hit tag [] value n j h = cc
find_loop-Hit tag (e ∷ es) value n j h = elim (Bool-cases (same_tag e.tag tag)) [
  | inl q ↦ (
    zero,
    ground arith,
    ground arith,
    ground arith,
    λ t ne. ground (arith, other_tag e.tag tag t q ne),
  )
  | inr q ↦
      let (k, j_eq, at, set_at, others) = find_loop-Hit tag es value (suc n) j (ground arith) in
      (
        suc k,
        omega (arith, j_eq),
        ground (arith, at),
        ground (arith, set_at),
        λ t ne. ground (arith, others t ne),
      )
]

first_integer-append :
    (tag t : Tag) (value : ℕ) (es : List Elem)
    → first_integer tag es ≡ none
    → let es' = es ++ record { tag = tag; value = integer value } ∷ [] in
      (first_integer tag es' ≡ some value) × (t ≢ tag → first_integer t es' ≡ first_integer t es)
unfolding first_integer
first_integer-append tag t value [] h =
    let q = same_tag_refl tag in (ground arith, λ ne. ground (arith, other_tag tag tag t q ne))
first_integer-append tag t value (e ∷ es) h =
    let p = first_integer-append tag t value es (ground arith) in
    (ground (arith, p.0), λ ne. ground (arith, p.1 ne))

find-loop :
    (s : AuthorizationSet) (tag : Tag) → s.error ≡ ok → find s tag none ≡ find_loop tag s.elems 0
unfolding find
find-loop s tag good = ground arith

-- On a valid set, `GetTagValue` of an integer tag finds the integer of the first entry with the tag.
pub get_tag_value_int-first :
    (s : AuthorizationSet) (tag : Tag)
    → s.error ≡ ok
    → get_tag_value_int s tag ≡ first_integer tag s.elems
unfolding get_tag_value_int get_tag_value
get_tag_value_int-first s tag good = elim (Option-cases (find_loop tag s.elems 0)) [
  | inl q ↦ ground (arith, find-loop s tag good, find_loop-none tag s.elems 0 q)
  | inr (j, q) ↦
      let (k, j_eq, at, set_at, others) = find_loop-Hit tag s.elems 0 0 j q in
      ground (arith, find-loop s tag good)
]

abbrev entry_of : Tag → ℕ → Param
entry_of tag value = record { tag = tag; value = integer value }

-- A set whose entries fit in its array, which can be doubled.
abbrev pub HasRoom : AuthorizationSet → Type 0
HasRoom s = (length s.elems ≤ s.elems_capacity) × (s.elems_capacity * 2 < 0x1_0000_0000_0000_0000)

-- What a push of an integer that writes inside the set's array leaves, if memory can be allocated.
abbrev Appends : Tag → ℕ → AuthorizationSet → AuthorizationSet × Bool → Type 0
Appends tag value s r =
    (r.0.elems ≡ s.elems ++ record { tag = tag; value = integer value } ∷ []) × (r.0.error ≡ ok)

module _ (heap : Heap) (s : AuthorizationSet) (plenty : IsPlenty heap) (good : s.error ≡ ok) where
  make_room-plenty : (c : ℕ) × (make_room heap s ≡ (record s { elems_capacity = c }, true))
  unfolding make_room reserve_elems
  make_room-plenty =
      let n = if s.elems_capacity == 0 then 8 else to_uint64 (s.elems_capacity * 2) in
      elim (Bool-cases (leb s.elems_capacity (length s.elems) && ltb s.elems_capacity n)) [
        | inl grows ↦ (n, ground (arith, plenty.elems_given n))
        | inr stays ↦ (s.elems_capacity, ground arith)
      ]

  push_integer-Appends :
      (tag : Tag) (value : ℕ) (r : AuthorizationSet × Bool)
      → is_blob_tag tag ≡ false
      → push_back heap (entry_of tag value) s ≡ some r
      → Appends tag value s r
  unfolding push_back store_elem stored append_elem
  push_integer-Appends tag value r plain h =
      let (c, room) = make_room-plenty in
      elim (Bool-cases (ltb (length s.elems) c)) [
        | inl fits ↦ (ground (arith, room), ground (arith, room))
        | inr outside ↦ absurd (ground (arith, room))
      ]

  push_integer_inside :
      (tag : Tag) (value : ℕ)
      → is_blob_tag tag ≡ false
      → HasRoom s
      → (r : AuthorizationSet × Bool) × (push_back heap (entry_of tag value) s ≡ some r)
  unfolding push_back store_elem append_elem
  push_integer_inside tag value plain space = elim (make_room-Grown heap s space.0 space.1 good) [
    | inl (c, room, fits) ↦ (
      (
        record s { elems_capacity = c; elems = s.elems ++ stored 0 (entry_of tag value) ∷ [] },
        true,
      ),
      ground (arith, room),
    )
    | inr refused ↦ let (c, room) = make_room-plenty in absurd cc
  ]

-- A value that is not larger has become this one, and other integers are what they were.
abbrev pub IsRaised : Tag → ℕ → AuthorizationSet → AuthorizationSet → Type 0
IsRaised tag value s s' =
    (s'.error ≡ ok)
    × ((old : ℕ) → get_tag_value_int s tag ≡ some old → old ≤ value)
    × (get_tag_value_int s' tag ≡ some value)
    × ((t : Tag) → t ≢ tag → get_tag_value_int s' t ≡ get_tag_value_int s t)

-- What `UpgradeIntegerTag` does: it raises the value, and says whether it changes it, or finds a
-- larger one and changes nothing.
abbrev pub Raises : Tag → ℕ → AuthorizationSet → Bool → Upgraded → Type 0
Raises tag value s changed u =
    ((u.allowed ≡ true)
      × IsRaised tag value s u.set
      × ((u.set_changed ≡ true) ⊎ ((u.set ≡ s) × (u.set_changed ≡ changed))))
    ⊎ ((u.allowed ≡ false)
        × (u.set ≡ s)
        × ((old : ℕ) × (get_tag_value_int s tag ≡ some old) × (value < old)))

module _ (heap : Heap) (tag : Tag) (value : ℕ) (s : AuthorizationSet) (changed : Bool)
    (plenty : IsPlenty heap) (good : s.error ≡ ok) (plain : is_blob_tag tag ≡ false) where
  raised :
      (s' : AuthorizationSet)
      → s'.error ≡ ok
      → ((old : ℕ) → first_integer tag s.elems ≡ some old → old ≤ value)
      → first_integer tag s'.elems ≡ some value
      → ((t : Tag) → t ≢ tag → first_integer t s'.elems ≡ first_integer t s.elems)
      → IsRaised tag value s s'
  raised s' good' low now' others = (
    good',
    λ old h. low old (sym (get_tag_value_int-first s tag good) ∙ h),
    get_tag_value_int-first s' tag good' ∙ now',
    λ t ne.
        get_tag_value_int-first s' t good' ∙ others t ne ∙ sym (get_tag_value_int-first s t good),
  )

  absent-Raises :
      (u : Upgraded)
      → find s tag none ≡ none
      → upgrade_integer_tag heap tag value s changed ≡ some u
      → Raises tag value s changed u
  unfolding upgrade_integer_tag
  absent-Raises u q h =
      let miss = find_loop-none tag s.elems 0 (sym (find-loop s tag good) ∙ q) in
      elim (Option-cases (push_back heap (entry_of tag value) s)) [
        | inl outside ↦ absurd (ground (arith, q, outside))
        | inr (r, pushed) ↦
            let (elems_eq, good') =
              push_integer-Appends heap s plenty good tag value r plain pushed in
            let at = λ (t : Tag). first_integer-append tag t value s.elems miss in
            let u_eq : record { set = r.0; set_changed = true; allowed = true } ≡ u =
              ground (arith, q, pushed) in
            subst (Raises tag value s changed) u_eq (
              inl (
                refl,
                raised r.0 good' (λ old h'. absurd (ground (arith, h', miss)))
                    (rw elems_eq (at tag).0) (λ t ne. rw elems_eq ((at t).1 ne)),
                inl refl,
              ))
      ]

  present-Raises :
      (index : ℕ)
      → find s tag none ≡ some index
      → (u : Upgraded) × (upgrade_integer_tag heap tag value s changed ≡ some u)
        × Raises tag value s changed u
  unfolding upgrade_integer_tag
  present-Raises index q =
      let (k, j_eq, at, set_at, others) =
        find_loop-Hit tag s.elems value 0 index (sym (find-loop s tag good) ∙ q) in
      let old = integer_of (or_empty (get_elem? s.elems k)).value in
      let same : index ≡ k = omega (arith, j_eq) in
      elim (Bool-cases (ltb value old)) [
        | inl larger ↦ (
          record { set = s; set_changed = changed; allowed = false },
          ground (arith, q, same),
          inr (refl, refl, (old, get_tag_value_int-first s tag good ∙ at, ground arith)),
        )
        | inr fits ↦ elim (Bool-cases (old == value)) [
          | inl equal ↦ (
            record { set = s; set_changed = changed; allowed = true },
            ground (arith, q, same),
            inl (
              refl,
              raised s good (λ o h. ground (arith, at)) (ground (arith, at)) (λ t ne. refl),
              inr (refl, refl),
            ),
          )
          | inr differs ↦ (
            record {
              set = record s { elems = set_integer k value s.elems };
              set_changed = true;
              allowed = true;
            },
            ground (arith, q, same),
            inl (
              refl,
              raised (record s { elems = set_integer k value s.elems }) good
                  (λ o h. ground (arith, at)) set_at others,
              inl refl,
            ),
          )
        ]
      ]

  -- The result, if nothing is written outside the set's memory.
  pub upgraded-Raises :
      (u : Upgraded)
      → upgrade_integer_tag heap tag value s changed ≡ some u
      → Raises tag value s changed u
  upgraded-Raises u h = elim (Option-cases (find s tag none)) [
    | inl q ↦ absent-Raises u q h
    | inr (index, q) ↦
        let (u', h', raises) = present-Raises index q in
        let same : u' ≡ u = cc in subst (Raises tag value s changed) same raises
  ]

  -- On a valid set whose entries fit in its array, the doubled size of which is below 2 ^ 64, if memory
  -- can be allocated and the tag is not one of byte strings, `UpgradeIntegerTag` writes no entry outside
  -- the array. It says true if the set has no value for the tag or one that is not larger; then the
  -- set's value is the new one, and `GetTagValue` of any other tag finds the integer it found before;
  -- `set_changed` becomes true, or it and the set stay as they are. Else it says false and leaves the
  -- set as it is.
  pub upgrade_integer_tag-Raises :
      HasRoom s
      → (u : Upgraded) × (upgrade_integer_tag heap tag value s changed ≡ some u)
        × Raises tag value s changed u
  unfolding upgrade_integer_tag
  upgrade_integer_tag-Raises space = elim (Option-cases (find s tag none)) [
    | inl q ↦
        let (r, pushed) = push_integer_inside heap s plenty good tag value plain space in
        let u : Upgraded = record { set = r.0; set_changed = true; allowed = true } in
        let done : upgrade_integer_tag heap tag value s changed ≡ some u =
          ground (arith, q, pushed) in
        (u, done, absent-Raises u q done)
    | inr (index, q) ↦ present-Raises index q
  ]

-- The integers of other tags stay where the integer of the entry that was found is set.
pub set_integer_others :
    (s : AuthorizationSet) (tag : Tag) (value index : ℕ)
    → s.error ≡ ok
    → find s tag none ≡ some index
    → let s' : AuthorizationSet = record s { elems = set_integer index value s.elems } in
      (t : Tag) → t ≢ tag → get_tag_value_int s' t ≡ get_tag_value_int s t
set_integer_others s tag value index good q t ne =
    let (k, j_eq, at, set_at, others) =
      find_loop-Hit tag s.elems value 0 index (sym (find-loop s tag good) ∙ q) in
    let same : index ≡ k = omega (arith, j_eq) in
    rw same (
      get_tag_value_int-first (record s { elems = set_integer k value s.elems }) t good
      ∙ others t ne
      ∙ sym (get_tag_value_int-first s t good))
