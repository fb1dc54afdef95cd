-- ===== src/AuthorizationSet/Lookup.antt =====
-- What the searches of AuthorizationSet find, against the list of the entries with a tag
-- (authorization_set.cpp, include/keymaster/authorization_set.h).
use platform_system_keymaste.Common.{
  ℕ, zero, suc, ◌+◌, ◌-◌, ◌≤◌, ◌<◌, ◌≡◌, refl, sym, ap, subst, ◌∙◌, ◌⊎◌, inl, inr, true, List, [],
  ◌∷◌, Option, none, some, arith, length, get_elem?, drop, drop-drop, get_elem?-drop, length-drop,
  Bool-cases, ◌==◌, if◌then◌else◌, ◌&&◌,
}
use platform_system_keymaste.Defs.Tag.{Tag, same_tag, same_tag-eq}
use platform_system_keymaste.AuthorizationSet.{Value, Slice, Elem, ok, AuthorizationSet}
use platform_system_keymaste.AuthorizationSet.Query.{
  find_loop, next_index, find, value_at, or_empty, count_loop, get_tag_count, get_tag_value,
  rep_loop, get_tag_value_rep, any_value,
}

-- The entries with a tag, in order.
unfoldable pub having : Tag → List Elem → List Elem
having tag [] = []
having tag (e ∷ es) = let rest = having tag es in if same_tag e.tag tag then e ∷ rest else rest

-- The first entry with the tag, if there is one, stands at the index found, i further on.
abbrev Found : Tag → List Elem → ℕ → Option ℕ → Type 0
Found tag es i r =
    ((r ≡ none) × (having tag es ≡ []))
    ⊎ ((k : ℕ) × (e : Elem) × (r ≡ some (i + k))
        × (get_elem? es k ≡ some e)
        × (k < length es)
        × (having tag es ≡ e ∷ having tag (drop (suc k) es)))

find_loop-Found : (tag : Tag) (es : List Elem) (i : ℕ) → Found tag es i (find_loop tag es i)
unfolding find_loop having
find_loop-Found tag [] i = inl (refl, refl)
find_loop-Found tag (e ∷ es) i = elim (Bool-cases (same_tag e.tag tag)) [
  | inl hit ↦ inr (zero, e, ground arith, refl, omega arith, ground arith)
  | inr miss ↦ rw miss (elim (find_loop-Found tag es (suc i)) [
    | inl (r, h) ↦ inl (r, h)
    | inr (k, f, r, g, lt, h) ↦ inr (suc k, f, ground arith, g, omega arith, h)
  ])
]

drop_next : (k i : ℕ) (es : List Elem) → drop (suc k) (drop i es) ≡ drop (suc (i + k)) es
drop_next k i es =
    drop-drop (suc k) i es
    ∙ ap (λ (n : ℕ). drop n es) (let q : i + suc k ≡ suc (i + k) = omega arith in q)

index_next : (k i : ℕ) (es : List Elem) → i ≤ length es → k < length (drop i es) → i + k < length es
index_next k i es h lt = omega (arith, length-drop i es)

module _ (s : AuthorizationSet) (good : s.error ≡ ok) (tag : Tag) where
  find-Found :
      (pos : Option ℕ)
      → next_index pos ≤ length s.elems
      → Found tag (drop (next_index pos) s.elems) (next_index pos) (find s tag pos)
  find-Found pos h =
      subst (Found tag (drop (next_index pos) s.elems) (next_index pos)) (sym found)
        (find_loop-Found tag (drop (next_index pos) s.elems) (next_index pos))
    where
      found : find s tag pos ≡ find_loop tag (drop (next_index pos) s.elems) (next_index pos)
      found = unfold find in ground arith

  count_loop_lem :
      (fuel : ℕ) (pos : Option ℕ) (count : ℕ)
      → next_index pos ≤ length s.elems
      → length s.elems - next_index pos < fuel
      → count_loop fuel s tag pos count
        ≡ some (count + length (having tag (drop (next_index pos) s.elems)))
  unfolding count_loop
  count_loop_lem zero pos count h lt = absurd (omega arith)
  count_loop_lem (suc fuel) pos count h lt = elim (find-Found pos h) [
    | inl (r, e) ↦ rw (r, e, count_loop) (ground arith)
    | inr (k, f, r, g, lk, e) ↦
        let i = next_index pos in
        let in_range = index_next k i s.elems h lk in
        rw (r, e, drop_next k i s.elems, count_loop)
          (count_loop_lem fuel (some (i + k)) (count + 1) in_range (omega arith)
            ∙ ap some (omega arith))
  ]

  -- The count of a tag in a valid set is the number of its entries; the loop ends within one round
  -- more than the set has entries.
  pub get_tag_count_lem : get_tag_count s tag ≡ some (length (having tag s.elems))
  unfolding get_tag_count
  get_tag_count_lem =
      count_loop_lem (suc (length s.elems)) none 0 (omega arith) (omega arith)
      ∙ ap some (omega arith)

module _ {ℓ} {A : Type ℓ} (member : Value Slice → A) where
  abbrev pub member_of : Option Elem → Option A
  member_of none = none
  member_of (some e) = some (member e.value)

module _ {ℓ} {A : Type ℓ} (member : Value Slice → A) (s : AuthorizationSet) (good : s.error ≡ ok)
    (tag : Tag) where
  rep_loop_lem :
      (n : ℕ) (pos : Option ℕ)
      → next_index pos ≤ length s.elems
      → value_at member s.elems (rep_loop (suc n) s tag pos)
        ≡ member_of member (get_elem? (having tag (drop (next_index pos) s.elems)) n)
  unfolding rep_loop
  rep_loop_lem zero pos h = elim (find-Found s good tag pos h) [
    | inl (r, e) ↦ rw (r, e, rep_loop) refl
    | inr (k, f, r, g, lk, e) ↦
        rw (r, e, rep_loop)
          (ap (λ o. some (member (or_empty o).value))
            (sym (get_elem?-drop k (next_index pos) s.elems) ∙ g))
  ]
  rep_loop_lem (suc n) pos h = elim (find-Found s good tag pos h) [
    | inl (r, e) ↦ rw (r, e, rep_loop) refl
    | inr (k, f, r, g, lk, e) ↦
        rw (r, e, drop_next k (next_index pos) s.elems, rep_loop)
          (rep_loop_lem n (some (next_index pos + k)) (index_next k (next_index pos) s.elems h lk))
  ]

  -- The value of a repeated tag's instance in a valid set is that of its entry of that number, and
  -- there is none if the set has no so many entries of the tag.
  pub get_tag_value_rep_lem :
      (instance' : ℕ)
      → get_tag_value_rep member s tag instance'
        ≡ member_of member (get_elem? (having tag s.elems) instance')
  unfolding get_tag_value_rep
  get_tag_value_rep_lem n = rep_loop_lem n none (omega arith)

  -- The value of a tag in a valid set is that of its first entry.
  pub get_tag_value_lem :
      get_tag_value member s tag ≡ member_of member (get_elem? (having tag s.elems) 0)
  unfolding get_tag_value
  get_tag_value_lem = elim (find-Found s good tag none (omega arith)) [
    | inl (r, e) ↦ rw (r, e) refl
    | inr (k, f, r, g, lk, e) ↦
        rw (r, e)
          (ap (λ o. some (member (or_empty o).value))
            (ap (λ (j : ℕ). get_elem? s.elems j) (let q : 0 + k ≡ k = omega arith in q) ∙ g))
  ]

-- Where a set contains a value, an entry with that tag holds it.
pub any_value_lem :
    (member : Value Slice → ℕ) (tag : Tag) (val : ℕ) (es : List Elem)
    → any_value member tag val es ≡ true
    → (k : ℕ) × (e : Elem) × (get_elem? es k ≡ some e) × (e.tag ≡ tag) × (member e.value ≡ val)
unfolding any_value
any_value_lem member tag val [] h = cc
any_value_lem member tag val (e ∷ es) h =
    elim (Bool-cases (same_tag e.tag tag && member e.value == val)) [
      | inl hit ↦ (zero, e, refl, same_tag-eq e.tag tag (ground arith), ground arith)
      | inr miss ↦
          let (k, f, g, t, v) = any_value_lem member tag val es (ground arith) in
          (suc k, f, g, t, v)
    ]
