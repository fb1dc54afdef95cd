-- ===== src/AuthorizationSet/Query.antt =====
-- The operations of AuthorizationSet that look for tags: authorization_set.cpp and
-- include/keymaster/authorization_set.h. An int that may be -1 is an `Option ℕ`; sizes are below 2^31.
use platform_system_keymaste.Common.{
  ℕ, zero, suc, ◌+◌, Bool, true, false, not, ◌&&◌, List, [], ◌∷◌, ◌++◌, Option, none, some, length,
  get_elem?, take, drop, leb, ltb, ◌==◌, if◌then◌else◌,
}
use platform_system_keymaste.Defs.Tag.{Tag, invalid, same_tag}
use platform_system_keymaste.AuthorizationSet.{
  Value, enumerated, enumerated_of, integer_of, long_integer_of, date_time_of, boolean_of, blob_of,
  Slice, null_slice, Elem, AuthorizationSet, is_ok, slice_of,
}

-- The loop of `find`: from the entry at index i on.
unfoldable pub find_loop : Tag → List Elem → ℕ → Option ℕ
find_loop tag [] i = none
find_loop tag (e ∷ es) i = if same_tag e.tag tag then some i else find_loop tag es (suc i)

-- `++begin`
abbrev pub next_index : Option ℕ → ℕ
next_index none = 0
next_index (some i) = suc i

-- An index behind the end is returned as it is.
unfoldable pub find : AuthorizationSet → Tag → Option ℕ → Option ℕ
find s tag begin =
    if not (is_ok s.error)
    then none
    else if ltb (length s.elems) (next_index begin)
    then some (next_index begin)
    else find_loop tag (drop (next_index begin) s.elems) (next_index begin)

unfoldable pub contains : AuthorizationSet → Tag → Bool
contains s tag = elim (find s tag none) [ none ↦ false | some i ↦ true ]

unfoldable pub erase : AuthorizationSet → ℕ → AuthorizationSet × Bool
erase s index =
    if leb (length s.elems) index
    then (s, false)
    else (record s { elems = take index s.elems ++ drop (suc index) s.elems }, true)

-- `empty_param`, whose union is zero.
abbrev pub empty_param : Elem
empty_param = record { tag = invalid; value = enumerated 0 }

abbrev pub or_empty : Option Elem → Elem
or_empty none = empty_param
or_empty (some e) = e

-- `operator[]`, at an index that is not negative.
unfoldable pub at_index : AuthorizationSet → ℕ → Elem
at_index s i =
    if is_ok s.error && ltb i (length s.elems) then or_empty (get_elem? s.elems i) else empty_param

-- The loop of `GetTagCount`, on fuel; `none` is out of fuel.
unfoldable pub count_loop : ℕ → AuthorizationSet → Tag → Option ℕ → ℕ → Option ℕ
count_loop zero s tag pos count = none
count_loop (suc fuel) s tag pos count = elim (find s tag pos) [
  | none ↦ some count
  | some i ↦ count_loop fuel s tag (some i) (count + 1)
]

unfoldable pub get_tag_count : AuthorizationSet → Tag → Option ℕ
get_tag_count s tag = count_loop (suc (length s.elems)) s tag none 0

-- The member of the entry at a position that `find` returned: `elems_[pos]`.
abbrev pub value_at {ℓ} : {A : Type ℓ} → (Value Slice → A) → List Elem → Option ℕ → Option A
value_at member es none = none
value_at member es (some i) = some (member (or_empty (get_elem? es i)).value)

unfoldable pub get_tag_value {ℓ} :
    {A : Type ℓ} → (Value Slice → A) → AuthorizationSet → Tag → Option A
get_tag_value member s tag = value_at member s.elems (find s tag none)

unfoldable pub get_tag_value_enum : AuthorizationSet → Tag → Option ℕ
unfolding get_tag_value
get_tag_value_enum = get_tag_value (λ v. enumerated_of v)

unfoldable pub get_tag_value_int : AuthorizationSet → Tag → Option ℕ
unfolding get_tag_value
get_tag_value_int = get_tag_value (λ v. integer_of v)

unfoldable pub get_tag_value_long : AuthorizationSet → Tag → Option ℕ
unfolding get_tag_value
get_tag_value_long = get_tag_value (λ v. long_integer_of v)

unfoldable pub get_tag_value_date : AuthorizationSet → Tag → Option ℕ
unfolding get_tag_value
get_tag_value_date = get_tag_value (λ v. date_time_of v)

-- The bytes that the blob's pointer and length name.
unfoldable pub get_tag_value_blob : AuthorizationSet → Tag → Option (List ℕ)
unfolding get_tag_value
get_tag_value_blob s = get_tag_value (λ v. slice_of s.indirect_data (blob_of null_slice v)) s

unfoldable pub get_tag_value_bool : AuthorizationSet → Tag → Bool
unfolding get_tag_value
get_tag_value_bool s tag = elim (get_tag_value (λ v. boolean_of v) s tag) [
  | none ↦ false
  | some b ↦ b
]

-- The loop `while (count <= instance)` of the repeated getters, by the rounds that are left.
unfoldable pub rep_loop : ℕ → AuthorizationSet → Tag → Option ℕ → Option ℕ
rep_loop zero s tag pos = pos
rep_loop (suc rounds) s tag pos = elim (find s tag pos) [
  | none ↦ none
  | some i ↦ rep_loop rounds s tag (some i)
]

unfoldable pub get_tag_value_rep {ℓ} :
    {A : Type ℓ} → (Value Slice → A) → AuthorizationSet → Tag → ℕ → Option A
get_tag_value_rep member s tag instance' =
    value_at member s.elems (rep_loop (suc instance') s tag none)

unfoldable pub get_tag_value_enum_rep : AuthorizationSet → Tag → ℕ → Option ℕ
unfolding get_tag_value_rep
get_tag_value_enum_rep = get_tag_value_rep (λ v. enumerated_of v)

unfoldable pub get_tag_value_int_rep : AuthorizationSet → Tag → ℕ → Option ℕ
unfolding get_tag_value_rep
get_tag_value_int_rep = get_tag_value_rep (λ v. integer_of v)

unfoldable pub get_tag_value_long_rep : AuthorizationSet → Tag → ℕ → Option ℕ
unfolding get_tag_value_rep
get_tag_value_long_rep = get_tag_value_rep (λ v. long_integer_of v)

-- `GetTagValue` of a repeatable enumerated tag, which wants exactly one instance.
unfoldable pub get_single_enum_rep : AuthorizationSet → Tag → Option ℕ
unfolding get_tag_count
get_single_enum_rep s tag = elim (get_tag_count s tag) [
  | none ↦ none
  | some n ↦ if n == 1 then get_tag_value_enum_rep s tag 0 else none
]

unfoldable pub any_value : (Value Slice → ℕ) → Tag → ℕ → List Elem → Bool
any_value member tag val [] = false
any_value member tag val (e ∷ es) =
    if same_tag e.tag tag && member e.value == val then true else any_value member tag val es

unfoldable pub contains_enum_value : AuthorizationSet → Tag → ℕ → Bool
unfolding any_value
contains_enum_value s tag val = any_value (λ v. enumerated_of v) tag val s.elems

unfoldable pub contains_int_value : AuthorizationSet → Tag → ℕ → Bool
unfolding any_value
contains_int_value s tag val = any_value (λ v. integer_of v) tag val s.elems
