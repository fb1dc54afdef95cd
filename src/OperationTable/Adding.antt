-- ===== src/OperationTable/Adding.antt =====
-- `Add` of operation_table.cpp: what becomes of the table on each of its ways out.
use platform_system_keymaste.Common.{
  ℕ, zero, suc, ◌≡◌, ◌≢◌, refl, ap, ◌∙◌, ◌⊎◌, inl, inr, List, Option, none, some, arith, length,
  All, Bool-cases, Option-cases, ◌==◌, if◌then◌else◌,
}
use platform_system_keymaste.Defs.Codes.{KeymasterError}
use platform_system_keymaste.OperationTable.{
  Entry, OperationTable, Chance, free_entries, entries, occupy, allocate, add_at, add, find_entry,
  find,
}
use platform_system_keymaste.OperationTable.Handles.{
  IsMarked, IsDistinct, IsValid, occupy-find, occupy-IsDistinct, table_of,
}

module _ (O : Type 0) where
  find-free_entries : (j n : ℕ) → find_entry {O = O} j (free_entries n) ≡ none
  unfolding find_entry free_entries
  find-free_entries j zero = refl
  find-free_entries j (suc n) = ground (arith, find-free_entries j n)

  free_entries-IsDistinct :
      (n : ℕ)
      → All (IsMarked {O = O}) (free_entries n)
        × IsDistinct {O = O} (free_entries n)
        × (length {A = Entry O} (free_entries n) ≡ n)
  unfolding free_entries
  free_entries-IsDistinct zero = (tt, tt, refl)
  free_entries-IsDistinct (suc n) =
      let (m, d, len) = free_entries-IsDistinct n in
      ((inl (refl, refl), m), (inl refl, d), ap suc len)

module _ {O : Type 0} where
  -- What `add` may do to a table, and to the handle and the error that it answers with.
  abbrev pub Added : O → OperationTable O → OperationTable O × ℕ × KeymasterError → Type 0
  Added op t r =
      IsValid r.0
      × (((r.2 ≡ KeymasterError.ok)
            × (r.1 ≢ 0)
            × ((j : ℕ) → find j r.0 ≡ (if j == r.1 then some op else find j t)))
          ⊎ ((r.2 ≢ KeymasterError.ok) × ((j : ℕ) → find j r.0 ≡ find j t)))

  add_at-Added :
      (handle : ℕ) (op : O) (es : List (Entry O)) (n : ℕ)
      → IsValid (table_of (some es) n)
      → find handle (table_of (some es) n) ≡ none
      → Added op (table_of (some es) n) (add_at handle op (table_of (some es) n))
  unfolding add_at entries find
  add_at-Added handle op es n v fresh = elim (Bool-cases (handle == 0)) [
    | inl zeroed ↦ rw (zeroed, add_at) (v, inr (cc, λ j. refl))
    | inr nz ↦ elim (Option-cases (occupy handle op es)) [
      | inl full ↦ rw (nz, full, add_at) (v, inr (cc, λ j. refl))
      | inr (es', q) ↦
          let hz : handle ≢ 0 = ground arith in
          let fresh' : find_entry handle es ≡ none = ground arith in
          let (m, d, len) = occupy-IsDistinct handle op es es' hz v.marked v.distinct fresh' q in
          rw (nz, q, add_at)
            (
              record { marked = m; distinct = d; sized = ground (arith, len, v.sized) },
              inl (
                refl,
                hz,
                λ j. ground (arith, occupy-find handle j op es es' hz, v.marked, fresh', q),
              ),
            )
    ]
  ]

  abbrev pub IsFresh : Chance → OperationTable O → Type 0
  IsFresh chance t = (r : ℕ) → chance.random_handle ≡ some r → find r t ≡ none

  chosen :
      (chance : Chance) (op : O) (op_handle : ℕ) (o : Option (List (Entry O))) (es : List (Entry O))
      (n : ℕ)
      → allocate chance (table_of o n) ≡ some (table_of (some es) n)
      → IsValid (table_of (some es) n)
      → ((j : ℕ) → find j (table_of (some es) n) ≡ find j (table_of o n))
      → IsFresh chance (table_of o n)
      → chance.ssl_error ≢ KeymasterError.ok
      → Added op (table_of o n) (add chance op op_handle (table_of o n))
  unfolding add
  chosen chance op op_handle o es n got v same fresh not_ok =
      elim (Option-cases chance.random_handle) [
        | inl q ↦ rw (got, q, add) (v, inr (not_ok, same))
        | inr (r, q) ↦
            rw (got, q, add)
              (let (v', e) = add_at-Added r op es n v (same r ∙ fresh r q) in
                (
                  v',
                  elim e [
                    | inl (k, hz, f) ↦ inl (k, hz, λ j. f j ∙ ground (arith, same j))
                    | inr (k, f) ↦ inr (k, λ j. f j ∙ same j)
                  ],
                ))
      ]

  add_to :
      (chance : Chance) (op : O) (op_handle : ℕ) (o : Option (List (Entry O))) (n : ℕ)
      → IsValid (table_of o n)
      → IsFresh chance (table_of o n)
      → chance.ssl_error ≢ KeymasterError.ok
      → Added op (table_of o n) (add chance op op_handle (table_of o n))
  unfolding add allocate entries find
  add_to chance op op_handle (some es) n v fresh not_ok =
      chosen chance op op_handle (some es) es n refl v (λ j. refl) fresh not_ok
  add_to chance op op_handle none n v fresh not_ok = elim (Bool-cases chance.has_memory) [
    | inr lacks ↦ rw (lacks, add) (v, inr (cc, λ j. refl))
    | inl has ↦
        let (m, d, len) = free_entries-IsDistinct O n in
        chosen chance op op_handle none (free_entries n) n (ground arith)
          (record { marked = m; distinct = d; sized = inr len })
          (λ j. ground (arith, find-free_entries O j n)) fresh not_ok
  ]

  -- Adding an operation to a well-formed table, under a handle that no operation has, keeps the table
  -- well formed. It either says OK, and then the operation is found under its handle, which is not 0,
  -- and all others as before, or says an error and changes no operation. The error that OpenSSL
  -- translates to is assumed not to be OK.
  pub add-Added :
      (chance : Chance) (op : O) (op_handle : ℕ) (t : OperationTable O)
      → IsValid t
      → IsFresh chance t
      → chance.ssl_error ≢ KeymasterError.ok
      → Added op t (add chance op op_handle t)
  add-Added chance op op_handle t v fresh not_ok =
      add_to chance op op_handle t.table t.table_size v fresh not_ok
