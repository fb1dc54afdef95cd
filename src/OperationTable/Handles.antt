-- ===== src/OperationTable/Handles.antt =====
-- Which operation stands under which handle: operation_table.cpp.
use platform_system_keymaste.Common.{
  ℕ, suc, ◌≡◌, ◌≢◌, refl, ap, ◌⊎◌, inl, inr, false, List, [], ◌∷◌, Option, none, some, arith,
  length, All, Bool-cases, Option-cases, ◌==◌, if◌then◌else◌,
}
use platform_system_keymaste.OperationTable.{
  Entry, OperationTable, entries, occupy, find_entry, find, delete_entry, delete, put_entry, put,
}

module _ {O : Type 0} where
  -- A slot is free exactly if its handle is 0.
  abbrev pub IsMarked : Entry O → Type 0
  IsMarked e =
      ((e.operation ≡ none) × (e.handle ≡ 0))
      ⊎ ((op : O) × (e.operation ≡ some op) × (e.handle ≢ 0))

  -- No later slot has the handle of an operation.
  abbrev pub IsDistinct : List (Entry O) → Type 0
  IsDistinct [] = Unit {0}
  IsDistinct (e ∷ es) = ((e.handle ≡ 0) ⊎ (find_entry e.handle es ≡ none)) × IsDistinct es

  pub record IsValid (t : OperationTable O) : Type 0 where
    pub marked : All IsMarked (entries t)
    pub distinct : IsDistinct (entries t)
    pub sized : (t.table ≡ none) ⊎ (length (entries t) ≡ t.table_size)

  pub occupy-find :
      (handle j : ℕ) (op : O) (es es' : List (Entry O))
      → handle ≢ 0
      → j ≢ 0
      → All IsMarked es
      → find_entry handle es ≡ none
      → occupy handle op es ≡ some es'
      → find_entry j es' ≡ (if j == handle then some op else find_entry j es)
  unfolding occupy find_entry
  occupy-find handle j op [] es' nz jz m fresh h = cc
  occupy-find handle j op (e ∷ es) es' nz jz m fresh h = elim m.0 [
    | inl (q, z) ↦ ground arith
    | inr (other, q, z) ↦ elim (Option-cases (occupy handle op es)) [
      | inl r ↦ absurd (ground arith)
      | inr (rest, r) ↦ let ih = occupy-find handle j op es rest nz jz m.1 in ground (arith, ih)
    ]
  ]

  find-delete_entry :
      (handle j : ℕ) (es : List (Entry O))
      → j ≢ 0
      → handle ≢ 0
      → All IsMarked es
      → IsDistinct es
      → find_entry j (delete_entry handle es).0 ≡ (if j == handle then none else find_entry j es)
  unfolding delete_entry find_entry
  find-delete_entry handle j [] jz hz m d = ground arith
  find-delete_entry handle j (e ∷ es) jz hz m d =
      let ih = find-delete_entry handle j es jz hz m.1 d.1 in ground (arith, ih, d.0)

  pub occupy-IsDistinct :
      (handle : ℕ) (op : O) (es es' : List (Entry O))
      → handle ≢ 0
      → All IsMarked es
      → IsDistinct es
      → find_entry handle es ≡ none
      → occupy handle op es ≡ some es'
      → All IsMarked es' × IsDistinct es' × (length es' ≡ length es)
  unfolding occupy find_entry
  occupy-IsDistinct handle op [] es' nz m d fresh h = cc
  occupy-IsDistinct handle op (e ∷ es) es' nz m d fresh h = elim m.0 [
    | inl (q, z) ↦
        let eq : es' ≡ record { handle = handle; operation = some op } ∷ es = ground arith in
        rw eq ((inr (op, refl, nz), m.1), (inr (ground arith), d.1), refl)
    | inr (other, q, z) ↦ elim (Option-cases (occupy handle op es)) [
      | inl r ↦ absurd (ground arith)
      | inr (rest, r) ↦
          let eq : es' ≡ e ∷ rest = ground arith in
          let ne : (e.handle == handle) ≡ false = ground arith in
          let fresh' : find_entry handle es ≡ none = ground arith in
          let (m', d', n') = occupy-IsDistinct handle op es rest nz m.1 d.1 fresh' r in
          let found = occupy-find handle e.handle op es rest nz z m.1 fresh' r in
          rw eq ((m.0, m'), (ground (arith, d.0), d'), ap suc n')
    ]
  ]

  delete_entry-none :
      (handle j : ℕ) (es : List (Entry O))
      → All IsMarked es
      → find_entry j es ≡ none
      → find_entry j (delete_entry handle es).0 ≡ none
  unfolding delete_entry find_entry
  delete_entry-none handle j [] m h = refl
  delete_entry-none handle j (e ∷ es) m h = ground (arith, delete_entry-none handle j es m.1)

  delete_entry-IsDistinct :
      (handle : ℕ) (es : List (Entry O))
      → handle ≢ 0
      → All IsMarked es
      → IsDistinct es
      → All IsMarked (delete_entry handle es).0
        × IsDistinct (delete_entry handle es).0
        × (length (delete_entry handle es).0 ≡ length es)
  unfolding delete_entry find_entry
  delete_entry-IsDistinct handle [] hz m d = (tt, tt, refl)
  delete_entry-IsDistinct handle (e ∷ es) hz m d = elim (Bool-cases (e.handle == handle)) [
    | inl same ↦ rw same ((inl (refl, refl), m.1), (inl refl, d.1), refl)
    | inr other ↦
        let (m', d', n') = delete_entry-IsDistinct handle es hz m.1 d.1 in
        let found = delete_entry-none handle e.handle es m.1 in
        rw other ((m.0, m'), (ground (arith, d.0, found), d'), ap suc n')
  ]

  find-put_entry_ne :
      (handle j : ℕ) (op : O) (es : List (Entry O))
      → j ≢ handle
      → find_entry j (put_entry handle op es) ≡ find_entry j es
  unfolding put_entry find_entry
  find-put_entry_ne handle j op [] ne = refl
  find-put_entry_ne handle j op (e ∷ es) ne = ground (arith, find-put_entry_ne handle j op es ne)

  find-put_entry_self :
      (handle : ℕ) (op old : O) (es : List (Entry O))
      → find_entry handle es ≡ some old
      → find_entry handle (put_entry handle op es) ≡ some op
  unfolding put_entry find_entry
  find-put_entry_self handle op old [] h = cc
  find-put_entry_self handle op old (e ∷ es) h =
      ground (arith, find-put_entry_self handle op old es)

  put_entry-IsDistinct :
      (handle : ℕ) (op : O) (es : List (Entry O))
      → handle ≢ 0
      → All IsMarked es
      → IsDistinct es
      → All IsMarked (put_entry handle op es)
        × IsDistinct (put_entry handle op es)
        × (length (put_entry handle op es) ≡ length es)
  unfolding put_entry find_entry
  put_entry-IsDistinct handle op [] hz m d = (tt, tt, refl)
  put_entry-IsDistinct handle op (e ∷ es) hz m d =
      let (m', d', n') = put_entry-IsDistinct handle op es hz m.1 d.1 in
      let found = find-put_entry_ne handle e.handle op es in
      elim (Bool-cases (e.handle == handle)) [
        | inl same ↦ rw same ((inr (op, refl, ground arith), m.1), d, refl)
        | inr other ↦ rw other ((m.0, m'), (ground (arith, d.0, found), d'), ap suc n')
      ]

  find_lem : (j : ℕ) (t : OperationTable O) → j ≢ 0 → find j t ≡ find_entry j (entries t)
  unfolding find
  find_lem j t jz = ground arith

  abbrev pub table_of : Option (List (Entry O)) → ℕ → OperationTable O
  table_of o n = record { table = o; table_size = n }

  delete_of :
      (handle j : ℕ) (o : Option (List (Entry O))) (n : ℕ)
      → handle ≢ 0
      → IsValid (table_of o n)
      → (find j (delete handle (table_of o n)).0
          ≡ (if j == handle then none else find j (table_of o n)))
        × IsValid (delete handle (table_of o n)).0
  unfolding find delete entries
  delete_of handle j none n hz v = (ground arith, v)
  delete_of handle j (some es) n hz v =
      let (m, d, len) = delete_entry-IsDistinct handle es hz v.marked v.distinct in
      (
        ground (arith, find-delete_entry handle j es, v.marked, v.distinct),
        record { marked = m; distinct = d; sized = ground (arith, len, v.sized) },
      )

  -- Deleting the handle of an operation takes it out of the table, and no other; the table stays
  -- well formed.
  pub find-delete :
      (handle j : ℕ) (t : OperationTable O)
      → handle ≢ 0
      → IsValid t
      → (find j (delete handle t).0 ≡ (if j == handle then none else find j t))
        × IsValid (delete handle t).0
  find-delete handle j t hz v = delete_of handle j t.table t.table_size hz v

  put_of :
      (handle j : ℕ) (op old : O) (o : Option (List (Entry O))) (n : ℕ)
      → find handle (table_of o n) ≡ some old
      → IsValid (table_of o n)
      → (find j (put handle op (table_of o n))
          ≡ (if j == handle then some op else find j (table_of o n)))
        × IsValid (put handle op (table_of o n))
  unfolding find put entries
  put_of handle j op old none n h v = absurd (ground arith)
  put_of handle j op old (some es) n h v =
      let hz : handle ≢ 0 = ground arith in
      let (m, d, len) = put_entry-IsDistinct handle op es hz v.marked v.distinct in
      (
        ground (arith, find-put_entry_ne handle j op es, find-put_entry_self handle op old es),
        record { marked = m; distinct = d; sized = ground (arith, len, v.sized) },
      )

  -- What an operation changes in itself is found under its handle, and changes no other operation.
  pub find-put :
      (handle j : ℕ) (op old : O) (t : OperationTable O)
      → find handle t ≡ some old
      → IsValid t
      → (find j (put handle op t) ≡ (if j == handle then some op else find j t))
        × IsValid (put handle op t)
  find-put handle j op old t h v = put_of handle j op old t.table t.table_size h v
