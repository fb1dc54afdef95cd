-- ===== src/OperationTable/Slots.antt =====
-- Free slots of the table of operation_table.cpp: an operation that is added needs one, and an
-- operation that is deleted leaves one.
use platform_system_keymaste.Common.{
  ℕ, ◌≡◌, ◌≢◌, refl, ◌⊎◌, inl, inr, List, [], ◌∷◌, none, some, arith, Bool-cases, Option-cases,
  ◌==◌,
}
use platform_system_keymaste.Defs.Codes.{KeymasterError}
use platform_system_keymaste.OperationTable.{
  Entry, OperationTable, Chance, occupy, allocate, add_at, entries, add, find_entry, find,
  delete_entry, delete,
}

module _ {O : Type 0} where
  -- An entry has no operation.
  abbrev pub HasSlot : List (Entry O) → Type 0
  HasSlot [] = ⊥
  HasSlot (e ∷ es) = (e.operation ≡ none) ⊎ HasSlot es

  -- The array is there, and an entry of it is free.
  abbrev pub HasRoom : OperationTable O → Type 0
  HasRoom t = (es : List (Entry O)) × (t.table ≡ some es) × HasSlot es

  occupy-HasSlot :
      (handle : ℕ) (op : O) (es : List (Entry O))
      → HasSlot es
      → (es' : List (Entry O)) × (occupy handle op es ≡ some es')
  unfolding occupy
  occupy-HasSlot handle op [] h = absurd h
  occupy-HasSlot handle op (e ∷ es) h = elim (Option-cases e.operation) [
    | inl q ↦ (record { handle = handle; operation = some op } ∷ es, rw (q, occupy) refl)
    | inr (other, q) ↦
        let rest : HasSlot es = elim h [ inl n ↦ absurd cc | inr x ↦ x ] in
        let (es', p) = occupy-HasSlot handle op es rest in (e ∷ es', ground (arith, q, p))
  ]

  -- With a random handle that is not 0, `Add` puts an operation in a table with a free slot.
  pub add-HasRoom :
      (chance : Chance) (op : O) (op_handle handle : ℕ) (t : OperationTable O)
      → HasRoom t
      → chance.random_handle ≡ some handle
      → handle ≢ 0
      → ((add chance op op_handle t).2 ≡ KeymasterError.ok)
        × ((add chance op op_handle t).1 ≡ handle)
  unfolding add allocate add_at entries
  add-HasRoom chance op op_handle handle t (es, e, h) q nz =
      let (es', p) = occupy-HasSlot handle op es h in ground (arith, e, p)

  delete_entry-HasSlot :
      (handle : ℕ) (es : List (Entry O)) (op : O)
      → find_entry handle es ≡ some op
      → HasSlot (delete_entry handle es).0
  unfolding find_entry delete_entry
  delete_entry-HasSlot handle [] op h = cc
  delete_entry-HasSlot handle (e ∷ es) op h = elim (Bool-cases (e.handle == handle)) [
    | inl q ↦ rw (q, delete_entry) (inl refl)
    | inr q ↦ rw (q, delete_entry) (inr (delete_entry-HasSlot handle es op (ground arith)))
  ]

  -- After the deletion of an operation that was found there is a free slot.
  pub delete-HasRoom :
      (handle : ℕ) (t : OperationTable O) (op : O)
      → find handle t ≡ some op
      → HasRoom (delete handle t).0
  unfolding find delete entries
  delete-HasRoom handle t op h = elim (Option-cases t.table) [
    | inl q ↦ absurd (ground arith)
    | inr (es, q) ↦
        let slot = delete_entry-HasSlot handle es op (ground arith) in
        ((delete_entry handle es).0, rw (q, delete) refl, slot)
  ]
