-- ===== src/OperationTable.antt =====
-- The class OperationTable of operation_table.h and operation_table.cpp: a fixed number of slots for
-- the operations that have begun, each under a random handle. A slot is free if its pointer is null.
-- Operations are values here, so that what a method changes in the object behind a pointer is put
-- back by `put`.
pub mod Handles
pub mod Adding
pub mod Slots
mod Examples
use platform_system_keymaste.Common.{
  ℕ, zero, suc, Bool, true, false, List, [], ◌∷◌, Option, none, some, ◌==◌, if◌then◌else◌,
}
use platform_system_keymaste.Defs.Codes.{KeymasterError}

pub record Entry (O : Type 0) : Type 0 where
  pub handle : ℕ
  pub operation : Option O

-- The array is a null pointer before the first operation is added.
pub record OperationTable (O : Type 0) : Type 0 where
  pub table : Option (List (Entry O))
  pub table_size : ℕ

-- What the allocation of the array and the generator of random numbers answer to one call: the
-- handle is none if RAND_bytes fails, and `ssl_error` is what TranslateLastOpenSslError says then.
pub record Chance : Type 0 where
  pub has_memory : Bool
  pub random_handle : Option ℕ
  pub ssl_error : KeymasterError

module _ {O : Type 0} where
  abbrev pub free_entry : Entry O
  free_entry = record { handle = 0; operation = none }

  -- `new Entry[table_size_]`
  unfoldable pub free_entries : ℕ → List (Entry O)
  free_entries zero = []
  free_entries (suc n) = free_entry ∷ free_entries n

  -- The entries, or none for a null pointer.
  unfoldable pub entries : OperationTable O → List (Entry O)
  entries t = elim t.table [ none ↦ [] | some es ↦ es ]

  -- The loop of `Add`: the first free slot takes the operation.
  unfoldable pub occupy : ℕ → O → List (Entry O) → Option (List (Entry O))
  occupy handle op [] = none
  occupy handle op (e ∷ es) = elim e.operation [
    | none ↦ some (record { handle = handle; operation = some op } ∷ es)
    | some other ↦ elim (occupy handle op es) [ none ↦ none | some es' ↦ some (e ∷ es') ]
  ]

  -- The array is there after this, unless there is no memory for it.
  unfoldable pub allocate : Chance → OperationTable O → Option (OperationTable O)
  unfolding free_entries
  allocate chance t = elim t.table [
    | some es ↦ some t
    | none ↦
        if chance.has_memory
        then some (record t { table = some (free_entries t.table_size) })
        else none
  ]

  unfoldable pub add_at : ℕ → O → OperationTable O → OperationTable O × ℕ × KeymasterError
  unfolding occupy entries
  add_at handle op t =
      if handle == 0
      then (t, handle, KeymasterError.unknown_error)
      else elim (occupy handle op (entries t)) [
        | none ↦ (t, handle, KeymasterError.too_many_operations)
        | some es ↦ (record t { table = some es }, handle, KeymasterError.ok)
      ]

  -- `Add`, with the handle that it leaves behind `op_handle`.
  unfoldable pub add : Chance → O → ℕ → OperationTable O → OperationTable O × ℕ × KeymasterError
  unfolding allocate add_at
  add chance op op_handle t = elim (allocate chance t) [
    | none ↦ (t, op_handle, KeymasterError.memory_allocation_failed)
    | some t' ↦ elim chance.random_handle [
      | none ↦ (t', op_handle, chance.ssl_error)
      | some handle ↦ add_at handle op t'
    ]
  ]

  unfoldable pub find_entry : ℕ → List (Entry O) → Option O
  find_entry op_handle [] = none
  find_entry op_handle (e ∷ es) =
      if e.handle == op_handle then e.operation else find_entry op_handle es

  unfoldable pub find : ℕ → OperationTable O → Option O
  unfolding find_entry entries
  find op_handle t = if op_handle == 0 then none else find_entry op_handle (entries t)

  unfoldable pub delete_entry : ℕ → List (Entry O) → List (Entry O) × Bool
  delete_entry op_handle [] = ([], false)
  delete_entry op_handle (e ∷ es) =
      let (es', done) = delete_entry op_handle es in
      if e.handle == op_handle then (free_entry ∷ es, true) else (e ∷ es', done)

  unfoldable pub delete : ℕ → OperationTable O → OperationTable O × Bool
  unfolding delete_entry
  delete op_handle t = elim t.table [
    | none ↦ (t, false)
    | some es ↦ let (es', done) = delete_entry op_handle es in (record t { table = some es' }, done)
  ]

  unfoldable pub put_entry : ℕ → O → List (Entry O) → List (Entry O)
  put_entry op_handle op [] = []
  put_entry op_handle op (e ∷ es) =
      let es' = put_entry op_handle op es in
      if e.handle == op_handle then record e { operation = some op } ∷ es else e ∷ es'

  -- The object that `Find` returned has changed.
  unfoldable pub put : ℕ → O → OperationTable O → OperationTable O
  unfolding put_entry
  put op_handle op t = elim t.table [
    | none ↦ t
    | some es ↦ record t { table = some (put_entry op_handle op es) }
  ]
