-- ===== src/OperationTable/Examples.antt =====
-- Tests of OperationTable, and its theorems at concrete inputs: operation_table.cpp.
use platform_system_keymaste.Common.{
  ℕ, ◌≡◌, refl, inl, inr, true, [], ◌∷◌, none, some, arith, ◌==◌, if◌then◌else◌,
}
use platform_system_keymaste.Defs.Codes.{KeymasterError}
use platform_system_keymaste.OperationTable.{
  OperationTable, Chance, free_entry, entries, add, find_entry, find, delete_entry, delete, put,
}
use platform_system_keymaste.OperationTable.Handles.{IsValid, find-delete, find-put}
use platform_system_keymaste.OperationTable.Adding.{Added, IsFresh, add-Added}

-- Three slots, of which the first is free. An operation is a number here.
abbrev sample : OperationTable ℕ
sample = record {
  table = some (
      free_entry
      ∷ record { handle = 7; operation = some 70 }
      ∷ record { handle = 9; operation = some 90 }
      ∷ []);
  table_size = 3;
}

sample-IsValid : IsValid sample
unfolding entries find_entry
sample-IsValid = record {
  marked = (inl (refl, refl), (inr (70, refl, omega arith), (inr (90, refl, omega arith), tt)));
  distinct = (inl refl, (inr refl, (inr refl, tt)));
  sized = inr refl;
}

abbrev lucky : Chance
lucky = record {
  has_memory = true;
  random_handle = some 5;
  ssl_error = KeymasterError.unknown_error;
}

lucky-IsFresh : IsFresh lucky sample
unfolding find find_entry entries
lucky-IsFresh r h = let eq : r ≡ 5 = ground arith in rw eq refl

-- A handle of 0 is no operation's, and yet `Delete` takes it.
delete_zero : (find 0 sample ≡ none) × ((delete 0 sample).1 ≡ true)
unfolding find delete delete_entry
delete_zero = (refl, refl)

find-delete_example :
    (find 9 (delete 7 sample).0 ≡ (if 9 == 7 then none else find 9 sample))
    × IsValid (delete 7 sample).0
find-delete_example = find-delete 7 9 sample (omega arith) sample-IsValid

find-put_example :
    (find 9 (put 7 71 sample) ≡ (if 9 == 7 then some 71 else find 9 sample))
    × IsValid (put 7 71 sample)
unfolding find find_entry entries
find-put_example = find-put 7 9 71 70 sample refl sample-IsValid

add-Added_example : Added 50 sample (add lucky 50 0 sample)
add-Added_example = add-Added lucky 50 0 sample sample-IsValid lucky-IsFresh cc
