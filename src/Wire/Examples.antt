-- ===== src/Wire/Examples.antt =====
-- Tests of the functions of serializable.h, and their theorems at concrete inputs.
use platform_system_keymaste.Common.{
  ℕ, ◌≡◌, refl, Bool, true, List, [], ◌∷◌, ◌++◌, none, some, arith,
}
use platform_system_keymaste.Wire.{
  In, le_bytes, le_value, append_to_buf, append_uint32_to_buf, append_size_and_data_to_buf,
  append_uint32_array_to_buf, copy_from_buf, copy_uint32_from_buf, copy_size_and_data_from_buf,
  copy_uint32_array_from_buf,
}
use platform_system_keymaste.Wire.RoundTrip.{
  input, output, copy-append_size_and_data, copy-append_uint32_array,
}
use platform_system_keymaste.Wire.Bounds.{
  IsWithin, IsInput, Reads, append_uint32_array-IsWithin, copy_size_and_data-Reads,
}

abbrev always : ℕ → Bool
always n = true

abbrev payload : List ℕ
payload = 7 ∷ 8 ∷ 9 ∷ []

-- The size goes in front, lowest byte first.
written_payload :
    append_size_and_data_to_buf payload (output 100 200)
    ≡ record { written = 3 ∷ 0 ∷ 0 ∷ 0 ∷ payload; ptr = 107; end = 200 }
unfolding append_size_and_data_to_buf append_uint32_to_buf append_to_buf le_bytes
written_payload = refl

-- Without room for the bytes only their size is written.
written_size :
    append_size_and_data_to_buf payload (output 100 105)
    ≡ record { written = 3 ∷ 0 ∷ 0 ∷ 0 ∷ []; ptr = 104; end = 105 }
unfolding append_size_and_data_to_buf append_uint32_to_buf append_to_buf le_bytes
written_size = refl

-- A size that points behind the end is refused.
oversized : copy_size_and_data_from_buf always (input (9 ∷ 0 ∷ 0 ∷ 0 ∷ payload) 100 107) ≡ none
unfolding copy_size_and_data_from_buf copy_uint32_from_buf copy_from_buf le_value
oversized = refl

copy-append_size_and_data_example :
    let o = append_size_and_data_to_buf payload (output 100 200) in
    copy_size_and_data_from_buf always (input (o.written ++ 1 ∷ []) 100 200)
    ≡ some (payload, input (1 ∷ []) o.ptr 200)
copy-append_size_and_data_example =
    copy-append_size_and_data always 100 200 (λ n. refl) (omega arith) payload (1 ∷ [])
      (omega arith) (omega arith)

copy-append_uint32_array_example :
    let o = append_uint32_array_to_buf (300 ∷ 70000 ∷ []) (output 100 200) in
    copy_uint32_array_from_buf always (input (o.written ++ []) 100 200)
    ≡ some (300 ∷ 70000 ∷ [], input [] o.ptr 200)
copy-append_uint32_array_example =
    copy-append_uint32_array always 100 200 (λ n. refl) (omega arith) (300 ∷ 70000 ∷ []) []
      (omega arith) (omega arith) (omega arith)

append_uint32_array-IsWithin_example :
    IsWithin 100 (append_uint32_array_to_buf (1 ∷ 2 ∷ []) (output 100 110))
append_uint32_array-IsWithin_example =
    append_uint32_array-IsWithin 100 (1 ∷ 2 ∷ []) (output 100 110) (omega arith)

abbrev message : In
message = input (3 ∷ 0 ∷ 0 ∷ 0 ∷ 7 ∷ 8 ∷ 9 ∷ 1 ∷ []) 100 108

copy_size_and_data-Reads_example :
    (header : List ℕ) × (le_value header ≡ 3)
    × IsInput (input (1 ∷ []) 107 108)
    × Reads 7 (header ++ payload) message (input (1 ∷ []) 107 108)
unfolding copy_size_and_data_from_buf copy_uint32_from_buf copy_from_buf le_value
copy_size_and_data-Reads_example = copy_size_and_data-Reads always message (omega arith) refl
