-- ===== src/Buffer/Examples.antt =====
-- Tests of Buffer, and its theorems at concrete inputs.
use platform_system_keymaste.Common.{
  ℕ, zero, suc, ◌≡◌, refl, ap, leb, true, List, [], ◌∷◌, ◌++◌, some, arith, length,
}
use platform_system_keymaste.Wire.RoundTrip.{input, output}
use platform_system_keymaste.Buffer.{
  Buffer, Allocator, available_write, readable, overwrite, reserve, deserialize, write, read,
  serialize, serialized_size,
}
use platform_system_keymaste.Buffer.Queue.{IsValid, readable-write, readable-read}
use platform_system_keymaste.Buffer.Growth.{
  reserves, step, step-IsValid, readable-reserve, deserialize-serialize,
}

zeros : ℕ → List ℕ
zeros zero = []
zeros (suc n) = 0 ∷ zeros n

length-zeros : (n : ℕ) → length (zeros n) ≡ n
unfolding zeros
length-zeros zero = refl
length-zeros (suc n) = ap suc (length-zeros n)

abbrev plenty : Allocator
plenty = record { alloc = λ n. true; fresh = zeros; length-fresh = length-zeros }

-- Eight bytes, of which one was read, two can be read and five can be written.
abbrev sample : Buffer
sample = record {
  memory = 1 ∷ 2 ∷ 3 ∷ 0 ∷ 0 ∷ 0 ∷ 0 ∷ 0 ∷ [];
  buffer_size = 8;
  read_position = 1;
  write_position = 3;
}

sample-IsValid : IsValid sample
sample-IsValid = record { size_eq = refl; read_le = omega arith; write_le = omega arith }

sample-readable : readable sample ≡ 2 ∷ 3 ∷ []
unfolding readable
sample-readable = refl

-- A growing buffer moves the readable bytes to its front.
sample_grown : (reserve plenty sample 6).0.memory ≡ 2 ∷ 3 ∷ 0 ∷ 0 ∷ 0 ∷ 0 ∷ 0 ∷ 0 ∷ 0 ∷ []
unfolding reserve readable overwrite zeros
sample_grown = refl

readable-write_example :
    ((write sample (4 ∷ [])).1 ≡ true)
    × (readable (write sample (4 ∷ [])).0 ≡ readable sample ++ 4 ∷ [])
unfolding available_write
readable-write_example = readable-write sample (4 ∷ []) sample-IsValid

readable-read_example : ((read sample 1).1 ≡ some (2 ∷ [])) × (readable (read sample 1).0 ≡ 3 ∷ [])
unfolding readable
readable-read_example = readable-read sample 1 sample-IsValid

readable-reserve_example :
    (readable (reserve plenty sample 6).0 ≡ readable sample)
    × ((reserve plenty sample 6).1 ≡ leb 6 (available_write (reserve plenty sample 6).0))
readable-reserve_example = readable-reserve plenty sample 6 sample-IsValid (omega arith)

step-IsValid_example : IsValid (step plenty sample (reserves 6))
step-IsValid_example = step-IsValid plenty sample (reserves 6) (omega arith) sample-IsValid

deserialize-serialize_example :
    let o = serialize sample (output 100 200) in
    let d = deserialize plenty sample (input (o.written ++ []) 100 200) in
    (readable d.0 ≡ readable sample) × IsValid d.0 × (d.1 ≡ some (input [] o.ptr 200))
unfolding readable serialized_size
deserialize-serialize_example =
    deserialize-serialize plenty 100 200 (λ n. refl) (omega arith) sample sample [] sample-IsValid
      (omega arith) (omega arith)
