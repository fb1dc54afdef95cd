-- ===== src/Messages/Fields.antt =====
-- The fields of a message, written and read back.
use platform_system_keymaste.Common.{
  ℕ, ◌<◌, ◌≡◌, refl, ◌∙◌, Bool, true, false, List, [], Option, some, arith, length, append-nil,
  if◌then◌else◌, Option-cases, inl, inr,
}
use platform_system_keymaste.Wire.{Out, In, copy_size_and_data_from_buf}
use platform_system_keymaste.Wire.Advances.{Advances, some-Advances, size_and_data-Advances}
use platform_system_keymaste.AuthorizationSet.Advances.{copy_set-Advances}
use platform_system_keymaste.Wire.Carries.{Carries}
use platform_system_keymaste.Wire.Carries.Primitives.{sized-Carries}
use platform_system_keymaste.Buffer
use platform_system_keymaste.Buffer.{Buffer, Allocator, readable, available_read}
use platform_system_keymaste.Buffer.Queue.{IsValid, length-readable}
use platform_system_keymaste.Buffer.Growth.{readable_all}
use platform_system_keymaste.AuthorizationSet.{AuthorizationSet}
use platform_system_keymaste.AuthorizationSet.Codec
use platform_system_keymaste.AuthorizationSet.RoundTrip.Whole.{
  IsPlenty, IsWritable, SameSet, set-Carries,
}
use platform_system_keymaste.Messages.{
  Platform, key_blob_size, serialize_key_blob, deserialize_key_blob, copy_buffer, copy_params,
  append_params, append_if, copy_if,
}

abbrev pub IsWord64 : ℕ → Type 0
IsWord64 n = n < 0x1_0000_0000_0000_0000

-- A byte string whose length has four bytes.
abbrev pub IsShort : List ℕ → Type 0
IsShort bytes = length bytes < 0x1_0000_0000

abbrev pub IsShortBuffer : Buffer → Type 0
IsShortBuffer b = IsValid b × IsShort (readable b)

-- The same bytes can be read from both.
abbrev pub SameBuffer : Buffer → Buffer → Type 0
SameBuffer b c = (readable c ≡ readable b) × IsValid c

-- A field that is sent under a condition; else it keeps what it was.
abbrev pub Sent : {A : Type 0} → Bool → (A → Type 0) → A → A → Type 0
Sent true P old a = P a
Sent false P old a = a ≡ old

-- Memory can be allocated.
pub record IsReliable (platform : Platform) : Type 0 where
  pub plenty : IsPlenty platform.heap
  pub buffers_given : (n : ℕ) → platform.buffers.alloc n ≡ true
  pub entries_given : (n : ℕ) → platform.alloc_entries n ≡ true

pub Carries-size :
    {A : Type 0} {n m : ℕ} {f : Out → Out} {c : In → Option (A × In)} {P : A → Type 0}
    → n ≡ m
    → Carries n f c P
    → Carries m f c P
Carries-size e x = record {
  bytes = x.bytes;
  length_eq = x.length_eq ∙ e;
  writes = x.writes;
  yields = x.yields;
}

-- Nothing is written, and nothing is read.
pub nothing-Carries :
    {A : Type 0} (a : A) (P : A → Type 0) → P a → Carries 0 (λ o. o) (λ i. some (a, i)) P
nothing-Carries a P p = record {
  bytes = [];
  length_eq = refl;
  writes = λ o room. ground (arith, append-nil o.written);
  yields = λ rest ptr end room low. (a, ground arith, p);
}

module _ {A : Type 0} {n : ℕ} {f : Out → Out} {c : In → Option (A × In)} {P : A → Type 0} where
  pub if-Carries :
      (b : Bool) (old : A)
      → (b ≡ true → Carries n f c P)
      → Carries (if b then n else 0) (append_if b f) (copy_if b old c) (Sent b P old)
  unfolding append_if copy_if
  if-Carries true old x = x refl
  if-Carries false old x = nothing-Carries old (λ a. a ≡ old) refl

module _ (platform : Platform) (r : IsReliable platform) where
  pub key_blob-Carries :
      (key_blob : List ℕ)
      → IsShort key_blob
      → Carries
          (key_blob_size key_blob)
          (serialize_key_blob key_blob)
          (deserialize_key_blob platform)
          (λ a. a ≡ key_blob)
  unfolding key_blob_size serialize_key_blob deserialize_key_blob
  key_blob-Carries key_blob h =
      sized-Carries platform.heap.alloc_bytes r.plenty.bytes_given key_blob h

  pub params-Carries :
      (s : AuthorizationSet)
      → IsWritable platform.layout s
      → Carries
          (Codec.serialized_size s)
          (append_params platform s)
          (copy_params platform)
          (SameSet s)
  params-Carries s h = set-Carries platform.layout platform.heap s h r.plenty

  pub buffer-Carries :
      (b : Buffer)
      → IsShortBuffer b
      → Carries
          (Buffer.serialized_size b)
          (Buffer.serialize b)
          (copy_buffer platform)
          (SameBuffer b)
  unfolding Buffer.serialized_size Buffer.serialize Buffer.deserialize Buffer.clear copy_buffer
  buffer-Carries b h =
      let x = sized-Carries platform.buffers.alloc r.buffers_given (readable b) h.1 in
      let got : Buffer = record {
        memory = readable b;
        buffer_size = length (readable b);
        read_position = 0;
        write_position = length (readable b);
      } in
      record {
        bytes = x.bytes;
        length_eq = omega (arith, x.length_eq, length-readable b h.0);
        writes = x.writes;
        yields = λ rest ptr end room low.
            let (w, e, e') = x.yields rest ptr end room low in
            (got, ground (arith, e, e'), (readable_all (readable b), ground arith));
      }

-- Whatever the input holds, the fields are read inside it.
module _ {A : Type 0} {c : In → Option (A × In)} where
  pub copy_if-Advances : (b : Bool) (old : A) → Advances c → Advances (copy_if b old c)
  unfolding copy_if
  copy_if-Advances true old x = x
  copy_if-Advances false old x = some-Advances old

module _ (platform : Platform) where
  pub key_blob-Advances : Advances (deserialize_key_blob platform)
  unfolding deserialize_key_blob
  key_blob-Advances = size_and_data-Advances platform.heap.alloc_bytes

  pub params-Advances : Advances (copy_params platform)
  params-Advances = copy_set-Advances platform.layout platform.heap

  pub buffer-Advances : Advances (copy_buffer platform)
  unfolding copy_buffer Buffer.deserialize Buffer.clear
  buffer-Advances = record {
    moved = λ i a j h e.
        elim (Option-cases (copy_size_and_data_from_buf platform.buffers.alloc i)) [
          | inl q ↦ absurd (ground arith)
          | inr ((bytes, k), q) ↦
              let x = size_and_data-Advances platform.buffers.alloc in
              let m = x.moved i bytes k h q in ground (arith, m)
        ];
  }
