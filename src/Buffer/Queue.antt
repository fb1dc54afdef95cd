-- ===== src/Buffer/Queue.antt =====
-- A buffer is a queue of bytes: `write` appends to the readable bytes, and `read` takes from their
-- front. (Class Buffer, serializable.cpp.)
use platform_system_keymaste.Common.{
  ℕ, ◌+◌, ◌-◌, ◌≤◌, ◌≡◌, sym, ap, ◌∙◌, List, ◌++◌, none, some, arith, length, take, drop,
  length-append, length-take, length-drop, take-append, drop-append, take-append-drop, take-le,
  append_assoc, leb, if◌then◌else◌,
}
use platform_system_keymaste.Buffer.{
  Buffer, available_read, available_write, readable, overwrite, write, read,
}

pub record IsValid (b : Buffer) : Type 0 where
  pub size_eq : length b.memory ≡ b.buffer_size
  pub read_le : b.read_position ≤ b.write_position
  pub write_le : b.write_position ≤ b.buffer_size

pub length-readable : (b : Buffer) → IsValid b → length (readable b) ≡ available_read b
unfolding readable available_read
length-readable b v =
    length-take _ _
      (omega (arith, length-drop b.read_position b.memory, v.size_eq, v.read_le, v.write_le))

-- The memory in three parts: what was read, what can be read, and what can be written.
record Parts (b : Buffer) (mid : List ℕ) : Type 0 where
  pre : List ℕ
  post : List ℕ
  memory_eq : b.memory ≡ pre ++ (mid ++ post)
  read_eq : b.read_position ≡ length pre
  write_eq : b.write_position ≡ length pre + length mid

readable-Parts : (b : Buffer) (mid : List ℕ) → Parts b mid → readable b ≡ mid
unfolding readable
readable-Parts b mid p = ground (
  arith,
  p.memory_eq,
  p.read_eq,
  p.write_eq,
  drop-append p.pre (mid ++ p.post),
  take-append mid p.post,
)

parts : (b : Buffer) → IsValid b → Parts b (readable b)
unfolding readable available_read
parts b v =
    let rest = drop b.read_position b.memory in
    let n = b.write_position - b.read_position in
    let k : n ≤ length rest =
      omega (arith, length-drop b.read_position b.memory, v.size_eq, v.read_le, v.write_le) in
    let l : b.read_position ≤ length b.memory = omega (arith, v.size_eq, v.read_le, v.write_le) in
    record {
      pre = take b.read_position b.memory;
      post = drop n rest;
      memory_eq = rw (take-append-drop n rest) (sym (take-append-drop b.read_position b.memory));
      read_eq = sym (length-take b.read_position b.memory l);
      write_eq =
          omega (arith, length-take b.read_position b.memory l, length-take n rest k, v.read_le);
    }

take-Parts :
    (b : Buffer) (mid : List ℕ) (p : Parts b mid) → take b.write_position b.memory ≡ p.pre ++ mid
take-Parts b mid p = ground (
  arith,
  p.memory_eq,
  p.write_eq,
  append_assoc p.pre mid p.post,
  length-append p.pre mid,
  take-append (p.pre ++ mid) p.post,
)

write-Parts :
    (b : Buffer) (src mid : List ℕ) (p : Parts b mid)
    → Parts
        (record b {
          memory = overwrite b.memory b.write_position src;
          write_position = b.write_position + length src;
        })
        (mid ++ src)
unfolding overwrite
write-Parts b src mid p = record {
  pre = p.pre;
  post = drop (b.write_position + length src) b.memory;
  memory_eq = rw (take-Parts b mid p) (simp append_assoc);
  read_eq = p.read_eq;
  write_eq = omega (arith, p.write_eq, length-append mid src);
}

-- A write that fits returns true and appends its bytes to those that can be read; one that does not
-- returns false, and they stay as they are.
pub readable-write :
    (b : Buffer) (src : List ℕ)
    → IsValid b
    → let fits = leb (length src) (available_write b) in
      ((write b src).1 ≡ fits)
      × (readable (write b src).0 ≡ (if fits then readable b ++ src else readable b))
unfolding write available_write
readable-write b src v =
    (ground arith, ground (arith, readable-Parts _ _ (write-Parts b src _ (parts b v))))

read-Parts :
    (b : Buffer) (n : ℕ) (mid : List ℕ)
    → n ≤ length mid
    → Parts b mid
    → Parts (record b { read_position = b.read_position + n }) (drop n mid)
read-Parts b n mid h p = record {
  pre = p.pre ++ take n mid;
  post = p.post;
  memory_eq =
      p.memory_eq
      ∙ ap (λ l. p.pre ++ (l ++ p.post)) (sym (take-append-drop n mid))
      ∙ simp append_assoc;
  read_eq = omega (arith, p.read_eq, length-append p.pre (take n mid), length-take n mid h);
  write_eq =
      omega (
        arith,
        p.write_eq,
        length-append p.pre (take n mid),
        length-take n mid h,
        length-drop n mid,
      );
}

read_bytes :
    (b : Buffer) (n : ℕ) (mid : List ℕ)
    → n ≤ length mid
    → Parts b mid
    → take n (drop b.read_position b.memory) ≡ take n mid
read_bytes b n mid h p =
    ground (arith, p.memory_eq, p.read_eq, drop-append p.pre (mid ++ p.post), take-le n mid p.post)

-- A read of at most the bytes that can be read returns the first of them and takes them off; a
-- longer one fails, and they stay as they are.
pub readable-read :
    (b : Buffer) (n : ℕ)
    → IsValid b
    → let has = leb n (length (readable b)) in
      ((read b n).1 ≡ (if has then some (take n (readable b)) else none))
      × (readable (read b n).0 ≡ (if has then drop n (readable b) else readable b))
unfolding read available_read
readable-read b n v = (
  ground (arith, length-readable b v, read_bytes b n (readable b) _ (parts b v)),
  ground
      (arith, length-readable b v, readable-Parts _ _ (read-Parts b n (readable b) _ (parts b v))),
)
