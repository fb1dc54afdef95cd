-- ===== src/KeyBlob/RoundTrip.antt =====
-- What `SerializeIntegrityAssuredBlob` of integrity_assured_key_blob.cpp makes,
-- `DeserializeIntegrityAssuredBlob` accepts and reads back.
use platform_system_keymaste.Common.{
  ℕ, ◌+◌, ◌-◌, ◌≤◌, ◌<◌, ◌≡◌, ap, List, [], ◌∷◌, ◌++◌, some, arith, length, take, length-append,
  length-take, take-append, drop-append,
}
use platform_system_keymaste.Wire.{Out, append_size_and_data_to_buf}
use platform_system_keymaste.Wire.Carries.{Carries, Carries-three}
use platform_system_keymaste.Wire.Carries.Primitives.{sized-Carries}
use platform_system_keymaste.AuthorizationSet.{AuthorizationSet}
use platform_system_keymaste.AuthorizationSet.Codec.{serialize, serialized_size}
use platform_system_keymaste.AuthorizationSet.RoundTrip.Whole.{
  IsPlenty, IsWritable, SameSet, set-Carries,
}
use platform_system_keymaste.AndroidKeymaster.{success, Parsed}
use platform_system_keymaste.KeyBlob.{
  Vault, hmac_size, blob_version, hidden_bytes, compute_hmac, key_material_size, serialize_material,
  blob_size, blob_body, serialize_blob, copy_parts, deserialize_unchecked, deserialize_blob,
}
use platform_system_keymaste.KeyBlob.Integrity.{same_bytes_refl}

-- OpenSSL computes a MAC of any bytes, of at least eight bytes.
pub record HasMac (v : Vault) : Type 0 where
  pub mac_of : List ℕ → List ℕ
  pub hmac_eq : (bytes : List ℕ) → v.hmac bytes ≡ some (mac_of bytes)
  pub mac_long : (bytes : List ℕ) → hmac_size ≤ length (mac_of bytes)

-- The parts of a blob fit in their places, and the blob in the lower half of the address space.
pub record IsStorable (v : Vault) (material : List ℕ) (hw sw : AuthorizationSet) : Type 0 where
  pub material_small : length material < 0x1_0000_0000
  pub hw_writable : IsWritable v.layout hw
  pub sw_writable : IsWritable v.layout sw
  pub low : v.blob_address + blob_size material hw sw < 0x8000_0000_0000_0000

-- The parts of p.
abbrev pub SameParts : List ℕ → AuthorizationSet → AuthorizationSet → Parsed → Type 0
SameParts material hw sw p =
    (p.key_material ≡ material) × SameSet hw p.hw_enforced × SameSet sw p.sw_enforced

module _ (v : Vault) (plenty : IsPlenty v.heap) (material : List ℕ) (hw sw : AuthorizationSet)
    (h : IsStorable v material hw sw) where
  parts :
      Carries
        (4 + length material + serialized_size hw + serialized_size sw)
        (λ o.
          serialize v.layout sw (serialize v.layout hw (append_size_and_data_to_buf material o)))
        (copy_parts v)
        (SameParts material hw sw)
  unfolding copy_parts
  parts =
      Carries-three (λ a b c. record { key_material = a; hw_enforced = b; sw_enforced = c })
        (SameParts material hw sw)
        (sized-Carries v.heap.alloc_bytes plenty.bytes_given material h.material_small)
        (set-Carries v.layout v.heap hw h.hw_writable plenty)
        (set-Carries v.layout v.heap sw h.sw_writable plenty) (λ a b c p q s. (p, q, s))

  blob_body-parts : blob_body v material hw sw ≡ blob_version ∷ parts.bytes
  unfolding blob_body blob_size key_material_size serialize_material
  blob_body-parts =
      let o : Out = record {
        written = blob_version ∷ [];
        ptr = v.blob_address + 1;
        end = v.blob_address + blob_size material hw sw;
      } in
      let w = parts.writes o (omega (arith, parts.length_eq), omega (arith, h.low)) in
      ap (λ (x : Out). x.written) w

  module _ (m : HasMac v) (hidden : AuthorizationSet) where
    abbrev mac : List ℕ
    mac = take hmac_size (m.mac_of ((blob_version ∷ parts.bytes) ++ hidden_bytes v hidden))

    abbrev blob : List ℕ
    blob = (blob_version ∷ parts.bytes) ++ mac

    length-mac : length mac ≡ hmac_size
    length-mac =
        length-take hmac_size (m.mac_of ((blob_version ∷ parts.bytes) ++ hidden_bytes v hidden))
          (m.mac_long ((blob_version ∷ parts.bytes) ++ hidden_bytes v hidden))

    compute_hmac-success :
        (bytes : List ℕ)
        → compute_hmac v bytes hidden
          ≡ success (take hmac_size (m.mac_of (bytes ++ hidden_bytes v hidden)))
    unfolding compute_hmac
    compute_hmac-success bytes = ground (
      arith,
      plenty.bytes_given (serialized_size hidden),
      m.hmac_eq (bytes ++ hidden_bytes v hidden),
    )

    serialize_blob-success : serialize_blob v material hidden hw sw ≡ success blob
    unfolding serialize_blob
    serialize_blob-success = ground (
      arith,
      blob_body-parts,
      plenty.bytes_given (blob_size material hw sw),
      compute_hmac-success (blob_version ∷ parts.bytes),
    )

    -- Without the MAC, the blob is the body.
    body_length : length blob - hmac_size ≡ length (blob_version ∷ parts.bytes)
    body_length = omega (arith, length-append (blob_version ∷ parts.bytes) mac, length-mac)

    deserialize_unchecked-blob :
        (address : ℕ)
        → address + length blob < 0x8000_0000_0000_0000
        → (p : Parsed) × (deserialize_unchecked v address blob ≡ success p)
          × SameParts material hw sw p
    unfolding deserialize_unchecked
    deserialize_unchecked-blob address low =
        let len = length-append parts.bytes mac in
        let end : address + (1 + length (parts.bytes ++ mac)) - hmac_size
            ≡ address + 1 + length parts.bytes =
          omega (arith, len, length-mac) in
        let (p, e, same) =
          parts.yields mac (address + 1) (address + 1 + length parts.bytes) (omega arith)
            (omega (arith, low, len, length-mac)) in
        (p, ground (arith, e, end, len, length-mac), same)

    deserialize_blob-blob :
        (address : ℕ)
        → address + length blob < 0x8000_0000_0000_0000
        → (p : Parsed) × (deserialize_blob v address blob hidden ≡ success p)
          × SameParts material hw sw p
    unfolding deserialize_blob
    deserialize_blob-blob address low =
        let (p, e, same) = deserialize_unchecked-blob address low in
        (
          p,
          ground (
            arith,
            e,
            body_length,
            take-append (blob_version ∷ parts.bytes) mac,
            drop-append (blob_version ∷ parts.bytes) mac,
            compute_hmac-success (blob_version ∷ parts.bytes),
            same_bytes_refl mac,
            length-append (blob_version ∷ parts.bytes) mac,
            length-mac,
          ),
          same,
        )

-- Of key material and two sets of authorizations that fit, and any hidden authorizations,
-- `SerializeIntegrityAssuredBlob` makes a blob of as many bytes as it has counted, and
-- `DeserializeIntegrityAssuredBlob` with the same hidden authorizations accepts that blob, at any
-- address in the lower half of the address space, and returns the same material and the same
-- sets. Memory can be allocated, and OpenSSL computes MACs of at least eight bytes.
pub deserialize_blob-serialize_blob :
    (v : Vault) (material : List ℕ) (hidden hw sw : AuthorizationSet) (address : ℕ)
    → IsPlenty v.heap
    → HasMac v
    → IsStorable v material hw sw
    → address + blob_size material hw sw < 0x8000_0000_0000_0000
    → (blob : List ℕ) × (serialize_blob v material hidden hw sw ≡ success blob)
      × (length blob ≡ blob_size material hw sw)
      × ((p : Parsed) × (deserialize_blob v address blob hidden ≡ success p)
          × SameParts material hw sw p)
unfolding blob_size key_material_size
deserialize_blob-serialize_blob v material hidden hw sw address plenty m h low =
    let x = parts v plenty material hw sw h in
    let tail' = mac v plenty material hw sw h m hidden in
    let len : length (blob v plenty material hw sw h m hidden) ≡ blob_size material hw sw = omega (
      arith,
      length-append (blob_version ∷ x.bytes) tail',
      length-mac v plenty material hw sw h m hidden,
      x.length_eq,
    ) in
    (
      blob v plenty material hw sw h m hidden,
      serialize_blob-success v plenty material hw sw h m hidden,
      len,
      deserialize_blob-blob v plenty material hw sw h m hidden address (omega (arith, len, low)),
    )
