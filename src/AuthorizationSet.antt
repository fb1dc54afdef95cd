-- ===== src/AuthorizationSet.antt =====
-- The class AuthorizationSet of include/keymaster/authorization_set.h and authorization_set.cpp: a
-- growing array of parameters, whose byte strings lie in one array beside it.
-- A parameter has a tag and a union; the tag says which member of the union counts, and the model
-- names that member by a constructor. Outside a set a byte string is a list; inside, it is an offset
-- into the set's `indirect_data` and a length, so moving that array moves no offset.
-- Sort, Deduplicate, Union and Difference, which rest on qsort, are not here.
pub mod Memory
pub mod Contents
pub mod Push
pub mod Query
pub mod Lookup
pub mod Codec
pub mod Deserialized
pub mod RoundTrip
pub mod Advances
mod Examples
use platform_system_keymaste.Common.{
  ℕ, ◌+◌, ◌≤◌, ◌≡◌, Bool, true, false, List, [], take, drop, map, length,
}
use platform_system_keymaste.Defs.Tag.{Tag}

pub data Value (B : Type 0) : Type 0 where
  enumerated integer long_integer date_time : ℕ → Value B
  boolean : Bool → Value B
  blob : B → Value B

-- The members of the union. `enumerated` and `integer` are the same four bytes, and either may be
-- read where the other was written. No other member is read for its value but the one written.
module _ {B : Type 0} where
  abbrev pub enumerated_of : Value B → ℕ
  enumerated_of (enumerated n) = n
  enumerated_of (integer n) = n
  enumerated_of _ = 0

  abbrev pub integer_of : Value B → ℕ
  integer_of (integer n) = n
  integer_of (enumerated n) = n
  integer_of _ = 0

  abbrev pub long_integer_of : Value B → ℕ
  long_integer_of (long_integer n) = n
  long_integer_of _ = 0

  abbrev pub date_time_of : Value B → ℕ
  date_time_of (date_time n) = n
  date_time_of _ = 0

  abbrev pub boolean_of : Value B → Bool
  boolean_of (boolean b) = b
  boolean_of _ = false

  abbrev pub blob_of : B → Value B → B
  blob_of null (blob b) = b
  blob_of null _ = null

-- The same union with its byte string elsewhere.
module _ {A B : Type 0} where
  abbrev pub with_blob : B → Value A → Value B
  with_blob b (enumerated n) = enumerated n
  with_blob b (integer n) = integer n
  with_blob b (long_integer n) = long_integer n
  with_blob b (date_time n) = date_time n
  with_blob b (boolean c) = boolean c
  with_blob b (blob a) = blob b

pub record Slice : Type 0 where
  pub offset : ℕ
  pub data_length : ℕ

abbrev pub null_slice : Slice
null_slice = record { offset = 0; data_length = 0 }

-- keymaster_key_param_t, outside a set and inside one.
pub record Param : Type 0 where
  pub tag : Tag
  pub value : Value (List ℕ)

pub record Elem : Type 0 where
  pub tag : Tag
  pub value : Value Slice

pub data Error : Type 0 where
  ok allocation_failure malformed_data : Error

-- `elems_size_` is the length of `elems`, and `indirect_data_size_` that of `indirect_data`, which
-- holds the bytes in use. `indirect_allocated` is no field of the class: it is the size of the array
-- that `indirect_data_` points to.
pub record AuthorizationSet : Type 0 where
  pub elems : List Elem
  pub elems_capacity : ℕ
  pub indirect_data : List ℕ
  pub indirect_data_capacity : ℕ
  pub indirect_allocated : ℕ
  pub error : Error

abbrev pub empty_set : AuthorizationSet
empty_set = record {
  elems = [];
  elems_capacity = 0;
  indirect_data = [];
  indirect_data_capacity = 0;
  indirect_allocated = 0;
  error = ok;
}

abbrev pub is_ok : Error → Bool
is_ok ok = true
is_ok allocation_failure = false
is_ok malformed_data = false

-- The bytes that a slice of an array names.
unfoldable pub slice_of : List ℕ → Slice → List ℕ
slice_of bytes s = take s.data_length (drop s.offset bytes)

-- A parameter of a set as its clients read it.
unfoldable pub resolve : List ℕ → Elem → Param
resolve bytes e = record {
  tag = e.tag;
  value = with_blob (slice_of bytes (blob_of null_slice e.value)) e.value;
}

-- The abstract view: the list of the parameters.
unfoldable pub contents : AuthorizationSet → List Param
contents s = map (resolve s.indirect_data) s.elems
