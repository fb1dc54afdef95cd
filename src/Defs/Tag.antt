-- ===== src/Defs/Tag.antt =====
-- include/keymaster/keymaster_tags.h: the tags, and the type that each of them is declared with.
-- A tag is a 32-bit number in the source, which holds its type; the numbers themselves stand in
-- hardware/keymaster_defs.h, outside the repository, so a tag is a name here, and a number that is
-- no declared tag is `other`, with the type that it holds.
use platform_system_keymaste.Common.{
  ℕ, zero, suc, ◌≡◌, refl, sym, ap, ◌∙◌, Bool, true, false, ◌&&◌, ◌==◌, List, [], ◌∷◌, arith,
}

pub data TagType : Type 0 where
  km_invalid km_enum km_enum_rep km_uint km_uint_rep km_ulong : TagType
  km_ulong_rep km_date km_bool km_bignum km_bytes : TagType

pub data Tag : Type 0 where
  invalid key_size mac_length caller_nonce min_mac_length rsa_public_exponent : Tag
  ecies_single_hash_mode include_unique_id active_datetime origination_expire_datetime : Tag
  usage_expire_datetime min_seconds_between_ops max_uses_per_boot all_users user_id : Tag
  user_secure_id no_auth_required auth_timeout allow_while_on_body all_applications : Tag
  application_id application_data creation_datetime rollback_resistant root_of_trust : Tag
  associated_data nonce auth_token bootloader_only os_version os_patchlevel unique_id : Tag
  attestation_challenge attestation_application_id reset_since_id_rotation : Tag
  attestation_id_brand attestation_id_device attestation_id_product attestation_id_serial : Tag
  attestation_id_imei attestation_id_meid attestation_id_manufacturer attestation_id_model : Tag
  purpose algorithm block_mode digest digest_old padding padding_old : Tag
  blob_usage_requirements origin user_auth_type kdf ec_curve : Tag
  other : TagType → ℕ → Tag

-- `keymaster_tag_get_type`, by the declarations of the tags.
unfoldable pub tag_get_type : Tag → TagType
tag_get_type invalid = km_invalid
tag_get_type key_size = km_uint
tag_get_type mac_length = km_uint
tag_get_type caller_nonce = km_bool
tag_get_type min_mac_length = km_uint
tag_get_type rsa_public_exponent = km_ulong
tag_get_type ecies_single_hash_mode = km_bool
tag_get_type include_unique_id = km_bool
tag_get_type active_datetime = km_date
tag_get_type origination_expire_datetime = km_date
tag_get_type usage_expire_datetime = km_date
tag_get_type min_seconds_between_ops = km_uint
tag_get_type max_uses_per_boot = km_uint
tag_get_type all_users = km_bool
tag_get_type user_id = km_uint
tag_get_type user_secure_id = km_ulong_rep
tag_get_type no_auth_required = km_bool
tag_get_type auth_timeout = km_uint
tag_get_type allow_while_on_body = km_bool
tag_get_type all_applications = km_bool
tag_get_type application_id = km_bytes
tag_get_type application_data = km_bytes
tag_get_type creation_datetime = km_date
tag_get_type rollback_resistant = km_bool
tag_get_type root_of_trust = km_bytes
tag_get_type associated_data = km_bytes
tag_get_type nonce = km_bytes
tag_get_type auth_token = km_bytes
tag_get_type bootloader_only = km_bool
tag_get_type os_version = km_uint
tag_get_type os_patchlevel = km_uint
tag_get_type unique_id = km_bytes
tag_get_type attestation_challenge = km_bytes
tag_get_type attestation_application_id = km_bytes
tag_get_type reset_since_id_rotation = km_bool
tag_get_type attestation_id_brand = km_bytes
tag_get_type attestation_id_device = km_bytes
tag_get_type attestation_id_product = km_bytes
tag_get_type attestation_id_serial = km_bytes
tag_get_type attestation_id_imei = km_bytes
tag_get_type attestation_id_meid = km_bytes
tag_get_type attestation_id_manufacturer = km_bytes
tag_get_type attestation_id_model = km_bytes
tag_get_type purpose = km_enum_rep
tag_get_type algorithm = km_enum
tag_get_type block_mode = km_enum_rep
tag_get_type digest = km_enum_rep
tag_get_type digest_old = km_enum
tag_get_type padding = km_enum_rep
tag_get_type padding_old = km_enum
tag_get_type blob_usage_requirements = km_enum
tag_get_type origin = km_enum
tag_get_type user_auth_type = km_enum
tag_get_type kdf = km_enum_rep
tag_get_type ec_curve = km_enum
tag_get_type (other t n) = t

-- `is_blob_tag` of authorization_set.cpp: is the payload of such a tag a pointer to bytes?
unfoldable pub is_blob_type : TagType → Bool
is_blob_type km_bytes = true
is_blob_type km_bignum = true
is_blob_type _ = false

unfoldable pub is_blob_tag : Tag → Bool
unfolding is_blob_type tag_get_type
is_blob_tag tag = is_blob_type (tag_get_type tag)

type_index : TagType → ℕ
type_index km_invalid = 0
type_index km_enum = 1
type_index km_enum_rep = 2
type_index km_uint = 3
type_index km_uint_rep = 4
type_index km_ulong = 5
type_index km_ulong_rep = 6
type_index km_date = 7
type_index km_bool = 8
type_index km_bignum = 9
type_index km_bytes = 10

tag_index : Tag → ℕ
tag_index invalid = 0
tag_index key_size = 1
tag_index mac_length = 2
tag_index caller_nonce = 3
tag_index min_mac_length = 4
tag_index rsa_public_exponent = 5
tag_index ecies_single_hash_mode = 6
tag_index include_unique_id = 7
tag_index active_datetime = 8
tag_index origination_expire_datetime = 9
tag_index usage_expire_datetime = 10
tag_index min_seconds_between_ops = 11
tag_index max_uses_per_boot = 12
tag_index all_users = 13
tag_index user_id = 14
tag_index user_secure_id = 15
tag_index no_auth_required = 16
tag_index auth_timeout = 17
tag_index allow_while_on_body = 18
tag_index all_applications = 19
tag_index application_id = 20
tag_index application_data = 21
tag_index creation_datetime = 22
tag_index rollback_resistant = 23
tag_index root_of_trust = 24
tag_index associated_data = 25
tag_index nonce = 26
tag_index auth_token = 27
tag_index bootloader_only = 28
tag_index os_version = 29
tag_index os_patchlevel = 30
tag_index unique_id = 31
tag_index attestation_challenge = 32
tag_index attestation_application_id = 33
tag_index reset_since_id_rotation = 34
tag_index attestation_id_brand = 35
tag_index attestation_id_device = 36
tag_index attestation_id_product = 37
tag_index attestation_id_serial = 38
tag_index attestation_id_imei = 39
tag_index attestation_id_meid = 40
tag_index attestation_id_manufacturer = 41
tag_index attestation_id_model = 42
tag_index purpose = 43
tag_index algorithm = 44
tag_index block_mode = 45
tag_index digest = 46
tag_index digest_old = 47
tag_index padding = 48
tag_index padding_old = 49
tag_index blob_usage_requirements = 50
tag_index origin = 51
tag_index user_auth_type = 52
tag_index kdf = 53
tag_index ec_curve = 54
tag_index (other t n) = 55

type_of : Tag → TagType
type_of (other t n) = t
type_of _ = km_invalid

number_of : Tag → ℕ
number_of (other t n) = n
number_of _ = 0

-- The comparison of two tags, `==` on their numbers.
unfoldable pub same_tag : Tag → Tag → Bool
unfolding type_index tag_index type_of number_of
same_tag s t =
    tag_index s == tag_index t
    && type_index (type_of s) == type_index (type_of t)
    && number_of s == number_of t

tag_at : List Tag → ℕ → TagType → ℕ → Tag
tag_at [] i t n = other t n
tag_at (x ∷ xs) zero t n = x
tag_at (x ∷ xs) (suc i) t n = tag_at xs i t n

type_at : List TagType → ℕ → TagType
type_at [] i = km_invalid
type_at (x ∷ xs) zero = x
type_at (x ∷ xs) (suc i) = type_at xs i

abbrev all_types : List TagType
all_types =
    km_invalid ∷ km_enum ∷ km_enum_rep ∷ km_uint ∷ km_uint_rep ∷ km_ulong ∷ km_ulong_rep ∷ km_date
    ∷ km_bool ∷ km_bignum ∷ km_bytes ∷ []

abbrev all_tags : List Tag
all_tags =
    invalid ∷ key_size ∷ mac_length ∷ caller_nonce ∷ min_mac_length ∷ rsa_public_exponent
    ∷ ecies_single_hash_mode ∷ include_unique_id ∷ active_datetime ∷ origination_expire_datetime
    ∷ usage_expire_datetime ∷ min_seconds_between_ops ∷ max_uses_per_boot ∷ all_users ∷ user_id
    ∷ user_secure_id ∷ no_auth_required ∷ auth_timeout ∷ allow_while_on_body ∷ all_applications
    ∷ application_id ∷ application_data ∷ creation_datetime ∷ rollback_resistant ∷ root_of_trust
    ∷ associated_data ∷ nonce ∷ auth_token ∷ bootloader_only ∷ os_version ∷ os_patchlevel
    ∷ unique_id ∷ attestation_challenge ∷ attestation_application_id ∷ reset_since_id_rotation
    ∷ attestation_id_brand ∷ attestation_id_device ∷ attestation_id_product ∷ attestation_id_serial
    ∷ attestation_id_imei ∷ attestation_id_meid ∷ attestation_id_manufacturer ∷ attestation_id_model
    ∷ purpose ∷ algorithm ∷ block_mode ∷ digest ∷ digest_old ∷ padding ∷ padding_old
    ∷ blob_usage_requirements ∷ origin ∷ user_auth_type ∷ kdf ∷ ec_curve ∷ []

type_at-index : (t : TagType) → type_at all_types (type_index t) ≡ t
unfolding type_at type_index
type_at-index km_invalid = refl
type_at-index km_enum = refl
type_at-index km_enum_rep = refl
type_at-index km_uint = refl
type_at-index km_uint_rep = refl
type_at-index km_ulong = refl
type_at-index km_ulong_rep = refl
type_at-index km_date = refl
type_at-index km_bool = refl
type_at-index km_bignum = refl
type_at-index km_bytes = refl

tag_at-index : (t : Tag) → tag_at all_tags (tag_index t) (type_of t) (number_of t) ≡ t
unfolding tag_at tag_index type_of number_of
tag_at-index invalid = refl
tag_at-index key_size = refl
tag_at-index mac_length = refl
tag_at-index caller_nonce = refl
tag_at-index min_mac_length = refl
tag_at-index rsa_public_exponent = refl
tag_at-index ecies_single_hash_mode = refl
tag_at-index include_unique_id = refl
tag_at-index active_datetime = refl
tag_at-index origination_expire_datetime = refl
tag_at-index usage_expire_datetime = refl
tag_at-index min_seconds_between_ops = refl
tag_at-index max_uses_per_boot = refl
tag_at-index all_users = refl
tag_at-index user_id = refl
tag_at-index user_secure_id = refl
tag_at-index no_auth_required = refl
tag_at-index auth_timeout = refl
tag_at-index allow_while_on_body = refl
tag_at-index all_applications = refl
tag_at-index application_id = refl
tag_at-index application_data = refl
tag_at-index creation_datetime = refl
tag_at-index rollback_resistant = refl
tag_at-index root_of_trust = refl
tag_at-index associated_data = refl
tag_at-index nonce = refl
tag_at-index auth_token = refl
tag_at-index bootloader_only = refl
tag_at-index os_version = refl
tag_at-index os_patchlevel = refl
tag_at-index unique_id = refl
tag_at-index attestation_challenge = refl
tag_at-index attestation_application_id = refl
tag_at-index reset_since_id_rotation = refl
tag_at-index attestation_id_brand = refl
tag_at-index attestation_id_device = refl
tag_at-index attestation_id_product = refl
tag_at-index attestation_id_serial = refl
tag_at-index attestation_id_imei = refl
tag_at-index attestation_id_meid = refl
tag_at-index attestation_id_manufacturer = refl
tag_at-index attestation_id_model = refl
tag_at-index purpose = refl
tag_at-index algorithm = refl
tag_at-index block_mode = refl
tag_at-index digest = refl
tag_at-index digest_old = refl
tag_at-index padding = refl
tag_at-index padding_old = refl
tag_at-index blob_usage_requirements = refl
tag_at-index origin = refl
tag_at-index user_auth_type = refl
tag_at-index kdf = refl
tag_at-index ec_curve = refl
tag_at-index (other t n) = refl

all_eq : (a b c d e f : ℕ) → (a == b && c == d && e == f) ≡ true → (a ≡ b) × (c ≡ d) × (e ≡ f)
all_eq a b c d e f h = ground arith

all_eq_refl : (a b c : ℕ) → (a == a && b == b && c == c) ≡ true
all_eq_refl a b c = ground arith

indices_eq :
    (s t : Tag)
    → same_tag s t ≡ true
    → (tag_index s ≡ tag_index t)
      × (type_index (type_of s) ≡ type_index (type_of t))
      × (number_of s ≡ number_of t)
unfolding same_tag
indices_eq s t h =
    all_eq (tag_index s) (tag_index t) (type_index (type_of s)) (type_index (type_of t))
      (number_of s) (number_of t) h

-- The comparison finds no two tags equal that differ.
pub same_tag-eq : (s t : Tag) → same_tag s t ≡ true → s ≡ t
same_tag-eq s t h =
    let (i, y, n) = indices_eq s t h in
    let y' =
      sym (type_at-index (type_of s)) ∙ ap (type_at all_types) y ∙ type_at-index (type_of t) in
    cc (i, y', n, tag_at-index s, tag_at-index t)

pub same_tag_refl : (t : Tag) → same_tag t t ≡ true
unfolding same_tag
same_tag_refl t = all_eq_refl (tag_index t) (type_index (type_of t)) (number_of t)
