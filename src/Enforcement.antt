-- ===== src/Enforcement.antt =====
-- The class KeymasterEnforcement: include/keymaster/keymaster_enforcement.h and
-- keymaster_enforcement.cpp. Its two tables are in AccessTime and AccessCount, the check of an
-- authentication token in Token, and the tests and decisions in Rules, Begin
-- and Operation.
pub mod AccessTime
pub mod AccessCount
pub mod Token
pub mod Rules
pub mod Begin
pub mod Operation
mod Examples
use platform_system_keymaste.Common.{ℕ, Bool, List, Option}
use platform_system_keymaste.Defs.Codes.{Purpose}

-- hw_auth_token_t of hardware/hw_auth_token.h, as far as the source reads it.
pub record AuthToken : Type 0 where
  pub version : ℕ
  pub challenge : ℕ
  pub user_id : ℕ
  pub authenticator_id : ℕ
  pub authenticator_type : ℕ

-- What the headers outside the repository define: the numbers of the enumerators, the layout of
-- a token and its version, and the conversion from network byte order.
pub record Platform : Type 0 where
  pub purpose_code : Purpose → ℕ
  pub algorithm_rsa : ℕ
  pub algorithm_ec : ℕ
  pub hw_auth_token_version : ℕ
  pub hw_auth_token_size : ℕ
  pub decode_token : List ℕ → AuthToken
  pub ntoh : ℕ → ℕ

-- The virtual methods that a subclass implements, at the time of one call. `check_time` is what
-- `get_current_time` returns while the key's restrictions are checked, and `update_time` what it
-- returns when the access is entered afterwards.
pub record Context : Type 0 where
  pub activation_date_valid : ℕ → Bool
  pub expiration_date_passed : ℕ → Bool
  pub auth_token_timed_out : AuthToken → ℕ → Bool
  pub validate_token_signature : AuthToken → Bool
  pub check_time : ℕ
  pub update_time : ℕ
