-- ===== src/AndroidKeymaster.antt =====
-- The class AndroidKeymaster of include/keymaster/android_keymaster.h and android_keymaster.cpp: the
-- handlers of the requests. Its state is the table of the operations and what KeymasterEnforcement
-- keeps. Load has the loading of a key, Keys the requests about keys, and Handlers those about
-- operations; Lifecycle says how operations come and go. A handler gets a response that is new and
-- no null pointer, and a table that could be allocated.
pub mod Load
pub mod Keys
pub mod Handlers
pub mod Lifecycle
pub mod Beginning
pub mod Loading
pub mod Sequences
pub mod Progress
mod Examples
use platform_system_keymaste.Common.{ℕ, Bool, List, Option}
use platform_system_keymaste.Defs.Codes.{KeymasterError, Purpose}
use platform_system_keymaste.Buffer.{Buffer}
use platform_system_keymaste.AuthorizationSet.{AuthorizationSet}
use platform_system_keymaste.AuthorizationSet.Memory.{Heap}
use platform_system_keymaste.Enforcement.{Context}
use platform_system_keymaste.Enforcement.Rules.{Enforcement}
use platform_system_keymaste.OperationTable.{OperationTable, Chance}

-- What a call leaves behind its pointers if it succeeds, or its error, which is not KM_ERROR_OK.
pub data Answer (A : Type 0) : Type 0 where
  success : A → Answer A
  failure : KeymasterError → Answer A

-- An object of the class Operation of operation.h: `body` is what its subclass keeps.
pub record Operation (B : Type 0) : Type 0 where
  pub purpose : Purpose
  pub key_id : ℕ
  pub key_auths : AuthorizationSet
  pub body : B

pub record Parsed : Type 0 where
  pub key_material : List ℕ
  pub hw_enforced : AuthorizationSet
  pub sw_enforced : AuthorizationSet

pub record Created (B : Type 0) : Type 0 where
  pub created_purpose : Purpose
  pub created_body : B

pub record Begun (B : Type 0) : Type 0 where
  pub begun_body : B
  pub begun_params : AuthorizationSet
  pub begun_error : KeymasterError

pub record Updated (B : Type 0) : Type 0 where
  pub updated_body : B
  pub updated_params : AuthorizationSet
  pub updated_output : Buffer
  pub updated_consumed : ℕ
  pub updated_error : KeymasterError

pub record Finished : Type 0 where
  pub finished_params : AuthorizationSet
  pub finished_output : Buffer
  pub finished_error : KeymasterError

-- What GenerateKey and ImportKey of a factory give.
pub record NewKey : Type 0 where
  pub key_blob : List ℕ
  pub enforced : AuthorizationSet
  pub unenforced : AuthorizationSet

-- The virtual methods that the handlers call: those of KeymasterContext, of KeyFactory, of
-- OperationFactory and of Key, and those of the subclasses of Operation, which keep a B. A K is a
-- key, an F a factory of keys and a G a factory of operations.
pub record Services (B K F G : Type 0) : Type 0 where
  pub parse_key_blob : List ℕ → AuthorizationSet → Answer Parsed
  pub upgrade_key_blob : List ℕ → AuthorizationSet → Answer (List ℕ)
  pub delete_key : List ℕ → KeymasterError
  pub delete_all_keys : KeymasterError
  pub add_rng_entropy : List ℕ → KeymasterError
  pub system_patchlevel : ℕ
  pub create_key_id : List ℕ → Option ℕ
  pub key_factory : ℕ → Option F
  pub generate_key : F → AuthorizationSet → Answer NewKey
  pub import_key : F → AuthorizationSet → ℕ → List ℕ → Answer NewKey
  pub load_key : F → List ℕ → AuthorizationSet → AuthorizationSet → AuthorizationSet → Answer K
  pub operation_factory : F → Purpose → Option G
  pub authorizations : K → AuthorizationSet
  pub formatted_key_material : K → ℕ → Answer (List ℕ)
  pub generate_attestation :
      K → AuthorizationSet → AuthorizationSet → AuthorizationSet → Answer (List (List ℕ))
  pub create_operation : G → K → AuthorizationSet → Answer (Created B)
  pub begin : B → AuthorizationSet → Begun B
  pub update : B → AuthorizationSet → Buffer → Updated B
  pub finish : B → AuthorizationSet → Buffer → Buffer → Finished
  pub abort : B → KeymasterError

-- What one call meets: the answers of the enforcement's subclass, and of the allocators and the
-- generator of random numbers.
pub record Moment : Type 0 where
  pub context : Context
  pub heap : Heap
  pub chance : Chance

pub record Keymaster (B : Type 0) : Type 0 where
  pub enforcement : Option Enforcement
  pub operation_table : OperationTable (Operation B)
