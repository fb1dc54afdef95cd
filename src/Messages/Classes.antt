-- ===== src/Messages/Classes.antt =====
-- The interface of a class of messages: its operations and what holds of them.
-- (android_keymaster_messages.h)
pub mod Requests
pub mod Responses
use platform_system_keymaste.Common.{ℕ, ◌≡◌, refl, Bool, true, false, Option, some}
use platform_system_keymaste.Defs.Codes.{is_ok}
use platform_system_keymaste.Wire.{Out, In}
use platform_system_keymaste.Wire.Carries.{Carries}
use platform_system_keymaste.Wire.Advances.{Advances, some-Advances}
use platform_system_keymaste.Messages.Fields.{IsReliable, nothing-Carries}
use platform_system_keymaste.Messages.Response
use platform_system_keymaste.Messages.Response.{Response, IsSent}
use platform_system_keymaste.Messages.{Platform}

-- A class of messages. `Same old m w` is that w is what m is read as into old.
pub record MessageClass (platform : Platform) : Type 1 where
  pub Message : Type 0
  pub serialized_size : Message → ℕ
  pub serialize : Message → Out → Out
  pub deserialize : Message → In → Option (Message × In)
  pub Fits : Message → Type 0
  pub Same : Message → Message → Message → Type 0
  pub carries :
      (m old : Message)
      → IsReliable platform
      → Fits m
      → Carries (serialized_size m) (serialize m) (deserialize old) (Same old m)
  pub advances : (old : Message) → Advances (deserialize old)

abbrev pub FitsIf : Bool → Type 0 → Type 0
FitsIf true P = P
FitsIf false P = Unit

pub FitsIf-true : (b : Bool) {P : Type 0} → FitsIf b P → b ≡ true → P
FitsIf-true true h e = h
FitsIf-true false h e = cc

-- A response, whose class holds this besides the error. What is not sent need not fit.
unfoldable pub response_class :
    (platform : Platform) → MessageClass platform → MessageClass platform
response_class platform c = record {
  Message = Response c.Message;
  serialized_size = Response.serialized_size c.serialized_size;
  serialize = Response.serialize platform c.serialize;
  deserialize = Response.deserialize platform c.deserialize;
  Fits = λ m. IsSent platform m.error × FitsIf (is_ok m.error) (c.Fits m.body);
  Same = Response.Same c.Same;
  carries = λ m old r h.
      Response.serialize-Carries platform c.serialized_size c.serialize c.deserialize c.Same m old
        h.0 (λ e. c.carries m.body old.body r (FitsIf-true (is_ok m.error) h.1 e));
  advances = λ old. Response.deserialize-Advances platform c.deserialize old (c.advances old.body);
}

module _ (platform : Platform) (version : ℕ) where
  -- The messages that hold nothing, or nothing besides the error.
  unfoldable pub empty_class : MessageClass platform
  empty_class = record {
    Message = Unit;
    serialized_size = λ m. 0;
    serialize = λ m o. o;
    deserialize = λ old i. some (tt, i);
    Fits = λ m. Unit;
    Same = λ old m w. Unit;
    carries = λ m old r h. nothing-Carries tt (λ a. Unit) tt;
    advances = λ old. some-Advances tt;
  }
