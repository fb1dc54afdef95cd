-- ===== src/Messages/Response.antt =====
-- KeymasterResponse of android_keymaster_messages.cpp: the error, and what the response holds besides
-- it only if there is none.
use platform_system_keymaste.Common.{
  ℕ, ◌+◌, ◌<◌, ◌≡◌, refl, true, ◌++◌, Option, some, arith, length-append, if◌then◌else◌,
}
use platform_system_keymaste.Defs.Codes.{KeymasterError, is_ok}
use platform_system_keymaste.Wire.{Out, In, ◌>>=◌, append_uint32_to_buf, copy_uint32_from_buf}
use platform_system_keymaste.Wire.Carries.{Carries, Carries-one, Writes-then, Yields-bind}
use platform_system_keymaste.Wire.Carries.Primitives.{uint32-Carries}
use platform_system_keymaste.Wire.Advances.{Advances, bind-Advances, map-Advances, uint32-Advances}
use platform_system_keymaste.Messages.Fields.{copy_if-Advances}
use platform_system_keymaste.Messages.{Platform, append_if, copy_if}
use platform_system_keymaste.Messages.Fields.{Sent, if-Carries}

pub record Response (B : Type 0) : Type 0 where
  pub error : KeymasterError
  pub body : B

-- The number of the error names it.
abbrev pub IsSent : Platform → KeymasterError → Type 0
IsSent platform e =
    (platform.error_of_code (platform.error_code e) ≡ e) × (platform.error_code e < 0x1_0000_0000)

abbrev response : {B : Type 0} → KeymasterError → B → Response B
response e b = record { error = e; body = b }

module _ {B : Type 0} where
  -- `size` is `NonErrorSerializedSize`.
  unfoldable pub serialized_size : (B → ℕ) → Response B → ℕ
  serialized_size size m = if is_ok m.error then 4 + size m.body else 4

  module _ (platform : Platform) where
    open platform use {error_code, error_of_code}

    -- `append` is `NonErrorSerialize`.
    unfoldable pub serialize : (B → Out → Out) → Response B → Out → Out
    serialize append m o =
        append_if (is_ok m.error) (append m.body) (append_uint32_to_buf (error_code m.error) o)

    -- `copy` is `NonErrorDeserialize`.
    unfoldable pub deserialize :
        (B → In → Option (B × In)) → Response B → In → Option (Response B × In)
    deserialize copy old i = do
      (code, i1) ← copy_uint32_from_buf i
      (body, i2) ← copy_if (is_ok (error_of_code code)) old.body (copy old.body) i1
      some (record { error = error_of_code code; body = body }, i2)

  -- The error is the same, and so is what else is sent; what is not is kept.
  abbrev pub Same : (B → B → B → Type 0) → Response B → Response B → Response B → Type 0
  Same same old m w =
      (w.error ≡ m.error) × Sent (is_ok m.error) (same old.body m.body) old.body w.body

  module _ (platform : Platform) (size : B → ℕ) (append : B → Out → Out)
      (copy : B → In → Option (B × In)) (same : B → B → B → Type 0) (m old : Response B) where
    pub serialize-Carries :
        IsSent platform m.error
        → (is_ok m.error ≡ true
            → Carries (size m.body) (append m.body) (copy old.body) (same old.body m.body))
        → Carries
            (serialized_size size m)
            (serialize platform append m)
            (deserialize platform copy old)
            (Same same old m)
    unfolding serialized_size serialize deserialize
    serialize-Carries sent z =
        let x = uint32-Carries (platform.error_code m.error) sent.1 in
        let y =
          Carries-one (λ a. response m.error a) (Same same old m)
            (if-Carries (is_ok m.error) old.body z) (λ a p. (refl, p)) in
        record {
          bytes = x.bytes ++ y.bytes;
          length_eq = ground (arith, length-append x.bytes y.bytes, x.length_eq, y.length_eq);
          writes =
              Writes-then (append_uint32_to_buf (platform.error_code m.error))
                (append_if (is_ok m.error) (append m.body)) x.bytes y.bytes x.writes y.writes;
          yields =
              Yields-bind copy_uint32_from_buf
                (λ code i.
                  ◌>>=◌ {B = Response B × In}
                    (copy_if (is_ok (platform.error_of_code code)) old.body (copy old.body) i)
                    (λ p. some (response (platform.error_of_code code) p.0, p.1)))
                (λ n. n ≡ platform.error_code m.error) (Same same old m) x.bytes y.bytes x.yields
                (λ n p rest ptr end room low.
                  let (w, e, s) = y.yields rest ptr end room low in (w, rw (p, sent.0) e, s));
        }

  module _ (platform : Platform) (copy : B → In → Option (B × In)) (old : Response B)
      (x : Advances (copy old.body)) where
    pub deserialize-Advances : Advances (deserialize platform copy old)
    unfolding deserialize
    deserialize-Advances =
        bind-Advances
          (λ code i.
            ◌>>=◌ {B = Response B × In}
              (copy_if (is_ok (platform.error_of_code code)) old.body (copy old.body) i)
              (λ p. some (response (platform.error_of_code code) p.0, p.1)))
          uint32-Advances
          (λ code.
            map-Advances (λ b. response (platform.error_of_code code) b)
              (copy_if-Advances (is_ok (platform.error_of_code code)) old.body x))
