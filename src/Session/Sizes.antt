-- ===== src/Session/Sizes.antt =====
-- The message size that the asynchronous channel agrees to.
use Prim.Native.Nat.{min}
use pynq_sdk.Prelude.{ℕ, ◌^◌, ◌<◌, ◌≡◌, ap, ◌∙◌, [], ◌∷◌, ◌++◌, arith, take_all}
use pynq_sdk.Python.Struct.{be, of_be, length-be, of_be-be}
use pynq_sdk.Hislip.{Message, max_payload}
use pynq_sdk.Hislip.Codes.{msg_async_max_msg_size, msg_async_max_msg_size_resp}
use pynq_sdk.Hislip.Codec.{IsSendable}
use pynq_sdk.Session.{Session}
use pynq_sdk.Session.Channel.{handle, send, reply, negotiated_size}

negotiated_size-be : (n : ℕ) → n < 256 ^ 8 → negotiated_size (be 8 n) ≡ min n max_payload
negotiated_size-be n h = rw (length-be 8 n, take_all (be 8 n) 8 (length-be 8 n), of_be-be 8 n h)

-- A client that proposes a message size is answered with one frame that fits the wire: it carries the
-- smaller of the proposed size and the size that the server accepts.
pub handle_max_msg_size :
    (m : Message) (s : Session) (n : ℕ)
    → m.msg_type ≡ msg_async_max_msg_size
    → m.payload ≡ be 8 n
    → n < 256 ^ 8
    → (answer : Message) × (handle m s ≡ record s { async_sent = s.async_sent ++ answer ∷ [] })
      × IsSendable answer
      × (of_be answer.payload ≡ min n max_payload)
unfolding handle send
handle_max_msg_size m s n type payload fits =
    let size = negotiated_size m.payload in
    let agreed : size ≡ min n max_payload =
      ap negotiated_size payload ∙ negotiated_size-be n fits in
    (
      reply msg_async_max_msg_size_resp 0 0 (be 8 size),
      rw type,
      record {
        fits = record {
          type_fits = omega arith;
          control_fits = omega arith;
          param_fits = omega arith;
          length_fits = omega (arith, length-be 8 size);
        };
        small = omega (arith, length-be 8 size);
      },
      of_be-be 8 size (omega (arith, agreed)) ∙ agreed,
    )
