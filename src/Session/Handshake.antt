-- ===== src/Session/Handshake.antt =====
-- What the handshake of a session answers.
use Prim.Native.Nat.{bit_and}
use pynq_sdk.Prelude.{ltb, leb, ◌&&◌, if◌then◌else◌}
use pynq_sdk.Prelude.{
  ℕ, ◌+◌, ◌*◌, ◌/◌, ◌%◌, ◌^◌, ◌≤◌, ◌<◌, ◌≡◌, true, [], ◌∷◌, ◌++◌, arith, if◌then◌else◌,
}
use pynq_sdk.Python.Bits.{shifted-IsAligned, bit_or_sum}
use pynq_sdk.Python.Exception.{ok}
use pynq_sdk.Hislip.{Message}
use pynq_sdk.Hislip.Codes.{msg_initialize, msg_initialize_response}
use pynq_sdk.Hislip.Codec.{IsSendable}
use pynq_sdk.Status.{truthy}
use pynq_sdk.Session.{Session, handshake, send_raw, negotiated, response_param}

negotiated_range : (p : ℕ) → (1 ≤ negotiated p) × (negotiated p ≤ 0x100)
negotiated_range p = (ground arith, ground arith)

response_param_sum : (v id : ℕ) → response_param v id ≡ v * 2 ^ 16 + id % 2 ^ 16
response_param_sum v id =
    bit_or_sum 16 (v * 2 ^ 16) (id % 2 ^ 16) (shifted-IsAligned 16 v) (omega arith)

-- The version in the upper half of a parameter, and the session id in the lower half.
abbrev pub version_of : Message → ℕ
version_of m = m.msg_param / 2 ^ 16

abbrev pub session_of : Message → ℕ
session_of m = m.msg_param % 2 ^ 16

abbrev answer : Message → Session → Message
answer m s = record {
  msg_type = msg_initialize_response;
  control_code = if truthy (bit_and m.control_code 1) then 1 else 0;
  msg_param = response_param (negotiated m.msg_param) s.session_id;
  payload = [];
}

-- An INITIALIZE message is answered with one frame that fits the wire: its parameter holds the session
-- id in the lower half, and in the upper half the client's version if that is from 1 to 0x100, and
-- 0x100 otherwise. The session takes the mode that the client asked for.
pub handshake_initialize :
    (m : Message) (s : Session)
    → m.msg_type ≡ msg_initialize
    → m.msg_param < 256 ^ 4
    → (response : Message) × (handshake (ok m) s ≡ (
      true,
      record s { overlap_mode = truthy (bit_and m.control_code 1); sent = s.sent ++ response ∷ [] },
    ))
      × IsSendable response
      × (session_of response ≡ s.session_id % 2 ^ 16)
      × (version_of response
          ≡ (if ltb 0 (version_of m) && leb (version_of m) 0x100 then version_of m else 0x100))
unfolding handshake send_raw
handshake_initialize m s type small =
    let sum = response_param_sum (negotiated m.msg_param) s.session_id in
    let (low, high) = negotiated_range m.msg_param in
    (
      answer m s,
      rw type,
      record {
        fits = record {
          type_fits = omega arith;
          control_fits = ground arith;
          param_fits = omega (arith, sum, low, high);
          length_fits = omega arith;
        };
        small = omega arith;
      },
      omega (arith, sum, low, high),
      ground (arith, sum),
    )
