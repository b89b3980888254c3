-- ===== src/Examples/Wire.antt =====
-- HiSLIP frames at concrete inputs.
use pynq_sdk.Prelude.{
  ◌≡◌, ◌↔◌, ℕ, ◌∷◌, ◌++◌, arith, length, All, All-append, replicate, length-replicate,
}
use pynq_sdk.Python.Text.{Bytes, lit}
use pynq_sdk.Python.Exception.{ok, raised}
use pynq_sdk.Python.Struct.{IsByte}
use pynq_sdk.Hislip.{Message, too_large, recv_message, send_message}
use pynq_sdk.Hislip.Codes.{msg_data_end}
use pynq_sdk.Hislip.Codec.{
  Fits, header_bytes, header_of, IsSendable, recv_message-send_message, recv_message-too_large,
}
use pynq_sdk.Hislip.Accepts.{recv_message_iff}

abbrev idn : Message
idn = record {
  msg_type = msg_data_end;
  control_code = 0;
  msg_param = 0xFFFFFF00;
  payload = lit "*IDN?";
}

idn-Fits : Fits (header_of idn)
idn-Fits = record {
  type_fits = omega arith;
  control_fits = omega arith;
  param_fits = omega arith;
  length_fits = omega arith;
}

idn-IsSendable : IsSendable idn
idn-IsSendable = record { fits = idn-Fits; small = omega arith }

recv_message-send_message_example :
    (sent : Bytes) × (send_message idn ≡ ok sent)
    × (recv_message (sent ++ lit "HS") ≡ ok (idn, lit "HS"))
recv_message-send_message_example = recv_message-send_message idn (lit "HS") idn-IsSendable

abbrev frame : Bytes
frame =
    lit "HS"
    ++ (msg_data_end ∷ 0 ∷ 0xFF ∷ 0xFF ∷ 0xFF ∷ 0 ∷ 0 ∷ 0 ∷ 0 ∷ 0 ∷ 0 ∷ 0 ∷ 0 ∷ 5 ∷ lit "*IDN?")

frame-IsByte : All IsByte frame
frame-IsByte = ground arith

recv_message_iff_example : (recv_message (frame ++ lit "HS") ≡ ok (idn, lit "HS")) ↔ (
    IsSendable idn
    × (frame ++ lit "HS" ≡ header_bytes (header_of idn) ++ (idn.payload ++ lit "HS")))
recv_message_iff_example =
    recv_message_iff (frame ++ lit "HS") (lit "HS") idn
      (All-append IsByte frame (lit "HS") frame-IsByte (omega arith, (omega arith, tt)))

abbrev long : Message
long = record {
  msg_type = msg_data_end;
  control_code = 0;
  msg_param = 2;
  payload = replicate 8193 b'x';
}

length_long : length long.payload ≡ 8193
length_long = length-replicate {A = ℕ} 8193 b'x'

long-Fits : Fits (header_of long)
long-Fits = record {
  type_fits = omega arith;
  control_fits = omega arith;
  param_fits = omega arith;
  length_fits = omega (arith, length_long);
}

recv_message-too_large_example :
    (sent : Bytes) × (send_message long ≡ ok sent)
    × (recv_message (sent ++ lit "HS") ≡ raised (too_large (length long.payload)))
recv_message-too_large_example =
    recv_message-too_large long (lit "HS") long-Fits (omega (arith, length_long))
