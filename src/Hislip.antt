-- ===== src/Hislip.antt =====
-- pynq_instrument/hislip.py: the frames of both channels. A `StreamReader` is the list of the bytes
-- that still arrive before the peer closes; what is sent is the list of the bytes written.
pub mod Codes
pub mod Codec
pub mod Accepts
use pynq_sdk.Prelude.{
  ℕ, ◌+◌, ◌*◌, ◌^◌, Bool, true, false, ◌&&◌, List, [], ◌∷◌, ◌++◌, length, take, drop, ltb, leb,
  ◌==◌, if◌then◌else◌,
}
use pynq_sdk.Python.Text.{Text, Bytes, lit, text_eq}
use pynq_sdk.Python.Int.{str_ℕ}
use pynq_sdk.Python.Exception.{
  Exception, Result, ok, raised, raise, ◌>>=◌, value_error, struct_error, incomplete_read,
  repr_bytes,
}
use pynq_sdk.Python.Struct.{be, of_be}

abbrev pub header_size : ℕ
header_size = 16

abbrev pub max_payload : ℕ
max_payload = 8 * 1024

pub record Message : Type 0 where
  pub msg_type : ℕ
  pub control_code : ℕ
  pub msg_param : ℕ
  pub payload : Bytes

-- The four fields that a header unpacks to.
pub record Header : Type 0 where
  pub msg_type : ℕ
  pub control_code : ℕ
  pub msg_param : ℕ
  pub payload_len : ℕ

-- struct.pack(">2sBBIQ", …): a field that does not fit is refused
unfoldable pub pack_header : ℕ → ℕ → ℕ → ℕ → Result Bytes
pack_header msg_type control_code msg_param payload_len =
    if ltb msg_type 256
      && ltb control_code 256
      && ltb msg_param (256 ^ 4)
      && ltb payload_len (256 ^ 8)
    then ok (b'H' ∷ b'S' ∷ msg_type ∷ control_code ∷ (be 4 msg_param ++ be 8 payload_len))
    else raise struct_error (lit "argument out of range")

-- the fields behind the prologue
abbrev pub fields : Bytes → Header
fields frame = record {
  msg_type = of_be (take 1 (drop 2 frame));
  control_code = of_be (take 1 (drop 3 frame));
  msg_param = of_be (take 4 (drop 4 frame));
  payload_len = of_be (take 8 (drop 8 frame));
}

unfoldable pub unpack_header : Bytes → Result Header
unpack_header frame =
    if length frame == header_size
    then (if text_eq (take 2 frame) (lit "HS")
        then ok (fields frame)
        else raise value_error (lit "Invalid HiSLIP prologue: " ++ repr_bytes (take 2 frame)))
    else raise struct_error (lit "unpack requires a buffer of 16 bytes")

-- `reader.readexactly(n)`: the bytes, and what arrives behind them
unfoldable pub read_exactly : ℕ → Bytes → Result (Bytes × Bytes)
read_exactly n reader =
    if leb n (length reader) then ok (take n reader, drop n reader) else raise incomplete_read []

abbrev pub too_large : ℕ → Exception
too_large n = record {
  kind = value_error;
  message = lit "Payload too large: " ++ str_ℕ n ++ lit " > " ++ str_ℕ max_payload;
}

-- what follows a header; the reader stands behind it
abbrev pub recv_payload : Header → Bytes → Result (Message × Bytes)
recv_payload h reader =
    if ltb max_payload h.payload_len then raised (too_large h.payload_len) else (do
      read ← read_exactly h.payload_len reader
      ok (
        record {
          msg_type = h.msg_type;
          control_code = h.control_code;
          msg_param = h.msg_param;
          payload = read.0;
        },
        read.1,
      ))

unfoldable pub recv_message : Bytes → Result (Message × Bytes)
unfolding read_exactly unpack_header
recv_message reader = do
  read ← read_exactly header_size reader
  h ← unpack_header read.0
  recv_payload h read.1

-- the bytes that one call writes
unfoldable pub send_message : Message → Result Bytes
unfolding pack_header
send_message m = do
  frame ← pack_header m.msg_type m.control_code m.msg_param (length m.payload)
  ok (frame ++ m.payload)
