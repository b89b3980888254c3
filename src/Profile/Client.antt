-- ===== src/Profile/Client.antt =====
-- The client of tools/generate_profile.py: its frames, and `query_instrument` on the bytes that arrive
-- until the peer closes. It checks no prologue and sets no limit on a payload.
pub mod Agrees
pub mod Replies
use Prim.Native.Nat.{bit_or}
use pynq_sdk.Prelude.{
  ℕ, ◌*◌, ◌^◌, ◌&&◌, Bool, true, false, List, [], ◌∷◌, ◌++◌, ltb, ◌==◌, length, if◌then◌else◌,
}
use pynq_sdk.Python.Text.{Text, Bytes, lit}
use pynq_sdk.Python.Exception.{Result, ok, raised, raise, ◌>>=◌, struct_error, value_error}
use pynq_sdk.Python.Struct.{be}
use pynq_sdk.Hislip.{Message, Header, header_size, fields, read_exactly}

-- struct.pack(">2sBBIQ", …)
unfoldable pub pack_header : ℕ → ℕ → ℕ → ℕ → Result Bytes
pack_header msg_type cc param payload_len =
    if ltb msg_type 256 && ltb cc 256 && ltb param (256 ^ 4) && ltb payload_len (256 ^ 8)
    then ok (b'H' ∷ b'S' ∷ msg_type ∷ cc ∷ (be 4 param ++ be 8 payload_len))
    else raise struct_error (lit "argument out of range")

-- `await reader.readexactly(int(plen)) if plen else b""`
abbrev pub read_payload : ℕ → Bytes → Result (Bytes × Bytes)
read_payload plen reader = if plen == 0 then ok ([], reader) else read_exactly plen reader

abbrev pub message_of : Header → Bytes → Message
message_of h payload = record {
  msg_type = h.msg_type;
  control_code = h.control_code;
  msg_param = h.msg_param;
  payload = payload;
}

-- what follows a header
abbrev pub recv_body : Header → Bytes → Result (Message × Bytes)
recv_body h reader = do read ← read_payload h.payload_len reader; ok (message_of h read.0, read.1)

unfoldable pub recv_msg : Bytes → Result (Message × Bytes)
unfolding read_exactly
recv_msg reader = do header ← read_exactly header_size reader; recv_body (fields header.0) header.1

-- the bytes that one call writes
unfoldable pub send_msg : ℕ → ℕ → ℕ → Bytes → Result Bytes
unfolding pack_header
send_msg msg_type cc param [] = pack_header msg_type cc param 0
send_msg msg_type cc param (b ∷ payload) = do
  header ← pack_header msg_type cc param (length (b ∷ payload))
  ok (header ++ b ∷ payload)

abbrev pub is_ascii : Bytes → Bool
is_ascii [] = true
is_ascii (b ∷ bs) = ltb b 128 && is_ascii bs

-- `payload.decode("ascii")`
unfoldable pub decode_strict : Bytes → Result Text
decode_strict bs =
    if is_ascii bs
    then ok bs
    else raise value_error (lit "'ascii' codec can't decode byte: ordinal not in range(128)")

-- the connection: the bytes written so far, and those that still arrive
pub record Connection : Type 0 where
  pub written : Bytes
  pub reader : Bytes

unfoldable pub send : ℕ → ℕ → ℕ → Bytes → Connection → Result Connection
unfolding send_msg
send msg_type cc param payload c = do
  sent ← send_msg msg_type cc param payload
  ok (record c { written = c.written ++ sent })

unfoldable pub receive : Connection → Result (Message × Connection)
unfolding recv_msg
receive c = do read ← recv_msg c.reader; ok (read.0, record c { reader = read.1 })

-- the inner function; a command is ASCII
unfoldable pub scpi : Text → Connection → Result (Text × Connection)
unfolding send receive decode_strict
scpi cmd c = do
  asked ← send 7 0 1 cmd c
  answered ← receive asked
  text ← decode_strict answered.0.payload
  ok (text, answered.1)

-- the parameter of the client's INITIALIZE
abbrev pub client_param : ℕ
client_param = bit_or (0x0100 * 2 ^ 16) 1

unfoldable pub query_instrument : Bytes → Result ((Text × Text) × Bytes)
unfolding scpi send receive
query_instrument reader = do
  opened ← send 0 0 client_param [] (record { written = []; reader = reader })
  initialized ← receive opened
  idn ← scpi (lit "*IDN?") initialized.1
  commands_json ← scpi (lit "SYSTEM:COMMANDS?") idn.1
  ok ((idn.0, commands_json.0), commands_json.1.written)
