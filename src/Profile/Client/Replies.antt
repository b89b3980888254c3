-- ===== src/Profile/Client/Replies.antt =====
-- What the profile generator's client makes of the frames that it asked for.

use mathlib.Core.List.{append_assoc, append-nil}
use pynq_sdk.Prelude.{
  ℕ, ◌^◌, ◌<◌, ◌≡◌, refl, sym, ◌∙◌, ap, true, List, [], ◌∷◌, ◌++◌, arith, length, ltb, ◌&&◌, All,
}
use pynq_sdk.Python.Text.{Text, Bytes, lit, encode_ascii}
use pynq_sdk.Python.Exception.{Result, ok, ◌>>=◌}
use pynq_sdk.Hislip.{Message, send_message}
use pynq_sdk.Hislip.Codes.{msg_initialize, msg_data_end}
use pynq_sdk.Hislip.Codec.{Fits, header_of, header_bytes, send_message-IsSendable}
use pynq_sdk.Session.Exchange.{data_end}
use pynq_sdk.Profile.Client.{
  Connection, client_param, send, receive, is_ascii, recv_msg, send_msg, decode_strict, scpi,
  query_instrument,
}
use pynq_sdk.Profile.Client.Agrees.{recv_msg-frame, send_msg-send_message}

abbrev pub IsAscii : ℕ → Type 0
IsAscii c = c < 128

encode_ascii-IsAscii : (s : Text) → All IsAscii s → encode_ascii s ≡ s
unfolding encode_ascii
encode_ascii-IsAscii [] h = refl
encode_ascii-IsAscii (c ∷ s) h = ground (arith, encode_ascii-IsAscii s h.1)

decode_strict-IsAscii : (s : Text) → All IsAscii s → decode_strict s ≡ ok s
unfolding decode_strict
decode_strict-IsAscii s h = rw (ascii s h) refl
  where
    ascii : (s : Text) → All IsAscii s → is_ascii s ≡ true
    ascii [] h = refl
    ascii (c ∷ s) h = ground (arith, ascii s h.1)

-- The messages that the client sends.
abbrev pub initialize : Message
initialize = record {
  msg_type = msg_initialize;
  control_code = 0;
  msg_param = client_param;
  payload = [];
}

abbrev pub ask : Text → Message
ask command = record { msg_type = msg_data_end; control_code = 0; msg_param = 1; payload = command }

-- The bytes that a peer writes for its messages.
unfoldable pub write_all : List Message → Result Bytes
unfolding send_message
write_all [] = ok []
write_all (m ∷ ms) = do frame ← send_message m; frames ← write_all ms; ok (frame ++ frames)

-- A text that fits a frame.
pub record Fitting (s : Text) : Type 0 where
  pub ascii : All IsAscii s
  pub bounded : length s < 256 ^ 8

-- The bytes of a message.
abbrev pub frame : Message → Bytes
frame m = header_bytes (header_of m) ++ m.payload

pub data_end-Fitting : (response : Text) → Fitting response → data_end 1 response ≡ ask response
unfolding data_end
data_end-Fitting response r = rw (encode_ascii-IsAscii response r.ascii) refl

pub ask-Fits : (command : Text) → length command < 256 ^ 8 → Fits (header_of (ask command))
ask-Fits command h = record {
  type_fits = omega arith;
  control_fits = omega arith;
  param_fits = omega arith;
  length_fits = h;
}

send_msg-frame :
    (m : Message)
    → Fits (header_of m)
    → send_msg m.msg_type m.control_code m.msg_param m.payload ≡ ok (frame m)
send_msg-frame m f = send_msg-send_message m ∙ send_message-IsSendable m f

send-frame :
    (m : Message) (written reader : Bytes)
    → Fits (header_of m)
    → send m.msg_type m.control_code m.msg_param m.payload
        (record { written = written; reader = reader })
      ≡ ok (record { written = written ++ frame m; reader = reader })
unfolding send
send-frame m written reader f = rw (send_msg-frame m f) refl

read_frame :
    (m : Message) (rest : Bytes) → Fits (header_of m) → recv_msg (frame m ++ rest) ≡ ok (m, rest)
read_frame m rest f =
    ap recv_msg (append_assoc (header_bytes (header_of m)) m.payload rest) ∙ recv_msg-frame m rest f

abbrev reading_of : Bytes → Result (Message × Bytes) → Result (Message × Connection)
reading_of written r = r >>= λ read. ok (read.0, record { written = written; reader = read.1 })

receive-frame :
    (m : Message) (written rest : Bytes)
    → Fits (header_of m)
    → receive (record { written = written; reader = frame m ++ rest })
      ≡ ok (m, record { written = written; reader = rest })
unfolding receive
receive-frame m written rest f = ap (reading_of written) (read_frame m rest f)

is_ascii-IsAscii : (s : Text) → is_ascii s ≡ true → All IsAscii s
is_ascii-IsAscii [] h = tt
is_ascii-IsAscii (c ∷ s) h = (ground arith, is_ascii-IsAscii s (ground arith))

-- The test of a text that fits a frame.
pub fitting : (s : Text) → (is_ascii s && ltb (length s) (256 ^ 8)) ≡ true → Fitting s
fitting s h = record { ascii = is_ascii-IsAscii s (ground arith); bounded = ground arith }

-- One command of the client: what it writes, and what it reads of a response.
scpi-reply :
    (command response written rest : Text)
    → length command < 256 ^ 8
    → Fitting response
    → scpi command (record { written = written; reader = frame (ask response) ++ rest })
      ≡ ok (response, record { written = written ++ frame (ask command); reader = rest })
unfolding scpi
scpi-reply command response written rest f r =
    let reader = frame (ask response) ++ rest in
    let asked = send-frame (ask command) written reader (ask-Fits command f) in
    let answered =
      receive-frame (ask response) (written ++ frame (ask command)) rest
        (ask-Fits response r.bounded) in
    rw (asked) (rw answered (rw (decode_strict-IsAscii response r.ascii) refl))

abbrev pub frames : List Message → Bytes
frames [] = []
frames (m ∷ ms) = frame m ++ frames ms

abbrev pub FitsHeader : Message → Type 0
FitsHeader m = Fits (header_of m)

pub write_all-frames : (ms : List Message) → All FitsHeader ms → write_all ms ≡ ok (frames ms)
unfolding write_all
write_all-frames [] h = refl
write_all-frames (m ∷ ms) h = rw (send_message-IsSendable m h.0, write_all-frames ms h.1) refl

pub initialize-Fits : Fits (header_of initialize)
initialize-Fits = record {
  type_fits = omega arith;
  control_fits = omega arith;
  param_fits = omega arith;
  length_fits = omega arith;
}

abbrev pub idn_query : Text
idn_query = lit "*IDN?"

abbrev pub commands_query : Text
commands_query = lit "SYSTEM:COMMANDS?"

-- what the client has written in the end
abbrev pub asked : Bytes
asked = (([] ++ frame initialize) ++ frame (ask idn_query)) ++ frame (ask commands_query)

pub asked-frames : asked ≡ frames (initialize ∷ ask idn_query ∷ ask commands_query ∷ [])
asked-frames =
    append_assoc (frame initialize) (frame (ask idn_query)) (frame (ask commands_query))
    ∙ ap (λ s. frame initialize ++ (frame (ask idn_query) ++ s))
        (sym (append-nil (frame (ask commands_query))))

bind_ok {ℓ κ} :
    {A : Type ℓ} {B : Type κ} {m : Result A} {a : A} (k : A → Result B) → m ≡ ok a → (m >>= k) ≡ k a
bind_ok k e = rw e refl

-- What `query_instrument` does from each of its replies on.
abbrev Outcome : Type 0
Outcome = Result ((Text × Text) × Bytes)

abbrev from_commands : Text → Text × Connection → Outcome
from_commands idn commands = ok ((idn, commands.0), commands.1.written)

abbrev from_idn : Text × Connection → Outcome
from_idn idn = scpi commands_query idn.1 >>= from_commands idn.0

abbrev from_initialized : Message × Connection → Outcome
from_initialized initialized = scpi idn_query initialized.1 >>= from_idn

abbrev from_opened : Connection → Outcome
from_opened opened = receive opened >>= from_initialized

pub query_instrument-replies :
    (opening : Message) (idn listing : Text)
    → Fits (header_of opening)
    → Fitting idn
    → Fitting listing
    → query_instrument (frames (opening ∷ ask idn ∷ ask listing ∷ [])) ≡ ok ((idn, listing), asked)
unfolding query_instrument
query_instrument-replies opening idn listing f fi fl =
    let rest2 = frame (ask listing) ++ [] in
    let rest1 = frame (ask idn) ++ rest2 in
    let written = [] ++ frame initialize in
    bind_ok from_opened (send-frame initialize [] (frame opening ++ rest1) initialize-Fits)
    ∙ bind_ok from_initialized (receive-frame opening written rest1 f)
    ∙ bind_ok from_idn (scpi-reply idn_query idn written rest2 (omega arith) fi)
    ∙ bind_ok (from_commands idn)
        (scpi-reply commands_query listing (written ++ frame (ask idn_query)) [] (omega arith) fl)
