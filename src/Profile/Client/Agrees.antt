-- ===== src/Profile/Client/Agrees.antt =====
-- The frames of the client and those of the server.
use mathlib.Core.List.{append-nil}
use pynq_sdk.Prelude.{ℕ, ◌≡◌, refl, sym, ◌∙◌, ap, false, [], ◌∷◌, ◌++◌, ◌==◌, arith, length, All}
use pynq_sdk.Python.Text.{Bytes}
use pynq_sdk.Python.Exception.{Result, ok, raised, ◌>>=◌}
use pynq_sdk.Python.Struct.{IsByte}
use pynq_sdk.Hislip.{Message, header_size, pack_header, recv_message, send_message}
use pynq_sdk.Hislip.Codec.{
  Fits, header_bytes, header_of, fields-header_bytes, length-header_bytes, read_exactly-append,
}
use pynq_sdk.Hislip.Accepts.{recv_message_iff}
use pynq_sdk.Profile.Client.{recv_msg, send_msg, message_of, read_payload, recv_body}
use pynq_sdk.Profile.Client as Client

pack_header-pack_header : (a b c n : ℕ) → Client.pack_header a b c n ≡ pack_header a b c n
unfolding pack_header Client.pack_header
pack_header-pack_header a b c n = refl

append_nil : (r : Result Bytes) → (r >>= λ frame. ok (frame ++ [])) ≡ r
append_nil (raised e) = refl
append_nil (ok frame) = rw append-nil refl

-- The client writes for every message, also for one that does not fit a header, what the server's
-- `send_message` writes, or raises the same error.
pub send_msg-send_message :
    (m : Message) → send_msg m.msg_type m.control_code m.msg_param m.payload ≡ send_message m
unfolding send_msg send_message pack_header Client.pack_header
send_msg-send_message m = by_payload m.payload
  where
    by_payload :
        (p : Bytes)
        → send_msg m.msg_type m.control_code m.msg_param p ≡ send_message (record m { payload = p })
    by_payload [] = sym (append_nil (pack_header m.msg_type m.control_code m.msg_param 0))
    by_payload (b ∷ p) = refl

read_payload-append : (p rest : Bytes) → read_payload (length p) (p ++ rest) ≡ ok (p, rest)
read_payload-append [] rest = refl
read_payload-append (b ∷ p) rest =
    rw some_bytes (read_exactly-append (length (b ∷ p)) (b ∷ p) rest refl)
  where
    some_bytes : (length (b ∷ p) == 0) ≡ false
    some_bytes = ground arith

-- The client reads any frame whose fields fit the header, of whatever length, and stands behind it.
pub recv_msg-frame :
    (m : Message) (rest : Bytes)
    → Fits (header_of m)
    → recv_msg (header_bytes (header_of m) ++ (m.payload ++ rest)) ≡ ok (m, rest)
unfolding recv_msg
recv_msg-frame m rest f =
    let h = header_of m in
    rw
      (read_exactly-append header_size (header_bytes h) (m.payload ++ rest) (length-header_bytes h))
      (ap (λ g. recv_body g (m.payload ++ rest)) (fields-header_bytes h f)
        ∙ rw (read_payload-append m.payload rest) refl)

-- Whatever the server's `recv_message` accepts, the client reads as the same message.
pub recv_msg-recv_message :
    (reader rest : Bytes) (m : Message)
    → All IsByte reader
    → recv_message reader ≡ ok (m, rest)
    → recv_msg reader ≡ ok (m, rest)
recv_msg-recv_message reader rest m bytes e =
    let (s, split) = (recv_message_iff reader rest m bytes).0 e in
    rw split (recv_msg-frame m rest s.fits)
