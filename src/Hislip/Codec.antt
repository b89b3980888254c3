-- ===== src/Hislip/Codec.antt =====
-- Headers and messages on the wire.
use mathlib.Core.List.{append_assoc}
use pynq_sdk.Prelude.{
  ℕ, ◌^◌, ◌≤◌, ◌<◌, ◌≡◌, refl, ◌∙◌, ap, true, false, [], ◌∷◌, ◌++◌, arith, length, length-append,
  take, drop, take-append, drop-append, take_all, ltb, leb,
}
use pynq_sdk.Python.Text.{Bytes, lit, text_eq}
use pynq_sdk.Python.Exception.{ok, raised}
use pynq_sdk.Python.Struct.{be, of_be, length-be, of_be-be}
use pynq_sdk.Hislip.{
  header_size, max_payload, too_large, Message, Header, fields, pack_header, unpack_header,
  read_exactly, recv_payload, recv_message, send_message,
}

-- The fields fit their places in the header.
pub record Fits (h : Header) : Type 0 where
  pub type_fits : h.msg_type < 256
  pub control_fits : h.control_code < 256
  pub param_fits : h.msg_param < 256 ^ 4
  pub length_fits : h.payload_len < 256 ^ 8

-- The sixteen bytes of a header.
abbrev pub header_bytes : Header → Bytes
header_bytes h =
    b'H' ∷ b'S' ∷ h.msg_type ∷ h.control_code ∷ (be 4 h.msg_param ++ be 8 h.payload_len)

pub pack_header-Fits :
    (h : Header)
    → Fits h
    → pack_header h.msg_type h.control_code h.msg_param h.payload_len ≡ ok (header_bytes h)
unfolding pack_header
pack_header-Fits h f = ground arith

pub length-header_bytes : (h : Header) → length (header_bytes h) ≡ header_size
length-header_bytes h = omega (
  arith,
  length-append (be 4 h.msg_param) (be 8 h.payload_len),
  length-be 4 h.msg_param,
  length-be 8 h.payload_len,
)

pub of_be-singleton : (b : ℕ) → of_be (b ∷ []) ≡ b
unfolding of_be
of_be-singleton b = omega arith

pub fields-header_bytes : (h : Header) → Fits h → fields (header_bytes h) ≡ h
fields-header_bytes h f =
    let p = be 4 h.msg_param in
    let l = be 8 h.payload_len in
    let param : of_be (take 4 (p ++ l)) ≡ h.msg_param =
      rw (take-append p l 4 (length-be 4 h.msg_param)) (of_be-be 4 h.msg_param f.param_fits) in
    let len : of_be (take 8 (drop 4 (p ++ l))) ≡ h.payload_len =
      rw (drop-append p l 4 (length-be 4 h.msg_param), take_all l 8 (length-be 8 h.payload_len))
        (of_be-be 8 h.payload_len f.length_fits) in
    rw (of_be-singleton h.msg_type, of_be-singleton h.control_code, param, len)

length_guard :
    (frame : Bytes)
    → length frame ≡ header_size
    → text_eq (take 2 frame) (lit "HS") ≡ true
    → unpack_header frame ≡ ok (fields frame)
unfolding unpack_header
length_guard frame e p = rw (e, p)

unpack_header-header_bytes : (h : Header) → Fits h → unpack_header (header_bytes h) ≡ ok h
unpack_header-header_bytes h f =
    length_guard (header_bytes h) (length-header_bytes h) (unfold text_eq in refl)
    ∙ ap ok (fields-header_bytes h f)

-- Fields that fit their places can be packed; the header is sixteen bytes long, and unpacks to the
-- fields.
pub unpack_header-pack_header :
    (h : Header)
    → Fits h
    → (frame : Bytes) × (pack_header h.msg_type h.control_code h.msg_param h.payload_len ≡ ok frame)
      × (length frame ≡ header_size)
      × (unpack_header frame ≡ ok h)
unpack_header-pack_header h f =
    (header_bytes h, pack_header-Fits h f, length-header_bytes h, unpack_header-header_bytes h f)

abbrev pub header_of : Message → Header
header_of m = record {
  msg_type = m.msg_type;
  control_code = m.control_code;
  msg_param = m.msg_param;
  payload_len = length m.payload;
}

-- A message that a peer accepts.
pub record IsSendable (m : Message) : Type 0 where
  pub fits : Fits (header_of m)
  pub small : length m.payload ≤ max_payload

pub send_message-IsSendable :
    (m : Message)
    → Fits (header_of m)
    → send_message m ≡ ok (header_bytes (header_of m) ++ m.payload)
unfolding send_message
send_message-IsSendable m s = rw (pack_header-Fits (header_of m) s)

pub read_exactly-append :
    (n : ℕ) (xs ys : Bytes) → length xs ≡ n → read_exactly n (xs ++ ys) ≡ ok (xs, ys)
unfolding read_exactly
read_exactly-append n xs ys e =
    let enough : leb n (length (xs ++ ys)) ≡ true = ground (arith, length-append xs ys) in
    rw (enough, take-append xs ys n e, drop-append xs ys n e)

recv_payload-append :
    (m : Message) (rest : Bytes)
    → length m.payload ≤ max_payload
    → recv_payload (header_of m) (m.payload ++ rest) ≡ ok (m, rest)
recv_payload-append m rest small =
    let room : ltb max_payload (length m.payload) ≡ false = ground arith in
    rw (room, read_exactly-append (length m.payload) m.payload rest refl)

recv_message_lem :
    (reader frame rest : Bytes) (h : Header)
    → read_exactly header_size reader ≡ ok (frame, rest)
    → unpack_header frame ≡ ok h
    → recv_message reader ≡ recv_payload h rest
unfolding recv_message
recv_message_lem reader frame rest h e u = rw (e, u)

pub recv_message-frame :
    (m : Message) (rest : Bytes)
    → IsSendable m
    → recv_message (header_bytes (header_of m) ++ (m.payload ++ rest)) ≡ ok (m, rest)
recv_message-frame m rest s =
    let h = header_of m in
    recv_message_lem _ (header_bytes h) (m.payload ++ rest) h
      (read_exactly-append header_size (header_bytes h) (m.payload ++ rest) (length-header_bytes h))
      (unpack_header-header_bytes h s.fits)
    ∙ recv_payload-append m rest s.small

-- A message whose fields fit the header and whose payload is within the limit can be sent, and the
-- peer that reads the stream receives it and stands behind it, whatever follows.
pub recv_message-send_message :
    (m : Message) (rest : Bytes)
    → IsSendable m
    → (sent : Bytes) × (send_message m ≡ ok sent) × (recv_message (sent ++ rest) ≡ ok (m, rest))
recv_message-send_message m rest s =
    let h = header_bytes (header_of m) in
    (
      h ++ m.payload,
      send_message-IsSendable m s.fits,
      ap recv_message (append_assoc h m.payload rest) ∙ recv_message-frame m rest s,
    )

-- A message whose fields fit the header, with a payload over the limit, can be sent; the peer
-- refuses it by the error that names both sizes.
pub recv_message-too_large :
    (m : Message) (rest : Bytes)
    → Fits (header_of m)
    → max_payload < length m.payload
    → (sent : Bytes) × (send_message m ≡ ok sent)
      × (recv_message (sent ++ rest) ≡ raised (too_large (length m.payload)))
recv_message-too_large m rest f large =
    let h = header_of m in
    let over : ltb max_payload (length m.payload) ≡ true = ground arith in
    (
      header_bytes h ++ m.payload,
      send_message-IsSendable m f,
      ap recv_message (append_assoc (header_bytes h) m.payload rest)
          ∙ recv_message_lem _ (header_bytes h) (m.payload ++ rest) h
              (read_exactly-append header_size (header_bytes h) (m.payload ++ rest)
                (length-header_bytes h))
              (unpack_header-header_bytes h f)
          ∙ rw over,
    )
