-- ===== src/Hislip/Accepts.antt =====
-- What `recv_message` accepts: exactly the frames that `send_message` writes within the limit.
use mathlib.Core.Path.{subst}
use pynq_sdk.Prelude.{
  ℕ, ◌≤◌, ◌≡◌, ◌↔◌, sym, ◌∙◌, ap, true, [], ◌∷◌, ◌++◌, arith, length, length-take, length-drop,
  take, drop, take_all, take-append-drop, All, All-take, All-drop, ltb, leb, Bool-cases, inl, inr,
}
use pynq_sdk.Python.Text.{Bytes, text_eq}
use pynq_sdk.Python.Exception.{Result, ok, ◌>>=◌, >>=-Completes}
use pynq_sdk.Python.Struct.{IsByte, be-of_be, of_be-lt}
use pynq_sdk.Hislip.{
  header_size, max_payload, Message, Header, fields, unpack_header, read_exactly, recv_payload,
  recv_message,
}
use pynq_sdk.Hislip.Codec.{
  Fits, header_bytes, header_of, IsSendable, of_be-singleton, recv_message-frame,
}

read_exactly_inv :
    (n : ℕ) (r xs ys : Bytes)
    → read_exactly n r ≡ ok (xs, ys)
    → (r ≡ xs ++ ys) × (length xs ≡ n) × (xs ≡ take n r) × (ys ≡ drop n r)
unfolding read_exactly
read_exactly_inv n r xs ys h =
    let parts : (leb n (length r) ≡ true) × (xs ≡ take n r) × (ys ≡ drop n r) = ground arith in
    (
      sym (take-append-drop n r) ∙ cc (parts.1, parts.2),
      ground (arith, length-take n r),
      parts.1,
      parts.2,
    )

module _ (c2 c3 : ℕ) (r : Bytes) (len : length r ≡ 12) (bytes : All IsByte (c2 ∷ c3 ∷ r)) where
  abbrev whole : Bytes
  whole = b'H' ∷ b'S' ∷ c2 ∷ c3 ∷ r

  param_length : length (take 4 r) ≡ 4
  param_length = omega (arith, length-take 4 r)

  size_length : length (drop 4 r) ≡ 8
  size_length = omega (arith, length-drop 4 r)

  header_bytes-fields : header_bytes (fields whole) ≡ whole
  header_bytes-fields =
      let p = be-of_be 4 (take 4 r) param_length (All-take IsByte 4 r bytes.1.1) in
      let all = take_all (drop 4 r) 8 size_length in
      let l = be-of_be 8 (drop 4 r) size_length (All-drop IsByte 4 r bytes.1.1) in
      rw (of_be-singleton c2, of_be-singleton c3, all, p, l)
        (ap (λ t. b'H' ∷ b'S' ∷ c2 ∷ c3 ∷ t) (take-append-drop 4 r))

  fields-Fits : Fits (fields whole)
  fields-Fits = record {
    type_fits = rw (of_be-singleton c2) bytes.0;
    control_fits = rw (of_be-singleton c3) bytes.1.0;
    param_fits = of_be-lt 4 (take 4 r) param_length (All-take IsByte 4 r bytes.1.1);
    length_fits =
        rw (take_all (drop 4 r) 8 size_length)
          (of_be-lt 8 (drop 4 r) size_length (All-drop IsByte 4 r bytes.1.1));
  }

-- Sixteen bytes that unpack are the header of what they unpack to.
unpack_header_inv :
    (frame : Bytes) (h : Header)
    → All IsByte frame
    → unpack_header frame ≡ ok h
    → (frame ≡ header_bytes h) × Fits h
unfolding unpack_header text_eq
unpack_header_inv [] h b u = ground arith
unpack_header_inv (c0 ∷ []) h b u = ground arith
unpack_header_inv (c0 ∷ c1 ∷ []) h b u = ground arith
unpack_header_inv (c0 ∷ c1 ∷ c2 ∷ []) h b u = ground arith
unpack_header_inv (c0 ∷ c1 ∷ c2 ∷ c3 ∷ r) h b u =
    let parts : (length r ≡ 12) × (c0 ≡ b'H') × (c1 ≡ b'S') × (h ≡ fields (c0 ∷ c1 ∷ c2 ∷ c3 ∷ r)) =
      ground arith in
    let bytes : All IsByte (c2 ∷ c3 ∷ r) = b.1.1 in
    let eq : h ≡ fields (whole c2 c3 r parts.0 bytes) = parts.3 in
    (
      cc (parts.1, parts.2, header_bytes-fields c2 c3 r parts.0 bytes, eq),
      rw eq (fields-Fits c2 c3 r parts.0 bytes),
    )

abbrev built : Header → Bytes × Bytes → Result (Message × Bytes)
built h read = ok (
  record {
    msg_type = h.msg_type;
    control_code = h.control_code;
    msg_param = h.msg_param;
    payload = read.0;
  },
  read.1,
)

recv_payload_inv :
    (h : Header) (r rest : Bytes) (m : Message)
    → recv_payload h r ≡ ok (m, rest)
    → (h ≡ header_of m) × (r ≡ m.payload ++ rest) × (length m.payload ≤ max_payload)
recv_payload_inv h r rest m e = elim (Bool-cases (ltb max_payload h.payload_len)) [
  | inl over ↦ cc (rw over at e)
  | inr fits ↦
      let reading = >>=-Completes (read_exactly h.payload_len r) (built h) (rw fits at e) in
      let read = reading.value in
      let made = reading.second in
      let (split, len, _, _) = read_exactly_inv h.payload_len r read.0 read.1 reading.first in
      let same : (m.payload ≡ read.0) × (rest ≡ read.1) = ground arith in
      (ground arith, split ∙ cc (same.0, same.1), ground arith)
]

recv_message_inv :
    (reader rest : Bytes) (m : Message)
    → recv_message reader ≡ ok (m, rest)
    → (h : Header) × (frame : Bytes) × (tail : Bytes) × (read_exactly header_size reader
        ≡ ok (frame, tail))
      × (unpack_header frame ≡ ok h)
      × (recv_payload h tail ≡ ok (m, rest))
unfolding recv_message
recv_message_inv reader rest m e =
    let reading =
      >>=-Completes (read_exactly header_size reader)
        (λ read. unpack_header read.0 >>= λ h. recv_payload h read.1) e in
    let read = reading.value in
    let header = >>=-Completes (unpack_header read.0) (λ h. recv_payload h read.1) reading.second in
    (header.value, read.0, read.1, reading.first, header.first, header.second)

-- `recv_message` accepts a stream of bytes exactly if it begins with the frame of a sendable message,
-- and then returns that message and what follows the frame.
pub recv_message_iff :
    (reader rest : Bytes) (m : Message)
    → All IsByte reader
    → (recv_message reader ≡ ok (m, rest))
      ↔ (IsSendable m × (reader ≡ header_bytes (header_of m) ++ (m.payload ++ rest)))
recv_message_iff reader rest m bytes = (accepted, λ (s, e). rw e (recv_message-frame m rest s))
  where
    accepted :
        recv_message reader ≡ ok (m, rest)
        → IsSendable m × (reader ≡ header_bytes (header_of m) ++ (m.payload ++ rest))
    accepted e =
        let (h, frame, tail, er, eh, ep) = recv_message_inv reader rest m e in
        let (split, _, head, _) = read_exactly_inv header_size reader frame tail er in
        let (packed, fits) =
          unpack_header_inv frame h (rw head (All-take IsByte header_size reader bytes)) eh in
        let (same, read, small) = recv_payload_inv h tail rest m ep in
        (record { fits = subst Fits same fits; small = small }, split ∙ rw (packed, read, same))
