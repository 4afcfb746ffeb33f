-- ===== src/Wire/Decoder.antt =====
-- The framing part of `decode_message` of pod_os_client/message/decoder.py: the size fields, the
-- addresses, the header text and the payload bytes.
use pod_os_py_client.Prelude.{
  not, [], ◌∷◌, Option, none, some, ltb, ◌==◌, if◌then◌else◌, length, all, Result, ok, or_raise,
  guard, ◌>>=◌, ◌>>◌,
}
use pod_os_py_client.Prelude.Int.{ℤ, pos, ◌+ℤ◌, ltb_ℤ}
use pod_os_py_client.Prelude.Text.{
  Str, Bytes, codes, is_ascii, rstrip_by, strip, slice, has_char, split_first,
}
use pod_os_py_client.Prelude.Utf8
use pod_os_py_client.Errors.{
  DecodeFailure, decode_error, decode_message_too_short, decode_invalid_size_param,
  decode_invalid_header,
}
use pod_os_py_client.Wire.Integer.{parse_int}

-- `data.decode("ascii")`; `none` is a UnicodeDecodeError.
abbrev pub decode_ascii : Bytes → Option Str
decode_ascii bs = if all is_ascii bs then some bs else none

-- The text of a size: hexadecimal behind an `x`, or decimal; no text is 0.
unfoldable pub size_value : Str → Option ℤ
size_value [] = some (pos 0)
size_value (c ∷ s) = if c == b'x' then parse_int 16 s else parse_int 10 (c ∷ s)

unfoldable pub decode_size_param : Bytes → Option ℤ
decode_size_param param = elim (decode_ascii (rstrip_by (λ c. c == 0) param)) [
  | none ↦ none
  | some text ↦ size_value (strip text)
]

unfoldable pub decode_type_param : Bytes → Option ℤ
decode_type_param param = elim (decode_ascii param) [
  | none ↦ none
  | some text ↦ parse_int 10 (strip text)
]

pub record Sizes : Type 0 where
  pub to_length : ℤ
  pub from_length : ℤ
  pub header_length : ℤ
  pub message_type : ℤ
  pub data_type : ℤ
  pub payload_data_length : ℤ

abbrev size_error : DecodeFailure
size_error = decode_error decode_invalid_size_param (codes "length_fields")

abbrev too_short : DecodeFailure
too_short = decode_error decode_message_too_short (codes "message")

abbrev header_error : DecodeFailure
header_error = decode_error decode_invalid_header (codes "header")

-- The seven fields of nine bytes. The total length must be readable and is not used.
unfoldable pub read_sizes : Bytes → Result DecodeFailure Sizes
read_sizes wire = do
  _ ← or_raise (decode_size_param (slice wire (pos 0) (pos 9))) size_error
  to_length ← or_raise (decode_size_param (slice wire (pos 9) (pos 18))) size_error
  from_length ← or_raise (decode_size_param (slice wire (pos 18) (pos 27))) size_error
  header_length ← or_raise (decode_size_param (slice wire (pos 27) (pos 36))) size_error
  message_type ← or_raise (decode_type_param (slice wire (pos 36) (pos 45))) size_error
  data_type ← or_raise (decode_type_param (slice wire (pos 45) (pos 54))) size_error
  payload_data_length ← or_raise (decode_size_param (slice wire (pos 54) (pos 63))) size_error
  ok (record {
    to_length = to_length;
    from_length = from_length;
    header_length = header_length;
    message_type = message_type;
    data_type = data_type;
    payload_data_length = payload_data_length;
  })

pub record Frame : Type 0 where
  pub to : Str
  pub from : Str
  pub header : Str
  pub message_type : ℤ
  pub data_type : ℤ
  pub payload : Bytes

-- Routing data may follow the sender's address behind a bar.
abbrev pub sender : Str → Str
sender address = if has_char b'|' address then split_first b'|' address else address

-- The variable fields. The sizes may be negative: a slice's bound then counts from the end.
unfoldable pub read_body : Bytes → Sizes → Result DecodeFailure Frame
read_body wire n =
    let to_end = pos 63 +ℤ n.to_length in
    let from_end = to_end +ℤ n.from_length in
    let header_end = from_end +ℤ n.header_length in
    let required_length = header_end +ℤ n.payload_data_length in
    do
      guard (not (ltb_ℤ (pos (length wire)) required_length)) too_short
      to ← or_raise (Utf8.decode (slice wire (pos 63) to_end)) header_error
      from ← or_raise (Utf8.decode (slice wire to_end from_end)) header_error
      header ← or_raise (Utf8.decode (slice wire from_end header_end)) header_error
      ok (record {
        to = to;
        from = sender from;
        header = header;
        message_type = n.message_type;
        data_type = n.data_type;
        payload = slice wire header_end required_length;
      })

unfoldable pub decode_frame : Bytes → Result DecodeFailure Frame
decode_frame wire = do
  guard (not (ltb (length wire) 63)) too_short
  sizes ← read_sizes wire
  read_body wire sizes
