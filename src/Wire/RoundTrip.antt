-- ===== src/Wire/RoundTrip.antt =====
-- The decoder on the bytes that the encoder returns: message/encoder.py against message/decoder.py.
mod Slices
pub mod Params
pub mod Frames
use Frames.{decode_frame-frame, length-frame}
use pod_os_py_client.Prelude.{
  ℕ, ◌+◌, ◌-◌, ◌^◌, ◌≤◌, ◌<◌, Bool, true, false, not, List, [], ◌∷◌, ◌++◌, Option, none, some,
  length, length-append, Result, ok, err, ◌≡◌, refl, ap, sym, ◌∙◌, arith, All, ltb, le→ltb,
  Bool-cases, inl, inr, or_raise, guard, ◌>>=◌, ◌>>◌,
}
use pod_os_py_client.Prelude.Int.{ℤ, pos, negsuc, ◌+ℤ◌, +ℤ_pos, ltb_ℤ}
use pod_os_py_client.Prelude.Text.{Str, Bytes, IsAscii, slice, concat, codes}
use pod_os_py_client.Prelude.Utf8
use pod_os_py_client.Message.Header.Fields.{force_ascii}
use pod_os_py_client.Errors.{EncodeFailure, DecodeFailure, encode_error, encode_payload_too_large}
use pod_os_py_client.Wire.Integer.{size_field, type_field}
use pod_os_py_client.Wire.Integer.Laws.{length-size_field, length-type_field, FitsTypeField}
use pod_os_py_client.Intents.Constants.{Intent}
use pod_os_py_client.Message.Types.{Message}
use pod_os_py_client.Message.Header.{construct_header}
use pod_os_py_client.Message.Payload.{payload_to_bytes}
use pod_os_py_client.Wire.Encoder.{
  encode_message, check_address, data_type_of, segments, total_length, assemble, max_message_size,
}
use pod_os_py_client.Wire.Decoder.{
  Frame, Sizes, read_sizes, read_body, decode_frame, sender, decode_size_param, decode_type_param,
}

pub keep-IsAscii : (s : Str) → IsAscii (force_ascii s)
unfolding force_ascii
keep-IsAscii [] = tt
keep-IsAscii (c ∷ s) = ground (arith, keep-IsAscii s)

size_check :
    (n : ℕ) (b : Bytes) (e : EncodeFailure) {w : Bytes}
    → (guard (not (ltb max_message_size n)) e >>= λ _. ok b) ≡ ok w
    → (n ≤ max_message_size) × (w ≡ b)
size_check n b e h = ground arith

-- What `assemble` returns.
pub assemble_ok :
    (to from header : Str) (message_type : ℕ) (data_type : ℤ) (payload : Bytes) {wire : Bytes}
    → assemble to from header message_type data_type payload ≡ ok wire
    → let mt = type_field (pos message_type) in
      let dt = type_field data_type in
      let total = total_length to from header mt dt payload in
      (total ≤ max_message_size)
      × (wire ≡ size_field total ++ concat (segments to from header mt dt payload))
unfolding assemble
assemble_ok to from header message_type data_type payload h = size_check _ _ _ h

then_ok :
    (m : Result EncodeFailure (Unit {0})) (k : Result EncodeFailure Bytes) {w : Bytes}
    → (m >>= λ _. k) ≡ ok w
    → k ≡ ok w
then_ok (ok u) k h = h
then_ok (err e) k h = cc

module _ (now : Str) (msg : Message) (intent : Intent) {header : Str} {payload wire : Bytes}
    (written : construct_header now msg intent ≡ some header)
    (encoded : payload_to_bytes msg intent.name ≡ ok payload)
    (sent : encode_message now (some msg) intent ≡ ok wire) where
  pub assembled :
      assemble
        (force_ascii msg.to)
        (force_ascii msg.from)
        (force_ascii header)
        intent.message_type
        (data_type_of msg)
        payload
      ≡ ok wire
  unfolding encode_message
  assembled =
      let checked = rw (encoded, written) at sent in
      then_ok (check_address (codes "From") msg.from) _ (
        then_ok (check_address (codes "To") msg.to) _ (
          then_ok
            (guard (not (ltb max_message_size (length payload)))
              (encode_error encode_payload_too_large (codes "PayloadData")))
            _ checked))

  -- A message that is encoded is decoded to the ASCII part of its addresses (of the sender, up to a
  -- bar) and of its header's text, with its types and the bytes of its payload, for every message type
  -- and data type that fits its field.
  pub decode_frame-encode_message :
      intent.message_type < 10 ^ 9
      → FitsTypeField (data_type_of msg)
      → decode_frame wire
        ≡ ok (record {
          to = force_ascii msg.to;
          from = sender (force_ascii msg.from);
          header = force_ascii header;
          message_type = pos intent.message_type;
          data_type = data_type_of msg;
          payload = payload;
        })
  decode_frame-encode_message type_fits data_fits =
      let (small, e) = assemble_ok _ _ _ intent.message_type (data_type_of msg) payload assembled in
      let a = length (force_ascii msg.to) in
      rw e (
        decode_frame-frame (force_ascii msg.to) (force_ascii msg.from) (force_ascii header)
          (pos intent.message_type) (data_type_of msg) payload _ (omega arith) (omega arith)
          (omega arith) (omega arith) (omega arith) type_fits data_fits (keep-IsAscii msg.to)
          (keep-IsAscii msg.from) (keep-IsAscii header))
