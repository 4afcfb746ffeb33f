-- ===== src/Wire/Encoder.antt =====
-- `encode_message` of pod_os_client/message/encoder.py.
use pod_os_py_client.Prelude.{
  ℕ, ◌+◌, ◌*◌, not, List, [], ◌∷◌, ◌++◌, Option, none, some, ltb, length, Result, ok, err, or_raise,
  guard, ◌>>=◌, ◌>>◌,
}
use pod_os_py_client.Prelude.Int.{ℤ, pos}
use pod_os_py_client.Prelude.Text.{Str, Bytes, codes, concat, split, truthy}
use pod_os_py_client.Errors.{
  EncodeFailure, encode_error, value_error, encode_message_nil, encode_payload_too_large,
  encode_invalid_address,
}
use pod_os_py_client.Intents.Constants.{Intent}
use pod_os_py_client.Message.Types.{Message}
use pod_os_py_client.Message.Payload.{payload_to_bytes}
use pod_os_py_client.Message.Header.{construct_header}
use pod_os_py_client.Message.Header.Fields.{force_ascii}
use pod_os_py_client.Wire.Integer.{size_field, type_field}

-- MAX_MESSAGE_SIZE.
abbrev pub max_message_size : ℕ
max_message_size = 2 * 1024 * 1024 * 1024

abbrev pub invalid_address : Str → EncodeFailure
invalid_address field = encode_error encode_invalid_address field

-- The part before the first `@` and the part behind it, up to the next one, are not empty.
unfoldable pub check_address : Str → Str → Result EncodeFailure (Unit {0})
check_address field address = elim (split b'@' address) [
  | [] ↦ err (invalid_address field)
  | local ∷ rest ↦ elim rest [
    | [] ↦ err (invalid_address field)
    | gateway ∷ others ↦ do
      guard (truthy local) (invalid_address field)
      guard (truthy gateway) (invalid_address field)
  ]
]

-- The segments of a frame behind its total length, and their size.
abbrev pub segments : Str → Str → Str → Str → Str → Bytes → List Bytes
segments to from header message_type data_type payload =
    size_field (length to)
    ∷ size_field (length from)
    ∷ size_field (length header)
    ∷ message_type
    ∷ data_type
    ∷ size_field (length payload)
    ∷ to
    ∷ from
    ∷ header
    ∷ payload
    ∷ []

abbrev pub total_length : Str → Str → Str → Str → Str → Bytes → ℕ
total_length to from header message_type data_type payload =
    length to
    + 9
    + length from
    + 9
    + length header
    + 9
    + length message_type
    + length data_type
    + length payload
    + 9
    + 9

-- The frame of ASCII texts, or an error if it is larger than the limit.
unfoldable pub assemble : Str → Str → Str → ℕ → ℤ → Bytes → Result EncodeFailure Bytes
assemble to from header message_type data_type payload =
    let message_type_encoded = type_field (pos message_type) in
    let data_type_encoded = type_field data_type in
    let total = total_length to from header message_type_encoded data_type_encoded payload in
    do
      guard (not (ltb max_message_size total))
          (encode_error encode_payload_too_large (codes "message"))
      ok (
          size_field total
          ++ concat (segments to from header message_type_encoded data_type_encoded payload))

abbrev pub data_type_of : Message → ℤ
data_type_of msg = elim msg.payload [ none ↦ pos 0 | some p ↦ p.data_type ]

-- `now` is what `get_timestamp()` returns. The conversation's id is not used.
unfoldable pub encode_message : Str → Option Message → Intent → Result EncodeFailure Bytes
encode_message now none intent = err (encode_error encode_message_nil [])
encode_message now (some msg) intent = do
  data_bytes ← payload_to_bytes msg intent.name
  guard (not (ltb max_message_size (length data_bytes)))
      (encode_error encode_payload_too_large (codes "PayloadData"))
  message_header ← or_raise (construct_header now msg intent) value_error
  check_address (codes "To") msg.to
  check_address (codes "From") msg.from
  assemble (force_ascii msg.to) (force_ascii msg.from) (force_ascii message_header)
      intent.message_type (data_type_of msg) data_bytes
