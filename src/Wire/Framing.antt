-- ===== src/Wire/Framing.antt =====
-- The length that a frame of the encoder states.
use pod_os_py_client.Prelude.{
  ℕ, ◌+◌, ◌^◌, ◌<◌, not, List, ◌++◌, some, length, length-append, ◌≡◌, refl, sym, ap, ◌∙◌, [], ◌∷◌,
  arith, ltb, ok, guard, or_raise, >>=-eq-ok,
}
use pod_os_py_client.Prelude.Int.{ℤ, pos}
use pod_os_py_client.Prelude.Text.{Str, Bytes, concat, codes}
use pod_os_py_client.Errors.{value_error}
use pod_os_py_client.Intents.Constants.{Intent}
use pod_os_py_client.Message.Types.{Message}
use pod_os_py_client.Message.Header.{construct_header}
use pod_os_py_client.Message.Payload.{payload_to_bytes}
use pod_os_py_client.Wire.Integer.{size_field, type_field}
use pod_os_py_client.Wire.Integer.Laws.{length-size_field}
use pod_os_py_client.Wire.Encoder.{
  encode_message, check_address, segments, total_length, assemble, max_message_size,
}
use pod_os_py_client.Wire.RoundTrip.{assemble_ok}

-- A frame: a size field that states the length of the whole, and what it announces.
abbrev pub IsFrame : Bytes → Type 0
IsFrame wire =
    (body : Bytes) × (0 < length body)
    × (9 + length body < 16 ^ 8)
    × (wire ≡ size_field (9 + length body) ++ body)

abbrev lengths : List Bytes → ℕ
lengths [] = 0
lengths (s ∷ ss) = length s + lengths ss

length-concat : (ss : List Bytes) → length (concat ss) ≡ lengths ss
length-concat [] = refl
length-concat (s ∷ ss) = omega (arith, length-append s (concat ss), length-concat ss)

-- The length that is stated is the frame's, also when a type does not fit its field.
length-segments :
    (to from header mt dt : Str) (payload : Bytes)
    → length to < 16 ^ 8
    → length from < 16 ^ 8
    → length header < 16 ^ 8
    → length payload < 16 ^ 8
    → 9 + length (concat (segments to from header mt dt payload))
      ≡ total_length to from header mt dt payload
length-segments to from header mt dt payload a b c d = omega (
  arith,
  length-concat (segments to from header mt dt payload),
  length-size_field (length to) a,
  length-size_field (length from) b,
  length-size_field (length header) c,
  length-size_field (length payload) d,
)

assemble-IsFrame :
    (to from header : Str) (message_type : ℕ) (data_type : ℤ) (payload : Bytes) {wire : Bytes}
    → assemble to from header message_type data_type payload ≡ ok wire
    → IsFrame wire
assemble-IsFrame to from header message_type data_type payload h =
    let mt = type_field (pos message_type) in
    let dt = type_field data_type in
    let (small, shape) = assemble_ok to from header message_type data_type payload h in
    let total =
      length-segments to from header mt dt payload (omega arith) (omega arith) (omega arith)
        (omega arith) in
    (
      concat (segments to from header mt dt payload),
      omega (arith, total),
      omega (arith, total),
      shape ∙ ap (λ n. size_field n ++ concat (segments to from header mt dt payload)) (sym total),
    )

-- What the encoder returns for a message, whatever the message is, is a frame: it starts with a size
-- field that states its length, which is more than nine and less than 16 ^ 8.
pub encode_message-IsFrame :
    (now : Str) (msg : Message) (intent : Intent) {wire : Bytes}
    → encode_message now (some msg) intent ≡ ok wire
    → IsFrame wire
unfolding encode_message
encode_message-IsFrame now msg intent h =
    let (payload, _, h1) = >>=-eq-ok (payload_to_bytes msg intent.name) _ h in
    let (_, _, h2) = >>=-eq-ok (guard (not (ltb max_message_size (length payload))) _) _ h1 in
    let (header, _, h3) = >>=-eq-ok (or_raise (construct_header now msg intent) value_error) _ h2 in
    let (_, _, h4) = >>=-eq-ok (check_address (codes "To") msg.to) _ h3 in
    let (_, _, h5) = >>=-eq-ok (check_address (codes "From") msg.from) _ h4 in
    assemble-IsFrame _ _ _ _ _ _ h5
