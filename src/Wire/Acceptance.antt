-- ===== src/Wire/Acceptance.antt =====
-- The messages that the encoder accepts.
use pod_os_py_client.Prelude.{
  ℕ, ◌+◌, ◌^◌, ◌≤◌, ◌<◌, not, List, [], ◌∷◌, ◌++◌, some, length, ◌≡◌, ◌≢◌, refl, arith, ltb, le→ltb,
  Result, ok, guard, ◌>>=◌, ◌∙◌, ap,
}
use pod_os_py_client.Prelude.Int.{ℤ, pos}
use pod_os_py_client.Prelude.Text.{Str, Bytes, codes, split, push_char, split_part, Lacks, concat}
use pod_os_py_client.Errors.{EncodeFailure}
use pod_os_py_client.Intents.Constants.{Intent}
use pod_os_py_client.Message.Types.{Message}
use pod_os_py_client.Message.Header.{construct_header}
use pod_os_py_client.Message.Header.Fields.{force_ascii}
use pod_os_py_client.Message.Payload.{payload_to_bytes}
use pod_os_py_client.Wire.Integer.{size_field, type_field}
use pod_os_py_client.Wire.Integer.Laws.{FitsTypeField, length-type_field}
use pod_os_py_client.Wire.Encoder.{
  encode_message, check_address, data_type_of, segments, total_length, assemble, max_message_size,
}

-- A name, and a gateway behind the `@` that does not start with another.
abbrev pub IsAddress : Str → Type 0
IsAddress s =
    (c : ℕ) × (name : Str) × (d : ℕ) × (gateway : Str) × Lacks b'@' (c ∷ name)
    × (d ≢ b'@')
    × (s ≡ (c ∷ name) ++ (b'@' ∷ (d ∷ gateway)))

gateway_accepted :
    (field s name : Str) (d c : ℕ) (parts : List Str)
    → split b'@' s ≡ (c ∷ name) ∷ push_char d parts
    → check_address field s ≡ ok tt
unfolding check_address
gateway_accepted field s name d c [] h = rw (h, check_address) refl
gateway_accepted field s name d c (p ∷ ps) h = rw (h, check_address) refl

push_first : (d : ℕ) (s : Str) → d ≢ b'@' → split b'@' (d ∷ s) ≡ push_char d (split b'@' s)
push_first d s h = ground arith

pub IsAddress-accepted : (field s : Str) → IsAddress s → check_address field s ≡ ok tt
IsAddress-accepted field s (c, name, d, gateway, lacks, other, shape) =
    gateway_accepted field s name d c (split b'@' gateway) (
      ap (split b'@') shape
      ∙ split_part b'@' (c ∷ name) (d ∷ gateway) lacks
      ∙ ap (◌∷◌ (c ∷ name)) (push_first d gateway other))

assemble_accepted :
    (to from header : Str) (message_type : ℕ) (data_type : ℤ) (payload : Bytes)
    → total_length to from header (type_field (pos message_type)) (type_field data_type) payload
      ≤ max_message_size
    → (wire : Bytes) × (assemble to from header message_type data_type payload ≡ ok wire)
unfolding assemble
assemble_accepted to from header message_type data_type payload h =
    let mt = type_field (pos message_type) in
    let dt = type_field data_type in
    let total = total_length to from header mt dt payload in
    (
      size_field total ++ concat (segments to from header mt dt payload),
      rw (le→ltb max_message_size total h) refl,
    )

within_limit :
    (n : ℕ) (e : EncodeFailure) (k : Result EncodeFailure Bytes)
    → n ≤ max_message_size
    → (guard (not (ltb max_message_size n)) e >>= λ _. k) ≡ k
within_limit n e k h = rw (le→ltb max_message_size n h) refl

encode_lem :
    (now : Str) (msg : Message) (intent : Intent) {header : Str} {payload : Bytes}
    → construct_header now msg intent ≡ some header
    → payload_to_bytes msg intent.name ≡ ok payload
    → check_address (codes "To") msg.to ≡ ok tt
    → check_address (codes "From") msg.from ≡ ok tt
    → length payload ≤ max_message_size
    → encode_message now (some msg) intent
      ≡ assemble
          (force_ascii msg.to)
          (force_ascii msg.from)
          (force_ascii header)
          intent.message_type
          (data_type_of msg)
          payload
unfolding encode_message
encode_lem now msg intent written encoded to_ok from_ok small =
    rw (encoded, written, to_ok, from_ok) (within_limit _ _ _ small)

-- A message is encoded if its header and its payload can be written, its addresses have a name and a
-- gateway, its types fit their fields, and the frame, of 63 bytes and the ASCII part of the addresses
-- and the header and the payload, is no larger than the limit.
pub encode_message-accepts :
    (now : Str) (msg : Message) (intent : Intent) {header : Str} {payload : Bytes}
    → construct_header now msg intent ≡ some header
    → payload_to_bytes msg intent.name ≡ ok payload
    → IsAddress msg.to
    → IsAddress msg.from
    → intent.message_type < 10 ^ 9
    → FitsTypeField (data_type_of msg)
    → 63
        + length (force_ascii msg.to)
        + length (force_ascii msg.from)
        + length (force_ascii header)
        + length payload
      ≤ max_message_size
    → (wire : Bytes) × (encode_message now (some msg) intent ≡ ok wire)
encode_message-accepts now msg intent {header} {payload} written encoded to_ok from_ok type_fits
      data_fits small =
    let mt = length-type_field (pos intent.message_type) type_fits in
    let dt = length-type_field (data_type_of msg) data_fits in
    let (wire, made) =
      assemble_accepted (force_ascii msg.to) (force_ascii msg.from) (force_ascii header)
        intent.message_type (data_type_of msg) payload (omega (arith, mt, dt, small)) in
    let reached =
      encode_lem now msg intent written encoded (IsAddress-accepted _ msg.to to_ok)
        (IsAddress-accepted _ msg.from from_ok) (omega (arith, small)) in
    (wire, reached ∙ made)
