-- ===== src/Validation/Raw/Sent.antt =====
-- What the check of raw messages reports of the messages that the encoder writes.
use pod_os_py_client.Prelude.{
  ℕ, zero, suc, ◌^◌, ◌<◌, true, List, [], ◌∷◌, Option, none, some, ok, length, ◌≡◌, refl, ap, ◌∙◌,
  All, All-In, In, inl, inr,
}
use pod_os_py_client.Prelude.Int.{pos}
use pod_os_py_client.Prelude.Text.{Str, Bytes, codes, IsAscii}
use pod_os_py_client.Prelude.Dict.{lookup}
use pod_os_py_client.Intents.Constants.{Intent, store_data, status_request, gateway_disconnect}
use pod_os_py_client.Message.Types.{Message}
use pod_os_py_client.Message.Header.{header_layout}
use pod_os_py_client.Message.Header.Fields.{Layout, fields_of, render, decode_header}
use pod_os_py_client.Message.Header.Reading.{IsClean}
use pod_os_py_client.Message.Header.Keys.{command_key}
use pod_os_py_client.Message.Payload.{payload_to_bytes}
use pod_os_py_client.Wire.Integer.Laws.{FitsTypeField}
use pod_os_py_client.Wire.Encoder.{encode_message, data_type_of}
use pod_os_py_client.Wire.Decoder.{sender}
use pod_os_py_client.Wire.EndToEnd.{sendable, sendable-fits, header_read, keep_ascii}
use pod_os_py_client.Validation.{
  Violation, error, format, is_name_at_gateway, header_value as bad_value,
}
use pod_os_py_client.Validation.Header.Laws.{store_data-refused, not_covered, disconnect-uncovered}
use pod_os_py_client.Validation.Raw.{
  is_known_type, known_message_types, raw_header, validate_raw_message,
}
use pod_os_py_client.Validation.Raw.Laws.{validate_raw_message-encode_message}

-- The element at an index is among the elements.
abbrev element : {A : Type 0} → List A → ℕ → Option A
element [] i = none
element (x ∷ xs) zero = some x
element (x ∷ xs) (suc i) = element xs i

element-In : {A : Type 0} (xs : List A) (i : ℕ) {a : A} → element xs i ≡ some a → In a xs
element-In [] i h = cc
element-In (x ∷ xs) zero h = inl (cc)
element-In (x ∷ xs) (suc i) h = inr (element-In xs i h)

-- The intents of which the check always reports something, with what it reports.
abbrev pub refused : List ((Intent × Option Str) × Violation)
refused =
    (
      (store_data, some (codes "store_data")),
      record { severity = error; wire_field = command_key; rule = bad_value },
    )
    ∷ (
      (status_request, none),
      record { severity = error; wire_field = codes "messageType"; rule = format },
    )
    ∷ ((gateway_disconnect, none), not_covered)
    ∷ []

abbrev Refused : (Intent × Option Str) × Violation → Type 0
Refused ((intent, command), v) =
    (header : Str) (n : ℕ)
    → lookup command_key (decode_header header) ≡ command
    → In v (raw_header (pos intent.message_type) header (pos n))

refused-sendable : All (λ (e : (Intent × Option Str) × Violation). In e.0 sendable) refused
refused-sendable =
    (element-In sendable 10 refl, (element-In sendable 8 refl, (element-In sendable 2 refl, tt)))

refused-Refused : All Refused refused
unfolding raw_header is_known_type known_message_types
refused-Refused = (
  λ header n e. store_data-refused (decode_header header) (pos n) e,
  (
    (λ header n e. inl refl),
    ((λ header n e. disconnect-uncovered (decode_header header) (pos n)), tt),
  ),
)

module _ (now : Str) (msg : Message) (intent : Intent) (command : Option Str) (layout : Layout)
    {payload wire : Bytes} (written : header_layout now msg intent.name ≡ some layout)
    (clean : All IsClean (fields_of layout)) (ascii : IsAscii (render layout))
    (data_fits : FitsTypeField (data_type_of msg))
    (encoded : payload_to_bytes msg intent.name ≡ ok payload)
    (sent : encode_message now (some msg) intent ≡ ok wire) (to_ascii : IsAscii msg.to)
    (from_ascii : IsAscii msg.from) (named : is_name_at_gateway (sender msg.from) ≡ true) where
  as_written :
      (sends : In {A = Intent × Option Str} (intent, command) sendable)
      → (validate_raw_message true (some wire)
          ≡ raw_header (pos intent.message_type) (render layout) (pos (length payload)))
        × (lookup command_key (decode_header (render layout)) ≡ command)
  as_written sends =
      let (constructed, _, found) =
        header_read now msg intent command layout sends written clean ascii data_fits encoded
          sent in
      (
        validate_raw_message-encode_message now msg intent constructed encoded sent
              (All-In (λ (e : Intent × Option Str). e.0.message_type < 10 ^ 9) sendable
                (intent, command) sendable-fits sends)
              data_fits to_ascii from_ascii named
            ∙ ap (λ h. raw_header (pos intent.message_type) h (pos (length payload)))
                (keep_ascii (render layout) ascii),
        found,
      )

  -- Of a message with ASCII addresses and an ASCII header without separators in its fields, whose data
  -- type fits its field and whose sender names a gateway before the first bar, the raw check reports an
  -- error if it is encoded for StoreData, of its command, or for StatusRequest, of its message type,
  -- and for GatewayDisconnect the warning that the type is not covered.
  pub validate_raw_message-refused :
      (v : Violation)
      → In {A = (Intent × Option Str) × Violation} ((intent, command), v) refused
      → In v (validate_raw_message true (some wire))
  validate_raw_message-refused v m =
      let sends =
        All-In (λ (e : (Intent × Option Str) × Violation). In e.0 sendable) refused
          ((intent, command), v) refused-sendable m in
      let (checked, found) = as_written sends in
      rw checked (
        All-In Refused refused ((intent, command), v) refused-Refused m (render layout)
          (length payload) found)
