-- ===== src/Client/Sending/Laws.antt =====
-- Messages that are encoded and not sent.
use pod_os_py_client.Prelude.{true, List, [], ◌∷◌, Option, some, ok, err, ◌≡◌, refl, All, In}
use pod_os_py_client.Prelude.Text.{Str, Bytes, IsAscii}
use pod_os_py_client.Intents.Constants.{Intent}
use pod_os_py_client.Message.Types.{Message}
use pod_os_py_client.Message.Header.{header_layout}
use pod_os_py_client.Message.Header.Fields.{Layout, fields_of, render}
use pod_os_py_client.Message.Header.Reading.{IsClean}
use pod_os_py_client.Message.Payload.{payload_to_bytes}
use pod_os_py_client.Wire.Integer.Laws.{FitsTypeField}
use pod_os_py_client.Wire.Encoder.{encode_message, data_type_of}
use pod_os_py_client.Wire.Decoder.{sender}
use pod_os_py_client.Validation.{Violation, is_name_at_gateway}
use pod_os_py_client.Validation.Raw.Sent.{refused, validate_raw_message-refused}
use pod_os_py_client.Client.Sending.{wire_invalid, if_nothing_found, encode_and_validate}

something_found :
    (v : Violation) (vs : List Violation) (encoded : Bytes)
    → In v vs
    → if_nothing_found vs encoded ≡ err wire_invalid
something_found v [] encoded m = elim m [ ]
something_found v (w ∷ vs) encoded m = refl

module _ (now : Str) (msg : Message) (intent : Intent) (command : Option Str) (layout : Layout)
    {payload wire : Bytes} (written : header_layout now msg intent.name ≡ some layout)
    (clean : All IsClean (fields_of layout)) (ascii : IsAscii (render layout))
    (data_fits : FitsTypeField (data_type_of msg))
    (encoded : payload_to_bytes msg intent.name ≡ ok payload)
    (sent : encode_message now (some msg) intent ≡ ok wire) (to_ascii : IsAscii msg.to)
    (from_ascii : IsAscii msg.from) (named : is_name_at_gateway (sender msg.from) ≡ true) where
  -- While validation is enabled, a message that is encoded for StoreData, StatusRequest or
  -- GatewayDisconnect is not sent: the client raises an EncodeError for the frame that it has encoded,
  -- if the message has ASCII addresses and an ASCII header without separators in its fields, its data
  -- type fits its field and its sender names a gateway before the first bar.
  pub encode_and_validate-refused :
      (v : Violation)
      → In {A = (Intent × Option Str) × Violation} ((intent, command), v) refused
      → encode_and_validate true now msg intent ≡ err wire_invalid
  unfolding encode_and_validate
  encode_and_validate-refused v m = rw sent (
      something_found v _ wire (
        validate_raw_message-refused now msg intent command layout written clean ascii data_fits
          encoded sent to_ascii from_ascii named v m))
