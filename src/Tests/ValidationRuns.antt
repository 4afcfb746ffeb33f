-- ===== src/Tests/ValidationRuns.antt =====
-- Concrete frames under the check of raw messages.
use pod_os_py_client.Prelude.{
  true, [], ◌∷◌, ◌++◌, none, some, ok, err, ◌≡◌, refl, arith, inl, inr, All,
}
use pod_os_py_client.Prelude.Text.{Bytes, codes, IsAscii}
use pod_os_py_client.Intents.Constants.{status_request}
use pod_os_py_client.Message.Header.{header_layout, construct_header}
use pod_os_py_client.Message.Header.Gateway.{status_request_header}
use pod_os_py_client.Message.Header.Fields.{
  field, field_if, field_when, Layout, fields_of, joined, render, force_ascii,
}
use pod_os_py_client.Message.Header.Reading.{IsClean}
use pod_os_py_client.Message.Payload.{payload_to_bytes}
use pod_os_py_client.Wire.Encoder.{encode_message, check_address, assemble}
use pod_os_py_client.Wire.Decoder.{sender}
use pod_os_py_client.Wire.Integer.{type_field, size_field}
use pod_os_py_client.Validation.{Violation, find, is_name_at_gateway, error, format}
use pod_os_py_client.Client.Sending.{wire_invalid, encode_and_validate}
use pod_os_py_client.Client.Sending.Laws.{encode_and_validate-refused}
use pod_os_py_client.Tests.WireRuns.{ping, now}

from-named : is_name_at_gateway (sender ping.from) ≡ true
unfolding is_name_at_gateway find
from-named = refl

-- An echo and a request for the status, with the same addresses and payload.
abbrev id_layout : Layout
id_layout = joined ((codes "_msg_id", codes " 7 ") ∷ [])

id_layout-IsClean : All IsClean (fields_of id_layout)
id_layout-IsClean = ground arith

id_layout-IsAscii : IsAscii (render id_layout)
unfolding render
id_layout-IsAscii = ground arith

abbrev echo_wire : Bytes
echo_wire =
    codes "x00000058x00000006x00000006x0000000b0000000020"
    ++ codes "00000003x00000002a@gateb@gate_msg_id= 7 hi"

status_layout-written : header_layout now ping status_request.name ≡ some id_layout
unfolding header_layout status_request_header field_if field_when field
status_layout-written = refl

status_payload : payload_to_bytes ping status_request.name ≡ ok (codes "hi")
unfolding payload_to_bytes
status_payload = refl

abbrev status_wire : Bytes
status_wire =
    codes "x00000058x00000006x00000006x0000000b0000001100"
    ++ codes "00000003x00000002a@gateb@gate_msg_id= 7 hi"

status_sent : encode_message now (some ping) status_request ≡ ok status_wire
unfolding encode_message construct_header header_layout status_request_header field field_if
    field_when payload_to_bytes render check_address assemble force_ascii type_field size_field
status_sent = refl

abbrev unknown_type : Violation
unknown_type = record { severity = error; wire_field = codes "messageType"; rule = format }

encode_and_validate-refused_example :
    encode_and_validate true now ping status_request ≡ err wire_invalid
encode_and_validate-refused_example =
    encode_and_validate-refused now ping status_request none id_layout status_layout-written
      id_layout-IsClean id_layout-IsAscii (omega arith) status_payload status_sent (ground arith)
      (ground arith) from-named unknown_type (inr (inl refl))
