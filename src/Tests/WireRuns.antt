-- ===== src/Tests/WireRuns.antt =====
-- Concrete messages, their headers and their frames.
use pod_os_py_client.Prelude.{
  ◌+◌, ◌≤◌, length, ◌++◌, [], ◌∷◌, some, none, ok, ◌≡◌, refl, arith, inl, inr, All,
}
use pod_os_py_client.Prelude.Int.{pos}
use pod_os_py_client.Prelude.Text.{Str, Bytes, codes, strip, IsAscii}
use pod_os_py_client.Prelude.Utf8.{encode}
use pod_os_py_client.Prelude.Dict.{lookup, lookup-In, or_empty}
use pod_os_py_client.Intents.{all_intents}
use pod_os_py_client.Intents.Constants.{get_event, actor_request}
use pod_os_py_client.Intents.Laws.{Resolves, intent-Resolves}
use pod_os_py_client.Message.Types.{Message, text_content, bytes_content}
use pod_os_py_client.Message.Defaults.{empty_message, empty_payload}
use pod_os_py_client.Message.Payload.{payload_to_bytes}
use pod_os_py_client.Message.Header.{header_layout, construct_header}
use pod_os_py_client.Message.Header.Gateway.{actor_request_header}
use pod_os_py_client.Message.Header.Fields.{
  field, field_if, field_when, Layout, joined, trailing, fields_of, render, decode_header,
  force_ascii,
}
use pod_os_py_client.Message.Header.Reading.{IsClean, apply_fields, decode_header-render}
use pod_os_py_client.Message.Header.Keys.{message_id_key, command_key}
use pod_os_py_client.Message.Header.Carried.{header_names, Carries}
use pod_os_py_client.Message.Header.Routing.{header_layout-Carries, decode_header-construct_header}
use pod_os_py_client.Validation.{validate_envelope}
use pod_os_py_client.Validation.Address.{validate_envelope-check_address}
use pod_os_py_client.Wire.Integer.{type_field, size_field}
use pod_os_py_client.Wire.Acceptance.{IsAddress, encode_message-accepts}
use pod_os_py_client.Wire.Encoder.{max_message_size, encode_message, check_address, assemble}
use pod_os_py_client.Wire.Decoder.{decode_frame, sender}
use pod_os_py_client.Wire.Framing.{IsFrame, encode_message-IsFrame}
use pod_os_py_client.Wire.RoundTrip.{decode_frame-encode_message}
use pod_os_py_client.Wire.Envelope.{Envelope, decode_envelope, decode_content}
use pod_os_py_client.Wire.EndToEnd.{decode_envelope-encode_message, decode_content-encode}

intent-Resolves_example : Resolves get_event
unfolding all_intents
intent-Resolves_example = intent-Resolves get_event (inr (inr (inr (inr (inl refl)))))

-- Two fields with one key, in a header whose parts end in a tab.
abbrev twice : Layout
twice = trailing ((codes "id", codes " a ") ∷ (codes "id", codes "b") ∷ [])

decode_header-render_example :
    decode_header (render twice)
    ≡ apply_fields [] ((codes "id", codes " a ") ∷ (codes "id", codes "b") ∷ [])
decode_header-render_example = decode_header-render twice (ground arith)

-- A message of the gateway with a text, and one that looks an event up.
abbrev pub ping : Message
ping = record empty_message {
  to = codes "a@gate";
  from = codes "b@gate";
  message_id = codes " 7 ";
  payload = some (record empty_payload { content = bytes_content (codes "hi"); data_type = pos 3 });
}

abbrev pub now : Str
now = codes "1"

abbrev pub ping_layout : Layout
ping_layout = joined ((codes "_type", codes "status") ∷ (codes "_msg_id", codes " 7 ") ∷ [])

pub ping_layout-written : header_layout now ping actor_request.name ≡ some ping_layout
unfolding header_layout actor_request_header field field_if field_when
ping_layout-written = refl

pub ping_header-written : construct_header now ping actor_request ≡ some (render ping_layout)
unfolding construct_header header_layout actor_request_header field field_if field_when
ping_header-written = refl

pub ping_payload : payload_to_bytes ping actor_request.name ≡ ok (codes "hi")
unfolding payload_to_bytes
ping_payload = refl

abbrev pub ping_wire : Bytes
ping_wire =
    codes "x00000065x00000006x00000006x000000180000000040"
    ++ codes "00000003x00000002a@gateb@gate_type=status"
    ++ (9 ∷ codes "_msg_id= 7 hi")

pub ping_sent : encode_message now (some ping) actor_request ≡ ok ping_wire
unfolding encode_message construct_header header_layout actor_request_header field field_if
    field_when payload_to_bytes render check_address assemble force_ascii type_field size_field
ping_sent = refl

decode_frame-encode_message_example :
    decode_frame ping_wire
    ≡ ok (record {
      to = force_ascii ping.to;
      from = sender (force_ascii ping.from);
      header = force_ascii (render ping_layout);
      message_type = pos 4;
      data_type = pos 3;
      payload = codes "hi";
    })
decode_frame-encode_message_example =
    decode_frame-encode_message now ping actor_request ping_header-written ping_payload ping_sent
      (omega arith) (omega arith)

encode_message-IsFrame_example : IsFrame ping_wire
encode_message-IsFrame_example = encode_message-IsFrame now ping actor_request ping_sent

header_layout-Carries_example : Carries ping none (header_layout now ping (codes "ActorRequest"))
header_layout-Carries_example =
    header_layout-Carries now ping (codes "ActorRequest") none
      (lookup-In (codes "ActorRequest") header_names refl)

pub ping_layout-IsClean : All IsClean (fields_of ping_layout)
ping_layout-IsClean = ground arith

decode_header-construct_header_example :
    (construct_header now ping actor_request ≡ some (render ping_layout))
    × (or_empty (lookup message_id_key (decode_header (render ping_layout)))
        ≡ strip ping.message_id)
    × (lookup command_key (decode_header (render ping_layout)) ≡ none)
decode_header-construct_header_example =
    decode_header-construct_header now ping actor_request none ping_layout
      (lookup-In (codes "ActorRequest") header_names refl) ping_layout-written ping_layout-IsClean

pub ping_layout-IsAscii : IsAscii (render ping_layout)
unfolding render
ping_layout-IsAscii = ground arith

decode_envelope-encode_message_example :
    (env : Envelope) × (decode_envelope ping_wire ≡ ok env)
    × (env.intent ≡ some actor_request)
    × (env.message_id ≡ strip ping.message_id)
    × (env.to ≡ force_ascii ping.to)
    × (env.from ≡ sender (force_ascii ping.from))
    × (env.payload.data_type ≡ pos 3)
decode_envelope-encode_message_example =
    decode_envelope-encode_message now ping actor_request none ping_layout
      (inr (inr (inr (inr (inr (inl refl)))))) ping_layout-written ping_layout-IsClean
      ping_layout-IsAscii (omega arith) ping_payload ping_sent

decode_content-encode_example :
    decode_content (codes "text/plain") (codes "hi") ≡ text_content (codes "hi")
unfolding encode
decode_content-encode_example =
    decode_content-encode (codes "text/plain") b'h' (codes "i") refl (omega arith) refl

-- The same message with its intent and its sender's name.
abbrev named_ping : Message
named_ping = record ping { intent = codes "ActorRequest"; client_name = codes "b" }

validate_envelope-check_address_example :
    (validate_envelope named_ping ≡ []
      → (check_address (codes "To") named_ping.to ≡ ok tt)
        × (check_address (codes "From") named_ping.from ≡ ok tt))
    × ((check_address (codes "To") named_ping.to ≡ ok tt)
        → (check_address (codes "From") named_ping.from ≡ ok tt)
        → validate_envelope named_ping ≡ [])
validate_envelope-check_address_example =
    validate_envelope-check_address named_ping refl refl (omega arith) (omega arith)

to-IsAddress : IsAddress ping.to
to-IsAddress = (b'a', [], b'g', codes "ate", ground arith, ground arith, refl)

from-IsAddress : IsAddress ping.from
from-IsAddress = (b'b', [], b'g', codes "ate", ground arith, ground arith, refl)

ping_small :
    63
      + length (force_ascii ping.to)
      + length (force_ascii ping.from)
      + length (force_ascii (render ping_layout))
      + length (codes "hi")
    ≤ max_message_size
unfolding force_ascii render
ping_small = omega arith

encode_message-accepts_example :
    (wire : Bytes) × (encode_message now (some ping) actor_request ≡ ok wire)
encode_message-accepts_example =
    encode_message-accepts now ping actor_request ping_header-written ping_payload to-IsAddress
      from-IsAddress (omega arith) (omega arith) ping_small
