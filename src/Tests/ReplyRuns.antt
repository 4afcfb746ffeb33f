-- ===== src/Tests/ReplyRuns.antt =====
-- Messages that are decoded as a whole, and one that is not.
use pod_os_py_client.Prelude.{
  Result, ◌++◌, none, some, ok, err, ◌≡◌, refl, ap, ◌∙◌, arith, inl, inr,
}
use pod_os_py_client.Prelude.Text.{Bytes, codes, strip}
use pod_os_py_client.Intents.Constants.{actor_request}
use pod_os_py_client.Message.Types.{Message}
use pod_os_py_client.Message.Defaults.{empty_message}
use pod_os_py_client.Message.Header.Fields.{force_ascii, decode_header}
use pod_os_py_client.Responses.Line.{
  bad_number, records_of, lines_of, is_blank, strip_nul, parse_tab_delimited_line, read_pairs,
  read_pair,
}
use pod_os_py_client.Responses.Fields.{record_event, date_of_parts}
use pod_os_py_client.Responses.Search.Index.{index_lines, add_line, kind_of, parse_event_id_line}
use pod_os_py_client.Responses.Search.Assembly.{records_of_lines}
use pod_os_py_client.Responses.Search.Owners.{normalize_tag_owner_lines}
use pod_os_py_client.Wire.Event.{int_of}
use pod_os_py_client.Wire.Decoder.{
  Frame, sender, decode_frame, read_sizes, decode_size_param, size_value, decode_type_param,
  read_body,
}
use pod_os_py_client.Wire.Integer.{parse_int}
use pod_os_py_client.Prelude.Utf8.{decode, lead, run}
use pod_os_py_client.Wire.Envelope.{
  Envelope, decode_envelope, envelope_of, command_of, header_value, payload_of, decode_content,
}
use pod_os_py_client.Wire.Response.{has_response, occurs}
use pod_os_py_client.Intents.{intent_from_message_type_and_command}
use pod_os_py_client.Responses.Search.{
  parse_get_events_for_tags_payload, payload_text, is_brief_hits_response,
}
use pod_os_py_client.Prelude.Int.{pos, ◌+ℤ◌}
use pod_os_py_client.Wire.Reply.{
  DecodeException, record_failed, name_of, from_decoder, from_records, message_of,
  message_with_records, carried_by, read_records, payload_records, decode_message,
}
use pod_os_py_client.Wire.Reply.Laws.{Origin, decode_message-raises, decode_message-envelope}
use pod_os_py_client.Wire.Reply.Requests.{decode_message-encode_message}
use pod_os_py_client.Tests.ResponseRuns.{any_float, returned, returned-ok}
use pod_os_py_client.Tests.WireRuns.{
  ping, now, ping_layout, ping_wire, ping_layout-written, ping_payload, ping_sent,
  ping_layout-IsClean, ping_layout-IsAscii,
}

decode_message-encode_message_example :
    (decoded : Message) × (decode_message any_float ping_wire ≡ ok decoded)
    × (decoded.intent ≡ codes "ActorRequest")
    × (decoded.message_id ≡ strip ping.message_id)
    × (decoded.to ≡ force_ascii ping.to)
    × (decoded.from ≡ sender (force_ascii ping.from))
decode_message-encode_message_example =
    decode_message-encode_message any_float now ping actor_request none ping_layout
      (inr (inr (inr (inr (inr (inl refl)))))) ping_layout-written ping_layout-IsClean
      ping_layout-IsAscii (omega arith) ping_payload ping_sent

abbrev pub pong : Message
pong = returned empty_message (decode_message any_float ping_wire)

ping_read :
    (decoded : Message) × (decode_message any_float ping_wire ≡ ok decoded)
    × (decoded.message_id ≡ codes "7")
ping_read =
    let (decoded, e, _, id, _, _) =
      decode_message-encode_message any_float now ping actor_request none ping_layout
        (inr (inr (inr (inr (inr (inl refl)))))) ping_layout-written ping_layout-IsClean
        ping_layout-IsAscii (omega arith) ping_payload ping_sent in
    (decoded, e, id)

pub ping_decoded : decode_message any_float ping_wire ≡ ok pong
ping_decoded = returned-ok empty_message (decode_message any_float ping_wire) (rw ping_read.1 refl)

pub pong-id : pong.message_id ≡ codes "7"
pong-id =
    ap (λ (o : Result DecodeException Message). (returned empty_message o).message_id) ping_read.1
    ∙ ping_read.2

decode_message-envelope_example :
    (env : Envelope) × (decode_envelope ping_wire ≡ ok env)
    × (pong.to ≡ env.to)
    × (pong.from ≡ env.from)
    × (pong.intent ≡ name_of env.intent)
    × (pong.message_id ≡ env.message_id)
    × (pong.client_name ≡ env.client_name)
    × (pong.passcode ≡ env.passcode)
    × (pong.user_name ≡ env.user_name)
    × (pong.payload ≡ some env.payload)
decode_message-envelope_example = decode_message-envelope any_float ping_wire ping_decoded

-- The reply to a search, whose event has no number for a year.
abbrev bad_reply : Bytes
bad_reply =
    codes "x00000075x00000003x00000003x00000017"
    ++ (codes "000001001000000000x00000019a@gb@g_command=events_for_tag"
        ++ codes "_event_id=e1\tevent_year=x")

abbrev bad_frame : Frame
bad_frame = record {
  to = codes "a@g";
  from = codes "b@g";
  header = codes "_command=events_for_tag";
  message_type = pos 1001;
  data_type = pos 0;
  payload = codes "_event_id=e1\tevent_year=x";
}

bad_reply-read : decode_frame bad_reply ≡ ok bad_frame
unfolding decode_frame read_sizes decode_size_param size_value parse_int decode_type_param read_body
    decode lead run ◌+ℤ◌
bad_reply-read = refl

bad_frame-raises : message_with_records any_float bad_frame ≡ err bad_number
unfolding message_with_records has_response envelope_of intent_from_message_type_and_command
    command_of header_value decode_header name_of carried_by read_records payload_records
    parse_get_events_for_tags_payload payload_text message_of payload_of decode_content decode lead
    run is_brief_hits_response records_of lines_of normalize_tag_owner_lines occurs is_blank
    strip_nul records_of_lines index_lines add_line kind_of parse_event_id_line
    parse_tab_delimited_line read_pairs read_pair record_event date_of_parts int_of parse_int
bad_frame-raises = refl

bad_reply-raises : decode_message any_float bad_reply ≡ err (record_failed bad_number)
unfolding decode_message from_decoder from_records
bad_reply-raises = rw (bad_reply-read, bad_frame-raises) refl

decode_message-raises_example : Origin any_float bad_reply (record_failed bad_number)
decode_message-raises_example =
    decode_message-raises any_float bad_reply (record_failed bad_number) bad_reply-raises
