-- ===== src/Wire/Envelope.antt =====
-- The envelope and payload part of `decode_message` of pod_os_client/message/decoder.py.
use pod_os_py_client.Prelude.{true, false, [], ◌∷◌, Option, none, some, length, Result, ok, ◌>>=◌}
use pod_os_py_client.Prelude.Int.{ℤ, pos}
use pod_os_py_client.Prelude.Text.{Str, Bytes, codes, or_else, str_eq}
use pod_os_py_client.Prelude.Dict.{Dict, lookup, or_empty}
use pod_os_py_client.Prelude.Utf8
use pod_os_py_client.Errors.{DecodeFailure}
use pod_os_py_client.Intents.{intent_from_message_type_and_command}
use pod_os_py_client.Intents.Constants.{Intent}
use pod_os_py_client.Message.Types.{Content, no_content, text_content, bytes_content, PayloadFields}
use pod_os_py_client.Message.Header.Fields.{decode_header}
use pod_os_py_client.Wire.Integer.{parse_int}
use pod_os_py_client.Wire.Decoder.{Frame, decode_frame}

-- `header_map.get(key) or ""`, and `header_map.get(key, "")`.
unfoldable pub header_value : Dict Str → Str → Str
header_value m key = or_empty (lookup key m)

unfoldable pub command_of : Dict Str → Str
command_of m =
    or_else (header_value m (codes "_db_cmd"))
      (or_else (header_value m (codes "_type")) (header_value m (codes "_command")))

-- Bytes that are no UTF-8 stay bytes, and so do those whose type says so.
unfoldable pub decode_content : Str → Bytes → Content
decode_content mime_type [] = no_content
decode_content mime_type (b ∷ bs) = elim (str_eq mime_type (codes "application/octet-stream")) [
  | true ↦ bytes_content (b ∷ bs)
  | false ↦ elim (Utf8.decode (b ∷ bs)) [
    | none ↦ bytes_content (b ∷ bs)
    | some text ↦ text_content text
  ]
]

unfoldable pub data_size_of : Dict Str → Bytes → ℤ
data_size_of m bytes = elim (lookup (codes "_datasize") m) [
  | none ↦ pos (length bytes)
  | some text ↦ elim (parse_int 10 text) [ none ↦ pos (length bytes) | some n ↦ n ]
]

unfoldable pub payload_of : Dict Str → Frame → PayloadFields
payload_of m frame =
    let mime_type = or_else (header_value m (codes "mime")) (header_value m (codes "_mimetype")) in
    record {
      content = decode_content mime_type frame.payload;
      data_type = frame.data_type;
      mime_type = mime_type;
      data_size = data_size_of m frame.payload;
    }

-- What the decoder sets of a message before the event and the response.
pub record Envelope : Type 0 where
  pub to : Str
  pub from : Str
  pub intent : Option Intent
  pub message_id : Str
  pub client_name : Str
  pub passcode : Str
  pub user_name : Str
  pub payload : PayloadFields

unfoldable pub envelope_of : Frame → Envelope
envelope_of frame =
    let m = decode_header frame.header in
    record {
      to = frame.to;
      from = frame.from;
      intent = intent_from_message_type_and_command frame.message_type (command_of m);
      message_id = header_value m (codes "_msg_id");
      client_name = header_value m (codes "id:name");
      passcode = header_value m (codes "id:passcode");
      user_name = header_value m (codes "id:user");
      payload = payload_of m frame;
    }

unfoldable pub decode_envelope : Bytes → Result DecodeFailure Envelope
decode_envelope wire = do frame ← decode_frame wire; ok (envelope_of frame)
