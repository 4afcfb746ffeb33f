-- ===== src/Wire/Reply.antt =====
-- `decode_message` of pod_os_client/message/decoder.py as a whole: the envelope, the event, the
-- response and its records. `float` is a parameter.
pub mod Same
pub mod Laws
pub mod Requests
use pod_os_py_client.Prelude.{
  Bool, true, false, List, [], ◌∷◌, Option, none, some, Result, err, ok, ◌>>=◌, if◌then◌else◌, ◌||◌,
  ◌&&◌, not,
}
use pod_os_py_client.Prelude.Text.{Str, Bytes, codes, str_eq, truthy}
use pod_os_py_client.Prelude.Dict.{Dict}
use pod_os_py_client.Errors.{DecodeFailure}
use pod_os_py_client.Intents.Constants.{Intent}
use pod_os_py_client.Message.Types.{
  Message, EventFields, Linked, TagOutput, ResponseFields, StoreBatchEventRecord,
  StoreLinkBatchEventRecord, PyFloat,
}
use pod_os_py_client.Message.Header.Fields.{decode_header}
use pod_os_py_client.Wire.Decoder.{Frame, decode_frame}
use pod_os_py_client.Wire.Envelope.{Envelope, envelope_of, command_of}
use pod_os_py_client.Wire.Event.{decode_event_fields}
use pod_os_py_client.Wire.Response.{response_of, has_response, finalize_store_batch_response}
use pod_os_py_client.Responses.Line.{RecordFailure}
use pod_os_py_client.Responses.Search.{parse_get_events_for_tags_payload}
use pod_os_py_client.Responses.GetEvent.{parse_get_event_response}
use pod_os_py_client.Responses.Batches.{
  parse_store_batch_events_payload, parse_link_event_batch_payload,
}

-- What `decode_message` raises: a DecodeError, or what the parsers of the records do not catch.
pub data DecodeException : Type 0 where
  decode_failed : DecodeFailure → DecodeException
  record_failed : RecordFailure → DecodeException

unfoldable pub from_decoder {ℓ} : {A : Type ℓ} → Result DecodeFailure A → Result DecodeException A
from_decoder (err e) = err (decode_failed e)
from_decoder (ok a) = ok a

unfoldable pub from_records {ℓ} : {A : Type ℓ} → Result RecordFailure A → Result DecodeException A
from_records (err e) = err (record_failed e)
from_records (ok a) = ok a

unfoldable pub name_of : Option Intent → Str
name_of none = []
name_of (some i) = i.name

-- The message without a response.
unfoldable pub message_of : Frame → Message
message_of frame =
    let env = envelope_of frame in
    record {
      to = env.to;
      from = env.from;
      intent = name_of env.intent;
      client_name = env.client_name;
      message_id = env.message_id;
      passcode = env.passcode;
      user_name = env.user_name;
      event = some (decode_event_fields (decode_header frame.header));
      payload = some env.payload;
      neural_memory = none;
      response = none;
    }

-- A change of the response that is there.
unfoldable pub on_response : (ResponseFields → ResponseFields) → Message → Message
on_response change msg = record msg {
  response = elim msg.response [ none ↦ none | some r ↦ some (change r) ];
}

-- The event of the message is the one of the records, so it has the tags and links too.
unfoldable pub with_event_record :
    List TagOutput → List Linked → Option EventFields → Message → Message
with_event_record tags links none msg = msg
with_event_record tags links (some event) msg =
    let full = record event { tags = tags; links = links } in
    record (on_response (λ r. record r { event_records = full ∷ [] }) msg) { event = some full }

-- The kinds of replies that carry records, by the name of the intent.
pub data Carried : Type 0 where
  single search batch links nothing : Carried

unfoldable pub carried_by : Str → Carried
carried_by name =
    if str_eq name (codes "GetEvent") || str_eq name (codes "GetEventResponse")
    then single
    else if str_eq name (codes "GetEventsForTags") || str_eq name (codes "GetEventsForTagsResponse")
    then search
    else if str_eq name (codes "StoreBatchEvents") || str_eq name (codes "StoreBatchEventsResponse")
    then batch
    else if str_eq name (codes "StoreBatchLinks") || str_eq name (codes "StoreBatchLinksResponse")
    then links
    else nothing

-- The record of a stored batch, and the counts that follow from it.
abbrev pub with_batch_record : Option StoreBatchEventRecord → Message → Message
with_batch_record none msg = msg
with_batch_record (some record_) msg =
    on_response
      (λ r.
        let (counted, kept) = finalize_store_batch_response r record_ in
        record counted { store_batch_event_record = some kept })
      msg

-- A search's records, where there are any.
abbrev pub with_search : Message × List EventFields × Bool → Message
with_search (msg, events, true) = on_response (λ r. record r { event_records = events }) msg
with_search (msg, events, false) = msg

module _ (read_float : Str → Option PyFloat) where
  -- A single event's tags are in the header, so an empty payload is read as well.
  unfoldable pub single_records : Dict Str → Message → Message
  single_records m msg = elim (parse_get_event_response read_float msg m) [
    | none ↦ msg
    | some (tags, found) ↦ with_event_record tags found msg.event msg
  ]

  unfoldable pub link_records : Message → Message
  link_records msg = elim (parse_link_event_batch_payload read_float msg) [
    | none ↦ msg
    | some r ↦ on_response (λ old. record old { store_link_batch_event_record = some r }) msg
  ]

  -- The records of a reply, by its kind, where there is a payload.
  unfoldable pub payload_records : Carried → Message → Result RecordFailure Message
  payload_records single msg = ok msg
  payload_records search msg =
      parse_get_events_for_tags_payload read_float msg >>= λ found. ok (with_search found)
  payload_records batch msg =
      parse_store_batch_events_payload msg >>= λ found. ok (with_batch_record found msg)
  payload_records links msg = ok (link_records msg)
  payload_records nothing msg = ok msg

  abbrev is_octets : Str → Bool
  is_octets mime_type = str_eq mime_type (codes "application/octet-stream")

  -- The records of a reply of a kind: of a single event, or of one with a payload.
  abbrev pub records_if : Carried → Bool → Frame → Str → Message → Result RecordFailure Message
  records_if single has_payload frame mime_type msg =
      ok (if is_octets mime_type then msg else single_records (decode_header frame.header) msg)
  records_if nothing has_payload frame mime_type msg = ok msg
  records_if kind true frame mime_type msg = payload_records kind msg
  records_if kind false frame mime_type msg = ok msg

  unfoldable pub read_records : Carried → Frame → Str → Message → Result RecordFailure Message
  read_records kind frame mime_type msg = records_if kind (truthy frame.payload) frame mime_type msg

  -- Only a response has records.
  abbrev pub records_of_reply : Bool → Frame → Result RecordFailure Message
  records_of_reply false frame = ok (message_of frame)
  records_of_reply true frame =
      let env = envelope_of frame in
      let m = decode_header frame.header in
      read_records (carried_by (name_of env.intent)) frame env.payload.mime_type
        (record (message_of frame) { response = some (response_of m (command_of m)) })

  unfoldable pub message_with_records : Frame → Result RecordFailure Message
  message_with_records frame =
      records_of_reply (has_response frame.message_type (envelope_of frame).intent) frame

  unfoldable pub decode_message : Bytes → Result DecodeException Message
  decode_message wire = do
    frame ← from_decoder (decode_frame wire)
    from_records (message_with_records frame)
