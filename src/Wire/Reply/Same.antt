-- ===== src/Wire/Reply/Same.antt =====
-- The records of a reply leave the envelope and the payload of its message alone.
use pod_os_py_client.Prelude.{
  Bool, true, false, List, Option, none, some, ok, >>=-eq-ok, ok-injective, ◌≡◌, refl, arith,
  if◌then◌else◌,
}
use pod_os_py_client.Prelude.Text.{Str}
use pod_os_py_client.Prelude.Dict.{Dict}
use pod_os_py_client.Message.Types.{
  Message, EventFields, Linked, TagOutput, ResponseFields, StoreBatchEventRecord, PyFloat,
}
use pod_os_py_client.Message.Header.Fields.{decode_header}
use pod_os_py_client.Wire.Decoder.{Frame}
use pod_os_py_client.Responses.Search.{
  parse_get_events_for_tags_payload, payload_text, with_brief_hits, read_found, read_found_text,
}
use pod_os_py_client.Responses.Search.Assembly.{records_of_lines}
use pod_os_py_client.Responses.Batches.{parse_store_batch_events_payload}
use pod_os_py_client.Responses.GetEvent.{parse_get_event_response}
use pod_os_py_client.Wire.Reply.{
  message_of, on_response, with_event_record, Carried, single, search, batch, links, nothing,
  with_batch_record, with_search, single_records, link_records, payload_records, records_if,
  records_of_reply, read_records,
}

-- The fields that the records of a reply leave alone.
abbrev pub SameEnvelope : Message → Message → Type 0
SameEnvelope a b =
    (a.to ≡ b.to)
    × (a.from ≡ b.from)
    × (a.intent ≡ b.intent)
    × (a.message_id ≡ b.message_id)
    × (a.client_name ≡ b.client_name)
    × (a.passcode ≡ b.passcode)
    × (a.user_name ≡ b.user_name)
    × (a.payload ≡ b.payload)

same : (a : Message) → SameEnvelope a a
same a = (refl, refl, refl, refl, refl, refl, refl, refl)

on_response-SameEnvelope :
    (change : ResponseFields → ResponseFields) (msg : Message)
    → SameEnvelope (on_response change msg) msg
unfolding on_response
on_response-SameEnvelope change msg = same msg

with_event_record-SameEnvelope :
    (tags : List TagOutput) (found : List Linked) (event : Option EventFields) (msg : Message)
    → SameEnvelope (with_event_record tags found event msg) msg
unfolding with_event_record on_response
with_event_record-SameEnvelope tags found none msg = same msg
with_event_record-SameEnvelope tags found (some event) msg = same msg

module _ (read_float : Str → Option PyFloat) where
  single_records-SameEnvelope :
      (m : Dict Str) (msg : Message) → SameEnvelope (single_records read_float m msg) msg
  single_records-SameEnvelope m msg = go (parse_get_event_response read_float msg m) refl
    where
      go :
          (o : Option (List TagOutput × List Linked))
          → parse_get_event_response read_float msg m ≡ o
          → SameEnvelope (single_records read_float m msg) msg
      go none e = unfold single_records in rw (e, single_records) (same msg)
      go (some (tags, found)) e =
          unfold single_records in
          rw (e, single_records) (with_event_record-SameEnvelope tags found msg.event msg)

  link_records-SameEnvelope : (msg : Message) → SameEnvelope (link_records read_float msg) msg
  unfolding link_records on_response
  link_records-SameEnvelope msg = ground arith

with_batch_record-SameEnvelope :
    (o : Option StoreBatchEventRecord) (msg : Message) → SameEnvelope (with_batch_record o msg) msg
unfolding on_response
with_batch_record-SameEnvelope none msg = same msg
with_batch_record-SameEnvelope (some r) msg = same msg

with_search-SameEnvelope :
    (msg : Message) (events : List EventFields) (done : Bool)
    → SameEnvelope (with_search (msg, events, done)) msg
unfolding on_response
with_search-SameEnvelope msg events true = same msg
with_search-SameEnvelope msg events false = same msg

with_brief_hits-SameEnvelope :
    (msg : Message) (rs : List Str) (o : Option ResponseFields)
    → SameEnvelope (with_brief_hits msg rs o).0 msg
with_brief_hits-SameEnvelope msg rs none = same msg
with_brief_hits-SameEnvelope msg rs (some r) = same msg

trans-SameEnvelope : (a b c : Message) → SameEnvelope a b → SameEnvelope b c → SameEnvelope a c
trans-SameEnvelope a b c h k = ground (arith, h, k)

module _ (read_float : Str → Option PyFloat) (msg : Message) where
  read_found-SameEnvelope :
      (rs : List Str) (brief : Bool) {found : Message × List EventFields × Bool}
      → read_found read_float msg rs brief ≡ ok found
      → SameEnvelope found.0 msg
  read_found-SameEnvelope rs true h =
      rw (← ok-injective h) (with_brief_hits-SameEnvelope msg rs msg.response)
  read_found-SameEnvelope rs false h =
      let (events, _, e) = >>=-eq-ok (records_of_lines read_float rs) _ h in
      rw (← ok-injective e) (same msg)

  read_found_text-SameEnvelope :
      (text : Option Str) {found : Message × List EventFields × Bool}
      → read_found_text read_float msg text ≡ ok found
      → SameEnvelope found.0 msg
  read_found_text-SameEnvelope none h = rw (← ok-injective h) (same msg)
  read_found_text-SameEnvelope (some payload) h = read_found-SameEnvelope _ _ h

  payload_records-SameEnvelope :
      (kind : Carried) {full : Message}
      → payload_records read_float kind msg ≡ ok full
      → SameEnvelope full msg
  unfolding payload_records parse_get_events_for_tags_payload
  payload_records-SameEnvelope single h = rw (← ok-injective h) (same msg)
  payload_records-SameEnvelope search h =
      let (found, read, e) = >>=-eq-ok (parse_get_events_for_tags_payload read_float msg) _ h in
      rw (← ok-injective e) (
        trans-SameEnvelope (with_search (found.0, found.1, found.2)) found.0 msg
          (with_search-SameEnvelope found.0 found.1 found.2)
          (read_found_text-SameEnvelope (payload_text msg) read))
  payload_records-SameEnvelope batch h =
      let (found, _, e) = >>=-eq-ok (parse_store_batch_events_payload msg) _ h in
      rw (← ok-injective e) (with_batch_record-SameEnvelope found msg)
  payload_records-SameEnvelope links h =
      rw (← ok-injective h) (link_records-SameEnvelope read_float msg)
  payload_records-SameEnvelope nothing h = rw (← ok-injective h) (same msg)

  octets-SameEnvelope :
      (octets : Bool) (m : Dict Str)
      → SameEnvelope (if octets then msg else single_records read_float m msg) msg
  octets-SameEnvelope true m = same msg
  octets-SameEnvelope false m = single_records-SameEnvelope read_float m msg

  records_if-SameEnvelope :
      (kind : Carried) (has_payload : Bool) (frame : Frame) (mime_type : Str) {full : Message}
      → records_if read_float kind has_payload frame mime_type msg ≡ ok full
      → SameEnvelope full msg
  records_if-SameEnvelope single b frame mime_type h =
      rw (← ok-injective h) (octets-SameEnvelope _ (decode_header frame.header))
  records_if-SameEnvelope nothing b frame mime_type h = rw (← ok-injective h) (same msg)
  records_if-SameEnvelope search true frame mime_type h = payload_records-SameEnvelope search h
  records_if-SameEnvelope search false frame mime_type h = rw (← ok-injective h) (same msg)
  records_if-SameEnvelope batch true frame mime_type h = payload_records-SameEnvelope batch h
  records_if-SameEnvelope batch false frame mime_type h = rw (← ok-injective h) (same msg)
  records_if-SameEnvelope links true frame mime_type h = payload_records-SameEnvelope links h
  records_if-SameEnvelope links false frame mime_type h = rw (← ok-injective h) (same msg)

module _ (read_float : Str → Option PyFloat) where
  pub records_of_reply-SameEnvelope :
      (is_reply : Bool) (frame : Frame) {full : Message}
      → records_of_reply read_float is_reply frame ≡ ok full
      → SameEnvelope full (message_of frame)
  unfolding read_records
  records_of_reply-SameEnvelope false frame h = rw (← ok-injective h) (same (message_of frame))
  records_of_reply-SameEnvelope true frame h = records_if-SameEnvelope read_float _ _ _ frame _ h
