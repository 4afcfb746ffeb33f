-- ===== src/Validation/Raw.antt =====
-- `validate_raw_message` of pod_os_client/message/validate.py: the frame, and then its header.
pub mod Laws
pub mod Sent
use pod_os_py_client.Prelude.{
  ℕ, suc, String, Bool, true, false, not, List, [], ◌∷◌, ◌++◌, map, Option, none, some, Result, err,
  ok, ◌>>=◌, ◌>>◌, or_raise, guard, if◌then◌else◌, ltb, ◌==◌, any, keep, length, take, ◌||◌,
}
use pod_os_py_client.Prelude.Int.{ℤ, pos, negsuc, ◌+ℤ◌, ltb_ℤ}
use pod_os_py_client.Prelude.Text.{Str, Bytes, codes, strip, rstrip_by, slice, truthy}
use pod_os_py_client.Prelude.Utf8.Lenient.{decode_replacing}
use pod_os_py_client.Intents.Constants.{
  Intent, store_event, store_batch_events, store_batch_tags, get_event, get_events_for_tags,
  link_event, unlink_event, store_batch_links, store_event_response, store_batch_events_response,
  store_batch_tags_response, get_event_response, get_events_for_tags_response, link_event_response,
  unlink_event_response, store_batch_links_response, gateway_id, gateway_disconnect,
  gateway_stream_on, gateway_stream_off, gateway_batch_start, gateway_batch_end, gateway_send_next,
  gateway_no_send, actor_echo, actor_halt, actor_start, actor_request, actor_response, actor_report,
  actor_record, actor_user, status, keepalive, route_any_message, route_user_only_message,
  queue_next_request, queue_all_request, queue_count_request, queue_empty, report_request,
  information_report, auth_add_user, auth_update_user, auth_user_list, auth_disable_user,
}
use pod_os_py_client.Message.Header.Fields.{decode_header}
use pod_os_py_client.Wire.Integer.{parse_int}
use pod_os_py_client.Wire.Encoder.{max_message_size}
use pod_os_py_client.Wire.Decoder.{decode_ascii, sender}
use pod_os_py_client.Validation.{Violation, violates, nil_struct, format, address_violations}
use pod_os_py_client.Validation.Header.{validate_wire_header}

-- The text of a field: hexadecimal behind an `x`, or decimal. Unlike for the decoder no text is no number.
unfoldable pub raw_number : Str → Option ℤ
raw_number [] = parse_int 10 []
raw_number (c ∷ s) = if c == b'x' then parse_int 16 s else parse_int 10 (c ∷ s)

unfoldable pub raw_field : Bytes → Option ℤ
raw_field bytes = elim (decode_ascii (rstrip_by (λ c. c == 0) bytes)) [
  | none ↦ none
  | some text ↦ raw_number (strip text)
]

pub record RawSizes : Type 0 where
  pub to_length : ℤ
  pub from_length : ℤ
  pub header_length : ℤ
  pub message_type : ℤ
  pub payload_data_length : ℤ

-- The seven fields: the first that is no number is reported, and ends the check.
unfoldable pub raw_sizes : Bytes → Result (List Violation) RawSizes
raw_sizes raw =
    let bad = violates "" format in
    do
      _ ← or_raise (raw_field (slice raw (pos 0) (pos 9))) bad
      to_length ← or_raise (raw_field (slice raw (pos 9) (pos 18))) bad
      from_length ← or_raise (raw_field (slice raw (pos 18) (pos 27))) bad
      header_length ← or_raise (raw_field (slice raw (pos 27) (pos 36))) bad
      message_type ← or_raise (raw_field (slice raw (pos 36) (pos 45))) bad
      _ ← or_raise (raw_field (slice raw (pos 45) (pos 54))) bad
      payload_data_length ← or_raise (raw_field (slice raw (pos 54) (pos 63))) bad
      ok (record {
        to_length = to_length;
        from_length = from_length;
        header_length = header_length;
        message_type = message_type;
        payload_data_length = payload_data_length;
      })

-- `_build_known_message_types`, without 0.
unfoldable pub known_message_types : List ℕ
known_message_types =
    keep (λ n. ltb 0 n)
      (map Intent.message_type (
        store_event ∷ store_batch_events ∷ store_batch_tags ∷ get_event ∷ get_events_for_tags
        ∷ link_event ∷ unlink_event ∷ store_batch_links ∷ store_event_response
        ∷ store_batch_events_response ∷ store_batch_tags_response ∷ get_event_response
        ∷ get_events_for_tags_response ∷ link_event_response ∷ unlink_event_response
        ∷ store_batch_links_response ∷ gateway_id ∷ gateway_disconnect ∷ gateway_stream_on
        ∷ gateway_stream_off ∷ gateway_batch_start ∷ gateway_batch_end ∷ gateway_send_next
        ∷ gateway_no_send ∷ actor_echo ∷ actor_halt ∷ actor_start ∷ actor_request ∷ actor_response
        ∷ actor_report ∷ actor_record ∷ actor_user ∷ status ∷ keepalive ∷ route_any_message
        ∷ route_user_only_message ∷ queue_next_request ∷ queue_all_request ∷ queue_count_request
        ∷ queue_empty ∷ report_request ∷ information_report ∷ auth_add_user ∷ auth_update_user
        ∷ auth_user_list ∷ auth_disable_user ∷ []))

-- `_is_known_message_type`.
unfoldable pub is_known_type : ℤ → Bool
is_known_type (pos n) = any (λ k. k == n) known_message_types
is_known_type (negsuc n) = false

-- What is checked of a header, where its type is known.
unfoldable pub raw_header : ℤ → Str → ℤ → List Violation
raw_header message_type header payload_length =
    if is_known_type message_type
    then validate_wire_header message_type (decode_header header) payload_length
    else violates "messageType" format

-- The addresses, and the header if nothing is wrong with them.
abbrev pub raw_texts : List Violation → List Violation → List Violation
raw_texts [] behind = behind
raw_texts (e ∷ es) behind = e ∷ es

-- The variable fields: each must end within the message. The payload's end is not tested.
unfoldable pub raw_body : Bytes → RawSizes → List Violation
raw_body raw n =
    let to_end = pos 63 +ℤ n.to_length in
    let from_end = to_end +ℤ n.from_length in
    let header_end = from_end +ℤ n.header_length in
    let have = pos (length raw) in
    if ltb_ℤ have to_end
    then violates "to" format
    else if ltb_ℤ have from_end
    then violates "from" format
    else if ltb_ℤ have header_end
    then violates "header" format
    else raw_texts
        (address_violations "to" (decode_replacing (slice raw (pos 63) to_end))
          ++ address_violations "from" (sender (decode_replacing (slice raw to_end from_end))))
        (raw_header n.message_type (decode_replacing (slice raw from_end header_end))
          n.payload_data_length)

abbrev pub raw_message : Result (List Violation) RawSizes → Bytes → List Violation
raw_message (err found) raw = found
raw_message (ok n) raw = raw_body raw n

-- The first argument is whether validation is enabled.
unfoldable pub validate_raw_message : Bool → Option Bytes → List Violation
validate_raw_message false raw = []
validate_raw_message true none = violates "" nil_struct
validate_raw_message true (some raw) =
    if ltb (length raw) 63 || ltb max_message_size (length raw)
    then violates "" format
    else raw_message (raw_sizes raw) raw
