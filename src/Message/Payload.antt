-- ===== src/Message/Payload.antt =====
-- The payload of a message as bytes: the batch formats and `_payload_to_bytes` of
-- pod_os_client/message/encoder.py.
use pod_os_py_client.Prelude.{
  ℕ, ◌+◌, String, List, [], ◌∷◌, ◌++◌, map, Option, none, some, if◌then◌else◌, ◌||◌, enumerate,
  flat_map, Result, ok, err, or_raise,
}
use pod_os_py_client.Prelude.Text.{Str, Bytes, codes, truthy, or_else, join, concat, str_eq}
use pod_os_py_client.Prelude.Utf8
use pod_os_py_client.Wire.Integer.{digits}
use pod_os_py_client.Errors.{
  EncodeFailure, encode_error, unicode_encode_error, encode_batch_payload_failed,
}
use pod_os_py_client.Message.Types.{
  Tag, EventFields, PyFloat, BatchEventSpec, BatchLinkEventSpec, Item, event_item, link_item,
  tag_item, text_item, Content, no_content, text_content, bytes_content, list_content,
  other_content, Message,
}
use pod_os_py_client.Message.Values.{serialize_tag_value}
use pod_os_py_client.Message.Header.Fields.{Fields, field, field_if, part, str_int, tab}

abbrev newline : ℕ
newline = 10

-- The fields that both batch formats write of an event before its location's delimiter.
event_columns : EventFields → Fields
event_columns ev =
    field_if "unique_id" ev.unique_id
    ++ (field_if "event_id" ev.id
        ++ (field_if "local_id" ev.local_id
            ++ (field_if "owner" ev.owner
                ++ (field_if "owner_unique_id" ev.owner_unique_id
                    ++ (field_if "timestamp" ev.timestamp ++ field_if "loc" ev.location)))))

-- Tags are numbered from 1; a tag with no key is its value alone.
tag_column : ℕ × Tag → Fields
tag_column (i, tag) =
    let text = serialize_tag_value tag.value in
    let pair = if truthy tag.key then tag.key ++ (b'=' ∷ text) else text in
    (codes "tag_" ++ digits 10 (i + 1), str_int tag.frequency ++ (b':' ∷ pair)) ∷ []

pub event_row : BatchEventSpec → Fields
unfolding event_columns tag_column
event_row spec =
    event_columns spec.event
    ++ (field "loc_delim" (or_else spec.event.location_separator (codes "|"))
        ++ (field_if "type" spec.event.type ++ flat_map tag_column (enumerate 0 spec.tags)))

abbrev strength_column : String → PyFloat → Fields
strength_column k f = field k (if f.truth then f.text else codes "0.0")

pub link_row : BatchLinkEventSpec → Fields
unfolding event_columns
link_row spec =
    event_columns spec.event
    ++ (field_if "loc_delim" spec.event.location_separator
        ++ (field_if "type" spec.event.type
            ++ (field_if "link_unique_id" spec.link.unique_id
                ++ (field_if "event_id_a" spec.link.event_a
                    ++ (field_if "event_id_b" spec.link.event_b
                        ++ (field_if "unique_id_a" spec.link.unique_id_a
                            ++ (field_if "unique_id_b" spec.link.unique_id_b
                                ++ (strength_column "strength_a" spec.link.strength_a
                                    ++ (strength_column "strength_b" spec.link.strength_b
                                        ++ (field_if "category" spec.link.category
                                            ++ (field_if "owner_unique_id" spec.link.owner_unique_id
                                                ++ field_if "owner_event_id"
                                                    spec.link.owner_event_id)))))))))))

abbrev row_text : Fields → Str
row_text fs = join (tab ∷ []) (map part fs)

unfoldable pub format_batch_events_payload : List BatchEventSpec → Str
unfolding event_row
format_batch_events_payload events =
    join (newline ∷ []) (map (λ spec. row_text (event_row spec)) events)

unfoldable pub format_batch_link_events_payload : List BatchLinkEventSpec → Str
unfolding link_row
format_batch_link_events_payload events =
    join (newline ∷ []) (map (λ spec. row_text (link_row spec)) events)

abbrev tag_line : Tag → Str
tag_line tag = str_int tag.frequency ++ (b'=' ∷ (tag.key ++ (b'=' ∷ serialize_tag_value tag.value)))

unfoldable pub format_batch_tags_payload : List Tag → Str
format_batch_tags_payload tags = join (newline ∷ []) (map tag_line tags)

-- `isinstance(data, list) and all(isinstance(x, T) for x in data)`, with the items.
module _ {A : Type 0} where
  abbrev each : (Item → Option A) → List Item → Option (List A)
  each f [] = some []
  each f (x ∷ xs) = elim (f x) [
    | none ↦ none
    | some a ↦ elim (each f xs) [ none ↦ none | some as' ↦ some (a ∷ as') ]
  ]

abbrev pub to_event : Item → Option BatchEventSpec
to_event (event_item e) = some e
to_event _ = none

abbrev pub to_link : Item → Option BatchLinkEventSpec
to_link (link_item l) = some l
to_link _ = none

abbrev pub to_tag : Item → Option Tag
to_tag (tag_item t) = some t
to_tag _ = none

abbrev pub to_text : Item → Option Str
to_text (text_item s) = some s
to_text _ = none

-- `text.encode("utf-8")`.
abbrev pub utf8 : Str → Result EncodeFailure Bytes
utf8 s = or_raise (Utf8.encode s) unicode_encode_error

abbrev pub bad_payload : Result EncodeFailure Bytes
bad_payload = err (encode_error encode_batch_payload_failed (codes "PayloadData"))

abbrev text_list : List Item → Result EncodeFailure Bytes
text_list items = elim (each to_text items) [
  | some texts ↦ utf8 (concat texts)
  | none ↦ bad_payload
]

-- `msg.payload.data`, absent if there is no payload.
abbrev pub content_of : Message → Content
content_of msg = elim msg.payload [ none ↦ no_content | some p ↦ p.content ]

abbrev pub batch_events_of : Message → List BatchEventSpec
batch_events_of msg = elim msg.neural_memory [ none ↦ [] | some nm ↦ nm.batch_events ]

abbrev pub batch_links_of : Message → List BatchLinkEventSpec
batch_links_of msg = elim msg.neural_memory [ none ↦ [] | some nm ↦ nm.batch_links ]

abbrev pub tags_of : Message → List Tag
tags_of msg = elim msg.neural_memory [ none ↦ [] | some nm ↦ nm.tags ]

-- StoreBatchEvents. An empty list counts as no data; with no data the batch of the memory fields is
-- written, which is empty text for an empty batch.
pub batch_events_bytes : Message → Content → Result EncodeFailure Bytes
batch_events_bytes msg no_content = utf8 (format_batch_events_payload (batch_events_of msg))
batch_events_bytes msg (text_content s) = utf8 s
batch_events_bytes msg (bytes_content bs) = bad_payload
batch_events_bytes msg other_content = bad_payload
batch_events_bytes msg (list_content []) = utf8 (format_batch_events_payload (batch_events_of msg))
batch_events_bytes msg (list_content (x ∷ xs)) = elim (each to_event (x ∷ xs)) [
  | some events ↦ utf8 (format_batch_events_payload events)
  | none ↦ text_list (x ∷ xs)
]

-- StoreBatchLinks.
pub batch_links_bytes : Message → Content → Result EncodeFailure Bytes
batch_links_bytes msg no_content = utf8 (format_batch_link_events_payload (batch_links_of msg))
batch_links_bytes msg (text_content s) = utf8 s
batch_links_bytes msg (bytes_content bs) = bad_payload
batch_links_bytes msg other_content = bad_payload
batch_links_bytes msg (list_content []) =
    utf8 (format_batch_link_events_payload (batch_links_of msg))
batch_links_bytes msg (list_content (x ∷ xs)) = elim (each to_link (x ∷ xs)) [
  | some links ↦ utf8 (format_batch_link_events_payload links)
  | none ↦ bad_payload
]

-- StoreBatchTags: here an empty list is a list of tags.
pub batch_tags_bytes : Message → Content → Result EncodeFailure Bytes
batch_tags_bytes msg no_content = utf8 (format_batch_tags_payload (tags_of msg))
batch_tags_bytes msg (text_content s) = utf8 s
batch_tags_bytes msg (bytes_content bs) = bad_payload
batch_tags_bytes msg other_content = bad_payload
batch_tags_bytes msg (list_content items) = elim (each to_tag items) [
  | some tags ↦ utf8 (format_batch_tags_payload tags)
  | none ↦ bad_payload
]

-- Other intents.
pub plain_bytes : Content → Result EncodeFailure Bytes
plain_bytes no_content = ok []
plain_bytes (text_content s) = utf8 s
plain_bytes (bytes_content bs) = ok bs
plain_bytes (list_content items) = text_list items
plain_bytes other_content = bad_payload

unfoldable pub payload_to_bytes : Message → Str → Result EncodeFailure Bytes
unfolding batch_events_bytes batch_links_bytes batch_tags_bytes plain_bytes
payload_to_bytes msg intent_name =
    let is = λ (s : String). str_eq intent_name (codes s) in
    if is "GatewayId" || is "GatewayStreamOn"
    then ok []
    else if is "StoreBatchEvents"
    then batch_events_bytes msg (content_of msg)
    else if is "StoreBatchLinks"
    then batch_links_bytes msg (content_of msg)
    else if is "StoreBatchTags"
    then batch_tags_bytes msg (content_of msg)
    else plain_bytes (content_of msg)
