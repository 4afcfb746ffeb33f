-- ===== src/Message/Header/Store.antt =====
-- The headers of the memory intents that store and link (pod_os_client/message/header.py).
use pod_os_py_client.Prelude.{
  ℕ, ◌+◌, String, [], ◌∷◌, ◌++◌, Option, none, some, if◌then◌else◌, ◌&&◌, flat_map, enumerate,
}
use pod_os_py_client.Prelude.Text.{Str, codes, truthy}
use pod_os_py_client.Wire.Integer.{digits, zfill}
use pod_os_py_client.Message.Types.{Message, EventFields, LinkFields, NeuralMemoryFields, Tag}
use pod_os_py_client.Message.Values.{serialize_tag_value}
use pod_os_py_client.Message.Header.Fields.{
  Fields, Layout, joined, trailing, field, field_when, field_if, force_ascii, str_int,
}
use pod_os_py_client.Message.Header.Gateway.{message_id_field}

-- `msg.payload.mime_type if msg.payload else ""`.
abbrev pub mime_of : Message → Str
mime_of msg = elim msg.payload [ none ↦ [] | some p ↦ p.mime_type ]

-- `now` is what `get_timestamp()` returns.
abbrev pub timestamp_field : Str → Str → Fields
timestamp_field now timestamp = field "timestamp" (if truthy timestamp then timestamp else now)

-- A test on two alternatives: the first text that is not empty.
abbrev pub first_field : String → Str → String → Str → Fields
first_field k v j w = if truthy v then field k v else field_if j w

unfoldable pub tag_field : ℕ × Tag → Fields
tag_field (i, tag) =
    (
      codes "tag_" ++ zfill 4 (digits 10 (i + 1)),
      str_int tag.frequency ++ (b':' ∷ (tag.key ++ (b'=' ∷ serialize_tag_value tag.value))),
    )
    ∷ []

unfoldable pub tag_fields : Option NeuralMemoryFields → Fields
tag_fields none = []
tag_fields (some nm) = flat_map tag_field (enumerate 0 nm.tags)

unfoldable pub store_event_part : Str → Message → Option EventFields → Fields
store_event_part now msg none = []
store_event_part now msg (some ev) =
    field_if "unique_id" ev.unique_id
    ++ (field_when (truthy ev.id) "event_id" (force_ascii ev.id)
        ++ (field_if "owner" ev.owner
            ++ (timestamp_field now ev.timestamp
                ++ (field "loc_delim" ev.location_separator
                    ++ (field "loc" ev.location
                        ++ (field "type" (if truthy ev.type then ev.type else codes "store event")
                            ++ (field "mime" (mime_of msg) ++ tag_fields msg.neural_memory)))))))

unfoldable pub store_event_message_header : Str → Message → Layout
store_event_message_header now msg = joined (
    field "_db_cmd" (codes "store") ++ (store_event_part now msg msg.event ++ message_id_field msg))

-- The id that is written for a target: the unique id, or else the event's id.
abbrev pub target_field : EventFields → Fields
target_field ev =
    if truthy ev.unique_id
    then field "unique_id" ev.unique_id
    else field_when (truthy ev.id) "event_id" (force_ascii ev.id)

-- `none` is the ValueError of a message with no event.
unfoldable pub store_data_message_header : Str → Message → Option Layout
store_data_message_header now msg = elim msg.event [
  | none ↦ none
  | some ev ↦ some (
      joined (
        field "_db_cmd" (codes "store_data")
        ++ (target_field ev
            ++ (timestamp_field now ev.timestamp
                ++ (field "loc_delim" ev.location_separator
                    ++ (field "loc" ev.location
                        ++ (field "mime" (mime_of msg) ++ message_id_field msg)))))))
]

unfoldable pub link_creator_part : Option EventFields → Fields
link_creator_part none = []
link_creator_part (some ev) =
    (if truthy ev.id
      then field "event_id" (force_ascii ev.id)
      else field_if "unique_id" ev.unique_id)
    ++ field_if "owner" ev.owner

unfoldable pub link_ends : LinkFields → Fields
link_ends link =
    if truthy link.unique_id_a && truthy link.unique_id_b
    then field "unique_id_a" link.unique_id_a ++ field "unique_id_b" link.unique_id_b
    else if truthy link.event_a && truthy link.event_b
    then field "event_id_a" (force_ascii link.event_a)
      ++ field "event_id_b" (force_ascii link.event_b)
    else []

-- `msg.neural_memory and msg.neural_memory.link`.
abbrev pub link_of : Message → Option LinkFields
link_of msg = elim msg.neural_memory [ none ↦ none | some nm ↦ nm.link ]

unfoldable pub link_part : Message → Option LinkFields → Fields
link_part msg none = []
link_part msg (some link) =
    link_ends link
    ++ (field "strength_a" link.strength_a.text
        ++ (field "strength_b" link.strength_b.text
            ++ (field "category" link.category
                ++ (field "loc_delim" link.location_separator
                    ++ (field "loc" link.location
                        ++ (field "type" link.type
                            ++ (field "mime" (mime_of msg)
                                ++ (field "timestamp" link.timestamp
                                    ++ first_field "owner_event_id" link.owner_event_id
                                        "owner_unique_id" link.owner_unique_id))))))))

unfoldable pub link_events_message_header : Message → Layout
link_events_message_header msg = trailing (
    field "_db_cmd" (codes "link")
    ++ (link_creator_part msg.event ++ (message_id_field msg ++ link_part msg (link_of msg))))

unfoldable pub unlink_part : Option LinkFields → Fields
unlink_part none = []
unlink_part (some link) =
    field_if "owner" link.owner
    ++ ((if truthy link.id
          then field "event_id" (force_ascii link.id)
          else field_if "unique_id" link.unique_id)
        ++ (field_if "loc_delim" link.location_separator
            ++ (field_if "loc" link.location ++ field_if "timestamp" link.timestamp)))

unfoldable pub unlink_events_message_header : Message → Layout
unlink_events_message_header msg =
    trailing
      (field "_db_cmd" (codes "unlink") ++ (unlink_part (link_of msg) ++ message_id_field msg))

unfoldable pub store_batch_events_message_header : Message → Layout
store_batch_events_message_header msg =
    trailing (field "_db_cmd" (codes "store_batch") ++ message_id_field msg)

unfoldable pub tag_target_part : Option EventFields → Fields
tag_target_part none = []
tag_target_part (some ev) =
    target_field ev ++ first_field "owner" ev.owner "owner_unique_id" ev.owner_unique_id

unfoldable pub store_batch_tags_message_header : Message → Layout
store_batch_tags_message_header msg = joined (
    field "_db_cmd" (codes "tag_store_batch")
    ++ (tag_target_part msg.event ++ message_id_field msg))

unfoldable pub batch_link_events_message_header : Message → Layout
batch_link_events_message_header msg =
    joined (field "_db_cmd" (codes "link_batch") ++ message_id_field msg)
