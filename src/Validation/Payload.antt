-- ===== src/Validation/Payload.antt =====
-- `_validate_payload` and `_validate_tag_list` of pod_os_client/message/validate.py.
use pod_os_py_client.Prelude.{
  Bool, true, false, not, List, [], ◌∷◌, ◌++◌, Option, none, some, if◌then◌else◌, flat_map, all,
}
use pod_os_py_client.Prelude.Text.{codes, str_eq, truthy}
use pod_os_py_client.Message.Types.{
  Message, Tag, TagValue, no_value, BatchEventSpec, BatchLinkEventSpec, Content, no_content,
  list_content, Item, event_item, link_item, tag_item, text_item, other_item, PayloadFields,
  NeuralMemoryFields,
}
use pod_os_py_client.Validation.{
  Violation, violates, when, required, one_of_required, payload_type, payload_format, nil_struct,
}
use pod_os_py_client.Validation.Intents.{
  neither, unpaired, validate_create_event_id_set, validate_create_link_id_set,
  validate_tags_target,
}

abbrev has_no_value : TagValue → Bool
has_no_value no_value = true
has_no_value _ = false

unfoldable pub tag_violations : Tag → List Violation
tag_violations tag =
    when (not (truthy tag.key)) (violates "key" payload_format)
    ++ when (has_no_value tag.value) (violates "value" payload_format)

-- `_validate_tag_list`.
unfoldable pub validate_tag_list : List Tag → List Violation
validate_tag_list tags = flat_map tag_violations tags

-- One event of a batch.
unfoldable pub batch_event_violations : BatchEventSpec → List Violation
batch_event_violations spec =
    let ev = spec.event in
    when (not (truthy ev.timestamp)) (violates "timestamp" required)
    ++ (when (neither ev.owner ev.owner_unique_id)
          (violates "owner / owner_unique_id" one_of_required)
        ++ (validate_create_event_id_set ev.id
            ++ (when (not (truthy ev.location)) (violates "loc" payload_format)
                ++ when (not (truthy ev.location_separator))
                    (violates "loc_delim" payload_format))))

-- One link of a batch, with its event.
unfoldable pub batch_link_violations : BatchLinkEventSpec → List Violation
batch_link_violations spec =
    let ev = spec.event in
    let lk = spec.link in
    when (not (truthy ev.timestamp)) (violates "timestamp" payload_format)
    ++ (when (neither ev.owner ev.owner_unique_id)
          (violates "owner / owner_unique_id" payload_format)
        ++ (validate_create_event_id_set ev.id
            ++ (validate_create_link_id_set lk.id
                ++ (when (not (truthy lk.timestamp)) (violates "timestamp" payload_format)
                    ++ (when (unpaired lk) (
                          violates "event_id_a+event_id_b / unique_id_a+unique_id_b" payload_format)
                        ++ (when (not (truthy lk.category)) (violates "category" payload_format)
                            ++ (when (not lk.strength_a.truth)
                                  (violates "strength_a" payload_format)
                                ++ (when (not lk.strength_b.truth)
                                      (violates "strength_b" payload_format)
                                    ++ when (neither lk.owner_event_id lk.owner_unique_id) (
                                        violates "owner_event_id / owner_unique_id"
                                          payload_format)))))))))

-- `msg.payload.data if msg.payload else None`.
abbrev pub content_of : Option PayloadFields → Content
content_of none = no_content
content_of (some p) = p.content

abbrev pub is_event_item : Item → Bool
is_event_item (event_item spec) = true
is_event_item _ = false

-- The tags of a list that holds nothing else.
abbrev pub only_tags : List Item → Option (List Tag)
only_tags [] = some []
only_tags (tag_item tag ∷ items) = elim (only_tags items) [
  | none ↦ none
  | some tags ↦ some (tag ∷ tags)
]
only_tags (event_item spec ∷ items) = none
only_tags (link_item spec ∷ items) = none
only_tags (text_item s ∷ items) = none
only_tags (other_item ∷ items) = none

-- Without events in the memory fields the payload must be a list of them.
abbrev pub validate_events_content : Content → List Violation
validate_events_content no_content = violates "payload" required
validate_events_content (list_content items) =
    when (not (all is_event_item items)) (violates "payload" payload_type)
validate_events_content _ = violates "payload" payload_type

abbrev pub validate_tags_content : Content → List Violation
validate_tags_content no_content = violates "payload" required
validate_tags_content (list_content items) = elim (only_tags items) [
  | none ↦ violates "payload" payload_type
  | some tags ↦ validate_tag_list tags
]
validate_tags_content _ = violates "payload" payload_type

-- What the memory fields hold, if they are there.
abbrev pub events_of : Option NeuralMemoryFields → List BatchEventSpec
events_of none = []
events_of (some nm) = nm.batch_events

abbrev pub tags_of : Option NeuralMemoryFields → List Tag
tags_of none = []
tags_of (some nm) = nm.tags

abbrev pub links_of : Option NeuralMemoryFields → List BatchLinkEventSpec
links_of none = []
links_of (some nm) = nm.batch_links

abbrev pub validate_events : List BatchEventSpec → Content → List Violation
validate_events [] body = validate_events_content body
validate_events (spec ∷ specs) body = flat_map batch_event_violations (spec ∷ specs)

abbrev pub validate_tags : List Tag → Content → List Violation
validate_tags [] body = validate_tags_content body
validate_tags (tag ∷ tags) body = validate_tag_list (tag ∷ tags)

abbrev pub validate_links : List BatchLinkEventSpec → List Violation
validate_links [] = violates "payload" required
validate_links (spec ∷ specs) = flat_map batch_link_violations (spec ∷ specs)

unfoldable pub validate_payload : Message → List Violation
validate_payload msg =
    if str_eq msg.intent (codes "StoreBatchEvents")
    then validate_events (events_of msg.neural_memory) (content_of msg.payload)
    else if str_eq msg.intent (codes "StoreBatchTags")
    then validate_tags (tags_of msg.neural_memory) (content_of msg.payload)
    else if str_eq msg.intent (codes "StoreBatchLinks")
    then validate_links (links_of msg.neural_memory)
    else []

unfoldable pub validate_store_batch_events : Message → List Violation
validate_store_batch_events msg = validate_payload msg

unfoldable pub validate_store_batch_tags : Message → List Violation
validate_store_batch_tags msg = validate_tags_target msg.event ++ validate_payload msg

unfoldable pub validate_store_batch_links : Message → List Violation
validate_store_batch_links msg = elim msg.neural_memory [
  | none ↦ violates "" nil_struct
  | some nm ↦ validate_payload msg
]
