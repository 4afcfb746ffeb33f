-- ===== src/Message/Header/Query.antt =====
-- The headers of the memory intents that look up (pod_os_client/message/header.py).
use pod_os_py_client.Prelude.{
  String, Bool, true, false, not, [], ◌++◌, Option, none, some, if◌then◌else◌, ltb, ◌==◌,
}
use pod_os_py_client.Prelude.Int.{ℤ, pos, negsuc}
use pod_os_py_client.Prelude.Text.{Str, codes, truthy, str_eq}
use pod_os_py_client.Message.Types.{Message, EventFields, GetEventOptions, GetEventsForTagsOptions}
use pod_os_py_client.Message.Header.Fields.{
  Fields, Layout, joined, field, field_when, field_if, flag, force_ascii, str_int,
}
use pod_os_py_client.Message.Header.Gateway.{message_id_field}

-- The members of `TagOwnerOutput`.
abbrev pub no_owner_output : Str
no_owner_output = []

abbrev pub event_key_output : Str
event_key_output = codes "event_key"

abbrev pub unique_id_output : Str
unique_id_output = codes "unique_id"

-- The truth value of an integer, and `n > 0`.
abbrev pub nonzero : ℤ → Bool
nonzero (pos n) = not (n == 0)
nonzero (negsuc n) = true

abbrev pub positive : ℤ → Bool
positive (pos n) = ltb 0 n
positive (negsuc n) = false

abbrev pub number_when : Bool → String → ℤ → Fields
number_when test k n = field_when test k (str_int n)

-- `if value: parts.append(f"{key}={_force_ascii(value)}")`.
abbrev pub ascii_if : String → Str → Fields
ascii_if k v = field_when (truthy v) k (force_ascii v)

abbrev pub owner_flag : Str → Fields
owner_flag output =
    if str_eq output event_key_output
    then field "output_tag_owner" (codes "Y")
    else field_when (str_eq output unique_id_output) "output_tag_owner" (codes "N")

unfoldable pub lookup_event_part : Option EventFields → Fields
lookup_event_part none = []
lookup_event_part (some ev) =
    if truthy ev.id then field "event_id" (force_ascii ev.id) else field_if "unique_id" ev.unique_id

unfoldable pub get_event_part : Option GetEventOptions → Fields
get_event_part none = []
get_event_part (some opts) =
    flag opts.send_data "send_data"
    ++ (flag opts.local_id_only "local_id_only"
        ++ (flag opts.get_tags "get_tags"
            ++ (flag opts.get_links "get_links"
                ++ (flag opts.get_link_tags "get_link_tags"
                    ++ (flag opts.get_target_tags "get_target_tags"
                        ++ (field_if "event_facet_filter" opts.event_facet_filter
                            ++ (field_if "link_facet_filter" opts.link_facet_filter
                                ++ (field_if "target_facet_filter" opts.target_facet_filter
                                    ++ (field_if "category_filter" opts.category_filter
                                        ++ (field_if "tag_filter" opts.tag_filter
                                            ++ (field "tag_format" (
                                                  str_int (elim opts.tag_format [
                                                    | none ↦ pos 0
                                                    | some n ↦ n
                                                  ]))
                                                ++ (owner_flag opts.tag_owner_output
                                                    ++ (field "request_format"
                                                          (str_int opts.request_format)
                                                        ++ (number_when (nonzero opts.first_link)
                                                            "first_link" opts.first_link
                                                            ++ number_when (nonzero opts.link_count)
                                                            "link_count"
                                                            opts.link_count))))))))))))))

-- `msg.neural_memory.get_event` and `msg.neural_memory.get_events_for_tags`, if they are there.
abbrev pub get_event_of : Message → Option GetEventOptions
get_event_of msg = elim msg.neural_memory [ none ↦ none | some nm ↦ nm.get_event ]

abbrev pub get_events_for_tags_of : Message → Option GetEventsForTagsOptions
get_events_for_tags_of msg = elim msg.neural_memory [
  | none ↦ none
  | some nm ↦ nm.get_events_for_tags
]

unfoldable pub get_event_message_header : Message → Layout
get_event_message_header msg = joined (
    field "_db_cmd" (codes "get")
    ++ (lookup_event_part msg.event ++ (get_event_part (get_event_of msg) ++ message_id_field msg)))

unfoldable pub tag_owner_flag : Str → Fields
tag_owner_flag output =
    if str_eq output event_key_output
    then field "get_tag_owner" (codes "Y")
    else field_when (str_eq output unique_id_output) "get_tag_owner_unique_id" (codes "Y")

unfoldable pub search_flags : GetEventsForTagsOptions → Fields
search_flags opts =
    flag opts.include_brief_hits "include_brief_hits"
    ++ (flag opts.get_all_data "get_all_data"
        ++ (flag opts.count_only "count_only"
            ++ (flag opts.get_match_links "get_match_links"
                ++ (flag opts.count_match_links "count_match_links"
                    ++ (flag opts.get_link_tags "get_link_tags"
                        ++ (flag opts.get_target_tags "get_target_tags"
                            ++ (flag opts.get_event_object_count "get_eo_count"
                                ++ flag opts.invert_hit_tag_filter "invert_hit_tag_filter")))))))

unfoldable pub search_filters : GetEventsForTagsOptions → Fields
search_filters opts =
    ascii_if "event" opts.event_pattern
    ++ (ascii_if "event_high" opts.event_pattern_high
        ++ (ascii_if "link_tag_pattern" opts.link_tag_filter
            ++ (ascii_if "linked_events_tag_filter" opts.linked_events_filter
                ++ (field_if "link_category" opts.link_category
                    ++ ((if truthy opts.owner
                          then field "owner" (force_ascii opts.owner)
                          else field_if "owner_unique_id" opts.owner_unique_id)
                        ++ (tag_owner_flag opts.tag_owner_output
                            ++ ascii_if "hit_tag_filter" opts.hit_tag_filter))))))

unfoldable pub search_numbers : GetEventsForTagsOptions → Fields
search_numbers opts =
    number_when (positive opts.first_link) "first_link" opts.first_link
    ++ (number_when (positive opts.link_count) "link_count" opts.link_count
        ++ (number_when (nonzero opts.events_per_message) "events_per_message"
              opts.events_per_message
            ++ (number_when (positive opts.start_result) "start_result" opts.start_result
                ++ (number_when (positive opts.end_result) "end_result" opts.end_result
                    ++ number_when (positive opts.min_event_hits) "min_event_hits"
                        opts.min_event_hits))))

-- With no options the results are not buffered and the format is "0".
unfoldable pub search_part : Option GetEventsForTagsOptions → Fields
search_part none = field "buffer_results" (codes "N") ++ field "buffer_format" (codes "0")
search_part (some opts) =
    field "buffer_results" (if opts.buffer_results then codes "Y" else codes "N")
    ++ (flag opts.include_tag_stats "include_tag_stats"
        ++ (search_flags opts
            ++ (search_filters opts
                ++ (search_numbers opts
                    ++ field "buffer_format"
                        (if truthy opts.buffer_format then opts.buffer_format else codes "0")))))

unfoldable pub get_events_for_tag_message_header : Message → Layout
get_events_for_tag_message_header msg = joined (
    field "_db_cmd" (codes "events_for_tag")
    ++ (search_part (get_events_for_tags_of msg) ++ message_id_field msg))
