-- ===== src/Intents.antt =====
-- The lookups of pod_os_client/message/intents.py over its tables.
pub mod Constants
pub mod Laws
use pod_os_py_client.Prelude.{
  ℕ, String, Bool, true, false, Option, none, some, List, [], ◌∷◌, map, ◌==◌, if◌then◌else◌,
}
use pod_os_py_client.Prelude.Text.{Str, codes, str_eq}
use pod_os_py_client.Prelude.Int.{ℤ, pos, negsuc}
use pod_os_py_client.Prelude.Dict.{Dict, lookup}
use Constants.{
  Intent, store_event, store_data, store_batch_events, store_batch_tags, get_event,
  get_events_for_tags, link_event, unlink_event, store_batch_links, store_event_response,
  store_data_response, store_batch_events_response, store_batch_tags_response, get_event_response,
  get_events_for_tags_response, link_event_response, unlink_event_response,
  store_batch_links_response, actor_echo, actor_halt, actor_start, status, status_request,
  actor_request, actor_response, gateway_id, gateway_disconnect, gateway_send_next, gateway_no_send,
  gateway_stream_off, gateway_stream_on, actor_record, gateway_batch_start, gateway_batch_end,
  queue_next_request, queue_all_request, queue_count_request, queue_empty, keepalive, actor_report,
  report_request, information_report, auth_add_user, auth_update_user, auth_user_list,
  auth_disable_user, actor_user, route_any_message, route_user_only_message,
}

-- A table from texts, with a literal for each key.
abbrev entry : String → Intent → Str × Intent
entry key intent = (codes key, intent)

-- `_COMMAND_TO_INTENT`.
unfoldable pub command_to_intent : Dict Intent
command_to_intent =
    entry "store" store_event
    ∷ entry "store_data" store_data
    ∷ entry "store_batch" store_batch_events
    ∷ entry "tag_store_batch" store_batch_tags
    ∷ entry "get" get_event
    ∷ entry "events_for_tag" get_events_for_tags
    ∷ entry "link" link_event
    ∷ entry "unlink" unlink_event
    ∷ entry "link_batch" store_batch_links
    ∷ []

-- `_COMMAND_TO_RESPONSE_INTENT`.
unfoldable pub command_to_response_intent : Dict Intent
command_to_response_intent =
    entry "store" store_event_response
    ∷ entry "store_data" store_data_response
    ∷ entry "store_batch" store_batch_events_response
    ∷ entry "tag_store_batch" store_batch_tags_response
    ∷ entry "get" get_event_response
    ∷ entry "events_for_tag" get_events_for_tags_response
    ∷ entry "events_for_tags" get_events_for_tags_response
    ∷ entry "link" link_event_response
    ∷ entry "unlink" unlink_event_response
    ∷ entry "link_batch" store_batch_links_response
    ∷ []

-- `_MESSAGE_TYPE_TO_INTENT`.
unfoldable pub message_type_to_intent : List (ℕ × Intent)
message_type_to_intent =
    (1, actor_start)
    ∷ (2, actor_echo)
    ∷ (3, status)
    ∷ (4, actor_request)
    ∷ (5, gateway_id)
    ∷ (6, gateway_disconnect)
    ∷ (7, gateway_send_next)
    ∷ (8, gateway_no_send)
    ∷ (9, gateway_stream_off)
    ∷ (10, gateway_stream_on)
    ∷ (11, actor_record)
    ∷ (12, gateway_batch_start)
    ∷ (13, gateway_batch_end)
    ∷ (14, queue_next_request)
    ∷ (15, queue_all_request)
    ∷ (16, queue_count_request)
    ∷ (17, queue_empty)
    ∷ (18, keepalive)
    ∷ (19, actor_report)
    ∷ (20, report_request)
    ∷ (21, information_report)
    ∷ (30, actor_response)
    ∷ (99, actor_halt)
    ∷ (100, auth_add_user)
    ∷ (101, auth_update_user)
    ∷ (102, auth_user_list)
    ∷ (103, auth_disable_user)
    ∷ (110, status_request)
    ∷ (65536, actor_user)
    ∷ []

-- The attributes of `_IntentTypes`, in order.
unfoldable pub all_intents : List Intent
all_intents =
    store_event ∷ store_data ∷ store_batch_events ∷ store_batch_tags ∷ get_event
    ∷ get_events_for_tags ∷ link_event ∷ unlink_event ∷ store_batch_links ∷ store_event_response
    ∷ store_data_response ∷ store_batch_events_response ∷ store_batch_tags_response
    ∷ get_event_response ∷ get_events_for_tags_response ∷ link_event_response
    ∷ unlink_event_response ∷ store_batch_links_response ∷ actor_echo ∷ actor_halt ∷ actor_start
    ∷ status ∷ status_request ∷ actor_request ∷ actor_response ∷ gateway_id ∷ gateway_disconnect
    ∷ gateway_send_next ∷ gateway_no_send ∷ gateway_stream_off ∷ gateway_stream_on ∷ actor_record
    ∷ gateway_batch_start ∷ gateway_batch_end ∷ queue_next_request ∷ queue_all_request
    ∷ queue_count_request ∷ queue_empty ∷ keepalive ∷ actor_report ∷ report_request
    ∷ information_report ∷ auth_add_user ∷ auth_update_user ∷ auth_user_list ∷ auth_disable_user
    ∷ actor_user ∷ route_any_message ∷ route_user_only_message ∷ []

-- `_NAME_TO_INTENT`.
unfoldable pub name_to_intent : Dict Intent
unfolding all_intents
name_to_intent = map (λ intent. (intent.name, intent)) all_intents

pub lookup_number : ℕ → List (ℕ × Intent) → Option Intent
lookup_number n [] = none
lookup_number n ((k, intent) ∷ rest) = if k == n then some intent else lookup_number n rest

unfoldable pub intent_from_command : Str → Option Intent
unfolding command_to_intent
intent_from_command command = lookup command command_to_intent

unfoldable pub intent_from_response_command : Str → Option Intent
unfolding command_to_response_intent
intent_from_response_command command = lookup command command_to_response_intent

-- `_MESSAGE_TYPE_TO_INTENT.get`, and `intent_from_message_type` at a number.
unfoldable pub intent_from_number : ℤ → Option Intent
unfolding message_type_to_intent lookup_number
intent_from_number (pos n) = lookup_number n message_type_to_intent
intent_from_number (negsuc n) = none

abbrev is_number : ℤ → ℕ → Bool
is_number (pos n) k = n == k
is_number (negsuc n) k = false

unfoldable pub intent_from_message_type_and_command : ℤ → Str → Option Intent
unfolding intent_from_command intent_from_response_command intent_from_number
intent_from_message_type_and_command message_type command =
    if is_number message_type 1000
    then intent_from_command command
    else if is_number message_type 1001
    then intent_from_response_command command
    else if is_number message_type 11
    then elim (intent_from_response_command command) [
      | some intent ↦ some intent
      | none ↦ intent_from_number message_type
    ]
    else intent_from_number message_type

-- `intent_from_message_type` at a text: an intent's name, or else a memory command.
unfoldable pub intent_from_name : Str → Option Intent
unfolding name_to_intent intent_from_command
intent_from_name name = elim (lookup name name_to_intent) [
  | some intent ↦ some intent
  | none ↦ intent_from_command name
]
