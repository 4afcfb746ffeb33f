-- ===== src/Message/Header.antt =====
-- `construct_header` of pod_os_client/message/header.py. A header is a layout of fields, whose text
-- is `render`; the functions for the intents stand in the children.
pub mod Fields
pub mod Gateway
pub mod Store
pub mod Query
pub mod Reading
pub mod Keys
pub mod Parts
pub mod Carried
pub mod Routing
use pod_os_py_client.Prelude.{String, Bool, [], Option, none, some, if◌then◌else◌, ◌||◌}
use pod_os_py_client.Prelude.Text.{Str, codes, str_eq}
use pod_os_py_client.Intents.Constants.{Intent}
use pod_os_py_client.Message.Types.{Message}
use Fields.{Layout, joined, render}
use Gateway.{
  gateway_identify_connection_header, gateway_stream_on_header, gateway_disconnect_header,
  gateway_stream_off_header, actor_echo_header, actor_request_header, actor_response_header,
  status_header, status_request_header,
}
use Store.{
  store_event_message_header, store_data_message_header, link_events_message_header,
  unlink_events_message_header, store_batch_events_message_header, store_batch_tags_message_header,
  batch_link_events_message_header,
}
use Query.{get_event_message_header, get_events_for_tag_message_header}

-- The layout that `construct_header` writes for an intent's name. `none` is a ValueError.
unfoldable pub header_layout : Str → Message → Str → Option Layout
header_layout now msg name =
    let is = λ (s : String). str_eq name (codes s) in
    if is "GatewayId"
    then some (gateway_identify_connection_header msg)
    else if is "GatewayStreamOn"
    then some (gateway_stream_on_header msg)
    else if is "GatewayDisconnect"
    then some (gateway_disconnect_header msg)
    else if is "GatewayStreamOff"
    then some (gateway_stream_off_header msg)
    else if is "ActorEcho"
    then some (actor_echo_header msg)
    else if is "StoreEvent"
    then some (store_event_message_header now msg)
    else if is "StoreData"
    then store_data_message_header now msg
    else if is "LinkEvent"
    then some (link_events_message_header msg)
    else if is "UnlinkEvent"
    then some (unlink_events_message_header msg)
    else if is "GetEvent"
    then some (get_event_message_header msg)
    else if is "GetEventsForTags"
    then some (get_events_for_tag_message_header msg)
    else if is "StoreBatchEvents"
    then some (store_batch_events_message_header msg)
    else if is "StoreBatchTags" || is "BatchStoreTags"
    then some (store_batch_tags_message_header msg)
    else if is "StoreBatchLinks"
    then some (batch_link_events_message_header msg)
    else if is "ActorRequest"
    then some (actor_request_header msg)
    else if is "ActorResponse"
    then some (actor_response_header msg)
    else if is "Status"
    then some (status_header msg)
    else if is "StatusRequest"
    then some (status_request_header msg)
    else some (joined [])

unfoldable pub construct_header : Str → Message → Intent → Option Str
construct_header now msg intent = elim (header_layout now msg intent.name) [
  | none ↦ none
  | some layout ↦ some (render layout)
]
