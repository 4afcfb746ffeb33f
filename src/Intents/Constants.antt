-- ===== src/Intents/Constants.antt =====
-- The intents of pod_os_client/message/intents.py: the constants of `_IntentTypes`.
use pod_os_py_client.Prelude.{ℕ, String}
use pod_os_py_client.Prelude.Text.{Str, codes}

pub record Intent : Type 0 where
  pub name : Str
  pub routing_message_type : Str
  pub neural_memory_command : Str
  pub message_type : ℕ

-- An intent of the Evolutionary Neural Memory.
abbrev pub memory_intent : String → String → ℕ → String → Intent
memory_intent name command message_type routing = record {
  name = codes name;
  routing_message_type = codes routing;
  neural_memory_command = codes command;
  message_type = message_type;
}

-- An intent with no memory command.
abbrev pub plain_intent : String → ℕ → String → Intent
plain_intent name message_type routing = memory_intent name "" message_type routing

abbrev pub store_event : Intent
store_event = memory_intent "StoreEvent" "store" 1000 "MEM_REQ"

abbrev pub store_data : Intent
store_data = memory_intent "StoreData" "store_data" 1000 "MEM_REQ"

abbrev pub store_batch_events : Intent
store_batch_events = memory_intent "StoreBatchEvents" "store_batch" 1000 "MEM_REQ"

abbrev pub store_batch_tags : Intent
store_batch_tags = memory_intent "StoreBatchTags" "tag_store_batch" 1000 "MEM_REQ"

abbrev pub get_event : Intent
get_event = memory_intent "GetEvent" "get" 1000 "MEM_REQ"

abbrev pub get_events_for_tags : Intent
get_events_for_tags = memory_intent "GetEventsForTags" "events_for_tag" 1000 "MEM_REQ"

abbrev pub link_event : Intent
link_event = memory_intent "LinkEvent" "link" 1000 "MEM_REQ"

abbrev pub unlink_event : Intent
unlink_event = memory_intent "UnlinkEvent" "unlink" 1000 "MEM_REQ"

abbrev pub store_batch_links : Intent
store_batch_links = memory_intent "StoreBatchLinks" "link_batch" 1000 "MEM_REQ"

abbrev pub store_event_response : Intent
store_event_response = memory_intent "StoreEventResponse" "store" 1001 "MEM_REPLY"

abbrev pub store_data_response : Intent
store_data_response = memory_intent "StoreDataResponse" "store_data" 1001 "MEM_REPLY"

abbrev pub store_batch_events_response : Intent
store_batch_events_response =
    memory_intent "StoreBatchEventsResponse" "store_batch" 1001 "MEM_REPLY"

abbrev pub store_batch_tags_response : Intent
store_batch_tags_response =
    memory_intent "StoreBatchTagsResponse" "tag_store_batch" 1001 "MEM_REPLY"

abbrev pub get_event_response : Intent
get_event_response = memory_intent "GetEventResponse" "get" 1001 "MEM_REPLY"

abbrev pub get_events_for_tags_response : Intent
get_events_for_tags_response =
    memory_intent "GetEventsForTagsResponse" "events_for_tag" 1001 "MEM_REPLY"

abbrev pub link_event_response : Intent
link_event_response = memory_intent "LinkEventResponse" "link" 1001 "MEM_REPLY"

abbrev pub unlink_event_response : Intent
unlink_event_response = memory_intent "UnlinkEventResponse" "unlink" 1001 "MEM_REPLY"

abbrev pub store_batch_links_response : Intent
store_batch_links_response = memory_intent "StoreBatchLinksResponse" "link_batch" 1001 "MEM_REPLY"

abbrev pub actor_echo : Intent
actor_echo = plain_intent "ActorEcho" 2 "ECHO"

abbrev pub actor_halt : Intent
actor_halt = plain_intent "ActorHalt" 99 "HALT"

abbrev pub actor_start : Intent
actor_start = plain_intent "ActorStart" 1 "START"

abbrev pub status : Intent
status = plain_intent "Status" 3 "STATUS"

abbrev pub status_request : Intent
status_request = plain_intent "StatusRequest" 110 "STATUS_REQ"

abbrev pub actor_request : Intent
actor_request = plain_intent "ActorRequest" 4 "REQUEST"

abbrev pub actor_response : Intent
actor_response = plain_intent "ActorResponse" 30 "REPLY"

abbrev pub gateway_id : Intent
gateway_id = plain_intent "GatewayId" 5 "ID"

abbrev pub gateway_disconnect : Intent
gateway_disconnect = plain_intent "GatewayDisconnect" 6 "DISCONNECT"

abbrev pub gateway_send_next : Intent
gateway_send_next = plain_intent "GatewaySendNext" 7 "NEXT"

abbrev pub gateway_no_send : Intent
gateway_no_send = plain_intent "GatewayNoSend" 8 "NO_SEND"

abbrev pub gateway_stream_off : Intent
gateway_stream_off = plain_intent "GatewayStreamOff" 9 "STREAM_OFF"

abbrev pub gateway_stream_on : Intent
gateway_stream_on = plain_intent "GatewayStreamOn" 10 "STREAM_ON"

abbrev pub actor_record : Intent
actor_record = plain_intent "ActorRecord" 11 "RECORD"

abbrev pub gateway_batch_start : Intent
gateway_batch_start = plain_intent "GatewayBatchStart" 12 "BATCH_START"

abbrev pub gateway_batch_end : Intent
gateway_batch_end = plain_intent "GatewayBatchEnd" 13 "BATCH_END"

abbrev pub queue_next_request : Intent
queue_next_request = plain_intent "QueueNextRequest" 14 "QUEUE_NEXT"

abbrev pub queue_all_request : Intent
queue_all_request = plain_intent "QueueAllRequest" 15 "QUEUE_ALL"

abbrev pub queue_count_request : Intent
queue_count_request = plain_intent "QueueCountRequest" 16 "QUEUE_COUNT"

abbrev pub queue_empty : Intent
queue_empty = plain_intent "QueueEmpty" 17 "QUEUE_EMPTY"

abbrev pub keepalive : Intent
keepalive = plain_intent "Keepalive" 18 "KEEPALIVE"

abbrev pub actor_report : Intent
actor_report = plain_intent "ActorReport" 19 "REPORT"

abbrev pub report_request : Intent
report_request = plain_intent "ReportRequest" 20 "REPORT_REQUEST"

abbrev pub information_report : Intent
information_report = plain_intent "InformationReport" 21 "INFO_REPORT"

abbrev pub auth_add_user : Intent
auth_add_user = plain_intent "AuthAddUser" 100 "AUTH_ADD_USER"

abbrev pub auth_update_user : Intent
auth_update_user = plain_intent "AuthUpdateUser" 101 "AUTH_UPDATE_USER"

abbrev pub auth_user_list : Intent
auth_user_list = plain_intent "AuthUserList" 102 "AUTH_USER_LIST"

abbrev pub auth_disable_user : Intent
auth_disable_user = plain_intent "AuthDisableUser" 103 "AUTH_DISABLE_USER"

abbrev pub actor_user : Intent
actor_user = plain_intent "ActorUser" 65536 "USER"

abbrev pub route_any_message : Intent
route_any_message = plain_intent "RouteAnyMessage" 0 "ANY"

abbrev pub route_user_only_message : Intent
route_user_only_message = plain_intent "RouteUserOnlyMessage" 0 "USERONLY"
