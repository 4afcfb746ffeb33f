-- ===== src/Message/Header/Gateway.antt =====
-- The headers of the gateway and actor intents (pod_os_client/message/header.py).
use pod_os_py_client.Prelude.{[], ◌++◌, Option, none, some, ◌&&◌}
use pod_os_py_client.Prelude.Text.{codes, truthy}
use pod_os_py_client.Message.Types.{Message, EventFields, ResponseFields}
use pod_os_py_client.Message.Header.Fields.{Fields, Layout, joined, field, field_when, field_if}

abbrev pub message_id_field : Message → Fields
message_id_field msg = field_if "_msg_id" msg.message_id

unfoldable pub gateway_identify_connection_header : Message → Layout
gateway_identify_connection_header msg =
    let known = truthy msg.passcode && truthy msg.user_name in
    joined (
      field_when known "id:passcode" msg.passcode
      ++ (field_when known "id:user" msg.user_name
          ++ (field "id:name" msg.client_name ++ message_id_field msg)))

unfoldable pub gateway_stream_on_header : Message → Layout
gateway_stream_on_header msg = joined (message_id_field msg)

unfoldable pub gateway_disconnect_header : Message → Layout
gateway_disconnect_header msg = joined (message_id_field msg)

unfoldable pub gateway_stream_off_header : Message → Layout
gateway_stream_off_header msg = joined (message_id_field msg)

-- The field is written also if the message has no id.
unfoldable pub actor_echo_header : Message → Layout
actor_echo_header msg = joined (field "_msg_id" msg.message_id)

unfoldable pub actor_request_header : Message → Layout
actor_request_header msg = joined (field "_type" (codes "status") ++ message_id_field msg)

unfoldable pub event_part : Option EventFields → Fields
event_part none = []
event_part (some ev) =
    field_if "unique_id" ev.unique_id
    ++ (field_if "type" ev.type
        ++ (field_if "owner" ev.owner
            ++ (field_if "timestamp" ev.timestamp
                ++ (field_if "loc" ev.location ++ field_if "loc_delim" ev.location_separator))))

unfoldable pub response_part : Option ResponseFields → Fields
response_part none = []
response_part (some r) =
    field_if "_status" r.status ++ (field_if "_msg" r.message ++ field_if "_type" r.type)

unfoldable pub actor_response_header : Message → Layout
actor_response_header msg =
    joined (message_id_field msg ++ (event_part msg.event ++ response_part msg.response))

unfoldable pub status_request_header : Message → Layout
status_request_header msg = joined (message_id_field msg)

unfoldable pub status_header : Message → Layout
status_header msg =
    joined (message_id_field msg ++ (event_part msg.event ++ response_part msg.response))
