-- ===== src/Readiness.antt =====
-- pod_os_client/readiness/health_probe.py and pod_os_client/health.py: the probe that is sent to an actor,
-- what counts as its success, and the reply that a client gives. The uuids are arguments.
pub mod Gate
use pod_os_py_client.Prelude.{
  Bool, true, false, not, [], ◌∷◌, ◌++◌, map, Option, none, some, if◌then◌else◌, Result,
}
use pod_os_py_client.Prelude.Text.{Str, Bytes, codes, str_eq, strip, elem_of, lower_ascii}
use pod_os_py_client.Errors.{EncodeFailure}
use pod_os_py_client.Intents.Constants.{get_events_for_tags, status_request, status}
use pod_os_py_client.Message.Types.{Message, text_content, processing_status}
use pod_os_py_client.Message.Defaults.{
  empty_message, empty_payload, empty_neural_memory, empty_get_events_for_tags, empty_response,
}
use pod_os_py_client.Wire.Encoder.{encode_message}

-- No letter beyond ASCII has one of these names' letters for its lower case.
unfoldable pub is_neural_memory_backed_for_health_probe : Str → Bool
is_neural_memory_backed_for_health_probe actor_type = elem_of (map lower_ascii (strip actor_type)) (
    codes "pod_db"
    ∷ codes "evolutionary-neural-memory"
    ∷ codes "neural_memory"
    ∷ codes "neural-memory"
    ∷ [])

-- The texts of the two `uuid4` calls are the last arguments.
unfoldable pub build_actor_health_probe_message : Str → Str → Str → Str → Str → Str → Message
build_actor_health_probe_message actor_address from_address client_name actor_type id tag =
    let probe = record empty_message {
      to = actor_address;
      from = from_address;
      client_name = client_name;
      message_id = id;
    } in
    if is_neural_memory_backed_for_health_probe actor_type
    then record probe {
      intent = get_events_for_tags.name;
      payload = some (record empty_payload {
        content = text_content (codes "health_check=_podos_health_check_" ++ tag);
      });
      neural_memory = some (record empty_neural_memory {
        get_events_for_tags = some (record empty_get_events_for_tags { count_only = true });
      });
    }
    else record probe { intent = status_request.name }

-- What `send` comes to: an exception, or a message or None.
pub data Sent (E : Type 0) : Type 0 where
  failed : E → Sent E
  responded : Option Message → Sent E

unfoldable pub actor_health_probe_succeeded : {E : Type 0} → Sent E → Bool
actor_health_probe_succeeded (failed e) = false
actor_health_probe_succeeded (responded none) = true
actor_health_probe_succeeded (responded (some msg)) =
    not (str_eq (processing_status msg) (codes "ERROR"))

-- The names of the client and of its gateway, and the request.
unfoldable pub build_status_health_reply : Str → Str → Message → Message
build_status_health_reply client_name actor_name inbound = record empty_message {
  to = inbound.from;
  from = client_name ++ (b'@' ∷ actor_name);
  intent = status.name;
  client_name = client_name;
  message_id = inbound.message_id;
  response =
      some (record empty_response { status = codes "OK"; message = codes "actor is healthy" });
}

-- The handler of `respond_to_health_checks`: the bytes that it sends, if the message is a request.
unfoldable pub health_reply : Str → Str → Str → Message → Option (Result EncodeFailure Bytes)
health_reply now client_name actor_name inbound =
    if str_eq inbound.intent status_request.name
    then some (
        encode_message now (some (build_status_health_reply client_name actor_name inbound)) status)
    else none
