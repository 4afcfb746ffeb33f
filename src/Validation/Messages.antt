-- ===== src/Validation/Messages.antt =====
-- `validate_message` of pod_os_client/message/validate.py: the envelope, and the check of the intent.
use pod_os_py_client.Prelude.{Bool, List, [], ◌∷◌, ◌++◌, none, some, if◌then◌else◌}
use pod_os_py_client.Prelude.Text.{codes}
use pod_os_py_client.Prelude.Dict.{Dict, lookup}
use pod_os_py_client.Message.Types.{Message}
use pod_os_py_client.Validation.{Violation, validate_envelope}
use pod_os_py_client.Validation.Intents.{
  validate_store_event, validate_store_data, validate_get_event, validate_get_events_for_tags,
  validate_link_event, validate_unlink_event, validate_gateway_id, validate_actor_report,
  validate_response_intent,
}
use pod_os_py_client.Validation.Payload.{
  validate_store_batch_events, validate_store_batch_tags, validate_store_batch_links,
}

-- `_validate_gateway_stream`, `_validate_actor_request`, `_validate_actor_response`, `_validate_status`.
abbrev pub nothing_required : Message → List Violation
nothing_required msg = []

-- `_intent_validators`.
unfoldable pub intent_validators : Dict (Message → List Violation)
intent_validators =
    (codes "StoreEvent", validate_store_event)
    ∷ (codes "StoreData", validate_store_data)
    ∷ (codes "StoreBatchEvents", validate_store_batch_events)
    ∷ (codes "StoreBatchTags", validate_store_batch_tags)
    ∷ (codes "GetEvent", validate_get_event)
    ∷ (codes "GetEventsForTags", validate_get_events_for_tags)
    ∷ (codes "LinkEvent", validate_link_event)
    ∷ (codes "UnlinkEvent", validate_unlink_event)
    ∷ (codes "StoreBatchLinks", validate_store_batch_links)
    ∷ (codes "StoreEventResponse", validate_response_intent)
    ∷ (codes "StoreBatchEventsResponse", validate_response_intent)
    ∷ (codes "StoreBatchTagsResponse", validate_response_intent)
    ∷ (codes "GetEventResponse", validate_response_intent)
    ∷ (codes "GetEventsForTagsResponse", validate_response_intent)
    ∷ (codes "LinkEventResponse", validate_response_intent)
    ∷ (codes "UnlinkEventResponse", validate_response_intent)
    ∷ (codes "StoreBatchLinksResponse", validate_response_intent)
    ∷ (codes "GatewayId", validate_gateway_id)
    ∷ (codes "GatewayStreamOn", nothing_required)
    ∷ (codes "GatewayStreamOff", nothing_required)
    ∷ (codes "ActorRequest", nothing_required)
    ∷ (codes "ActorResponse", nothing_required)
    ∷ (codes "ActorReport", validate_actor_report)
    ∷ (codes "Status", nothing_required)
    ∷ []

-- An intent that the table does not name is not looked at.
unfoldable pub validate_intent : Message → List Violation
validate_intent msg = elim (lookup msg.intent intent_validators) [
  | none ↦ []
  | some check ↦ check msg
]

-- The first argument is whether validation is enabled.
unfoldable pub validate_message : Bool → Message → List Violation
validate_message enabled msg = if enabled then validate_envelope msg ++ validate_intent msg else []
