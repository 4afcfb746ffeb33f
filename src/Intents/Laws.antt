-- ===== src/Intents/Laws.antt =====
-- The tables of intents, against one another.
use pod_os_py_client.Prelude.{◌++◌, some, none, ◌≡◌, arith, All, All-In, In, ◌==◌, if◌then◌else◌}
use pod_os_py_client.Prelude.Int.{pos}
use pod_os_py_client.Prelude.Text.{Str, codes}
use pod_os_py_client.Prelude.Dict.{lookup-In}
use pod_os_py_client.Intents.{
  intent_from_name, intent_from_message_type_and_command, intent_from_command,
  intent_from_response_command, all_intents, command_to_intent,
}
use pod_os_py_client.Intents.Constants.{
  Intent, store_event_response, store_data_response, store_batch_events_response,
  store_batch_tags_response, get_event_response, get_events_for_tags_response, link_event_response,
  unlink_event_response, store_batch_links_response,
}

-- An intent is found by its name, and by what its frame carries: its message type and its command.
-- The two routing intents have no message type of their own and are not found by it.
abbrev pub Resolves : Intent → Type 0
Resolves intent =
    (intent_from_name intent.name ≡ some intent)
    × (intent_from_message_type_and_command (pos intent.message_type) intent.neural_memory_command
        ≡ (if intent.message_type == 0 then none else some intent))

all_intents-Resolves : All Resolves all_intents
unfolding all_intents intent_from_name intent_from_message_type_and_command
all_intents-Resolves = ground arith

-- Every intent of the table is found by its name, and by its message type and command unless its
-- message type is 0, in which case that lookup finds nothing.
pub intent-Resolves : (intent : Intent) → In intent all_intents → Resolves intent
intent-Resolves intent m = All-In Resolves all_intents intent all_intents-Resolves m

abbrev pub Answers : Str → Intent → Intent → Type 0
Answers command request response =
    (intent_from_response_command command ≡ some response)
    × (response.name ≡ request.name ++ codes "Response")
    × (request.neural_memory_command ≡ command)
    × (response.neural_memory_command ≡ command)
    × (request.message_type ≡ 1000)
    × (response.message_type ≡ 1001)

-- An answer that is found and passes the tests of all fields.
table-Answers :
    All (λ (e : Str × Intent). (response : Intent) × Answers e.0 e.1 response) command_to_intent
unfolding command_to_intent intent_from_response_command
table-Answers = (
  (store_event_response, ground arith),
  (
    (store_data_response, ground arith),
    (
      (store_batch_events_response, ground arith),
      (
        (store_batch_tags_response, ground arith),
        (
          (get_event_response, ground arith),
          (
            (get_events_for_tags_response, ground arith),
            (
              (link_event_response, ground arith),
              (
                (unlink_event_response, ground arith),
                ((store_batch_links_response, ground arith), tt),
              ),
            ),
          ),
        ),
      ),
    ),
  ),
)

-- Each memory command that names a request intent names a response intent too: its name is the
-- request's with `Response` behind it, both carry the command, and their types are 1000 and 1001.
pub command-Answers :
    (command : Str) {request : Intent}
    → intent_from_command command ≡ some request
    → (response : Intent) × Answers command request response
unfolding intent_from_command intent_from_response_command
command-Answers command {request} h =
    All-In (λ (e : Str × Intent). (response : Intent) × Answers e.0 e.1 response) command_to_intent
      (command, request) table-Answers (lookup-In command command_to_intent h)
