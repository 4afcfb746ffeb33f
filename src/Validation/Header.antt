-- ===== src/Validation/Header.antt =====
-- The check of a header on the wire: `_validate_wire_header` of pod_os_client/message/validate.py and the
-- checks of the commands below it.
pub mod Laws
use pod_os_py_client.Prelude.{
  ℕ, String, Bool, true, false, not, List, [], ◌∷◌, ◌++◌, map, Option, none, some, if◌then◌else◌,
  ◌==◌, ◌&&◌, ◌||◌,
}
use pod_os_py_client.Prelude.Int.{ℤ, pos, negsuc}
use pod_os_py_client.Prelude.Text.{Str, codes, str_eq, truthy, elem_of, or_else}
use pod_os_py_client.Prelude.Dict.{Dict, lookup}
use pod_os_py_client.Wire.Envelope.{header_value}
use pod_os_py_client.Validation.{
  Violation, violates, warns, when, required, format, header_missing, header_value as bad_value,
  semantic, uncovered,
}
use pod_os_py_client.Validation.Intents.{is_sys_id}

-- `_has_header`.
unfoldable pub has_header : Dict Str → String → Bool
has_header h key = truthy (header_value h (codes key))

abbrev pub lacks : Dict Str → String → Bool
lacks h key = not (has_header h key)

-- `h.get(key) == text`, and a value that is there and is none of some texts.
abbrev pub is_value : Dict Str → String → String → Bool
is_value h key text = elim (lookup (codes key) h) [ none ↦ false | some v ↦ str_eq v (codes text) ]

abbrev pub other_value : Dict Str → String → List String → Bool
other_value h key texts = elim (lookup (codes key) h) [
  | none ↦ false
  | some v ↦ not (elem_of v (map codes texts))
]

-- `_validate_wire_yn`.
unfoldable pub validate_wire_yn : Dict Str → String → List Violation
validate_wire_yn h key = when (other_value h key ("Y" ∷ "N" ∷ [])) (violates key bad_value)

-- What the headers of StoreBatchTags and StoreData must say of the target and of the owner.
unfoldable pub target_and_owner : Dict Str → List Violation
target_and_owner h =
    when (lacks h "event_id" && lacks h "unique_id")
      (violates "event_id / unique_id" header_missing)
    ++ (when (lacks h "owner" && lacks h "owner_unique_id")
          (violates "owner / owner_unique_id" header_missing)
        ++ (when (is_value h "owner" "$sys") (violates "owner" semantic)
            ++ when (is_value h "event_id" "$sys" || is_value h "unique_id" "$sys")
                (violates "event_id / unique_id" semantic)))

unfoldable pub get_header : Dict Str → List Violation
get_header h =
    when (lacks h "event_id" && lacks h "unique_id")
      (violates "event_id / unique_id" header_missing)
    ++ (when (other_value h "tag_format" ("0" ∷ "1" ∷ [])) (violates "tag_format" bad_value)
        ++ (validate_wire_yn h "output_tag_owner"
            ++ when (has_header h "output_tag_owner" && not (is_value h "tag_format" "1"))
                (warns "output_tag_owner" semantic)))

unfoldable pub events_for_tag_header : Dict Str → List Violation
events_for_tag_header h =
    when (other_value h "buffer_format" ("0" ∷ "1" ∷ [])) (violates "buffer_format" bad_value)
    ++ (validate_wire_yn h "get_tag_owner"
        ++ (validate_wire_yn h "get_tag_owner_unique_id"
            ++ (when
                  ((has_header h "get_tag_owner" || has_header h "get_tag_owner_unique_id")
                    && not (is_value h "buffer_format" "1"))
                  (warns "get_tag_owner / get_tag_owner_unique_id" semantic)
                ++ when (lacks h "buffer_results") (warns "buffer_results" header_missing))))

unfoldable pub link_header : Dict Str → List Violation
link_header h =
    when (lacks h "strength_a") (violates "strength_a" header_missing)
    ++ (when (lacks h "strength_b") (violates "strength_b" header_missing)
        ++ (when (lacks h "category") (violates "category" header_missing)
            ++ (when (lacks h "timestamp") (violates "timestamp" header_missing)
                ++ (when (lacks h "owner_event_id" && lacks h "owner_unique_id")
                      (violates "owner_event_id / owner_unique_id" header_missing)
                    ++ when
                        (not (has_header h "event_id_a" && has_header h "event_id_b")
                          && not (has_header h "unique_id_a" && has_header h "unique_id_b"))
                        (violates "event_id_a+event_id_b / unique_id_a+unique_id_b"
                          header_missing)))))

abbrev is_zero : ℤ → Bool
is_zero (pos n) = n == 0
is_zero (negsuc n) = false

-- `_validate_neural_memory_request_header`.
unfoldable pub validate_request_header : Str → Dict Str → ℤ → List Violation
validate_request_header cmd h payload_length =
    let is = λ (s : String). str_eq cmd (codes s) in
    if is "store"
    then when (lacks h "timestamp") (warns "timestamp" header_missing)
    else if is "store_batch"
    then when (is_zero payload_length) (violates "payload" required)
    else if is "tag_store_batch"
    then target_and_owner h
    else if is "store_data"
    then target_and_owner h
    else if is "get"
    then get_header h
    else if is "events_for_tag"
    then events_for_tag_header h
    else if is "link"
    then link_header h
    else if is "unlink"
    then when (lacks h "event_id" && lacks h "unique_id")
        (violates "event_id / unique_id" header_missing)
    else if is "link_batch"
    then when (is_zero payload_length) (violates "payload" required)
    else warns "" uncovered

-- `_KNOWN_NEURAL_MEMORY_COMMANDS`.
unfoldable pub known_commands : List String
known_commands =
    "store" ∷ "store_batch" ∷ "tag_store_batch" ∷ "get" ∷ "events_for_tag" ∷ "link" ∷ "unlink"
    ∷ "link_batch" ∷ []

unfoldable pub is_known_command : Str → Bool
unfolding known_commands
is_known_command cmd = elem_of cmd (map codes known_commands)

-- `_validate_neural_memory_response_header`: warnings only.
unfoldable pub validate_response_header : Dict Str → List Violation
validate_response_header h =
    let db_cmd =
      or_else (header_value h (codes "_type"))
        (or_else (header_value h (codes "_command")) (header_value h (codes "_db_cmd"))) in
    let is = λ (s : String). str_eq db_cmd (codes s) in
    when (lacks h "_status") (warns "_status" header_missing)
    ++ (if is "get"
        then when (lacks h "_event_id" && lacks h "event_id")
            (warns "_event_id / event_id" header_missing)
        else if is "link"
        then when (lacks h "link_event") (warns "link_event" header_missing)
        else if is "store" || is "store_batch" || is "tag_store_batch"
        then when (lacks h "_count") (warns "_count" header_missing)
        else if is "link_batch"
        then when (lacks h "_links_ok") (warns "_links_ok" header_missing)
        else [])

-- The header of a request to the memory: without a command nothing more is looked at.
unfoldable pub memory_request : Dict Str → ℤ → List Violation
memory_request h payload_length =
    let db_cmd = header_value h (codes "_db_cmd") in
    if truthy db_cmd
    then when (not (is_known_command db_cmd)) (violates "_db_cmd" bad_value)
      ++ validate_request_header db_cmd h payload_length
    else violates "_db_cmd" header_missing

-- The check of a header, by its message type.
unfoldable pub header_of_type : ℕ → Dict Str → ℤ → List Violation
header_of_type message_type h payload_length =
    let is = λ (n : ℕ). message_type == n in
    if is 1000
    then memory_request h payload_length
    else if is 1001
    then validate_response_header h
    else if is 5
    then when (lacks h "id:name") (violates "id:name" header_missing)
    else if is 2
    then when (lacks h "_msg_id") (warns "_msg_id" header_missing)
    else if is 4
    then when (not (str_eq (header_value h (codes "_type")) (codes "status")))
        (violates "_type" header_missing)
    else if is 9 || is 10 || is 3 || is 19 || is 30
    then []
    else warns "" uncovered

-- A negative type is none of these.
unfoldable pub validate_wire_header : ℤ → Dict Str → ℤ → List Violation
validate_wire_header message_type h payload_length =
    when (is_value h "_msg_id" "") (warns "_msg_id" format) ++ elim message_type [
      | pos n ↦ header_of_type n h payload_length
      | negsuc n ↦ warns "" uncovered
    ]
