-- ===== src/Responses/Batches.antt =====
-- `parse_store_batch_events_payload` and `parse_link_event_batch_payload` of
-- pod_os_client/message/responses.py. `float` is a parameter.
pub mod Laws
use pod_os_py_client.Prelude.{
  Bool, true, false, List, [], ◌∷◌, ◌++◌, Option, none, some, Result, err, ok, ◌>>=◌, length,
  if◌then◌else◌, map, ◌==◌,
}
use pod_os_py_client.Prelude.Int.{ℤ, pos, negsuc}
use pod_os_py_client.Prelude.Text.{Str, codes, truthy, or_else}
use pod_os_py_client.Prelude.Dict.{Dict, lookup}
use pod_os_py_client.Message.Types.{
  Message, EventFields, LinkFields, ResponseFields, StoreBatchEventRecord,
  StoreLinkBatchEventRecord, PyFloat,
}
use pod_os_py_client.Message.Defaults.{empty_link}
use pod_os_py_client.Wire.Event.{first_of}
use pod_os_py_client.Wire.Integer.{parse_int}
use pod_os_py_client.Responses.Line.{
  RecordFailure, parse_tab_delimited_line, value_of, int_kept, lines_of, records_of,
}
use pod_os_py_client.Responses.Fields.{record_event}
use pod_os_py_client.Responses.Search.{payload_text}
use pod_os_py_client.Responses.Search.Index.{strength_kept}

abbrev pub is_zero : ℤ → Bool
is_zero (pos n) = n == 0
is_zero (negsuc n) = false

-- What a line says of the whole batch, where nothing was said before.
unfoldable pub batch_header : Dict Str → StoreBatchEventRecord → StoreBatchEventRecord
batch_header m batch = record batch {
  status = or_else batch.status (value_of m "_status");
  message = or_else batch.message (value_of m "_msg");
  event_count =
      if is_zero batch.event_count
      then int_kept m "_count" batch.event_count
      else batch.event_count;
}

-- One line: its event, with its own status.
unfoldable pub batch_line : StoreBatchEventRecord → Str → Result RecordFailure StoreBatchEventRecord
batch_line batch line =
    let m = parse_tab_delimited_line line in
    let headed = batch_header m batch in
    do
      event ← record_event m
      ok (record headed {
        event_results =
            headed.event_results ++ (record event { status = value_of m "_status" }) ∷ [];
      })

unfoldable pub batch_lines :
    StoreBatchEventRecord → List Str → Result RecordFailure StoreBatchEventRecord
batch_lines batch [] = ok batch
batch_lines batch (l ∷ ls) = do next ← batch_line batch l; batch_lines next ls

-- What the response says before the payload is read.
abbrev pub batch_of_response : Option ResponseFields → StoreBatchEventRecord
batch_of_response none = record {
  status = [];
  message = [];
  event_count = pos 0;
  event_results = [];
}
batch_of_response (some r) = record {
  status = r.status;
  message = r.message;
  event_count = r.total_events;
  event_results = [];
}

abbrev pub counted_batch : StoreBatchEventRecord → StoreBatchEventRecord
counted_batch batch =
    if is_zero batch.event_count
    then record batch { event_count = pos (length batch.event_results) }
    else batch

-- `none` is the record None with False.
unfoldable pub parse_store_batch_events_payload :
    Message → Result RecordFailure (Option StoreBatchEventRecord)
parse_store_batch_events_payload msg = elim (payload_text msg) [
  | none ↦ ok none
  | some payload ↦
      batch_lines (batch_of_response msg.response) (records_of (lines_of payload)) >>= λ batch.
      ok (some (counted_batch batch))
]

-- `link.link_error_code` is None until a number is read.
unfoldable pub error_code_of : Dict Str → Option ℤ
error_code_of m = elim (lookup (codes "_link_error_code") m) [
  | none ↦ none
  | some text ↦ parse_int 10 text
]

module _ (read_float : Str → Option PyFloat) where
  unfoldable pub link_result : Str → LinkFields
  link_result line =
      let m = parse_tab_delimited_line line in
      record empty_link {
        unique_id = value_of m "unique_id";
        id = value_of m "event_id";
        owner_unique_id = value_of m "owner_unique_id";
        owner_event_id = first_of m ("owner_id" ∷ "owner_event_id" ∷ []);
        owner = value_of m "owner";
        timestamp = value_of m "timestamp";
        location = value_of m "loc";
        location_separator = value_of m "loc_delim";
        type = value_of m "type";
        event_a = value_of m "event_id_a";
        event_b = value_of m "event_id_b";
        unique_id_a = value_of m "unique_id_a";
        unique_id_b = value_of m "unique_id_b";
        strength_a = strength_kept read_float (lookup (codes "strength_a") m) empty_link.strength_a;
        strength_b = strength_kept read_float (lookup (codes "strength_b") m) empty_link.strength_b;
        category = value_of m "category";
        status = value_of m "_status";
        message = first_of m ("_status_info" ∷ "_msg" ∷ []);
        link_error_code = error_code_of m;
      }

  abbrev pub link_batch_of_response :
      Option ResponseFields → List LinkFields → StoreLinkBatchEventRecord
  link_batch_of_response none results = record {
    status = [];
    message = [];
    total_link_requests_found = pos 0;
    links_ok = pos 0;
    links_with_errors = pos 0;
    link_results = results;
  }
  link_batch_of_response (some r) results = record {
    status = r.status;
    message = r.message;
    total_link_requests_found = r.total_events;
    links_ok = r.storage_success_count;
    links_with_errors = r.storage_error_count;
    link_results = results;
  }

  -- `none` is the record None with False.
  unfoldable pub parse_link_event_batch_payload : Message → Option StoreLinkBatchEventRecord
  parse_link_event_batch_payload msg = elim (payload_text msg) [
    | none ↦ none
    | some payload ↦
        some (link_batch_of_response msg.response (map link_result (records_of (lines_of payload))))
  ]
