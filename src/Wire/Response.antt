-- ===== src/Wire/Response.antt =====
-- The response part of `decode_message` of pod_os_client/message/decoder.py: the counts and fields that
-- the header gives, and the counts of a stored batch.
pub mod Laws
use pod_os_py_client.Prelude.{
  ℕ, suc, ◌+◌, ◌≤◌, ◌<◌, String, Bool, true, false, not, List, [], ◌∷◌, Option, none, some,
  if◌then◌else◌, length, ltb, ◌==◌, leb, ◌-◌, ◌&&◌, ◌||◌, ◌≡◌, ◌≢◌, refl, arith,
}
use pod_os_py_client.Prelude.Int.{ℤ, pos, negsuc}
use pod_os_py_client.Prelude.Text.{Str, codes, str_eq, truthy, elem_of, starts_with}
use pod_os_py_client.Prelude.Dict.{Dict, lookup}
use pod_os_py_client.Intents.Constants.{Intent}
use pod_os_py_client.Message.Types.{ResponseFields, StoreBatchEventRecord, EventFields}
use pod_os_py_client.Message.Defaults.{empty_response}
use pod_os_py_client.Wire.Integer.{parse_int}
use pod_os_py_client.Wire.Envelope.{header_value}

-- `_header_int`: missing, or no number.
unfoldable pub header_int : Dict Str → String → Option ℤ
header_int m key = elim (lookup (codes key) m) [ none ↦ none | some text ↦ parse_int 10 text ]

-- The loop over keys that stops at the first number.
unfoldable pub first_int : Dict Str → List String → Option ℤ
first_int m [] = none
first_int m (k ∷ ks) = elim (header_int m k) [ some n ↦ some n | none ↦ first_int m ks ]

-- The keys of the number of events, by the command, in the order that they are tried.
unfoldable pub count_keys : Str → List String
count_keys db_cmd =
    let is = λ (s : String). str_eq db_cmd (codes s) in
    if is "store" || is "store_batch" || is "tag_store_batch" || is "link" || is "unlink"
    then "_count" ∷ []
    else if is "link_batch"
    then "_total_link_requests_found" ∷ "total_link_requests_found" ∷ []
    else if is "events_for_tag"
    then "_count" ∷ "_total_event_hits" ∷ []
    else "_total_event_hits" ∷ "_count" ∷ "total_link_requests_found" ∷ "_total_link_requests_found"
      ∷ []

-- `if count is not None`.
abbrev pub or_kept : Option ℤ → ℤ → ℤ
or_kept none old = old
or_kept (some n) old = n

-- `_populate_response_counts`.
unfoldable pub populate_response_counts : ResponseFields → Dict Str → Str → ResponseFields
populate_response_counts response m db_cmd =
    let counted = record response {
      total_events = or_kept (first_int m (count_keys db_cmd)) response.total_events;
    } in
    if str_eq db_cmd (codes "link_batch")
    then record counted {
      storage_success_count =
          or_kept (first_int m ("_links_ok" ∷ "links_ok" ∷ [])) response.storage_success_count;
      storage_error_count =
          or_kept (first_int m ("_links_with_errors" ∷ "links_with_errors" ∷ []))
            response.storage_error_count;
    }
    else counted

-- `text.upper() == "OK"`. No character but `o` and `k` becomes one of these two.
abbrev pub is_letter : ℕ → ℕ → ℕ → Bool
is_letter upper lower c = c == upper || c == lower

unfoldable pub is_ok : Str → Bool
is_ok (o ∷ k ∷ []) = is_letter b'O' b'o' o && is_letter b'K' b'k' k
is_ok _ = false

-- How many events have a status that is `OK`, and one that is neither empty nor `OK`.
unfoldable pub ok_count : List EventFields → ℕ
ok_count [] = 0
ok_count (e ∷ es) = let rest = ok_count es in if is_ok e.status then suc rest else rest

unfoldable pub err_count : List EventFields → ℕ
err_count [] = 0
err_count (e ∷ es) =
    let rest = err_count es in if truthy e.status && not (is_ok e.status) then suc rest else rest

abbrev pub positive : ℤ → Bool
positive (pos n) = ltb 0 n
positive (negsuc n) = false

-- The first part of `_finalize_store_batch_response`: the number of events.
unfoldable pub finalize_total :
    ResponseFields → StoreBatchEventRecord → ResponseFields × StoreBatchEventRecord
finalize_total response batch =
    if positive batch.event_count
    then (record response { total_events = batch.event_count }, batch)
    else if ltb 0 (length batch.event_results)
    then (
      record response { total_events = pos (length batch.event_results) },
      record batch { event_count = pos (length batch.event_results) },
    )
    else (response, batch)

-- The second: the events that were stored, and those that were not.
unfoldable pub finalize_stored : ResponseFields → List EventFields → ResponseFields
finalize_stored response results =
    if ltb 0 (ok_count results) || ltb 0 (err_count results)
    then record response {
      storage_success_count = pos (ok_count results);
      storage_error_count = pos (err_count results);
    }
    else if is_ok response.status && positive response.total_events
    then record response { storage_success_count = response.total_events }
    else response

unfoldable pub finalize_store_batch_response :
    ResponseFields → StoreBatchEventRecord → ResponseFields × StoreBatchEventRecord
finalize_store_batch_response response batch =
    let (counted, kept) = finalize_total response batch in
    (finalize_stored counted kept.event_results, kept)

-- `"Response" in name`.
unfoldable pub occurs : Str → Str → Bool
occurs part [] = starts_with [] part
occurs part (c ∷ s) = starts_with (c ∷ s) part || occurs part s

abbrev is_number : ℤ → ℕ → Bool
is_number (pos n) k = n == k
is_number (negsuc n) k = false

unfoldable pub has_response : ℤ → Option Intent → Bool
has_response message_type intent =
    is_number message_type 1001
    || is_number message_type 30
    || is_number message_type 3
    || elim intent [
      | none ↦ false
      | some i ↦ occurs (codes "Response") i.name || str_eq i.name (codes "Status")
    ]

-- The fields of a response that the header gives, before its records.
unfoldable pub response_of : Dict Str → Str → ResponseFields
response_of m command =
    let counted =
      populate_response_counts
        (record empty_response {
          status = header_value m (codes "_status");
          message = header_value m (codes "_msg");
          type = header_value m (codes "_type");
        })
        m command in
    record counted {
      start_result = or_kept (header_int m "_start_result") counted.start_result;
      end_result = or_kept (header_int m "_end_result") counted.end_result;
      returned_events = or_kept (header_int m "_returned_event_hits") counted.returned_events;
      link_count = elim (lookup (codes "_set_link_count") m) [
        | some text ↦ or_kept (parse_int 10 text) counted.link_count
        | none ↦ or_kept (header_int m "_link_count") counted.link_count
      ];
      tag_count = or_kept (header_int m "_tag_count") counted.tag_count;
      link_id = header_value m (codes "link_event");
    }
