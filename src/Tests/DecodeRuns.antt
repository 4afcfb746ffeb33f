-- ===== src/Tests/DecodeRuns.antt =====
-- Concrete headers and batch results that are decoded.
use pod_os_py_client.Prelude.{
  true, ℕ, ◌+◌, inl, map, [], ◌∷◌, ◌++◌, some, ◌≡◌, refl, arith, length, All,
}
use pod_os_py_client.Prelude.Int.{pos}
use pod_os_py_client.Prelude.Text.{truthy, or_else, Str, codes, strip}
use pod_os_py_client.Message.Types.{
  Message, EventFields, ResponseFields, TagOutput, StoreBatchEventRecord, StoreLinkBatchEventRecord,
}
use pod_os_py_client.Message.Defaults.{
  empty_message, empty_event, empty_response, empty_tag_output, empty_neural_memory,
  empty_get_event,
}
use pod_os_py_client.Message.BatchStatus.{batch_links_failed, batch_links_failed-errors}
use pod_os_py_client.Message.TagFormat.{
  parse_event_tag_header, tag_prefix, int_or, normalize_tag_owner, apply_tag_owner_output,
  wants_unique_ids,
}
use pod_os_py_client.Message.TagFormat.Laws.{
  parse_event_tag_header-extended, tags_of, apply_tag_owner_output-tags,
}
use pod_os_py_client.Message.Header.Fields.{
  fields_of, render, decode_header, force_ascii, field, field_if, field_when,
}
use pod_os_py_client.Message.Header.Reading.{IsClean}
use pod_os_py_client.Message.Header.Store.{store_event_message_header, store_event_part, tag_fields}
use pod_os_py_client.Wire.Event.{decode_event_fields}
use pod_os_py_client.Wire.Event.Laws.{decode_event_fields-store_event}
use pod_os_py_client.Wire.Response.{finalize_store_batch_response}
use pod_os_py_client.Wire.Response.Laws.{
  count_where, says_ok, says_nothing, finalize_store_batch_response-counts,
}

abbrev visit : EventFields
visit = record empty_event { unique_id = codes "u1"; owner = codes " me "; type = codes "visit" }

abbrev visit_message : Message
visit_message = record empty_message { event = some visit; message_id = codes "9" }

visit-IsClean : All IsClean (fields_of (store_event_message_header (codes "12") visit_message))
unfolding store_event_message_header store_event_part field field_if field_when tag_fields
visit-IsClean = ground arith

abbrev visit_read : EventFields
visit_read =
    decode_event_fields
      (decode_header (render (store_event_message_header (codes "12") visit_message)))

decode_event_fields-store_event_example :
    (visit_read.unique_id ≡ strip (codes "u1"))
    × (visit_read.id ≡ strip (force_ascii []))
    × (visit_read.owner ≡ strip (codes " me "))
    × (visit_read.type ≡ strip (codes "visit"))
    × (visit_read.timestamp ≡ strip (codes "12"))
decode_event_fields-store_event_example =
    decode_event_fields-store_event (codes "12") visit_message visit refl visit-IsClean

-- One event was stored, one failed, one says nothing.
abbrev stored_one : EventFields
stored_one = record empty_event { status = codes "ok" }

abbrev results : StoreBatchEventRecord
results = record {
  status = [];
  message = [];
  event_count = pos 0;
  event_results = stored_one ∷ record empty_event { status = codes "ERROR" } ∷ empty_event ∷ [];
}

finalize_store_batch_response-counts_example :
    let (r, b) = finalize_store_batch_response empty_response results in
    (r.total_events ≡ pos (length results.event_results))
    × (b.event_count ≡ r.total_events)
    × (r.storage_success_count ≡ pos (count_where says_ok results.event_results))
    × ((failed : ℕ) × (r.storage_error_count ≡ pos failed)
        × (count_where says_ok results.event_results
              + failed
              + count_where says_nothing results.event_results
            ≡ length results.event_results))
finalize_store_batch_response-counts_example =
    finalize_store_batch_response-counts empty_response results stored_one refl (inl refl) (λ e. cc)

-- A tag of an owner whose key holds colons.
parse_event_tag_header-extended_example :
    parse_event_tag_header
      (tag_prefix
        ++ (codes "7" ++ (b':' ∷ (codes "2" ++ (b':' ∷ (codes "1.5" ++ (b':' ∷ codes "a:b")))))))
      (codes "color" ++ (b'=' ∷ codes "red=blue"))
    ≡ some (record empty_tag_output {
      frequency = int_or (codes "2") (pos 1);
      tag_number = int_or (codes "7") (pos 0);
      key = codes "color";
      value = codes "red=blue";
      timestamp = codes "1.5";
      owner = normalize_tag_owner (codes "a:b");
    })
parse_event_tag_header-extended_example =
    parse_event_tag_header-extended (codes "7") (codes "2") (codes "1.5") (codes "a:b") b'c'
      (codes "olor") (codes "red=blue") (ground arith) (ground arith) (ground arith) (ground arith)

-- A reply to a request that asks for owners by unique id.
abbrev asking : Message
asking = record empty_message {
  intent = codes "GetEvent";
  neural_memory = some (record empty_neural_memory {
    get_event = some (record empty_get_event { tag_owner_output = codes "unique_id" });
  });
}

abbrev owned : Message
owned = record empty_message {
  event = some (record empty_event { tags = record empty_tag_output { owner = codes "o1" } ∷ [] });
}

asks_unique_ids : wants_unique_ids asking ≡ true
unfolding wants_unique_ids
asks_unique_ids = refl

apply_tag_owner_output-tags_example :
    tags_of (apply_tag_owner_output asking owned)
    ≡ map
        (λ (tag : TagOutput). record tag {
          owner = [];
          owner_unique_id = or_else tag.owner tag.owner_unique_id;
        })
        (tags_of owned)
apply_tag_owner_output-tags_example = apply_tag_owner_output-tags asking owned asks_unique_ids

-- A batch of links with one error and no text, in a reply that says OK.
abbrev link_results : StoreLinkBatchEventRecord
link_results = record {
  status = codes "OK";
  message = [];
  total_link_requests_found = pos 2;
  links_ok = pos 1;
  links_with_errors = pos 1;
  link_results = [];
}

abbrev links_response : ResponseFields
links_response = record empty_response {
  status = codes "OK";
  store_link_batch_event_record = some link_results;
}

abbrev links_reply : Message
links_reply = record empty_message { response = some links_response }

batch_links_failed-errors_example :
    (text : Str) × (batch_links_failed links_reply ≡ some text) × (truthy text ≡ true)
batch_links_failed-errors_example =
    batch_links_failed-errors links_reply links_response link_results refl refl refl
