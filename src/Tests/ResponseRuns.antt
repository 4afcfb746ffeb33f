-- ===== src/Tests/ResponseRuns.antt =====
-- Concrete replies: their lines, their records, and messages that are decoded with them.
use pod_os_py_client.Prelude.{
  Bool, true, false, [], ◌∷◌, List, map, keep, some, none, Option, Result, ok, err, ◌≡◌, refl,
  arith,
}
use pod_os_py_client.Prelude.Int.{pos}
use pod_os_py_client.Prelude.Text.{Str, codes, join}
use pod_os_py_client.Prelude.Dict.{Dict, lookup}
use pod_os_py_client.Message.Types.{
  Message, EventFields, PyFloat, StoreBatchEventRecord, text_content,
}
use pod_os_py_client.Message.Defaults.{empty_message, empty_payload}
use pod_os_py_client.Message.Header.Fields.{Fields, part, tab}
use pod_os_py_client.Responses.Line.{
  is_blank, strip_nul, read_pair, read_pairs, parse_tab_delimited_line, records_of, lines_of,
}
use pod_os_py_client.Responses.Line.Laws.{parse_tab_delimited_line-fields}
use pod_os_py_client.Responses.Fields.{record_event, date_of_parts}
use pod_os_py_client.Wire.Response.{occurs}
use pod_os_py_client.Wire.Envelope.{header_value}
use pod_os_py_client.Wire.Event.{int_of}
use pod_os_py_client.Responses.Grouping.{newest, group, under, entries}
use pod_os_py_client.Responses.Search.{payload_text}
use pod_os_py_client.Responses.Search.Index.{
  Index, empty_index, index_lines, add_line, kind_of, parse_event_id_line, with_data_size,
  with_mime_type, with_line_tags,
}
use pod_os_py_client.Responses.Search.Index.Laws.{
  event_ids, id_of_event_line, source_row, index_lines-searches,
}
use pod_os_py_client.Responses.Search.Index.Kinds.{starts}
use pod_os_py_client.Responses.Search.Assembly.{records_of_lines}
use pod_os_py_client.Responses.Search.Assembly.Laws.{
  Distinct, tags_of_id, records_of_lines-ids, records_of_lines-tags,
}
use pod_os_py_client.Responses.Search.Owners.{
  normalize_tag_owner_lines, find_text, join_owners, owner_field, break_owner, restore_breaks,
}
use pod_os_py_client.Responses.Tags.{
  parse_event_tag_line, parse_link_tag_line, parse_target_tag_line,
}
use pod_os_py_client.Responses.GetEvent.{header_tags, parse_event_tag_headers}
use pod_os_py_client.Responses.GetEvent.Laws.{
  IsSorted, has_number, parse_event_tag_headers-IsSorted,
}
use pod_os_py_client.Responses.Batches.{batch_line, batch_lines, parse_store_batch_events_payload}
use pod_os_py_client.Responses.Batches.Laws.{
  told_by_event, told_by_line, parse_store_batch_events_payload-results,
}

-- A stand-in for `float`: it takes every text.
abbrev pub any_float : Str → Option PyFloat
any_float s = some (record { text = s; truth = true })

-- The value that a run returns, where it returns one.
abbrev pub returned {ℓ ℓ'} : {E : Type ℓ} → {A : Type ℓ'} → A → Result E A → A
returned otherwise (err e) = otherwise
returned otherwise (ok a) = a

abbrev succeeds {ℓ ℓ'} : {E : Type ℓ} → {A : Type ℓ'} → Result E A → Bool
succeeds (err e) = false
succeeds (ok a) = true

pub returned-ok {ℓ ℓ'} :
    {E : Type ℓ}
    → {A : Type ℓ'} → (otherwise : A) (r : Result E A) → succeeds r ≡ true
    → r ≡ ok (returned otherwise r)
returned-ok otherwise (err e) h = cc
returned-ok otherwise (ok a) h = refl

abbrev line_of : Fields → Str
line_of fs = join (tab ∷ []) (map part fs)

parse_tab_delimited_line-fields_example :
    lookup
      (codes "id")
      (parse_tab_delimited_line (line_of ((codes "id", codes "a=b") ∷ (codes "id", []) ∷ [])))
    ≡ newest (codes "id") ((codes "id", codes "a=b") ∷ (codes "id", []) ∷ []) none
parse_tab_delimited_line-fields_example =
    parse_tab_delimited_line-fields (codes "id") (codes "id", codes "a=b") ((codes "id", []) ∷ [])
      (ground arith) (ground arith)

-- A line break before an owner's tab is dropped, and one that is missing behind the owner is put in.
breaks_restored :
    normalize_tag_owner_lines (codes "a\n\towner=b_event_tag=c") ≡ codes "a\towner=b\n_event_tag=c"
unfolding normalize_tag_owner_lines occurs find_text join_owners owner_field break_owner
    restore_breaks
breaks_restored = refl

-- Two events, of which the first has a tag and a link to the second with a tag of its own.
abbrev lines : List Str
lines =
    codes "_event_id=e1\ttag:1:color=red"
    ∷ codes "_event_id=e2"
    ∷ codes "_event_tag=e1\ttag_freq=2\ttag_value=size=7"
    ∷ codes "_link=l1\tsource=e1\ttarget=e2\tunique_id=u1\tstrength=0.5"
    ∷ codes "_linktag=l1\tvalue=kind=near"
    ∷ []

abbrev ix : Index
ix = returned empty_index (index_lines any_float empty_index lines)

lines_read : succeeds (index_lines any_float empty_index lines) ≡ true
unfolding index_lines add_line kind_of parse_event_id_line parse_tab_delimited_line read_pairs
    read_pair record_event date_of_parts with_data_size with_mime_type with_line_tags header_value
    int_of
lines_read = refl

lines-indexed : index_lines any_float empty_index lines ≡ ok ix
lines-indexed = returned-ok empty_index (index_lines any_float empty_index lines) lines_read

index_lines-searches_example :
    (ix.order ≡ event_ids lines)
    × (group (codes "e1") ix.event_tags
        ≡ under (codes "e1") (entries (starts "_event_tag=") parse_event_tag_line lines))
    × (group (codes "e1") ix.link_tags
        ≡ under (codes "e1") (entries (starts "_linktag=") parse_link_tag_line lines))
    × (group (codes "e1") ix.target_tags
        ≡ under (codes "e1") (entries (starts "_targettag=") parse_target_tag_line lines))
    × (group (codes "e1") ix.by_source
        ≡ under (codes "e1") (entries (starts "_link=") (source_row any_float) lines))
index_lines-searches_example = index_lines-searches any_float lines ix (codes "e1") lines-indexed

abbrev records : List EventFields
records = returned [] (records_of_lines any_float lines)

records_read : succeeds (records_of_lines any_float lines) ≡ true
unfolding records_of_lines
records_read = rw lines-indexed refl

lines-records : records_of_lines any_float lines ≡ ok records
lines-records = returned-ok [] (records_of_lines any_float lines) records_read

records_of_lines-ids_example : map EventFields.id records ≡ event_ids lines
records_of_lines-ids_example = records_of_lines-ids any_float lines lines-records

two_ids : event_ids lines ≡ codes "e1" ∷ codes "e2" ∷ []
unfolding event_ids id_of_event_line header_value parse_tab_delimited_line read_pairs read_pair
two_ids = refl

lines-Distinct : Distinct (event_ids lines)
lines-Distinct = rw two_ids (ground arith)

records_of_lines-tags_example :
    map EventFields.tags records ≡ map (tags_of_id lines) (event_ids lines)
records_of_lines-tags_example = records_of_lines-tags any_float lines lines-records lines-Distinct

-- A header with two tags that are not in order.
abbrev tag_header : Dict Str
tag_header =
    (codes "event_tag:2:1:5:me", codes "a=b")
    ∷ (codes "_count", codes "2")
    ∷ (codes "event_tag:1:1:5:me", codes "c=d")
    ∷ []

parse_event_tag_headers-IsSorted_example :
    IsSorted (parse_event_tag_headers tag_header)
    × (keep (has_number (pos 1)) (parse_event_tag_headers tag_header)
        ≡ keep (has_number (pos 1)) (header_tags tag_header))
parse_event_tag_headers-IsSorted_example = parse_event_tag_headers-IsSorted tag_header (pos 1)

-- A reply to a batch of two events, with a blank line between them.
abbrev batch_text : Str
batch_text = codes "_event_id=e1\t_status=OK\n\n_event_id=e2\t_status=ERROR"

abbrev batch_reply : Message
batch_reply = record empty_message {
  payload = some (record empty_payload { content = text_content batch_text });
}

batch_reply-text : payload_text batch_reply ≡ some batch_text
unfolding payload_text
batch_reply-text = refl

abbrev empty_batch : StoreBatchEventRecord
empty_batch = record { status = []; message = []; event_count = pos 0; event_results = [] }

abbrev found {ℓ} : {E : Type ℓ} → {A : Type ℓ} → Result E (Option A) → Bool
found (err e) = false
found (ok none) = false
found (ok (some a)) = true

abbrev the_found {ℓ} : {E : Type ℓ} → {A : Type ℓ} → A → Result E (Option A) → A
the_found otherwise (err e) = otherwise
the_found otherwise (ok none) = otherwise
the_found otherwise (ok (some a)) = a

found-ok {ℓ} :
    {E : Type ℓ}
    → {A : Type ℓ} → (otherwise : A) (r : Result E (Option A)) → found r ≡ true
    → r ≡ ok (some (the_found otherwise r))
found-ok otherwise (err e) h = cc
found-ok otherwise (ok none) h = cc
found-ok otherwise (ok (some a)) h = refl

abbrev batch : StoreBatchEventRecord
batch = the_found empty_batch (parse_store_batch_events_payload batch_reply)

batch_found : found (parse_store_batch_events_payload batch_reply) ≡ true
unfolding parse_store_batch_events_payload payload_text batch_lines records_of lines_of is_blank
    strip_nul batch_line record_event date_of_parts int_of header_value parse_tab_delimited_line
    read_pairs read_pair
batch_found = refl

batch_succeeds : parse_store_batch_events_payload batch_reply ≡ ok (some batch)
batch_succeeds = found-ok empty_batch (parse_store_batch_events_payload batch_reply) batch_found

parse_store_batch_events_payload-results_example :
    map told_by_event batch.event_results ≡ map told_by_line (records_of (lines_of batch_text))
parse_store_batch_events_payload-results_example =
    parse_store_batch_events_payload-results batch_reply batch_text batch_reply-text batch_succeeds
