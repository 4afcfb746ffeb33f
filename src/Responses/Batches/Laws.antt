-- ===== src/Responses/Batches/Laws.antt =====
-- The record of a stored batch: one result for each line, and the counts that follow.
use pod_os_py_client.Prelude.{
  List, [], ◌∷◌, ◌++◌, map, Option, none, some, ok, >>=-eq-ok, ok-injective, ◌≡◌, refl, sym, ap,
  ◌∙◌, arith, append_assoc, append-nil, map-append,
}
use pod_os_py_client.Prelude.Text.{Str}
use pod_os_py_client.Prelude.Dict.{Dict}
use pod_os_py_client.Message.Types.{Message, EventFields, ResponseFields, StoreBatchEventRecord}
use pod_os_py_client.Wire.Event.{first_of, date_parts, zero_date}
use pod_os_py_client.Responses.Line.{parse_tab_delimited_line, value_of, lines_of, records_of}
use pod_os_py_client.Responses.Fields.{record_event, event_with_date, date_of_parts}
use pod_os_py_client.Responses.Search.{payload_text}
use pod_os_py_client.Responses.Batches.{
  batch_header, batch_line, batch_lines, batch_of_response, counted_batch,
  parse_store_batch_events_payload,
}

-- What a line says of its event: its ids and its own status.
abbrev pub Told : Type 0
Told = Str × Str × Str

abbrev pub told_by_line : Str → Told
told_by_line line =
    let m = parse_tab_delimited_line line in
    (
      first_of m ("_event_id" ∷ "event_id" ∷ []),
      first_of m ("unique_id" ∷ "_unique_id" ∷ "tag:1:_unique_id" ∷ []),
      value_of m "_status",
    )

abbrev pub told_by_event : EventFields → Told
told_by_event e = (e.id, e.unique_id, e.status)

record_event-ids :
    (m : Dict Str) {event : EventFields}
    → record_event m ≡ ok event
    → (event.id ≡ first_of m ("_event_id" ∷ "event_id" ∷ []))
      × (event.unique_id ≡ first_of m ("unique_id" ∷ "_unique_id" ∷ "tag:1:_unique_id" ∷ []))
unfolding record_event event_with_date
record_event-ids m h =
    let (date, _, made) = >>=-eq-ok (date_of_parts m date_parts zero_date) _ h in
    rw (← ok-injective made) (refl, refl)

header-keeps :
    (m : Dict Str) (batch : StoreBatchEventRecord)
    → (batch_header m batch).event_results ≡ batch.event_results
unfolding batch_header
header-keeps m batch = refl

told_added :
    (batch : StoreBatchEventRecord) (line : Str) (event : EventFields)
    → let m = parse_tab_delimited_line line in
      (event.id ≡ first_of m ("_event_id" ∷ "event_id" ∷ []))
      → (event.unique_id ≡ first_of m ("unique_id" ∷ "_unique_id" ∷ "tag:1:_unique_id" ∷ []))
      → map told_by_event (
          (batch_header m batch).event_results
          ++ (record event { status = value_of m "_status" }) ∷ [])
        ≡ map told_by_event batch.event_results ++ told_by_line line ∷ []
told_added batch line event id unique_id =
    let m = parse_tab_delimited_line line in
    ap (λ es. map told_by_event (es ++ (record event { status = value_of m "_status" }) ∷ []))
      (header-keeps m batch)
    ∙ map-append told_by_event batch.event_results _
    ∙ rw (id, unique_id) refl

batch_line-told :
    (batch : StoreBatchEventRecord) (line : Str) {next : StoreBatchEventRecord}
    → batch_line batch line ≡ ok next
    → map told_by_event next.event_results
      ≡ map told_by_event batch.event_results ++ told_by_line line ∷ []
unfolding batch_line
batch_line-told batch line h =
    let m = parse_tab_delimited_line line in
    let (event, read, made) = >>=-eq-ok (record_event m) _ h in
    let (id, unique_id) = record_event-ids m read in
    ap (λ (b : StoreBatchEventRecord). map told_by_event b.event_results) (sym (ok-injective made))
    ∙ told_added batch line event id unique_id

batch_lines-told :
    (batch : StoreBatchEventRecord) (ls : List Str) {last : StoreBatchEventRecord}
    → batch_lines batch ls ≡ ok last
    → map told_by_event last.event_results
      ≡ map told_by_event batch.event_results ++ map told_by_line ls
unfolding batch_lines
batch_lines-told batch [] h =
    ap (λ (b : StoreBatchEventRecord). map told_by_event b.event_results) (sym (ok-injective h))
    ∙ sym (append-nil _)
batch_lines-told batch (l ∷ ls) h =
    let (next, first, rest) = >>=-eq-ok (batch_line batch l) _ h in
    batch_lines-told next ls rest
    ∙ ap (λ z. z ++ map told_by_line ls) (batch_line-told batch l first)
    ∙ append_assoc (map told_by_event batch.event_results) (told_by_line l ∷ [])
        (map told_by_line ls)

no_results : (o : Option ResponseFields) → (batch_of_response o).event_results ≡ []
no_results none = refl
no_results (some r) = refl

some-injective : {A : Type 0} {a b : A} → some a ≡ some b → a ≡ b
some-injective h = cc

counted_batch-keeps :
    (batch : StoreBatchEventRecord) → (counted_batch batch).event_results ≡ batch.event_results
counted_batch-keeps batch = ground arith

-- The record that is read from the payload of a reply to a batch of events has one result for each line
-- that is not blank, in their order, with the ids and the status of its line.
pub parse_store_batch_events_payload-results :
    (msg : Message) (payload : Str) {batch : StoreBatchEventRecord}
    → payload_text msg ≡ some payload
    → parse_store_batch_events_payload msg ≡ ok (some batch)
    → map told_by_event batch.event_results ≡ map told_by_line (records_of (lines_of payload))
unfolding parse_store_batch_events_payload
parse_store_batch_events_payload-results msg payload {batch} text h =
    let rs = records_of (lines_of payload) in
    let (last, read, made) =
      >>=-eq-ok (batch_lines (batch_of_response msg.response) rs) _
        (rw (text, parse_store_batch_events_payload) at h) in
    ap (λ (b : StoreBatchEventRecord). map told_by_event b.event_results)
      (sym (some-injective (ok-injective made)))
    ∙ ap (map told_by_event) (counted_batch-keeps last)
    ∙ batch_lines-told (batch_of_response msg.response) rs read
    ∙ ap (λ es. map told_by_event es ++ map told_by_line rs) (no_results msg.response)
