-- ===== src/Responses/Search.antt =====
-- `parse_get_events_for_tags_payload` of pod_os_client/message/responses.py: one pass over the lines
-- makes an index, and the records are assembled from the index. `float` is a parameter.
pub mod Index
pub mod Assembly
pub mod Owners
use pod_os_py_client.Prelude.{
  Bool, true, false, List, [], ◌∷◌, ◌++◌, Option, none, some, Result, err, ok, ◌>>=◌, if◌then◌else◌,
}
use pod_os_py_client.Prelude.Int.{pos}
use pod_os_py_client.Prelude.Text.{Str, codes, truthy, starts_with}
use pod_os_py_client.Message.Types.{
  Message, EventFields, ResponseFields, BriefHitRecord, PayloadFields, PyFloat, no_content,
  text_content, bytes_content, list_content, other_content,
}
use pod_os_py_client.Responses.Line.{
  RecordFailure, parse_tab_delimited_line, value_of, int_kept, lines_of, records_of,
}
use pod_os_py_client.Responses.Search.Index.{index_lines}
use pod_os_py_client.Responses.Search.Assembly.{records_of_lines}
use pod_os_py_client.Responses.Search.Owners.{normalize_tag_owner_lines}

-- The payload of a message, if it is a text.
unfoldable pub payload_text : Message → Option Str
payload_text msg = elim msg.payload [
  | none ↦ none
  | some p ↦ elim p.content [ text_content s ↦ some s | _ ↦ none ]
]

abbrev brief_line : Str → Bool
brief_line line = starts_with line (codes "_brief_hit=")

-- The first record tells whether the reply holds brief hits.
unfoldable pub is_brief_hits_response : List Str → Bool
is_brief_hits_response [] = false
is_brief_hits_response (r ∷ rs) = brief_line r

-- `_parse_brief_hit_line`: a line without an id gives nothing.
unfoldable pub parse_brief_hit_line : Str → Option BriefHitRecord
parse_brief_hit_line line =
    let m = parse_tab_delimited_line line in
    let id = value_of m "_brief_hit" in
    if truthy id
    then some (record { event_id = id; total_hits = int_kept m "_hits" (pos 0) })
    else none

unfoldable pub brief_hits_of : List Str → List BriefHitRecord
brief_hits_of [] = []
brief_hits_of (r ∷ rs) =
    let rest = brief_hits_of rs in
    if brief_line r
    then elim (parse_brief_hit_line r) [ none ↦ rest | some hit ↦ hit ∷ rest ]
    else rest

-- The reply with brief hits needs a response to put them in.
abbrev pub with_brief_hits :
    Message → List Str → Option ResponseFields → Message × List EventFields × Bool
with_brief_hits msg rs none = (msg, [], false)
with_brief_hits msg rs (some response) = (
  record msg {
    response = some (record response { brief_hits = response.brief_hits ++ brief_hits_of rs });
  },
  [],
  true,
)

module _ (read_float : Str → Option PyFloat) where
  -- What the records are, by whether they are brief hits.
  abbrev pub read_found :
      Message → List Str → Bool → Result RecordFailure (Message × List EventFields × Bool)
  read_found msg rs true = ok (with_brief_hits msg rs msg.response)
  read_found msg rs false = do events ← records_of_lines read_float rs; ok (msg, events, true)

  abbrev pub read_found_text :
      Message → Option Str → Result RecordFailure (Message × List EventFields × Bool)
  read_found_text msg none = ok (msg, [], false)
  read_found_text msg (some payload) =
      let rs = records_of (lines_of (normalize_tag_owner_lines payload)) in
      read_found msg rs (is_brief_hits_response rs)

  -- The message with its brief hits, the records, and whether the payload was one.
  unfoldable pub parse_get_events_for_tags_payload :
      Message → Result RecordFailure (Message × List EventFields × Bool)
  parse_get_events_for_tags_payload msg = read_found_text msg (payload_text msg)
