-- ===== src/Responses/Fields.antt =====
-- `_decode_event_fields` and `_decode_link_event_fields` of pod_os_client/message/responses.py.
use pod_os_py_client.Prelude.{List, [], ◌∷◌, none, some, Result, err, ok, ◌>>=◌}
use pod_os_py_client.Prelude.Text.{Str, codes, join}
use pod_os_py_client.Prelude.Dict.{Dict}
use pod_os_py_client.Message.Types.{EventFields, LinkFields, DateTimeObject}
use pod_os_py_client.Message.Defaults.{empty_event, empty_link}
use pod_os_py_client.Wire.Event.{first_of, int_of, DatePart, date_parts, zero_date, coordinates}
use pod_os_py_client.Responses.Line.{RecordFailure, bad_number}

-- The components of the date. Unlike in the header, one that is no number ends the parser.
unfoldable pub date_of_parts :
    Dict Str → List DatePart → DateTimeObject → Result RecordFailure DateTimeObject
date_of_parts m [] d = ok d
date_of_parts m (p ∷ ps) d = elim (int_of m p.key p.other_key) [
  | none ↦ err bad_number
  | some n ↦ date_of_parts m ps (p.put n d)
]

unfoldable pub event_with_date : Dict Str → DateTimeObject → EventFields
event_with_date m date = record empty_event {
  id = first_of m ("_event_id" ∷ "event_id" ∷ []);
  local_id = first_of m ("local_id" ∷ "_event_local_id" ∷ []);
  unique_id = first_of m ("unique_id" ∷ "_unique_id" ∷ "tag:1:_unique_id" ∷ []);
  type = first_of m ("event_type" ∷ "_type" ∷ "type" ∷ []);
  owner = first_of m ("_owner_id" ∷ "owner" ∷ "_event_owner" ∷ []);
  timestamp = first_of m ("timestamp" ∷ "_timestamp" ∷ []);
  date_time = some date;
  location = join (codes "|") (coordinates m 9 1);
  location_separator = codes "|";
}

unfoldable pub record_event : Dict Str → Result RecordFailure EventFields
record_event m = do date ← date_of_parts m date_parts zero_date; ok (event_with_date m date)

unfoldable pub link_with_date : Dict Str → DateTimeObject → LinkFields
link_with_date m date = record empty_link {
  id = first_of m ("_event_id" ∷ "event_id" ∷ []);
  local_id = first_of m ("local_id" ∷ "_event_local_id" ∷ []);
  unique_id = first_of m ("unique_id" ∷ "_unique_id" ∷ []);
  type = first_of m ("event_type" ∷ "_type" ∷ []);
  owner = first_of m ("_user" ∷ "_owner_id" ∷ []);
  timestamp = first_of m ("timestamp" ∷ "_timestamp" ∷ []);
  date_time = some date;
  location = join (codes "|") (coordinates m 9 1);
  location_separator = codes "|";
}

unfoldable pub decode_link_event_fields : Dict Str → Result RecordFailure LinkFields
decode_link_event_fields m = do
  date ← date_of_parts m date_parts zero_date
  ok (link_with_date m date)
