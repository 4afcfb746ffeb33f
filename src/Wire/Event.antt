-- ===== src/Wire/Event.antt =====
-- `_decode_event_fields_from_header` of pod_os_client/message/decoder.py.
pub mod Keys
pub mod Laws
use pod_os_py_client.Prelude.{
  ℕ, suc, ◌+◌, String, true, false, List, [], ◌∷◌, ◌++◌, Option, none, some, if◌then◌else◌,
}
use pod_os_py_client.Prelude.Int.{ℤ, pos}
use pod_os_py_client.Prelude.Text.{Str, codes, or_else, truthy, join}
use pod_os_py_client.Prelude.Dict.{Dict}
use pod_os_py_client.Message.Types.{EventFields, DateTimeObject}
use pod_os_py_client.Message.Defaults.{empty_event}
use pod_os_py_client.Wire.Integer.{parse_int, digits}
use pod_os_py_client.Wire.Envelope.{header_value}

-- `header_map.get(a) or header_map.get(b) or … or ""`.
abbrev pub first_of : Dict Str → List String → Str
first_of m [] = []
first_of m (k ∷ ks) = or_else (header_value m (codes k)) (first_of m ks)

-- `int(header_map.get(a) or header_map.get(b) or 0)`; `none` is a ValueError.
unfoldable pub int_of : Dict Str → String → String → Option ℤ
int_of m a b =
    let text = first_of m (a ∷ b ∷ []) in if truthy text then parse_int 10 text else some (pos 0)

abbrev pub zero_date : DateTimeObject
zero_date = record {
  year = pos 0;
  month = pos 0;
  day = pos 0;
  hour = pos 0;
  minute = pos 0;
  second = pos 0;
  microsecond = pos 0;
}

-- One component of the date, by its two keys, and how it is set.
pub record DatePart : Type 0 where
  pub key : String
  pub other_key : String
  pub put : ℤ → DateTimeObject → DateTimeObject

abbrev pub date_parts : List DatePart
date_parts =
    record { key = "event_year"; other_key = "_event_year"; put = λ n d. record d { year = n } }
    ∷ record { key = "event_mon"; other_key = "_event_month"; put = λ n d. record d { month = n } }
    ∷ record { key = "event_day"; other_key = "_event_day"; put = λ n d. record d { day = n } }
    ∷ record { key = "event_hour"; other_key = "_event_hour"; put = λ n d. record d { hour = n } }
    ∷ record { key = "event_min"; other_key = "_event_min"; put = λ n d. record d { minute = n } }
    ∷ record { key = "event_sec"; other_key = "_event_sec"; put = λ n d. record d { second = n } }
    ∷ record {
      key = "event_usec";
      other_key = "_event_usec";
      put = λ n d. record d { microsecond = n };
    }
    ∷ []

-- The first component that is no number ends the reading: what was set before stays.
unfoldable pub read_date : Dict Str → List DatePart → DateTimeObject → DateTimeObject
read_date m [] d = d
read_date m (p ∷ ps) d = elim (int_of m p.key p.other_key) [
  | none ↦ d
  | some n ↦ read_date m ps (p.put n d)
]

-- The coordinates from the `i`-th on, `left` of them, that are not empty.
unfoldable pub coordinates : Dict Str → ℕ → ℕ → List Str
coordinates m ℕ.zero i = []
coordinates m (suc left) i =
    let rest = coordinates m left (suc i) in
    let name = codes "coordinate_0" ++ digits 10 i in
    let coord = or_else (header_value m (b'_' ∷ name)) (header_value m name) in
    if truthy coord then coord ∷ rest else rest

abbrev pub with_location : List Str → EventFields → EventFields
with_location [] event = event
with_location (c ∷ cs) event = record event {
  location = join (codes "|") (c ∷ cs);
  location_separator = codes "|";
}

unfoldable pub decode_event_fields : Dict Str → EventFields
decode_event_fields m = with_location (coordinates m 9 1) (record empty_event {
  id = first_of m ("_event_id" ∷ "event_id" ∷ []);
  local_id = first_of m ("local_id" ∷ "_event_local_id" ∷ []);
  unique_id = first_of m ("unique_id" ∷ "_unique_id" ∷ []);
  type = first_of m ("event_type" ∷ "_type" ∷ "type" ∷ []);
  owner = first_of m ("_owner_id" ∷ "owner" ∷ "_event_owner" ∷ []);
  timestamp = first_of m ("timestamp" ∷ "_timestamp" ∷ []);
  date_time = some (read_date m date_parts zero_date);
})
