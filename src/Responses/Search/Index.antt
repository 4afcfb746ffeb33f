-- ===== src/Responses/Search/Index.antt =====
-- The single pass of `parse_get_events_for_tags_payload`: what each line adds to the index.
pub mod Kinds
pub mod Laws
pub mod Newest
use pod_os_py_client.Prelude.{
  Bool, true, false, List, [], ◌∷◌, ◌++◌, Option, none, some, Result, err, ok, ◌>>=◌, if◌then◌else◌,
}
use pod_os_py_client.Prelude.Int.{ℤ, pos}
use pod_os_py_client.Prelude.Text.{Str, codes, truthy, starts_with}
use pod_os_py_client.Prelude.Dict.{Dict, lookup, insert, has_key}
use pod_os_py_client.Message.Types.{EventFields, EventPayload, Linked, TagOutput, PyFloat}
use pod_os_py_client.Message.Defaults.{empty_linked}
use pod_os_py_client.Wire.Integer.{parse_int}
use pod_os_py_client.Responses.Line.{RecordFailure, missing_key, parse_tab_delimited_line, value_of}
use pod_os_py_client.Responses.Fields.{record_event}
use pod_os_py_client.Responses.Tags.{
  tags_of_event_line, unique_id_from_tags, parse_event_tag_line, parse_link_tag_line,
  parse_target_tag_line,
}
use pod_os_py_client.Responses.Grouping.{push_to}

abbrev pub payload_or_new : Option EventPayload → EventPayload
payload_or_new none = record { mime_type = []; data_size = pos 0 }
payload_or_new (some p) = p

-- The size is read under `_datasize` where there is a field `datasize`.
unfoldable pub with_data_size : Dict Str → EventFields → Result RecordFailure EventFields
with_data_size m event = elim (has_key (codes "datasize") m) [
  | false ↦ ok event
  | true ↦ elim (lookup (codes "_datasize") m) [
    | none ↦ err (missing_key (codes "_datasize"))
    | some text ↦ elim (parse_int 10 text) [
      | none ↦ ok event
      | some n ↦ ok (record event {
        payload_data = some (record (payload_or_new event.payload_data) { data_size = n });
      })
    ]
  ]
]

unfoldable pub with_mime_type : Dict Str → EventFields → EventFields
with_mime_type m event = elim (lookup (codes "_mimetype") m) [
  | none ↦ event
  | some text ↦ record event {
    payload_data = some (record (payload_or_new event.payload_data) { mime_type = text });
  }
]

-- The tags of the line, and the unique id that they name.
unfoldable pub with_line_tags : Str → EventFields → EventFields
with_line_tags line event =
    let tags = event.tags ++ tags_of_event_line line in
    let unique_id = unique_id_from_tags tags in
    record event {
      tags = tags;
      unique_id = if truthy unique_id then unique_id else event.unique_id;
    }

-- `none` is the id "" with the event None.
unfoldable pub parse_event_id_line : Str → Result RecordFailure (Option (Str × EventFields))
parse_event_id_line line =
    let m = parse_tab_delimited_line line in
    let id = value_of m "_event_id" in
    elim (truthy id) [
      | false ↦ ok none
      | true ↦ do
        event ← record_event m
        sized ← with_data_size m event
        ok (some (id, with_line_tags line (with_mime_type m sized)))
    ]

-- `try: link.strength = float(text)`, where the text is there.
abbrev pub strength_kept : (Str → Option PyFloat) → Option Str → PyFloat → PyFloat
strength_kept read_float none old = old
strength_kept read_float (some text) old = elim (read_float text) [ none ↦ old | some f ↦ f ]

unfoldable pub linked_of_record : (Str → Option PyFloat) → Str → Dict Str → Linked
linked_of_record read_float id m = record empty_linked {
  id = id;
  source_id = value_of m "source";
  target_id = value_of m "target";
  unique_id = value_of m "unique_id";
  source_unique_id = value_of m "source_unique_id";
  target_unique_id = value_of m "target_unique_id";
  strength = strength_kept read_float (lookup (codes "strength") m) empty_linked.strength;
  category = value_of m "category";
}

unfoldable pub parse_link_line : (Str → Option PyFloat) → Str → Option (Str × Linked)
parse_link_line read_float line =
    let m = parse_tab_delimited_line line in
    let id = value_of m "_link" in
    if truthy id then some (id, linked_of_record read_float id m) else none

-- The dicts that the pass fills.
pub record Index : Type 0 where
  pub events : Dict EventFields
  pub order : List Str
  pub links : Dict Linked
  pub by_source : Dict (List Str)
  pub link_tags : Dict (List TagOutput)
  pub target_tags : Dict (List TagOutput)
  pub event_tags : Dict (List TagOutput)

abbrev pub empty_index : Index
empty_index = record {
  events = [];
  order = [];
  links = [];
  by_source = [];
  link_tags = [];
  target_tags = [];
  event_tags = [];
}

-- The key of a link's row: its unique id, or the id of its event.
unfoldable pub row_key : Str → Linked → Str
row_key id link = if truthy link.unique_id then codes "u:" ++ link.unique_id else id

abbrev pub add_event : Option (Str × EventFields) → Index → Index
add_event none ix = ix
add_event (some (id, event)) ix = record ix {
  events = insert id event ix.events;
  order = ix.order ++ id ∷ [];
}

abbrev pub add_link : Option (Str × Linked) → Index → Index
add_link none ix = ix
add_link (some (id, link)) ix = record ix {
  links = insert (row_key id link) link ix.links;
  by_source =
      if truthy link.source_id
      then push_to link.source_id (row_key id link) ix.by_source
      else ix.by_source;
}

abbrev pub add_tag : Option (Str × TagOutput) → Dict (List TagOutput) → Dict (List TagOutput)
add_tag none m = m
add_tag (some (id, tag)) m = push_to id tag m

-- The kinds of lines, by their start.
pub data Kind : Type 0 where
  event_line event_tag_line link_line link_tag_line target_tag_line other_line : Kind

unfoldable pub kind_of : Str → Kind
kind_of line =
    if starts_with line (codes "_event_id=")
    then event_line
    else if starts_with line (codes "_event_tag=")
    then event_tag_line
    else if starts_with line (codes "_link=")
    then link_line
    else if starts_with line (codes "_linktag=")
    then link_tag_line
    else if starts_with line (codes "_targettag=")
    then target_tag_line
    else other_line

module _ (read_float : Str → Option PyFloat) where
  -- What a line of a kind adds.
  unfoldable pub add_line : Kind → Str → Index → Result RecordFailure Index
  add_line event_line line ix = do found ← parse_event_id_line line; ok (add_event found ix)
  add_line event_tag_line line ix =
      ok (record ix { event_tags = add_tag (parse_event_tag_line line) ix.event_tags })
  add_line link_line line ix = ok (add_link (parse_link_line read_float line) ix)
  add_line link_tag_line line ix =
      ok (record ix { link_tags = add_tag (parse_link_tag_line line) ix.link_tags })
  add_line target_tag_line line ix =
      ok (record ix { target_tags = add_tag (parse_target_tag_line line) ix.target_tags })
  add_line other_line line ix = ok ix

  unfoldable pub index_lines : Index → List Str → Result RecordFailure Index
  index_lines ix [] = ok ix
  index_lines ix (l ∷ ls) = do next ← add_line (kind_of l) l ix; index_lines next ls
