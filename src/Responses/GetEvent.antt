-- ===== src/Responses/GetEvent.antt =====
-- `parse_get_event_response` of pod_os_client/message/responses.py: the tags of the header, and the
-- links of the payload with their tags. `float` is a parameter.
pub mod Laws
use pod_os_py_client.Prelude.{
  String, Bool, true, false, List, [], ◌∷◌, ◌++◌, Option, none, some, if◌then◌else◌, map, ◌||◌,
  ◌&&◌, not,
}
use pod_os_py_client.Prelude.Int.{ℤ, ltb_ℤ}
use pod_os_py_client.Prelude.Text.{Str, codes, str_eq, truthy, or_else, starts_with, strip}
use pod_os_py_client.Prelude.Dict.{Dict, lookup, insert}
use pod_os_py_client.Message.Types.{Message, EventFields, Linked, TagOutput, PyFloat}
use pod_os_py_client.Message.Defaults.{empty_linked}
use pod_os_py_client.Message.TagFormat.{parse_event_tag_header}
use pod_os_py_client.Wire.Event.{first_of}
use pod_os_py_client.Responses.Line.{
  parse_tab_delimited_line, value_of, strip_nul, is_blank, lines_of,
}
use pod_os_py_client.Responses.Tags.{parse_get_event_link_tag_line, parse_get_event_target_tag_line}
use pod_os_py_client.Responses.Grouping.{push_to}
use pod_os_py_client.Responses.Search.{payload_text}
use pod_os_py_client.Responses.Search.Index.{strength_kept, add_tag}
use pod_os_py_client.Responses.Search.Assembly.{first_some, kept_if_set}

-- The fields of the header that carry a tag.
unfoldable pub header_tags : Dict Str → List TagOutput
header_tags [] = []
header_tags ((name, value) ∷ m) =
    let rest = header_tags m in
    elim (parse_event_tag_header name value) [ none ↦ rest | some tag ↦ tag ∷ rest ]

-- `results.sort(key=…)` is stable: a tag goes before the first one of a number that is not less.
unfoldable pub place_tag : TagOutput → List TagOutput → List TagOutput
place_tag t [] = t ∷ []
place_tag t (u ∷ us) = if ltb_ℤ u.tag_number t.tag_number then u ∷ place_tag t us else t ∷ u ∷ us

unfoldable pub sort_tags : List TagOutput → List TagOutput
sort_tags [] = []
sort_tags (t ∷ ts) = place_tag t (sort_tags ts)

unfoldable pub parse_event_tag_headers : Dict Str → List TagOutput
parse_event_tag_headers header_map = sort_tags (header_tags header_map)

-- `_get_event_link_map_key`.
unfoldable pub link_map_key : Linked → Str
link_map_key link =
    if truthy link.unique_id then codes "u:" ++ link.unique_id else codes "i:" ++ link.id

-- The ids of the event that the reply is about.
abbrev pub ids_of : Option EventFields → Str × Str
ids_of none = ([], [])
ids_of (some ev) = (ev.id, ev.unique_id)

-- What that event says of the source, and then the header.
abbrev pub source_of : Str × Str → Dict Str → Str × Str
source_of (id, unique_id) header_map = (
  or_else id (first_of header_map ("event_id" ∷ "_event_id" ∷ [])),
  or_else unique_id (first_of header_map ("_unique_id" ∷ "unique_id" ∷ [])),
)

-- The dicts that the loop over the lines fills.
pub record Rows : Type 0 where
  pub link_map : Dict Linked
  pub by_unique : Dict (List TagOutput)
  pub by_id : Dict (List TagOutput)
  pub target_tags : Dict (List TagOutput)

abbrev pub no_rows : Rows
no_rows = record { link_map = []; by_unique = []; by_id = []; target_tags = [] }

-- A tag of a link goes under the link's unique id if it names one.
abbrev pub add_link_tag : Option (Str × Str × TagOutput) → Rows → Rows
add_link_tag none rows = rows
add_link_tag (some (link_id, unique_id, tag)) rows =
    if truthy unique_id
    then record rows { by_unique = push_to unique_id tag rows.by_unique }
    else if truthy link_id
    then record rows { by_id = push_to link_id tag rows.by_id }
    else rows

-- `line.startswith(name + "\t") or line == name`.
abbrev is_row : String → Str → Bool
is_row name line = starts_with line (codes name ++ 9 ∷ []) || str_eq line (codes name)

abbrev pub values {ℓ} : {V : Type ℓ} → Dict V → List V
values [] = []
values ((k, v) ∷ m) = v ∷ values m

module _ (read_float : Str → Option PyFloat) (header_map : Dict Str)
    (request : Option EventFields) where
  -- `_parse_get_event_link_line`.
  unfoldable pub parse_get_event_link_line : Str → Option Linked
  parse_get_event_link_line line =
      let m = parse_tab_delimited_line line in
      let id = value_of m "_link" in
      let (source_id, source_unique_id) = source_of (ids_of request) header_map in
      if truthy id
      then some (record empty_linked {
        id = id;
        target_id = value_of m "target_event";
        target_unique_id = value_of m "target_unique_id";
        unique_id = value_of m "unique_id";
        strength = strength_kept read_float (lookup (codes "strength") m) empty_linked.strength;
        category = value_of m "category";
        source_id = source_id;
        source_unique_id = source_unique_id;
      })
      else none

  unfoldable pub add_link_line : Str → Rows → Rows
  add_link_line line rows = elim (parse_get_event_link_line line) [
    | none ↦ rows
    | some link ↦ record rows { link_map = insert (link_map_key link) link rows.link_map }
  ]

  -- A line that starts with no name of a record may still have a field `_link`, which is what
  -- `_parse_get_event_link_line` looks for: without one it adds nothing.
  unfoldable pub add_row : Str → Rows → Rows
  add_row line rows =
      if starts_with line (codes "_link=")
      then add_link_line line rows
      else if is_row "_linktag" line
      then add_link_tag (parse_get_event_link_tag_line line) rows
      else if is_row "_target_event_tag" line
      then record rows {
        target_tags = add_tag (parse_get_event_target_tag_line line) rows.target_tags;
      }
      else if truthy (value_of (parse_tab_delimited_line line) "_link")
      then add_link_line line rows
      else rows

  unfoldable pub read_rows : Rows → List Str → Rows
  read_rows rows [] = rows
  read_rows rows (l ∷ ls) =
      let line = strip (strip_nul l) in
      read_rows (if is_blank line then rows else add_row line rows) ls

  -- A link with its tags, and its source where the line and the header gave none.
  unfoldable pub consolidate : Rows → Linked → Linked
  consolidate rows link =
      let tags =
        if truthy link.unique_id
        then first_some (lookup link.unique_id rows.by_unique) none link.tags
        else first_some (lookup link.id rows.by_id) none link.tags in
      let (id, unique_id) = ids_of request in
      record link {
        tags = tags;
        target_tags =
            if truthy link.target_id
            then first_some (lookup link.target_id rows.target_tags) none link.target_tags
            else link.target_tags;
        source_unique_id = kept_if_set link.source_unique_id unique_id;
        source_id = kept_if_set link.source_id id;
      }

  unfoldable pub links_of_payload : Str → List Linked
  links_of_payload payload =
      let rows = read_rows no_rows (lines_of payload) in
      map (consolidate rows) (values rows.link_map)

-- The tags and the links of a reply; `none` is that there is no response to fill.
unfoldable pub parse_get_event_response :
    (Str → Option PyFloat) → Message → Dict Str → Option (List TagOutput × List Linked)
parse_get_event_response read_float msg header_map = elim msg.response [
  | none ↦ none
  | some response ↦ some (
    parse_event_tag_headers header_map,
    elim (payload_text msg) [
      | none ↦ []
      | some payload ↦ links_of_payload read_float header_map msg.event payload
    ],
  )
]
