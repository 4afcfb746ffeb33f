-- ===== src/Responses/Tags.antt =====
-- The tags of records: the lines and parts that carry one, in pod_os_client/message/responses.py.
use pod_os_py_client.Prelude.{
  String, Bool, List, [], ◌∷◌, ◌++◌, Option, none, some, ◌||◌, ◌&&◌, not, if◌then◌else◌,
}
use pod_os_py_client.Prelude.Int.{pos}
use pod_os_py_client.Prelude.Text.{Str, codes, str_eq, truthy, split, cut_at, strip, starts_with}
use pod_os_py_client.Prelude.Dict.{Dict, lookup, has_key}
use pod_os_py_client.Message.Types.{TagOutput}
use pod_os_py_client.Message.Defaults.{empty_tag_output}
use pod_os_py_client.Message.TagFormat.{split_tag_key_value, normalize_tag_owner, int_or}
use pod_os_py_client.Responses.Line.{parse_tab_delimited_line, value_of, int_kept, lines_of}

-- A key and a value that stand in one text. Nothing before `=` is no key.
abbrev pub with_pair : Str × Str → TagOutput → TagOutput
with_pair (key, value) tag = record tag { key = key; value = value }

-- The pair that stands under a key of a record.
abbrev pub pair_kept : Option Str → TagOutput → TagOutput
pair_kept none tag = tag
pair_kept (some text) tag = with_pair (split_tag_key_value text) tag

-- One line of `parse_tags_from_payload`: frequency, category and value, or no category.
unfoldable pub tag_of_parts : List Str → Option TagOutput
tag_of_parts [] = none
tag_of_parts (f ∷ []) = none
tag_of_parts (f ∷ v ∷ []) =
    some (record empty_tag_output { frequency = int_or (strip f) (pos 1); value = strip v })
tag_of_parts (f ∷ c ∷ v ∷ rest) = some (record empty_tag_output {
  frequency = int_or (strip f) (pos 1);
  category = strip c;
  value = strip v;
})

unfoldable pub tags_of_lines : List Str → List TagOutput
tags_of_lines [] = []
tags_of_lines (l ∷ ls) =
    let rest = tags_of_lines ls in
    let line = strip l in
    if truthy line
    then elim (tag_of_parts (split 9 line)) [ none ↦ rest | some tag ↦ tag ∷ rest ]
    else rest

unfoldable pub parse_tags_from_payload : Str → List TagOutput
parse_tags_from_payload payload = tags_of_lines (lines_of payload)

-- The tag of a `_linktag`, `_targettag` or `_target_event_tag` line: its frequency and its pair.
unfoldable pub tag_of_record : Dict Str → TagOutput
tag_of_record m =
    pair_kept (lookup (codes "value") m)
      (record empty_tag_output { frequency = int_kept m "freq" empty_tag_output.frequency })

-- A line's id under a key, with its tag; `none` is the id "" with the tag None.
unfoldable pub keyed_tag : String → Str → Option (Str × TagOutput)
keyed_tag key line =
    let m = parse_tab_delimited_line line in
    let id = value_of m key in if truthy id then some (id, tag_of_record m) else none

unfoldable pub parse_link_tag_line : Str → Option (Str × TagOutput)
parse_link_tag_line line = keyed_tag "_linktag" line

unfoldable pub parse_target_tag_line : Str → Option (Str × TagOutput)
parse_target_tag_line line = keyed_tag "_targettag" line

unfoldable pub parse_get_event_target_tag_line : Str → Option (Str × TagOutput)
parse_get_event_target_tag_line line = keyed_tag "event_id" line

-- The ids of the link event and of the link, with the tag.
unfoldable pub parse_get_event_link_tag_line : Str → Option (Str × Str × TagOutput)
parse_get_event_link_tag_line line =
    let m = parse_tab_delimited_line line in
    let link_id = value_of m "event_id" in
    let unique_id = value_of m "unique" in
    if not (truthy link_id) && not (truthy unique_id)
    then none
    else some (link_id, unique_id, tag_of_record m)

-- `_parse_event_tag_payload_field`: a tag with its time and its owner.
unfoldable pub tag_of_payload_field : Dict Str → TagOutput
tag_of_payload_field m =
    let valued =
      pair_kept (lookup (codes "tag_value") m) (record empty_tag_output {
        frequency = int_kept m "tag_freq" empty_tag_output.frequency;
      }) in
    record valued {
      timestamp = value_of m "tag_timestamp";
      owner = normalize_tag_owner (value_of m "owner");
    }

unfoldable pub parse_event_tag_line : Str → Option (Str × TagOutput)
parse_event_tag_line line =
    let m = parse_tab_delimited_line line in
    let event_key = value_of m "_event_tag" in
    if truthy event_key then some (event_key, tag_of_payload_field m) else none

-- A part `tag:freq:key=value` of an event's line.
unfoldable pub inline_tag : List Str → Str → Option TagOutput
inline_tag (t ∷ f ∷ key ∷ []) value =
    some (record empty_tag_output { frequency = int_or f (pos 1); key = key; value = value })
inline_tag _ value = none

unfoldable pub inline_tag_of_part : Str → Option TagOutput
inline_tag_of_part part = elim (cut_at b'=' part) [
  | none ↦ none
  | some (name, value) ↦
      if starts_with name (codes "tag:") then inline_tag (split b':' name) value else none
]

unfoldable pub inline_tags : List Str → List TagOutput
inline_tags [] = []
inline_tags (p ∷ ps) =
    let rest = inline_tags ps in elim (inline_tag_of_part p) [ none ↦ rest | some tag ↦ tag ∷ rest ]

-- `_unique_id_from_tags`: the value of the first tag that names an id.
unfoldable pub names_unique_id : TagOutput → Bool
names_unique_id tag = str_eq tag.key (codes "_unique_id") || str_eq tag.key (codes "unique_id")

unfoldable pub unique_id_from_tags : List TagOutput → Str
unique_id_from_tags [] = []
unique_id_from_tags (t ∷ ts) =
    let rest = unique_id_from_tags ts in if names_unique_id t then t.value else rest

-- The tags of an event's line: those of its parts, and one of the extended format.
unfoldable pub tags_of_event_line : Str → List TagOutput
tags_of_event_line line =
    let m = parse_tab_delimited_line line in
    inline_tags (split 9 line)
    ++ (if has_key (codes "_event_tag") m then tag_of_payload_field m ∷ [] else [])
