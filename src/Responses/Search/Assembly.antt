-- ===== src/Responses/Search/Assembly.antt =====
-- The assembly of `parse_get_events_for_tags_payload`. Events and links are objects that several
-- places share, so the loop changes them in their dicts and the records are read from these at the end.
pub mod Ids
pub mod Laws
use pod_os_py_client.Prelude.{
  true, false, List, [], ◌∷◌, ◌++◌, Option, none, some, Result, ok, ◌>>=◌, if◌then◌else◌, not, ◌&&◌,
}
use pod_os_py_client.Prelude.Text.{Str, truthy}
use pod_os_py_client.Prelude.Dict.{Dict, lookup, insert}
use pod_os_py_client.Message.Types.{EventFields, Linked, TagOutput, PyFloat}
use pod_os_py_client.Responses.Line.{RecordFailure}
use pod_os_py_client.Responses.Tags.{unique_id_from_tags}
use pod_os_py_client.Responses.Grouping.{group}
use pod_os_py_client.Responses.Search.Index.{Index, empty_index, index_lines}

-- The tags of the event's own lines behind those of its record, and the unique id that they name.
abbrev pub add_tags : Option (List TagOutput) → EventFields → EventFields
add_tags none event = event
add_tags (some more) event =
    let tags = event.tags ++ more in
    record event {
      tags = tags;
      unique_id = if truthy event.unique_id then event.unique_id else unique_id_from_tags tags;
    }

abbrev pub first_some {ℓ} : {A : Type ℓ} → Option A → Option A → A → A
first_some (some a) o old = a
first_some none (some b) old = b
first_some none none old = old

abbrev pub kept_if_set : Str → Str → Str
kept_if_set old new = if truthy old then old else if truthy new then new else old

-- A link of an event: its tags, those of its target, and its source.
unfoldable pub fill_link : Index → EventFields → Str → Linked → Linked
fill_link ix event key link = record link {
  tags = first_some (lookup link.id ix.link_tags) (lookup key ix.link_tags) link.tags;
  target_tags =
      if truthy link.target_id
      then first_some (lookup link.target_id ix.target_tags) none link.target_tags
      else link.target_tags;
  source_unique_id = kept_if_set link.source_unique_id event.unique_id;
  source_id = kept_if_set link.source_id event.id;
}

-- One round of the inner loop, on the link objects.
abbrev pub fill_row : Index → EventFields → Str → Dict Linked → Dict Linked
fill_row ix event key links = elim (lookup key links) [
  | none ↦ links
  | some link ↦ insert key (fill_link ix event key link) links
]

unfoldable pub fill_rows : Index → EventFields → List Str → Dict Linked → Dict Linked
fill_rows ix event [] links = links
fill_rows ix event (k ∷ ks) links = fill_rows ix event ks (fill_row ix event k links)

pub record Objects : Type 0 where
  pub events : Dict EventFields
  pub links : Dict Linked

-- One round of the outer loop.
unfoldable pub assemble_event : Index → Str → Objects → Objects
assemble_event ix id objects = elim (lookup id objects.events) [
  | none ↦ objects
  | some event ↦
      let tagged = add_tags (lookup id ix.event_tags) event in
      record {
        events = insert id tagged objects.events;
        links = fill_rows ix tagged (group id ix.by_source) objects.links;
      }
]

unfoldable pub assemble_events : Index → List Str → Objects → Objects
assemble_events ix [] objects = objects
assemble_events ix (id ∷ ids) objects = assemble_events ix ids (assemble_event ix id objects)

-- The objects under some keys.
unfoldable pub pick {ℓ} : {A : Type ℓ} → Dict A → List Str → List A
pick m [] = []
pick m (k ∷ ks) = elim (lookup k m) [ none ↦ pick m ks | some a ↦ a ∷ pick m ks ]

-- The records: each event with the links that were indexed under its id.
unfoldable pub event_records : Index → Objects → List Str → List EventFields
event_records ix objects [] = []
event_records ix objects (id ∷ ids) =
    let rest = event_records ix objects ids in
    elim (lookup id objects.events) [
      | none ↦ rest
      | some event ↦ record event { links = pick objects.links (group id ix.by_source) } ∷ rest
    ]

unfoldable pub assemble_index : Index → List EventFields
assemble_index ix =
    event_records ix (assemble_events ix ix.order (record { events = ix.events; links = ix.links }))
      ix.order

-- The records of lines that hold no brief hits. `float` is a parameter.
unfoldable pub records_of_lines :
    (Str → Option PyFloat) → List Str → Result RecordFailure (List EventFields)
records_of_lines read_float lines = do
  index ← index_lines read_float empty_index lines
  ok (assemble_index index)
