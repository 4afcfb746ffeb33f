-- ===== src/Responses/Search/Assembly/Ids.antt =====
-- No event is lost: the index has one for each id, and the assembly keeps it and its id.
use pod_os_py_client.Prelude.{
  true, List, [], ◌∷◌, map, Option, none, some, ok, ◌>>=◌, >>=-eq-ok, ok-injective, ◌≡◌, refl, ◌∙◌,
  arith, All, All-append, Bool-cases, inl, inr,
}
use pod_os_py_client.Prelude.Text.{Str, truthy, str_eq, str_eq_iff}
use pod_os_py_client.Prelude.Dict.{Dict, lookup, insert, lookup-insert}
use pod_os_py_client.Message.Types.{EventFields, Linked, PyFloat, TagOutput}
use pod_os_py_client.Wire.Event.{date_parts, zero_date}
use pod_os_py_client.Responses.Line.{parse_tab_delimited_line, value_of}
use pod_os_py_client.Responses.Fields.{record_event, event_with_date, date_of_parts}
use pod_os_py_client.Responses.Search.Index.{
  Index, Kind, event_line, event_tag_line, link_line, link_tag_line, target_tag_line, other_line,
  kind_of, add_line, add_event, add_link, index_lines, parse_event_id_line, with_data_size,
  with_mime_type, with_line_tags, parse_link_line,
}
use pod_os_py_client.Responses.Search.Assembly.{
  add_tags, Objects, assemble_event, assemble_events, event_records, assemble_index,
}

-- An event with this id stands under it.
abbrev pub Has : Dict EventFields → Str → Type 0
Has m id = (event : EventFields) × (lookup id m ≡ some event) × (event.id ≡ id)

insert-Has :
    (m : Dict EventFields) (k : Str) (new : EventFields)
    → new.id ≡ k
    → (j : Str) → Has m j
    → Has (insert k new m) j
insert-Has m k new named j (event, found, same) = elim (Bool-cases (str_eq k j)) [
  | inl hit ↦
      (new, ground (arith, lookup-insert k j new m, hit), ground (arith, str_eq_iff k j, named))
  | inr miss ↦ (event, ground (arith, lookup-insert k j new m, miss), same)
]

inserted-Has :
    (m : Dict EventFields) (k : Str) (new : EventFields) → new.id ≡ k → Has (insert k new m) k
inserted-Has m k new named = (new, ground (arith, lookup-insert k k new m, str_eq_iff k k), named)

pub All-map : {P Q : Str → Type 0} (f : (s : Str) → P s → Q s) (xs : List Str) → All P xs → All Q xs
All-map f [] h = tt
All-map f (x ∷ xs) (h, hs) = (f x h, All-map f xs hs)

-- An event's line gives an event with the line's id.
record_event-id :
    (m : Dict Str) {event : EventFields}
    → truthy (value_of m "_event_id") ≡ true
    → record_event m ≡ ok event
    → event.id ≡ value_of m "_event_id"
unfolding record_event event_with_date
record_event-id m h e =
    let (date, _, made) = >>=-eq-ok (date_of_parts m date_parts zero_date) _ e in
    ground (arith, h, made)

with_data_size-id :
    (m : Dict Str) (event : EventFields) {sized : EventFields}
    → with_data_size m event ≡ ok sized
    → sized.id ≡ event.id
unfolding with_data_size
with_data_size-id m event e = ground (arith, e)

with_tags-id :
    (m : Dict Str) (line : Str) (event : EventFields)
    → (with_line_tags line (with_mime_type m event)).id ≡ event.id
unfolding with_line_tags with_mime_type
with_tags-id m line event = ground arith

abbrev IsNamed : Option (Str × EventFields) → Type 0
IsNamed none = Unit
IsNamed (some (id, event)) = event.id ≡ id

parse_event_id_line-IsNamed :
    (line : Str) {found : Option (Str × EventFields)}
    → parse_event_id_line line ≡ ok found
    → IsNamed found
unfolding parse_event_id_line
parse_event_id_line-IsNamed line {found} h =
    elim (Bool-cases (truthy (value_of (parse_tab_delimited_line line) "_event_id"))) [
      | inl there ↦ named there (rw (there, parse_event_id_line) at h)
      | inr missing ↦ rw (← ok-injective (rw (missing, parse_event_id_line) at h)) tt
    ]
  where
    m : Dict Str
    m = parse_tab_delimited_line line

    named :
        truthy (value_of m "_event_id") ≡ true
        → (record_event m >>= λ event. with_data_size m event >>= λ sized.
            ok (some (value_of m "_event_id", with_line_tags line (with_mime_type m sized))))
          ≡ ok found
        → IsNamed found
    named there e =
        let (event, read, f) = >>=-eq-ok (record_event m) _ e in
        let (sized, measured, g) = >>=-eq-ok (with_data_size m event) _ f in
        rw (← ok-injective g) (
          with_tags-id m line sized
          ∙ with_data_size-id m event measured
          ∙ record_event-id m there read)

-- What the index holds of events, and what becomes of it.
abbrev pub Holds : Index → Type 0
Holds ix = All (Has ix.events) ix.order

add_event-Holds :
    (found : Option (Str × EventFields)) (ix : Index)
    → IsNamed found
    → Holds ix
    → Holds (add_event found ix)
add_event-Holds none ix named h = h
add_event-Holds (some (id, event)) ix named h =
    All-append (Has (insert id event ix.events)) ix.order (id ∷ [])
      (All-map (insert-Has ix.events id event named) ix.order h)
      (inserted-Has ix.events id event named, tt)

add_link-Holds : (o : Option (Str × Linked)) (ix : Index) → Holds ix → Holds (add_link o ix)
add_link-Holds none ix h = h
add_link-Holds (some (id, link)) ix h = h

module _ (read_float : Str → Option PyFloat) where
  add_line-Holds :
      (kind : Kind) (l : Str) (ix : Index) {next : Index}
      → add_line read_float kind l ix ≡ ok next
      → Holds ix
      → Holds next
  unfolding add_line
  add_line-Holds event_line l ix {next} h holds =
      let (found, parsed, e) = >>=-eq-ok (parse_event_id_line l) _ h in
      rw (← ok-injective e) (add_event-Holds found ix (parse_event_id_line-IsNamed l parsed) holds)
  add_line-Holds event_tag_line l ix {next} h holds = rw (← ok-injective h) holds
  add_line-Holds link_line l ix {next} h holds =
      rw (← ok-injective h) (add_link-Holds (parse_link_line read_float l) ix holds)
  add_line-Holds link_tag_line l ix {next} h holds = rw (← ok-injective h) holds
  add_line-Holds target_tag_line l ix {next} h holds = rw (← ok-injective h) holds
  add_line-Holds other_line l ix {next} h holds = rw (← ok-injective h) holds

  pub index_lines-Holds :
      (ls : List Str) (ix : Index) {last : Index}
      → index_lines read_float ix ls ≡ ok last
      → Holds ix
      → Holds last
  unfolding index_lines
  index_lines-Holds [] ix h holds = rw (← ok-injective h) holds
  index_lines-Holds (l ∷ ls) ix h holds =
      let (mid, first, rest) = >>=-eq-ok (add_line read_float (kind_of l) l ix) _ h in
      index_lines-Holds ls mid rest (add_line-Holds (kind_of l) l ix first holds)

-- The tags of an event change its tags and its unique id, not its id.
pub add_tags-id :
    (o : Option (List TagOutput)) (event : EventFields) → (add_tags o event).id ≡ event.id
add_tags-id none event = refl
add_tags-id (some more) event = refl

-- No round of the assembly loses an event.
assemble_event-Has :
    (ix : Index) (id : Str) (objects : Objects)
    → Has objects.events id
    → (j : Str) → Has objects.events j
    → Has (assemble_event ix id objects).events j
unfolding assemble_event
assemble_event-Has ix id objects (event, found, named) j h =
    rw (found, assemble_event)
      (insert-Has objects.events id (add_tags (lookup id ix.event_tags) event)
        (add_tags-id (lookup id ix.event_tags) event ∙ named) j h)

pub assemble_events-Has :
    (ix : Index) (ids : List Str) (objects : Objects)
    → All (Has objects.events) ids
    → (j : Str) → Has objects.events j
    → Has (assemble_events ix ids objects).events j
unfolding assemble_events
assemble_events-Has ix [] objects all j h = h
assemble_events-Has ix (id ∷ ids) objects (first, rest) j h =
    let kept = assemble_event-Has ix id objects first in
    assemble_events-Has ix ids (assemble_event ix id objects) (All-map kept ids rest) j (kept j h)

pub event_records-ids :
    (ix : Index) (objects : Objects) (ids : List Str)
    → All (Has objects.events) ids
    → map EventFields.id (event_records ix objects ids) ≡ ids
unfolding event_records
event_records-ids ix objects [] h = refl
event_records-ids ix objects (id ∷ ids) ((event, found, named), rest) =
    rw (found, event_records) (rw (named, event_records-ids ix objects ids rest) refl)

pub assemble_index-ids : (ix : Index) → Holds ix → map EventFields.id (assemble_index ix) ≡ ix.order
unfolding assemble_index
assemble_index-ids ix h =
    let start : Objects = record { events = ix.events; links = ix.links } in
    event_records-ids ix _ ix.order (All-map (assemble_events-Has ix ix.order start h) ix.order h)
