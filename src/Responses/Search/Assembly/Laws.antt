-- ===== src/Responses/Search/Assembly/Laws.antt =====
-- The records of a search's reply: their ids and their tags.
use pod_os_py_client.Prelude.{
  false, List, [], ◌∷◌, ◌++◌, map, Option, none, some, ok, >>=-eq-ok, ok-injective, ◌≡◌, refl, sym,
  ap, ◌∙◌, arith, All, append-nil, Bool-cases, Option-cases, inl, inr, if◌then◌else◌,
}
use pod_os_py_client.Prelude.Text.{Str, str_eq, str_eq_iff, str_eq_refl}
use pod_os_py_client.Prelude.Dict.{Dict, lookup, lookup-insert}
use pod_os_py_client.Message.Types.{EventFields, PyFloat, TagOutput}
use pod_os_py_client.Responses.Tags.{parse_event_tag_line}
use pod_os_py_client.Responses.Grouping.{or_nil, group, under, entries, newest}
use pod_os_py_client.Responses.Search.Index.{Index, empty_index, index_lines}
use pod_os_py_client.Responses.Search.Index.Kinds.{starts}
use pod_os_py_client.Responses.Search.Index.Laws.{event_ids, index_lines-searches}
use pod_os_py_client.Responses.Search.Index.Newest.{event_of_line, index_lines-newest}
use pod_os_py_client.Responses.Search.Assembly.{
  add_tags, Objects, assemble_event, assemble_events, event_records, assemble_index,
  records_of_lines,
}
use pod_os_py_client.Responses.Search.Assembly.Ids.{
  Has, Holds, index_lines-Holds, assemble_events-Has, assemble_index-ids, All-map,
}

-- No two ids are the same.
abbrev pub Distinct : List Str → Type 0
Distinct [] = Unit
Distinct (x ∷ xs) = All (λ y. str_eq x y ≡ false) xs × Distinct xs

str_eq_flip : (s t : Str) → str_eq s t ≡ false → str_eq t s ≡ false
str_eq_flip s t h = ground (arith, str_eq_iff s t, str_eq_iff t s)

-- What a round does to the event under an id: to its own, and to the others.
abbrev with_own_tags : Index → Str → Option EventFields → Option EventFields
with_own_tags ix id none = none
with_own_tags ix id (some event) = some (add_tags (lookup id ix.event_tags) event)

lookup-assemble_event :
    (ix : Index) (id j : Str) (objects : Objects)
    → lookup j (assemble_event ix id objects).events ≡ (
        if str_eq id j
        then with_own_tags ix id (lookup j objects.events)
        else lookup j objects.events)
unfolding assemble_event
lookup-assemble_event ix id j objects = elim (Bool-cases (str_eq id j)) [
  | inr other ↦ rw other (elim (Option-cases (lookup id objects.events)) [
    | inl missing ↦ rw (missing, assemble_event) refl
    | inr (event, found) ↦
        rw (found, assemble_event) (lookup-insert id j _ objects.events ∙ rw other refl)
  ])
  | inl own ↦ rw own (
      rw (← (str_eq_iff id j).0 own) (elim (Option-cases (lookup id objects.events)) [
        | inl missing ↦ rw (missing, assemble_event) (rw missing refl)
        | inr (event, found) ↦
            rw (found, assemble_event)
              (lookup-insert id id _ objects.events ∙ rw (str_eq_refl id) refl)
      ]))
]

lookup-assemble_events_other :
    (ix : Index) (ids : List Str) (objects : Objects) (j : Str)
    → All (λ id. str_eq id j ≡ false) ids
    → lookup j (assemble_events ix ids objects).events ≡ lookup j objects.events
unfolding assemble_events
lookup-assemble_events_other ix [] objects j h = refl
lookup-assemble_events_other ix (id ∷ ids) objects j (h, hs) =
    lookup-assemble_events_other ix ids (assemble_event ix id objects) j hs
    ∙ lookup-assemble_event ix id j objects
    ∙ rw h refl

All-flip :
    (id : Str) (ids : List Str)
    → All (λ y. str_eq id y ≡ false) ids
    → All (λ y. str_eq y id ≡ false) ids
All-flip id [] h = tt
All-flip id (y ∷ ys) (h, hs) = (str_eq_flip id y h, All-flip id ys hs)

-- A round for another id changes nothing of what the rounds behind it do.
All-join :
    (ix : Index) (id : Str) (objects last : Objects) (ids : List Str)
    → All (λ y. str_eq id y ≡ false) ids
    → All
        (λ y.
          lookup y last.events
          ≡ with_own_tags ix y (lookup y (assemble_event ix id objects).events))
        ids
    → All (λ y. lookup y last.events ≡ with_own_tags ix y (lookup y objects.events)) ids
All-join ix id objects last [] apart h = tt
All-join ix id objects last (y ∷ ys) (other, apart) (h, hs) = (
  h ∙ ap (with_own_tags ix y) (lookup-assemble_event ix id y objects ∙ rw other refl),
  All-join ix id objects last ys apart hs,
)

-- Each event gets the tags of its lines once.
assemble_events-tagged :
    (ix : Index) (ids : List Str) (objects : Objects)
    → Distinct ids
    → All
        (λ id.
          lookup id (assemble_events ix ids objects).events
          ≡ with_own_tags ix id (lookup id objects.events))
        ids
unfolding assemble_events
assemble_events-tagged ix [] objects h = tt
assemble_events-tagged ix (id ∷ ids) objects (apart, rest) = (
  lookup-assemble_events_other ix ids (assemble_event ix id objects) id (All-flip id ids apart)
      ∙ lookup-assemble_event ix id id objects
      ∙ rw (str_eq_refl id) refl,
  All-join ix id objects (assemble_events ix ids (assemble_event ix id objects)) ids apart
      (assemble_events-tagged ix ids (assemble_event ix id objects) rest),
)

-- The tags that stand under an id.
abbrev pub tags_found : Option EventFields → List TagOutput
tags_found none = []
tags_found (some event) = event.tags

add_tags-tags :
    (o : Option (List TagOutput)) (event : EventFields)
    → (add_tags o event).tags ≡ event.tags ++ or_nil o
add_tags-tags none event = sym (append-nil _)
add_tags-tags (some more) event = refl

event_records-tags :
    (ix : Index) (objects : Objects) (ids : List Str)
    → All (Has objects.events) ids
    → map EventFields.tags (event_records ix objects ids)
      ≡ map (λ id. tags_found (lookup id objects.events)) ids
unfolding event_records
event_records-tags ix objects [] h = refl
event_records-tags ix objects (id ∷ ids) ((event, found, named), rest) =
    rw (found, event_records) (ap (◌∷◌ event.tags) (event_records-tags ix objects ids rest))

-- Where an event is there, its tags are those that it had and those under its id.
tagged-tags :
    (ix : Index) (id : Str) (before after : Dict EventFields)
    → Has before id
    → lookup id after ≡ with_own_tags ix id (lookup id before)
    → tags_found (lookup id after) ≡ tags_found (lookup id before) ++ group id ix.event_tags
unfolding group
tagged-tags ix id before after (event, found, named) e =
    rw e (rw found (add_tags-tags (lookup id ix.event_tags) event))

map-tagged :
    (ix : Index) (before after : Dict EventFields) (ids : List Str)
    → All (Has before) ids
    → All (λ id. lookup id after ≡ with_own_tags ix id (lookup id before)) ids
    → map (λ id. tags_found (lookup id after)) ids
      ≡ map (λ id. tags_found (lookup id before) ++ group id ix.event_tags) ids
map-tagged ix before after [] h e = refl
map-tagged ix before after (id ∷ ids) (h, hs) (e, es) =
    rw (tagged-tags ix id before after h e, map-tagged ix before after ids hs es) refl

assemble_index-tags :
    (ix : Index)
    → Holds ix
    → Distinct ix.order
    → map EventFields.tags (assemble_index ix)
      ≡ map (λ id. tags_found (lookup id ix.events) ++ group id ix.event_tags) ix.order
unfolding assemble_index
assemble_index-tags ix h apart =
    let start : Objects = record { events = ix.events; links = ix.links } in
    event_records-tags ix _ ix.order (All-map (assemble_events-Has ix ix.order start h) ix.order h)
    ∙ map-tagged ix ix.events _ ix.order h (assemble_events-tagged ix ix.order start apart)

-- What the lines of a search's reply say of the tags under an id: those of the last line of the event,
-- and behind them those of the lines `_event_tag=` with that id, in order.
unfoldable pub tags_of_id : List Str → Str → List TagOutput
tags_of_id lines id =
    tags_found (newest id (entries (starts "_event_id=") event_of_line lines) none)
    ++ under id (entries (starts "_event_tag=") parse_event_tag_line lines)

map-ext : {A B : Type 0} (f g : A → B) → ((a : A) → f a ≡ g a) → (xs : List A) → map f xs ≡ map g xs
map-ext f g h [] = refl
map-ext f g h (x ∷ xs) = rw (h x, map-ext f g h xs) refl

index_tags :
    (read_float : Str → Option PyFloat) (lines : List Str) (ix : Index)
    → index_lines read_float empty_index lines ≡ ok ix
    → (id : Str) → tags_found (lookup id ix.events) ++ group id ix.event_tags ≡ tags_of_id lines id
unfolding tags_of_id
index_tags read_float lines ix indexed id =
    let (_, tags, _, _, _) = index_lines-searches read_float lines ix id indexed in
    let (event, _) = index_lines-newest read_float id lines empty_index ix indexed in
    rw (event, tags) refl

module _ (read_float : Str → Option PyFloat) (lines : List Str) {events : List EventFields}
    (read : records_of_lines read_float lines ≡ ok events) where
  made :
      (ix : Index) × (index_lines read_float empty_index lines ≡ ok ix)
      × Holds ix
      × (ix.order ≡ event_ids lines)
      × (assemble_index ix ≡ events)
  unfolding records_of_lines
  made =
      let (ix, indexed, e) = >>=-eq-ok (index_lines read_float empty_index lines) _ read in
      (
        ix,
        indexed,
        index_lines-Holds read_float lines empty_index indexed tt,
        (index_lines-searches read_float lines ix [] indexed).0,
        ok-injective e,
      )

  -- The lines of a search's reply, when all can be read, give one record for each line of an event, in
  -- the order of these lines and with their ids.
  pub records_of_lines-ids : map EventFields.id events ≡ event_ids lines
  records_of_lines-ids =
      let (ix, _, holds, order, e) = made in rw (← e) (assemble_index-ids ix holds ∙ order)

  -- When all lines of a search's reply can be read and no two lines of events have the same id, the
  -- tags of each record are those of its line and behind them those of the lines `_event_tag=` with its
  -- id, in order.
  pub records_of_lines-tags :
      Distinct (event_ids lines)
      → map EventFields.tags events ≡ map (tags_of_id lines) (event_ids lines)
  records_of_lines-tags apart =
      let (ix, indexed, holds, order, e) = made in
      rw (← e) (
        assemble_index-tags ix holds (rw order apart)
        ∙ map-ext _ (tags_of_id lines) (index_tags read_float lines ix indexed) ix.order
        ∙ ap (map (tags_of_id lines)) order)
