-- ===== src/Responses/Search/Index/Laws.antt =====
-- What the index of `parse_get_events_for_tags_payload` holds: under each key the lines of one kind.
use pod_os_py_client.Prelude.{
  true, List, [], ◌∷◌, ◌++◌, Option, none, some, Result, ok, >>=-eq-ok, if◌then◌else◌, ◌≡◌, refl,
  sym, ap, ◌∙◌, arith, append_assoc, append-nil,
}
use pod_os_py_client.Prelude.Text.{Str, truthy}
use pod_os_py_client.Prelude.Dict.{Dict}
use pod_os_py_client.Message.Types.{TagOutput, Linked, PyFloat, EventFields}
use pod_os_py_client.Responses.Line.{RecordFailure, parse_tab_delimited_line, value_of}
use pod_os_py_client.Responses.Tags.{
  parse_event_tag_line, parse_link_tag_line, parse_target_tag_line,
}
use pod_os_py_client.Responses.Grouping.{
  group, group-push_to, under, under-append, entry_when, entries,
}
use pod_os_py_client.Responses.Search.Index.{
  Index, empty_index, Kind, event_line, event_tag_line, link_line, link_tag_line, target_tag_line,
  other_line, kind_of, add_line, add_tag, add_event, add_link, index_lines, parse_event_id_line,
  parse_link_line, row_key,
}
use pod_os_py_client.Responses.Search.Index.Kinds.{
  starts, is_event, is_event_tag, is_link, is_link_tag, is_target_tag, kind_of-Tells,
}

-- A tag is added behind those under its key.
group-add_tag :
    (k : Str) (o : Option (Str × TagOutput)) (m : Dict (List TagOutput))
    → group k (add_tag o m) ≡ group k m ++ under k (entry_when true o)
unfolding under
group-add_tag k none m = sym (append-nil _)
group-add_tag k (some (id, tag)) m =
    ground (arith, group-push_to id k tag m, append-nil (group k m))

-- The rows of links, each under its source.
unfoldable pub sourced_row : Option (Str × Linked) → Option (Str × Str)
sourced_row none = none
sourced_row (some (id, link)) =
    if truthy link.source_id then some (link.source_id, row_key id link) else none

unfoldable pub source_row : (Str → Option PyFloat) → Str → Option (Str × Str)
source_row read_float line = sourced_row (parse_link_line read_float line)

group-add_link :
    (k : Str) (o : Option (Str × Linked)) (ix : Index)
    → group k (add_link o ix).by_source
      ≡ group k ix.by_source ++ under k (entry_when true (sourced_row o))
unfolding under sourced_row
group-add_link k none ix = sym (append-nil _)
group-add_link k (some (id, link)) ix = ground (
  arith,
  group-push_to link.source_id k (row_key id link) ix.by_source,
  append-nil (group k ix.by_source),
)

-- The id of an event's line, if it has one, and the ids of the events in the order of their lines.
unfoldable pub id_of_event_line : Str → List Str
id_of_event_line line =
    let id = value_of (parse_tab_delimited_line line) "_event_id" in
    if truthy id then id ∷ [] else []

unfoldable pub event_ids : List Str → List Str
event_ids [] = []
event_ids (l ∷ ls) = (if starts "_event_id=" l then id_of_event_line l else []) ++ event_ids ls

abbrev id_found : Option (Str × EventFields) → List Str
id_found none = []
id_found (some (id, event)) = id ∷ []

parse_event_id_line-id :
    (line : Str) {found : Option (Str × EventFields)}
    → parse_event_id_line line ≡ ok found
    → id_found found ≡ id_of_event_line line
unfolding parse_event_id_line id_of_event_line
parse_event_id_line-id line h = ground (arith, h)

-- An event's line and a link's line leave the dicts of tags alone.
abbrev SameTags : Index → Index → Type 0
SameTags a b =
    (a.event_tags ≡ b.event_tags) × (a.link_tags ≡ b.link_tags) × (a.target_tags ≡ b.target_tags)

add_event-lem :
    (o : Option (Str × EventFields)) (ix : Index)
    → ((add_event o ix).order ≡ ix.order ++ id_found o)
      × SameTags (add_event o ix) ix
      × ((add_event o ix).by_source ≡ ix.by_source)
add_event-lem none ix = (sym (append-nil _), (refl, refl, refl), refl)
add_event-lem (some (id, event)) ix = (refl, (refl, refl, refl), refl)

add_link-lem :
    (o : Option (Str × Linked)) (ix : Index)
    → ((add_link o ix).order ≡ ix.order) × SameTags (add_link o ix) ix
add_link-lem none ix = (refl, (refl, refl, refl))
add_link-lem (some (id, link)) ix = (refl, (refl, refl, refl))

nil_laws :
    (k : Str) (ix : Index)
    → (ix.order ++ [] ≡ ix.order)
      × (group k ix.event_tags ++ [] ≡ group k ix.event_tags)
      × (group k ix.link_tags ++ [] ≡ group k ix.link_tags)
      × (group k ix.target_tags ++ [] ≡ group k ix.target_tags)
      × (group k ix.by_source ++ [] ≡ group k ix.by_source)
nil_laws k ix = (append-nil _, append-nil _, append-nil _, append-nil _, append-nil _)

-- What two steps add, one after the other.
under-chain :
    {A : Type 0} (k : Str) (before middle behind : List A) (xs ys : List (Str × A))
    → middle ≡ before ++ under k xs
    → behind ≡ middle ++ under k ys
    → behind ≡ before ++ under k (xs ++ ys)
under-chain k before middle behind xs ys e f =
    f
    ∙ ap (λ z. z ++ under k ys) e
    ∙ append_assoc before (under k xs) (under k ys)
    ∙ ap (λ z. before ++ z) (sym (under-append k xs ys))

module _ (read_float : Str → Option PyFloat) (k : Str) where
  -- What a line adds to the index, in terms of its kind.
  abbrev Grows :
      Index
      → Index
      → List Str
      → List (Str × TagOutput)
      → List (Str × TagOutput)
      → List (Str × TagOutput)
      → List (Str × Str)
      → Type 0
  Grows ix next ids tags link_tags target_tags rows =
      (next.order ≡ ix.order ++ ids)
      × (group k next.event_tags ≡ group k ix.event_tags ++ under k tags)
      × (group k next.link_tags ≡ group k ix.link_tags ++ under k link_tags)
      × (group k next.target_tags ≡ group k ix.target_tags ++ under k target_tags)
      × (group k next.by_source ≡ group k ix.by_source ++ under k rows)

  added_event-Grows :
      (l : Str) (ix next : Index) (found : Option (Str × EventFields))
      → id_found found ≡ id_of_event_line l
      → ok (add_event found ix) ≡ (let done : Result RecordFailure Index = ok next in done)
      → Grows ix next (id_of_event_line l) [] [] [] []
  unfolding under
  added_event-Grows l ix next none e h = ground (arith, e, h, nil_laws k ix)
  added_event-Grows l ix next (some (id, event)) e h = ground (arith, e, h, nil_laws k ix)

  add_line-Grows :
      (kind : Kind) (l : Str) (ix next : Index)
      → add_line read_float kind l ix ≡ ok next
      → Grows ix next
          (if is_event kind then id_of_event_line l else [])
          (entry_when (is_event_tag kind) (parse_event_tag_line l))
          (entry_when (is_link_tag kind) (parse_link_tag_line l))
          (entry_when (is_target_tag kind) (parse_target_tag_line l))
          (entry_when (is_link kind) (source_row read_float l))
  unfolding add_line under source_row
  add_line-Grows event_line l ix next h =
      let (found, parsed, e) = >>=-eq-ok (parse_event_id_line l) _ h in
      added_event-Grows l ix next found (parse_event_id_line-id l parsed) e
  add_line-Grows event_tag_line l ix next h =
      ground (arith, h, nil_laws k ix, group-add_tag k (parse_event_tag_line l) ix.event_tags)
  add_line-Grows link_line l ix next h =
      let (order, (a, b, c)) = add_link-lem (parse_link_line read_float l) ix in
      ground (
        arith,
        h,
        nil_laws k ix,
        order,
        a,
        b,
        c,
        group-add_link k (parse_link_line read_float l) ix,
      )
  add_line-Grows link_tag_line l ix next h =
      ground (arith, h, nil_laws k ix, group-add_tag k (parse_link_tag_line l) ix.link_tags)
  add_line-Grows target_tag_line l ix next h =
      ground (arith, h, nil_laws k ix, group-add_tag k (parse_target_tag_line l) ix.target_tags)
  add_line-Grows other_line l ix next h = ground (arith, h, nil_laws k ix)

  chain-Grows :
      (ix mid last : Index) (ids ids' : List Str) (a a' b b' c c' : List (Str × TagOutput))
      (d d' : List (Str × Str))
      → Grows ix mid ids a b c d
      → Grows mid last ids' a' b' c' d'
      → Grows ix last (ids ++ ids') (a ++ a') (b ++ b') (c ++ c') (d ++ d')
  chain-Grows ix mid last ids ids' a a' b b' c c' d d' (o, p, q, r, s) (o', p', q', r', s') = (
    o' ∙ ap (λ z. z ++ ids') o ∙ append_assoc ix.order ids ids',
    under-chain k (group k ix.event_tags) _ _ a a' p p',
    under-chain k (group k ix.link_tags) _ _ b b' q q',
    under-chain k (group k ix.target_tags) _ _ c c' r r',
    under-chain k (group k ix.by_source) _ _ d d' s s',
  )

  line-Grows :
      (l : Str) (ix next : Index)
      → add_line read_float (kind_of l) l ix ≡ ok next
      → Grows ix next
          (if starts "_event_id=" l then id_of_event_line l else [])
          (entry_when (starts "_event_tag=" l) (parse_event_tag_line l))
          (entry_when (starts "_linktag=" l) (parse_link_tag_line l))
          (entry_when (starts "_targettag=" l) (parse_target_tag_line l))
          (entry_when (starts "_link=" l) (source_row read_float l))
  line-Grows l ix next h =
      let (a, b, c, d, e) = kind_of-Tells l in
      rw (← a, ← b, ← c, ← d, ← e) (add_line-Grows (kind_of l) l ix next h)

  -- The index is that of a search through the lines.
  index_lines-Grows :
      (ls : List Str) (ix last : Index)
      → index_lines read_float ix ls ≡ ok last
      → Grows ix last
          (event_ids ls)
          (entries (starts "_event_tag=") parse_event_tag_line ls)
          (entries (starts "_linktag=") parse_link_tag_line ls)
          (entries (starts "_targettag=") parse_target_tag_line ls)
          (entries (starts "_link=") (source_row read_float) ls)
  unfolding index_lines event_ids entries
  index_lines-Grows [] ix last h = unfold under in ground (arith, h, nil_laws k ix)
  index_lines-Grows (l ∷ ls) ix last h =
      let (mid, first, rest) = >>=-eq-ok (add_line read_float (kind_of l) l ix) _ h in
      chain-Grows ix mid last _ _ _ _ _ _ _ _ _ _ (line-Grows l ix mid first)
        (index_lines-Grows ls mid last rest)

-- The index of a search's reply, made in one pass, is what a search through the lines for each key
-- gives: the ids in the order of the events' lines, and under a key the tags of the events', links' and
-- targets' lines with that key and the rows of the links with that source, in the order of the lines.
pub index_lines-searches :
    (read_float : Str → Option PyFloat) (lines : List Str) (ix : Index) (k : Str)
    → index_lines read_float empty_index lines ≡ ok ix
    → (ix.order ≡ event_ids lines)
      × (group k ix.event_tags
          ≡ under k (entries (starts "_event_tag=") parse_event_tag_line lines))
      × (group k ix.link_tags ≡ under k (entries (starts "_linktag=") parse_link_tag_line lines))
      × (group k ix.target_tags
          ≡ under k (entries (starts "_targettag=") parse_target_tag_line lines))
      × (group k ix.by_source ≡ under k (entries (starts "_link=") (source_row read_float) lines))
unfolding group
index_lines-searches read_float lines ix k h = index_lines-Grows read_float k lines empty_index ix h
