-- ===== src/Responses/Search/Index/Newest.antt =====
-- The events and the links of the index: under each key the last line's.
use pod_os_py_client.Prelude.{
  true, List, [], ◌∷◌, Option, none, some, ok, err, >>=-eq-ok, ok-injective, ◌≡◌, refl, sym, ap,
  ◌∙◌,
}
use pod_os_py_client.Prelude.Text.{Str}
use pod_os_py_client.Prelude.Dict.{lookup}
use pod_os_py_client.Message.Types.{EventFields, Linked, PyFloat}
use pod_os_py_client.Responses.Grouping.{entry_when, entries, newest, newest-append, lookup-set}
use pod_os_py_client.Responses.Search.Index.{
  Index, Kind, event_line, event_tag_line, link_line, link_tag_line, target_tag_line, other_line,
  kind_of, add_line, add_event, add_link, index_lines, parse_event_id_line, parse_link_line,
  row_key,
}
use pod_os_py_client.Responses.Search.Index.Kinds.{starts, is_event, is_link, kind_of-Tells}

-- The event of a line, where the line can be read.
unfoldable pub event_of_line : Str → Option (Str × EventFields)
event_of_line line = elim (parse_event_id_line line) [ err e ↦ none | ok found ↦ found ]

unfoldable pub keyed_row : Option (Str × Linked) → Option (Str × Linked)
keyed_row none = none
keyed_row (some (id, link)) = some (row_key id link, link)

unfoldable pub row_of_line : (Str → Option PyFloat) → Str → Option (Str × Linked)
row_of_line read_float line = keyed_row (parse_link_line read_float line)

lookup-add_event :
    (k : Str) (o : Option (Str × EventFields)) (ix : Index)
    → (lookup k (add_event o ix).events ≡ newest k (entry_when true o) (lookup k ix.events))
      × ((add_event o ix).links ≡ ix.links)
unfolding newest
lookup-add_event k none ix = (refl, refl)
lookup-add_event k (some e) ix = (lookup-set k e ix.events, refl)

lookup-add_link :
    (k : Str) (o : Option (Str × Linked)) (ix : Index)
    → (lookup k (add_link o ix).links
        ≡ newest k (entry_when true (keyed_row o)) (lookup k ix.links))
      × ((add_link o ix).events ≡ ix.events)
unfolding newest keyed_row
lookup-add_link k none ix = (refl, refl)
lookup-add_link k (some (id, link)) ix = (lookup-set k (row_key id link, link) ix.links, refl)

module _ (read_float : Str → Option PyFloat) (k : Str) where
  abbrev Sets : Index → Index → List (Str × EventFields) → List (Str × Linked) → Type 0
  Sets ix next events rows =
      (lookup k next.events ≡ newest k events (lookup k ix.events))
      × (lookup k next.links ≡ newest k rows (lookup k ix.links))

  add_line-Sets :
      (kind : Kind) (l : Str) (ix next : Index)
      → add_line read_float kind l ix ≡ ok next
      → Sets ix next
          (entry_when (is_event kind) (event_of_line l))
          (entry_when (is_link kind) (row_of_line read_float l))
  unfolding add_line newest event_of_line
  add_line-Sets event_line l ix next h =
      let (found, parsed, e) = >>=-eq-ok (parse_event_id_line l) _ h in
      let (set, kept) = lookup-add_event k found ix in
      rw (← ok-injective e) (rw (parsed, event_of_line) (set, ap (lookup k) kept))
  add_line-Sets event_tag_line l ix next h = rw (← ok-injective h) (refl, refl)
  add_line-Sets link_line l ix next h =
      let (set, kept) = lookup-add_link k (parse_link_line read_float l) ix in
      rw (← ok-injective h) (ap (lookup k) kept, unfold row_of_line in set)
  add_line-Sets link_tag_line l ix next h = rw (← ok-injective h) (refl, refl)
  add_line-Sets target_tag_line l ix next h = rw (← ok-injective h) (refl, refl)
  add_line-Sets other_line l ix next h = rw (← ok-injective h) (refl, refl)

  line-Sets :
      (l : Str) (ix next : Index)
      → add_line read_float (kind_of l) l ix ≡ ok next
      → Sets ix next
          (entry_when (starts "_event_id=" l) (event_of_line l))
          (entry_when (starts "_link=" l) (row_of_line read_float l))
  line-Sets l ix next h =
      let (a, b, c, d, e) = kind_of-Tells l in rw (← a, ← c) (add_line-Sets (kind_of l) l ix next h)

  -- Under each key the index has the event of the last event line with that id, and the link of the last
  -- link line with that row.
  pub index_lines-newest :
      (ls : List Str) (ix last : Index)
      → index_lines read_float ix ls ≡ ok last
      → Sets ix last
          (entries (starts "_event_id=") event_of_line ls)
          (entries (starts "_link=") (row_of_line read_float) ls)
  unfolding index_lines entries
  index_lines-newest [] ix last h = rw (← ok-injective h) (unfold newest in (refl, refl))
  index_lines-newest (l ∷ ls) ix last h =
      let (mid, first, rest) = >>=-eq-ok (add_line read_float (kind_of l) l ix) _ h in
      let (a, b) = line-Sets l ix mid first in
      let (a', b') = index_lines-newest ls mid last rest in
      (
        a' ∙ ap (newest k _) a ∙ sym (newest-append k _ _ (lookup k ix.events)),
        b' ∙ ap (newest k _) b ∙ sym (newest-append k _ _ (lookup k ix.links)),
      )
