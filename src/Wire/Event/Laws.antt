-- ===== src/Wire/Event/Laws.antt =====
-- The event of a StoreEvent header, as the decoder reads it.
use pod_os_py_client.Prelude.{List, [], ◌∷◌, none, some, ◌≡◌, refl, ap, ◌∙◌, All, if◌then◌else◌}
use pod_os_py_client.Prelude.Text.{Str, codes, strip, truthy}
use pod_os_py_client.Prelude.Dict.{Dict, or_empty}
use pod_os_py_client.Message.Types.{Message, EventFields}
use pod_os_py_client.Message.Header.Fields.{Layout, fields_of, render, decode_header, force_ascii}
use pod_os_py_client.Message.Header.Reading.{
  last_value, IsClean, decode_header-render, lookup-apply_fields,
}
use pod_os_py_client.Message.Header.Keys.{or_option-none}
use pod_os_py_client.Message.Header.Store.{store_event_message_header}
use pod_os_py_client.Wire.Envelope.{header_value}
use pod_os_py_client.Wire.Event.{first_of, decode_event_fields, coordinates, with_location}
use pod_os_py_client.Wire.Event.Keys.{
  layout_of_event, unique_id_value, event_id_value, owner_value, type_value, timestamp_value,
  absent, or_else-nil,
}

-- The texts of an event, which coordinates leave alone.
abbrev SameTexts : EventFields → EventFields → Type 0
SameTexts a b =
    (a.unique_id ≡ b.unique_id)
    × (a.id ≡ b.id)
    × (a.owner ≡ b.owner)
    × (a.type ≡ b.type)
    × (a.timestamp ≡ b.timestamp)

with_location-SameTexts : (cs : List Str) (ev : EventFields) → SameTexts (with_location cs ev) ev
with_location-SameTexts [] ev = (refl, refl, refl, refl, refl)
with_location-SameTexts (c ∷ cs) ev = (refl, refl, refl, refl, refl)

decoded_texts :
    (m : Dict Str)
    → let d = decode_event_fields m in
      (d.unique_id ≡ first_of m ("unique_id" ∷ "_unique_id" ∷ []))
      × (d.id ≡ first_of m ("_event_id" ∷ "event_id" ∷ []))
      × (d.owner ≡ first_of m ("_owner_id" ∷ "owner" ∷ "_event_owner" ∷ []))
      × (d.type ≡ first_of m ("event_type" ∷ "_type" ∷ "type" ∷ []))
      × (d.timestamp ≡ first_of m ("timestamp" ∷ "_timestamp" ∷ []))
unfolding decode_event_fields
decoded_texts m = with_location-SameTexts (coordinates m 9 1) _

-- What is found under a key in the text of a header is what its fields give the key.
read_value :
    (layout : Layout) (key : Str)
    → All IsClean (fields_of layout)
    → header_value (decode_header (render layout)) key
      ≡ or_empty (last_value key (fields_of layout))
unfolding header_value
read_value layout key clean =
    simp (decode_header-render layout clean, lookup-apply_fields, or_option-none)

module _ (now : Str) (msg : Message) (ev : EventFields) (event : msg.event ≡ some ev)
    (clean : All IsClean (fields_of (store_event_message_header now msg))) where
  abbrev dict : Dict Str
  dict = decode_header (render (store_event_message_header now msg))

  event_layout : fields_of (store_event_message_header now msg) ≡ layout_of_event now msg ev
  unfolding store_event_message_header
  event_layout = rw event refl

  value_of :
      (key : Str) → header_value dict key ≡ or_empty (last_value key (layout_of_event now msg ev))
  value_of key =
      read_value (store_event_message_header now msg) key clean
      ∙ ap (λ fs. or_empty (last_value key fs)) event_layout

  missing :
      (key : Str) → last_value key (layout_of_event now msg ev) ≡ none → header_value dict key ≡ []
  missing key h = value_of key ∙ ap or_empty h

  -- The event that a StoreEvent request carries is decoded, if no field of its header holds a
  -- separator, with its unique id, the ASCII part of its id, its owner, its type (or `store event`)
  -- and its timestamp (or the time of the encoding), each without the spaces round it.
  pub decode_event_fields-store_event :
      let d = decode_event_fields dict in
      (d.unique_id ≡ strip ev.unique_id)
      × (d.id ≡ strip (force_ascii ev.id))
      × (d.owner ≡ strip ev.owner)
      × (d.type ≡ strip (if truthy ev.type then ev.type else codes "store event"))
      × (d.timestamp ≡ strip (if truthy ev.timestamp then ev.timestamp else now))
  decode_event_fields-store_event =
      let (
        no_event_id,
        (
          no_unique_id,
          (no_event_type, (no_type, (no_owner_id, (no_event_owner, (no_timestamp, _))))),
        ),
      ) =
        absent now msg ev in
      let (a, b, c, d, e) = decoded_texts dict in
      (
        a
            ∙ simp (
              missing (codes "_unique_id") no_unique_id,
              value_of (codes "unique_id") ∙ unique_id_value now msg ev,
              or_else-nil,
            ),
        b
            ∙ simp (
              missing (codes "_event_id") no_event_id,
              value_of (codes "event_id") ∙ event_id_value now msg ev,
              or_else-nil,
            ),
        c
            ∙ simp (
              missing (codes "_owner_id") no_owner_id,
              missing (codes "_event_owner") no_event_owner,
              value_of (codes "owner") ∙ owner_value now msg ev,
              or_else-nil,
            ),
        d
            ∙ simp (
              missing (codes "event_type") no_event_type,
              missing (codes "_type") no_type,
              value_of (codes "type") ∙ ap or_empty (type_value now msg ev),
              or_else-nil,
            ),
        e
            ∙ simp (
              missing (codes "_timestamp") no_timestamp,
              value_of (codes "timestamp") ∙ ap or_empty (timestamp_value now msg ev),
              or_else-nil,
            ),
      )
