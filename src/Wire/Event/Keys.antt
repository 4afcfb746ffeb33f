-- ===== src/Wire/Event/Keys.antt =====
-- What the fields of a StoreEvent header give the keys that the decoder tries.
use pod_os_py_client.Prelude.{
  ℕ, suc, String, List, [], ◌∷◌, ◌++◌, Option, none, some, ◌≡◌, refl, ap, All, enumerate, flat_map,
  true, false, if◌then◌else◌,
}
use pod_os_py_client.Prelude.Text.{Str, codes, strip, str_eq, truthy, or_else}
use pod_os_py_client.Prelude.Dict.{or_empty}
use pod_os_py_client.Message.Types.{Message, EventFields, Tag, NeuralMemoryFields}
use pod_os_py_client.Message.Header.Fields.{Fields, field, field_if, field_when, force_ascii}
use pod_os_py_client.Message.Header.Reading.{last_value}
use pod_os_py_client.Message.Header.Keys.{other_keys}
use pod_os_py_client.Message.Header.Gateway.{message_id_field}
use pod_os_py_client.Message.Header.Store.{tag_field, tag_fields, store_event_part}

-- No tag's key is one that does not start like a tag's.
module _ (key : Str) (other : (s : Str) → str_eq (strip (codes "tag_" ++ s)) key ≡ false) where
  numbered_absent :
      (tags : List Tag) (n : ℕ) → last_value key (flat_map tag_field (enumerate n tags)) ≡ none
  unfolding tag_field last_value
  numbered_absent [] n = refl
  numbered_absent (t ∷ ts) n = rw (numbered_absent ts (suc n), other) refl

  tags_absent : (o : Option NeuralMemoryFields) → last_value key (tag_fields o) ≡ none
  unfolding tag_fields last_value
  tags_absent none = refl
  tags_absent (some nm) = numbered_absent nm.tags 0

-- What a field gives its own key.
module _ (key : Str) (k : String) (same : str_eq (strip (codes k)) key ≡ true) where
  found_field : (v : Str) → last_value key (field k v) ≡ some (strip v)
  unfolding last_value field
  found_field v = rw same refl

  found_field_if : (v : Str) → or_empty (last_value key (field_if k v)) ≡ strip v
  unfolding field_if field_when last_value
  found_field_if [] = refl
  found_field_if (c ∷ v) = ap or_empty (found_field (c ∷ v))

  found_ascii :
      (v : Str)
      → or_empty (last_value key (field_when (truthy v) k (force_ascii v))) ≡ strip (force_ascii v)
  unfolding field_when last_value force_ascii
  found_ascii [] = refl
  found_ascii (c ∷ v) = ap or_empty (found_field (force_ascii (c ∷ v)))

pub or_else-nil : (s : Str) → or_else s [] ≡ s
or_else-nil [] = refl
or_else-nil (c ∷ s) = refl

module _ (now : Str) (msg : Message) (ev : EventFields) where
  abbrev pub layout_of_event : Fields
  layout_of_event =
      field "_db_cmd" (codes "store")
      ++ (store_event_part now msg (some ev) ++ message_id_field msg)

  pub unique_id_value :
      or_empty (last_value (codes "unique_id") layout_of_event) ≡ strip ev.unique_id
  unfolding store_event_part
  unique_id_value = simp (
    other_keys,
    tags_absent (codes "unique_id") (λ s. refl) msg.neural_memory,
    found_field_if (codes "unique_id") "unique_id" refl ev.unique_id,
  )

  pub event_id_value :
      or_empty (last_value (codes "event_id") layout_of_event) ≡ strip (force_ascii ev.id)
  unfolding store_event_part
  event_id_value = simp (
    other_keys,
    tags_absent (codes "event_id") (λ s. refl) msg.neural_memory,
    found_ascii (codes "event_id") "event_id" refl ev.id,
  )

  pub owner_value : or_empty (last_value (codes "owner") layout_of_event) ≡ strip ev.owner
  unfolding store_event_part
  owner_value = simp (
    other_keys,
    tags_absent (codes "owner") (λ s. refl) msg.neural_memory,
    found_field_if (codes "owner") "owner" refl ev.owner,
  )

  pub type_value :
      last_value (codes "type") layout_of_event
      ≡ some (strip (if truthy ev.type then ev.type else codes "store event"))
  unfolding store_event_part
  type_value = simp (
    other_keys,
    tags_absent (codes "type") (λ s. refl) msg.neural_memory,
    found_field (codes "type") "type" refl
        (if truthy ev.type then ev.type else codes "store event"),
  )

  pub timestamp_value :
      last_value (codes "timestamp") layout_of_event
      ≡ some (strip (if truthy ev.timestamp then ev.timestamp else now))
  unfolding store_event_part
  timestamp_value = simp (
    other_keys,
    tags_absent (codes "timestamp") (λ s. refl) msg.neural_memory,
    found_field (codes "timestamp") "timestamp" refl
        (if truthy ev.timestamp then ev.timestamp else now),
  )

  pub absent :
      All
        (λ k. last_value (codes k) layout_of_event ≡ none)
        ("_event_id" ∷ "_unique_id" ∷ "event_type" ∷ "_type" ∷ "_owner_id" ∷ "_event_owner"
          ∷ "_timestamp" ∷ [])
  unfolding store_event_part
  absent = (
    simp (other_keys, tags_absent (codes "_event_id") (λ s. refl) msg.neural_memory),
    (
      simp (other_keys, tags_absent (codes "_unique_id") (λ s. refl) msg.neural_memory),
      (
        simp (other_keys, tags_absent (codes "event_type") (λ s. refl) msg.neural_memory),
        (
          simp (other_keys, tags_absent (codes "_type") (λ s. refl) msg.neural_memory),
          (
            simp (other_keys, tags_absent (codes "_owner_id") (λ s. refl) msg.neural_memory),
            (
              simp (other_keys, tags_absent (codes "_event_owner") (λ s. refl) msg.neural_memory),
              (
                simp (other_keys, tags_absent (codes "_timestamp") (λ s. refl) msg.neural_memory),
                tt,
              ),
            ),
          ),
        ),
      ),
    ),
  )
