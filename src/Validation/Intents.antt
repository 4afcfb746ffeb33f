-- ===== src/Validation/Intents.antt =====
-- The checks of requests and replies in pod_os_client/message/validate.py, but for those of payloads.
use pod_os_py_client.Prelude.{
  ℕ, String, Bool, true, false, not, List, [], ◌∷◌, ◌++◌, Option, none, some, ◌==◌, ◌&&◌, ◌||◌,
}
use pod_os_py_client.Prelude.Int.{ℤ, pos, negsuc}
use pod_os_py_client.Prelude.Text.{Str, codes, str_eq, truthy, elem_of}
use pod_os_py_client.Message.Types.{
  Message, EventFields, LinkFields, GetEventOptions, GetEventsForTagsOptions,
}
use pod_os_py_client.Validation.{
  Violation, violates, warns, when, required, one_of_required, format, nil_struct, semantic,
  not_serialized,
}

abbrev pub neither : Str → Str → Bool
neither a b = not (truthy a) && not (truthy b)

-- `_is_sys_id`.
unfoldable pub is_sys_id : Str → Bool
is_sys_id s = str_eq s (codes "$sys")

unfoldable pub validate_apply_to_existing_semantics : EventFields → List Violation
validate_apply_to_existing_semantics ev =
    when (is_sys_id ev.owner) (violates "owner" semantic)
    ++ (when (is_sys_id ev.id) (violates "event_id" semantic)
        ++ when (is_sys_id ev.unique_id) (violates "unique_id" semantic))

unfoldable pub validate_lookup_owner_not_used_event : EventFields → List Violation
validate_lookup_owner_not_used_event ev =
    when (truthy ev.owner || truthy ev.owner_unique_id) (warns "owner / owner_unique_id" semantic)

unfoldable pub validate_lookup_owner_not_used_link : LinkFields → List Violation
validate_lookup_owner_not_used_link lk =
    when (truthy lk.owner || truthy lk.owner_event_id || truthy lk.owner_unique_id)
      (warns "owner / owner_event_id / owner_unique_id" semantic)

unfoldable pub validate_create_event_id_set : Str → List Violation
validate_create_event_id_set id = when (truthy id) (warns "event_id" semantic)

unfoldable pub validate_create_link_id_set : Str → List Violation
validate_create_link_id_set id = when (truthy id) (warns "event_id" semantic)

-- The checks of an owner and of a target that several intents share.
abbrev pub owner_named : EventFields → List Violation
owner_named ev =
    when (neither ev.owner ev.owner_unique_id) (violates "owner / owner_unique_id" one_of_required)

abbrev pub target_named : Str → Str → List Violation
target_named id unique_id =
    when (neither id unique_id) (violates "event_id / unique_id" one_of_required)

unfoldable pub validate_store_event : Message → List Violation
validate_store_event msg = elim msg.event [
  | none ↦ violates "" nil_struct
  | some ev ↦
      owner_named ev
      ++ (validate_create_event_id_set ev.id
          ++ (when (not (truthy ev.location)) (violates "loc" required)
              ++ when (not (truthy ev.location_separator)) (violates "loc_delim" required)))
]

unfoldable pub validate_store_data : Message → List Violation
validate_store_data msg = elim msg.event [
  | none ↦ violates "" nil_struct
  | some ev ↦
      target_named ev.id ev.unique_id ++ (owner_named ev ++ validate_apply_to_existing_semantics ev)
]

-- The part of `_validate_store_batch_tags` that is about the event.
unfoldable pub validate_tags_target : Option EventFields → List Violation
validate_tags_target none = violates "" nil_struct
validate_tags_target (some ev) =
    target_named ev.id ev.unique_id ++ (owner_named ev ++ validate_apply_to_existing_semantics ev)

-- A `TagOwnerOutput` is one of three texts.
unfoldable pub validate_tag_owner_output_value : String → Str → List Violation
validate_tag_owner_output_value field value =
    when (not (elem_of value (codes "" ∷ codes "event_key" ∷ codes "unique_id" ∷ [])))
      (violates field format)

abbrev is_format : ℕ → ℤ → Bool
is_format k (pos n) = n == k
is_format k (negsuc n) = false

abbrev pub is_tag_format : ℕ → Option ℤ → Bool
is_tag_format k none = false
is_tag_format k (some n) = is_format k n

abbrev pub given : Option ℤ → Bool
given none = false
given (some n) = true

unfoldable pub validate_get_event_tag_format : Option GetEventOptions → List Violation
validate_get_event_tag_format none = []
validate_get_event_tag_format (some opts) =
    when
      (given opts.tag_format
        && not (is_tag_format 0 opts.tag_format || is_tag_format 1 opts.tag_format))
      (violates "tag_format" format)
    ++ (validate_tag_owner_output_value "output_tag_owner" opts.tag_owner_output
        ++ (when (truthy opts.tag_owner_output && not (is_tag_format 1 opts.tag_format))
              (violates "output_tag_owner" semantic)
            ++ when (is_tag_format 1 opts.tag_format && not opts.get_tags)
                (warns "tag_format" semantic)))

unfoldable pub validate_get_event : Message → List Violation
validate_get_event msg = elim msg.event [
  | none ↦ violates "" nil_struct
  | some ev ↦
      target_named ev.id ev.unique_id
      ++ (validate_lookup_owner_not_used_event ev ++ elim msg.neural_memory [
        | none ↦ []
        | some nm ↦ validate_get_event_tag_format nm.get_event
      ])
]

unfoldable pub validate_get_events_for_tags_tag_format :
    Option GetEventsForTagsOptions → List Violation
validate_get_events_for_tags_tag_format none = []
validate_get_events_for_tags_tag_format (some opts) =
    when (not (elem_of opts.buffer_format (codes "" ∷ codes "0" ∷ codes "1" ∷ [])))
      (violates "buffer_format" format)
    ++ (validate_tag_owner_output_value "get_tag_owner / get_tag_owner_unique_id"
          opts.tag_owner_output
        ++ when (truthy opts.tag_owner_output && not (str_eq opts.buffer_format (codes "1")))
            (warns "get_tag_owner / get_tag_owner_unique_id" semantic))

abbrev pub is_given {ℓ} : {A : Type ℓ} → Option A → Bool
is_given none = false
is_given (some a) = true

unfoldable pub validate_get_events_for_tags : Message → List Violation
validate_get_events_for_tags msg = elim msg.neural_memory [
  | none ↦ violates "" nil_struct
  | some nm ↦
      when (not (is_given nm.get_events_for_tags)) (violates "" nil_struct)
      ++ (when (is_given nm.search) (violates "" not_serialized)
          ++ validate_get_events_for_tags_tag_format nm.get_events_for_tags)
]

-- The two ways to name the ends of a link.
abbrev pub unpaired : LinkFields → Bool
unpaired lk =
    not (truthy lk.event_a && truthy lk.event_b)
    && not (truthy lk.unique_id_a && truthy lk.unique_id_b)

-- A float is 0 exactly if it is false.
unfoldable pub validate_link : LinkFields → List Violation
validate_link lk =
    when (unpaired lk) (violates "event_id_a+event_id_b / unique_id_a+unique_id_b" one_of_required)
    ++ (when (not (truthy lk.category)) (violates "category" required)
        ++ (when (not lk.strength_a.truth) (violates "strength_a" required)
            ++ (when (not lk.strength_b.truth) (violates "strength_b" required)
                ++ (when (not (truthy lk.timestamp)) (violates "timestamp" required)
                    ++ (when (neither lk.owner_event_id lk.owner_unique_id)
                          (violates "owner_event_id / owner_unique_id" one_of_required)
                        ++ (validate_create_link_id_set lk.id
                            ++ (when (not (truthy lk.location)) (violates "loc" required)
                                ++ when (not (truthy lk.location_separator))
                                    (violates "loc_delim" required))))))))

unfoldable pub validate_unlink : LinkFields → List Violation
validate_unlink lk =
    target_named lk.id lk.unique_id
    ++ (validate_lookup_owner_not_used_link lk
        ++ when (truthy lk.location && not (truthy lk.location_separator))
            (violates "loc_delim" required))

-- The link of a message, which must be there.
abbrev pub on_link : (LinkFields → List Violation) → Message → List Violation
on_link check msg = elim msg.neural_memory [
  | none ↦ violates "" nil_struct
  | some nm ↦ elim nm.link [ none ↦ violates "" nil_struct | some lk ↦ check lk ]
]

unfoldable pub validate_link_event : Message → List Violation
validate_link_event msg = on_link validate_link msg

unfoldable pub validate_unlink_event : Message → List Violation
validate_unlink_event msg = on_link validate_unlink msg

-- The second of the checks of a client's name; the first is the envelope's.
unfoldable pub validate_gateway_id : Message → List Violation
validate_gateway_id msg =
    when (not (truthy msg.client_name)) (violates "id:name" required)
    ++ (when (truthy msg.passcode && not (truthy msg.user_name)) (violates "id:user" required)
        ++ when (truthy msg.user_name && not (truthy msg.passcode))
            (violates "id:passcode" required))

unfoldable pub validate_actor_report : Message → List Violation
validate_actor_report msg = elim msg.response [
  | none ↦ violates "" nil_struct
  | some r ↦
      when (not (truthy r.status)) (violates "_status" required)
      ++ when (not (truthy r.message)) (violates "_msg" required)
]

unfoldable pub validate_response_intent : Message → List Violation
validate_response_intent msg = elim msg.response [
  | none ↦ warns "_status" nil_struct
  | some r ↦ when (not (truthy r.status)) (warns "_status" required)
]
