-- ===== src/Message/Header/Carried.antt =====
-- The message id and the command in the header of each intent.
use pod_os_py_client.Prelude.{String, List, [], ◌∷◌, Option, none, some, ◌≡◌, true, refl, All}
use pod_os_py_client.Prelude.Text.{Str, codes, strip, str_eq}
use pod_os_py_client.Message.Types.{Message, EventFields}
use pod_os_py_client.Message.Header.Fields.{Layout, fields_of, field}
use pod_os_py_client.Message.Header.Reading.{last_value}
use pod_os_py_client.Message.Header.Gateway.{
  gateway_identify_connection_header, gateway_stream_on_header, gateway_disconnect_header,
  gateway_stream_off_header, actor_echo_header, actor_request_header, actor_response_header,
  status_header, status_request_header,
}
use pod_os_py_client.Message.Header.Store.{
  store_event_message_header, store_data_message_header, link_events_message_header,
  unlink_events_message_header, store_batch_events_message_header, store_batch_tags_message_header,
  batch_link_events_message_header, link_of,
}
use pod_os_py_client.Message.Header.Query.{
  get_event_message_header, get_events_for_tag_message_header, get_event_of, get_events_for_tags_of,
}
use pod_os_py_client.Message.Header.Keys.{
  message_id_key, command_key, other_keys, last_value-message_id_field,
}
use pod_os_py_client.Message.Header.Parts
use pod_os_py_client.Message.Header.{header_layout}
use pod_os_py_client.Prelude.Dict.{or_empty}

abbrev plain : String → Str × Option Str
plain name = (codes name, none)

abbrev memory : String → String → Str × Option Str
memory name command = (codes name, some (codes command))

-- The intents for which `construct_header` has a branch, each with the command that it writes.
abbrev pub header_names : List (Str × Option Str)
header_names =
    plain "GatewayId"
    ∷ plain "GatewayStreamOn"
    ∷ plain "GatewayDisconnect"
    ∷ plain "GatewayStreamOff"
    ∷ plain "ActorEcho"
    ∷ memory "StoreEvent" "store"
    ∷ memory "StoreData" "store_data"
    ∷ memory "LinkEvent" "link"
    ∷ memory "UnlinkEvent" "unlink"
    ∷ memory "GetEvent" "get"
    ∷ memory "GetEventsForTags" "events_for_tag"
    ∷ memory "StoreBatchEvents" "store_batch"
    ∷ memory "StoreBatchTags" "tag_store_batch"
    ∷ memory "StoreBatchLinks" "link_batch"
    ∷ plain "ActorRequest"
    ∷ plain "ActorResponse"
    ∷ plain "Status"
    ∷ plain "StatusRequest"
    ∷ []

-- What the fields of a layout give the two keys; the layout may be missing.
abbrev pub Carries : Message → Option Str → Option Layout → Type 0
Carries msg command none = Unit {0}
Carries msg command (some layout) =
    (or_empty (last_value message_id_key (fields_of layout)) ≡ strip msg.message_id)
    × (last_value command_key (fields_of layout) ≡ command)

last_value-command :
    (k : String) (v : Str)
    → str_eq (strip (codes k)) command_key ≡ true
    → last_value command_key (field k v) ≡ some (strip v)
unfolding field last_value
last_value-command k v e = rw e

ruleset routing_keys = (other_keys, last_value-command)

module _ (now : Str) (msg : Message) where
  identify-Carries : Carries msg none (some (gateway_identify_connection_header msg))
  unfolding gateway_identify_connection_header
  identify-Carries = (simp (routing_keys, last_value-message_id_field msg), simp (routing_keys))

  stream_on-Carries : Carries msg none (some (gateway_stream_on_header msg))
  unfolding gateway_stream_on_header
  stream_on-Carries = (last_value-message_id_field msg, simp other_keys)

  disconnect-Carries : Carries msg none (some (gateway_disconnect_header msg))
  unfolding gateway_disconnect_header
  disconnect-Carries = (last_value-message_id_field msg, simp other_keys)

  stream_off-Carries : Carries msg none (some (gateway_stream_off_header msg))
  unfolding gateway_stream_off_header
  stream_off-Carries = (last_value-message_id_field msg, simp other_keys)

  status_request-Carries : Carries msg none (some (status_request_header msg))
  unfolding status_request_header
  status_request-Carries = (last_value-message_id_field msg, simp other_keys)

  actor_request-Carries : Carries msg none (some (actor_request_header msg))
  unfolding actor_request_header
  actor_request-Carries =
      (simp (routing_keys, last_value-message_id_field msg), simp (routing_keys))

  actor_response-Carries : Carries msg none (some (actor_response_header msg))
  unfolding actor_response_header
  actor_response-Carries =
      let (a, b) = Parts.event_part-IsPlain msg.event in
      let (c, d) = Parts.response_part-IsPlain msg.response in
      (simp (routing_keys, a, c, last_value-message_id_field msg), simp (routing_keys, b, d))

  status-Carries : Carries msg none (some (status_header msg))
  unfolding status_header
  status-Carries =
      let (a, b) = Parts.event_part-IsPlain msg.event in
      let (c, d) = Parts.response_part-IsPlain msg.response in
      (simp (routing_keys, a, c, last_value-message_id_field msg), simp (routing_keys, b, d))

  store_event-Carries :
      Carries msg (some (codes "store")) (some (store_event_message_header now msg))
  unfolding store_event_message_header
  store_event-Carries =
      let (a, b) = Parts.store_event_part-IsPlain now msg msg.event in
      (simp (routing_keys, a, last_value-message_id_field msg), simp (routing_keys, b))

  link-Carries : Carries msg (some (codes "link")) (some (link_events_message_header msg))
  unfolding link_events_message_header
  link-Carries =
      let (a, b) = Parts.link_creator_part-IsPlain msg.event in
      let (c, d) = Parts.link_part-IsPlain msg (link_of msg) in
      (simp (routing_keys, a, c, last_value-message_id_field msg), simp (routing_keys, b, d))

  unlink-Carries : Carries msg (some (codes "unlink")) (some (unlink_events_message_header msg))
  unfolding unlink_events_message_header
  unlink-Carries =
      let (a, b) = Parts.unlink_part-IsPlain (link_of msg) in
      (simp (routing_keys, a, last_value-message_id_field msg), simp (routing_keys, b))

  batch_events-Carries :
      Carries msg (some (codes "store_batch")) (some (store_batch_events_message_header msg))
  unfolding store_batch_events_message_header
  batch_events-Carries = (simp (routing_keys, last_value-message_id_field msg), simp (routing_keys))

  batch_tags-Carries :
      Carries msg (some (codes "tag_store_batch")) (some (store_batch_tags_message_header msg))
  unfolding store_batch_tags_message_header
  batch_tags-Carries =
      let (a, b) = Parts.tag_target_part-IsPlain msg.event in
      (simp (routing_keys, a, last_value-message_id_field msg), simp (routing_keys, b))

  batch_links-Carries :
      Carries msg (some (codes "link_batch")) (some (batch_link_events_message_header msg))
  unfolding batch_link_events_message_header
  batch_links-Carries = (simp (routing_keys, last_value-message_id_field msg), simp (routing_keys))

  get_event-Carries : Carries msg (some (codes "get")) (some (get_event_message_header msg))
  unfolding get_event_message_header
  get_event-Carries =
      let (a, b) = Parts.lookup_event_part-IsPlain msg.event in
      let (c, d) = Parts.get_event_part-IsPlain (get_event_of msg) in
      (simp (routing_keys, a, c, last_value-message_id_field msg), simp (routing_keys, b, d))

  search-Carries :
      Carries msg (some (codes "events_for_tag")) (some (get_events_for_tag_message_header msg))
  unfolding get_events_for_tag_message_header
  search-Carries =
      let (a, b) = Parts.search_part-IsPlain (get_events_for_tags_of msg) in
      (simp (routing_keys, a, last_value-message_id_field msg), simp (routing_keys, b))

  echo-Carries : Carries msg none (some (actor_echo_header msg))
  unfolding actor_echo_header field last_value
  echo-Carries = (refl, refl)

  store_data-Carries : Carries msg (some (codes "store_data")) (store_data_message_header now msg)
  unfolding store_data_message_header
  store_data-Carries = go msg.event refl
    where
      go :
          (o : Option EventFields)
          → msg.event ≡ o
          → Carries msg (some (codes "store_data")) (store_data_message_header now msg)
      go none e = rw (e, store_data_message_header) tt
      go (some ev) e =
          rw (e, store_data_message_header)
            (simp (routing_keys, last_value-message_id_field msg), simp routing_keys)

  pub header_names-Carries :
      All
        (λ (entry : Str × Option Str). Carries msg entry.1 (header_layout now msg entry.0))
        header_names
  unfolding header_layout
  header_names-Carries = (
    identify-Carries,
    (
      stream_on-Carries,
      (
        disconnect-Carries,
        (
          stream_off-Carries,
          (
            echo-Carries,
            (
              store_event-Carries,
              (
                store_data-Carries,
                (
                  link-Carries,
                  (
                    unlink-Carries,
                    (
                      get_event-Carries,
                      (
                        search-Carries,
                        (
                          batch_events-Carries,
                          (
                            batch_tags-Carries,
                            (
                              batch_links-Carries,
                              (
                                actor_request-Carries,
                                (
                                  actor_response-Carries,
                                  (status-Carries, (status_request-Carries, tt)),
                                ),
                              ),
                            ),
                          ),
                        ),
                      ),
                    ),
                  ),
                ),
              ),
            ),
          ),
        ),
      ),
    ),
  )
