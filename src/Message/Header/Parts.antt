-- ===== src/Message/Header/Parts.antt =====
-- The optional parts of the headers hold neither a message id nor a command.
use pod_os_py_client.Prelude.{ℕ, suc, List, [], ◌∷◌, Option, none, some, refl, enumerate, flat_map}
use pod_os_py_client.Prelude.Text.{Str}
use pod_os_py_client.Message.Types.{
  Message, EventFields, ResponseFields, LinkFields, NeuralMemoryFields, GetEventOptions,
  GetEventsForTagsOptions, Tag,
}
use pod_os_py_client.Message.Header.Reading.{last_value}
use pod_os_py_client.Message.Header.Gateway.{event_part, response_part}
use pod_os_py_client.Message.Header.Store.{
  tag_field, tag_fields, store_event_part, link_creator_part, link_ends, link_part, unlink_part,
  tag_target_part, target_field,
}
use pod_os_py_client.Message.Header.Query.{
  lookup_event_part, get_event_part, tag_owner_flag, search_flags, search_filters, search_numbers,
  search_part,
}
use pod_os_py_client.Message.Header.Keys.{IsPlain, other_keys}

pub event_part-IsPlain : (o : Option EventFields) → IsPlain (event_part o)
unfolding event_part
event_part-IsPlain none = (simp other_keys, simp other_keys)
event_part-IsPlain (some ev) = (simp other_keys, simp other_keys)

pub response_part-IsPlain : (o : Option ResponseFields) → IsPlain (response_part o)
unfolding response_part
response_part-IsPlain none = (simp other_keys, simp other_keys)
response_part-IsPlain (some r) = (simp other_keys, simp other_keys)

-- The key of a tag begins with a `t`.
numbered-IsPlain : (tags : List Tag) (n : ℕ) → IsPlain (flat_map tag_field (enumerate n tags))
unfolding tag_field last_value
numbered-IsPlain [] n = (refl, refl)
numbered-IsPlain (t ∷ ts) n = let (a, b) = numbered-IsPlain ts (suc n) in (rw a, rw b)

pub tag_fields-IsPlain : (o : Option NeuralMemoryFields) → IsPlain (tag_fields o)
unfolding tag_fields
tag_fields-IsPlain none = (simp other_keys, simp other_keys)
tag_fields-IsPlain (some nm) = numbered-IsPlain nm.tags 0

pub store_event_part-IsPlain :
    (now : Str) (msg : Message) (o : Option EventFields) → IsPlain (store_event_part now msg o)
unfolding store_event_part
store_event_part-IsPlain now msg none = (simp other_keys, simp other_keys)
store_event_part-IsPlain now msg (some ev) =
    let (a, b) = tag_fields-IsPlain msg.neural_memory in
    (simp (other_keys, a), simp (other_keys, b))

pub target_field-IsPlain : (ev : EventFields) → IsPlain (target_field ev)
target_field-IsPlain ev = (simp other_keys, simp other_keys)

pub link_creator_part-IsPlain : (o : Option EventFields) → IsPlain (link_creator_part o)
unfolding link_creator_part
link_creator_part-IsPlain none = (simp other_keys, simp other_keys)
link_creator_part-IsPlain (some ev) = (simp other_keys, simp other_keys)

link_ends-IsPlain : (link : LinkFields) → IsPlain (link_ends link)
unfolding link_ends
link_ends-IsPlain link = (simp other_keys, simp other_keys)

pub link_part-IsPlain : (msg : Message) (o : Option LinkFields) → IsPlain (link_part msg o)
unfolding link_part
link_part-IsPlain msg none = (simp other_keys, simp other_keys)
link_part-IsPlain msg (some link) =
    let (a, b) = link_ends-IsPlain link in (simp (other_keys, a), simp (other_keys, b))

pub unlink_part-IsPlain : (o : Option LinkFields) → IsPlain (unlink_part o)
unfolding unlink_part
unlink_part-IsPlain none = (simp other_keys, simp other_keys)
unlink_part-IsPlain (some link) = (simp other_keys, simp other_keys)

pub tag_target_part-IsPlain : (o : Option EventFields) → IsPlain (tag_target_part o)
unfolding tag_target_part
tag_target_part-IsPlain none = (simp other_keys, simp other_keys)
tag_target_part-IsPlain (some ev) = (simp other_keys, simp other_keys)

pub lookup_event_part-IsPlain : (o : Option EventFields) → IsPlain (lookup_event_part o)
unfolding lookup_event_part
lookup_event_part-IsPlain none = (simp other_keys, simp other_keys)
lookup_event_part-IsPlain (some ev) = (simp other_keys, simp other_keys)

pub get_event_part-IsPlain : (o : Option GetEventOptions) → IsPlain (get_event_part o)
unfolding get_event_part
get_event_part-IsPlain none = (simp other_keys, simp other_keys)
get_event_part-IsPlain (some opts) = (simp other_keys, simp other_keys)

search_filters-IsPlain : (opts : GetEventsForTagsOptions) → IsPlain (search_filters opts)
unfolding search_filters tag_owner_flag
search_filters-IsPlain opts = (simp other_keys, simp other_keys)

search_flags-IsPlain : (opts : GetEventsForTagsOptions) → IsPlain (search_flags opts)
unfolding search_flags
search_flags-IsPlain opts = (simp other_keys, simp other_keys)

search_numbers-IsPlain : (opts : GetEventsForTagsOptions) → IsPlain (search_numbers opts)
unfolding search_numbers
search_numbers-IsPlain opts = (simp other_keys, simp other_keys)

pub search_part-IsPlain : (o : Option GetEventsForTagsOptions) → IsPlain (search_part o)
unfolding search_part
search_part-IsPlain none = (simp other_keys, simp other_keys)
search_part-IsPlain (some opts) =
    let (a, b) = search_flags-IsPlain opts in
    let (c, d) = search_filters-IsPlain opts in
    let (e, f) = search_numbers-IsPlain opts in
    (simp (other_keys, a, c, e), simp (other_keys, b, d, f))
