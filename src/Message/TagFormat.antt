-- ===== src/Message/TagFormat.antt =====
-- pod_os_client/message/tag_format.py: the tags of a reply's header, and their owners.
pub mod Laws
use pod_os_py_client.Prelude.{
  ℕ, zero, suc, String, Bool, true, false, List, [], ◌∷◌, ◌++◌, map, Option, none, some,
  if◌then◌else◌, drop, ◌||◌, ◌&&◌, not,
}
use pod_os_py_client.Prelude.Int.{ℤ, pos}
use pod_os_py_client.Prelude.Text.{Str, codes, str_eq, starts_with, truthy, cut_at}
use pod_os_py_client.Message.Types.{
  Message, EventFields, ResponseFields, TagOutput, NeuralMemoryFields, GetEventOptions,
  GetEventsForTagsOptions,
}
use pod_os_py_client.Message.Defaults.{empty_tag_output}
use pod_os_py_client.Wire.Integer.{parse_int}

-- `s.split(c, n)`: at most `n` cuts.
unfoldable pub split_at_most : ℕ → ℕ → Str → List Str
split_at_most zero c s = s ∷ []
split_at_most (suc n) c s = elim (cut_at c s) [
  | none ↦ s ∷ []
  | some (a, b) ↦ a ∷ split_at_most n c b
]

-- A text with nothing before `=` has no key.
unfoldable pub split_tag_key_value : Str → Str × Str
split_tag_key_value s = elim (cut_at b'=' s) [
  | none ↦ ([], s)
  | some (key, value) ↦ if truthy key then (key, value) else ([], s)
]

unfoldable pub normalize_tag_owner : Str → Str
normalize_tag_owner owner =
    if str_eq owner (codes "NULL") || starts_with owner (codes "+0000000000.000000")
    then []
    else owner

-- A number that is written, or what stood there.
abbrev pub int_or : Str → ℤ → ℤ
int_or s old = elim (parse_int 10 s) [ none ↦ old | some n ↦ n ]

-- What the parts of the name and the value say of a tag.
abbrev pub tag_of : List Str → Str × Str → Option TagOutput
tag_of [] pair = none
tag_of (n ∷ []) pair = none
tag_of (n ∷ f ∷ rest) (key, value) =
    let numbered = record empty_tag_output {
      frequency = int_or f (pos 1);
      tag_number = int_or n empty_tag_output.tag_number;
      key = key;
      value = value;
    } in
    elim rest [
      | [] ↦ some numbered
      | time ∷ more ↦ elim more [
        | [] ↦ some (record numbered { timestamp = time })
        | owner ∷ none_left ↦
            some (record numbered { timestamp = time; owner = normalize_tag_owner owner })
      ]
    ]

abbrev pub tag_prefix : Str
tag_prefix = codes "event_tag:"

unfoldable pub parse_event_tag_header : Str → Str → Option TagOutput
parse_event_tag_header name value =
    if starts_with name tag_prefix
    then tag_of (split_at_most 3 b':' (drop 10 name)) (split_tag_key_value value)
    else none

-- Whether a request asked for owners by unique id.
unfoldable pub wants_unique_ids : Message → Bool
wants_unique_ids request = elim request.neural_memory [
  | none ↦ false
  | some nm ↦ elim (str_eq request.intent (codes "GetEvent")) [
    | true ↦ elim nm.get_event [
      | none ↦ false
      | some opts ↦ str_eq opts.tag_owner_output (codes "unique_id")
    ]
    | false ↦ elim (str_eq request.intent (codes "GetEventsForTags")) [
      | true ↦ elim nm.get_events_for_tags [
        | none ↦ false
        | some opts ↦ str_eq opts.tag_owner_output (codes "unique_id")
      ]
      | false ↦ false
    ]
  ]
]

unfoldable pub move_owner : TagOutput → TagOutput
move_owner tag =
    if truthy tag.owner then record tag { owner_unique_id = tag.owner; owner = [] } else tag

unfoldable pub move_event : EventFields → EventFields
move_event ev = record ev { tags = map move_owner ev.tags }

unfoldable pub move_option : Option EventFields → Option EventFields
move_option none = none
move_option (some ev) = some (move_event ev)

unfoldable pub move_response : Option ResponseFields → Option ResponseFields
move_response none = none
move_response (some r) = some (record r { event_records = map move_event r.event_records })

-- `apply_tag_owner_output` on a request and a response that are there.
unfoldable pub apply_tag_owner_output : Message → Message → Message
apply_tag_owner_output request response =
    if wants_unique_ids request
    then record response {
      event = move_option response.event;
      response = move_response response.response;
    }
    else response
