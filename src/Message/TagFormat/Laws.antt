-- ===== src/Message/TagFormat/Laws.antt =====
-- Tag headers of the extended format, and moved owners.
use pod_os_py_client.Prelude.{
  ℕ, suc, List, [], ◌∷◌, ◌++◌, map, Option, none, some, ◌≡◌, refl, ap, ◌∙◌, arith, true, map-append,
}
use pod_os_py_client.Prelude.Int.{pos}
use pod_os_py_client.Prelude.Text.{Str, or_else, cut_at_first, Lacks}
use pod_os_py_client.Message.Types.{Message, EventFields, ResponseFields, TagOutput}
use pod_os_py_client.Message.Defaults.{empty_tag_output}
use pod_os_py_client.Message.TagFormat.{
  split_at_most, split_tag_key_value, normalize_tag_owner, int_or, tag_of, tag_prefix,
  parse_event_tag_header, wants_unique_ids, move_owner, move_event, move_option, move_response,
  apply_tag_owner_output,
}

split_first :
    (n c : ℕ) (a b : Str)
    → Lacks c a
    → split_at_most (suc n) c (a ++ (c ∷ b)) ≡ a ∷ split_at_most n c b
unfolding split_at_most
split_first n c a b h = rw (cut_at_first c a b h, split_at_most) refl

split_none : (c : ℕ) (s : Str) → split_at_most 0 c s ≡ s ∷ []
unfolding split_at_most
split_none c s = refl

split_four :
    (a b c d : Str)
    → Lacks b':' a
    → Lacks b':' b
    → Lacks b':' c
    → split_at_most 3 b':' (a ++ (b':' ∷ (b ++ (b':' ∷ (c ++ (b':' ∷ d)))))) ≡ a ∷ b ∷ c ∷ d ∷ []
split_four a b c d ha hb hc =
    split_first 2 b':' a _ ha
    ∙ ap (◌∷◌ a) (
        split_first 1 b':' b _ hb
        ∙ ap (◌∷◌ b) (split_first 0 b':' c d hc ∙ ap (◌∷◌ c) (split_none b':' d)))

split_pair :
    (c : ℕ) (key value : Str)
    → Lacks b'=' (c ∷ key)
    → split_tag_key_value ((c ∷ key) ++ (b'=' ∷ value)) ≡ (c ∷ key, value)
unfolding split_tag_key_value
split_pair c key value h = rw (cut_at_first b'=' (c ∷ key) value h, split_tag_key_value) refl

parse_lem :
    (rest value : Str)
    → parse_event_tag_header (tag_prefix ++ rest) value
      ≡ tag_of (split_at_most 3 b':' rest) (split_tag_key_value value)
unfolding parse_event_tag_header
parse_lem rest value = refl

-- A tag header of the extended format gives its number and its frequency as `int` reads them, or 0 and 1
-- where that is none, its time and its pair as they are written, and its owner without the ones that
-- stand for no owner (`NULL`, and what starts with the zero key), which become empty: whatever owner and
-- value hold, colons and equals signs included, if number, frequency and time hold no colon and the key
-- is not empty and holds no equals sign.
pub parse_event_tag_header-extended :
    (number frequency time owner : Str) (c : ℕ) (key value : Str)
    → Lacks b':' number
    → Lacks b':' frequency
    → Lacks b':' time
    → Lacks b'=' (c ∷ key)
    → parse_event_tag_header
        (tag_prefix ++ (number ++ (b':' ∷ (frequency ++ (b':' ∷ (time ++ (b':' ∷ owner)))))))
        ((c ∷ key) ++ (b'=' ∷ value))
      ≡ some (record empty_tag_output {
        frequency = int_or frequency (pos 1);
        tag_number = int_or number (pos 0);
        key = c ∷ key;
        value = value;
        timestamp = time;
        owner = normalize_tag_owner owner;
      })
parse_event_tag_header-extended number frequency time owner c key value hn hf ht hk =
    parse_lem _ _
    ∙ rw (split_four number frequency time owner hn hf ht, split_pair c key value hk) refl

-- All tags of a message: those of its event, and those of the records of its response.
abbrev pub records_tags : List EventFields → List TagOutput
records_tags [] = []
records_tags (ev ∷ evs) = ev.tags ++ records_tags evs

abbrev pub event_tags : Option EventFields → List TagOutput
event_tags none = []
event_tags (some ev) = ev.tags

abbrev pub response_tags : Option ResponseFields → List TagOutput
response_tags none = []
response_tags (some r) = records_tags r.event_records

abbrev pub tags_of : Message → List TagOutput
tags_of m = event_tags m.event ++ response_tags m.response

abbrev owned_by_id : TagOutput → TagOutput
owned_by_id tag = record tag { owner = []; owner_unique_id = or_else tag.owner tag.owner_unique_id }

move_owner_lem : (tag : TagOutput) (o : Str) → tag.owner ≡ o → move_owner tag ≡ owned_by_id tag
unfolding move_owner
move_owner_lem tag [] e = ground (arith, e)
move_owner_lem tag (c ∷ o) e = ground (arith, e)

map_moved : (tags : List TagOutput) → map move_owner tags ≡ map owned_by_id tags
map_moved [] = refl
map_moved (tag ∷ tags) = rw (move_owner_lem tag tag.owner refl, map_moved tags) refl

records_moved :
    (evs : List EventFields)
    → records_tags (map move_event evs) ≡ map owned_by_id (records_tags evs)
unfolding move_event
records_moved [] = refl
records_moved (ev ∷ evs) =
    rw (map_moved ev.tags, records_moved evs, map-append owned_by_id ev.tags (records_tags evs))
      refl

event_moved : (o : Option EventFields) → event_tags (move_option o) ≡ map owned_by_id (event_tags o)
unfolding move_option move_event
event_moved none = refl
event_moved (some ev) = map_moved ev.tags

response_moved :
    (o : Option ResponseFields)
    → response_tags (move_response o) ≡ map owned_by_id (response_tags o)
unfolding move_response
response_moved none = refl
response_moved (some r) = records_moved r.event_records

-- Where the request asks for owners by unique id, the tags of a response, of its event and of all its
-- records, stay the same in the same order but for their owners: each has no owner, and as unique id of
-- the owner what was its owner, or, if it had none, what stood there.
pub apply_tag_owner_output-tags :
    (request response : Message)
    → wants_unique_ids request ≡ true
    → tags_of (apply_tag_owner_output request response)
      ≡ map
          (λ (tag : TagOutput). record tag {
            owner = [];
            owner_unique_id = or_else tag.owner tag.owner_unique_id;
          })
          (tags_of response)
unfolding apply_tag_owner_output
apply_tag_owner_output-tags request response asked =
    rw
      (
        asked,
        event_moved response.event,
        response_moved response.response,
        map-append owned_by_id (event_tags response.event) (response_tags response.response),
      )
      refl
