-- ===== src/Message/Types.antt =====
-- The data classes of pod_os_client/message/types.py. A field that Python spells `from_` or `data`
-- is `from` or `content` here. A float is what the client sees of it, its text and its truth value.
use pod_os_py_client.Prelude.{Bool, List, Option}
use pod_os_py_client.Prelude.Int.{ℤ}
use pod_os_py_client.Prelude.Text.{Str, Bytes}

pub record PyFloat : Type 0 where
  pub text : Str
  pub truth : Bool

-- A tag's value. Of a dict, a list or a tuple: the result of `json.dumps`, if it does not raise, and
-- of `str`; of any other object: the result of `str`.
pub data TagValue : Type 0 where
  no_value : TagValue
  text_value : Str → TagValue
  bool_value : Bool → TagValue
  int_value : ℤ → TagValue
  float_value : PyFloat → TagValue
  bytes_value : Bytes → TagValue
  nested_value : Option Str → Str → TagValue
  other_value : Str → TagValue

pub record DateTimeObject : Type 0 where
  pub year : ℤ
  pub month : ℤ
  pub day : ℤ
  pub hour : ℤ
  pub minute : ℤ
  pub second : ℤ
  pub microsecond : ℤ

pub record Tag : Type 0 where
  pub frequency : ℤ
  pub key : Str
  pub value : TagValue
  pub timestamp : Str
  pub id : Str
  pub owner : Str
  pub owner_unique_id : Str

pub record TagOutput : Type 0 where
  pub frequency : ℤ
  pub category : Str
  pub key : Str
  pub value : Str
  pub owner : Str
  pub owner_unique_id : Str
  pub timestamp : Str
  pub tag_number : ℤ
  pub target_tag_id : Str

pub record Linked : Type 0 where
  pub id : Str
  pub unique_id : Str
  pub source_id : Str
  pub source_unique_id : Str
  pub target_id : Str
  pub target_unique_id : Str
  pub strength : PyFloat
  pub category : Str
  pub tags : List TagOutput
  pub target_tags : List TagOutput

-- The payload of an event in a response: the decoder sets its type and size only.
pub record EventPayload : Type 0 where
  pub mime_type : Str
  pub data_size : ℤ

pub record EventFields : Type 0 where
  pub unique_id : Str
  pub id : Str
  pub local_id : Str
  pub owner : Str
  pub owner_unique_id : Str
  pub timestamp : Str
  pub date_time : Option DateTimeObject
  pub location : Str
  pub location_separator : Str
  pub type : Str
  pub tags : List TagOutput
  pub links : List Linked
  pub payload_data : Option EventPayload
  pub status : Str
  pub hits : ℤ

pub record LinkFields : Type 0 where
  pub unique_id : Str
  pub id : Str
  pub local_id : Str
  pub owner : Str
  pub timestamp : Str
  pub date_time : Option DateTimeObject
  pub location : Str
  pub location_separator : Str
  pub event_a : Str
  pub event_b : Str
  pub unique_id_a : Str
  pub unique_id_b : Str
  pub strength_a : PyFloat
  pub strength_b : PyFloat
  pub category : Str
  pub type : Str
  pub owner_event_id : Str
  pub owner_unique_id : Str
  pub tags : List TagOutput
  pub target_tags : List TagOutput
  pub status : Str
  pub message : Str
  pub link_error_code : Option ℤ

pub record BatchEventSpec : Type 0 where
  pub event : EventFields
  pub tags : List Tag

pub record BatchLinkEventSpec : Type 0 where
  pub event : EventFields
  pub link : LinkFields

-- An item of a list that stands as a payload, and the payload: what the encoder tells apart.
pub data Item : Type 0 where
  event_item : BatchEventSpec → Item
  link_item : BatchLinkEventSpec → Item
  tag_item : Tag → Item
  text_item : Str → Item
  other_item : Item

pub data Content : Type 0 where
  no_content : Content
  text_content : Str → Content
  bytes_content : Bytes → Content
  list_content : List Item → Content
  other_content : Content

pub record PayloadFields : Type 0 where
  pub content : Content
  pub data_type : ℤ
  pub mime_type : Str
  pub data_size : ℤ

-- `tag_owner_output` is a `str` enumeration: it is compared as a text.
pub record GetEventOptions : Type 0 where
  pub send_data : Bool
  pub local_id_only : Bool
  pub tag_format : Option ℤ
  pub request_format : ℤ
  pub first_link : ℤ
  pub link_count : ℤ
  pub get_tags : Bool
  pub get_links : Bool
  pub get_link_tags : Bool
  pub get_target_tags : Bool
  pub event_facet_filter : Str
  pub link_facet_filter : Str
  pub target_facet_filter : Str
  pub category_filter : Str
  pub tag_filter : Str
  pub tag_owner_output : Str

pub record GetEventsForTagsOptions : Type 0 where
  pub event_pattern : Str
  pub event_pattern_high : Str
  pub include_brief_hits : Bool
  pub get_all_data : Bool
  pub first_link : ℤ
  pub link_count : ℤ
  pub events_per_message : ℤ
  pub start_result : ℤ
  pub end_result : ℤ
  pub min_event_hits : ℤ
  pub count_only : Bool
  pub get_match_links : Bool
  pub count_match_links : Bool
  pub get_link_tags : Bool
  pub get_target_tags : Bool
  pub link_tag_filter : Str
  pub linked_events_filter : Str
  pub link_category : Str
  pub owner : Str
  pub owner_unique_id : Str
  pub get_event_object_count : Bool
  pub buffer_results : Bool
  pub include_tag_stats : Bool
  pub invert_hit_tag_filter : Bool
  pub hit_tag_filter : Str
  pub buffer_format : Str
  pub tag_owner_output : Str

pub record SearchOptions : Type 0 where
  pub clause : Str
  pub parameters : Str
  pub buffer_results : Bool
  pub include_tag_stats : Bool
  pub invert_hit_tag_filter : Bool
  pub hit_tag_filter : Str
  pub buffer_format : Str

pub record NeuralMemoryFields : Type 0 where
  pub get_event : Option GetEventOptions
  pub get_events_for_tags : Option GetEventsForTagsOptions
  pub search : Option SearchOptions
  pub link : Option LinkFields
  pub batch_links : List BatchLinkEventSpec
  pub tags : List Tag
  pub batch_events : List BatchEventSpec

pub record StoreBatchEventRecord : Type 0 where
  pub status : Str
  pub message : Str
  pub event_count : ℤ
  pub event_results : List EventFields

pub record StoreLinkBatchEventRecord : Type 0 where
  pub status : Str
  pub message : Str
  pub total_link_requests_found : ℤ
  pub links_ok : ℤ
  pub links_with_errors : ℤ
  pub link_results : List LinkFields

pub record BriefHitRecord : Type 0 where
  pub event_id : Str
  pub total_hits : ℤ

pub record ResponseFields : Type 0 where
  pub status : Str
  pub message : Str
  pub type : Str
  pub tag_count : ℤ
  pub link_count : ℤ
  pub link_id : Str
  pub date_time : Option DateTimeObject
  pub total_events : ℤ
  pub returned_events : ℤ
  pub start_result : ℤ
  pub end_result : ℤ
  pub storage_error_count : ℤ
  pub storage_success_count : ℤ
  pub event_records : List EventFields
  pub store_link_batch_event_record : Option StoreLinkBatchEventRecord
  pub store_batch_event_record : Option StoreBatchEventRecord
  pub match_term_count : ℤ
  pub is_buffered : Bool
  pub brief_hits : List BriefHitRecord

pub record Message : Type 0 where
  pub to : Str
  pub from : Str
  pub intent : Str
  pub client_name : Str
  pub message_id : Str
  pub passcode : Str
  pub user_name : Str
  pub event : Option EventFields
  pub payload : Option PayloadFields
  pub neural_memory : Option NeuralMemoryFields
  pub response : Option ResponseFields

-- `Message.processing_status` and `Message.processing_message`.
unfoldable pub processing_status : Message → Str
processing_status msg = elim msg.response [ Option.none ↦ List.[] | Option.some r ↦ r.status ]

unfoldable pub processing_message : Message → Str
processing_message msg = elim msg.response [ Option.none ↦ List.[] | Option.some r ↦ r.message ]
