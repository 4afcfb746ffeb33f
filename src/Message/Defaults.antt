-- ===== src/Message/Defaults.antt =====
-- The default values of the data classes of pod_os_client/message/types.py.
use pod_os_py_client.Prelude.{false, [], none}
use pod_os_py_client.Prelude.Int.{pos, negsuc}
use pod_os_py_client.Prelude.Text.{codes}
use pod_os_py_client.Message.Types.{
  PyFloat, TagOutput, Linked, EventFields, LinkFields, PayloadFields, no_content, GetEventOptions,
  GetEventsForTagsOptions, NeuralMemoryFields, ResponseFields, Message, Tag, no_value,
}

-- `0.0`.
abbrev pub float_zero : PyFloat
float_zero = record { text = codes "0.0"; truth = false }

abbrev pub empty_tag : Tag
empty_tag = record {
  frequency = pos 0;
  key = [];
  value = no_value;
  timestamp = [];
  id = [];
  owner = [];
  owner_unique_id = [];
}

abbrev pub empty_tag_output : TagOutput
empty_tag_output = record {
  frequency = pos 0;
  category = [];
  key = [];
  value = [];
  owner = [];
  owner_unique_id = [];
  timestamp = [];
  tag_number = pos 0;
  target_tag_id = [];
}

abbrev pub empty_linked : Linked
empty_linked = record {
  id = [];
  unique_id = [];
  source_id = [];
  source_unique_id = [];
  target_id = [];
  target_unique_id = [];
  strength = float_zero;
  category = [];
  tags = [];
  target_tags = [];
}

abbrev pub empty_event : EventFields
empty_event = record {
  unique_id = [];
  id = [];
  local_id = [];
  owner = [];
  owner_unique_id = [];
  timestamp = [];
  date_time = none;
  location = [];
  location_separator = codes "|";
  type = [];
  tags = [];
  links = [];
  payload_data = none;
  status = [];
  hits = pos 0;
}

abbrev pub empty_link : LinkFields
empty_link = record {
  unique_id = [];
  id = [];
  local_id = [];
  owner = [];
  timestamp = [];
  date_time = none;
  location = [];
  location_separator = codes "|";
  event_a = [];
  event_b = [];
  unique_id_a = [];
  unique_id_b = [];
  strength_a = float_zero;
  strength_b = float_zero;
  category = [];
  type = [];
  owner_event_id = [];
  owner_unique_id = [];
  tags = [];
  target_tags = [];
  status = [];
  message = [];
  link_error_code = none;
}

abbrev pub empty_payload : PayloadFields
empty_payload = record {
  content = no_content;
  data_type = pos 0;
  mime_type = [];
  data_size = pos 0;
}

abbrev pub empty_get_event : GetEventOptions
empty_get_event = record {
  send_data = false;
  local_id_only = false;
  tag_format = none;
  request_format = pos 0;
  first_link = pos 0;
  link_count = pos 0;
  get_tags = false;
  get_links = false;
  get_link_tags = false;
  get_target_tags = false;
  event_facet_filter = [];
  link_facet_filter = [];
  target_facet_filter = [];
  category_filter = [];
  tag_filter = [];
  tag_owner_output = [];
}

abbrev pub empty_get_events_for_tags : GetEventsForTagsOptions
empty_get_events_for_tags = record {
  event_pattern = [];
  event_pattern_high = [];
  include_brief_hits = false;
  get_all_data = false;
  first_link = pos 0;
  link_count = pos 0;
  events_per_message = pos 0;
  start_result = pos 0;
  end_result = pos 0;
  min_event_hits = pos 0;
  count_only = false;
  get_match_links = false;
  count_match_links = false;
  get_link_tags = false;
  get_target_tags = false;
  link_tag_filter = [];
  linked_events_filter = [];
  link_category = [];
  owner = [];
  owner_unique_id = [];
  get_event_object_count = false;
  buffer_results = false;
  include_tag_stats = false;
  invert_hit_tag_filter = false;
  hit_tag_filter = [];
  buffer_format = [];
  tag_owner_output = [];
}

abbrev pub empty_neural_memory : NeuralMemoryFields
empty_neural_memory = record {
  get_event = none;
  get_events_for_tags = none;
  search = none;
  link = none;
  batch_links = [];
  tags = [];
  batch_events = [];
}

abbrev pub empty_response : ResponseFields
empty_response = record {
  status = [];
  message = [];
  type = [];
  tag_count = pos 0;
  link_count = pos 0;
  link_id = [];
  date_time = none;
  total_events = pos 0;
  returned_events = pos 0;
  start_result = negsuc 0;
  end_result = negsuc 0;
  storage_error_count = pos 0;
  storage_success_count = pos 0;
  event_records = [];
  store_link_batch_event_record = none;
  store_batch_event_record = none;
  match_term_count = pos 0;
  is_buffered = false;
  brief_hits = [];
}

abbrev pub empty_message : Message
empty_message = record {
  to = [];
  from = [];
  intent = [];
  client_name = [];
  message_id = [];
  passcode = [];
  user_name = [];
  event = none;
  payload = none;
  neural_memory = none;
  response = none;
}
