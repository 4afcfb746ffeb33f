-- ===== src/Wire/EndToEnd.antt =====
-- The decoder, header and intent included, on the bytes that the encoder returns.
use pod_os_py_client.Prelude.{
  ℕ, ◌^◌, ◌<◌, false, Option, none, some, List, [], ◌∷◌, ok, ◌≡◌, ◌≢◌, refl, ap, ◌∙◌, All, All-In,
  In, arith,
}
use pod_os_py_client.Prelude.Int.{pos}
use pod_os_py_client.Prelude.Text.{Str, Bytes, codes, strip, or_else, IsAscii, str_eq}
use pod_os_py_client.Prelude.Dict.{Dict, lookup, or_empty, lookup-In}
use pod_os_py_client.Prelude.Utf8.{decode, encode, decode-nil, decode-encode, IsText}
use pod_os_py_client.Intents.{intent_from_message_type_and_command}
use pod_os_py_client.Intents.Constants.{
  Intent, gateway_id, gateway_stream_on, gateway_disconnect, gateway_stream_off, actor_echo,
  store_event, store_data, link_event, unlink_event, get_event, get_events_for_tags,
  store_batch_events, store_batch_tags, store_batch_links, actor_request, actor_response, status,
  status_request,
}
use pod_os_py_client.Message.Types.{Message, text_content}
use pod_os_py_client.Message.Header.{header_layout, construct_header}
use pod_os_py_client.Message.Header.Fields.{Layout, fields_of, render, decode_header, force_ascii}
use pod_os_py_client.Message.Header.Reading.{IsClean}
use pod_os_py_client.Message.Header.Keys.{message_id_key, command_key}
use pod_os_py_client.Message.Header.Carried.{header_names}
use pod_os_py_client.Message.Header.Routing.{decode_header-construct_header}
use pod_os_py_client.Message.Payload.{payload_to_bytes}
use pod_os_py_client.Wire.Integer.Laws.{FitsTypeField}
use pod_os_py_client.Wire.Encoder.{encode_message, data_type_of}
use pod_os_py_client.Wire.Decoder.{Frame, decode_frame, sender}
use pod_os_py_client.Wire.RoundTrip.{decode_frame-encode_message}
use pod_os_py_client.Wire.Envelope.{
  Envelope, envelope_of, decode_envelope, header_value, command_of, payload_of, decode_content,
}

pub keep_ascii : (s : Str) → IsAscii s → force_ascii s ≡ s
unfolding force_ascii
keep_ascii [] h = refl
keep_ascii (c ∷ s) h = ground (arith, keep_ascii s h.1)

-- The intents for which there is a header, with the command in it.
abbrev pub sendable : List (Intent × Option Str)
sendable =
    (gateway_id, none)
    ∷ (gateway_stream_on, none)
    ∷ (gateway_disconnect, none)
    ∷ (gateway_stream_off, none)
    ∷ (actor_echo, none)
    ∷ (actor_request, none)
    ∷ (actor_response, none)
    ∷ (status, none)
    ∷ (status_request, none)
    ∷ (store_event, some (codes "store"))
    ∷ (store_data, some (codes "store_data"))
    ∷ (link_event, some (codes "link"))
    ∷ (unlink_event, some (codes "unlink"))
    ∷ (get_event, some (codes "get"))
    ∷ (get_events_for_tags, some (codes "events_for_tag"))
    ∷ (store_batch_events, some (codes "store_batch"))
    ∷ (store_batch_tags, some (codes "tag_store_batch"))
    ∷ (store_batch_links, some (codes "link_batch"))
    ∷ []

-- With the command found, or with any if there is none, the message type leads back to the intent.
abbrev LeadsBack : Intent × Option Str → Type 0
LeadsBack (intent, none) =
    (c : Str) → intent_from_message_type_and_command (pos intent.message_type) c ≡ some intent
LeadsBack (intent, some command) =
    (rest : Str)
    → intent_from_message_type_and_command (pos intent.message_type) (or_else command rest)
      ≡ some intent

sendable-LeadsBack : All LeadsBack sendable
unfolding intent_from_message_type_and_command
sendable-LeadsBack = ground arith

sendable-named : All (λ (e : Intent × Option Str). lookup e.0.name header_names ≡ some e.1) sendable
sendable-named = ground arith

pub sendable-fits : All (λ (e : Intent × Option Str). e.0.message_type < 10 ^ 9) sendable
sendable-fits = ground arith

-- What the decoder takes for the command of a header.
header_value_lem : (m : Dict Str) (key : Str) → header_value m key ≡ or_empty (lookup key m)
unfolding header_value
header_value_lem m key = refl

command_found :
    (m : Dict Str) (c : Str)
    → lookup command_key m ≡ some c
    → (rest : Str) × (command_of m ≡ or_else c rest)
unfolding command_of
command_found m c h =
    let rest = or_else (header_value m (codes "_type")) (header_value m (codes "_command")) in
    (rest, ap (λ v. or_else v rest) (header_value_lem m command_key ∙ ap or_empty h))

leads_back :
    (intent : Intent) (command : Option Str) (m : Dict Str)
    → LeadsBack (intent, command)
    → lookup command_key m ≡ command
    → intent_from_message_type_and_command (pos intent.message_type) (command_of m) ≡ some intent
leads_back intent none m back h = back (command_of m)
leads_back intent (some c) m back h =
    let (rest, found) = command_found m c h in rw found (back rest)

empty_text : (c : ℕ) (s : Str) → decode [] ≢ some (c ∷ s)
empty_text c s h = ground (arith, h, decode-nil)

-- A text that is not empty and can be encoded is, as a payload of any type but
-- `application/octet-stream`, read back as it is.
pub decode_content-encode :
    (mime_type : Str) (c : ℕ) (s : Str) {bs : Bytes}
    → str_eq mime_type (codes "application/octet-stream") ≡ false
    → IsText (c ∷ s)
    → encode (c ∷ s) ≡ some bs
    → decode_content mime_type bs ≡ text_content (c ∷ s)
unfolding decode_content
decode_content-encode mime_type c s {bs = []} h text e =
    let nothing : decode [] ≡ some (c ∷ s) = decode-encode (c ∷ s) text e in
    elim (empty_text c s nothing) [ ]
decode_content-encode mime_type c s {bs = b ∷ bs} h text e =
    rw (h, decode-encode (c ∷ s) text e, decode_content) refl

module _ (now : Str) (msg : Message) (intent : Intent) (command : Option Str) (layout : Layout)
    {payload wire : Bytes} (sends : In {A = Intent × Option Str} (intent, command) sendable)
    (written : header_layout now msg intent.name ≡ some layout)
    (clean : All IsClean (fields_of layout)) (ascii : IsAscii (render layout))
    (data_fits : FitsTypeField (data_type_of msg))
    (encoded : payload_to_bytes msg intent.name ≡ ok payload)
    (sent : encode_message now (some msg) intent ≡ ok wire) where
  pub header_read :
      (construct_header now msg intent ≡ some (render layout))
      × (or_empty (lookup message_id_key (decode_header (render layout))) ≡ strip msg.message_id)
      × (lookup command_key (decode_header (render layout)) ≡ command)
  header_read =
      decode_header-construct_header now msg intent command layout
        (lookup-In intent.name header_names (
          All-In (λ (e : Intent × Option Str). lookup e.0.name header_names ≡ some e.1) sendable
            (intent, command) sendable-named sends))
        written clean

  abbrev pub arrived : Frame
  arrived = record {
    to = force_ascii msg.to;
    from = sender (force_ascii msg.from);
    header = render layout;
    message_type = pos intent.message_type;
    data_type = data_type_of msg;
    payload = payload;
  }

  pub frame_read : decode_frame wire ≡ ok arrived
  frame_read =
      decode_frame-encode_message now msg intent header_read.0 encoded sent
        (All-In (λ (e : Intent × Option Str). e.0.message_type < 10 ^ 9) sendable (intent, command)
          sendable-fits sends)
        data_fits
      ∙ ap
          (λ h. ok (record {
            to = force_ascii msg.to;
            from = sender (force_ascii msg.from);
            header = h;
            message_type = pos intent.message_type;
            data_type = data_type_of msg;
            payload = payload;
          }))
          (keep_ascii (render layout) ascii)

  decoded : decode_envelope wire ≡ ok (envelope_of arrived)
  unfolding decode_envelope
  decoded = rw frame_read refl

  -- A message of an intent that has a header, whose fields hold no separators and whose header is
  -- ASCII, is decoded, if it was encoded and its data type fits, to that intent, its id without the
  -- spaces round it, the ASCII part of its addresses (of the sender, up to a bar) and its data type.
  pub decode_envelope-encode_message :
      (env : Envelope) × (decode_envelope wire ≡ ok env)
      × (env.intent ≡ some intent)
      × (env.message_id ≡ strip msg.message_id)
      × (env.to ≡ force_ascii msg.to)
      × (env.from ≡ sender (force_ascii msg.from))
      × (env.payload.data_type ≡ data_type_of msg)
  unfolding envelope_of payload_of
  decode_envelope-encode_message =
      let m = decode_header (render layout) in
      (
        envelope_of arrived,
        decoded,
        leads_back intent command m
            (All-In LeadsBack sendable (intent, command) sendable-LeadsBack sends) header_read.2,
        header_value_lem m message_id_key ∙ header_read.1,
        refl,
        refl,
        refl,
      )
