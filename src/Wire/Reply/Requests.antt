-- ===== src/Wire/Reply/Requests.antt =====
-- An encoded message is decoded, as a whole.
use pod_os_py_client.Prelude.{
  Bool, true, false, Option, some, ok, ◌≡◌, refl, ap, ◌∙◌, sym, All, All-In, In, arith, not, ◌&&◌,
  ok-injective,
}
use pod_os_py_client.Prelude.Int.{pos}
use pod_os_py_client.Prelude.Text.{Str, Bytes, strip, IsAscii}
use pod_os_py_client.Intents.Constants.{Intent}
use pod_os_py_client.Message.Types.{Message, PyFloat}
use pod_os_py_client.Message.Header.{header_layout}
use pod_os_py_client.Message.Header.Fields.{Layout, fields_of, render, force_ascii}
use pod_os_py_client.Message.Header.Reading.{IsClean}
use pod_os_py_client.Message.Payload.{payload_to_bytes}
use pod_os_py_client.Wire.Integer.Laws.{FitsTypeField}
use pod_os_py_client.Wire.Encoder.{encode_message, data_type_of}
use pod_os_py_client.Wire.Decoder.{Frame, decode_frame, sender}
use pod_os_py_client.Wire.Envelope.{Envelope, envelope_of, decode_envelope}
use pod_os_py_client.Wire.Response.{has_response, occurs}
use pod_os_py_client.Wire.EndToEnd.{sendable, arrived, frame_read, decode_envelope-encode_message}
use pod_os_py_client.Wire.Reply.{
  Carried, single, search, batch, links, nothing, carried_by, name_of, from_decoder, from_records,
  records_of_reply, read_records, records_if, message_with_records, decode_message,
}
use pod_os_py_client.Wire.Reply.Laws.{decode_message-envelope}

-- A message of this intent is no response, or carries no records.
abbrev is_nothing : Carried → Bool
is_nothing nothing = true
is_nothing _ = false

abbrev reads_records : Intent → Bool
reads_records i = has_response (pos i.message_type) (some i) && not (is_nothing (carried_by i.name))

sendable-quiet : All (λ (e : Intent × Option Str). reads_records e.0 ≡ false) sendable
unfolding has_response carried_by occurs
sendable-quiet = ground arith

module _ (read_float : Str → Option PyFloat) where
  nothing_read :
      (kind : Carried) (has_payload : Bool) (frame : Frame) (mime_type : Str) (msg : Message)
      → is_nothing kind ≡ true
      → records_if read_float kind has_payload frame mime_type msg ≡ ok msg
  nothing_read nothing b frame mime_type msg h = refl
  nothing_read single b frame mime_type msg h = cc
  nothing_read search b frame mime_type msg h = cc
  nothing_read batch b frame mime_type msg h = cc
  nothing_read links b frame mime_type msg h = cc

  quiet_reply :
      (is_reply : Bool) (frame : Frame)
      → (is_reply && not (is_nothing (carried_by (name_of (envelope_of frame).intent)))) ≡ false
      → (msg : Message) × (records_of_reply read_float is_reply frame ≡ ok msg)
  unfolding read_records
  quiet_reply false frame h = (_, refl)
  quiet_reply true frame h = (_, nothing_read _ _ frame _ _ (ground (arith, h)))

  read_done :
      (wire : Bytes) (frame : Frame) {msg : Message}
      → decode_frame wire ≡ ok frame
      → message_with_records read_float frame ≡ ok msg
      → decode_message read_float wire ≡ ok msg
  unfolding decode_message from_decoder from_records
  read_done wire frame read full = rw (read, full) refl

name_of_intent :
    (env : Envelope) {intent : Intent} → env.intent ≡ some intent → name_of env.intent ≡ intent.name
unfolding name_of
name_of_intent env h = rw h refl

module _ (read_float : Str → Option PyFloat) (now : Str) (msg : Message) (intent : Intent)
    (command : Option Str) (layout : Layout) {payload wire : Bytes}
    (sends : In {A = Intent × Option Str} (intent, command) sendable)
    (written : header_layout now msg intent.name ≡ some layout)
    (clean : All IsClean (fields_of layout)) (ascii : IsAscii (render layout))
    (data_fits : FitsTypeField (data_type_of msg))
    (encoded : payload_to_bytes msg intent.name ≡ ok payload)
    (sent : encode_message now (some msg) intent ≡ ok wire) where
  abbrev frame : Frame
  frame = arrived now msg intent command layout sends written clean ascii data_fits encoded sent

  frame_decoded : decode_frame wire ≡ ok frame
  frame_decoded =
      frame_read now msg intent command layout sends written clean ascii data_fits encoded sent

  frame_envelope : decode_envelope wire ≡ ok (envelope_of frame)
  unfolding decode_envelope
  frame_envelope = rw frame_decoded refl

  quiet : (full : Message) × (message_with_records read_float frame ≡ ok full)
  unfolding message_with_records name_of
  quiet =
      let (env, read, is_intent, _, _, _, _) =
        decode_envelope-encode_message now msg intent command layout sends written clean ascii
          data_fits encoded sent in
      let same : (envelope_of frame).intent ≡ some intent =
        ap Envelope.intent (ok-injective (sym frame_envelope ∙ read)) ∙ is_intent in
      quiet_reply read_float _ frame (
        rw same (
          All-In (λ (e : Intent × Option Str). reads_records e.0 ≡ false) sendable (intent, command)
            sendable-quiet sends))

  -- A message of an intent that has a header, whose fields hold no separators and whose header is
  -- ASCII, is decoded, if it was encoded and its data type fits, to a message of that intent, whatever
  -- its payload is and however `float` reads texts, with its id without the spaces round it and the
  -- ASCII part of its addresses (of the sender, up to a bar).
  pub decode_message-encode_message :
      (decoded : Message) × (decode_message read_float wire ≡ ok decoded)
      × (decoded.intent ≡ intent.name)
      × (decoded.message_id ≡ strip msg.message_id)
      × (decoded.to ≡ force_ascii msg.to)
      × (decoded.from ≡ sender (force_ascii msg.from))
  decode_message-encode_message =
      let (env, read, is_intent, id, to, from, _) =
        decode_envelope-encode_message now msg intent command layout sends written clean ascii
          data_fits encoded sent in
      let (full, records) = quiet in
      let decoded = read_done read_float wire frame frame_decoded records in
      let (env', read', to', from', intent', id', _, _, _, _) =
        decode_message-envelope read_float wire decoded in
      let e : env' ≡ env = ok-injective (sym read' ∙ read) in
      (
        full,
        decoded,
        intent' ∙ ap (λ (v : Envelope). name_of v.intent) e ∙ name_of_intent env is_intent,
        id' ∙ ap Envelope.message_id e ∙ id,
        to' ∙ ap Envelope.to e ∙ to,
        from' ∙ ap Envelope.from e ∙ from,
      )
