-- ===== src/Wire/Reply/Laws.antt =====
-- What `decode_message` returns and raises.
use pod_os_py_client.Prelude.{
  Bool, true, false, Option, some, Result, ok, err, ◌>>=◌, ◌≡◌, refl, ◌⊎◌, inl, inr,
}
use pod_os_py_client.Prelude.Text.{Str, Bytes, truthy}
use pod_os_py_client.Errors.{DecodeFailure}
use pod_os_py_client.Message.Types.{Message, PyFloat}
use pod_os_py_client.Wire.Decoder.{Frame, decode_frame}
use pod_os_py_client.Wire.Envelope.{Envelope, envelope_of, decode_envelope}
use pod_os_py_client.Responses.Line.{RecordFailure}
use pod_os_py_client.Wire.Response.{has_response}
use pod_os_py_client.Wire.Reply.{
  DecodeException, decode_failed, from_decoder, from_records, name_of, message_of, Carried, single,
  search, batch, links, nothing, carried_by, payload_records, records_if, records_of_reply,
  read_records, message_with_records, decode_message,
}
use pod_os_py_client.Wire.Reply.Same.{records_of_reply-SameEnvelope}

-- The kinds of replies whose parsers raise what they do not catch.
abbrev pub CanRaise : Carried → Type 0
CanRaise search = Unit
CanRaise batch = Unit
CanRaise _ = ⊥

records_done :
    (r : Result RecordFailure Message) {msg : Message} → from_records r ≡ ok msg → r ≡ ok msg
unfolding from_records
records_done (err f) h = cc
records_done (ok m) h = cc

module _ (read_float : Str → Option PyFloat) where
  -- What raises: only the parsers of two kinds, on a payload that is not empty.
  records_if-raises :
      (kind : Carried) (has_payload : Bool) (frame : Frame) (mime_type : Str) (msg : Message)
      {failure : RecordFailure}
      → records_if read_float kind has_payload frame mime_type msg ≡ err failure
      → CanRaise kind × (has_payload ≡ true)
  unfolding payload_records
  records_if-raises single b frame mime_type msg h = cc
  records_if-raises nothing b frame mime_type msg h = cc
  records_if-raises search true frame mime_type msg h = (tt, refl)
  records_if-raises search false frame mime_type msg h = cc
  records_if-raises batch true frame mime_type msg h = (tt, refl)
  records_if-raises batch false frame mime_type msg h = cc
  records_if-raises links true frame mime_type msg h = cc
  records_if-raises links false frame mime_type msg h = cc

  abbrev pub Raises : Frame → Type 0
  Raises frame =
      CanRaise (carried_by (name_of (envelope_of frame).intent))
      × (truthy frame.payload ≡ true)
      × (has_response frame.message_type (envelope_of frame).intent ≡ true)

  records_of_reply-raises :
      (is_reply : Bool) (frame : Frame) {failure : RecordFailure}
      → records_of_reply read_float is_reply frame ≡ err failure
      → CanRaise (carried_by (name_of (envelope_of frame).intent))
        × (truthy frame.payload ≡ true)
        × (is_reply ≡ true)
  unfolding read_records
  records_of_reply-raises false frame h = cc
  records_of_reply-raises true frame h =
      let (kind, payload) =
        records_if-raises (carried_by (name_of (envelope_of frame).intent)) (truthy frame.payload)
          frame _ _ h in
      (kind, payload, refl)

  abbrev finish : Result DecodeFailure Frame → Result DecodeException Message
  finish r = from_decoder r >>= λ frame. from_records (message_with_records read_float frame)

  frame_done :
      (r : Result DecodeFailure Frame) (msg : Message)
      → finish r ≡ ok msg
      → (frame : Frame) × (r ≡ ok frame) × (message_with_records read_float frame ≡ ok msg)
  unfolding from_decoder
  frame_done (err e) msg h = cc
  frame_done (ok frame) msg h =
      (frame, refl, records_done (message_with_records read_float frame) h)

  raised_by_records :
      (r : Result RecordFailure Message) (raised : DecodeException)
      → from_records r ≡ err raised
      → (failure : RecordFailure) × (r ≡ err failure)
  unfolding from_records
  raised_by_records (err f) raised h = (f, refl)
  raised_by_records (ok msg) raised h = cc

  abbrev pub Origin : Bytes → DecodeException → Type 0
  Origin wire raised =
      ((failure : DecodeFailure) × (raised ≡ decode_failed failure)
        × (decode_frame wire ≡ err failure))
      ⊎ ((frame : Frame) × (decode_frame wire ≡ ok frame) × Raises frame)

  raised_from :
      (wire : Bytes) (raised : DecodeException) (r : Result DecodeFailure Frame)
      → decode_frame wire ≡ r
      → finish r ≡ err raised
      → Origin wire raised
  unfolding from_decoder message_with_records
  raised_from wire raised (err e) read h = inl (e, cc, read)
  raised_from wire raised (ok frame) read h =
      let (failure, e) = raised_by_records (message_with_records read_float frame) raised h in
      inr (frame, read, records_of_reply-raises _ frame e)

  -- What `decode_message` raises is the DecodeError of the frame, or comes from the parsers of the
  -- records: then the frame was read, is a response to a search or to a batch of events, and has a
  -- payload.
  pub decode_message-raises :
      (wire : Bytes) (raised : DecodeException)
      → decode_message read_float wire ≡ err raised
      → Origin wire raised
  unfolding decode_message
  decode_message-raises wire raised h = raised_from wire raised (decode_frame wire) refl h

  -- A message that is decoded has the envelope and the payload of its frame, whatever its records are.
  pub decode_message-envelope :
      (wire : Bytes) {msg : Message}
      → decode_message read_float wire ≡ ok msg
      → (env : Envelope) × (decode_envelope wire ≡ ok env)
        × (msg.to ≡ env.to)
        × (msg.from ≡ env.from)
        × (msg.intent ≡ name_of env.intent)
        × (msg.message_id ≡ env.message_id)
        × (msg.client_name ≡ env.client_name)
        × (msg.passcode ≡ env.passcode)
        × (msg.user_name ≡ env.user_name)
        × (msg.payload ≡ some env.payload)
  unfolding decode_message message_with_records decode_envelope message_of
  decode_message-envelope wire {msg} h =
      let (frame, read, records) = frame_done (decode_frame wire) msg h in
      let (a, b, c, d, e, f, g, i) = records_of_reply-SameEnvelope read_float _ frame records in
      (envelope_of frame, rw read refl, a, b, c, d, e, f, g, i)
