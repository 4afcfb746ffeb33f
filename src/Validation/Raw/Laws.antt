-- ===== src/Validation/Raw/Laws.antt =====
-- Encoded messages under the check of raw messages.
use pod_os_py_client.Prelude.{
  ℕ, ◌+◌, ◌^◌, ◌≤◌, ◌<◌, true, false, [], ◌∷◌, some, ok, length, ◌==◌, ◌≡◌, refl, ap, ◌∙◌, arith,
  All, le→ltb,
}
use pod_os_py_client.Prelude.Int.{ℤ, pos, +ℤ_pos, ltb_ℤ}
use pod_os_py_client.Prelude.Text.{Str, Bytes, IsAscii, slice, rstrip_by-id}
use pod_os_py_client.Prelude.Utf8
use pod_os_py_client.Prelude.Utf8.Lenient.{decode_replacing, decode_replacing-decode}
use pod_os_py_client.Intents.Constants.{Intent}
use pod_os_py_client.Message.Types.{Message}
use pod_os_py_client.Message.Header.{construct_header}
use pod_os_py_client.Message.Payload.{payload_to_bytes}
use pod_os_py_client.Message.Header.Fields.{force_ascii}
use pod_os_py_client.Wire.Integer.{size_field, type_field, parse_int}
use pod_os_py_client.Wire.Integer.Laws.{
  IsVisible, FitsTypeField, NoX, type_field-NoX, parse_int-size_digits, parse_int-type_field,
  length-type_field, size_field-IsVisible, type_field-IsVisible,
}
use pod_os_py_client.Wire.Encoder.{max_message_size, encode_message, data_type_of}
use pod_os_py_client.Wire.Decoder.{sender}
use pod_os_py_client.Wire.EndToEnd.{keep_ascii}
use pod_os_py_client.Wire.RoundTrip.{assemble_ok, assembled, keep-IsAscii}
use pod_os_py_client.Wire.RoundTrip.Params.{visible-is_ascii, visible-no_nul, strip-visible}
use pod_os_py_client.Wire.RoundTrip.Frames.{
  frame_bytes, fields_read, to_slice, from_slice, header_slice, length-frame,
}
use pod_os_py_client.Validation.{is_name_at_gateway, address_violations}
use pod_os_py_client.Validation.Address.{
  no_violation, addresses_checked, check_address-is_name_at_gateway,
}
use pod_os_py_client.Validation.Raw.{
  raw_number, raw_field, RawSizes, raw_sizes, raw_body, raw_header, raw_message,
  validate_raw_message,
}

visible-raw : (s : Str) → All IsVisible s → raw_field s ≡ raw_number s
unfolding raw_field
visible-raw s v = ground (
  arith,
  rstrip_by-id (λ c. c == 0) s (visible-no_nul s v),
  visible-is_ascii s v,
  strip-visible s v,
)

raw-size_field : (n : ℕ) → n < 16 ^ 8 → raw_field (size_field n) ≡ some (pos n)
raw-size_field n h =
    visible-raw (size_field n) (size_field-IsVisible n)
    ∙ unfold raw_number size_field in parse_int-size_digits n h

raw_number-NoX : (s : Str) → NoX s → raw_number s ≡ parse_int 10 s
unfolding raw_number
raw_number-NoX [] h = refl
raw_number-NoX (c ∷ s) h = rw h.0 refl

raw-type_field : (z : ℤ) → FitsTypeField z → raw_field (type_field z) ≡ some z
raw-type_field z h =
    visible-raw (type_field z) (type_field-IsVisible z)
    ∙ raw_number-NoX (type_field z) (type_field-NoX z)
    ∙ parse_int-type_field z h

raw_sizes_lem :
    (raw : Bytes) (total data_type : ℤ) (n : RawSizes)
    → raw_field (slice raw (pos 0) (pos 9)) ≡ some total
    → raw_field (slice raw (pos 9) (pos 18)) ≡ some n.to_length
    → raw_field (slice raw (pos 18) (pos 27)) ≡ some n.from_length
    → raw_field (slice raw (pos 27) (pos 36)) ≡ some n.header_length
    → raw_field (slice raw (pos 36) (pos 45)) ≡ some n.message_type
    → raw_field (slice raw (pos 45) (pos 54)) ≡ some data_type
    → raw_field (slice raw (pos 54) (pos 63)) ≡ some n.payload_data_length
    → raw_sizes raw ≡ ok n
unfolding raw_sizes
raw_sizes_lem raw total data_type n a b c d e f g = rw (a, b, c, d, e, f, g)

room : (a b : ℕ) → b ≤ a → ltb_ℤ (pos a) (pos b) ≡ false
room a b h = ground arith

raw_body_lem :
    (raw : Bytes) (lt lf lh lp : ℕ) (message_type : ℤ) (to from header : Str)
    → 63 + lt + lf + lh ≤ length raw
    → decode_replacing (slice raw (pos 63) (pos (63 + lt))) ≡ to
    → decode_replacing (slice raw (pos (63 + lt)) (pos (63 + lt + lf))) ≡ from
    → decode_replacing (slice raw (pos (63 + lt + lf)) (pos (63 + lt + lf + lh))) ≡ header
    → address_violations "to" to ≡ []
    → address_violations "from" (sender from) ≡ []
    → raw_body raw (record {
      to_length = pos lt;
      from_length = pos lf;
      header_length = pos lh;
      message_type = message_type;
      payload_data_length = pos lp;
    })
      ≡ raw_header message_type header (pos lp)
unfolding raw_body
raw_body_lem raw lt lf lh lp message_type to from header enough a b c d e = simp (+ℤ_pos) (
    rw
      (
        room (length raw) (63 + lt) (omega arith),
        room (length raw) (63 + lt + lf) (omega arith),
        room (length raw) (63 + lt + lf + lh) enough,
        a,
        b,
        c,
        d,
        e,
      )
      refl)

raw_small :
    (raw : Bytes)
    → 63 ≤ length raw
    → length raw ≤ max_message_size
    → validate_raw_message true (some raw) ≡ raw_message (raw_sizes raw) raw
unfolding validate_raw_message
raw_small raw lo hi = rw (le→ltb (length raw) 63 lo, le→ltb max_message_size (length raw) hi) refl

module _ (to from header : Str) (message_type data_type : ℤ) (payload : Bytes) (total : ℕ)
    (to_fits : length to < 16 ^ 8) (from_fits : length from < 16 ^ 8)
    (header_fits : length header < 16 ^ 8) (payload_fits : length payload < 16 ^ 8)
    (total_fits : total < 16 ^ 8) (message_type_fits : FitsTypeField message_type)
    (data_type_fits : FitsTypeField data_type) (to_ascii : IsAscii to) (from_ascii : IsAscii from)
    (header_ascii : IsAscii header) where
  abbrev frame : Bytes
  frame =
      frame_bytes to from header message_type data_type payload total to_fits from_fits header_fits
        payload_fits total_fits message_type_fits data_type_fits to_ascii from_ascii header_ascii

  raw_sizes-frame :
      raw_sizes frame
      ≡ ok (record {
        to_length = pos (length to);
        from_length = pos (length from);
        header_length = pos (length header);
        message_type = message_type;
        payload_data_length = pos (length payload);
      })
  raw_sizes-frame =
      let (a, b, c, d, e, f, g) =
        fields_read to from header message_type data_type payload total to_fits from_fits
          header_fits payload_fits total_fits message_type_fits data_type_fits to_ascii from_ascii
          header_ascii in
      raw_sizes_lem frame (pos total) data_type _ (ap raw_field a ∙ raw-size_field total total_fits)
        (ap raw_field b ∙ raw-size_field (length to) to_fits)
        (ap raw_field c ∙ raw-size_field (length from) from_fits)
        (ap raw_field d ∙ raw-size_field (length header) header_fits)
        (ap raw_field e ∙ raw-type_field message_type message_type_fits)
        (ap raw_field f ∙ raw-type_field data_type data_type_fits)
        (ap raw_field g ∙ raw-size_field (length payload) payload_fits)

  raw_body-frame :
      address_violations "to" to ≡ []
      → address_violations "from" (sender from) ≡ []
      → raw_message (raw_sizes frame) frame ≡ raw_header message_type header (pos (length payload))
  raw_body-frame to_named from_named =
      let shape =
        length-frame to from header message_type data_type payload total to_fits from_fits
          header_fits payload_fits total_fits message_type_fits data_type_fits to_ascii from_ascii
          header_ascii in
      let to_read =
        to_slice to from header message_type data_type payload total to_fits from_fits header_fits
          payload_fits total_fits message_type_fits data_type_fits to_ascii from_ascii
          header_ascii in
      let from_read =
        from_slice to from header message_type data_type payload total to_fits from_fits header_fits
          payload_fits total_fits message_type_fits data_type_fits to_ascii from_ascii
          header_ascii in
      let header_read =
        header_slice to from header message_type data_type payload total to_fits from_fits
          header_fits payload_fits total_fits message_type_fits data_type_fits to_ascii from_ascii
          header_ascii in
      ap (λ n. raw_message n frame) raw_sizes-frame
      ∙ raw_body_lem frame (length to) (length from) (length header) (length payload) message_type
          to from header (omega (arith, shape))
          (ap decode_replacing to_read ∙ decode_replacing-decode to (Utf8.decode_ascii to to_ascii))
          (ap decode_replacing from_read
            ∙ decode_replacing-decode from (Utf8.decode_ascii from from_ascii))
          (ap decode_replacing header_read
            ∙ decode_replacing-decode header (Utf8.decode_ascii header header_ascii))
          to_named from_named

  validate_raw_message-frame :
      63 + length to + length from + length header + length payload ≤ max_message_size
      → address_violations "to" to ≡ []
      → address_violations "from" (sender from) ≡ []
      → validate_raw_message true (some frame)
        ≡ raw_header message_type header (pos (length payload))
  validate_raw_message-frame small to_named from_named =
      let shape =
        length-frame to from header message_type data_type payload total to_fits from_fits
          header_fits payload_fits total_fits message_type_fits data_type_fits to_ascii from_ascii
          header_ascii in
      raw_small frame (omega (arith, shape)) (omega (arith, shape, small))
      ∙ raw_body-frame to_named from_named

module _ (now : Str) (msg : Message) (intent : Intent) {header : Str} {payload wire : Bytes}
    (written : construct_header now msg intent ≡ some header)
    (encoded : payload_to_bytes msg intent.name ≡ ok payload)
    (sent : encode_message now (some msg) intent ≡ ok wire) where
  pub validate_raw_message-encode_message :
      intent.message_type < 10 ^ 9
      → FitsTypeField (data_type_of msg)
      → IsAscii msg.to
      → IsAscii msg.from
      → is_name_at_gateway (sender msg.from) ≡ true
      → validate_raw_message true (some wire)
        ≡ raw_header (pos intent.message_type) (force_ascii header) (pos (length payload))
  validate_raw_message-encode_message type_fits data_fits to_ascii from_ascii named =
      let (to_checked, _) = addresses_checked now msg intent sent in
      let (small, e) =
        assemble_ok _ _ _ intent.message_type (data_type_of msg) payload
          (assembled now msg intent written encoded sent) in
      rw e (
        validate_raw_message-frame (force_ascii msg.to) (force_ascii msg.from) (force_ascii header)
          (pos intent.message_type) (data_type_of msg) payload _ (omega arith) (omega arith)
          (omega arith) (omega arith) (omega arith) type_fits data_fits (keep-IsAscii msg.to)
          (keep-IsAscii msg.from) (keep-IsAscii header)
          (omega (
            arith,
            length-type_field (data_type_of msg) data_fits,
            length-type_field (pos intent.message_type) type_fits,
          ))
          (rw (keep_ascii msg.to to_ascii)
            (no_violation "to" msg.to (check_address-is_name_at_gateway _ msg.to to_checked)))
          (rw (keep_ascii msg.from from_ascii) (no_violation "from" (sender msg.from) named)))
