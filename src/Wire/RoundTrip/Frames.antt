-- ===== src/Wire/RoundTrip/Frames.antt =====
-- The segments of a frame of ASCII texts, where the decoder reads them.
use pod_os_py_client.Prelude.{
  ℕ, ◌+◌, ◌^◌, ◌≤◌, ◌<◌, true, not, List, [], ◌∷◌, ◌++◌, some, length, length-append, ok, ◌≡◌, refl,
  ap, ◌∙◌, arith, All, le→ltb,
}
use pod_os_py_client.Prelude.Int.{ℤ, pos, +ℤ_pos, ltb_ℤ}
use pod_os_py_client.Prelude.Text.{Str, Bytes, IsAscii, slice, concat}
use pod_os_py_client.Prelude.Utf8
use pod_os_py_client.Wire.Integer.{size_field, type_field}
use pod_os_py_client.Wire.Integer.Laws.{length-size_field, length-type_field, FitsTypeField}
use pod_os_py_client.Wire.Encoder.{segments}
use pod_os_py_client.Wire.Decoder.{
  Frame, Sizes, read_sizes, read_body, decode_frame, sender, decode_size_param, decode_type_param,
}
use pod_os_py_client.Wire.RoundTrip.Slices.{
  slice-concat, field_0, field_1, field_2, field_3, field_4, field_5, field_6, length-seven,
  length-concat_append,
}
use pod_os_py_client.Wire.RoundTrip.Params.{decode-size_field, decode-type_field}

-- What the seven fields hold, where each is read.
read_sizes_lem :
    (wire : Bytes) (total : ℤ) (n : Sizes)
    → decode_size_param (slice wire (pos 0) (pos 9)) ≡ some total
    → decode_size_param (slice wire (pos 9) (pos 18)) ≡ some n.to_length
    → decode_size_param (slice wire (pos 18) (pos 27)) ≡ some n.from_length
    → decode_size_param (slice wire (pos 27) (pos 36)) ≡ some n.header_length
    → decode_type_param (slice wire (pos 36) (pos 45)) ≡ some n.message_type
    → decode_type_param (slice wire (pos 45) (pos 54)) ≡ some n.data_type
    → decode_size_param (slice wire (pos 54) (pos 63)) ≡ some n.payload_data_length
    → read_sizes wire ≡ ok n
unfolding read_sizes
read_sizes_lem wire total n a b c d e f g = rw (a, b, c, d, e, f, g)

abbrev sizes : ℕ → ℕ → ℕ → ℕ → ℤ → ℤ → Sizes
sizes lt lf lh lp message_type data_type = record {
  to_length = pos lt;
  from_length = pos lf;
  header_length = pos lh;
  message_type = message_type;
  data_type = data_type;
  payload_data_length = pos lp;
}

not_short : (a b : ℕ) → b ≤ a → not (ltb_ℤ (pos a) (pos b)) ≡ true
not_short a b h = ground arith

read_body_lem :
    (wire : Bytes) (lt lf lh lp : ℕ) (message_type data_type : ℤ) (to from header : Str)
    → 63 + lt + lf + lh + lp ≤ length wire
    → Utf8.decode (slice wire (pos 63) (pos (63 + lt))) ≡ some to
    → Utf8.decode (slice wire (pos (63 + lt)) (pos (63 + lt + lf))) ≡ some from
    → Utf8.decode (slice wire (pos (63 + lt + lf)) (pos (63 + lt + lf + lh))) ≡ some header
    → read_body wire (sizes lt lf lh lp message_type data_type)
      ≡ ok (record {
        to = to;
        from = sender from;
        header = header;
        message_type = message_type;
        data_type = data_type;
        payload = slice wire (pos (63 + lt + lf + lh)) (pos (63 + lt + lf + lh + lp));
      })
unfolding read_body
read_body_lem wire lt lf lh lp message_type data_type to from header room a b c =
    simp (+ℤ_pos) (rw (not_short (length wire) (63 + lt + lf + lh + lp) room, a, b, c))

module _ (to from header : Str) (message_type data_type : ℤ) (payload : Bytes) (total : ℕ)
    (to_fits : length to < 16 ^ 8) (from_fits : length from < 16 ^ 8)
    (header_fits : length header < 16 ^ 8) (payload_fits : length payload < 16 ^ 8)
    (total_fits : total < 16 ^ 8) (message_type_fits : FitsTypeField message_type)
    (data_type_fits : FitsTypeField data_type) (to_ascii : IsAscii to) (from_ascii : IsAscii from)
    (header_ascii : IsAscii header) where
  abbrev variable_part : List Bytes
  variable_part = to ∷ from ∷ header ∷ payload ∷ []

  abbrev pub frame_bytes : Bytes
  frame_bytes =
      size_field total
      ++ concat (segments to from header (type_field message_type) (type_field data_type) payload)

  nines :
      All
        (λ s. length s ≡ 9)
        (size_field total
          ∷ size_field (length to)
          ∷ size_field (length from)
          ∷ size_field (length header)
          ∷ type_field message_type
          ∷ type_field data_type
          ∷ size_field (length payload)
          ∷ [])
  nines = (
    length-size_field total total_fits,
    (
      length-size_field (length to) to_fits,
      (
        length-size_field (length from) from_fits,
        (
          length-size_field (length header) header_fits,
          (
            length-type_field message_type message_type_fits,
            (
              length-type_field data_type data_type_fits,
              (length-size_field (length payload) payload_fits, tt),
            ),
          ),
        ),
      ),
    ),
  )

  -- The seven fields, where they are read.
  pub fields_read :
      (slice frame_bytes (pos 0) (pos 9) ≡ size_field total)
      × (slice frame_bytes (pos 9) (pos 18) ≡ size_field (length to))
      × (slice frame_bytes (pos 18) (pos 27) ≡ size_field (length from))
      × (slice frame_bytes (pos 27) (pos 36) ≡ size_field (length header))
      × (slice frame_bytes (pos 36) (pos 45) ≡ type_field message_type)
      × (slice frame_bytes (pos 45) (pos 54) ≡ type_field data_type)
      × (slice frame_bytes (pos 54) (pos 63) ≡ size_field (length payload))
  fields_read = (
    field_0 _ _ _ _ _ _ _ variable_part nines,
    field_1 _ _ _ _ _ _ _ variable_part nines,
    field_2 _ _ _ _ _ _ _ variable_part nines,
    field_3 _ _ _ _ _ _ _ variable_part nines,
    field_4 _ _ _ _ _ _ _ variable_part nines,
    field_5 _ _ _ _ _ _ _ variable_part nines,
    field_6 _ _ _ _ _ _ _ variable_part nines,
  )

  read_sizes-frame :
      read_sizes frame_bytes
      ≡ ok (sizes (length to) (length from) (length header) (length payload) message_type data_type)
  read_sizes-frame =
      let (a, b, c, d, e, f, g) = fields_read in
      read_sizes_lem frame_bytes (pos total) _
        (ap decode_size_param a ∙ decode-size_field total total_fits)
        (ap decode_size_param b ∙ decode-size_field (length to) to_fits)
        (ap decode_size_param c ∙ decode-size_field (length from) from_fits)
        (ap decode_size_param d ∙ decode-size_field (length header) header_fits)
        (ap decode_type_param e ∙ decode-type_field message_type message_type_fits)
        (ap decode_type_param f ∙ decode-type_field data_type data_type_fits)
        (ap decode_size_param g ∙ decode-size_field (length payload) payload_fits)

  abbrev lead : List Bytes
  lead =
      size_field total
      ∷ size_field (length to)
      ∷ size_field (length from)
      ∷ size_field (length header)
      ∷ type_field message_type
      ∷ type_field data_type
      ∷ size_field (length payload)
      ∷ []

  length-lead : (more : List Bytes) → length (concat (lead ++ more)) ≡ 63 + length (concat more)
  length-lead more =
      omega (arith, length-concat_append lead more, length-seven _ _ _ _ _ _ _ more nines)

  pub to_slice : slice frame_bytes (pos 63) (pos (63 + length to)) ≡ to
  to_slice =
      slice-concat lead to (from ∷ header ∷ payload ∷ []) 63 (63 + length to)
        (length-seven _ _ _ _ _ _ _ [] nines) refl

  pub from_slice :
      slice frame_bytes (pos (63 + length to)) (pos (63 + length to + length from)) ≡ from
  from_slice =
      slice-concat (lead ++ (to ∷ [])) from (header ∷ payload ∷ []) (63 + length to) _
        (omega (arith, length-lead (to ∷ []), length-append to [])) refl

  pub header_slice :
      slice frame_bytes
        (pos (63 + length to + length from))
        (pos (63 + length to + length from + length header))
      ≡ header
  header_slice =
      slice-concat (lead ++ (to ∷ from ∷ [])) header (payload ∷ []) (63 + length to + length from) _
        (omega (
          arith,
          length-lead (to ∷ from ∷ []),
          length-append to (from ++ []),
          length-append from [],
        ))
        refl

  payload_slice :
      slice frame_bytes
        (pos (63 + length to + length from + length header))
        (pos (63 + length to + length from + length header + length payload))
      ≡ payload
  payload_slice =
      slice-concat (lead ++ (to ∷ from ∷ header ∷ [])) payload []
        (63 + length to + length from + length header) _
        (omega (
          arith,
          length-lead (to ∷ from ∷ header ∷ []),
          length-append to (from ++ (header ++ [])),
          length-append from (header ++ []),
          length-append header [],
        ))
        refl

  pub length-frame :
      length frame_bytes ≡ 63 + length to + length from + length header + length payload
  length-frame = omega (
    arith,
    length-lead variable_part,
    length-append to (from ++ (header ++ (payload ++ []))),
    length-append from (header ++ (payload ++ [])),
    length-append header (payload ++ []),
    length-append payload [],
  )

  abbrev frame_of : Bytes → Frame
  frame_of p = record {
    to = to;
    from = sender from;
    header = header;
    message_type = message_type;
    data_type = data_type;
    payload = p;
  }

  pub decode_frame-frame : decode_frame frame_bytes ≡ ok (frame_of payload)
  unfolding decode_frame
  decode_frame-frame =
      rw (le→ltb (length frame_bytes) 63 (omega (arith, length-frame)), read_sizes-frame)
        (read_body_lem frame_bytes (length to) (length from) (length header) (length payload)
            message_type data_type to from header (omega (arith, length-frame))
            (ap Utf8.decode to_slice ∙ Utf8.decode_ascii to to_ascii)
            (ap Utf8.decode from_slice ∙ Utf8.decode_ascii from from_ascii)
            (ap Utf8.decode header_slice ∙ Utf8.decode_ascii header header_ascii)
          ∙ ap (λ p. ok (frame_of p)) payload_slice)
