-- ===== src/Wire/RoundTrip/Params.antt =====
-- The size and type fields, as the decoder reads them.
use pod_os_py_client.Prelude.{
  ℕ, ◌^◌, ◌<◌, true, false, [], ◌∷◌, some, ◌==◌, ◌≡◌, refl, ◌∙◌, arith, All, all,
}
use pod_os_py_client.Prelude.Int.{ℤ, pos}
use pod_os_py_client.Prelude.Text.{Str, is_ascii, is_space, strip, rstrip_by-id, lstrip_by-id}
use pod_os_py_client.Wire.Integer.{size_field, type_field, parse_int}
use pod_os_py_client.Wire.Integer.Laws.{
  IsVisible, FitsTypeField, parse_int-size_digits, parse_int-type_field, size_field-IsVisible,
  type_field-IsVisible,
}
use pod_os_py_client.Wire.Decoder.{decode_size_param, decode_type_param, size_value}

pub visible-is_ascii : (s : Str) → All IsVisible s → all is_ascii s ≡ true
visible-is_ascii [] h = refl
visible-is_ascii (c ∷ s) h = ground (arith, visible-is_ascii s h.1)

pub visible-no_nul : (s : Str) → All IsVisible s → All (λ c. (c == 0) ≡ false) s
visible-no_nul [] h = tt
visible-no_nul (c ∷ s) h = (ground arith, visible-no_nul s h.1)

visible-no_space : (s : Str) → All IsVisible s → All (λ c. is_space c ≡ false) s
visible-no_space [] h = tt
visible-no_space (c ∷ s) h = (ground arith, visible-no_space s h.1)

pub strip-visible : (s : Str) → All IsVisible s → strip s ≡ s
strip-visible s h =
    rw (lstrip_by-id is_space s (visible-no_space s h))
      (rstrip_by-id is_space s (visible-no_space s h))

visible-type : (s : Str) → All IsVisible s → decode_type_param s ≡ parse_int 10 s
unfolding decode_type_param
visible-type s v = ground (arith, visible-is_ascii s v, strip-visible s v)

visible-size : (s : Str) → All IsVisible s → decode_size_param s ≡ size_value s
unfolding decode_size_param
visible-size s v = ground (
  arith,
  rstrip_by-id (λ c. c == 0) s (visible-no_nul s v),
  visible-is_ascii s v,
  strip-visible s v,
)

pub decode-type_field : (z : ℤ) → FitsTypeField z → decode_type_param (type_field z) ≡ some z
decode-type_field z h =
    visible-type (type_field z) (type_field-IsVisible z) ∙ parse_int-type_field z h

size_value-size_field : (n : ℕ) → n < 16 ^ 8 → size_value (size_field n) ≡ some (pos n)
unfolding size_value size_field
size_value-size_field n h = parse_int-size_digits n h

pub decode-size_field : (n : ℕ) → n < 16 ^ 8 → decode_size_param (size_field n) ≡ some (pos n)
decode-size_field n h =
    visible-size (size_field n) (size_field-IsVisible n) ∙ size_value-size_field n h
