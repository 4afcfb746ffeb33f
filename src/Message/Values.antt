-- ===== src/Message/Values.antt =====
-- `serialize_tag_value` of pod_os_client/message/encoder.py, with the standard base64 alphabet.
use pod_os_py_client.Prelude.{
  ℕ, ◌+◌, ◌-◌, ◌*◌, ◌/◌, ◌%◌, [], ◌∷◌, none, some, if◌then◌else◌, ltb, ◌==◌, ◌≡◌, refl,
}
use pod_os_py_client.Prelude.Text.{Str, Bytes, codes}
use pod_os_py_client.Message.Types.{
  TagValue, no_value, text_value, bool_value, int_value, float_value, bytes_value, nested_value,
  other_value,
}
use pod_os_py_client.Message.Header.Fields.{str_int}

base64_char : ℕ → ℕ
base64_char d =
    if ltb d 26
    then b'A' + d
    else if ltb d 52
    then b'a' + (d - 26)
    else if ltb d 62
    then b'0' + (d - 52)
    else if d == 62
    then b'+'
    else b'/'

-- `base64.standard_b64encode`: three bytes are four characters, and the end is padded.
pub base64 : Bytes → Str
unfolding base64_char
base64 [] = []
base64 (a ∷ []) = base64_char (a / 4) ∷ base64_char (a % 4 * 16) ∷ b'=' ∷ b'=' ∷ []
base64 (a ∷ b ∷ []) =
    base64_char (a / 4) ∷ base64_char (a % 4 * 16 + b / 16) ∷ base64_char (b % 16 * 4) ∷ b'=' ∷ []
base64 (a ∷ b ∷ c ∷ rest) =
    base64_char (a / 4)
    ∷ base64_char (a % 4 * 16 + b / 16)
    ∷ base64_char (b % 16 * 4 + c / 64)
    ∷ base64_char (c % 64)
    ∷ base64 rest

unfoldable pub serialize_tag_value : TagValue → Str
unfolding base64 str_int
serialize_tag_value no_value = []
serialize_tag_value (text_value s) = s
serialize_tag_value (bool_value b) = if b then codes "true" else codes "false"
serialize_tag_value (int_value n) = str_int n
serialize_tag_value (float_value f) = f.text
serialize_tag_value (bytes_value bs) = base64 bs
serialize_tag_value (nested_value (some json) text) = json
serialize_tag_value (nested_value none text) = text
serialize_tag_value (other_value text) = text

base64_padded : serialize_tag_value (bytes_value (codes "hello")) ≡ codes "aGVsbG8="
unfolding serialize_tag_value
base64_padded = refl
