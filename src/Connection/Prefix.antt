-- ===== src/Connection/Prefix.antt =====
-- `_is_valid_length_prefix` of pod_os_client/connection/client.py.
use pod_os_py_client.Prelude.{
  ℕ, Bool, false, [], ◌∷◌, if◌then◌else◌, ◌==◌, leb, length, all, ◌&&◌, ◌||◌,
}
use pod_os_py_client.Prelude.Text.{Bytes}

abbrev pub is_dec_digit : ℕ → Bool
is_dec_digit c = leb b'0' c && leb c b'9'

abbrev pub is_hex_digit : ℕ → Bool
is_hex_digit c = is_dec_digit c || (leb b'a' c && leb c b'f') || (leb b'A' c && leb c b'F')

-- `x` and eight hexadecimal digits, or nine decimal digits.
unfoldable pub is_valid_length_prefix : Bytes → Bool
is_valid_length_prefix [] = false
is_valid_length_prefix (c ∷ s) =
    if length (c ∷ s) == 9
    then (if c == b'x' then all is_hex_digit s else all is_dec_digit (c ∷ s))
    else false
