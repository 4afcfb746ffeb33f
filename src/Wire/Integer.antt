-- ===== src/Wire/Integer.antt =====
-- Python's `int(text, base)` and the format specifications `08x` and `09d`, as the size fields of
-- the wire format use them (pod_os_client/message/encoder.py and decoder.py).
pub mod Digits
pub mod Laws
use pod_os_py_client.Prelude.{
  ℕ, zero, suc, ◌+◌, ◌-◌, ◌*◌, ◌/◌, ◌%◌, Bool, true, false, not, ◌&&◌, ◌||◌, Option, none, some,
  List, [], ◌∷◌, ◌++◌, map, ltb, leb, ◌==◌, if◌then◌else◌, length, replicate, keep, ◌≡◌, refl,
}
use pod_os_py_client.Prelude.Int.{ℤ, pos, negsuc}
use pod_os_py_client.Prelude.Text.{Str, codes, is_space, lstrip_by, rstrip_by}

-- The digits of `n`, the most significant first. A round divides `n` by the base.
pub to_digits : ℕ → ℕ → ℕ → List ℕ
to_digits b zero n = []
to_digits b (suc fuel) n = elim (ltb n b) [
  | true ↦ n ∷ []
  | false ↦ to_digits b fuel (n / b) ++ (n % b) ∷ []
]

pub digit_char : ℕ → ℕ
digit_char d = if ltb d 10 then b'0' + d else b'a' + (d - 10)

-- `str(n)` at a base: `n + 1` rounds are enough.
unfoldable pub digits : ℕ → ℕ → Str
unfolding to_digits digit_char
digits b n = map digit_char (to_digits b (suc n) n)

abbrev pub zfill : ℕ → Str → Str
zfill w s = replicate (w - length s) b'0' ++ s

-- `f"x{n:08x}"`.
unfoldable pub size_field : ℕ → Str
unfolding digits
size_field n = b'x' ∷ zfill 8 (digits 16 n)

-- `f"{n:09d}"`: the sign stands before the zeros and counts for the width.
unfoldable pub type_field : ℤ → Str
unfolding digits
type_field (pos n) = zfill 9 (digits 10 n)
type_field (negsuc n) = b'-' ∷ zfill 8 (digits 10 (suc n))

-- The first digit of each range of ten decimal digits of Unicode, above ASCII.
abbrev digit_ranges : List ℕ
digit_ranges =
    0x660 ∷ 0x6f0 ∷ 0x7c0 ∷ 0x966 ∷ 0x9e6 ∷ 0xa66 ∷ 0xae6 ∷ 0xb66 ∷ 0xbe6 ∷ 0xc66 ∷ 0xce6 ∷ 0xd66
    ∷ 0xde6 ∷ 0xe50 ∷ 0xed0 ∷ 0xf20 ∷ 0x1040 ∷ 0x1090 ∷ 0x17e0 ∷ 0x1810 ∷ 0x1946 ∷ 0x19d0 ∷ 0x1a80
    ∷ 0x1a90 ∷ 0x1b50 ∷ 0x1bb0 ∷ 0x1c40 ∷ 0x1c50 ∷ 0xa620 ∷ 0xa8d0 ∷ 0xa900 ∷ 0xa9d0 ∷ 0xa9f0
    ∷ 0xaa50 ∷ 0xabf0 ∷ 0xff10 ∷ 0x104a0 ∷ 0x10d30 ∷ 0x11066 ∷ 0x110f0 ∷ 0x11136 ∷ 0x111d0 ∷ 0x112f0
    ∷ 0x11450 ∷ 0x114d0 ∷ 0x11650 ∷ 0x116c0 ∷ 0x11730 ∷ 0x118e0 ∷ 0x11950 ∷ 0x11c50 ∷ 0x11d50
    ∷ 0x11da0 ∷ 0x11f50 ∷ 0x16a60 ∷ 0x16ac0 ∷ 0x16b50 ∷ 0x1d7ce ∷ 0x1d7d8 ∷ 0x1d7e2 ∷ 0x1d7ec
    ∷ 0x1d7f6 ∷ 0x1e140 ∷ 0x1e2f0 ∷ 0x1e4f0 ∷ 0x1e950 ∷ 0x1fbf0 ∷ []

find_range : ℕ → List ℕ → Option ℕ
find_range c [] = none
find_range c (r ∷ rs) = if leb r c && ltb c (r + 10) then some (c - r) else find_range c rs

-- `int` first replaces each decimal digit and each space by its ASCII form, and other characters
-- above ASCII by a question mark.
to_ascii : ℕ → ℕ
unfolding find_range
to_ascii c =
    if ltb c 127
    then c
    else if is_space c
    then b' '
    else elim (find_range c digit_ranges) [ none ↦ b'?' | some d ↦ b'0' + d ]

-- The spaces that `int` skips at both ends.
abbrev int_space : ℕ → Bool
int_space c = (leb 9 c && leb c 13) || c == 32

pub digit_value : ℕ → Option ℕ
digit_value c =
    if leb b'0' c && leb c b'9'
    then some (c - b'0')
    else if leb b'a' c && leb c b'z'
    then some (c - b'a' + 10)
    else if leb b'A' c && leb c b'Z'
    then some (c - b'A' + 10)
    else none

-- Digits, where an underscore may stand between two. The Boolean says that the last character read
-- was a digit.
pub read_digits : ℕ → ℕ → Bool → Str → Option ℕ
read_digits b acc true [] = some acc
read_digits b acc false [] = none
read_digits b acc after (c ∷ s) = elim (c == b'_') [
  | true ↦ elim after [ true ↦ read_digits b acc false s | false ↦ none ]
  | false ↦ elim (digit_value c) [
    | none ↦ none
    | some d ↦ elim (ltb d b) [ true ↦ read_digits b (acc * b + d) true s | false ↦ none ]
  ]
]

-- `0x` may stand before the digits at base 16, and one underscore behind it.
abbrev skip_underscore : Str → Str
skip_underscore [] = []
skip_underscore (c ∷ s) = if c == b'_' then s else c ∷ s

pub skip_prefix : ℕ → Str → Str
skip_prefix b [] = []
skip_prefix b (c ∷ []) = c ∷ []
skip_prefix b (c ∷ d ∷ s) =
    if b == 16 && c == b'0' && (d == b'x' || d == b'X') then skip_underscore s else c ∷ d ∷ s

-- A decimal text of more than 4300 digits is refused.
pub too_long : ℕ → Str → Bool
too_long b s = b == 10 && ltb 4300 (length (keep (λ c. not (c == b'_')) s))

pub read_natural : ℕ → Str → Option ℕ
unfolding read_digits skip_prefix digit_value too_long
read_natural b s =
    let body = skip_prefix b s in if too_long b body then none else read_digits b 0 false body

abbrev negate : ℕ → ℤ
negate zero = pos 0
negate (suc n) = negsuc n

pub read_signed : ℕ → Str → Option ℤ
unfolding read_natural
read_signed b [] = none
read_signed b (c ∷ s) =
    if c == b'-'
    then elim (read_natural b s) [ none ↦ none | some n ↦ some (negate n) ]
    else elim (read_natural b (if c == b'+' then s else c ∷ s)) [
      | none ↦ none
      | some n ↦ some (pos n)
    ]

pub trim : Str → Str
unfolding to_ascii
trim s = rstrip_by int_space (lstrip_by int_space (map to_ascii s))

-- `int(text, base)` for base 10 or 16; `none` is a ValueError.
unfoldable pub parse_int : ℕ → Str → Option ℤ
unfolding read_signed trim
parse_int b s = read_signed b (trim s)

hex_padded : size_field 255 ≡ codes "x000000ff"
unfolding size_field
hex_padded = refl

decimal_signed : type_field (negsuc 41) ≡ codes "-00000042"
unfolding type_field
decimal_signed = refl

signed_prefixed : parse_int 16 (codes " -0x_1F ") ≡ some (negsuc 30)
unfolding parse_int
signed_prefixed = refl

grouped : parse_int 10 (codes "1_000") ≡ some (pos 1000)
unfolding parse_int
grouped = refl

arabic_digits : parse_int 10 (0x661 ∷ 0x662 ∷ []) ≡ some (pos 12)
unfolding parse_int
arabic_digits = refl

misplaced : parse_int 10 (codes "1__0") ≡ none
unfolding parse_int
misplaced = refl
