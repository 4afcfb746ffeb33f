-- ===== src/Wire/Integer/Laws.antt =====
-- Reading back what the format specifications write.
use native.Mathlib.Nat.{div-lt_iff_lt-mul, pow-suc, pow-zero}
use native.Mathlib.Decide.{dec_lt}
use pod_os_py_client.Prelude.{
  ℕ, zero, suc, ◌-◌, ◌/◌, ◌^◌, ◌≤◌, ◌<◌, Bool, false, not, some, [], ◌∷◌, map, ◌==◌, ◌≡◌, ◌≢◌, refl,
  ap, arith, All, length, length-append, length-map, length-replicate, keep, append-nil, le→ltb,
}
use pod_os_py_client.Wire.Integer.{
  to_digits, digit_char, read_digits, digits, zfill, skip_prefix, too_long, trim, to_ascii,
  int_space, read_natural, read_signed, parse_int, size_field, type_field,
}
use pod_os_py_client.Prelude.Text.{Str, lstrip_by-id, rstrip_by-id}
use pod_os_py_client.Prelude.Int.{ℤ, pos, negsuc}
use pod_os_py_client.Wire.Integer.Digits.{
  to_digits_small, to_digits_large, read-to_digits, read-zeros, IsDigitChar, zfill-IsDigitChar,
}

-- A text of printable ASCII without spaces is left alone by what `int` does before it reads digits.
abbrev pub IsVisible : ℕ → Type 0
IsVisible c = (33 ≤ c) × (c ≤ 126)

map-to_ascii : (s : Str) → All IsVisible s → map to_ascii s ≡ s
unfolding to_ascii
map-to_ascii [] h = refl
map-to_ascii (c ∷ s) h = ground (arith, map-to_ascii s h.1)

visible-no_space : (s : Str) → All IsVisible s → All (λ c. int_space c ≡ false) s
visible-no_space [] h = tt
visible-no_space (c ∷ s) h = (ground arith, visible-no_space s h.1)

trim-visible : (s : Str) → All IsVisible s → trim s ≡ s
unfolding trim
trim-visible s h =
    rw (map-to_ascii s h, lstrip_by-id int_space s (visible-no_space s h))
      (rstrip_by-id int_space s (visible-no_space s h))

pub digits-IsVisible : (s : Str) → All IsDigitChar s → All IsVisible s
digits-IsVisible [] h = tt
digits-IsVisible (c ∷ s) h = (omega arith, digits-IsVisible s h.1)

skip_prefix-digits : (b : ℕ) (s : Str) → All IsDigitChar s → skip_prefix b s ≡ s
unfolding skip_prefix
skip_prefix-digits b [] h = refl
skip_prefix-digits b (c ∷ []) h = refl
skip_prefix-digits b (c ∷ d ∷ s) h = ground arith

length-keep : (p : ℕ → Bool) (s : Str) → length (keep p s) ≤ length s
length-keep p [] = omega arith
length-keep p (c ∷ s) = ground (arith, length-keep p s)

too_long-short : (b : ℕ) (s : Str) → length s ≤ 4300 → too_long b s ≡ false
unfolding too_long
too_long-short b s h =
    rw
      (le→ltb 4300 (length (keep (λ c. not (c == b'_')) s))
        (omega (arith, length-keep (λ c. not (c == b'_')) s)))
      (ground arith)

read-digits :
    (b n : ℕ) (after : Bool) → 1 < b → b ≤ 16 → read_digits b 0 after (digits b n) ≡ some n
unfolding digits read_digits
read-digits b n after lo hi =
    rw (← append-nil (map digit_char (to_digits b (suc n) n)))
      (read-to_digits b (suc n) n after [] (omega arith) lo hi)

pub read_natural-zfill :
    (b w n : ℕ)
    → 1 < b
    → b ≤ 16
    → length (zfill w (digits b n)) ≤ 4300
    → read_natural b (zfill w (digits b n)) ≡ some n
unfolding read_natural
read_natural-zfill b w n lo hi short =
    rw (skip_prefix-digits b _ (zfill-IsDigitChar w b n (omega arith) hi), too_long-short b _ short)
      (read-zeros b (w - length (digits b n)) false (digits b n) (some n) lo hi
        (λ x. read-digits b n x lo hi))

read_signed-digits :
    (b n : ℕ) (s : Str)
    → All IsDigitChar s
    → read_natural b s ≡ some n
    → s ≢ []
    → read_signed b s ≡ some (pos n)
unfolding read_signed
read_signed-digits b n [] h e ne = absurd (ne refl)
read_signed-digits b n (c ∷ s) h e ne = ground arith

parse_int_lem : (b : ℕ) (s : Str) → parse_int b s ≡ read_signed b (trim s)
unfolding parse_int
parse_int_lem b s = refl

read_signed-minus :
    (b n : ℕ) (s : Str)
    → read_natural b s ≡ some (suc n)
    → read_signed b (b'-' ∷ s) ≡ some (negsuc n)
unfolding read_signed
read_signed-minus b n s e = ground arith

parse_int-minus :
    (n : ℕ) (s : Str)
    → All IsVisible s
    → read_natural 10 s ≡ some (suc n)
    → parse_int 10 (b'-' ∷ s) ≡ some (negsuc n)
parse_int-minus n s h e =
    rw (parse_int_lem, trim-visible (b'-' ∷ s) (omega arith, h)) (read_signed-minus 10 n s e)

-- The number of digits.
pos_exponent : (b k n : ℕ) → n < b ^ suc k → ¬ (n < b) → 0 < k
pos_exponent b zero n h large =
    let whole : b ^ 1 ≡ b = rw (pow-suc, pow-zero) (omega arith) in
    absurd (large (omega (arith, whole)))
pos_exponent b (suc k) n h large = omega arith

length-to_digits : (b k fuel n : ℕ) → 1 < b → n < b ^ k → 0 < k → length (to_digits b fuel n) ≤ k
length-to_digits b zero fuel n lo h pos_k = elim pos_k [ ]
length-to_digits b (suc k) zero n lo h pos_k = unfold to_digits in (omega arith)
length-to_digits b (suc k) (suc fuel) n lo h pos_k = elim (dec_lt n b) [
  | yes small ↦ rw (to_digits_small b fuel n small) (omega arith)
  | no large ↦
      let shorter : n / b < b ^ k = (div-lt_iff_lt-mul (omega arith)).1 (rw (pow-suc b k) at h) in
      let more : 0 < k = pos_exponent b k n h large in
      rw (to_digits_large b fuel n (omega arith), length-append)
        (omega (arith, length-to_digits b k fuel (n / b) lo shorter more))
]

pub length-zfill : (w b n : ℕ) → 1 < b → n < b ^ w → 0 < w → length (zfill w (digits b n)) ≡ w
unfolding digits
length-zfill w b n lo h w_pos =
    rw (length-append, length-replicate)
      (omega (
        arith,
        length-map digit_char (to_digits b (suc n) n),
        length-to_digits b w (suc n) n lo h w_pos,
      ))

-- A size field is nine characters wide if the size has at most eight hexadecimal digits.
pub length-size_field : (n : ℕ) → n < 16 ^ 8 → length (size_field n) ≡ 9
unfolding size_field
length-size_field n h = ap suc (length-zfill 8 16 n (omega arith) h (omega arith))

-- The numbers that fill a type field exactly.
abbrev pub FitsTypeField : ℤ → Type 0
FitsTypeField (pos n) = n < 10 ^ 9
FitsTypeField (negsuc n) = suc n < 10 ^ 8

pub length-type_field : (z : ℤ) → FitsTypeField z → length (type_field z) ≡ 9
unfolding type_field
length-type_field (pos n) h = length-zfill 9 10 n (omega arith) h (omega arith)
length-type_field (negsuc n) h = ap suc (length-zfill 8 10 (suc n) (omega arith) h (omega arith))

zfill-ne-nil : (w b n : ℕ) → 1 < b → n < b ^ w → 0 < w → zfill w (digits b n) ≢ []
zfill-ne-nil w b n lo h w_pos e = omega (arith, length-zfill w b n lo h w_pos, ap length e)

parse_int-zfill :
    (w b n : ℕ)
    → 1 < b
    → b ≤ 16
    → n < b ^ w
    → 0 < w
    → w < 10
    → parse_int b (zfill w (digits b n)) ≡ some (pos n)
unfolding parse_int
parse_int-zfill w b n lo hi h w_pos w_small =
    let made = zfill-IsDigitChar w b n (omega arith) hi in
    rw (trim-visible _ (digits-IsVisible _ made)) (
      read_signed-digits b n _ made
        (read_natural-zfill b w n lo hi (omega (arith, length-zfill w b n lo h w_pos)))
        (zfill-ne-nil w b n lo h w_pos))

-- `int(f"{n:08x}", 16)` is `n`, for every size of at most eight hexadecimal digits.
pub parse_int-size_digits :
    (n : ℕ) → n < 16 ^ 8 → parse_int 16 (zfill 8 (digits 16 n)) ≡ some (pos n)
parse_int-size_digits n h =
    parse_int-zfill 8 16 n (omega arith) (omega arith) h (omega arith) (omega arith)

-- `int(f"{n:09d}")` is `n`, for every integer that fits the field, negative ones included.
pub parse_int-type_field : (z : ℤ) → FitsTypeField z → parse_int 10 (type_field z) ≡ some z
unfolding type_field
parse_int-type_field (pos n) h =
    parse_int-zfill 9 10 n (omega arith) (omega arith) h (omega arith) (omega arith)
parse_int-type_field (negsuc n) h =
    let short = length-zfill 8 10 (suc n) (omega arith) h (omega arith) in
    let body = read_natural-zfill 10 8 (suc n) (omega arith) (omega arith) (omega (arith, short)) in
    let made = digits-IsVisible _ (zfill-IsDigitChar 8 10 (suc n) (omega arith) (omega arith)) in
    parse_int-minus n _ made body

-- The fields hold visible ASCII characters only.
pub size_field-IsVisible : (n : ℕ) → All IsVisible (size_field n)
unfolding size_field
size_field-IsVisible n =
    (omega arith, digits-IsVisible _ (zfill-IsDigitChar 8 16 n (omega arith) (omega arith)))

pub type_field-IsVisible : (z : ℤ) → All IsVisible (type_field z)
unfolding type_field
type_field-IsVisible (pos n) =
    digits-IsVisible _ (zfill-IsDigitChar 9 10 n (omega arith) (omega arith))
type_field-IsVisible (negsuc n) =
    (omega arith, digits-IsVisible _ (zfill-IsDigitChar 8 10 (suc n) (omega arith) (omega arith)))

-- A type field holds no `x`, with which hexadecimal numbers start.
abbrev pub NoX : Str → Type 0
NoX = All (λ c. (c == b'x') ≡ false)

digits-NoX : (s : Str) → All IsDigitChar s → NoX s
digits-NoX [] h = tt
digits-NoX (c ∷ s) h = (ground arith, digits-NoX s h.1)

pub type_field-NoX : (z : ℤ) → NoX (type_field z)
unfolding type_field
type_field-NoX (pos n) = digits-NoX _ (zfill-IsDigitChar 9 10 n (omega arith) (omega arith))
type_field-NoX (negsuc n) =
    (refl, digits-NoX _ (zfill-IsDigitChar 8 10 (suc n) (omega arith) (omega arith)))
