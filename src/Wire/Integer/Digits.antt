-- ===== src/Wire/Integer/Digits.antt =====
-- The digits of a number, as they are written and read.
use native.Mathlib.Nat.{div-lt_self, mod-lt, div-add-mod'}
use native.Mathlib.Decide.{dec_lt}
use pod_os_py_client.Prelude.{
  ℕ, zero, suc, ◌+◌, ◌-◌, ◌*◌, ◌/◌, ◌%◌, ◌≤◌, ◌<◌, Bool, true, Option, List, [], ◌∷◌, ◌++◌, map,
  ◌≡◌, ◌⊎◌, ap, ◌∙◌, arith, All, All-append, length, replicate, append_assoc,
}
use pod_os_py_client.Wire.Integer.{to_digits, digit_char, digit_value, read_digits, digits, zfill}
use pod_os_py_client.Prelude.Text.{Str}
use mathlib.Core.List.{map-append}

-- A digit below the base is read back from its character.
pub read_char :
    (b acc d : ℕ) (after : Bool) (s : Str)
    → d < b
    → b ≤ 16
    → read_digits b acc after (digit_char d ∷ s) ≡ read_digits b (acc * b + d) true s
unfolding read_digits digit_char digit_value
read_char b acc d true s h k = ground arith
read_char b acc d _ s h k = ground arith

pub to_digits_small : (b fuel n : ℕ) → n < b → to_digits b (suc fuel) n ≡ n ∷ []
unfolding to_digits
to_digits_small b fuel n h = ground arith

pub to_digits_large :
    (b fuel n : ℕ) → b ≤ n → to_digits b (suc fuel) n ≡ to_digits b fuel (n / b) ++ (n % b) ∷ []
unfolding to_digits
to_digits_large b fuel n h = ground arith

pub read-to_digits :
    (b fuel n : ℕ) (after : Bool) (s : Str)
    → n < fuel
    → 1 < b
    → b ≤ 16
    → read_digits b 0 after (map digit_char (to_digits b fuel n) ++ s) ≡ read_digits b n true s
read-to_digits b zero n after s h lo hi = elim h [ ]
read-to_digits b (suc fuel) n after s h lo hi = elim (dec_lt n b) [
  | yes small ↦
      rw (to_digits_small b fuel n small)
        (read_char b 0 n after s small hi ∙ ap (λ k. read_digits b k true s) (omega arith))
  | no large ↦
      let big : b ≤ n = omega arith in
      let fits : n / b < fuel = omega (arith, div-lt_self {n = n} {k = b} (omega arith) lo) in
      rw (to_digits_large b fuel n big, map-append, append_assoc)
        (read-to_digits b fuel (n / b) after (digit_char (n % b) ∷ s) fits lo hi
          ∙ read_char b (n / b) (n % b) true s (mod-lt n (omega arith)) hi
          ∙ ap (λ k. read_digits b k true s) (div-add-mod' n b))
]

pub read_zero :
    (b : ℕ) (after : Bool) (s : Str)
    → 1 < b
    → b ≤ 16
    → read_digits b 0 after (b'0' ∷ s) ≡ read_digits b 0 true s
unfolding digit_char
read_zero b after s lo hi =
    read_char b 0 0 after s (omega arith) hi ∙ ap (λ k. read_digits b k true s) (omega arith)

pub read-zeros :
    (b k : ℕ) (after : Bool) (s : Str) (r : Option ℕ)
    → 1 < b
    → b ≤ 16
    → ((x : Bool) → read_digits b 0 x s ≡ r)
    → read_digits b 0 after (replicate k b'0' ++ s) ≡ r
read-zeros b zero after s r lo hi h = h after
read-zeros b (suc k) after s r lo hi h =
    read_zero b after (replicate k b'0' ++ s) lo hi ∙ read-zeros b k true s r lo hi h

-- The characters that the format specifications write.
abbrev pub IsDigitChar : ℕ → Type 0
IsDigitChar c = ((b'0' ≤ c) × (c ≤ b'9')) ⊎ ((b'a' ≤ c) × (c ≤ b'f'))

pub to_digits-lt : (b fuel n : ℕ) → 0 < b → All (λ d. d < b) (to_digits b fuel n)
unfolding to_digits
to_digits-lt b zero n h = tt
to_digits-lt b (suc fuel) n h = elim (dec_lt n b) [
  | yes small ↦ rw (to_digits_small b fuel n small) (small, tt)
  | no large ↦
      rw (to_digits_large b fuel n (omega arith))
        (All-append _ (to_digits b fuel (n / b)) _ (to_digits-lt b fuel (n / b) h) (mod-lt n h, tt))
]

pub map-digit_char :
    (b : ℕ) (ds : List ℕ) → b ≤ 16 → All (λ d. d < b) ds → All IsDigitChar (map digit_char ds)
unfolding digit_char
map-digit_char b [] k h = tt
map-digit_char b (d ∷ ds) k h = (ground arith, map-digit_char b ds k h.1)

pub replicate-IsDigitChar : (k : ℕ) → All IsDigitChar (replicate k b'0')
replicate-IsDigitChar zero = tt
replicate-IsDigitChar (suc k) = (omega arith, replicate-IsDigitChar k)

pub zfill-IsDigitChar : (w b n : ℕ) → 0 < b → b ≤ 16 → All IsDigitChar (zfill w (digits b n))
unfolding digits
zfill-IsDigitChar w b n lo hi =
    All-append _ (replicate (w - length (digits b n)) b'0') _ (replicate-IsDigitChar _)
      (map-digit_char b _ hi (to_digits-lt b (suc n) n lo))
