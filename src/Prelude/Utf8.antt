-- ===== src/Prelude/Utf8.antt =====
-- Python's UTF-8 codec with strict errors: `str.encode("utf-8")` and `bytes.decode("utf-8")`.
pub mod Lenient
use pod_os_py_client.Prelude.Tests.{Option-cases, ltb, leb, ◌==◌, if◌then◌else◌}
use pod_os_py_client.Prelude.Lists.{All}
use pod_os_py_client.Prelude.Text.{Str, Bytes, IsAscii}
use Prim.Native.Nat.{ℕ, zero, suc, ◌+◌, ◌-◌, ◌*◌, ◌/◌, ◌%◌, ◌≤◌, ◌<◌}
use mathlib.Core.Path.{◌≡◌, refl, ◌∙◌, ap}
use mathlib.Core.Logic.{◌⊎◌, inl, inr}
use mathlib.Core.Bool.{true, false, ◌&&◌}
use mathlib.Core.Option.{Option, none, some}
use mathlib.Core.List.{[], ◌∷◌, ◌++◌}
use native.Mathlib.Omega.{arith}

-- The decoder between two bytes: at a character's start, or inside a character with the value so
-- far, the range of the next byte and the number of bytes behind that one.
pub data Decoder : Type 0 where
  ready : Decoder
  within : ℕ → ℕ → ℕ → ℕ → Decoder

-- A leading byte: the overlong forms, the surrogates and what lies above U+10FFFF are refused.
unfoldable pub lead : ℕ → Option Decoder
lead b =
    if leb 0xc2 b && leb b 0xdf
    then some (within (b - 0xc0) 0x80 0xbf 0)
    else if b == 0xe0
    then some (within 0 0xa0 0xbf 1)
    else if b == 0xed
    then some (within 0xd 0x80 0x9f 1)
    else if leb 0xe1 b && leb b 0xef
    then some (within (b - 0xe0) 0x80 0xbf 1)
    else if b == 0xf0
    then some (within 0 0x90 0xbf 2)
    else if leb 0xf1 b && leb b 0xf3
    then some (within (b - 0xf0) 0x80 0xbf 2)
    else if b == 0xf4
    then some (within 4 0x80 0x8f 2)
    else none

unfoldable pub run : Decoder → Bytes → Option Str
run ready [] = some []
run (within _ _ _ _) [] = none
run ready (b ∷ bs) = elim (ltb b 0x80) [
  | true ↦ elim (run ready bs) [ none ↦ none | some s ↦ some (b ∷ s) ]
  | false ↦ elim (lead b) [ none ↦ none | some d ↦ run d bs ]
]
run (within acc lo hi zero) (b ∷ bs) = elim (leb lo b && leb b hi) [
  | true ↦ elim (run ready bs) [ none ↦ none | some s ↦ some ((acc * 64 + (b - 0x80)) ∷ s) ]
  | false ↦ none
]
run (within acc lo hi (suc n)) (b ∷ bs) = elim (leb lo b && leb b hi) [
  | true ↦ run (within (acc * 64 + (b - 0x80)) 0x80 0xbf n) bs
  | false ↦ none
]

-- `bytes.decode("utf-8")`; `none` is a UnicodeDecodeError.
unfoldable pub decode : Bytes → Option Str
unfolding run
decode bs = run ready bs

-- An ASCII text is its own decoding.
pub decode_ascii : (s : Str) → IsAscii s → decode s ≡ some s
unfolding decode
decode_ascii [] h = refl
decode_ascii (c ∷ s) h = ground (arith, decode_ascii s h.1)

-- A character's bytes. A surrogate has none.
encode_char : ℕ → Option Bytes
encode_char c =
    if ltb c 0x80
    then some (c ∷ [])
    else if ltb c 0x800
    then some ((0xc0 + c / 64) ∷ (0x80 + c % 64) ∷ [])
    else if leb 0xd800 c && leb c 0xdfff
    then none
    else if ltb c 0x10000
    then some ((0xe0 + c / 4096) ∷ (0x80 + c / 64 % 64) ∷ (0x80 + c % 64) ∷ [])
    else some
        ((0xf0 + c / 262144) ∷ (0x80 + c / 4096 % 64) ∷ (0x80 + c / 64 % 64) ∷ (0x80 + c % 64) ∷ [])

-- `str.encode("utf-8")`; `none` is a UnicodeEncodeError.
unfoldable pub encode : Str → Option Bytes
unfolding encode_char
encode [] = some []
encode (c ∷ s) = elim (encode_char c) [
  | none ↦ none
  | some b ↦ elim (encode s) [ none ↦ none | some bs ↦ some (b ++ bs) ]
]

-- The code points of Python.
abbrev pub IsText : Str → Type 0
IsText = All (λ c. c < 0x110000)

abbrev pub cons_option : ℕ → Option Str → Option Str
cons_option c none = none
cons_option c (some s) = some (c ∷ s)

run-lead :
    (b : ℕ) (bs : Bytes) (d : Decoder) → 0x80 ≤ b → lead b ≡ some d → run ready (b ∷ bs) ≡ run d bs
unfolding run
run-lead b bs d h e = ground arith

run_next :
    (acc lo hi n b : ℕ) (bs : Bytes)
    → lo ≤ b
    → b ≤ hi
    → run (within acc lo hi (suc n)) (b ∷ bs) ≡ run (within (acc * 64 + (b - 0x80)) 0x80 0xbf n) bs
unfolding run
run_next acc lo hi n b bs h k = ground arith

run_last :
    (acc lo hi b c : ℕ) (bs : Bytes)
    → lo ≤ b
    → b ≤ hi
    → acc * 64 + (b - 0x80) ≡ c
    → run (within acc lo hi 0) (b ∷ bs) ≡ cons_option c (run ready bs)
unfolding run
run_last acc lo hi b c bs h k e = ground arith

lead_two : (q : ℕ) → 2 ≤ q → q ≤ 31 → lead (0xc0 + q) ≡ some (within q 0x80 0xbf 0)
unfolding lead
lead_two q h k = ground arith

-- The least and the greatest byte that may follow a leading byte of three or of four.
abbrev least : ℕ → ℕ → ℕ
least first q = if q == 0 then first else 0x80

abbrev greatest : ℕ → ℕ → ℕ → ℕ
greatest special last q = if q == special then last else 0xbf

lead_three :
    (q : ℕ) → q ≤ 15 → lead (0xe0 + q) ≡ some (within q (least 0xa0 q) (greatest 13 0x9f q) 1)
unfolding lead
lead_three q k = ground arith

lead_four : (q : ℕ) → q ≤ 4 → lead (0xf0 + q) ≡ some (within q (least 0x90 q) (greatest 4 0x8f q) 2)
unfolding lead
lead_four q k = ground arith

run_two :
    (c : ℕ) (rest : Bytes)
    → 0x80 ≤ c
    → c < 0x800
    → run ready ((0xc0 + c / 64) ∷ (0x80 + c % 64) ∷ rest) ≡ cons_option c (run ready rest)
run_two c rest h k =
    run-lead (0xc0 + c / 64) _ _ (omega arith) (lead_two (c / 64) (omega arith) (omega arith))
    ∙ run_last (c / 64) 0x80 0xbf (0x80 + c % 64) c rest (omega arith) (omega arith) (omega arith)

run_one : (c : ℕ) (rest : Bytes) → c < 0x80 → run ready (c ∷ rest) ≡ cons_option c (run ready rest)
unfolding run
run_one c rest h = ground arith

run_three :
    (c : ℕ) (rest : Bytes)
    → 0x800 ≤ c
    → c < 0x10000
    → (c < 0xd800) ⊎ (0xdfff < c)
    → run ready ((0xe0 + c / 4096) ∷ (0x80 + c / 64 % 64) ∷ (0x80 + c % 64) ∷ rest)
      ≡ cons_option c (run ready rest)
run_three c rest h k scalar =
    run-lead (0xe0 + c / 4096) _ _ (omega arith) (lead_three (c / 4096) (omega arith))
    ∙ run_next (c / 4096) (least 0xa0 (c / 4096)) (greatest 13 0x9f (c / 4096)) 0
        (0x80 + c / 64 % 64) _ (ground arith) (ground arith)
    ∙ run_last _ 0x80 0xbf (0x80 + c % 64) c rest (omega arith) (omega arith) (omega arith)

run_four :
    (c : ℕ) (rest : Bytes)
    → 0x10000 ≤ c
    → c < 0x110000
    → run ready (
        (0xf0 + c / 262144)
        ∷ (0x80 + c / 4096 % 64)
        ∷ (0x80 + c / 64 % 64)
        ∷ (0x80 + c % 64)
        ∷ rest)
      ≡ cons_option c (run ready rest)
run_four c rest h k =
    run-lead (0xf0 + c / 262144) _ _ (omega arith) (lead_four (c / 262144) (omega arith))
    ∙ run_next (c / 262144) (least 0x90 (c / 262144)) (greatest 4 0x8f (c / 262144)) 1
        (0x80 + c / 4096 % 64) _ (ground arith) (ground arith)
    ∙ run_next _ 0x80 0xbf 0 (0x80 + c / 64 % 64) _ (omega arith) (omega arith)
    ∙ run_last _ 0x80 0xbf (0x80 + c % 64) c rest (omega arith) (omega arith) (omega arith)

run_char :
    (c : ℕ) {b : Bytes} (rest : Bytes)
    → c < 0x110000
    → encode_char c ≡ some b
    → run ready (b ++ rest) ≡ cons_option c (run ready rest)
unfolding encode_char
run_char c rest h e =
    ground (arith, run_one c rest, run_two c rest, run_three c rest, run_four c rest)

pub decode-nil : decode [] ≡ some []
unfolding decode
decode-nil = refl

-- A text that can be encoded is read back.
pub decode-encode : (s : Str) {bs : Bytes} → IsText s → encode s ≡ some bs → decode bs ≡ some s
unfolding encode decode
decode-encode [] h e = unfold run in ground arith
decode-encode (c ∷ s) {bs} (hc, hs) e = elim (Option-cases (encode_char c)) [
  | inl bad ↦ absurd (no_char bad)
  | inr (b, eb) ↦ elim (Option-cases (encode s)) [
    | inl bad ↦ absurd (no_rest b eb bad)
    | inr (r, er) ↦
        rw (whole b r eb er) (run_char c r hc eb ∙ ap (cons_option c) (decode-encode s hs er))
  ]
]
  where
    no_char : encode_char c ≡ none → ⊥
    no_char bad = ground arith

    no_rest : (b : Bytes) → encode_char c ≡ some b → encode s ≡ none → ⊥
    no_rest b eb bad = ground arith

    whole : (b r : Bytes) → encode_char c ≡ some b → encode s ≡ some r → bs ≡ b ++ r
    whole b r eb er = ground arith
