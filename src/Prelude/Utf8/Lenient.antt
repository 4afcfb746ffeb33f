-- ===== src/Prelude/Utf8/Lenient.antt =====
-- `bytes.decode("utf-8", errors="replace")`: what cannot be read becomes U+FFFD.
use pod_os_py_client.Prelude.Tests.{ltb, leb}
use pod_os_py_client.Prelude.Text.{Str, Bytes}
use pod_os_py_client.Prelude.Utf8.{Decoder, ready, within, lead, run, decode}
use Prim.Native.Nat.{ℕ, zero, suc, ◌+◌, ◌-◌, ◌*◌}
use mathlib.Core.Path.{◌≡◌, refl, ap}
use mathlib.Core.Bool.{Bool, true, false, ◌&&◌}
use mathlib.Core.Option.{Option, none, some}
use mathlib.Core.List.{[], ◌∷◌}

-- A character that breaks off is replaced, and the byte that breaks it is read again.
replace_run : Decoder → Bytes → Str
replace_run ready [] = []
replace_run (within _ _ _ _) [] = 0xfffd ∷ []
replace_run ready (b ∷ bs) = elim (ltb b 0x80) [
  | true ↦ b ∷ replace_run ready bs
  | false ↦ elim (lead b) [ none ↦ 0xfffd ∷ replace_run ready bs | some d ↦ replace_run d bs ]
]
replace_run (within acc lo hi zero) (b ∷ bs) = elim (leb lo b && leb b hi) [
  | true ↦ (acc * 64 + (b - 0x80)) ∷ replace_run ready bs
  | false ↦ 0xfffd ∷ elim (ltb b 0x80) [
    | true ↦ b ∷ replace_run ready bs
    | false ↦ elim (lead b) [ none ↦ 0xfffd ∷ replace_run ready bs | some d ↦ replace_run d bs ]
  ]
]
replace_run (within acc lo hi (suc n)) (b ∷ bs) = elim (leb lo b && leb b hi) [
  | true ↦ replace_run (within (acc * 64 + (b - 0x80)) 0x80 0xbf n) bs
  | false ↦ 0xfffd ∷ elim (ltb b 0x80) [
    | true ↦ b ∷ replace_run ready bs
    | false ↦ elim (lead b) [ none ↦ 0xfffd ∷ replace_run ready bs | some d ↦ replace_run d bs ]
  ]
]

unfoldable pub decode_replacing : Bytes → Str
unfolding replace_run lead
decode_replacing bs = replace_run ready bs

-- What can be read is read.
abbrev Agrees : Option Str → Str → Type 0
Agrees none read = Unit
Agrees (some s) read = read ≡ s

Agrees-cons :
    (c : ℕ) (o : Option Str) (read : Str)
    → Agrees o read
    → Agrees (elim o [ none ↦ none | some s ↦ some (c ∷ s) ]) (c ∷ read)
Agrees-cons c none read h = tt
Agrees-cons c (some s) read h = ap (◌∷◌ c) h

module _ (bs : Bytes) (rest : (d : Decoder) → Agrees (run d bs) (replace_run d bs)) where
  -- A byte at the start of a character, by whether it is ASCII and what it leads.
  start_Agrees :
      (b : ℕ) (small : Bool) (leads : Option Decoder)
      → Agrees
          (elim small [
            | true ↦ elim (run ready bs) [ none ↦ none | some s ↦ some (b ∷ s) ]
            | false ↦ elim leads [ none ↦ none | some d ↦ run d bs ]
          ])
          (elim small [
            | true ↦ b ∷ replace_run ready bs
            | false ↦ elim leads [
              | none ↦ 0xfffd ∷ replace_run ready bs
              | some d ↦ replace_run d bs
            ]
          ])
  start_Agrees b true leads = Agrees-cons b (run ready bs) _ (rest ready)
  start_Agrees b false none = tt
  start_Agrees b false (some d) = rest d

  -- The last byte of a character, and one before, by whether it is in its range.
  last_Agrees :
      (c : ℕ) (good : Bool) (broken : Str)
      → Agrees
          (elim good [
            | true ↦ elim (run ready bs) [ none ↦ none | some s ↦ some (c ∷ s) ]
            | false ↦ none
          ])
          (elim good [ true ↦ c ∷ replace_run ready bs | false ↦ broken ])
  last_Agrees c true broken = Agrees-cons c (run ready bs) _ (rest ready)
  last_Agrees c false broken = tt

  inner_Agrees :
      (d : Decoder) (good : Bool) (broken : Str)
      → Agrees
          (elim good [ true ↦ run d bs | false ↦ none ])
          (elim good [ true ↦ replace_run d bs | false ↦ broken ])
  inner_Agrees d true broken = rest d
  inner_Agrees d false broken = tt

replace_run-Agrees : (bs : Bytes) (d : Decoder) → Agrees (run d bs) (replace_run d bs)
unfolding run replace_run
replace_run-Agrees [] ready = refl
replace_run-Agrees [] (within acc lo hi n) = tt
replace_run-Agrees (b ∷ bs) ready = start_Agrees bs (replace_run-Agrees bs) b (ltb b 0x80) (lead b)
replace_run-Agrees (b ∷ bs) (within acc lo hi zero) =
    last_Agrees bs (replace_run-Agrees bs) (acc * 64 + (b - 0x80)) (leb lo b && leb b hi)
      (0xfffd ∷ replace_run ready (b ∷ bs))
replace_run-Agrees (b ∷ bs) (within acc lo hi (suc n)) =
    inner_Agrees bs (replace_run-Agrees bs) (within (acc * 64 + (b - 0x80)) 0x80 0xbf n)
      (leb lo b && leb b hi) (0xfffd ∷ replace_run ready (b ∷ bs))

agreed : (o : Option Str) {s read : Str} → Agrees o read → o ≡ some s → read ≡ s
agreed none h e = cc
agreed (some t) h e = cc

pub decode_replacing-decode : (bs : Bytes) {s : Str} → decode bs ≡ some s → decode_replacing bs ≡ s
unfolding decode_replacing decode
decode_replacing-decode bs h = agreed (run ready bs) (replace_run-Agrees bs ready) h
