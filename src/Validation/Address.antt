-- ===== src/Validation/Address.antt =====
-- Addresses: the check of the encoder and that of the validation.
use pod_os_py_client.Prelude.{
  ℕ, ◌&&◌, ◌+◌, ◌-◌, ◌<◌, String, Bool, true, false, not, List, [], ◌∷◌, ◌++◌, none, some, ap, ◌∙◌,
  if◌then◌else◌, ◌==◌, ltb, length, ◌≡◌, ◌≢◌, refl, arith, ◌⊎◌, inl, inr, Bool-cases, ok, >>=-eq-ok,
  guard, or_raise,
}
use pod_os_py_client.Prelude.Text.{Str, Bytes, codes, split, truthy}
use pod_os_py_client.Message.Types.{Message}
use pod_os_py_client.Intents.Constants.{Intent}
use pod_os_py_client.Wire.Encoder.{check_address, encode_message, max_message_size}
use pod_os_py_client.Message.Payload.{payload_to_bytes}
use pod_os_py_client.Message.Header.{construct_header}
use pod_os_py_client.Errors.{value_error}
use pod_os_py_client.Validation.{
  find, is_name_at_gateway, address_violations, validate_envelope, Violation,
}

-- A text has no separator, or is cut at the first.
abbrev Cut : ℕ → Str → Type 0
Cut c s =
    ((split c s ≡ s ∷ []) × (find c s ≡ none))
    ⊎ ((a : Str) × (b : Str) × (split c s ≡ a ∷ split c b)
        × (find c s ≡ some (length a))
        × (length s ≡ length a + 1 + length b))

separator_first : (c d : ℕ) (s : Str) → (d == c) ≡ true → Cut c (d ∷ s)
unfolding find
separator_first c d s h = inr ([], s, rw h refl, rw h refl, omega arith)

separator_later : (c d : ℕ) (s : Str) → (d == c) ≡ false → Cut c s → Cut c (d ∷ s)
unfolding find
separator_later c d s h (inl (e, f)) = inl (rw (h, e) refl, rw (h, f) refl)
separator_later c d s h (inr (a, b, e, f, n)) =
    inr (d ∷ a, b, rw (h, e) refl, rw (h, f) refl, omega (arith, n))

cut : (c : ℕ) (s : Str) → Cut c s
unfolding find
cut c [] = inl (refl, refl)
cut c (d ∷ s) = elim (Bool-cases (d == c)) [
  | inl here ↦ separator_first c d s here
  | inr other ↦ separator_later c d s other (cut c s)
]

nameless_refused :
    (field : Str) (s : Str) (rest : List Str)
    → split b'@' s ≡ [] ∷ rest
    → check_address field s ≢ ok tt
unfolding check_address
nameless_refused field s [] e h = ground (arith, rw (e, check_address) at h)
nameless_refused field s (g ∷ others) e h = ground (arith, rw (e, check_address) at h)

-- What the encoder does with the two parts.
parts_checked :
    (field : Str) (s a b : Str)
    → split b'@' s ≡ a ∷ split b'@' b
    → check_address field s ≡ ok tt
    → (0 < length a) × (0 < length b)
unfolding check_address
parts_checked field s [] [] e h = ground (arith, rw (e, check_address) at h)
parts_checked field s [] (y ∷ b) e h = elim (nameless_refused field s (split b'@' (y ∷ b)) e h) [ ]
parts_checked field s (x ∷ a) [] e h = ground (arith, rw (e, check_address) at h)
parts_checked field s (x ∷ a) (y ∷ b) e h = omega arith

whole_refused : (field : Str) (s : Str) → split b'@' s ≡ s ∷ [] → check_address field s ≢ ok tt
unfolding check_address
whole_refused field s e h = ground (arith, rw (e, check_address) at h)

found_name :
    (s : Str) (i : ℕ)
    → find b'@' s ≡ some i
    → 0 < i
    → i < length s - 1
    → is_name_at_gateway s ≡ true
unfolding is_name_at_gateway
found_name s i e lo hi = rw (e, is_name_at_gateway) (ground arith)

-- An address that passes the encoder's check passes the validation's: it has a name before its first
-- `@` and a text behind it.
pub check_address-is_name_at_gateway :
    (field : Str) (s : Str) → check_address field s ≡ ok tt → is_name_at_gateway s ≡ true
check_address-is_name_at_gateway field s h = go (cut b'@' s)
  where
    go : Cut b'@' s → is_name_at_gateway s ≡ true
    go (inl (e, _)) = elim (whole_refused field s e h) [ ]
    go (inr (a, b, e, f, n)) =
        let (lo, hi) = parts_checked field s a b e h in
        found_name s (length a) f lo (omega (arith, n))

if_same : (b : Bool) (xs : List Violation) → (if b && false then xs else []) ≡ []
if_same true xs = refl
if_same false xs = refl

pub no_violation :
    (field : String) (s : Str) → is_name_at_gateway s ≡ true → address_violations field s ≡ []
unfolding address_violations
no_violation field [] h = unfold is_name_at_gateway find in ground (arith, h)
no_violation field (c ∷ s) h = rw h refl

-- The two addresses of a message that is encoded were checked.
pub addresses_checked :
    (now : Str) (msg : Message) (intent : Intent) {wire : Bytes}
    → encode_message now (some msg) intent ≡ ok wire
    → (check_address (codes "To") msg.to ≡ ok tt) × (check_address (codes "From") msg.from ≡ ok tt)
unfolding encode_message
addresses_checked now msg intent h =
    let (payload, _, h1) = >>=-eq-ok (payload_to_bytes msg intent.name) _ h in
    let (_, _, h2) = >>=-eq-ok (guard (not (ltb max_message_size (length payload))) _) _ h1 in
    let (header, _, h3) = >>=-eq-ok (or_raise (construct_header now msg intent) value_error) _ h2 in
    let (_, to_checked, h4) = >>=-eq-ok (check_address (codes "To") msg.to) _ h3 in
    let (_, from_checked, _) = >>=-eq-ok (check_address (codes "From") msg.from) _ h4 in
    (to_checked, from_checked)

-- What has at most one `@`, as the documentation of the validation wants.
abbrev pub OneAt : Str → Type 0
OneAt s = length (split b'@' s) < 3

split-pos : (c : ℕ) (s : Str) → 0 < length (split c s)
split-pos c s = elim (cut c s) [
  | inl (e, _) ↦ rw e (omega arith)
  | inr (a, b, e, _, _) ↦ rw e (omega arith)
]

-- Behind the only `@` there is one part.
last_part : (a s b : Str) → OneAt s → split b'@' s ≡ a ∷ split b'@' b → split b'@' b ≡ b ∷ []
last_part a s b one e = elim (cut b'@' b) [
  | inl (whole, _) ↦ whole
  | inr (a2, b2, e2, _, _) ↦
      let size = ap length e in
      let size2 = ap length e2 in
      let more = split-pos b'@' b2 in
      let no : ⊥ = omega (arith, size, size2, more, one) in elim no [ ]
]

parts_accepted :
    (field : Str) (s a b : Str)
    → split b'@' s ≡ a ∷ b ∷ []
    → 0 < length a
    → 0 < length b
    → check_address field s ≡ ok tt
unfolding check_address
parts_accepted field s [] b e lo hi = let no : ⊥ = omega arith in elim no [ ]
parts_accepted field s (x ∷ a) [] e lo hi = let no : ⊥ = omega arith in elim no [ ]
parts_accepted field s (x ∷ a) (y ∷ b) e lo hi = rw (e, check_address) refl

-- For an address with at most one `@` the validation's check is no weaker than the encoder's.
is_name_at_gateway-check_address :
    (field : Str) (s : Str) → OneAt s → is_name_at_gateway s ≡ true → check_address field s ≡ ok tt
unfolding is_name_at_gateway
is_name_at_gateway-check_address field s one h = elim (cut b'@' s) [
  | inl (_, f) ↦ let absent = rw (f, is_name_at_gateway) at h in cc
  | inr (a, b, e, f, n) ↦
      let bounds = rw (f, is_name_at_gateway) at h in
      parts_accepted field s a b (e ∙ ap (◌∷◌ a) (last_part a s b one e)) (ground (arith, bounds))
        (ground (arith, bounds, n))
]

clean_address :
    (field : String) (s : Str) → address_violations field s ≡ [] → is_name_at_gateway s ≡ true
unfolding address_violations
clean_address field [] h = cc
clean_address field (c ∷ s) h = ground (arith, h)

append-empty : (xs ys : List Violation) → xs ++ ys ≡ [] → (xs ≡ []) × (ys ≡ [])
append-empty [] ys h = (refl, h)
append-empty (x ∷ xs) ys h = cc

-- A message that names an intent and a client, and whose addresses have at most one `@` each, has no
-- violation in its envelope exactly if the encoder accepts both its addresses.
pub validate_envelope-check_address :
    (msg : Message)
    → truthy msg.intent ≡ true
    → truthy msg.client_name ≡ true
    → OneAt msg.to
    → OneAt msg.from
    → (validate_envelope msg ≡ []
        → (check_address (codes "To") msg.to ≡ ok tt)
          × (check_address (codes "From") msg.from ≡ ok tt))
      × ((check_address (codes "To") msg.to ≡ ok tt)
          → (check_address (codes "From") msg.from ≡ ok tt)
          → validate_envelope msg ≡ [])
unfolding validate_envelope
validate_envelope-check_address msg named client to_one from_one = (
  λ clean.
      let (to_clean, rest) = append-empty (address_violations "to" msg.to) _ clean in
      let (from_clean, _) = append-empty (address_violations "from" msg.from) _ rest in
      (
        is_name_at_gateway-check_address _ msg.to to_one (clean_address "to" msg.to to_clean),
        is_name_at_gateway-check_address _ msg.from from_one
            (clean_address "from" msg.from from_clean),
      ),
  λ to_checked from_checked. simp (
    no_violation "to" msg.to (check_address-is_name_at_gateway _ msg.to to_checked),
    no_violation "from" msg.from (check_address-is_name_at_gateway _ msg.from from_checked),
    named,
    client,
    if_same,
  ),
)
