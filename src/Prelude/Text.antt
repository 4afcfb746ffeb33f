-- ===== src/Prelude/Text.antt =====
-- Python's str and bytes as lists of code points and bytes, with the methods that the client calls.
use pod_os_py_client.Prelude.Tests.{leb, ◌==◌, if◌then◌else◌}
use pod_os_py_client.Prelude.Lists.{length, take, drop, any, All, All-append}
use pod_os_py_client.Prelude.Int.{ℤ, pos, negsuc}
use Prim.Native.Nat.{ℕ, suc, ◌+◌, ◌-◌, ◌<◌}
use Prim.Native.Char.{code}
use Prim.Native.String.{String}
use mathlib.Core.Path.{◌≡◌, refl}
use mathlib.Core.Logic.{◌≢◌, ◌↔◌}
use mathlib.Core.Bool.{Bool, true, false, ◌&&◌, ◌||◌}
use mathlib.Core.Option.{Option, none, some}
use mathlib.Core.List.{List, [], ◌∷◌, ◌++◌}
use native.Mathlib.Omega.{arith}

abbrev pub Str : Type 0
Str = List ℕ

abbrev pub Bytes : Type 0
Bytes = List ℕ

-- The code points of a literal.
abbrev pub codes : String → Str
codes String.[] = []
codes (String.◌∷◌ c s) = code c ∷ codes s

-- `s == t`.
abbrev pub str_eq : Str → Str → Bool
str_eq [] [] = true
str_eq (a ∷ s) (b ∷ t) = a == b && str_eq s t
str_eq _ _ = false

pub str_eq_refl : (s : Str) → str_eq s s ≡ true
str_eq_refl [] = refl
str_eq_refl (a ∷ s) = ground (arith, str_eq_refl s)

pub str_eq→≡ : (s t : Str) → str_eq s t ≡ true → s ≡ t
str_eq→≡ [] [] h = refl
str_eq→≡ [] (b ∷ t) h = cc
str_eq→≡ (a ∷ s) [] h = cc
str_eq→≡ (a ∷ s) (b ∷ t) h = ground (arith, str_eq→≡ s t)

pub str_eq_iff : (s t : Str) → (str_eq s t ≡ true) ↔ (s ≡ t)
str_eq_iff s t = (str_eq→≡ s t, λ e. rw e (str_eq_refl t))

-- The truth value of a text: whether it is not empty.
abbrev pub truthy : Str → Bool
truthy [] = false
truthy (c ∷ s) = true

-- `s or t`.
abbrev pub or_else : Str → Str → Str
or_else [] t = t
or_else (c ∷ s) t = c ∷ s

-- `s in texts`.
abbrev pub elem_of : Str → List Str → Bool
elem_of s = any (str_eq s)

-- `c in s` for one character.
abbrev pub has_char : ℕ → Str → Bool
has_char c = any (λ d. d == c)

-- `s.startswith(prefix)`.
abbrev pub starts_with : Str → Str → Bool
starts_with s [] = true
starts_with [] (p ∷ ps) = false
starts_with (c ∷ s) (p ∷ ps) = c == p && starts_with s ps

-- The characters for which `str.isspace` holds, up to U+007F. The latin-1 and Unicode ones follow.
abbrev pub is_ascii_space : ℕ → Bool
is_ascii_space c = (leb 9 c && leb c 13) || (leb 28 c && leb c 32)

abbrev pub is_space : ℕ → Bool
is_space c =
    is_ascii_space c
    || c == 0x85
    || c == 0xa0
    || c == 0x1680
    || (leb 0x2000 c && leb c 0x200a)
    || c == 0x2028
    || c == 0x2029
    || c == 0x202f
    || c == 0x205f
    || c == 0x3000

-- Drop the leading characters that pass a test.
abbrev pub lstrip_by : (ℕ → Bool) → Str → Str
lstrip_by p [] = []
lstrip_by p (c ∷ s) = let rest = lstrip_by p s in if p c then rest else c ∷ s

-- Drop the trailing ones: a character goes if what is left behind it is empty.
abbrev pub rstrip_by : (ℕ → Bool) → Str → Str
rstrip_by p [] = []
rstrip_by p (c ∷ s) =
    let rest = rstrip_by p s in if p c then (if truthy rest then c ∷ rest else []) else c ∷ rest

-- Nothing is dropped where no character passes the test.
pub lstrip_by-id : (p : ℕ → Bool) (s : Str) → All (λ c. p c ≡ false) s → lstrip_by p s ≡ s
lstrip_by-id p [] h = refl
lstrip_by-id p (c ∷ s) h = ground arith

pub rstrip_by-id : (p : ℕ → Bool) (s : Str) → All (λ c. p c ≡ false) s → rstrip_by p s ≡ s
rstrip_by-id p [] h = refl
rstrip_by-id p (c ∷ s) h = ground (arith, rstrip_by-id p s h.1)

-- `s.strip()`.
abbrev pub strip : Str → Str
strip s = rstrip_by is_space (lstrip_by is_space s)

-- `s.split(c)`: there is always a first part.
abbrev pub split_first : ℕ → Str → Str
split_first c [] = []
split_first c (d ∷ s) = if d == c then [] else d ∷ split_first c s

abbrev pub push_char : ℕ → List Str → List Str
push_char d [] = (d ∷ []) ∷ []
push_char d (p ∷ ps) = (d ∷ p) ∷ ps

abbrev pub split : ℕ → Str → List Str
split c [] = [] ∷ []
split c (d ∷ s) = let rest = split c s in if d == c then [] ∷ rest else push_char d rest

-- `sep.join(parts)`.
abbrev pub join : Str → List Str → Str
join sep [] = []
join sep (p ∷ []) = p
join sep (p ∷ q ∷ ps) = p ++ (sep ++ join sep (q ∷ ps))

-- `"".join(parts)`.
abbrev pub concat : List Str → Str
concat [] = []
concat (p ∷ ps) = p ++ concat ps

-- `s.split(c, 1)` where the separator occurs: the texts before and behind its first place.
abbrev pub cut_at : ℕ → Str → Option (Str × Str)
cut_at c [] = none
cut_at c (d ∷ s) =
    let rest = cut_at c s in
    if d == c then some ([], s) else elim rest [ none ↦ none | some (k, v) ↦ some (d ∷ k, v) ]

-- Texts without a character.
abbrev pub Lacks : ℕ → Str → Type 0
Lacks c = All (λ d. d ≢ c)

pub Lacks-append : (c : ℕ) (s t : Str) → Lacks c s → Lacks c t → Lacks c (s ++ t)
Lacks-append c = All-append (λ d. d ≢ c)

pub split_last : (c : ℕ) (s : Str) → Lacks c s → split c s ≡ s ∷ []
split_last c [] h = refl
split_last c (d ∷ s) h = ground (arith, split_last c s h.1)

-- A part without the separator is split off.
pub split_part : (c : ℕ) (s t : Str) → Lacks c s → split c (s ++ (c ∷ t)) ≡ s ∷ split c t
split_part c [] t h = ground arith
split_part c (d ∷ s) t h = ground (arith, split_part c s t h.1)

-- `split(c, 1)` cuts at the first place.
pub cut_at_first : (c : ℕ) (s t : Str) → Lacks c s → cut_at c (s ++ (c ∷ t)) ≡ some (s, t)
cut_at_first c [] t h = ground arith
cut_at_first c (d ∷ s) t h = ground (arith, cut_at_first c s t h.1)

-- ASCII texts, whose bytes are their code points.
abbrev pub is_ascii : ℕ → Bool
is_ascii c = leb c 127

abbrev pub IsAscii : Str → Type 0
IsAscii = All (λ c. c < 128)

-- `s.lower()` and `s.upper()` on ASCII letters.
abbrev pub lower_ascii : ℕ → ℕ
lower_ascii c = if leb b'A' c && leb c b'Z' then c + 32 else c

-- `data[i:j]`: a negative bound counts from the end, and both are clamped to the list.
abbrev pub slice_bound : ℕ → ℤ → ℕ
slice_bound n (pos i) = i
slice_bound n (negsuc i) = n - suc i

abbrev pub slice {ℓ} : {A : Type ℓ} → List A → ℤ → ℤ → List A
slice xs i j =
    let start = slice_bound (length xs) i in
    take (slice_bound (length xs) j - start) (drop start xs)
