-- ===== src/Prelude/Dict.antt =====
-- A dict with texts as keys: an association list in the order of first insertion.
use pod_os_py_client.Prelude.Tests.{if◌then◌else◌, Bool-cases}
use pod_os_py_client.Prelude.Lists.{In}
use mathlib.Core.Logic.{inl, inr}
use pod_os_py_client.Prelude.Text.{Str, str_eq, str_eq_iff}
use mathlib.Core.Path.{◌≡◌, refl}
use mathlib.Core.Bool.{Bool, true, false}
use mathlib.Core.Option.{Option, none, some}
use mathlib.Core.List.{List, [], ◌∷◌}
use native.Mathlib.Omega.{arith}

abbrev pub Dict {ℓ} : Type ℓ → Type ℓ
Dict V = List (Str × V)

-- `m.get(key, "")`.
abbrev pub or_empty : Option Str → Str
or_empty none = []
or_empty (some v) = v

module _ {ℓ} {V : Type ℓ} where
  -- `d.get(k)`.
  abbrev pub lookup : Str → Dict V → Option V
  lookup k [] = none
  lookup k ((j, v) ∷ m) = if str_eq j k then some v else lookup k m

  -- `d[k] = v`: an old key keeps its place.
  abbrev pub insert : Str → V → Dict V → Dict V
  insert k v [] = (k, v) ∷ []
  insert k v ((j, w) ∷ m) = if str_eq j k then (j, v) ∷ m else (j, w) ∷ insert k v m

  -- `d.pop(k, None)`, the dict that is left. Keys are unique, so one entry goes.
  abbrev pub remove : Str → Dict V → Dict V
  remove k [] = []
  remove k ((j, w) ∷ m) = if str_eq j k then m else (j, w) ∷ remove k m

  -- `k in d`.
  abbrev pub has_key : Str → Dict V → Bool
  has_key k m = elim (lookup k m) [ none ↦ false | some v ↦ true ]

  pub lookup-insert :
      (k j : Str) (v : V) (m : Dict V)
      → lookup j (insert k v m) ≡ (if str_eq k j then some v else lookup j m)
  lookup-insert k j v [] = refl
  lookup-insert k j v ((i, w) ∷ m) =
      ground (arith, str_eq_iff k j, str_eq_iff i k, str_eq_iff i j, lookup-insert k j v m)

-- What is found under a key stands in the dict.
pub lookup-In :
    {V : Type 0} (k : Str) (m : Dict V) {v : V} → lookup k m ≡ some v → In {A = Str × V} (k, v) m
lookup-In k [] h = cc
lookup-In k ((j, w) ∷ m) {v} h = elim (Bool-cases (str_eq j k)) [
  | inl hit ↦ inl (ground (arith, str_eq_iff j k))
  | inr miss ↦ inr (lookup-In k m (ground arith))
]
