-- ===== src/Responses/Grouping.antt =====
-- Dicts of lists, as the parsers of pod_os_client/message/responses.py index tags and links.
use pod_os_py_client.Prelude.{
  List, [], ◌∷◌, ◌++◌, Option, none, some, if◌then◌else◌, ◌≡◌, arith, Bool, true, false, refl,
}
use pod_os_py_client.Prelude.Text.{Str, str_eq, str_eq_iff}
use pod_os_py_client.Prelude.Dict.{Dict, lookup, insert, lookup-insert}

abbrev pub or_nil {ℓ} : {A : Type ℓ} → Option (List A) → List A
or_nil none = []
or_nil (some xs) = xs

module _ {ℓ} {A : Type ℓ} where
  -- `m.setdefault(key, []).append(item)`.
  unfoldable pub push_to : Str → A → Dict (List A) → Dict (List A)
  push_to k a [] = (k, a ∷ []) ∷ []
  push_to k a ((j, xs) ∷ m) = if str_eq j k then (j, xs ++ a ∷ []) ∷ m else (j, xs) ∷ push_to k a m

  -- The list under a key, of which there may be none.
  unfoldable pub group : Str → Dict (List A) → List A
  group k m = or_nil (lookup k m)

  -- The list under the key gets the item at its end, the others stay.
  pub group-push_to :
      (k j : Str) (a : A) (m : Dict (List A))
      → group j (push_to k a m) ≡ (if str_eq k j then group j m ++ a ∷ [] else group j m)
  unfolding push_to group
  group-push_to k j a [] = ground arith
  group-push_to k j a ((i, xs) ∷ m) =
      ground (arith, str_eq_iff k j, str_eq_iff i k, str_eq_iff i j, group-push_to k j a m)

  -- The items of keyed entries that stand under one key, in order.
  unfoldable pub under : Str → List (Str × A) → List A
  under k [] = []
  under k ((j, a) ∷ es) = let rest = under k es in if str_eq j k then a ∷ rest else rest

  pub under-append :
      (k : Str) (xs ys : List (Str × A)) → under k (xs ++ ys) ≡ under k xs ++ under k ys
  unfolding under
  under-append k [] ys = refl
  under-append k ((j, a) ∷ xs) ys = ground (arith, under-append k xs ys)

  -- What one line gives, and what lines give, if a test holds of them.
  abbrev pub entry_when : Bool → Option (Str × A) → List (Str × A)
  entry_when false o = []
  entry_when true none = []
  entry_when true (some e) = e ∷ []

  unfoldable pub entries : (Str → Bool) → (Str → Option (Str × A)) → List Str → List (Str × A)
  entries test read [] = []
  entries test read (l ∷ ls) = entry_when (test l) (read l) ++ entries test read ls

  -- What a dict holds under a key after entries were set: the last one's value.
  unfoldable pub newest : Str → List (Str × A) → Option A → Option A
  newest k [] old = old
  newest k ((j, a) ∷ es) old = newest k es (if str_eq j k then some a else old)

  pub newest-append :
      (k : Str) (xs ys : List (Str × A)) (old : Option A)
      → newest k (xs ++ ys) old ≡ newest k ys (newest k xs old)
  unfolding newest
  newest-append k [] ys old = refl
  newest-append k ((j, a) ∷ xs) ys old = newest-append k xs ys _

  pub lookup-set :
      (k : Str) (e : Str × A) (m : Dict A)
      → lookup k (insert e.0 e.1 m) ≡ newest k (e ∷ []) (lookup k m)
  unfolding newest
  lookup-set k (j, a) m = lookup-insert j k a m
