-- ===== src/Responses/Search/Owners.antt =====
-- `normalize_tag_owner_lines` of pod_os_client/message/tag_format.py: owners behind the line break
-- of their tag are put back on the tag's line.
use pod_os_py_client.Prelude.{
  ℕ, zero, suc, true, false, [], ◌∷◌, ◌++◌, Option, none, some, length, drop, if◌then◌else◌, ◌==◌,
  ◌||◌,
}
use pod_os_py_client.Prelude.Text.{Str, codes, starts_with}
use pod_os_py_client.Wire.Response.{occurs}

-- `s.find(part)` as the texts before and from the first occurrence on.
unfoldable pub find_text : Str → Str → Option (Str × Str)
find_text part [] = if starts_with [] part then some ([], []) else none
find_text part (c ∷ s) =
    let rest = find_text part s in
    if starts_with (c ∷ s) part
    then some ([], c ∷ s)
    else elim rest [ none ↦ none | some (before, found) ↦ some (c ∷ before, found) ]

abbrev pub owner_marker : Str
owner_marker = codes "\towner="

-- `payload.replace("\n\towner=", "\towner=")`: each break before a marker goes.
unfoldable pub join_owners : Str → Str
join_owners [] = []
join_owners (c ∷ s) =
    let rest = join_owners s in if starts_with (c ∷ s) (10 ∷ owner_marker) then rest else c ∷ rest

-- The text up to the next tab or line break, where the owner must end, and the rest.
unfoldable pub owner_field : Str → Str × Str
owner_field [] = ([], [])
owner_field (c ∷ s) =
    let (owner, rest) = owner_field s in
    if c == 9 || c == 10 then ([], c ∷ s) else (c ∷ owner, rest)

-- The break that is missing where the next record starts inside the owner.
unfoldable pub break_owner : Str → Str
break_owner s =
    let (owner, rest) = owner_field s in
    elim (find_text (codes "_event_tag=") owner) [
      | none ↦ s
      | some (before, record_start) ↦ before ++ (10 ∷ (record_start ++ rest))
    ]

-- The loop: the text up to each marker is kept. Every round drops a marker, so that the length of the
-- text is fuel enough.
unfoldable pub restore_breaks : ℕ → Str → Str
restore_breaks zero s = s
restore_breaks (suc fuel) s = elim (find_text owner_marker s) [
  | none ↦ s
  | some (before, found) ↦
      before ++ (owner_marker ++ restore_breaks fuel (break_owner (drop 7 found)))
]

unfoldable pub normalize_tag_owner_lines : Str → Str
normalize_tag_owner_lines payload = elim (occurs (10 ∷ owner_marker) payload) [
  | false ↦ payload
  | true ↦ let joined = join_owners payload in restore_breaks (length joined) joined
]
