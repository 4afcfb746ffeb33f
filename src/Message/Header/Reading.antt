-- ===== src/Message/Header/Reading.antt =====
-- What `_decode_header` reads from the text of a layout whose keys and values hold no separators.
use pod_os_py_client.Prelude.{
  [], ◌∷◌, ◌++◌, map, Option, none, some, if◌then◌else◌, ◌≡◌, refl, ap, ◌∙◌, arith, All,
  append_assoc,
}
use pod_os_py_client.Prelude.Text.{
  Str, split, join, concat, strip, str_eq, Lacks, Lacks-append, split_part, split_last,
  cut_at_first,
}
use pod_os_py_client.Prelude.Dict.{Dict, lookup, lookup-insert}
use pod_os_py_client.Message.Header.Fields.{
  Fields, Layout, joined, trailing, fields_of, part, tab, terminated, render, set_field, read_part,
  read_parts, decode_header,
}

-- A key holds neither separator, and a value no tab.
abbrev pub IsClean : Str × Str → Type 0
IsClean (k, v) = Lacks b'=' k × Lacks tab k × Lacks tab v

-- The dict that the fields make, one after the other.
abbrev pub apply_fields : Dict Str → Fields → Dict Str
apply_fields m [] = m
apply_fields m (f ∷ fs) = apply_fields (set_field m f) fs

part-Lacks : (f : Str × Str) → IsClean f → Lacks tab (part f)
part-Lacks (k, v) (_, hk, hv) = Lacks-append tab k (b'=' ∷ v) hk (omega arith, hv)

read_part-clean : (m : Dict Str) (f : Str × Str) → IsClean f → read_part m (part f) ≡ set_field m f
read_part-clean m (k, v) (h, _, _) = rw (cut_at_first b'=' k v h, read_part)

read-joined :
    (m : Dict Str) (fs : Fields)
    → All IsClean fs
    → read_parts m (split tab (join (tab ∷ []) (map part fs))) ≡ apply_fields m fs
read-joined m [] h = refl
read-joined m (f ∷ []) (h, _) =
    rw (split_last tab (part f) (part-Lacks f h)) (read_part-clean m f h)
read-joined m (f ∷ g ∷ fs) (h, hs) =
    let rest = split tab (join (tab ∷ []) (map part (g ∷ fs))) in
    rw (split_part tab (part f) _ (part-Lacks f h)) (
      ap (λ d. read_parts d rest) (read_part-clean m f h) ∙ read-joined (set_field m f) (g ∷ fs) hs)

read-trailing :
    (m : Dict Str) (fs : Fields)
    → All IsClean fs
    → read_parts m (split tab (concat (terminated fs))) ≡ apply_fields m fs
read-trailing m [] h = refl
read-trailing m (f ∷ fs) (h, hs) =
    let rest = split tab (concat (terminated fs)) in
    rw
      (
        append_assoc (part f) (tab ∷ []) (concat (terminated fs)),
        split_part tab (part f) _ (part-Lacks f h),
      )
      (ap (λ d. read_parts d rest) (read_part-clean m f h) ∙ read-trailing (set_field m f) fs hs)

-- The decoder reads from a header's text the fields that were written, each with its key and its
-- value stripped, and where two have one key the later one, for both layouts.
pub decode_header-render :
    (layout : Layout)
    → All IsClean (fields_of layout)
    → decode_header (render layout) ≡ apply_fields [] (fields_of layout)
unfolding decode_header render
decode_header-render (joined fs) h = read-joined [] fs h
decode_header-render (trailing fs) h = read-trailing [] fs h

-- The value that a list of fields gives a key.
unfoldable pub last_value : Str → Fields → Option Str
last_value key [] = none
last_value key ((k, v) ∷ fs) = elim (last_value key fs) [
  | some w ↦ some w
  | none ↦ if str_eq (strip k) key then some (strip v) else none
]

abbrev pub or_option : Option Str → Option Str → Option Str
or_option (some v) o = some v
or_option none o = o

pub last_value-append :
    (key : Str) (fs gs : Fields)
    → last_value key (fs ++ gs) ≡ or_option (last_value key gs) (last_value key fs)
unfolding last_value
last_value-append key [] gs = ground arith
last_value-append key ((k, v) ∷ fs) gs = ground (arith, last_value-append key fs gs)

pub lookup-apply_fields :
    (key : Str) (m : Dict Str) (fs : Fields)
    → lookup key (apply_fields m fs) ≡ or_option (last_value key fs) (lookup key m)
unfolding last_value
lookup-apply_fields key m [] = refl
lookup-apply_fields key m ((k, v) ∷ fs) = ground (
  arith,
  lookup-apply_fields key (set_field m (k, v)) fs,
  lookup-insert (strip k) key (strip v) m,
)
