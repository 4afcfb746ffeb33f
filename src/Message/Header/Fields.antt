-- ===== src/Message/Header/Fields.antt =====
-- A header as a list of fields, its text, and the dict that the decoder reads from the text:
-- pod_os_client/message/header.py and `_decode_header` of pod_os_client/message/decoder.py.
use pod_os_py_client.Prelude.{
  ℕ, String, Bool, List, [], ◌∷◌, ◌++◌, map, none, some, if◌then◌else◌, keep,
}
use pod_os_py_client.Prelude.Int.{ℤ, pos, negsuc}
use pod_os_py_client.Prelude.Text.{Str, codes, truthy, split, join, concat, cut_at, strip, is_ascii}
use pod_os_py_client.Prelude.Dict.{Dict, insert}
use pod_os_py_client.Wire.Integer.{digits}

abbrev pub tab : ℕ
tab = 9

-- `f"{key}={value}"` is kept as the pair.
abbrev pub Fields : Type 0
Fields = List (Str × Str)

abbrev pub part : Str × Str → Str
part (k, v) = k ++ (b'=' ∷ v)

-- The parts of a header are joined by tabs, or each has a tab behind it.
pub data Layout : Type 0 where
  joined : Fields → Layout
  trailing : Fields → Layout

abbrev pub fields_of : Layout → Fields
fields_of (joined fs) = fs
fields_of (trailing fs) = fs

abbrev pub terminated : Fields → List Str
terminated fs = map (λ f. part f ++ tab ∷ []) fs

unfoldable pub render : Layout → Str
render (joined fs) = join (tab ∷ []) (map part fs)
render (trailing fs) = concat (terminated fs)

-- `parts.append(f"{key}={value}")`, always, under a test, or if the value is not empty.
unfoldable pub field : String → Str → Fields
field k v = (codes k, v) ∷ []

unfoldable pub field_when : Bool → String → Str → Fields
unfolding field
field_when test k v = if test then field k v else []

unfoldable pub field_if : String → Str → Fields
unfolding field_when
field_if k v = field_when (truthy v) k v

-- `parts.append(f"{key}=Y")` under a test.
abbrev pub flag : Bool → String → Fields
flag test k = field_when test k (b'Y' ∷ [])

-- `_force_ascii`.
unfoldable pub force_ascii : Str → Str
force_ascii s = keep is_ascii s

-- `str(n)`.
unfoldable pub str_int : ℤ → Str
unfolding digits
str_int (pos n) = digits 10 n
str_int (negsuc n) = b'-' ∷ digits 10 (ℕ.suc n)

-- `_decode_header`: a later field of the same key wins.
abbrev pub set_field : Dict Str → Str × Str → Dict Str
set_field m (k, v) = insert (strip k) (strip v) m

abbrev pub read_part : Dict Str → Str → Dict Str
read_part m p = elim (cut_at b'=' p) [ none ↦ m | some (k, v) ↦ set_field m (k, v) ]

abbrev pub read_parts : Dict Str → List Str → Dict Str
read_parts m [] = m
read_parts m (p ∷ ps) = read_parts (read_part m p) ps

unfoldable pub decode_header : Str → Dict Str
decode_header header_str = read_parts [] (split tab header_str)
