-- ===== src/Responses/Line.antt =====
-- Lines of tab-separated pairs: `_parse_tab_delimited_line` of pod_os_client/message/responses.py, and
-- what its loops over lines share.
pub mod Laws
use pod_os_py_client.Prelude.{
  String, Bool, true, false, List, [], ◌∷◌, none, some, ◌||◌, ◌==◌, if◌then◌else◌,
}
use pod_os_py_client.Prelude.Int.{ℤ}
use pod_os_py_client.Prelude.Text.{Str, codes, split, cut_at, rstrip_by}
use pod_os_py_client.Prelude.Dict.{Dict, lookup, insert}
use pod_os_py_client.Wire.Integer.{parse_int}
use pod_os_py_client.Wire.Envelope.{header_value}

-- What the parsers raise and do not catch: the ValueError of `int`, and a KeyError.
pub data RecordFailure : Type 0 where
  bad_number : RecordFailure
  missing_key : Str → RecordFailure

-- One part of a line: without `=` it is skipped.
unfoldable pub read_pair : Dict Str → Str → Dict Str
read_pair m part = elim (cut_at b'=' part) [ none ↦ m | some (k, v) ↦ insert k v m ]

unfoldable pub read_pairs : Dict Str → List Str → Dict Str
read_pairs m [] = m
read_pairs m (p ∷ ps) = read_pairs (read_pair m p) ps

-- `_parse_tab_delimited_line`. An empty part has no `=`.
unfoldable pub parse_tab_delimited_line : Str → Dict Str
parse_tab_delimited_line line = read_pairs [] (split 9 line)

-- `line.rstrip("\x00")`.
unfoldable pub strip_nul : Str → Str
strip_nul line = rstrip_by (λ c. c == 0) line

-- `not line or line == "\x0F" or line == "\x00"`.
unfoldable pub is_blank : Str → Bool
is_blank [] = true
is_blank (c ∷ []) = c == 0x0f || c == 0
is_blank (c ∷ d ∷ s) = false

-- `payload.split("\n")`.
unfoldable pub lines_of : Str → List Str
lines_of payload = split 10 payload

-- The lines that the loops look at.
unfoldable pub records_of : List Str → List Str
records_of [] = []
records_of (l ∷ ls) =
    let rest = records_of ls in if is_blank (strip_nul l) then rest else strip_nul l ∷ rest

-- `m.get(key, "")`.
abbrev pub value_of : Dict Str → String → Str
value_of m key = header_value m (codes key)

-- `if key in m: try: old = int(m[key]) except ValueError: pass`.
unfoldable pub int_kept : Dict Str → String → ℤ → ℤ
int_kept m key old = elim (lookup (codes key) m) [
  | none ↦ old
  | some text ↦ elim (parse_int 10 text) [ none ↦ old | some n ↦ n ]
]
