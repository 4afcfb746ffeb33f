-- ===== src/Responses/Line/Laws.antt =====
-- What a line gives that was written from fields.
use pod_os_py_client.Prelude.{[], ◌∷◌, map, none, ◌≡◌, refl, ap, ◌∙◌, All, arith}
use pod_os_py_client.Prelude.Text.{
  Str, split, join, Lacks, Lacks-append, split_part, split_last, cut_at_first,
}
use pod_os_py_client.Prelude.Dict.{Dict, lookup, insert}
use pod_os_py_client.Message.Header.Fields.{Fields, part, tab}
use pod_os_py_client.Message.Header.Reading.{IsClean}
use pod_os_py_client.Responses.Line.{read_pair, read_pairs, parse_tab_delimited_line}
use pod_os_py_client.Responses.Grouping.{newest, lookup-set}

part-Lacks : (f : Str × Str) → IsClean f → Lacks tab (part f)
part-Lacks (k, v) (_, hk, hv) = Lacks-append tab k (b'=' ∷ v) hk (omega arith, hv)

read_pair-part :
    (m : Dict Str) (f : Str × Str) → IsClean f → read_pair m (part f) ≡ insert f.0 f.1 m
unfolding read_pair
read_pair-part m (k, v) (h, _, _) = rw (cut_at_first b'=' k v h, read_pair) refl

lookup-read_pairs :
    (key : Str) (m : Dict Str) (f : Str × Str) (fs : Fields)
    → IsClean f
    → All IsClean fs
    → lookup key (read_pairs m (split tab (join (tab ∷ []) (map part (f ∷ fs)))))
      ≡ newest key (f ∷ fs) (lookup key m)
unfolding read_pairs
lookup-read_pairs key m f [] h _ =
    rw (split_last tab (part f) (part-Lacks f h))
      (ap (lookup key) (read_pair-part m f h) ∙ lookup-set key f m)
lookup-read_pairs key m f (g ∷ fs) h (hg, hs) =
    let rest = split tab (join (tab ∷ []) (map part (g ∷ fs))) in
    rw (split_part tab (part f) _ (part-Lacks f h)) (
      ap (λ d. lookup key (read_pairs d rest)) (read_pair-part m f h)
      ∙ lookup-read_pairs key (insert f.0 f.1 m) g fs hg hs
      ∙ unfold newest in ap (newest key (g ∷ fs)) (lookup-set key f m))

-- A line that is written from fields whose keys hold no equals sign and no tab, and whose values hold
-- no tab, gives each key the value of its last field, as it was written.
pub parse_tab_delimited_line-fields :
    (key : Str) (f : Str × Str) (fs : Fields)
    → IsClean f
    → All IsClean fs
    → lookup key (parse_tab_delimited_line (join (tab ∷ []) (map part (f ∷ fs))))
      ≡ newest key (f ∷ fs) none
unfolding parse_tab_delimited_line
parse_tab_delimited_line-fields key f fs h hs = lookup-read_pairs key [] f fs h hs
