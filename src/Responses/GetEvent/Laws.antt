-- ===== src/Responses/GetEvent/Laws.antt =====
-- The tags of a single event's reply are sorted by their numbers, and none is lost.
use pod_os_py_client.Prelude.{
  Bool, true, false, not, ◌&&◌, List, [], ◌∷◌, keep, ◌≡◌, refl, ap, ◌∙◌, arith, All, Bool-cases,
  inl, inr,
}
use pod_os_py_client.Prelude.Int.{ℤ, ltb_ℤ}
use pod_os_py_client.Prelude.Text.{Str}
use pod_os_py_client.Prelude.Dict.{Dict}
use pod_os_py_client.Message.Types.{TagOutput}
use pod_os_py_client.Responses.GetEvent.{header_tags, place_tag, sort_tags, parse_event_tag_headers}

-- The number of the first is not above that of the second.
abbrev pub NotAfter : TagOutput → TagOutput → Type 0
NotAfter t u = ltb_ℤ u.tag_number t.tag_number ≡ false

abbrev pub IsSorted : List TagOutput → Type 0
IsSorted [] = Unit
IsSorted (t ∷ ts) = All (NotAfter t) ts × IsSorted ts

NotAfter-trans : (t u v : TagOutput) → NotAfter t u → NotAfter u v → NotAfter t v
NotAfter-trans t u v h k = ground (arith, h, k)

still_later :
    (t u : TagOutput) (us : List TagOutput)
    → NotAfter t u
    → All (NotAfter u) us
    → All (NotAfter t) us
still_later t u [] h k = tt
still_later t u (v ∷ vs) h (k, ks) = (NotAfter-trans t u v h k, still_later t u vs h ks)

placed_later :
    (t u : TagOutput) (us : List TagOutput)
    → NotAfter u t
    → All (NotAfter u) us
    → All (NotAfter u) (place_tag t us)
unfolding place_tag
placed_later t u [] h k = (h, tt)
placed_later t u (v ∷ vs) h (k, ks) = elim (Bool-cases (ltb_ℤ v.tag_number t.tag_number)) [
  | inl before ↦ rw before (k, placed_later t u vs h ks)
  | inr behind ↦ rw behind (h, (k, ks))
]

place_tag-IsSorted : (t : TagOutput) (us : List TagOutput) → IsSorted us → IsSorted (place_tag t us)
unfolding place_tag
place_tag-IsSorted t [] h = (tt, tt)
place_tag-IsSorted t (u ∷ us) (later, h) = elim (Bool-cases (ltb_ℤ u.tag_number t.tag_number)) [
  | inl before ↦
      rw before (placed_later t u us (ground (arith, before)) later, place_tag-IsSorted t us h)
  | inr behind ↦ rw behind ((behind, still_later t u us behind later), (later, h))
]

sort_tags-IsSorted : (ts : List TagOutput) → IsSorted (sort_tags ts)
unfolding sort_tags
sort_tags-IsSorted [] = tt
sort_tags-IsSorted (t ∷ ts) = place_tag-IsSorted t (sort_tags ts) (sort_tags-IsSorted ts)

abbrev pub has_number : ℤ → TagOutput → Bool
has_number n t = not (ltb_ℤ n t.tag_number) && not (ltb_ℤ t.tag_number n)

-- Two items of which one is dropped may stand in either order.
swap_kept :
    (p : TagOutput → Bool) (t u : TagOutput) (us : List TagOutput)
    → (p t && p u) ≡ false
    → keep p (u ∷ t ∷ us) ≡ keep p (t ∷ u ∷ us)
swap_kept p t u us h = ground (arith, h)

not_both :
    (n : ℤ) (t u : TagOutput)
    → ltb_ℤ u.tag_number t.tag_number ≡ true
    → (has_number n t && has_number n u) ≡ false
not_both n t u h = ground (arith, h)

keep-place_tag :
    (n : ℤ) (t : TagOutput) (us : List TagOutput)
    → keep (has_number n) (place_tag t us) ≡ keep (has_number n) (t ∷ us)
unfolding place_tag
keep-place_tag n t [] = refl
keep-place_tag n t (u ∷ us) = elim (Bool-cases (ltb_ℤ u.tag_number t.tag_number)) [
  | inr behind ↦ rw behind refl
  | inl before ↦ rw before (
      ap (λ rest. elim (has_number n u) [ true ↦ u ∷ rest | false ↦ rest ]) (keep-place_tag n t us)
      ∙ swap_kept (has_number n) t u us (not_both n t u before))
]

keep-sort_tags :
    (n : ℤ) (ts : List TagOutput) → keep (has_number n) (sort_tags ts) ≡ keep (has_number n) ts
unfolding sort_tags
keep-sort_tags n [] = refl
keep-sort_tags n (t ∷ ts) =
    keep-place_tag n t (sort_tags ts)
    ∙ ap (λ rest. elim (has_number n t) [ true ↦ t ∷ rest | false ↦ rest ]) (keep-sort_tags n ts)

-- The tags of a header are sorted by their numbers, and those of one number are the ones that the
-- header holds, in its order.
pub parse_event_tag_headers-IsSorted :
    (header_map : Dict Str) (n : ℤ)
    → IsSorted (parse_event_tag_headers header_map)
      × (keep (has_number n) (parse_event_tag_headers header_map)
          ≡ keep (has_number n) (header_tags header_map))
unfolding parse_event_tag_headers
parse_event_tag_headers-IsSorted header_map n =
    (sort_tags-IsSorted (header_tags header_map), keep-sort_tags n (header_tags header_map))
