-- ===== src/Responses/Search/Index/Kinds.antt =====
-- The kinds of lines tell their starts apart.
use pod_os_py_client.Prelude.{
  String, Bool, true, false, List, [], ◌∷◌, if◌then◌else◌, ◌||◌, ◌≡◌, refl, arith, All,
}
use pod_os_py_client.Prelude.Text.{Str, codes, starts_with}
use pod_os_py_client.Responses.Search.Index.{
  Kind, event_line, event_tag_line, link_line, link_tag_line, target_tag_line, other_line, kind_of,
}

-- A text starts with two texts only if one of them starts with the other.
starts_with-both :
    (s p q : Str)
    → starts_with s p ≡ true
    → starts_with s q ≡ true
    → (starts_with p q || starts_with q p) ≡ true
starts_with-both s p [] h k = refl
starts_with-both s [] (b ∷ q) h k = refl
starts_with-both [] (a ∷ p) (b ∷ q) h k = cc
starts_with-both (c ∷ s) (a ∷ p) (b ∷ q) h k = ground (arith, starts_with-both s p q)

not_both :
    (s p q : Str)
    → (starts_with p q || starts_with q p) ≡ false
    → starts_with s p ≡ true
    → starts_with s q ≡ false
not_both s p q apart h = ground (arith, starts_with-both s p q)

abbrev pub starts : String → Str → Bool
starts p s = starts_with s (codes p)

-- The kinds tell the starts apart.
abbrev pub is_event_tag : Kind → Bool
is_event_tag event_tag_line = true
is_event_tag _ = false

abbrev pub is_link : Kind → Bool
is_link link_line = true
is_link _ = false

abbrev pub is_link_tag : Kind → Bool
is_link_tag link_tag_line = true
is_link_tag _ = false

abbrev pub is_target_tag : Kind → Bool
is_target_tag target_tag_line = true
is_target_tag _ = false

abbrev pub is_event : Kind → Bool
is_event event_line = true
is_event _ = false

-- Of the tests before, none holds.
abbrev Excludes : Bool → List Bool → Type 0
Excludes a bs = a ≡ true → All (λ b. b ≡ false) bs

abbrev choose : Bool → Bool → Bool → Bool → Bool → Kind
choose a b c d e =
    if a
    then event_line
    else if b
    then event_tag_line
    else if c
    then link_line
    else if d
    then link_tag_line
    else if e
    then target_tag_line
    else other_line

abbrev pub Tells : Kind → Bool → Bool → Bool → Bool → Bool → Type 0
Tells k a b c d e =
    (is_event k ≡ a)
    × (is_event_tag k ≡ b)
    × (is_link k ≡ c)
    × (is_link_tag k ≡ d)
    × (is_target_tag k ≡ e)

choose-Tells :
    (a b c d e : Bool)
    → Excludes a (b ∷ c ∷ d ∷ e ∷ [])
    → Excludes b (c ∷ d ∷ e ∷ [])
    → Excludes c (d ∷ e ∷ [])
    → Excludes d (e ∷ [])
    → Tells (choose a b c d e) a b c d e
choose-Tells true b c d e h _ _ _ = ground (arith, h refl)
choose-Tells false true c d e _ h _ _ = ground (arith, h refl)
choose-Tells false false true d e _ _ h _ = ground (arith, h refl)
choose-Tells false false false true e _ _ _ h = ground (arith, h refl)
choose-Tells false false false false true _ _ _ _ = (refl, refl, refl, refl, refl)
choose-Tells false false false false false _ _ _ _ = (refl, refl, refl, refl, refl)

module _ (s : Str) where
  apart :
      (p q : String)
      → (starts_with (codes p) (codes q) || starts_with (codes q) (codes p)) ≡ false
      → starts p s ≡ true
      → starts q s ≡ false
  apart p q = not_both s (codes p) (codes q)

  pub kind_of-Tells :
      Tells
        (kind_of s)
        (starts "_event_id=" s)
        (starts "_event_tag=" s)
        (starts "_link=" s)
        (starts "_linktag=" s)
        (starts "_targettag=" s)
  unfolding kind_of
  kind_of-Tells =
      choose-Tells (starts "_event_id=" s) (starts "_event_tag=" s) (starts "_link=" s)
        (starts "_linktag=" s) (starts "_targettag=" s)
        (λ h. (
          apart "_event_id=" "_event_tag=" refl h,
          (
            apart "_event_id=" "_link=" refl h,
            (apart "_event_id=" "_linktag=" refl h, (apart "_event_id=" "_targettag=" refl h, tt)),
          ),
        ))
        (λ h. (
          apart "_event_tag=" "_link=" refl h,
          (apart "_event_tag=" "_linktag=" refl h, (apart "_event_tag=" "_targettag=" refl h, tt)),
        ))
        (λ h. (apart "_link=" "_linktag=" refl h, (apart "_link=" "_targettag=" refl h, tt)))
        (λ h. (apart "_linktag=" "_targettag=" refl h, tt))
