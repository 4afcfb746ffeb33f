-- ===== src/Wire/RoundTrip/Slices.antt =====
-- A slice of a list of segments that starts and ends where a segment does is that segment.
use pod_os_py_client.Prelude.{
  ℕ, ◌+◌, ◌-◌, List, [], ◌∷◌, ◌++◌, append_assoc, length, length-append, take, drop,
  take-append_exact, drop-append_exact, ◌≡◌, refl, ap, ◌∙◌, arith, All, ◌*◌,
}
use pod_os_py_client.Prelude.Int.{pos}
use pod_os_py_client.Prelude.Text.{Str, slice, concat}

concat-append : (xs ys : List Str) → concat (xs ++ ys) ≡ concat xs ++ concat ys
concat-append [] ys = refl
concat-append (x ∷ xs) ys =
    rw (append_assoc x (concat xs) (concat ys)) (ap (◌++◌ x) (concat-append xs ys))

slice_middle : (a b c : Str) → take (length b) (drop (length a) (a ++ (b ++ c))) ≡ b
slice_middle a b c = rw (drop-append_exact a (b ++ c)) (take-append_exact b c)

pub slice-concat :
    (before : List Str) (b : Str) (after : List Str) (i j : ℕ)
    → length (concat before) ≡ i
    → j ≡ i + length b
    → slice (concat (before ++ (b ∷ after))) (pos i) (pos j) ≡ b
slice-concat before b after i j hi hj =
    let width : j - i ≡ length b = omega arith in
    rw (concat-append before (b ∷ after), width, ← hi)
      (slice_middle (concat before) b (concat after))

pub length-concat_append :
    (xs ys : List Str) → length (concat (xs ++ ys)) ≡ length (concat xs) + length (concat ys)
length-concat_append xs ys = ap length (concat-append xs ys) ∙ length-append (concat xs) (concat ys)

-- Segments of nine characters.
length-nines : (ss : List Str) → All (λ s. length s ≡ 9) ss → length (concat ss) ≡ 9 * length ss
length-nines [] h = refl
length-nines (s ∷ ss) h = omega (arith, length-append s (concat ss), length-nines ss h.1, h.0)

module _ (a b c d e f g : Str) (rest : List Str)
    (fits : All (λ s. length s ≡ 9) (a ∷ b ∷ c ∷ d ∷ e ∷ f ∷ g ∷ [])) where
  abbrev pub seven : List Str
  seven = a ∷ b ∷ c ∷ d ∷ e ∷ f ∷ g ∷ []

  abbrev wire : Str
  wire = concat (seven ++ rest)

  pub field_0 : slice wire (pos 0) (pos 9) ≡ a
  field_0 = slice-concat [] a (b ∷ c ∷ d ∷ e ∷ f ∷ g ∷ rest) 0 9 refl (omega arith)

  pub field_1 : slice wire (pos 9) (pos 18) ≡ b
  field_1 =
      slice-concat (a ∷ []) b (c ∷ d ∷ e ∷ f ∷ g ∷ rest) 9 18 (length-nines (a ∷ []) (fits.0, tt))
        (omega arith)

  pub field_2 : slice wire (pos 18) (pos 27) ≡ c
  field_2 =
      slice-concat (a ∷ b ∷ []) c (d ∷ e ∷ f ∷ g ∷ rest) 18 27
        (length-nines (a ∷ b ∷ []) (omega arith)) (omega arith)

  pub field_3 : slice wire (pos 27) (pos 36) ≡ d
  field_3 =
      slice-concat (a ∷ b ∷ c ∷ []) d (e ∷ f ∷ g ∷ rest) 27 36
        (length-nines (a ∷ b ∷ c ∷ []) (omega arith)) (omega arith)

  pub field_4 : slice wire (pos 36) (pos 45) ≡ e
  field_4 =
      slice-concat (a ∷ b ∷ c ∷ d ∷ []) e (f ∷ g ∷ rest) 36 45
        (length-nines (a ∷ b ∷ c ∷ d ∷ []) (omega arith)) (omega arith)

  pub field_5 : slice wire (pos 45) (pos 54) ≡ f
  field_5 =
      slice-concat (a ∷ b ∷ c ∷ d ∷ e ∷ []) f (g ∷ rest) 45 54
        (length-nines (a ∷ b ∷ c ∷ d ∷ e ∷ []) (omega arith)) (omega arith)

  pub field_6 : slice wire (pos 54) (pos 63) ≡ g
  field_6 =
      slice-concat (a ∷ b ∷ c ∷ d ∷ e ∷ f ∷ []) g rest 54 63
        (length-nines (a ∷ b ∷ c ∷ d ∷ e ∷ f ∷ []) (omega arith)) (omega arith)

  pub length-seven : length (concat seven) ≡ 63
  length-seven = length-nines seven fits
