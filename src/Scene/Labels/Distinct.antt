-- ===== src/Scene/Labels/Distinct.antt =====
-- What the names of repeated labels are, and when they can still collide.
use yeson_meet.Prelude.{
  text_eq, text_beq_iff, ℕ, List, [], arith, get_elem?, if◌then◌else◌, length, some, ◌++◌, ◌+◌,
  ◌==◌, ◌∷◌, ◌≡◌, Bool-cases, ap, beq_refl, false, inl, inr, length-append, refl, ◌∙◌,
}
use yeson_meet.Prelude.Dict.{Dict, get, put, get-put, get-beq}
use yeson_meet.Prelude.Text.{Str, decimal_02}
use yeson_meet.Scene.Labels.{named, dedupe_from, seen_count, dedupe_labels}

abbrev pub occurrences : Str → List Str → ℕ
occurrences label [] = 0
occurrences label (l ∷ ls) = (if l == label then 1 else 0) + occurrences label ls

seen_count-put :
    (l k : Str) (n : ℕ) (seen : Dict Str ℕ)
    → seen_count k (put l n seen) ≡ (if l == k then n else seen_count k seen)
seen_count-put l k n seen = ground (arith, get-put l k n seen)

dedupe_from_at :
    (seen : Dict Str ℕ) (before after : List Str) (label : Str)
    → get_elem? (dedupe_from seen (before ++ label ∷ after)) (length before)
      ≡ some (named label (seen_count label seen + occurrences label before + 1))
unfolding dedupe_from
dedupe_from_at seen [] after label = ap (λ n. some (named label n)) (omega arith)
dedupe_from_at seen (l ∷ before) after label =
    let n = seen_count l seen + 1 in
    dedupe_from_at (put l n seen) before after label
    ∙ ap (λ k. some (named label k))
        (ground (arith, seen_count-put l label n seen, get-beq l label seen))

-- The name of each label is that of its occurrence: one more than the occurrences before it.
pub dedupe_labels_at :
    (before after : List Str) (label : Str)
    → get_elem? (dedupe_labels (before ++ label ∷ after)) (length before)
      ≡ some (named label (occurrences label before + 1))
unfolding dedupe_labels get
dedupe_labels_at before after label =
    dedupe_from_at [] before after label ∙ ap (λ k. some (named label k)) (omega arith)

named_first : (label : Str) → named label 1 ≡ label
unfolding named
named_first label = refl

ne-named_second : (label : Str) → (label == named label 2) ≡ false
unfolding named
ne-named_second label = elim (Bool-cases (label == named label 2)) [
  | inr ne ↦ ne
  | inl same ↦ absurd (
      omega (
        arith,
        ap length ((text_beq_iff label (named label 2)).0 same),
        length-append label (b'_' ∷ decimal_02 2),
      ))
]

-- The names can collide: a label that is spelled like the second name of another one gets the same
-- name as that second occurrence.
pub dedupe_labels_collide :
    (label : Str)
    → dedupe_labels (label ∷ label ∷ named label 2 ∷ [])
      ≡ label ∷ named label 2 ∷ named label 2 ∷ []
unfolding dedupe_labels get put
dedupe_labels_collide label =
    ground
      (arith, beq_refl label, ne-named_second label, named_first label, named_first (named label 2))
