-- ===== src/Scene/Canonical/Careful.antt =====
-- apps/server/domain/video_captions/scene_split.py, `_reparse` and `canonicalize_texts`: where a
-- corrected text comes from.
use yeson_meet.Prelude.{
  List, Option-cases, Bool-cases, [], ◌∷◌, ◌≡◌, arith, some, true, inl, inr, map, keep, All, ◌⊎◌,
  false, ap, refl, ℕ, ◌++◌,
}
use yeson_meet.Prelude.Text.{Str, CharTable}
use yeson_meet.Glossary.{is_one_of}
use yeson_meet.Scene.Tokens.{tokenize}
use yeson_meet.Scene.Canonical.{only, deletions, somes, fill_template}
use yeson_meet.Scene.Canonical.Reparse.{
  decided, matched, coerce_lookalikes, flat_of, is_clean, reparse,
}
use yeson_meet.Scene.Canonical.Sole.{
  All-distinct, All-keep, All-only, keep-All, All-somes, IsSole, decided-IsSole,
}
use yeson_meet.Scene.Canonical.Corrections.{IsRecut, fill_template-IsRecut}
use yeson_meet.Scene.Canonical.Licences.{IsCoerced, coerce_lookalikes-IsCoerced}

-- The second text is the first without one of its characters.
abbrev pub IsShorter : Str → Str → Type 0
IsShorter s r =
    (before : Str) × (c : ℕ) × (after : Str) × (s ≡ before ++ (c ∷ after)) × (r ≡ before ++ after)

cons-IsShorter :
    (c : ℕ) (s : Str) (rs : List Str)
    → All (IsShorter s) rs
    → All (IsShorter (c ∷ s)) (map (λ r. c ∷ r) rs)
cons-IsShorter c s [] h = tt
cons-IsShorter c s (r ∷ rs) ((before, d, after, e, k), h) =
    ((c ∷ before, d, after, ap (λ u. c ∷ u) e, ap (λ u. c ∷ u) k), cons-IsShorter c s rs h)

deletions-All : (s : Str) → All (IsShorter s) (deletions s)
unfolding deletions
deletions-All [] = tt
deletions-All (c ∷ s) = (([], c, s, refl, refl), cons-IsShorter c s (deletions s) (deletions-All s))

module _ (t : CharTable) where
  decided-All {κ} :
      (P : Str → Type κ) (found context : List Str) (m : Str)
      → decided t found context ≡ some m
      → All P found
      → P m
  unfolding decided
  decided-All P found context m h k = elim (Option-cases (only found)) [
    | inr (x, one) ↦ All-only P found m (ground arith) k
    | inl several ↦
        All-only P (keep (λ c. is_one_of c context) found) m (ground arith)
          (All-keep P (λ c. is_one_of c context) found k)
  ]

  -- A known text that is left of the whole text without one of its characters, cut anew.
  abbrev pub IsInsertion : List Str → List Str → Str → Str → Type 0
  IsInsertion template known flat r =
      ((shorter : Str) × (IsShorter flat shorter × IsRecut t template shorter r))
      × (is_one_of r known ≡ true)

  decided-IsInsertion :
      (flat : Str) (template known context : List Str) (m : Str)
      → decided t (matched t flat template known) context ≡ some m
      → IsInsertion template known flat m
  decided-IsInsertion flat template known context m h =
      let fills = somes (map (λ s. fill_template t s template) (deletions flat)) in
      let cut : Str → Type 0 =
        λ r. (shorter : Str) × (IsShorter flat shorter × IsRecut t template shorter r) in
      decided-All (IsInsertion template known flat) (matched t flat template known) context m h (
        All-distinct (IsInsertion template known flat) (keep (λ c. is_one_of c known) fills) (
          keep-All cut (λ c. is_one_of c known) fills
            (All-somes (IsShorter flat) cut (λ s. fill_template t s template) (deletions flat)
              (λ s r filled short. (s, (short, fill_template-IsRecut t s template r filled)))
              (deletions-All flat))))

  -- Where a corrected text comes from: it is the text cut anew, with characters that look like its own
  -- if need be, or the one known text that is it without one character, cut anew.
  abbrev pub IsCorrection :
      List Str → List Str → List Str → List Str → List (List Str) → Str → Str → Type 0
  IsCorrection template delimiters known context fields text r =
      let flat = flat_of t (tokenize t text delimiters) in
      IsRecut t template flat r
      ⊎ (IsCoerced t template fields flat r
          ⊎ (IsInsertion template known flat r × IsSole t flat template known context r))

  pub reparse-IsCorrection :
      (text : Str) (template delimiters known context : List Str) (pos_values : List (List Str))
      (r : Str)
      → reparse t text template delimiters known context pos_values ≡ some r
      → IsCorrection template delimiters known context pos_values text r
  unfolding reparse
  reparse-IsCorrection text template delimiters known context pos_values r h =
      let toks = tokenize t text delimiters in
      let flat = flat_of t toks in
      elim (Bool-cases (is_clean t toks template)) [
        | inl clean ↦ ground arith
        | inr misread ↦ elim (Option-cases (fill_template t flat template)) [
          | inr (x, filled) ↦ inl (fill_template-IsRecut t flat template r (ground arith))
          | inl nothing ↦ elim (Option-cases (coerce_lookalikes t flat template pos_values)) [
            | inr (x, coerced) ↦
                inr (inl (coerce_lookalikes-IsCoerced t flat template pos_values r (ground arith)))
            | inl neither ↦ inr (
                inr (
                  decided-IsInsertion flat template known context r (ground arith),
                  decided-IsSole t flat template known context r (ground arith),
                ))
          ]
        ]
      ]

  pub reparse_misread :
      (text : Str) (template delimiters known context : List Str) (pos_values : List (List Str))
      (r : Str)
      → reparse t text template delimiters known context pos_values ≡ some r
      → is_clean t (tokenize t text delimiters) template ≡ false
  unfolding reparse
  reparse_misread text template delimiters known context pos_values r h =
      elim (Bool-cases (is_clean t (tokenize t text delimiters) template)) [
        | inl clean ↦ ground arith
        | inr misread ↦ misread
      ]
