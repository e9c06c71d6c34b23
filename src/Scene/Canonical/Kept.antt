-- ===== src/Scene/Canonical/Kept.antt =====
-- apps/server/domain/video_captions/scene_split.py, `canonicalize_texts`: which texts are replaced, and
-- by what.
use yeson_meet.Prelude.{
  List, Option-cases, Bool-cases, [], ◌∷◌, ◌≡◌, arith, refl, false, inl, inr, map, ◌⊎◌, keep,
  Option, length, ltb, none, some, subst, ℕ, ◌+◌,
}
use yeson_meet.Prelude.Text.{Str, CharTable, join, join_words}
use yeson_meet.Scene.Tokens.{tokenize}
use yeson_meet.Scene.Canonical.{distinct, somes, underscore, label_template}
use yeson_meet.Scene.Canonical.Reparse.{is_clean, reparse}
use yeson_meet.Scene.Canonical.Whole.{
  clean_form, corrected_text, canonicalize_texts, context_at, correct_from, field_values,
  unify_lookalike_heads,
}
use yeson_meet.Scene.Canonical.Careful.{IsCorrection, reparse-IsCorrection, reparse_misread}

module _ (t : CharTable) (template delimiters : List Str) where
  -- The texts of which all tokens have the shape of the template, joined by underscores.
  abbrev pub clean_slates : List Str → List Str
  clean_slates texts =
      map (λ (toks : List Str). join underscore (map (join_words t) toks))
        (keep (λ (toks : List Str). is_clean t toks template)
          (map (λ s. tokenize t s delimiters) texts))

  somes-clean_form :
      (texts : List Str) → somes (map (clean_form t template delimiters) texts) ≡ clean_slates texts
  unfolding clean_form somes
  somes-clean_form [] = refl
  somes-clean_form (s ∷ texts) = elim (Bool-cases (is_clean t (tokenize t s delimiters) template)) [
    | inl clean ↦ ground (arith, somes-clean_form texts)
    | inr other ↦ ground (arith, somes-clean_form texts)
  ]

  -- The text is as it was; or it was not clean, and it is a correction.
  abbrev pub IsCareful : List Str → List Str → List (List Str) → Str → Str → Type 0
  IsCareful known context fields text r =
      (r ≡ text)
      ⊎ ((is_clean t (tokenize t text delimiters) template ≡ false)
          × IsCorrection t template delimiters known context fields text r)

  -- The texts from a position on, with the clean texts around each; `fields` has the values of each field.
  abbrev pub AreCareful :
      List Str → List (List Str) → List (Option Str) → ℕ → List Str → List Str → Type 0
  AreCareful known fields clean i [] [] = Unit
  AreCareful known fields clean i (s ∷ texts) (r ∷ rs) =
      IsCareful known (context_at t clean i) fields s r
      × AreCareful known fields clean (i + 1) texts rs
  AreCareful known fields clean i _ _ = ⊥

  corrected_text-IsCareful :
      (known context : List Str) (pos_values : List (List Str)) (text : Str)
      → IsCareful known context pos_values text
          (corrected_text t text (reparse t text template delimiters known context pos_values))
  corrected_text-IsCareful known context pos_values [] = inl refl
  corrected_text-IsCareful known context pos_values (c ∷ text) =
      elim (Option-cases (reparse t (c ∷ text) template delimiters known context pos_values)) [
        | inl nothing ↦ rw nothing (inl refl)
        | inr (r, found) ↦ rw found (
            inr (
              reparse_misread t (c ∷ text) template delimiters known context pos_values r found,
              reparse-IsCorrection t (c ∷ text) template delimiters known context pos_values r
                  found,
            ))
      ]

  correct_from-AreCareful :
      (known : List Str) (clean : List (Option Str)) (i : ℕ) (texts : List Str)
      → AreCareful known
          (field_values t known (length template) 0)
          clean
          i
          texts
          (correct_from t template delimiters known clean i texts)
  unfolding correct_from
  correct_from-AreCareful known clean i [] = tt
  correct_from-AreCareful known clean i (s ∷ texts) = (
    corrected_text-IsCareful known (context_at t clean i) (field_values t known (length template) 0)
        s,
    correct_from-AreCareful known clean (i + 1) texts,
  )

  corrected-AreCareful :
      (texts : List Str)
      → let clean = map (clean_form t template delimiters) texts in
        AreCareful
          (distinct (clean_slates texts))
          (field_values t (distinct (clean_slates texts)) (length template) 0)
          clean
          0
          texts
          (correct_from t template delimiters (distinct (somes clean)) clean 0 texts)
  corrected-AreCareful texts =
      let clean = map (clean_form t template delimiters) texts in
      subst
        (λ known.
          AreCareful (distinct known) (field_values t (distinct known) (length template) 0) clean 0
            texts (correct_from t template delimiters (distinct (somes clean)) clean 0 texts))
        (somes-clean_form texts) (correct_from-AreCareful (distinct (somes clean)) clean 0 texts)

-- There is no template, and the texts are as they were; or they are changed with care.
abbrev pub IsCanonical : CharTable → List Str → List Str → List Str → Type 0
IsCanonical t delimiters texts rs =
    ((label_template t (keep (λ (s : Str). ltb 0 (length s)) texts) delimiters ≡ none)
      × (rs ≡ texts))
    ⊎ ((template : List Str) × (label_template t (keep (λ (s : Str). ltb 0 (length s)) texts)
            delimiters
          ≡ some template)
        × AreCareful t template delimiters (distinct (clean_slates t template delimiters texts))
            (field_values t (distinct (clean_slates t template delimiters texts)) (length template)
              0)
            (map (clean_form t template delimiters) texts) 0 texts rs)

pub canonicalize_texts-IsCanonical :
    (t : CharTable) (texts delimiters : List Str) (example : Str)
    → IsCanonical t delimiters
        (unify_lookalike_heads t (tokenize t example delimiters) delimiters texts)
        (canonicalize_texts t texts delimiters example)
unfolding canonicalize_texts
canonicalize_texts-IsCanonical t texts delimiters example =
    let us = unify_lookalike_heads t (tokenize t example delimiters) delimiters texts in
    let found = label_template t (keep (λ (s : Str). ltb 0 (length s)) us) delimiters in
    elim (Option-cases found) [
      | inl nothing ↦ inl (nothing, rw (nothing, canonicalize_texts) refl)
      | inr (template, some_found) ↦ inr (
        template,
        some_found,
        rw (some_found, canonicalize_texts) (corrected-AreCareful t template delimiters us),
      )
    ]
