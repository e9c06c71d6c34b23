-- ===== src/Captions/Guard/Verdicts.antt =====
-- The guard and the tests for English captions agree with each other.
use yeson_meet.Prelude.{
  ℕ, Bool, false, none, ◌≡◌, arith, All, List, Option-cases, [], ap₂, beq_refl, inl, inr, refl,
  some, true, ◌==◌, ◌∷◌, ◌≢◌, text_eq,
}
use yeson_meet.Prelude.Text.{Str, CharTable, strip}
use yeson_meet.Prelude.Strip.{strip_idem}
use yeson_meet.Captions.Guard.{
  guard_mlx_ko, is_english_leak, is_source_copy, is_untranslated, apply_ko_guard, guarded,
}

module _ (t : CharTable) where
  -- A caption that copies its source is untranslated.
  pub is_source_copy-is_untranslated :
      (en ko : Str) → is_untranslated t en ko ≡ false → is_source_copy t en ko ≡ false
  unfolding is_untranslated is_source_copy
  is_source_copy-is_untranslated en ko h = ground arith

  guard_mlx_ko-english :
      (decimals : ℕ → Bool) (en ko : Str)
      → guard_mlx_ko t decimals en ko ≡ none
      → is_english_leak t ko ≡ false
  unfolding guard_mlx_ko
  guard_mlx_ko-english decimals en ko h = ground (arith, strip_idem t ko)

  -- The test on two lists, place by place.
  abbrev pub each : (Str → Str → Bool) → List Str → List Str → List Bool
  each p [] ys = []
  each p (x ∷ xs) [] = []
  each p (x ∷ xs) (y ∷ ys) = p x y ∷ each p xs ys

  -- The guard rejects the translation, or it is its source but for white space at the ends.
  abbrev pub is_rejected_or_copy : (ℕ → Bool) → Str → Str → Bool
  is_rejected_or_copy decimals en ko = elim (guard_mlx_ko t decimals en ko) [
    | some reason ↦ true
    | none ↦ strip t ko == strip t en
  ]

  abbrev pub IsBlank : Str → Type 0
  IsBlank en = strip t en ≡ []

  is_untranslated-source : (en : Str) → ¬ IsBlank en → is_untranslated t en en ≡ true
  unfolding is_untranslated is_source_copy
  is_untranslated-source en h = ground (arith, beq_refl (strip t en))

  guard_mlx_ko-filled :
      (decimals : ℕ → Bool) (en ko : Str) → guard_mlx_ko t decimals en ko ≡ none → strip t ko ≢ []
  unfolding guard_mlx_ko
  guard_mlx_ko-filled decimals en ko h blank = ground (arith, blank)

  is_english_leak-strip : (ko : Str) → is_english_leak t (strip t ko) ≡ is_english_leak t ko
  unfolding is_english_leak
  is_english_leak-strip ko = rw (strip_idem t ko, is_english_leak) refl

  is_untranslated-passed :
      (en ko : Str)
      → strip t ko ≢ []
      → is_english_leak t ko ≡ false
      → is_untranslated t en ko ≡ (strip t ko == strip t en)
  unfolding is_untranslated is_source_copy
  is_untranslated-passed en ko filled h =
      ground (arith, is_english_leak-strip ko, beq_refl (strip t en))

  guarded-is_untranslated :
      (decimals : ℕ → Bool) (en ko : Str)
      → ¬ IsBlank en
      → is_untranslated t en (guarded t decimals en ko) ≡ is_rejected_or_copy decimals en ko
  unfolding guarded
  guarded-is_untranslated decimals en ko h = elim (Option-cases (guard_mlx_ko t decimals en ko)) [
    | inl pass ↦ ground (
      arith,
      is_untranslated-passed en ko (guard_mlx_ko-filled decimals en ko pass)
          (guard_mlx_ko-english decimals en ko pass),
    )
    | inr (reason, fail) ↦ ground (arith, is_untranslated-source en h)
  ]

  -- After the guard, a caption with a source that is not blank counts as untranslated exactly if the
  -- guard rejected its translation or the translation is the source but for white space at the ends.
  pub apply_ko_guard-is_untranslated :
      (decimals : ℕ → Bool) (texts out : List Str)
      → All (λ en. ¬ IsBlank en) texts
      → each (is_untranslated t) texts (apply_ko_guard t decimals texts out)
        ≡ each (is_rejected_or_copy decimals) texts out
  unfolding apply_ko_guard
  apply_ko_guard-is_untranslated decimals [] out h = refl
  apply_ko_guard-is_untranslated decimals (en ∷ texts) [] h = refl
  apply_ko_guard-is_untranslated decimals (en ∷ texts) (ko ∷ out) h =
      ap₂ ◌∷◌ (guarded-is_untranslated decimals en ko h.0)
        (apply_ko_guard-is_untranslated decimals texts out h.1)
