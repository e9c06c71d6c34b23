-- ===== src/Prelude/Strip.antt =====
-- Laws of `strip`.
use mathlib.Core.Bool.{true, false}
use mathlib.Core.List.{[], ◌∷◌, ◌++◌}
use Prim.Native.Nat.{ℕ}
use mathlib.Core.Path.{◌≡◌, refl, ap, ◌∙◌}
use native.Mathlib.Omega.{arith}
use yeson_meet.Prelude.Tests.{Bool-cases}
use yeson_meet.Prelude.Text.{Str, CharTable, before_stripped, strip_left, strip_right, strip}
use mathlib.Core.Logic.{inl, inr}

module _ (t : CharTable) where
  -- The first character, if there is one, is no white space; and the last.
  abbrev pub StartsDark : Str → Type 0
  StartsDark [] = Unit
  StartsDark (c ∷ s) = t.is_space c ≡ false

  abbrev pub EndsDark : Str → Type 0
  EndsDark [] = Unit
  EndsDark (c ∷ []) = t.is_space c ≡ false
  EndsDark (c ∷ d ∷ s) = EndsDark (d ∷ s)

  -- White space only.
  abbrev pub IsBlank : Str → Type 0
  IsBlank [] = Unit
  IsBlank (c ∷ s) = (t.is_space c ≡ true) × IsBlank s

  strip_left_dark : (s : Str) → StartsDark s → strip_left t s ≡ s
  unfolding strip_left
  strip_left_dark [] h = refl
  strip_left_dark (c ∷ s) h = ground arith

  strip_left-StartsDark : (s : Str) → StartsDark (strip_left t s)
  unfolding strip_left
  strip_left-StartsDark [] = tt
  strip_left-StartsDark (c ∷ s) = elim (Bool-cases (t.is_space c)) [
    | inl blank ↦ rw (blank, StartsDark, strip_left) (strip_left-StartsDark s)
    | inr dark ↦ rw (dark, StartsDark, strip_left) dark
  ]

  strip_right_dark : (s : Str) → EndsDark s → strip_right t s ≡ s
  unfolding strip_right
  strip_right_dark [] h = refl
  strip_right_dark (c ∷ []) h = ground arith
  strip_right_dark (c ∷ d ∷ s) h = rw (strip_right_dark (d ∷ s) h, strip_right) refl

  before_stripped-EndsDark : (c : ℕ) (r : Str) → EndsDark r → EndsDark (before_stripped t c r)
  before_stripped-EndsDark c [] h = elim (Bool-cases (t.is_space c)) [
    | inl blank ↦ rw (blank, EndsDark, before_stripped) tt
    | inr dark ↦ rw (dark, EndsDark, before_stripped) dark
  ]
  before_stripped-EndsDark c (d ∷ r) h = h

  strip_right-EndsDark : (s : Str) → EndsDark (strip_right t s)
  unfolding strip_right
  strip_right-EndsDark [] = tt
  strip_right-EndsDark (c ∷ s) =
      before_stripped-EndsDark c (strip_right t s) (strip_right-EndsDark s)

  before_stripped-StartsDark :
      (c : ℕ) (r : Str) → t.is_space c ≡ false → StartsDark (before_stripped t c r)
  before_stripped-StartsDark c [] dark = rw (dark, StartsDark, before_stripped) dark
  before_stripped-StartsDark c (d ∷ r) dark = dark

  strip_right-StartsDark : (s : Str) → StartsDark s → StartsDark (strip_right t s)
  unfolding strip_right
  strip_right-StartsDark [] h = tt
  strip_right-StartsDark (c ∷ s) h = before_stripped-StartsDark c (strip_right t s) h

  -- A text with no white space at its ends is left as it is.
  pub strip_dark : (s : Str) → StartsDark s → EndsDark s → strip t s ≡ s
  unfolding strip
  strip_dark s starts ends = ap (strip_right t) (strip_left_dark s starts) ∙ strip_right_dark s ends

  pub strip-StartsDark : (s : Str) → StartsDark (strip t s)
  unfolding strip
  strip-StartsDark s = strip_right-StartsDark (strip_left t s) (strip_left-StartsDark s)

  pub strip-EndsDark : (s : Str) → EndsDark (strip t s)
  unfolding strip
  strip-EndsDark s = strip_right-EndsDark (strip_left t s)

  pub strip_idem : (s : Str) → strip t (strip t s) ≡ strip t s
  strip_idem s = strip_dark (strip t s) (strip-StartsDark s) (strip-EndsDark s)

  -- White space in front, or one character of it at the end, makes no difference.
  pub strip_blank_front : (c : ℕ) (s : Str) → t.is_space c ≡ true → strip t (c ∷ s) ≡ strip t s
  unfolding strip strip_left
  strip_blank_front c s blank = ground arith

  strip_right_blank_end :
      (s : Str) (c : ℕ) → t.is_space c ≡ true → strip_right t (s ++ c ∷ []) ≡ strip_right t s
  unfolding strip_right
  strip_right_blank_end [] c blank = ground arith
  strip_right_blank_end (d ∷ s) c blank = ap (before_stripped t d) (strip_right_blank_end s c blank)

  strip_left_end :
      (s : Str) (c : ℕ)
      → t.is_space c ≡ true
      → strip_right t (strip_left t (s ++ c ∷ [])) ≡ strip_right t (strip_left t s)
  unfolding strip_left
  strip_left_end [] c blank = unfold strip_right in rw blank refl
  strip_left_end (d ∷ s) c blank = elim (Bool-cases (t.is_space d)) [
    | inl white ↦ rw (white, strip_left) (strip_left_end s c blank)
    | inr dark ↦ rw (dark, strip_left) (strip_right_blank_end (d ∷ s) c blank)
  ]

  pub strip_blank_end : (s : Str) (c : ℕ) → t.is_space c ≡ true → strip t (s ++ c ∷ []) ≡ strip t s
  unfolding strip
  strip_blank_end s c blank = strip_left_end s c blank
