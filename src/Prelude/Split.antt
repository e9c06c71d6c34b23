-- ===== src/Prelude/Split.antt =====
-- Laws of `splitlines` and `partition`.
use mathlib.Core.Bool.{Bool, true, false}
use mathlib.Core.List.{List, [], ◌∷◌, ◌++◌}
use mathlib.Core.Option.{some}
use Prim.Native.Nat.{ℕ}
use mathlib.Core.Path.{◌≡◌, refl, ap}
use native.Mathlib.Omega.{arith}
use yeson_meet.Prelude.Tests.{nat_eq}
use yeson_meet.Prelude.Lists.{All, length, drop}
use yeson_meet.Prelude.Text.{
  Str, starts_with, CharTable, strip_left, strip_right, strip, before_stripped,
}
use yeson_meet.Prelude.Lines.{is_line_end, push_char, lines_from, splitlines, partition}

-- No character ends a line.
abbrev pub IsLine : Str → Type 0
IsLine = All (λ c. is_line_end c ≡ false)

push_char-IsLine :
    (c : ℕ) (ls : List Str) → is_line_end c ≡ false → All IsLine ls → All IsLine (push_char c ls)
push_char-IsLine c [] h hs = ((h, tt), tt)
push_char-IsLine c (l ∷ ls) h hs = ((h, hs.0), hs.1)

lines_from-IsLine : (after_cr : Bool) (s : Str) → All IsLine (lines_from after_cr s)
unfolding lines_from
lines_from-IsLine after_cr [] = tt
lines_from-IsLine after_cr (c ∷ s) = ground (
  arith,
  lines_from-IsLine false s,
  lines_from-IsLine (nat_eq c 13) s,
  push_char-IsLine c (lines_from false s),
)

pub splitlines-IsLine : (s : Str) → All IsLine (splitlines s)
unfolding splitlines
splitlines-IsLine s = lines_from-IsLine false s

-- A text with no line end is its one line.
pub splitlines_line : (c : ℕ) (s : Str) → IsLine (c ∷ s) → splitlines (c ∷ s) ≡ (c ∷ s) ∷ []
unfolding splitlines lines_from
splitlines_line c [] h = rw (h.0, lines_from) refl
splitlines_line c (d ∷ s) h = rw (h.0, lines_from) (ap (push_char c) (splitlines_line d s h.1))

-- A line and its LF come off the front.
pub splitlines_cons : (l s : Str) → IsLine l → splitlines (l ++ 10 ∷ s) ≡ l ∷ splitlines s
unfolding splitlines lines_from is_line_end
splitlines_cons [] s h = refl
splitlines_cons (c ∷ l) s h = rw (h.0, lines_from) (ap (push_char c) (splitlines_cons l s h.1))

pub starts_with-append : (p s : Str) → starts_with (p ++ s) p ≡ true
unfolding starts_with
starts_with-append [] s = refl
starts_with-append (c ∷ p) s = ground (arith, starts_with-append p s)

drop-append : (p s : Str) → drop (length p) (p ++ s) ≡ s
drop-append [] s = refl
drop-append (c ∷ p) s = drop-append p s

-- The text in front of the separator does not have its first character.
pub partition-append :
    (pre : Str) (d : ℕ) (sep post : Str)
    → All (λ c. nat_eq c d ≡ false) pre
    → partition (d ∷ sep) (pre ++ (d ∷ (sep ++ post))) ≡ some (pre, post)
unfolding partition starts_with
partition-append [] d sep post h =
    rw (starts_with-append (d ∷ sep) post, drop-append sep post, partition) refl
partition-append (c ∷ pre) d sep post h =
    rw (h.0, partition, starts_with) (rw (partition-append pre d sep post h.1) refl)

module _ (t : CharTable) where
  strip_left-IsLine : (s : Str) → IsLine s → IsLine (strip_left t s)
  unfolding strip_left
  strip_left-IsLine [] h = tt
  strip_left-IsLine (c ∷ s) h = ground (arith, strip_left-IsLine s)

  before_stripped-IsLine :
      (c : ℕ) (r : Str) → is_line_end c ≡ false → IsLine r → IsLine (before_stripped t c r)
  before_stripped-IsLine c [] h hr =
      elim (t.is_space c) as (λ b. IsLine (elim b [ true ↦ [] | false ↦ c ∷ [] ])) [
        | true ↦ tt
        | false ↦ (h, tt)
      ]
  before_stripped-IsLine c (d ∷ r) h hr = (h, hr)

  strip_right-IsLine : (s : Str) → IsLine s → IsLine (strip_right t s)
  unfolding strip_right
  strip_right-IsLine [] h = tt
  strip_right-IsLine (c ∷ s) h =
      before_stripped-IsLine c (strip_right t s) h.0 (strip_right-IsLine s h.1)

  pub strip-IsLine : (s : Str) → IsLine s → IsLine (strip t s)
  unfolding strip
  strip-IsLine s h = strip_right-IsLine (strip_left t s) (strip_left-IsLine s h)
