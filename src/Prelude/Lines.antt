-- ===== src/Prelude/Lines.antt =====
-- More `str` methods of Python: `splitlines`, `partition`, `in` and `replace`.
use mathlib.Core.Bool.{Bool, true, false, ◌&&◌, ◌||◌}
use mathlib.Core.List.{List, [], ◌∷◌, ◌++◌}
use mathlib.Core.Option.{Option, none, some}
use yeson_meet.Prelude.Tests.{nat_eq, leb, if◌then◌else◌}
use yeson_meet.Prelude.Lists.{length, drop}
use yeson_meet.Prelude.Text.{Str, starts_with}
use Prim.Native.Nat.{ℕ, zero, suc, ◌-◌}

-- The characters that end a line: LF, VT, FF, CR, FS, GS, RS, NEL, LS, PS.
unfoldable pub is_line_end : ℕ → Bool
is_line_end c =
    (leb 10 c && leb c 13)
    || ((leb 28 c && leb c 30) || (nat_eq c 133 || (nat_eq c 8232 || nat_eq c 8233)))

abbrev pub push_char : ℕ → List Str → List Str
push_char c [] = (c ∷ []) ∷ []
push_char c (l ∷ ls) = (c ∷ l) ∷ ls

-- The flag says that the character before was a CR, so that an LF belongs to the same line end.
unfoldable pub lines_from : Bool → Str → List Str
lines_from after_cr [] = []
lines_from after_cr (c ∷ s) = elim (after_cr && nat_eq c 10) [
  | true ↦ lines_from false s
  | false ↦ elim (is_line_end c) [
    | true ↦ [] ∷ lines_from (nat_eq c 13) s
    | false ↦ push_char c (lines_from false s)
  ]
]

-- text.splitlines()
unfoldable pub splitlines : Str → List Str
unfolding lines_from
splitlines text = lines_from false text

-- s.partition(sep), where `sep` occurs: what stands before its first occurrence and after it.
unfoldable pub partition : Str → Str → Option (Str × Str)
partition sep [] = if starts_with [] sep then some ([], []) else none
partition sep (c ∷ s) =
    if starts_with (c ∷ s) sep
    then some ([], drop (length sep) (c ∷ s))
    else elim (partition sep s) [ none ↦ none | some (before, after) ↦ some (c ∷ before, after) ]

-- s.replace(old, new) for a text `old` that is not empty; the number counts the characters of an
-- occurrence that are still to skip.
unfoldable pub replace_from : Str → Str → ℕ → Str → Str
replace_from old new skip [] = []
replace_from old new (suc skip) (c ∷ s) = replace_from old new skip s
replace_from old new zero (c ∷ s) = elim (starts_with (c ∷ s) old) [
  | true ↦ new ++ replace_from old new (length old - 1) s
  | false ↦ c ∷ replace_from old new zero s
]

unfoldable pub replace : Str → Str → Str → Str
unfolding replace_from
replace old new s = replace_from old new zero s
