-- ===== src/Prelude/Text.antt =====
-- Python's `str` as a list of code points, and the `str` methods that the program uses. What Unicode
-- says of a character (white space, case) is a parameter: the table of the interpreter.
use Prim.Native.Char.{code}
use Prim.Native.Nat.{ℕ, zero, suc, ◌+◌, ◌/◌, ◌%◌}
use Prim.Native.String.{String}
use mathlib.Core.Bool.{Bool, true, false, ◌&&◌}
use mathlib.Core.List.{List, [], ◌∷◌, ◌++◌}
use yeson_meet.Prelude.Tests.{nat_eq, ltb, if◌then◌else◌}

abbrev pub Str : Type 0
Str = List ℕ

-- The code points of a literal.
abbrev pub codes : String → Str
codes String.[] = []
codes (String.◌∷◌ c s) = code c ∷ codes s

-- The interpreter's Unicode tables. Lower and upper case of a character can be several.
pub record CharTable : Type 0 where
  pub is_space : ℕ → Bool
  pub is_digit : ℕ → Bool
  pub is_upper : ℕ → Bool
  pub is_lower : ℕ → Bool
  pub lower : ℕ → Str
  pub upper : ℕ → Str

module _ (t : CharTable) where
  -- s.lstrip()
  unfoldable pub strip_left : Str → Str
  strip_left [] = []
  strip_left (c ∷ s) = elim (t.is_space c) [ true ↦ strip_left s | false ↦ c ∷ s ]

  -- A character in front of what `rstrip` leaves of the rest: white space goes if nothing is left.
  abbrev pub before_stripped : ℕ → Str → Str
  before_stripped c [] = elim (t.is_space c) [ true ↦ [] | false ↦ c ∷ [] ]
  before_stripped c (d ∷ r) = c ∷ d ∷ r

  -- s.rstrip()
  unfoldable pub strip_right : Str → Str
  strip_right [] = []
  strip_right (c ∷ s) = before_stripped c (strip_right s)

  -- s.strip()
  unfoldable pub strip : Str → Str
  unfolding strip_left strip_right
  strip s = strip_right (strip_left s)

  -- "".join(s.split()): the text without its white space
  unfoldable pub join_words : Str → Str
  join_words [] = []
  join_words (c ∷ s) = elim (t.is_space c) [ true ↦ join_words s | false ↦ c ∷ join_words s ]

  -- s.lower()
  unfoldable pub to_lower : Str → Str
  to_lower [] = []
  to_lower (c ∷ s) = t.lower c ++ to_lower s

-- s.startswith(p)
unfoldable pub starts_with : Str → Str → Bool
starts_with s [] = true
starts_with [] (d ∷ p) = false
starts_with (c ∷ s) (d ∷ p) = nat_eq c d && starts_with s p

-- sep.join(parts)
unfoldable pub join : Str → List Str → Str
join sep [] = []
join sep (p ∷ []) = p
join sep (p ∷ q ∷ ps) = p ++ (sep ++ join sep (q ∷ ps))

-- The decimal digits of a number, on fuel: `suc n` rounds are more than enough for `n`.
unfoldable pub decimal_fuel : ℕ → ℕ → Str
decimal_fuel zero n = []
decimal_fuel (suc f) n =
    let rest = decimal_fuel f (n / 10) in
    if ltb n 10 then (48 + n) ∷ [] else rest ++ (48 + n % 10) ∷ []

-- str(n)
unfoldable pub decimal : ℕ → Str
unfolding decimal_fuel
decimal n = decimal_fuel (suc n) n

-- f"{n:02d}"
unfoldable pub decimal_02 : ℕ → Str
unfolding decimal
decimal_02 n = if ltb n 10 then 48 ∷ decimal n else decimal n
