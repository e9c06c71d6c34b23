-- ===== src/Scene/Tokens.antt =====
-- scene_split.py: the tokens of a slate text, group keys and labels. Delimiters are not empty; a
-- token index is a natural number (the code answers a negative one as one out of range).
use yeson_meet.Prelude.{
  ℕ, Bool, List, Option, [], false, get_elem?, if◌then◌else◌, keep, leb, length, ltb, map, max,
  none, not, some, suc, take, true, zero, ◌&&◌, ◌++◌, ◌-◌, ◌||◌, ◌∷◌,
}
use yeson_meet.Prelude.Text.{Str, CharTable, strip, join_words, starts_with, join}

pub record SlateRule : Type 0 where
  pub delimiters : List Str
  pub seq_tokens : List ℕ
  pub scene_tokens : List ℕ

pub data Mode : Type 0 where
  sequence scene : Mode

-- The alternative of the pattern that matches at the front of the text: the first that fits.
unfoldable pub find_delimiter : List Str → Str → Option Str
find_delimiter [] s = none
find_delimiter (d ∷ ds) s = if starts_with s d then some d else find_delimiter ds s

abbrev pub push_front : ℕ → List Str → List Str
push_front c [] = (c ∷ []) ∷ []
push_front c (p ∷ ps) = (c ∷ p) ∷ ps

-- `re.split`: the second argument counts the characters of a delimiter that are still to skip.
unfoldable pub split : List Str → ℕ → Str → List Str
split ds skip [] = [] ∷ []
split ds (suc k) (c ∷ s) = split ds k s
split ds zero (c ∷ s) = elim (find_delimiter ds (c ∷ s)) [
  | none ↦ push_front c (split ds zero s)
  | some d ↦ [] ∷ split ds (length d - 1) s
]

abbrev pub is_empty {ℓ} : {A : Type ℓ} → List A → Bool
is_empty [] = true
is_empty (x ∷ xs) = false

module _ (t : CharTable) where
  unfoldable pub tokenize : Str → List Str → List Str
  unfolding split find_delimiter
  tokenize text [] = keep (λ p. not (is_empty p)) (map (strip t) (text ∷ []))
  tokenize text (d ∷ ds) = keep (λ p. not (is_empty p)) (map (strip t) (split (d ∷ ds) zero text))

  -- The selected tokens, `none` if an index is out of range.
  unfoldable pub select : List Str → List ℕ → Option (List Str)
  select tokens [] = some []
  select tokens (i ∷ is) = elim (get_elem? tokens i) [
    | none ↦ none
    | some p ↦ elim (select tokens is) [ none ↦ none | some ps ↦ some (join_words t p ∷ ps) ]
  ]

  unfoldable pub grouping_key : List Str → List ℕ → Option Str
  unfolding select
  grouping_key tokens [] = none
  grouping_key tokens (i ∷ is) = elim (select tokens (i ∷ is)) [
    | none ↦ none
    | some ps ↦ some (join (0x1f ∷ []) ps)
  ]

  -- `none` stands for the index -1 of a rule with no tokens.
  unfoldable pub build_label : List Str → Option ℕ → Str
  build_label tokens none = []
  build_label tokens (some upto) =
      if ltb upto (length tokens)
      then join (b'_' ∷ []) (map (join_words t) (take (suc upto) tokens))
      else []

  -- A text without delimiters and white space.
  unfoldable pub squash : List Str → Str → Str
  squash ds s = join [] (map (join_words t) (tokenize s ds))

  unfoldable pub label_matches : Str → Str → Str → List Str → Bool
  label_matches text_label target other ds =
      let tgt = squash ds target in
      let oth = squash ds other in
      let x = squash ds text_label in
      if is_empty tgt || (is_empty x || not (starts_with x tgt))
      then false
      else not (not (is_empty oth) && (starts_with x oth && leb (length tgt) (length oth)))

unfoldable pub mode_indices : SlateRule → Mode → List ℕ
mode_indices rule sequence = rule.seq_tokens
mode_indices rule scene = rule.seq_tokens ++ rule.scene_tokens

-- `max(indices)`, `none` for no indices.
unfoldable pub upto_index : List ℕ → Option ℕ
upto_index [] = none
upto_index (i ∷ is) = elim (upto_index is) [ none ↦ some i | some j ↦ some (max i j) ]
