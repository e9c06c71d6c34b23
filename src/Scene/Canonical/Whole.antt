-- ===== src/Scene/Canonical/Whole.antt =====
-- apps/server/domain/video_captions/scene_split.py: `_unify_lookalike_heads` and `canonicalize_texts`.
use yeson_meet.Prelude.{
  ℕ, text_eq, Bool, List, Option, [], drop, false, get_elem?, if◌then◌else◌, keep, length, ltb, map,
  nat_eq, none, some, suc, take, true, zero, ◌&&◌, ◌++◌, ◌+◌, ◌-◌, ◌||◌, ◌∷◌,
}
use yeson_meet.Prelude.Dict.{Dict, get}
use yeson_meet.Prelude.Text.{Str, CharTable, join, join_words}
use yeson_meet.Captions.Guard.{is_ascii_alpha}
use yeson_meet.Scene.Tokens.{tokenize, split}
use yeson_meet.Scene.Canonical.{counted, distinct, somes, label_template, underscore}
use yeson_meet.Scene.Canonical.Reparse.{reparse, is_clean}

-- `_alpha_head`
unfoldable pub alpha_head : Str → Str
alpha_head [] = []
alpha_head (c ∷ s) = if is_ascii_alpha c then c ∷ alpha_head s else []

-- The places where two texts differ.
unfoldable pub differences : Str → Str → List (ℕ × ℕ)
differences [] ys = []
differences (x ∷ xs) [] = []
differences (x ∷ xs) (y ∷ ys) = if nat_eq x y then differences xs ys else (x, y) ∷ differences xs ys

-- `_LOOKALIKE_LETTER_PAIRS`: g and q
abbrev pub is_pair : List (ℕ × ℕ) → Bool
is_pair [] = false
is_pair ((x, y) ∷ []) = (nat_eq x b'g' && nat_eq y b'q') || (nat_eq x b'q' && nat_eq y b'g')
is_pair (p ∷ q ∷ ps) = false

-- `_is_lookalike_head`
unfoldable pub is_lookalike_head : Str → Str → Bool
unfolding differences
is_lookalike_head a b = nat_eq (length a) (length b) && is_pair (differences a b)

-- The last of the more frequent heads that look like one that occurs so often.
unfoldable pub better_head : Str → ℕ → Option Str → Dict Str ℕ → Option Str
unfolding is_lookalike_head
better_head head n best [] = best
better_head head n best ((other, m) ∷ d) =
    if ltb n m && is_lookalike_head head other
    then better_head head n (some other) d
    else better_head head n best d

-- What a head is remapped to: the declared head, if there is one at its place.
unfoldable pub remap : Option Str → Dict Str ℕ → Str → Option Str
unfolding better_head
remap declared counter head = elim (get head counter) [
  | none ↦ none
  | some n ↦ elim declared [
    | some truth ↦ if is_lookalike_head head truth then some truth else none
    | none ↦ better_head head n none counter
  ]
]

module _ (t : CharTable) where
  -- The heads at a position, counted.
  unfoldable pub heads_at : List (List Str) → ℕ → Dict Str ℕ
  unfolding alpha_head
  heads_at toks_list i = counted [] (
      keep (λ (h : Str). ltb 0 (length h))
        (map (λ tok. alpha_head (join_words t tok))
          (somes (map (λ (toks : List Str). get_elem? toks i) toks_list))))

  -- The head that is declared at a position, if the example has one there.
  unfoldable pub declared_at : List Str → ℕ → Option Str
  unfolding alpha_head
  declared_at example i = elim (get_elem? example i) [
    | none ↦ none
    | some tok ↦ elim (alpha_head (join_words t tok)) [ [] ↦ none | c ∷ s ↦ some (c ∷ s) ]
  ]

  -- The tokens from a position on, with their heads remapped, and whether one was.
  unfoldable pub rehead : List Str → List (List Str) → ℕ → List Str → List Str × Bool
  unfolding heads_at declared_at remap
  rehead example toks_list i [] = ([], false)
  rehead example toks_list i (tok ∷ toks) =
      let later = rehead example toks_list (i + 1) toks in
      let squashed = join_words t tok in
      elim (remap (declared_at example i) (heads_at toks_list i) (alpha_head squashed)) [
        | none ↦ (squashed ∷ later.0, later.1)
        | some target ↦ ((target ++ drop (length target) squashed) ∷ later.0, true)
      ]

  abbrev pub reheaded : Str → List Str × Bool → Str
  reheaded text (toks, hit) = if hit then join underscore toks else text

  -- `_unify_lookalike_heads`, with the tokens of the example
  unfoldable pub unify_lookalike_heads : List Str → List Str → List Str → List Str
  unfolding rehead
  unify_lookalike_heads example delimiters texts =
      let toks_list = map (λ s. tokenize t s delimiters) texts in
      map (λ s. reheaded s (rehead example toks_list 0 (tokenize t s delimiters))) texts

  -- A clean text in its canonical form.
  unfoldable pub clean_form : List Str → List Str → Str → Option Str
  clean_form template delimiters text =
      let toks = tokenize t text delimiters in
      if is_clean t toks template then some (join underscore (map (join_words t) toks)) else none

  -- The values of each field among the known texts.
  unfoldable pub field_values : List Str → ℕ → ℕ → List (List Str)
  field_values known zero i = []
  field_values known (suc n) i =
      distinct (somes (map (λ k. get_elem? (split (underscore ∷ []) 0 k) i) known))
      ∷ field_values known n (i + 1)

  abbrev pub ctx_window : ℕ
  ctx_window = 4

  -- The clean texts around a position.
  unfoldable pub context_at : List (Option Str) → ℕ → List Str
  context_at clean i = somes (
      take (i - (i - ctx_window)) (drop (i - ctx_window) clean)
      ++ take ctx_window (drop (i + 1) clean))

  -- A text that is missing stays so.
  abbrev pub corrected_text : Str → Option Str → Str
  corrected_text [] fixed = []
  corrected_text (c ∷ text) none = c ∷ text
  corrected_text (c ∷ text) (some fixed) = fixed

  unfoldable pub correct_from :
      List Str → List Str → List Str → List (Option Str) → ℕ → List Str → List Str
  unfolding context_at field_values
  correct_from template delimiters known clean i [] = []
  correct_from template delimiters known clean i (text ∷ texts) =
      corrected_text text (
        reparse t text template delimiters known (context_at clean i)
          (field_values known (length template) 0))
      ∷ correct_from template delimiters known clean (i + 1) texts

  -- `canonicalize_texts`; no example is the empty text.
  unfoldable pub canonicalize_texts : List Str → List Str → Str → List Str
  unfolding unify_lookalike_heads clean_form correct_from
  canonicalize_texts texts delimiters example =
      let unified = unify_lookalike_heads (tokenize t example delimiters) delimiters texts in
      elim (label_template t (keep (λ (s : Str). ltb 0 (length s)) unified) delimiters) [
        | none ↦ unified
        | some template ↦
            let clean = map (clean_form template delimiters) unified in
            correct_from template delimiters (distinct (somes clean)) clean 0 unified
      ]
