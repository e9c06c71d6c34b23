-- ===== src/Scene/Canonical/Reparse.antt =====
-- apps/server/domain/video_captions/scene_split.py: `_coerce_lookalikes` and `_reparse`, the correction of
-- one text.
use yeson_meet.Prelude.{
  ℕ, text_eq, Bool, List, Option, [], any, drop, false, if◌then◌else◌, keep, length, list_beq, ltb,
  map, nat_eq, none, not, some, suc, true, zero, ◌&&◌, ◌++◌, ◌||◌, ◌∷◌,
}
use yeson_meet.Prelude.Text.{Str, CharTable, join, join_words}
use yeson_meet.Glossary.{is_one_of}
use yeson_meet.Scene.Tokens.{tokenize}
use yeson_meet.Scene.Canonical.{
  cls, lookalike, deletions, distinct, fill_template, only, shape_runs, somes, token_shape,
  underscore,
}

-- A piece of the text, whether a character of it was replaced, and the rest of the text.
pub record Piece : Type 0 where
  pub text : Str
  pub changed : Bool
  pub rest : Str

module _ (t : CharTable) where
  -- The character itself or its lookalike of the kind, and whether it is that.
  unfoldable pub coerce_char : ℕ → ℕ → Option (ℕ × Bool)
  coerce_char kind c =
      if nat_eq (cls t c) kind
      then some (c, false)
      else elim (lookalike kind c) [ none ↦ none | some d ↦ some (d, true) ]

  unfoldable pub coerce_run : ℕ → ℕ → Str → Option Piece
  unfolding coerce_char
  coerce_run kind zero s = some (record { text = []; changed = false; rest = s })
  coerce_run kind (suc n) [] = none
  coerce_run kind (suc n) (c ∷ s) = elim (coerce_char kind c) [
    | none ↦ none
    | some (d, hit) ↦ elim (coerce_run kind n s) [
      | none ↦ none
      | some p ↦ some (record { text = d ∷ p.text; changed = hit || p.changed; rest = p.rest })
    ]
  ]

  unfoldable pub coerce_runs : List (ℕ × ℕ) → Str → Option Piece
  unfolding coerce_run
  coerce_runs [] s = some (record { text = []; changed = false; rest = s })
  coerce_runs ((kind, n) ∷ runs) s = elim (coerce_run kind n s) [
    | none ↦ none
    | some p ↦ elim (coerce_runs runs p.rest) [
      | none ↦ none
      | some q ↦
          some (record { text = p.text ++ q.text; changed = p.changed || q.changed; rest = q.rest })
    ]
  ]

  unfoldable pub coerce_pieces : List Str → Str → Option (List Piece × Str)
  unfolding coerce_runs
  coerce_pieces [] s = some ([], s)
  coerce_pieces (shape ∷ template) s = elim (coerce_runs (shape_runs none shape) s) [
    | none ↦ none
    | some p ↦ elim (coerce_pieces template p.rest) [
      | none ↦ none
      | some (ps, end) ↦ some (p ∷ ps, end)
    ]
  ]

  -- A field with at most one value gets no new one. The values are distinct.
  unfoldable pub is_licensed : Piece → List Str → Bool
  is_licensed p values = not p.changed || (ltb 1 (length values) || is_one_of p.text values)

  abbrev pub values_of : List (List Str) → List Str
  values_of [] = []
  values_of (vs ∷ vss) = vs

  unfoldable pub are_licensed : List Piece → List (List Str) → Bool
  unfolding is_licensed
  are_licensed [] pos_values = true
  are_licensed (p ∷ ps) pos_values =
      is_licensed p (values_of pos_values) && are_licensed ps (drop 1 pos_values)

  abbrev pub piece_text : Piece → Str
  piece_text p = p.text

  unfoldable pub coerce_lookalikes : Str → List Str → List (List Str) → Option Str
  unfolding coerce_pieces are_licensed
  coerce_lookalikes flat template pos_values = elim (coerce_pieces template flat) [
    | none ↦ none
    | some (ps, end) ↦ elim end [
      | c ∷ s ↦ none
      | [] ↦
          if any (λ (p : Piece). p.changed) ps && are_licensed ps pos_values
          then some (join underscore (map piece_text ps))
          else none
    ]
  ]

  -- Every token has the shape of the template.
  unfoldable pub is_clean : List Str → List Str → Bool
  is_clean toks template = list_beq (map (token_shape t) toks) template

  abbrev pub flat_of : List Str → Str
  flat_of toks = join [] (map (join_words t) toks)

  -- The clean texts that one deletion leads to.
  abbrev pub matched : Str → List Str → List Str → List Str
  matched flat template known = distinct (
      keep (λ c. is_one_of c known)
        (somes (map (λ s. fill_template t s template) (deletions flat))))

  -- One of them, or the one of them that is in the neighbourhood.
  unfoldable pub decided : List Str → List Str → Option Str
  decided found context = elim (only found) [
    | some m ↦ some m
    | none ↦ only (keep (λ c. is_one_of c context) found)
  ]

  abbrev pub or_else : Option Str → Option Str → Option Str
  or_else none o = o
  or_else (some x) o = some x

  -- `_reparse`
  unfoldable pub reparse :
      Str → List Str → List Str → List Str → List Str → List (List Str) → Option Str
  unfolding coerce_lookalikes is_clean decided
  reparse text template delimiters known context pos_values =
      let toks = tokenize t text delimiters in
      if is_clean toks template
      then none
      else or_else (fill_template t (flat_of toks) template) (
          or_else (coerce_lookalikes (flat_of toks) template pos_values)
            (decided (matched (flat_of toks) template known) context))
