-- ===== src/Scene/Canonical.antt =====
-- apps/server/domain/video_captions/scene_split.py: the correction of misread slates by the shape that
-- most of them have.
pub mod Reparse
pub mod Whole
pub mod Corrections
pub mod Coercions
pub mod Licences
pub mod Sole
pub mod Careful
pub mod Kept
use yeson_meet.Prelude.{
  ℕ, ℕ_eq, text_eq, Bool, List, Option, Keyable, [], false, get_elem?, if◌then◌else◌, keep, leb,
  length, ltb, map, nat_eq, none, not, some, suc, true, zero, ◌&&◌, ◌*◌, ◌++◌, ◌+◌, ◌-◌, ◌∷◌,
}
use yeson_meet.Prelude.Dict.{Dict, get, put}
use yeson_meet.Prelude.Text.{Str, CharTable, codes, decimal, join, join_words}
use yeson_meet.Glossary.{is_one_of}
use yeson_meet.Scene.Tokens.{tokenize}

-- `_mode_of`: the first of the most frequent values.
unfoldable pub counted {ℓ} : {K : Type ℓ} ⦃e : Keyable K⦄ → Dict K ℕ → List K → Dict K ℕ
counted d [] = d
counted d (v ∷ vs) = counted (put v (elim (get v d) [ none ↦ 1 | some n ↦ n + 1 ]) d) vs

unfoldable pub most {ℓ} : {K : Type ℓ} → Option K → ℕ → Dict K ℕ → Option K
most best best_n [] = best
most best best_n ((k, n) ∷ d) = if ltb best_n n then most (some k) n d else most best best_n d

unfoldable pub mode_of {ℓ} : {K : Type ℓ} ⦃e : Keyable K⦄ → List K → Option K
unfolding counted most
mode_of values = most none 0 (counted [] values)

-- The runs of a shape, such as U1 and L2 of `U1L2`, with the run that is being read.
abbrev pub shape_run : Option (ℕ × ℕ) → List (ℕ × ℕ)
shape_run none = []
shape_run (some r) = r ∷ []

unfoldable pub shape_runs : Option (ℕ × ℕ) → Str → List (ℕ × ℕ)
shape_runs run [] = shape_run run
shape_runs run (c ∷ s) =
    if leb 48 c && leb c 57
    then shape_runs (elim run [ none ↦ none | some (k, n) ↦ some (k, n * 10 + (c - 48)) ]) s
    else shape_run run ++ shape_runs (some (c, 0)) s

-- `_TO_DIGIT` and `_TO_UPPER`
abbrev pub to_digit : Dict ℕ ℕ
to_digit =
    (b'O', b'0')
    ∷ (b'o', b'0')
    ∷ (b'I', b'1')
    ∷ (b'l', b'1')
    ∷ (b'Z', b'2')
    ∷ (b'S', b'5')
    ∷ (b'G', b'6')
    ∷ (b'B', b'8')
    ∷ []

abbrev pub to_upper : Dict ℕ ℕ
to_upper =
    (b'0', b'O') ∷ (b'1', b'I') ∷ (b'2', b'Z') ∷ (b'5', b'S') ∷ (b'6', b'G') ∷ (b'8', b'B') ∷ []

-- What a character is replaced by to be of a kind.
unfoldable pub lookalike : ℕ → ℕ → Option ℕ
lookalike kind c =
    if nat_eq kind b'D' then get c to_digit else if nat_eq kind b'U' then get c to_upper else none

abbrev pub underscore : Str
underscore = codes "_"

-- Each value once.
unfoldable pub distinct : List Str → List Str
unfolding is_one_of
distinct [] = []
distinct (x ∷ xs) = if is_one_of x xs then distinct xs else x ∷ distinct xs

-- The text without one of its characters, in all ways.
unfoldable pub deletions : Str → List Str
deletions [] = []
deletions (c ∷ s) = s ∷ map (λ r. c ∷ r) (deletions s)

unfoldable pub somes {ℓ} : {A : Type ℓ} → List (Option A) → List A
somes [] = []
somes (none ∷ os) = somes os
somes (some x ∷ os) = x ∷ somes os

abbrev pub only : List Str → Option Str
only [] = none
only (x ∷ []) = some x
only (x ∷ y ∷ xs) = none

module _ (t : CharTable) where
  -- `_cls`: the kind of a character, as its letter.
  unfoldable pub cls : ℕ → ℕ
  cls c =
      if t.is_digit c
      then b'D'
      else if t.is_upper c
      then b'U'
      else if t.is_lower c
      then b'L'
      else b'X'

  unfoldable pub shape_from : ℕ → ℕ → Str → Str
  unfolding cls decimal
  shape_from kind n [] = kind ∷ decimal n
  shape_from kind n (c ∷ s) =
      if nat_eq (cls c) kind
      then shape_from kind (n + 1) s
      else (kind ∷ decimal n) ++ shape_from (cls c) 1 s

  unfoldable pub shape_of : Str → Str
  unfolding shape_from
  shape_of [] = []
  shape_of (c ∷ s) = shape_from (cls c) 1 s

  unfoldable pub token_shape : Str → Str
  unfolding shape_of
  token_shape token = shape_of (join_words t token)

  -- The most frequent shape at each of so many positions, from one on.
  unfoldable pub shapes_from : List (List Str) → ℕ → ℕ → Option (List Str)
  unfolding token_shape mode_of
  shapes_from rows zero i = some []
  shapes_from rows (suc n) i =
      elim (mode_of (map token_shape (somes (map (λ (r : List Str). get_elem? r i) rows)))) [
        | none ↦ none
        | some shape ↦ elim shape [
          | [] ↦ none
          | c ∷ s ↦ elim (shapes_from rows n (i + 1)) [
            | none ↦ none
            | some shapes ↦ some ((c ∷ s) ∷ shapes)
          ]
        ]
      ]

  unfoldable pub label_template : List Str → List Str → Option (List Str)
  unfolding shapes_from
  label_template texts delimiters =
      let rows =
        keep (λ (r : List Str). ltb 0 (length r)) (map (λ s. tokenize t s delimiters) texts) in
      elim (mode_of (map (λ (r : List Str). length r) rows)) [
        | none ↦ none
        | some n ↦ shapes_from (keep (λ (r : List Str). nat_eq (length r) n) rows) n 0
      ]

  -- So many characters of a kind, and the rest.
  unfoldable pub fill_run : ℕ → ℕ → Str → Option (Str × Str)
  unfolding cls
  fill_run kind zero s = some ([], s)
  fill_run kind (suc n) [] = none
  fill_run kind (suc n) (c ∷ s) = elim (nat_eq (cls c) kind) [
    | false ↦ none
    | true ↦ elim (fill_run kind n s) [ none ↦ none | some (piece, rest) ↦ some (c ∷ piece, rest) ]
  ]

  unfoldable pub fill_runs : List (ℕ × ℕ) → Str → Option (Str × Str)
  unfolding fill_run
  fill_runs [] s = some ([], s)
  fill_runs ((kind, n) ∷ runs) s = elim (fill_run kind n s) [
    | none ↦ none
    | some (piece, rest) ↦ elim (fill_runs runs rest) [
      | none ↦ none
      | some (pieces, end) ↦ some (piece ++ pieces, end)
    ]
  ]

  -- The pieces of the template, and the rest.
  unfoldable pub fill_pieces : List Str → Str → Option (List Str × Str)
  unfolding fill_runs shape_runs
  fill_pieces [] s = some ([], s)
  fill_pieces (shape ∷ template) s = elim (fill_runs (shape_runs none shape) s) [
    | none ↦ none
    | some (piece, rest) ↦ elim (fill_pieces template rest) [
      | none ↦ none
      | some (pieces, end) ↦ some (piece ∷ pieces, end)
    ]
  ]

  -- No digit is left over.
  abbrev pub is_no_number : Str → Bool
  is_no_number [] = true
  is_no_number (c ∷ s) = not (nat_eq (cls c) b'D')

  unfoldable pub fill_template : Str → List Str → Option Str
  unfolding fill_pieces
  fill_template flat template = elim (fill_pieces template flat) [
    | none ↦ none
    | some (pieces, end) ↦ if is_no_number end then some (join underscore pieces) else none
  ]
