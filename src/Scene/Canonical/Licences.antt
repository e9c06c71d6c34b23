-- ===== src/Scene/Canonical/Licences.antt =====
-- apps/server/domain/video_captions/scene_split.py, `_coerce_lookalikes`: which fields may get a value
-- that no clean text has.
use yeson_meet.Prelude.{
  drop, ltb, ltb→lt, ◌<◌, ◌&&◌, text_eq, ℕ, List, Option-cases, Bool-cases, [], ◌∷◌, ◌++◌, ◌≡◌,
  arith, none, some, suc, zero, length, nat_eq, inl, inr, sym, subst, ◌⊎◌, any, map, false, true,
}
use yeson_meet.Prelude.Text.{Str, CharTable, join}
use yeson_meet.Scene.Canonical.{cls, shape_runs, lookalike, underscore}
use yeson_meet.Glossary.{is_one_of}
use yeson_meet.Scene.Canonical.Corrections.{glued, glue, kinds_of}
use yeson_meet.Scene.Canonical.Coercions.{
  AreAlike, AreAlike-drop, coerce_runs-AreAlike, coerce_pieces-AreAlike,
}
use yeson_meet.Scene.Canonical.Reparse.{
  is_licensed, values_of, are_licensed, coerce_char, Piece, coerce_run, coerce_lookalikes,
  coerce_pieces, coerce_runs, piece_text,
}

module _ (t : CharTable) where
  coerce_char_same : (kind c d : ℕ) → coerce_char t kind c ≡ some (d, false) → d ≡ c
  unfolding coerce_char
  coerce_char_same kind c d h = elim (Bool-cases (nat_eq (cls t c) kind)) [
    | inl same ↦ ground arith
    | inr other ↦ elim (Option-cases (lookalike kind c)) [
      | inl nothing ↦ ground arith
      | inr (e, found) ↦ absurd (ground arith)
    ]
  ]

  coerce_run_same :
      (kind n : ℕ) (s : Str) (p : Piece)
      → coerce_run t kind n s ≡ some p
      → p.changed ≡ false
      → p.text ++ p.rest ≡ s
  unfolding coerce_run
  coerce_run_same kind zero s p h k = ground arith
  coerce_run_same kind (suc n) [] p h k = ground arith
  coerce_run_same kind (suc n) (c ∷ s) p h k = elim (Option-cases (coerce_char t kind c)) [
    | inl nothing ↦ ground arith
    | inr ((d, true), turned) ↦ elim (Option-cases (coerce_run t kind n s)) [
      | inl nothing ↦ ground arith
      | inr (q, found) ↦ absurd (ground arith)
    ]
    | inr ((d, false), turned) ↦ elim (Option-cases (coerce_run t kind n s)) [
      | inl nothing ↦ ground arith
      | inr (q, found) ↦
          ground (arith, coerce_char_same kind c d turned, coerce_run_same kind n s q found)
    ]
  ]

  coerce_runs_same :
      (runs : List (ℕ × ℕ)) (s : Str) (p : Piece)
      → coerce_runs t runs s ≡ some p
      → p.changed ≡ false
      → p.text ++ p.rest ≡ s
  unfolding coerce_runs
  coerce_runs_same [] s p h k = ground arith
  coerce_runs_same ((kind, n) ∷ runs) s p h k = elim (Option-cases (coerce_run t kind n s)) [
    | inl nothing ↦ ground arith
    | inr (q, found) ↦ elim (Option-cases (coerce_runs t runs q.rest)) [
      | inl nothing ↦ ground arith
      | inr (u, more) ↦
          let first : q.text ++ q.rest ≡ s = coerce_run_same kind n s q found (ground arith) in
          let later : u.text ++ u.rest ≡ q.rest =
            coerce_runs_same runs q.rest u more (ground arith) in
          ground (arith, glued q.text u.text u.rest s q.rest first later)
    ]
  ]

  -- The values of the first field.
  abbrev pub first_of : List (List Str) → List Str
  first_of [] = []
  first_of (values ∷ fields) = values

  -- Each piece stands in the text as it is, or its field has several values, or it is one of them.
  abbrev pub AreLicensed : List Str → Str → List (List Str) → Type 0
  AreLicensed [] s fields = Unit
  AreLicensed (p ∷ ps) s fields =
      ((p ++ drop (length p) s ≡ s)
        ⊎ ((1 < length (first_of fields)) ⊎ (is_one_of p (first_of fields) ≡ true)))
      × AreLicensed ps (drop (length p) s) (drop 1 fields)

  licence :
      (q : Piece) (s : Str) (fields : List (List Str))
      → is_licensed t q (values_of t fields) ≡ true
      → (q.changed ≡ true) ⊎ (q.text ++ drop (length q.text) s ≡ s)
      → (q.text ++ drop (length q.text) s ≡ s)
        ⊎ ((1 < length (first_of fields)) ⊎ (is_one_of q.text (first_of fields) ≡ true))
  unfolding is_licensed
  licence q s fields h (inr same) = inl same
  licence q s [] h (inl turned) = inr (inr (ground arith))
  licence q s (values ∷ fields) h (inl turned) = elim (Bool-cases (ltb 1 (length values))) [
    | inl several ↦ inr (inl (ltb→lt 1 (length values) several))
    | inr one ↦ inr (inr (ground arith))
  ]

  coerce_pieces-AreLicensed :
      (template : List Str) (s : Str) (ps : List Piece) (r : Str) (fields : List (List Str))
      → coerce_pieces t template s ≡ some (ps, r)
      → are_licensed t ps fields ≡ true
      → AreLicensed (map (piece_text t) ps) s fields
  unfolding coerce_pieces are_licensed
  coerce_pieces-AreLicensed [] s ps r fields h k =
      let none_left : ps ≡ [] = ground arith in rw none_left tt
  coerce_pieces-AreLicensed (shape ∷ template) s ps r fields h k =
      elim (Option-cases (coerce_runs t (shape_runs none shape) s)) [
        | inl nothing ↦ absurd (ground arith)
        | inr (q, found) ↦ elim (Option-cases (coerce_pieces t template q.rest)) [
          | inl nothing ↦ absurd (ground arith)
          | inr ((us, e), more) ↦
              let same : ps ≡ q ∷ us = ground arith in
              let both : is_licensed t q (values_of t fields) && are_licensed t us (drop 1 fields)
                  ≡ true =
                subst (λ l. are_licensed t l fields ≡ true) same k in
              let alike = coerce_runs-AreAlike t (shape_runs none shape) s q found in
              let behind = AreAlike-drop t (kinds_of shape) s q.text q.rest alike.0 in
              let stays : (q.changed ≡ true) ⊎ (q.text ++ drop (length q.text) s ≡ s) =
                elim (Bool-cases q.changed) [
                  | inl turned ↦ inl turned
                  | inr kept ↦ inr (
                      subst (λ u. q.text ++ u ≡ s) (sym behind)
                        (coerce_runs_same (shape_runs none shape) s q found kept))
                ] in
              let later =
                coerce_pieces-AreLicensed template q.rest us e (drop 1 fields) more
                  (ground (arith, both)) in
              rw same (
                licence q s fields (ground (arith, both)) stays,
                subst (λ u. AreLicensed (map (piece_text t) us) u (drop 1 fields)) (sym behind)
                    later,
              )
        ]
      ]

  -- The whole text cut anew in pieces of the template's lengths; each character has the kind that the
  -- template says, or is replaced by one of the kind that looks like it; and no new value is made for a
  -- field that has one value or none.
  abbrev pub IsCoerced : List Str → List (List Str) → Str → Str → Type 0
  IsCoerced template fields flat r =
      (ps : List Str) × (r ≡ join underscore ps)
      × AreAlike t (glue (map kinds_of template)) flat (glue ps) []
      × (map length ps ≡ map length (map kinds_of template))
      × AreLicensed ps flat fields

  pub coerce_lookalikes-IsCoerced :
      (flat : Str) (template : List Str) (pos_values : List (List Str)) (r : Str)
      → coerce_lookalikes t flat template pos_values ≡ some r
      → IsCoerced template pos_values flat r
  unfolding coerce_lookalikes
  coerce_lookalikes-IsCoerced flat template pos_values r h =
      elim (Option-cases (coerce_pieces t template flat)) [
        | inl nothing ↦ ground arith
        | inr ((ps, c ∷ end), found) ↦ ground arith
        | inr ((ps, []), found) ↦
            let alike = coerce_pieces-AreAlike t template flat ps [] found in
            elim (Bool-cases (any (λ (p : Piece). p.changed) ps && are_licensed t ps pos_values)) [
              | inr refused ↦ ground arith
              | inl licensed ↦ (
                map (piece_text t) ps,
                ground arith,
                alike.0,
                alike.1,
                coerce_pieces-AreLicensed template flat ps [] pos_values found (ground arith),
              )
            ]
      ]
