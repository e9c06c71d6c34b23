-- ===== src/Scene/Canonical/Corrections.antt =====
-- apps/server/domain/video_captions/scene_split.py: what a correction of one slate may change.
use yeson_meet.Prelude.{
  ap₂, ℕ, List, Option-cases, Bool-cases, [], ◌∷◌, ◌++◌, ◌≡◌, arith, refl, none, some, suc, zero,
  nat_eq, inl, inr, ap, subst, map, true,
}
use yeson_meet.Prelude.Text.{Str, CharTable, join}
use yeson_meet.Scene.Canonical.{
  cls, fill_run, fill_runs, fill_pieces, shape_runs, fill_template, is_no_number, underscore,
}

abbrev pub glue : List Str → Str
glue [] = []
glue (p ∷ ps) = p ++ glue ps

pub glued : (p q r s e : Str) → p ++ e ≡ s → q ++ r ≡ e → (p ++ q) ++ r ≡ s
glued [] q r s e h k = subst (λ w. q ++ r ≡ w) h k
glued (c ∷ p) q r s e h k =
    subst (λ w. (c ∷ ((p ++ q) ++ r)) ≡ w) h (ap (λ u. c ∷ u) (glued p q r (p ++ e) e refl k))

-- So many characters of a kind, and the kinds of the characters of a shape: `ULL` for `U1L2`.
abbrev pub same_kind : ℕ → ℕ → Str
same_kind kind zero = []
same_kind kind (suc n) = kind ∷ same_kind kind n

abbrev pub spelled : List (ℕ × ℕ) → Str
spelled [] = []
spelled ((kind, n) ∷ runs) = same_kind kind n ++ spelled runs

abbrev pub kinds_of : Str → Str
kinds_of shape = spelled (shape_runs none shape)

map-append : (f : ℕ → ℕ) (xs ys : Str) → map f (xs ++ ys) ≡ map f xs ++ map f ys
map-append f [] ys = refl
map-append f (x ∷ xs) ys = ap (λ u. f x ∷ u) (map-append f xs ys)

module _ (t : CharTable) where
  fill_run-kinds :
      (kind n : ℕ) (s p r : Str)
      → fill_run t kind n s ≡ some (p, r)
      → map (cls t) p ≡ same_kind kind n
  unfolding fill_run
  fill_run-kinds kind zero s p r h = ground arith
  fill_run-kinds kind (suc n) [] p r h = ground arith
  fill_run-kinds kind (suc n) (c ∷ s) p r h = elim (Bool-cases (nat_eq (cls t c) kind)) [
    | inr other ↦ ground arith
    | inl same ↦ elim (Option-cases (fill_run t kind n s)) [
      | inl nothing ↦ ground arith
      | inr ((q, e), found) ↦ ground (arith, fill_run-kinds kind n s q e found)
    ]
  ]

  fill_runs-kinds :
      (runs : List (ℕ × ℕ)) (s p r : Str)
      → fill_runs t runs s ≡ some (p, r)
      → map (cls t) p ≡ spelled runs
  unfolding fill_runs
  fill_runs-kinds [] s p r h = ground arith
  fill_runs-kinds ((kind, n) ∷ runs) s p r h = elim (Option-cases (fill_run t kind n s)) [
    | inl nothing ↦ ground arith
    | inr ((q, e), found) ↦ elim (Option-cases (fill_runs t runs e)) [
      | inl nothing ↦ ground arith
      | inr ((u, e'), more) ↦ ground (
        arith,
        map-append (cls t) q u,
        fill_run-kinds kind n s q e found,
        fill_runs-kinds runs e u e' more,
      )
    ]
  ]

  fill_run-keeps : (kind n : ℕ) (s p r : Str) → fill_run t kind n s ≡ some (p, r) → p ++ r ≡ s
  unfolding fill_run
  fill_run-keeps kind zero s p r h = ground arith
  fill_run-keeps kind (suc n) [] p r h = ground arith
  fill_run-keeps kind (suc n) (c ∷ s) p r h = elim (Bool-cases (nat_eq (cls t c) kind)) [
    | inr other ↦ ground arith
    | inl same ↦ elim (Option-cases (fill_run t kind n s)) [
      | inl nothing ↦ ground arith
      | inr ((q, e), found) ↦ ground (arith, fill_run-keeps kind n s q e found)
    ]
  ]

  fill_runs-keeps :
      (runs : List (ℕ × ℕ)) (s p r : Str) → fill_runs t runs s ≡ some (p, r) → p ++ r ≡ s
  unfolding fill_runs
  fill_runs-keeps [] s p r h = ground arith
  fill_runs-keeps ((kind, n) ∷ runs) s p r h = elim (Option-cases (fill_run t kind n s)) [
    | inl nothing ↦ ground arith
    | inr ((q, e), found) ↦ elim (Option-cases (fill_runs t runs e)) [
      | inl nothing ↦ ground arith
      | inr ((u, e'), more) ↦ ground (
        arith,
        glued q u e' s e (fill_run-keeps kind n s q e found) (fill_runs-keeps runs e u e' more),
      )
    ]
  ]

  fill_pieces-keeps :
      (template : List Str) (s : Str) (ps : List Str) (r : Str)
      → fill_pieces t template s ≡ some (ps, r)
      → (glue ps ++ r ≡ s) × (map (map (cls t)) ps ≡ map kinds_of template)
  unfolding fill_pieces
  fill_pieces-keeps [] s ps r h = ground arith
  fill_pieces-keeps (shape ∷ template) s ps r h =
      elim (Option-cases (fill_runs t (shape_runs none shape) s)) [
        | inl nothing ↦ ground arith
        | inr ((q, e), found) ↦ elim (Option-cases (fill_pieces t template e)) [
          | inl nothing ↦ ground arith
          | inr ((us, e'), more) ↦
              let later = fill_pieces-keeps template e us e' more in
              let first = fill_runs-keeps (shape_runs none shape) s q e found in
              let whole = glued q (glue us) e' s e first later.0 in
              let kinds : map (map (cls t)) (q ∷ us) ≡ map kinds_of (shape ∷ template) =
                ap₂ ◌∷◌ (fill_runs-kinds (shape_runs none shape) s q e found) later.1 in
              let same : ps ≡ q ∷ us = ground arith in
              let rest : r ≡ e' = ground arith in rw (same, rest) (whole, kinds)
        ]
      ]

  -- The text cut anew: no character is changed, each piece has the kinds of characters that the template
  -- says, and what is dropped at its end is no number.
  abbrev pub IsRecut : List Str → Str → Str → Type 0
  IsRecut template flat r =
      (ps : List Str) × (end : Str) × (r ≡ join underscore ps)
      × (glue ps ++ end ≡ flat)
      × (map (map (cls t)) ps ≡ map kinds_of template)
      × (is_no_number t end ≡ true)

  pub fill_template-IsRecut :
      (flat : Str) (template : List Str) (r : Str)
      → fill_template t flat template ≡ some r
      → IsRecut template flat r
  unfolding fill_template
  fill_template-IsRecut flat template r h = elim (Option-cases (fill_pieces t template flat)) [
    | inl nothing ↦ ground arith
    | inr ((ps, end), found) ↦ elim (Bool-cases (is_no_number t end)) [
      | inr left_over ↦ ground arith
      | inl done ↦
          let kept = fill_pieces-keeps template flat ps end found in
          (ps, end, ground arith, kept.0, kept.1, done)
    ]
  ]
