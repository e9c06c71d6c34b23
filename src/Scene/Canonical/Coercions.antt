-- ===== src/Scene/Canonical/Coercions.antt =====
-- apps/server/domain/video_captions/scene_split.py, `_coerce_lookalikes`: what a correction by characters
-- that look alike may change.
use yeson_meet.Prelude.{
  drop, text_eq, ℕ, Bool, List, Option-cases, Bool-cases, [], ◌∷◌, ◌++◌, ◌≡◌, arith, none, some,
  suc, zero, length, length-append, nat_eq, inl, inr, sym, subst, ◌⊎◌, map,
}
use yeson_meet.Prelude.Text.{Str, CharTable}
use yeson_meet.Scene.Canonical.{cls, shape_runs, lookalike}
use yeson_meet.Scene.Canonical.Corrections.{glue, same_kind, spelled, kinds_of}
use yeson_meet.Scene.Canonical.Reparse.{
  coerce_char, Piece, coerce_run, coerce_pieces, coerce_runs, piece_text,
}

length-same_kind : (kind n : ℕ) → length (same_kind kind n) ≡ n
length-same_kind kind zero = omega arith
length-same_kind kind (suc n) = omega (arith, length-same_kind kind n)

module _ (t : CharTable) where
  -- The character has the kind and is the same, or it is one of the kind that looks like it.
  abbrev pub IsAlike : ℕ → ℕ → ℕ → Type 0
  IsAlike kind c d = ((cls t c ≡ kind) × (d ≡ c)) ⊎ (lookalike kind c ≡ some d)

  -- The text is alike, character by character and with these kinds, to the one in front of the rest.
  abbrev pub AreAlike : Str → Str → Str → Str → Type 0
  AreAlike [] s [] rest = s ≡ rest
  AreAlike (k ∷ ks) (c ∷ s) (d ∷ u) rest = IsAlike k c d × AreAlike ks s u rest
  AreAlike _ _ _ _ = ⊥

  AreAlike-append :
      (ks ls s u v e r : Str)
      → AreAlike ks s u e
      → AreAlike ls e v r
      → AreAlike (ks ++ ls) s (u ++ v) r
  AreAlike-append [] ls s [] v e r h k = subst (λ w. AreAlike ls w v r) (sym h) k
  AreAlike-append [] ls s (d ∷ u) v e r h k = absurd h
  AreAlike-append (x ∷ ks) ls [] [] v e r h k = absurd h
  AreAlike-append (x ∷ ks) ls [] (d ∷ u) v e r h k = absurd h
  AreAlike-append (x ∷ ks) ls (c ∷ s) [] v e r h k = absurd h
  AreAlike-append (x ∷ ks) ls (c ∷ s) (d ∷ u) v e r h k =
      (h.0, AreAlike-append ks ls s u v e r h.1 k)

  coerce_char-IsAlike :
      (kind c d : ℕ) (b : Bool) → coerce_char t kind c ≡ some (d, b) → IsAlike kind c d
  unfolding coerce_char
  coerce_char-IsAlike kind c d b h = elim (Bool-cases (nat_eq (cls t c) kind)) [
    | inl same ↦ inl (ground arith)
    | inr other ↦ elim (Option-cases (lookalike kind c)) [
      | inl nothing ↦ ground arith
      | inr (e, found) ↦ inr (ground arith)
    ]
  ]

  coerce_run-AreAlike :
      (kind n : ℕ) (s : Str) (p : Piece)
      → coerce_run t kind n s ≡ some p
      → AreAlike (same_kind kind n) s p.text p.rest × (length p.text ≡ n)
  unfolding coerce_run
  coerce_run-AreAlike kind zero s p h = ground arith
  coerce_run-AreAlike kind (suc n) [] p h = ground arith
  coerce_run-AreAlike kind (suc n) (c ∷ s) p h = elim (Option-cases (coerce_char t kind c)) [
    | inl nothing ↦ ground arith
    | inr ((d, b), turned) ↦ elim (Option-cases (coerce_run t kind n s)) [
      | inl nothing ↦ ground arith
      | inr (q, found) ↦
          let alike = coerce_char-IsAlike kind c d b turned in
          let later = coerce_run-AreAlike kind n s q found in
          ground (arith, alike, later.0, later.1)
    ]
  ]

  pub coerce_runs-AreAlike :
      (runs : List (ℕ × ℕ)) (s : Str) (p : Piece)
      → coerce_runs t runs s ≡ some p
      → AreAlike (spelled runs) s p.text p.rest × (length p.text ≡ length (spelled runs))
  unfolding coerce_runs
  coerce_runs-AreAlike [] s p h = ground arith
  coerce_runs-AreAlike ((kind, n) ∷ runs) s p h = elim (Option-cases (coerce_run t kind n s)) [
    | inl nothing ↦ ground arith
    | inr (q, found) ↦ elim (Option-cases (coerce_runs t runs q.rest)) [
      | inl nothing ↦ ground arith
      | inr (u, more) ↦
          let first = coerce_run-AreAlike kind n s q found in
          let later = coerce_runs-AreAlike runs q.rest u more in
          let whole =
            AreAlike-append (same_kind kind n) (spelled runs) s q.text u.text q.rest u.rest first.0
              later.0 in
          ground (
            arith,
            whole,
            first.1,
            later.1,
            length-append q.text u.text,
            length-append (same_kind kind n) (spelled runs),
            length-same_kind kind n,
          )
    ]
  ]

  pub coerce_pieces-AreAlike :
      (template : List Str) (s : Str) (ps : List Piece) (r : Str)
      → coerce_pieces t template s ≡ some (ps, r)
      → AreAlike (glue (map kinds_of template)) s (glue (map (piece_text t) ps)) r
        × (map length (map (piece_text t) ps) ≡ map length (map kinds_of template))
  unfolding coerce_pieces
  coerce_pieces-AreAlike [] s ps r h = ground arith
  coerce_pieces-AreAlike (shape ∷ template) s ps r h =
      elim (Option-cases (coerce_runs t (shape_runs none shape) s)) [
        | inl nothing ↦ ground arith
        | inr (q, found) ↦ elim (Option-cases (coerce_pieces t template q.rest)) [
          | inl nothing ↦ ground arith
          | inr ((us, e), more) ↦
              let first = coerce_runs-AreAlike (shape_runs none shape) s q found in
              let later = coerce_pieces-AreAlike template q.rest us e more in
              let whole =
                AreAlike-append (kinds_of shape) (glue (map kinds_of template)) s q.text
                  (glue (map (piece_text t) us)) q.rest e first.0 later.0 in
              ground (arith, whole, first.1, later.1)
        ]
      ]

  pub AreAlike-drop : (ks s u rest : Str) → AreAlike ks s u rest → drop (length u) s ≡ rest
  AreAlike-drop [] s [] rest h = h
  AreAlike-drop [] s (d ∷ u) rest h = absurd h
  AreAlike-drop (k ∷ ks) [] [] rest h = absurd h
  AreAlike-drop (k ∷ ks) [] (d ∷ u) rest h = absurd h
  AreAlike-drop (k ∷ ks) (c ∷ s) [] rest h = absurd h
  AreAlike-drop (k ∷ ks) (c ∷ s) (d ∷ u) rest h = AreAlike-drop ks s u rest h.1
