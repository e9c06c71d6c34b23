-- ===== src/Refine/Apply.antt =====
-- What is written back: segments that are contiguous before are contiguous after, whatever the OCR
-- reads, and every boundary that moved moved to a change of the slate.
use yeson_meet.Prelude.{
  ℕ, List, Option, [], ap, arith, map, none, refl, some, suc, zero, ◌∙◌, ◌∷◌, ◌≡◌, Option-cases,
  inl, inr, min, ◌+◌, ◌≤◌, get_elem?, subst,
}
use yeson_meet.Prelude.Text.{Str, CharTable}
use yeson_meet.Scene.Tokens.{label_matches}
use yeson_meet.Scene.Boundaries.{Segment}
use yeson_meet.Scene.Boundaries.Tiling.{Tiles}
use yeson_meet.Refine.{
  move_boundary, apply_results, targets, solve, refine, Window, at_target, search_window, window,
}
use yeson_meet.Refine.Search.{IsChange, search_window-IsChange}

-- Each segment begins where the one before ends.
abbrev pub Adjoins : List Segment → Type 0
Adjoins [] = Unit
Adjoins (s ∷ []) = Unit
Adjoins (s ∷ r ∷ ss) = (s.end_ms ≡ r.start_ms) × Adjoins (r ∷ ss)

-- What refinement leaves alone: the labels in their order, and the end of the last segment.
abbrev pub labels : List Segment → List Str
labels [] = []
labels (s ∷ ss) = s.label ∷ labels ss

abbrev pub last_end : List Segment → Option ℕ
last_end [] = none
last_end (s ∷ []) = some s.end_ms
last_end (s ∷ r ∷ ss) = last_end (r ∷ ss)

abbrev pub KeepsShape : List Segment → List Segment → Type 0
KeepsShape before after = (labels after ≡ labels before) × (last_end after ≡ last_end before)

-- The head's start counts for what stands before it.
abbrev JoinsTo : ℕ → List Segment → Type 0
JoinsTo e [] = Unit
JoinsTo e (s ∷ ss) = e ≡ s.start_ms

Adjoins-cons :
    (p : Segment) (ss : List Segment) → JoinsTo p.end_ms ss → Adjoins ss → Adjoins (p ∷ ss)
Adjoins-cons p [] j a = tt
Adjoins-cons p (s ∷ ss) j a = (j, a)

-- A move at an inner boundary keeps the start of the list.
move_boundary-start :
    (e i x : ℕ) (ss : List Segment) → JoinsTo e ss → JoinsTo e (move_boundary (suc i) x ss)
unfolding move_boundary
move_boundary-start e i x [] j = tt
move_boundary-start e i x (p ∷ []) j = j
move_boundary-start e zero x (p ∷ s ∷ ss) j = j
move_boundary-start e (suc i) x (p ∷ s ∷ ss) j = j

move_boundary-Adjoins : (i x : ℕ) (ss : List Segment) → Adjoins ss → Adjoins (move_boundary i x ss)
unfolding move_boundary
move_boundary-Adjoins zero x [] a = tt
move_boundary-Adjoins (suc i) x [] a = tt
move_boundary-Adjoins zero x (s ∷ []) a = tt
move_boundary-Adjoins zero x (s ∷ r ∷ ss) a = a
move_boundary-Adjoins (suc i) x (p ∷ []) a = tt
move_boundary-Adjoins (suc zero) x (p ∷ s ∷ []) a = (refl, tt)
move_boundary-Adjoins (suc zero) x (p ∷ s ∷ r ∷ ss) a = (refl, a.1)
move_boundary-Adjoins (suc (suc i)) x (p ∷ s ∷ ss) a =
    Adjoins-cons p (move_boundary (suc i) x (s ∷ ss))
      (move_boundary-start p.end_ms i x (s ∷ ss) a.0) (move_boundary-Adjoins (suc i) x (s ∷ ss) a.1)

last_end-cons :
    (p : Segment) (ss rs : List Segment)
    → last_end ss ≡ last_end rs
    → labels ss ≡ labels rs
    → last_end (p ∷ ss) ≡ last_end (p ∷ rs)
last_end-cons p [] [] e l = refl
last_end-cons p [] (r ∷ rs) e l = absurd (ground arith)
last_end-cons p (s ∷ ss) [] e l = absurd (ground arith)
last_end-cons p (s ∷ ss) (r ∷ rs) e l = e

move_boundary-KeepsShape : (i x : ℕ) (ss : List Segment) → KeepsShape ss (move_boundary i x ss)
unfolding move_boundary
move_boundary-KeepsShape zero x [] = (refl, refl)
move_boundary-KeepsShape (suc i) x [] = (refl, refl)
move_boundary-KeepsShape zero x (s ∷ []) = (refl, refl)
move_boundary-KeepsShape zero x (s ∷ r ∷ ss) = (refl, refl)
move_boundary-KeepsShape (suc i) x (p ∷ []) = (refl, refl)
move_boundary-KeepsShape (suc zero) x (p ∷ s ∷ []) = (refl, refl)
move_boundary-KeepsShape (suc zero) x (p ∷ s ∷ r ∷ ss) = (refl, refl)
move_boundary-KeepsShape (suc (suc i)) x (p ∷ s ∷ ss) =
    let ih = move_boundary-KeepsShape (suc i) x (s ∷ ss) in
    (
      ap (λ ls. p.label ∷ ls) ih.0,
      last_end-cons p (move_boundary (suc i) x (s ∷ ss)) (s ∷ ss) ih.1 ih.0,
    )

apply_results-keeps :
    (rs : List (Option (ℕ × ℕ))) (ss : List Segment)
    → Adjoins ss
    → Adjoins (apply_results rs ss) × KeepsShape ss (apply_results rs ss)
unfolding apply_results
apply_results-keeps [] ss a = (a, (refl, refl))
apply_results-keeps (none ∷ rs) ss a = apply_results-keeps rs ss a
apply_results-keeps (some (i, x) ∷ rs) ss a =
    let moved = move_boundary-KeepsShape i x ss in
    let (a', (l, e)) =
      apply_results-keeps rs (move_boundary i x ss) (move_boundary-Adjoins i x ss a) in
    (a', (l ∙ moved.0, e ∙ moved.1))

-- The segment in front of boundary `i`, if there is one, its start and its label.
abbrev pub in_front : ℕ → List Segment → Option Segment
in_front zero ss = none
in_front (suc i) ss = get_elem? ss i

abbrev pub start_of : Option Segment → ℕ
start_of none = 0
start_of (some p) = p.start_ms

abbrev pub label_of : Option Segment → Str
label_of none = []
label_of (some p) = p.label

-- The window of boundary `i` is that of its segment and of the one in front of it.
abbrev IsWindow : ℕ → List Segment → Window → Type 0
IsWindow i ss w =
    (s : Segment) × ((get_elem? ss i ≡ some s)
      × (w ≡ record {
        b = s.start_ms;
        floor = start_of (in_front i ss);
        ceil_ms = s.end_ms;
        label = s.label;
        other = label_of (in_front i ss);
      }))

window-IsWindow : (i : ℕ) (ss : List Segment) (w : Window) → window i ss ≡ some w → IsWindow i ss w
unfolding window
window-IsWindow i [] w h = absurd (ground arith)
window-IsWindow zero (s ∷ ss) w h = (s, (refl, ground arith))
window-IsWindow (suc i) (p ∷ []) w h = absurd (ground arith)
window-IsWindow (suc zero) (p ∷ s ∷ ss) w h = (s, (refl, ground arith))
window-IsWindow (suc (suc i)) (p ∷ s ∷ ss) w h = window-IsWindow (suc i) (s ∷ ss) w h

-- A window of contiguous segments lies around its boundary.
window_bounds :
    (i a e : ℕ) (ss : List Segment) (w : Window)
    → Tiles a e ss
    → window i ss ≡ some w
    → (w.floor ≤ w.b) × (w.b ≤ w.ceil_ms)
unfolding window
window_bounds i a e [] w tiles h = absurd (ground arith)
window_bounds zero a e (s ∷ ss) w tiles h = ground arith
window_bounds (suc i) a e (p ∷ []) w tiles h = absurd (ground arith)
window_bounds (suc zero) a e (p ∷ s ∷ ss) w tiles h = ground arith
window_bounds (suc (suc i)) a e (p ∷ s ∷ ss) w tiles h =
    window_bounds (suc i) p.end_ms e (s ∷ ss) w tiles.2 h

module _ (t : CharTable) (delimiters : List Str) (label_at : ℕ → Str) (interval : ℕ) where
  -- Refinement keeps contiguous segments contiguous, with the same labels in the same order and the
  -- same end of the last one, whatever texts the OCR reads.
  pub refine-Adjoins :
      (segments : List Segment)
      → Adjoins segments
      → let refined = refine t delimiters label_at interval segments in
        Adjoins refined
        × (labels refined ≡ labels segments)
        × (last_end refined ≡ last_end segments)
  unfolding refine
  refine-Adjoins segments a =
      let (a', (l, e)) =
        apply_results-keeps (map (solve t delimiters label_at interval segments) (targets segments))
          segments a in
      (a', l, e)

  -- The OCR reads the label of segment `i` at `x`, and not at some time in the 20 ms before, which is
  -- not before the start of the segment in front (of the video, for the first). And `x` is neither
  -- behind the end of the segment nor more than an interval behind its old start.
  abbrev pub IsMove : List Segment → ℕ → ℕ → Type 0
  IsMove segments i x =
      (s : Segment) × ((get_elem? segments i ≡ some s)
        × (x ≤ s.end_ms)
        × (x ≤ s.start_ms + interval)
        × IsChange
            (λ t_ms.
              label_matches t (label_at t_ms) s.label (label_of (in_front i segments)) delimiters)
            (start_of (in_front i segments)) x)

  window-IsMove :
      (segments : List Segment) (i x : ℕ) (w : Window)
      → IsWindow i segments w
      → x ≤ min w.ceil_ms (w.b + interval)
      → IsChange (at_target t delimiters label_at interval w) w.floor x
      → IsMove segments i x
  unfolding at_target
  window-IsMove segments i x w (s, (found, shape)) le change =
      let v : Window = record {
        b = s.start_ms;
        floor = start_of (in_front i segments);
        ceil_ms = s.end_ms;
        label = s.label;
        other = label_of (in_front i segments);
      } in
      let le' = subst (λ u. x ≤ min u.ceil_ms (u.b + interval)) shape le in
      let change' =
        subst (λ u. IsChange (at_target t delimiters label_at interval u) u.floor x) shape change in
      (s, (found, omega (arith, le'), omega (arith, le'), change'))

  -- A boundary of contiguous segments that is to move goes to a change of the slate: the OCR reads the
  -- label of its segment at the new start, and does not at some time in the 20 ms before it. The new
  -- start lies between the start of the segment before and the end of its own, and at most one
  -- interval after the old one.
  pub solve-IsChange :
      (segments : List Segment) (i j x a e : ℕ)
      → Tiles a e segments
      → solve t delimiters label_at interval segments i ≡ some (j, x)
      → (j ≡ i) × IsMove segments i x
  unfolding solve
  solve-IsChange segments i j x a e tiles h = elim (Option-cases (window i segments)) [
    | inl miss ↦ absurd (ground arith)
    | inr (w, found) ↦
        let test = at_target t delimiters label_at interval w in
        elim (Option-cases (search_window test interval w)) [
          | inl miss ↦ absurd (ground arith)
          | inr (y, hit) ↦
              let bounds = window_bounds i a e segments w tiles found in
              let same : y ≡ x = ground arith in
              let change = search_window-IsChange test interval w y bounds.0 bounds.1 hit in
              (
                ground arith,
                window-IsMove segments i x w (window-IsWindow i segments w found)
                    (rw (← same) change.0) (rw (← same) change.1),
              )
        ]
  ]
