-- ===== src/Refine.antt =====
-- apps/server/domain/video_captions/scene_refine.py: each scene boundary is moved to the frame where
-- the slate changes, by bisection. What the OCR reads at a time is the argument `label_at`.
pub mod Search
pub mod Apply
pub mod Run
use yeson_meet.Prelude.{
  ℕ, Bool, List, Option, [], if◌then◌else◌, leb, length, ltb, map, max, min, none, not, some, suc,
  zero, ◌&&◌, ◌*◌, ◌+◌, ◌-◌, ◌/◌, ◌||◌, ◌∷◌,
}
use yeson_meet.Prelude.Text.{Str, CharTable}
use yeson_meet.Scene.Tokens.{label_matches}
use yeson_meet.Scene.Boundaries.{Segment}

-- The window of one boundary: the boundary, the limits of the search, the label that is to show from
-- the boundary on, and that of the other side.
pub record Window : Type 0 where
  pub b : ℕ
  pub floor : ℕ
  pub ceil_ms : ℕ
  pub label : Str
  pub other : Str

-- The window of boundary `i`; the code asks for no index out of range.
unfoldable pub window : ℕ → List Segment → Option Window
window i [] = none
window zero (s ∷ ss) =
    some (record { b = s.start_ms; floor = 0; ceil_ms = s.end_ms; label = s.label; other = [] })
window (suc i) (p ∷ []) = none
window (suc zero) (p ∷ s ∷ ss) = some (record {
  b = s.start_ms;
  floor = p.start_ms;
  ceil_ms = s.end_ms;
  label = s.label;
  other = p.label;
})
window (suc (suc i)) (p ∷ s ∷ ss) = window (suc i) (s ∷ ss)

-- The loop that moves the left end of the window: eight rounds at most.
unfoldable pub widen : ℕ → (ℕ → Bool) → ℕ → ℕ → ℕ → ℕ
widen zero at_target floor interval lo = lo
widen (suc n) at_target floor interval lo =
    let further = widen n at_target floor interval (max floor (lo - 2 * interval)) in
    if leb lo floor || not (at_target lo) then lo else further

-- `while hi - lo > 20`, on fuel; the result is the last pair of ends.
unfoldable pub bisect : ℕ → (ℕ → Bool) → ℕ → ℕ → ℕ × ℕ
bisect zero at_target lo hi = (lo, hi)
bisect (suc fuel) at_target lo hi =
    let mid = (lo + hi) / 2 in
    let left = bisect fuel at_target lo mid in
    let right = bisect fuel at_target mid hi in
    if ltb (lo + 20) hi then (if at_target mid then left else right) else (lo, hi)

unfoldable pub search_window : (ℕ → Bool) → ℕ → Window → Option ℕ
unfolding widen bisect
search_window at_target interval w =
    let hi = min w.ceil_ms (w.b + interval) in
    let lo = widen 8 at_target w.floor interval (max w.floor (w.b - interval)) in
    if at_target hi && not (at_target lo) then some (bisect (hi - lo) at_target lo hi).1 else none

-- `start_ms` of segment `i` is written, and `end_ms` of the one before it.
unfoldable pub move_boundary : ℕ → ℕ → List Segment → List Segment
move_boundary i x [] = []
move_boundary zero x (s ∷ ss) = record s { start_ms = x } ∷ ss
move_boundary (suc i) x (p ∷ []) = p ∷ []
move_boundary (suc zero) x (p ∷ s ∷ ss) = record p { end_ms = x } ∷ record s { start_ms = x } ∷ ss
move_boundary (suc (suc i)) x (p ∷ s ∷ ss) = p ∷ move_boundary (suc i) x (s ∷ ss)

-- The results are applied in order, when all have been computed.
unfoldable pub apply_results : List (Option (ℕ × ℕ)) → List Segment → List Segment
unfolding move_boundary
apply_results [] segments = segments
apply_results (none ∷ rs) segments = apply_results rs segments
apply_results (some (i, x) ∷ rs) segments = apply_results rs (move_boundary i x segments)

-- `range(lo, lo + n)`
unfoldable pub range : ℕ → ℕ → List ℕ
range lo zero = []
range lo (suc n) = lo ∷ range (suc lo) n

unfoldable pub targets : List Segment → List ℕ
unfolding range
targets [] = []
targets (s ∷ ss) = if ltb 0 s.start_ms then 0 ∷ range 1 (length ss) else range 1 (length ss)

module _ (t : CharTable) (delimiters : List Str) (label_at : ℕ → Str) (interval : ℕ) where
  unfoldable pub at_target : Window → ℕ → Bool
  at_target w t_ms = label_matches t (label_at t_ms) w.label w.other delimiters

  unfoldable pub solve : List Segment → ℕ → Option (ℕ × ℕ)
  unfolding search_window window at_target
  solve segments i = elim (window i segments) [
    | none ↦ none
    | some w ↦ elim (search_window (at_target w) interval w) [ none ↦ none | some x ↦ some (i, x) ]
  ]

  unfoldable pub refine : List Segment → List Segment
  unfolding apply_results solve targets
  refine segments = apply_results (map (solve segments) (targets segments)) segments
