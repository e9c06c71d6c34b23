-- ===== src/Fingerprint/Fades.antt =====
-- apps/server/domain/video_captions/fingerprint.py, `detect_cuts_with_fades`: slow fades, from the
-- distances of frames that are a window apart (`windowed[k]` is frame `k + window` against frame `k`).
pub mod Kept
use yeson_meet.Prelude.{
  ℕ, Bool, List, Option, [], any, false, if◌then◌else◌, leb, length, ltb, min, nat_eq, none, some,
  suc, true, zero, ◌&&◌, ◌*◌, ◌++◌, ◌+◌, ◌-◌, ◌||◌, ◌∷◌,
}
use yeson_meet.Export.{sorted_set}
use yeson_meet.Fingerprint.{twice_threshold, merge_gap, detect_cuts, at_or_zero}

-- A plateau that was open at this index is the pair of its first and its last index.
abbrev pub plateau_end : Option ℕ → ℕ → List (ℕ × ℕ)
plateau_end none i = []
plateau_end (some k) i = (k, i - 1) ∷ []

-- The stretches over the threshold, which is given twice.
unfoldable pub plateaus : ℕ → ℕ → Option ℕ → List ℕ → List (ℕ × ℕ)
plateaus limit i from [] = plateau_end from i
plateaus limit i from (w ∷ ws) = elim (ltb limit (2 * w)) [
  | true ↦ plateaus limit (i + 1) (some (elim from [ none ↦ i | some k ↦ k ])) ws
  | false ↦ plateau_end from i ++ plateaus limit (i + 1) none ws
]

-- The first of the greatest distances among so many from an index on, after a best one.
unfoldable pub steepest : List ℕ → ℕ → ℕ → ℕ → ℕ
steepest adjacent zero i best = best
steepest adjacent (suc n) i best =
    steepest adjacent n (i + 1)
      (if ltb (at_or_zero adjacent best) (at_or_zero adjacent i) then i else best)

-- A cut is near a plateau whose frames go from `lo` to `hi`.
abbrev pub is_near : ℕ → ℕ → ℕ → Bool
is_near lo hi c = leb lo (c + merge_gap) && leb c (hi + merge_gap)

-- The cut of a plateau that has no cut near it: none if it lies behind the distances.
unfoldable pub fade_of : List ℕ → List ℕ → ℕ → ℕ × ℕ → List ℕ
unfolding steepest
fade_of hard adjacent window (k, j) =
    let stop = min (length adjacent) (j + window) in
    if any (is_near k (j + window)) hard
    then []
    else if ltb k stop
    then (steepest adjacent (stop - (k + 1)) (k + 1) k + 1) ∷ []
    else []

unfoldable pub fades : List ℕ → List ℕ → ℕ → List (ℕ × ℕ) → List ℕ
unfolding fade_of
fades hard adjacent window [] = []
fades hard adjacent window (p ∷ ps) =
    fade_of hard adjacent window p ++ fades hard adjacent window ps

unfoldable pub detect_cuts_with_fades : List ℕ → List ℕ → ℕ → List ℕ
unfolding plateaus fades
detect_cuts_with_fades adjacent windowed window =
    let hard = detect_cuts adjacent in
    if leb window 1 || nat_eq (length windowed) 0
    then hard
    else sorted_set
        (hard ++ fades hard adjacent window (plateaus (twice_threshold windowed) 0 none windowed))
