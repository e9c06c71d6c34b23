-- ===== src/Fingerprint.antt =====
-- apps/server/domain/video_captions/fingerprint.py: cuts, runs of frames and the frame to read, from
-- the distances of neighbouring frames (`diffs[i]` is frame `i + 1` against frame `i`).
pub mod Cuts
pub mod Frames
pub mod Fades
use yeson_meet.Prelude.{
  ℕ, Bool, List, Option, [], false, get_elem?, if◌then◌else◌, keep, leb, length, ltb, max, nat_eq,
  none, some, suc, true, zero, ◌%◌, ◌&&◌, ◌*◌, ◌+◌, ◌-◌, ◌/◌, ◌||◌, ◌∷◌,
}

abbrev pub min_cut_diff : ℕ
min_cut_diff = 15

abbrev pub med_mult : ℕ
med_mult = 3

abbrev pub merge_gap : ℕ
merge_gap = 2

unfoldable pub insert_sorted : ℕ → List ℕ → List ℕ
insert_sorted x [] = x ∷ []
insert_sorted x (y ∷ ys) = if leb x y then x ∷ y ∷ ys else y ∷ insert_sorted x ys

unfoldable pub sorted : List ℕ → List ℕ
unfolding insert_sorted
sorted [] = []
sorted (x ∷ xs) = insert_sorted x (sorted xs)

abbrev pub at_or_zero : List ℕ → ℕ → ℕ
at_or_zero xs i = elim (get_elem? xs i) [ none ↦ 0 | some x ↦ x ]

-- Twice `statistics.median`, which is the mean of the two middle values of an even number.
unfoldable pub twice_median : List ℕ → ℕ
unfolding sorted
twice_median xs =
    let n = length xs in
    let s = sorted xs in
    if nat_eq (n % 2) 1
    then 2 * at_or_zero s (n / 2)
    else at_or_zero s (n / 2 - 1) + at_or_zero s (n / 2)

-- Twice the threshold of `detect_cuts`.
unfoldable pub twice_threshold : List ℕ → ℕ
unfolding twice_median
twice_threshold diffs = max (2 * min_cut_diff) (twice_median diffs * med_mult)

-- Is a candidate at frame `c` clear of the last cut?
abbrev pub is_clear : Option ℕ → ℕ → Bool
is_clear none c = true
is_clear (some last) c = ltb (last + merge_gap) c

-- The loop at index `i`, with twice the threshold and the last cut.
unfoldable pub cuts_from : ℕ → ℕ → Option ℕ → List ℕ → List ℕ
cuts_from limit i last [] = []
cuts_from limit i last (d ∷ ds) = elim (ltb limit (2 * d) && is_clear last (i + 1)) [
  | true ↦ (i + 1) ∷ cuts_from limit (i + 1) (some (i + 1)) ds
  | false ↦ cuts_from limit (i + 1) last ds
]

unfoldable pub detect_cuts : List ℕ → List ℕ
unfolding cuts_from
detect_cuts [] = []
detect_cuts (d ∷ ds) = cuts_from (twice_threshold (d ∷ ds)) 0 none (d ∷ ds)

-- `zip(starts, starts[1:] + [n_frames])`
unfoldable pub zip_next : ℕ → List ℕ → List (ℕ × ℕ)
zip_next n [] = []
zip_next n (s ∷ []) = (s, n) ∷ []
zip_next n (s ∷ s' ∷ ss) = (s, s') ∷ zip_next n (s' ∷ ss)

unfoldable pub frame_runs : List ℕ → ℕ → List (ℕ × ℕ)
unfolding zip_next
frame_runs cuts n = if nat_eq n 0 then [] else zip_next n (0 ∷ keep (λ c. ltb 0 c && ltb c n) cuts)

-- The score of a frame: the motion around it, its distance from the centre of the run (twice), its
-- index; scores are compared in this order.
pub record Score : Type 0 where
  pub motion : ℕ
  pub off_centre : ℕ
  pub frame : ℕ

unfoldable pub score : List ℕ → ℕ → ℕ → Score
score diffs center2 i = record {
  motion = (if ltb 0 i then at_or_zero diffs (i - 1) else 0) + at_or_zero diffs i;
  off_centre = (2 * i - center2) + (center2 - 2 * i);
  frame = i;
}

unfoldable pub lower : Score → Score → Bool
lower a b =
    ltb a.motion b.motion
    || (nat_eq a.motion b.motion
        && (ltb a.off_centre b.off_centre
            || (nat_eq a.off_centre b.off_centre && ltb a.frame b.frame)))

-- `min(range(i, i + n), key=score)`, with the best frame so far.
unfoldable pub best_frame : (ℕ → Score) → ℕ → ℕ → ℕ → ℕ
best_frame key best i zero = best
best_frame key best i (suc n) =
    best_frame key (if lower (key i) (key best) then i else best) (suc i) n

-- The run is not empty: `start < end`.
unfoldable pub stable_frame : List ℕ → ℕ → ℕ → ℕ
unfolding best_frame score
stable_frame diffs start end =
    best_frame (score diffs (start + end - 1)) start (suc start) (end - suc start)
