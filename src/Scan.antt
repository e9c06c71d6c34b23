-- ===== src/Scan.antt =====
-- apps/server/domain/video_captions/scene_scan_fp.py: where one slate gives way to the next, by what
-- is read on the frames and by the likeness of their fingerprints.
pub mod Align
pub mod Blocks
pub mod Pass
pub mod Whole
use yeson_meet.Prelude.{
  ℕ, Bool, List, Option, [], false, if◌then◌else◌, leb, ltb, max, min, none, some, suc, true, zero,
  ◌&&◌, ◌+◌, ◌-◌, ◌||◌, ◌∷◌, nat_eq, not, ◌==◌, text_eq,
}
use yeson_meet.Prelude.Text.{Str, CharTable, starts_with, to_lower}
use yeson_meet.Scene.Tokens.{squash}
use yeson_meet.Fingerprint.{zip_next}

-- `"prev"` and `"next"`
pub data Side : Type 0 where
  prev : Side
  next : Side

abbrev pub is_prev : Option Side → Bool
is_prev none = false
is_prev (some prev) = true
is_prev (some next) = false

abbrev pub is_next : Option Side → Bool
is_next none = false
is_next (some prev) = false
is_next (some next) = true

-- The side, from whether the text goes with the previous slate and with the next.
unfoldable pub side_of : Bool → Bool → Option Side
side_of true true = none
side_of true false = some prev
side_of false true = some next
side_of false false = none

-- One of the texts starts with the other.
abbrev pub agrees : Str → Str → Bool
agrees x y = starts_with x y || starts_with y x

-- `sq`: the text without delimiters and white space, in lower case.
abbrev pub folded : CharTable → List Str → Str → Str
folded t delimiters s = to_lower t (squash t delimiters s)

-- `_text_side`; a text that is missing is the empty one.
unfoldable pub text_side : CharTable → List Str → Str → Str → Str → Option Side
unfolding side_of
text_side t delimiters text prev_text next_text =
    let x = folded t delimiters text in
    elim x [
      | [] ↦ none
      | c ∷ s ↦
          side_of (agrees (c ∷ s) (folded t delimiters prev_text))
            (agrees (c ∷ s) (folded t delimiters next_text))
    ]

abbrev pub max_probe : ℕ
max_probe = 24

abbrev pub is_unread : Option Side → Bool
is_unread none = true
is_unread (some s) = false

module _ (side : ℕ → Option Side) where
  -- The first of so many frames on which the next slate is read, or the frame after them.
  unfoldable pub first_next : ℕ → ℕ → ℕ
  first_next zero frame = frame
  first_next (suc n) frame = elim (is_next (side frame)) [
    | true ↦ frame
    | false ↦ first_next n (frame + 1)
  ]

  -- The frame after the last of so many frames on which the previous slate is read.
  unfoldable pub after_last_prev : ℕ → ℕ → ℕ → ℕ
  after_last_prev zero frame best = best
  after_last_prev (suc n) frame best =
      after_last_prev n (frame + 1) (if is_prev (side frame) then frame + 1 else best)

  -- `_clamp_fp_move`
  unfoldable pub clamp_fp_move : ℕ → ℕ → ℕ
  unfolding first_next after_last_prev
  clamp_fp_move cur target =
      if ltb cur target
      then first_next (target - cur) cur
      else if ltb target cur
      then after_last_prev (cur - target) target target
      else cur

  -- The walk to the left, with the probes that are left and the frame that is confirmed.
  unfoldable pub walk_left : ℕ → ℕ → ℕ → ℕ → ℕ
  walk_left lo zero frame found = found
  walk_left lo (suc probes) frame found = elim (ltb lo frame) [
    | false ↦ found
    | true ↦ elim (side frame) [
      | none ↦ walk_left lo probes (frame - 1) found
      | some s ↦ elim s [ prev ↦ found | next ↦ walk_left lo probes (frame - 1) frame ]
    ]
  ]

  -- The walk to the right: the first frame that reads as the next slate, or the cut.
  unfoldable pub walk_right : ℕ → ℕ → ℕ → ℕ → ℕ
  walk_right hi cut zero frame = cut
  walk_right hi cut (suc probes) frame = elim (ltb frame hi) [
    | false ↦ cut
    | true ↦ elim (is_next (side frame)) [
      | true ↦ frame
      | false ↦ walk_right hi cut probes (frame + 1)
    ]
  ]

  -- `_align_cut`, with the text read on a frame already judged
  unfoldable pub align_cut : ℕ → ℕ → ℕ → ℕ
  unfolding walk_left walk_right
  align_cut cut lo hi =
      let before = side (cut - 1) in
      if is_next before || (is_unread before && is_next (side cut))
      then walk_left lo max_probe (cut - 2) (if is_next before then cut - 1 else cut)
      else if is_prev (side cut)
      then walk_right hi cut max_probe (cut + 1)
      else cut

-- The frames nearer to the next fingerprint: `_fp_align` on the frames of its window.
unfoldable pub first_flip : (ℕ → Bool) → ℕ → ℕ → Option Bool → Option ℕ
first_flip nearer_next zero frame prior = none
first_flip nearer_next (suc n) frame prior = elim (nearer_next frame) [
  | true ↦ elim prior [
    | none ↦ some frame
    | some p ↦ elim p [
      | true ↦ first_flip nearer_next n (frame + 1) (some true)
      | false ↦ some frame
    ]
  ]
  | false ↦ first_flip nearer_next n (frame + 1) (some false)
]

abbrev pub flip_window : ℕ
flip_window = 8

-- `_fp_align`, with the number of places where two fingerprints differ as an argument
unfoldable pub fp_align {ℓ} : {F : Type ℓ} → (F → F → ℕ) → (ℕ → F) → ℕ → F → F → ℕ → ℕ → Option ℕ
unfolding first_flip
fp_align differ fp_at cut ref_prev ref_next lo hi =
    let start = max (lo + 1) (cut - flip_window) in
    let end = min hi (cut + flip_window + 1) in
    first_flip (λ frame. leb (differ (fp_at frame) ref_next) (differ (fp_at frame) ref_prev))
      (end - start) start none

-- A run of frames, with the text that is read in it and its stable frame.
pub record Run : Type 0 where
  pub start : ℕ
  pub end : ℕ
  pub text : Str
  pub stable : ℕ

-- Both texts are read and they are not the same.
unfoldable pub is_bound : Str → Str → Bool
is_bound [] next_text = false
is_bound (c ∷ s) [] = false
is_bound (c ∷ s) (d ∷ r) = not ((c ∷ s) == (d ∷ r))

-- The alignment of `run_scene_scan_fingerprint`: what is read on a frame, and its fingerprint, are
-- arguments; both are read once and kept.
module _ {ℓ} {F : Type ℓ} (t : CharTable) (delimiters : List Str) (read_frame : ℕ → Str)
    (fp_at : ℕ → F) (differ : F → F → ℕ) where
  abbrev pub reads : Run → Run → ℕ → Option Side
  reads p r frame = text_side t delimiters (read_frame frame) p.text r.text

  -- The start of a run after the comparison of fingerprints; `at` is the start of the run in front.
  unfoldable pub aligned_start : Run → ℕ → Run → ℕ
  unfolding is_bound fp_align clamp_fp_move
  aligned_start p at r =
      if is_bound p.text r.text
      then elim (fp_align differ fp_at r.start (fp_at p.stable) (fp_at r.stable) at r.end) [
        | none ↦ r.start
        | some target ↦
            if nat_eq target r.start then r.start else clamp_fp_move (reads p r) r.start target
      ]
      else r.start

  -- The first loop over the boundaries: the starts of the runs behind a run.
  unfoldable pub align_fingerprints : Run → ℕ → List Run → List ℕ
  unfolding aligned_start
  align_fingerprints p at [] = []
  align_fingerprints p at (r ∷ rs) =
      aligned_start p at r ∷ align_fingerprints r (aligned_start p at r) rs

  -- The second loop, on the starts that the first has left.
  unfoldable pub align_reads : Run → List Run → List ℕ → List ℕ
  unfolding is_bound align_cut
  align_reads p [] starts = []
  align_reads p (r ∷ rs) [] = []
  align_reads p (r ∷ rs) (start ∷ starts) =
      (if is_bound p.text r.text then align_cut (reads p r) start p.start r.end else start)
      ∷ align_reads r rs starts

  -- `max(starts[i], starts[i - 1] + 1)`
  unfoldable pub ascending : ℕ → List ℕ → List ℕ
  ascending at [] = []
  ascending at (start ∷ starts) = max start (at + 1) ∷ ascending (max start (at + 1)) starts

  -- The runs after both loops.
  unfoldable pub align_runs : List Run → ℕ → List (ℕ × ℕ)
  unfolding align_fingerprints align_reads ascending zip_next
  align_runs [] frames = []
  align_runs (r ∷ rs) frames =
      zip_next frames
        (r.start ∷ ascending r.start (align_reads r rs (align_fingerprints r r.start rs)))
