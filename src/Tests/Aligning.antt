-- ===== src/Tests/Aligning.antt =====
-- Two runs whose slate changes four frames before the cut.
use yeson_meet.Prelude.{
  ℕ, Option, [], arith, if◌then◌else◌, ltb, refl, some, ◌+◌, ◌-◌, ◌∷◌, ◌≡◌, List, ◌*◌,
}
use yeson_meet.Prelude.Text.{Str, codes}
use yeson_meet.Fingerprint.Cuts.{FramesTile}
use yeson_meet.Scan.{Run, Side, align_cut, next, prev}
use yeson_meet.Scan.Align.{IsPlaced, align_cut-place}
use yeson_meet.Scan.Pass.{RunsTile}
use yeson_meet.Scan.Blocks.{resolve_unreadable_blocks}
use yeson_meet.Scan.Blocks.Plan.{resolve_unreadable_blocks-Tile}
use yeson_meet.Scan.Whole.{scan_runs, scan_runs-Tile}
use yeson_meet.Tests.{ascii}

abbrev side_at : ℕ → Option Side
side_at frame = if ltb frame 16 then some prev else some next

align_cut-place_example : IsPlaced side_at 20 0 40 (align_cut side_at 20 0 40)
align_cut-place_example = align_cut-place side_at 20 0 40 (omega arith)

abbrev text_on : ℕ → Str
text_on frame = if ltb frame 16 then codes "EP_010" else codes "EP_020"

abbrev first_run : Run
first_run = record { start = 0; end = 20; text = codes "EP_010"; stable = 10 }

abbrev second_run : Run
second_run = record { start = 20; end = 40; text = codes "EP_020"; stable = 30 }

-- A fingerprint is a number, and two that differ do so in as many places.
abbrev distance : ℕ → ℕ → ℕ
distance a b = (a - b) + (b - a)

-- The bound `lo` is not exclusive: a cut in the frame behind it can be aligned to it.
reaches_lo : align_cut (λ frame. some next) 1 0 5 ≡ 0
unfolding align_cut
reaches_lo = refl

-- An unreadable run between the two slates.
abbrev blurred : Run
blurred = record { start = 14; end = 20; text = []; stable = 17 }

abbrev prints : ℕ → ℕ
prints frame = if ltb frame 17 then 0 else 100

resolve_unreadable_blocks-Tile_example : RunsTile 0 40 (
    resolve_unreadable_blocks ascii
      (codes "_" ∷ [])
      text_on
      prints
      distance
      (record first_run { end = 14 } ∷ blurred ∷ second_run ∷ []))
resolve_unreadable_blocks-Tile_example =
    resolve_unreadable_blocks-Tile ascii (codes "_" ∷ []) text_on prints distance 0 40
      (record first_run { end = 14 } ∷ blurred ∷ second_run ∷ [])
      (refl, omega arith, (refl, omega arith, (refl, omega arith, refl)))

-- The distances of neighbouring frames, with one cut, and of frames two apart.
abbrev near_diffs : List ℕ
near_diffs = 0 ∷ 1 ∷ 0 ∷ 90 ∷ 0 ∷ 1 ∷ 9 ∷ 9 ∷ 0 ∷ []

abbrev far_diffs : List ℕ
far_diffs = 1 ∷ 1 ∷ 90 ∷ 90 ∷ 1 ∷ 10 ∷ 18 ∷ 9 ∷ []

scan_runs-Tile_example : FramesTile 0 10 (
    scan_runs ascii
      (codes "_" ∷ [])
      (λ s e. text_on (s * 4))
      text_on
      prints
      distance
      near_diffs
      far_diffs
      2
      10)
scan_runs-Tile_example =
    scan_runs-Tile ascii (codes "_" ∷ []) (λ s e. text_on (s * 4)) text_on prints distance
      near_diffs far_diffs 2 10
