-- ===== src/Scan/Whole.antt =====
-- apps/server/domain/video_captions/scene_scan_fp.py, `run_scene_scan_fingerprint`: from the distances
-- of the frames to the aligned runs. What is read in a run (with its second tries)
-- and what is read on a frame are arguments.
use yeson_meet.Prelude.{ℕ, List, [], map, ◌∷◌}
use yeson_meet.Prelude.Text.{Str, CharTable}
use yeson_meet.Fingerprint.{frame_runs, stable_frame}
use yeson_meet.Fingerprint.Cuts.{FramesTile, frame_runs-Tile}
use yeson_meet.Fingerprint.Fades.{detect_cuts_with_fades}
use yeson_meet.Fingerprint.Fades.Kept.{detect_cuts_with_fades-IsMore}
use yeson_meet.Scan.{Run, align_runs}
use yeson_meet.Scan.Blocks.{resolve_unreadable_blocks}
use yeson_meet.Scan.Blocks.Plan.{resolve_unreadable_blocks-Tile}
use yeson_meet.Scene.Canonical.Whole.{canonicalize_texts}
use yeson_meet.Scan.Pass.{RunsTile, align_runs-Tile}

-- The runs with what is read in them and their stable frames.
unfoldable pub read_runs : List ℕ → (ℕ → ℕ → Str) → List (ℕ × ℕ) → List Run
read_runs diffs read_run [] = []
read_runs diffs read_run ((s, e) ∷ rs) =
    record { start = s; end = e; text = read_run s e; stable = stable_frame diffs s e }
    ∷ read_runs diffs read_run rs

-- The runs with their corrected texts and their stable frames anew; there is a text for each run.
unfoldable pub corrected : List ℕ → List Run → List Str → List Run
corrected diffs [] texts = []
corrected diffs (r ∷ rs) [] =
    record r { stable = stable_frame diffs r.start r.end } ∷ corrected diffs rs []
corrected diffs (r ∷ rs) (x ∷ texts) =
    record r { text = x; stable = stable_frame diffs r.start r.end } ∷ corrected diffs rs texts

module _ {ℓ} {F : Type ℓ} (t : CharTable) (delimiters : List Str) (read_run : ℕ → ℕ → Str)
    (read_frame : ℕ → Str) (fp_at : ℕ → F) (differ : F → F → ℕ) where
  unfoldable pub scan_runs : List ℕ → List ℕ → ℕ → ℕ → List (ℕ × ℕ)
  unfolding read_runs corrected
  scan_runs diffs wdiffs window frames =
      let found =
        read_runs diffs read_run (frame_runs (detect_cuts_with_fades diffs wdiffs window) frames) in
      let runs = resolve_unreadable_blocks t delimiters read_frame fp_at differ found in
      align_runs t delimiters read_frame fp_at differ
        (corrected diffs runs (canonicalize_texts t (map (λ (r : Run). r.text) runs) delimiters []))
        frames

  read_runs-Tile :
      (diffs : List ℕ) (a n : ℕ) (rs : List (ℕ × ℕ))
      → FramesTile a n rs
      → RunsTile a n (read_runs diffs read_run rs)
  unfolding read_runs
  read_runs-Tile diffs a n [] h = h
  read_runs-Tile diffs a n ((s, e) ∷ rs) (at, pos, rest) =
      (at, pos, read_runs-Tile diffs e n rs rest)

  corrected-Tile :
      (diffs : List ℕ) (a n : ℕ) (rs : List Run) (texts : List Str)
      → RunsTile a n rs
      → RunsTile a n (corrected diffs rs texts)
  unfolding corrected
  corrected-Tile diffs a n [] texts h = h
  corrected-Tile diffs a n (r ∷ rs) [] (at, pos, rest) =
      (at, pos, corrected-Tile diffs r.end n rs [] rest)
  corrected-Tile diffs a n (r ∷ rs) (x ∷ texts) (at, pos, rest) =
      (at, pos, corrected-Tile diffs r.end n rs texts rest)

  aligned-Tile :
      (a n : ℕ) (rs : List Run)
      → RunsTile a n rs
      → FramesTile a n (align_runs t delimiters read_frame fp_at differ rs n)
  unfolding align_runs
  aligned-Tile a n [] h = h
  aligned-Tile a n (r ∷ rs) h = align_runs-Tile t delimiters read_frame fp_at differ a n r rs h

  -- The runs that a scan ends with cover the frames of the video without a gap or an overlap, and none
  -- is empty, whatever the distances of the frames are, whatever is read, and wherever the
  -- boundaries are aligned.
  pub scan_runs-Tile :
      (diffs wdiffs : List ℕ) (window frames : ℕ)
      → FramesTile 0 frames (scan_runs diffs wdiffs window frames)
  unfolding scan_runs
  scan_runs-Tile diffs wdiffs window frames =
      let found =
        read_runs-Tile diffs 0 frames
          (frame_runs (detect_cuts_with_fades diffs wdiffs window) frames)
          (frame_runs-Tile (detect_cuts_with_fades diffs wdiffs window) frames
            (detect_cuts_with_fades-IsMore diffs wdiffs window).0) in
      let resolved =
        resolve_unreadable_blocks-Tile t delimiters read_frame fp_at differ 0 frames
          (read_runs diffs read_run
            (frame_runs (detect_cuts_with_fades diffs wdiffs window) frames))
          found in
      aligned-Tile 0 frames _ (corrected-Tile diffs 0 frames _ _ resolved)
