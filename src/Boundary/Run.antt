-- ===== src/Boundary/Run.antt =====
-- apps/server/domain/video_captions/boundary_check.py: `run_boundary_check` around the verdicts, with
-- the status that a client polls. It treats its workers, a cancellation and a failure the way
-- `run_scene_refine` does, so those definitions serve here too: `refining` is the file's `checking`.
pub mod Polling
use yeson_meet.Prelude.{
  Bool, true, false, List, Option, none, length, ltb, not, ◌||◌, if◌then◌else◌,
}
use yeson_meet.Prelude.Text.{Str, CharTable}
use yeson_meet.Boundary.{SceneSegment, Issue, boundary_issues}
use yeson_meet.Refine.Run.{Attempt, Progress, Waiting, status_of, finish}

module _ (t : CharTable) (head_text tail_text : SceneSegment → Str) where
  -- The result is the status that is stored at the end, and the issues that are saved. A job without
  -- scene segments, or a machine without ffmpeg, has nothing to do.
  unfoldable pub run_boundary_check :
      List SceneSegment → Bool → List Attempt → Waiting → Progress × Option (List Issue)
  unfolding finish
  run_boundary_check segs has_ffmpeg ends waiting =
      let total = length segs in
      if ltb total 1 || not has_ffmpeg
      then (status_of false total total, none)
      else finish waiting total ends (status_of true 0 total)
          (boundary_issues t head_text tail_text segs)
