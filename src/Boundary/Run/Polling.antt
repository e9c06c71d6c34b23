-- ===== src/Boundary/Run/Polling.antt =====
-- What a client sees that polls, and what is saved.
use yeson_meet.Prelude.{
  Bool, true, false, List, length, ◌≡◌, arith, ltb, ◌&&◌, Bool-cases, inl, inr, refl,
}
use yeson_meet.Prelude.Text.{Str, CharTable}
use yeson_meet.Boundary.{SceneSegment, boundary_issues}
use yeson_meet.Boundary.Run.{run_boundary_check}
use yeson_meet.Refine.Run.{Attempt, Waiting, status_of}
use yeson_meet.Refine.Run.Polling.{IsLeft, finish-IsLeft, idle-IsLeft}

-- However a check ends that is not cancelled, the status that is left says that it no longer runs. If
-- there are segments, ffmpeg is there and no worker raises, the issues of all segments are saved and
-- the status says so; otherwise nothing is saved. If the task is cancelled while it waits for the
-- workers, nothing is saved, and the status stays on `checking` exactly if the canceller does not
-- clear it or a worker stores its progress afterwards.
pub run_boundary_check_stops :
    (t : CharTable) (head_text tail_text : SceneSegment → Str) (segs : List SceneSegment)
    (has_ffmpeg : Bool) (ends : List Attempt) (waiting : Waiting)
    → IsLeft
        (ltb 0 (length segs) && has_ffmpeg)
        (length segs)
        ends
        waiting
        (boundary_issues t head_text tail_text segs)
        (run_boundary_check t head_text tail_text segs has_ffmpeg ends waiting)
unfolding run_boundary_check
run_boundary_check_stops t head_text tail_text segs f ends waiting =
    let total = length segs in
    let issues = boundary_issues t head_text tail_text segs in
    let idle = idle-IsLeft total ends waiting issues (status_of false total total) refl in
    elim (Bool-cases (ltb total 1)) [
      | inl empty ↦
          let none_left : ltb 0 total ≡ false = ground arith in
          rw (empty, none_left, run_boundary_check) idle
      | inr busy ↦
          let some_left : ltb 0 total ≡ true = ground arith in
          elim (Bool-cases f) [
            | inl there ↦
                rw (busy, some_left, there, run_boundary_check)
                  (finish-IsLeft total ends waiting issues)
            | inr missing ↦ rw (busy, some_left, missing, run_boundary_check) idle
          ]
    ]
