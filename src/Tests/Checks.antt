-- ===== src/Tests/Checks.antt =====
-- A check of two boundaries.
use yeson_meet.Prelude.{true, List, [], ◌∷◌, length, ltb, ◌&&◌}
use yeson_meet.Prelude.Text.{Str, codes}
use yeson_meet.Boundary.{SceneSegment, boundary_issues}
use yeson_meet.Boundary.Run.{run_boundary_check}
use yeson_meet.Boundary.Run.Polling.{run_boundary_check_stops}
use yeson_meet.Refine.Run.Polling.{IsLeft}
use yeson_meet.Refine.Run.{Attempt, solved, undisturbed}
use yeson_meet.Tests.{ascii}

abbrev segs : List SceneSegment
segs =
    record { label = codes "EP_010"; start_ms = 0; end_ms = 900 }
    ∷ record { label = codes "EP_020"; start_ms = 900; end_ms = 2000 }
    ∷ []

-- Both slates show on the last frame of the first.
abbrev head_text : SceneSegment → Str
head_text s = s.label

abbrev tail_text : SceneSegment → Str
tail_text s = codes "ep 010 ep 020"

abbrev both : List Attempt
both = solved ∷ solved ∷ []

run_boundary_check_stops_example :
    IsLeft
      (ltb 0 (length segs) && true)
      (length segs)
      both
      undisturbed
      (boundary_issues ascii head_text tail_text segs)
      (run_boundary_check ascii head_text tail_text segs true both undisturbed)
run_boundary_check_stops_example =
    run_boundary_check_stops ascii head_text tail_text segs true both undisturbed
