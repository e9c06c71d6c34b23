-- ===== src/Tests/Polls.antt =====
-- A refinement that is cancelled while its last worker is at work.
use yeson_meet.Prelude.{true, [], ◌∷◌, none, some, length, ◌≡◌, ltb, ◌&&◌, refl}
use yeson_meet.Refine.{targets, refine}
use yeson_meet.Refine.Run.{Waiting, cancelled, solved, run_scene_refine}
use yeson_meet.Refine.Run.Polling.{IsLeft, run_scene_refine_stops}
use yeson_meet.Tests.{ascii}
use yeson_meet.Tests.Boundaries.{segments, delimiters, label_at}

-- The status is cleared, and then the worker stores its progress.
abbrev late : Waiting
late = cancelled true (solved ∷ [])

revived :
    (run_scene_refine ascii delimiters label_at 500
      (some segments)
      true
      true
      none
      []
      late).0.refining
    ≡ true
unfolding run_scene_refine targets
revived = refl

run_scene_refine_stops_example :
    IsLeft
      (ltb 0 (length (targets segments)) && true)
      (length (targets segments))
      []
      late
      (refine ascii delimiters label_at 500 segments)
      (run_scene_refine ascii delimiters label_at 500 (some segments) true true none [] late)
run_scene_refine_stops_example =
    run_scene_refine_stops ascii delimiters label_at 500 (some segments) true true none [] late
