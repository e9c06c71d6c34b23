-- ===== src/Tests/Exporting.antt =====
-- The export of a selection of segments.
use yeson_meet.Prelude.{ℕ, true, List, [], ◌∷◌, some}
use yeson_meet.Prelude.Text.{codes}
use yeson_meet.Scene.Boundaries.{Segment}
use yeson_meet.Export.{cuts, run_scene_export}
use yeson_meet.Export.Files.{IsExported, run_scene_export_all}
use yeson_meet.Tests.{ascii}

abbrev indices : List ℕ
indices = 1 ∷ 0 ∷ 5 ∷ 1 ∷ []

abbrev first : Segment
first = record { label = codes "A/1"; start_ms = 0; end_ms = 900 }

abbrev others : List Segment
others = record { label = codes "A/1"; start_ms = 900; end_ms = 2000 } ∷ []

run_scene_export_all_example :
    IsExported ascii
      (first ∷ others)
      (some indices)
      (run_scene_export ascii (some (first ∷ others)) true (some indices) (λ i. cuts))
run_scene_export_all_example = run_scene_export_all ascii first others (some indices)
