-- ===== src/Tests/Scenes.antt =====
-- The cut of a short film into segments, and the labels of them.
use Prim.Native.String.{String}
use yeson_meet.Prelude.{
  ℕ, true, false, List, [], ◌∷◌, none, some, text_eq, ◌≡◌, ◌⊎◌, ◌≤◌, ◌<◌, ◌/◌, ◌-◌, arith,
}
use yeson_meet.Prelude.Text.{Str, codes}
use yeson_meet.Scene.Tokens.{scene}
use yeson_meet.Scene.Keys.{Keyed}
use yeson_meet.Scene.Boundaries.{compute_boundaries, boundary_spans}
use yeson_meet.Scene.Boundaries.Tiling.{Tiles, Covers, first_readable, compute_boundaries-Covers}
use yeson_meet.Scene.Boundaries.Spacing.{Differ, boundary_spans-Differ}
use yeson_meet.Scene.Boundaries.Lengths.{LastsOrSingle, boundary_spans-LastsOrSingle}
use yeson_meet.Scene.Runs.{SceneRun, runs_to_segments}
use yeson_meet.Scene.Runs.Tiling.{some_readable, runs_to_segments-Tiles}
use yeson_meet.Scene.Labels.{named, dedupe_labels}
use yeson_meet.Scene.Labels.Distinct.{dedupe_labels_collide}
use yeson_meet.Tests.{ascii, rule}

abbrev sample : ℕ → String → Keyed
sample t_ms key = record { t_ms = t_ms; key = some (codes key); label = some (codes key) }

-- Two scenes of some samples each, with a title card in front and one misreading between them.
abbrev film : List Keyed
film =
    record { t_ms = 0; key = none; label = none }
    ∷ sample 2000 "a"
    ∷ sample 4000 "a"
    ∷ sample 6000 "x"
    ∷ sample 8000 "b"
    ∷ sample 10000 "b"
    ∷ []

compute_boundaries-Covers_example :
    Covers 12000 2000 (first_readable film) (compute_boundaries film 12000 3000 2000 true)
compute_boundaries-Covers_example =
    compute_boundaries-Covers 12000 3000 2000 true film (ground arith)

boundary_spans-Differ_example : Differ (boundary_spans film 12000 3000 2000 true)
boundary_spans-Differ_example = boundary_spans-Differ film 12000 3000 2000 true

boundary_spans-LastsOrSingle_example :
    LastsOrSingle (3000 - 2000 / 2) (boundary_spans film 12000 3000 2000 true)
boundary_spans-LastsOrSingle_example =
    boundary_spans-LastsOrSingle film 12000 3000 2000 true (ground arith)

abbrev scene_run : ℕ → ℕ → String → SceneRun
scene_run start_ms end_ms text = record {
  start_ms = start_ms;
  end_ms = end_ms;
  text = codes text;
  cut_diff = 9;
}

abbrev runs : List SceneRun
runs =
    scene_run 0 500 ""
    ∷ scene_run 500 3000 "EP_010_1"
    ∷ scene_run 3000 3100 "EP_070_1"
    ∷ scene_run 3100 6000 "EP_010_1"
    ∷ scene_run 6000 9000 "EP_020_1"
    ∷ []

runs_to_segments-Tiles_example :
    ((some_readable ascii runs rule scene ≡ false)
      × (runs_to_segments ascii runs rule scene 1000 ≡ []))
    ⊎ ((some_readable ascii runs rule scene ≡ true)
        × ((s : ℕ) × (0 ≤ s)
            × (s < 9000)
            × Tiles s 9000 (runs_to_segments ascii runs rule scene 1000)))
runs_to_segments-Tiles_example =
    runs_to_segments-Tiles ascii runs rule scene 1000 0 9000 (ground arith)

abbrev shots : List Str
shots = codes "S01" ∷ codes "S02" ∷ []

dedupe_labels_collide_example :
    dedupe_labels (codes "S01" ∷ codes "S01" ∷ named (codes "S01") 2 ∷ [])
    ≡ codes "S01" ∷ named (codes "S01") 2 ∷ named (codes "S01") 2 ∷ []
dedupe_labels_collide_example = dedupe_labels_collide (codes "S01")
