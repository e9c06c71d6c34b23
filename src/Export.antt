-- ===== src/Export.antt =====
-- apps/server/domain/video_captions/scene_export.py: the segments of a confirmed cut are written to
-- files, all or a selection of them. What happens at each file (the run was cancelled, ffmpeg cut, ffmpeg
-- or the test of its output failed) is an argument; so are the directory and the bytes left out.
pub mod Files
use yeson_meet.Prelude.{
  ℕ, Bool, true, false, List, [], ◌∷◌, Option, none, some, length, map, ltb, nat_eq, ◌+◌, ◌||◌,
  if◌then◌else◌, get_elem?, keep, ◌++◌,
}
use yeson_meet.Prelude.Text.{Str, CharTable, codes, strip}
use yeson_meet.Scene.Boundaries.{Segment}
use yeson_meet.Scene.Labels.{dedupe_labels}
use yeson_meet.Refine.{range}

-- `'/\\:*?"<>|\n\r\t'`
abbrev pub bad : List ℕ
bad = 47 ∷ 92 ∷ 58 ∷ 42 ∷ 63 ∷ 34 ∷ 60 ∷ 62 ∷ 124 ∷ 10 ∷ 13 ∷ 9 ∷ []

unfoldable pub is_in : ℕ → List ℕ → Bool
is_in c [] = false
is_in c (d ∷ ds) = nat_eq c d || is_in c ds

unfoldable pub replace_bad : Str → Str
unfolding is_in
replace_bad [] = []
replace_bad (c ∷ s) = (if is_in c bad then 95 else c) ∷ replace_bad s

-- `sorted(set(indices))`: each index once, ascending
unfoldable pub insert_index : ℕ → List ℕ → List ℕ
insert_index i [] = i ∷ []
insert_index i (j ∷ js) =
    if ltb i j then i ∷ j ∷ js else if nat_eq i j then j ∷ js else j ∷ insert_index i js

unfoldable pub sorted_set : List ℕ → List ℕ
unfolding insert_index
sorted_set [] = []
sorted_set (i ∷ is) = insert_index i (sorted_set is)

-- The indices to write, of `n` segments. An index out of range is ignored.
unfoldable pub pick : ℕ → Option (List ℕ) → List ℕ
unfolding sorted_set
pick n none = range 0 n
pick n (some indices) = keep (λ i. ltb i n) (sorted_set indices)

-- What happens at one file: the run's generation is stale; the file is written; ffmpeg or the test
-- of its output fails, with the generation still the run's or not.
pub data Attempt : Type 0 where
  stale : Attempt
  cuts : Attempt
  breaks : Bool → Attempt

-- `export_status.json`
pub record Status : Type 0 where
  pub exporting : Bool
  pub done : ℕ
  pub total : ℕ
  pub is_error : Bool
  pub files : List Str

abbrev pub running : ℕ → ℕ → Status
running done total = record {
  exporting = true;
  done = done;
  total = total;
  is_error = false;
  files = [];
}

unfoldable pub name_at : List Str → ℕ → Str
name_at names i = elim (get_elem? names i) [ none ↦ [] | some name ↦ name ]

-- The loop of `_work` and the handlers around it: what is returned and the status that is left.
unfoldable pub write_files :
    (ℕ → Attempt) → List Str → ℕ → List Str → ℕ → List ℕ → List Str × Status
unfolding name_at
write_files attempt names total written done [] = (
  written,
  record { exporting = false; done = total; total = total; is_error = false; files = written },
)
write_files attempt names total written done (i ∷ is) =
    let rest = write_files attempt names total (written ++ name_at names i ∷ []) (done + 1) is in
    elim (attempt i) [
      | cuts ↦ rest
      | stale ↦ ([], record (running done total) { exporting = false })
      | breaks current ↦
          if current
          then ([], record { exporting = false; done = 0; total = 0; is_error = true; files = [] })
          else ([], running done total)
    ]

abbrev pub failed : List Str × Status
failed = ([], record { exporting = false; done = 0; total = 0; is_error = true; files = [] })

module _ (t : CharTable) where
  -- `_sanitize_label`
  unfoldable pub sanitize_label : Str → Str
  unfolding replace_bad
  sanitize_label label = elim (strip t (replace_bad label)) [ [] ↦ codes "segment" | c ∷ s ↦ c ∷ s ]

  -- The names are those of all segments, whatever is picked.
  unfoldable pub file_names : List Segment → List Str
  unfolding sanitize_label
  file_names segments = dedupe_labels (map (λ s. sanitize_label s.label) segments)

  -- No data, no segments or no ffmpeg is an error.
  unfoldable pub run_scene_export :
      Option (List Segment) → Bool → Option (List ℕ) → (ℕ → Attempt) → List Str × Status
  unfolding write_files file_names pick
  run_scene_export none has_ffmpeg indices attempt = failed
  run_scene_export (some []) has_ffmpeg indices attempt = failed
  run_scene_export (some (s ∷ ss)) has_ffmpeg indices attempt =
      let segments = s ∷ ss in
      let picked = pick (length segments) indices in
      if has_ffmpeg
      then write_files attempt (file_names segments) (length picked) [] 0 picked
      else failed
