-- ===== src/Refine/Run.antt =====
-- apps/server/domain/video_captions/scene_refine.py: `run_scene_refine` around the search: what it
-- writes into `refine_status.json`, which the client polls, and whether the segments are saved.
-- The workers end in some order, which is the order of the attempts; the pool waits for all of them.
pub mod Polling
use yeson_meet.Prelude.{
  ℕ, Bool, true, false, List, [], ◌∷◌, Option, none, some, length, ltb, nat_eq, ◌+◌, ◌%◌, ◌||◌,
  if◌then◌else◌,
}
use yeson_meet.Prelude.Text.{Str, CharTable}
use yeson_meet.Scene.Boundaries.{Segment}
use yeson_meet.Refine.{targets, refine}

-- How one boundary ends: it is solved, or its run is stale, or something is raised, with the
-- generation still the run's or not.
pub data Attempt : Type 0 where
  solved : Attempt
  stale : Attempt
  breaks : Bool → Attempt

-- `refine_status.json`
pub record Progress : Type 0 where
  pub refining : Bool
  pub done : ℕ
  pub total : ℕ
  pub is_error : Bool

abbrev pub status_of : Bool → ℕ → ℕ → Progress
status_of refining done total = record {
  refining = refining;
  done = done;
  total = total;
  is_error = false;
}

-- `_clear_refining`, with the status that is stored
unfoldable pub clear_refining : Option Progress → Progress
clear_refining none = status_of false 0 0
clear_refining (some p) = record p { refining = false }

-- The handler of any other exception
unfoldable pub handle_error : Bool → Option Progress → Progress
unfolding clear_refining
handle_error is_current stored =
    if is_current
    then record { refining = false; done = 0; total = 0; is_error = true }
    else clear_refining stored

-- The status stored when the workers have ended, after so many that were solved; the progress is
-- stored at every fifth boundary and at the last one.
unfoldable pub store_progress : ℕ → ℕ → Progress → Progress
store_progress done total stored =
    if nat_eq (done % 5) 0 || nat_eq done total then status_of true done total else stored

unfoldable pub after_workers : ℕ → ℕ → List Attempt → Progress → Progress
unfolding store_progress
after_workers done total [] stored = stored
after_workers done total (solved ∷ ends) stored =
    after_workers (done + 1) total ends (store_progress (done + 1) total stored)
after_workers done total (a ∷ ends) stored = after_workers done total ends stored

-- The number of the boundaries that are done.
unfoldable pub done_after : ℕ → List Attempt → ℕ
done_after done [] = done
done_after done (solved ∷ ends) = done_after (done + 1) ends
done_after done (a ∷ ends) = done_after done ends

-- The first exception, if any.
unfoldable pub raised : List Attempt → Option Attempt
raised [] = none
raised (solved ∷ ends) = raised ends
raised (stale ∷ ends) = some stale
raised (breaks b ∷ ends) = some (breaks b)

-- The run waits for its workers (`await asyncio.to_thread`), and is let wait, or its task is cancelled
-- there: by `cancel_scene_ops`, which then clears the status, or by another handler, which does not.
-- In that case some workers end later, in their threads.
pub data Waiting : Type 0 where
  undisturbed : Waiting
  cancelled : Bool → List Attempt → Waiting

-- `cancel_scene_ops`: the stored status if it says that work is going on
unfoldable pub clear_status : Bool → Progress → Progress
clear_status clears stored = if clears then record stored { refining = false } else stored

-- The `CancelledError` passes all the handlers: nothing is saved, and the workers go on in their
-- threads and store their progress.
unfoldable pub finish {ℓ} :
    {A : Type ℓ} → Waiting → ℕ → List Attempt → Progress → A → Progress × Option A
unfolding after_workers done_after raised clear_refining handle_error clear_status
finish (cancelled clears later) total ends stored refined = (
  after_workers (done_after 0 ends) total later
      (clear_status clears (after_workers 0 total ends stored)),
  none,
)
finish undisturbed total ends stored refined = elim (raised ends) [
  | none ↦ (status_of false total total, some refined)
  | some solved ↦ (status_of false total total, some refined)
  | some stale ↦ (clear_refining (some (after_workers 0 total ends stored)), none)
  | some (breaks is_current) ↦
      (handle_error is_current (some (after_workers 0 total ends stored)), none)
]

module _ (t : CharTable) (delimiters : List Str) (label_at : ℕ → Str) (interval : ℕ) where
  -- Behind the semaphore, from the segments of a confirmed rule, or without any (none); whether ffmpeg
  -- is there; whether the generation is the run's when that is looked at before the work. The result
  -- is the status that is stored at the end, and the segments that are saved.
  unfoldable pub run_scene_refine :
      Option (List Segment)
      → Bool
      → Bool
      → Option Progress
      → List Attempt
      → Waiting
      → Progress × Option (List Segment)
  unfolding finish handle_error
  run_scene_refine none has_ffmpeg is_current stored ends waiting =
      (handle_error is_current stored, none)
  run_scene_refine (some segments) has_ffmpeg is_current stored ends waiting =
      let total = length (targets segments) in
      if ltb total 1
      then (status_of false 0 0, none)
      else if has_ffmpeg
      then finish waiting total ends (status_of true 0 total)
          (refine t delimiters label_at interval segments)
      else (handle_error is_current stored, none)
