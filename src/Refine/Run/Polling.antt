-- ===== src/Refine/Run/Polling.antt =====
-- What a client sees that polls.
use yeson_meet.Prelude.{
  ℕ, Bool, false, List, Option, none, some, length, ◌≡◌, refl, arith, true, [], if◌then◌else◌, ltb,
  ◌&&◌, ◌∷◌, ◌||◌, not, nat_eq, Bool-cases, inl, inr, ◌+◌, ◌%◌,
}
use yeson_meet.Prelude.Text.{Str, CharTable}
use yeson_meet.Scene.Boundaries.{Segment}
use yeson_meet.Refine.{targets, refine}
use yeson_meet.Refine.Run.{
  Attempt, Progress, status_of, clear_refining, handle_error, after_workers, finish,
  run_scene_refine, Waiting, undisturbed, cancelled, done_after, clear_status, store_progress,
  breaks, raised, solved, stale,
}

refining-clear : (stored : Option Progress) → (clear_refining stored).refining ≡ false
unfolding clear_refining
refining-clear none = refl
refining-clear (some p) = refl

refining-handle : (b : Bool) (stored : Option Progress) → (handle_error b stored).refining ≡ false
unfolding handle_error
refining-handle b stored = ground (arith, refining-clear stored)

pub refining-finish {ℓ} :
    {A : Type ℓ} (total : ℕ) (ends : List Attempt) (stored : Progress) (refined : A)
    → (finish undisturbed total ends stored refined).0.refining ≡ false
unfolding finish
refining-finish total ends stored refined =
    grind (arith, refining-clear (some (after_workers 0 total ends stored)), refining-handle)

-- After so many boundaries a worker is solved whose progress is stored.
unfoldable pub is_stored : ℕ → ℕ → List Attempt → Bool
is_stored done total [] = false
is_stored done total (solved ∷ ends) =
    (nat_eq ((done + 1) % 5) 0 || nat_eq (done + 1) total) || is_stored (done + 1) total ends
is_stored done total (_ ∷ ends) = is_stored done total ends

-- The number of the boundaries that are solved.
unfoldable pub count_solved : List Attempt → ℕ
count_solved [] = 0
count_solved (solved ∷ ends) = count_solved ends + 1
count_solved (_ ∷ ends) = count_solved ends

done_after-count_solved :
    (done : ℕ) (ends : List Attempt) → done_after done ends ≡ done + count_solved ends
unfolding done_after count_solved
done_after-count_solved done [] = omega arith
done_after-count_solved done (solved ∷ ends) =
    omega (arith, done_after-count_solved (done + 1) ends)
done_after-count_solved done (stale ∷ ends) = done_after-count_solved done ends
done_after-count_solved done (breaks b ∷ ends) = done_after-count_solved done ends

refining-after_workers :
    (done total : ℕ) (ends : List Attempt) (stored : Progress)
    → (after_workers done total ends stored).refining
      ≡ (stored.refining || is_stored done total ends)
unfolding after_workers store_progress is_stored
refining-after_workers done total [] stored = ground arith
refining-after_workers done total (solved ∷ ends) stored =
    ground
      (arith, refining-after_workers (done + 1) total ends (store_progress (done + 1) total stored))
refining-after_workers done total (stale ∷ ends) stored =
    refining-after_workers done total ends stored
refining-after_workers done total (breaks b ∷ ends) stored =
    refining-after_workers done total ends stored

pub cancelled-finish {ℓ} :
    {A : Type ℓ} (clears : Bool) (later : List Attempt) (total : ℕ) (ends : List Attempt)
    (stored : Progress) (refined : A)
    → stored.refining ≡ true
    → (finish (cancelled clears later) total ends stored refined).0.refining
      ≡ (not clears || is_stored (count_solved ends) total later)
unfolding finish clear_status
cancelled-finish clears later total ends stored refined on =
    let seen = after_workers 0 total ends stored in
    ground (
      arith,
      on,
      done_after-count_solved 0 ends,
      refining-after_workers 0 total ends stored,
      refining-after_workers (done_after 0 ends) total later (clear_status clears seen),
    )

-- Every boundary is solved.
unfoldable pub all_solved : List Attempt → Bool
all_solved [] = true
all_solved (solved ∷ ends) = all_solved ends
all_solved (_ ∷ ends) = false

pub saved-finish {ℓ} :
    {A : Type ℓ} (total : ℕ) (ends : List Attempt) (stored : Progress) (refined : A)
    → (finish undisturbed total ends stored refined).1
      ≡ (if all_solved ends then some refined else none)
unfolding finish raised all_solved
saved-finish total [] stored refined = ground arith
saved-finish total (solved ∷ ends) stored refined =
    ground (arith, saved-finish total ends stored refined)
saved-finish total (stale ∷ ends) stored refined = ground arith
saved-finish total (breaks b ∷ ends) stored refined = ground arith

raised-none : (ends : List Attempt) → all_solved ends ≡ true → raised ends ≡ none
unfolding raised all_solved
raised-none [] h = refl
raised-none (solved ∷ ends) h = raised-none ends h
raised-none (stale ∷ ends) h = absurd (ground arith)
raised-none (breaks b ∷ ends) h = absurd (ground arith)

status-finish {ℓ} :
    {A : Type ℓ} (total : ℕ) (ends : List Attempt) (stored : Progress) (refined : A)
    → all_solved ends ≡ true
    → (finish undisturbed total ends stored refined).0 ≡ status_of false total total
unfolding finish
status-finish total ends stored refined h = rw (raised-none ends h, finish) refl

-- How a run is left that had something to do (or not), with the status and what is saved, if the work
-- is `refined` when all workers have ended well. A run that is not cancelled is over for a client that
-- polls; one that is cancelled saves nothing.
abbrev pub IsLeft {ℓ} :
    {A : Type ℓ} → Bool → ℕ → List Attempt → Waiting → A → Progress × Option A → Type ℓ
IsLeft has_work total ends undisturbed refined (status, saved) =
    (status.refining ≡ false)
    × (saved ≡ (if has_work && all_solved ends then some refined else none))
    × (status ≡ (if has_work && all_solved ends then status_of false total total else status))
IsLeft has_work total ends (cancelled clears later) refined (status, saved) =
    (status.refining ≡ (has_work && (not clears || is_stored (count_solved ends) total later)))
    × (saved ≡ none)

pub finish-IsLeft {ℓ} :
    {A : Type ℓ} (total : ℕ) (ends : List Attempt) (waiting : Waiting) (refined : A)
    → IsLeft true total ends waiting refined
        (finish waiting total ends (status_of true 0 total) refined)
finish-IsLeft total ends undisturbed refined =
    let start = status_of true 0 total in
    (
      refining-finish total ends start refined,
      saved-finish total ends start refined,
      ground (arith, status-finish total ends start refined),
    )
finish-IsLeft total ends (cancelled clears later) refined = (
  cancelled-finish clears later total ends (status_of true 0 total) refined refl,
  unfold finish in refl,
)

pub idle-IsLeft {ℓ} :
    {A : Type ℓ} (total : ℕ) (ends : List Attempt) (waiting : Waiting) (refined : A)
    (status : Progress)
    → status.refining ≡ false
    → IsLeft false total ends waiting refined (status, none)
idle-IsLeft total ends undisturbed refined status off = (off, refl, refl)
idle-IsLeft total ends (cancelled clears later) refined status off = (off, refl)

-- The number of the boundaries of a job: none without a confirmed rule.
abbrev pub boundaries : Option (List Segment) → List ℕ
boundaries none = []
boundaries (some ss) = targets ss

abbrev pub segments_of : Option (List Segment) → List Segment
segments_of none = []
segments_of (some ss) = ss

module _ (t : CharTable) (delimiters : List Str) (label_at : ℕ → Str) (interval : ℕ) where
  -- However a run ends that is not cancelled (done, nothing to do, no confirmed rule, stale, failed),
  -- the status that is left says that it no longer refines, so a client that polls stops. If there are
  -- boundaries, ffmpeg is there and no worker raises, all boundaries are refined and saved and the
  -- status says so; otherwise nothing is saved. If the task is cancelled while it waits for the
  -- workers, nothing is saved, and the status stays on `refining` exactly if the canceller does not
  -- clear it or a worker stores its progress afterwards.
  pub run_scene_refine_stops :
      (rule : Option (List Segment)) (has_ffmpeg is_current : Bool) (stored : Option Progress)
      (ends : List Attempt) (waiting : Waiting)
      → let total = length (boundaries rule) in
        IsLeft
          (ltb 0 total && has_ffmpeg)
          total
          ends
          waiting
          (refine t delimiters label_at interval (segments_of rule))
          (run_scene_refine t delimiters label_at interval rule has_ffmpeg is_current stored ends
            waiting)
  unfolding run_scene_refine
  run_scene_refine_stops none f c stored ends waiting =
      idle-IsLeft 0 ends waiting (refine t delimiters label_at interval []) (handle_error c stored)
        (refining-handle c stored)
  run_scene_refine_stops (some ss) f c stored ends waiting =
      let total = length (targets ss) in
      let refined = refine t delimiters label_at interval ss in
      elim (Bool-cases (ltb total 1)) [
        | inl idle ↦
            let none_left : ltb 0 total ≡ false = ground arith in
            rw (idle, none_left, run_scene_refine)
              (idle-IsLeft total ends waiting refined (status_of false 0 0) refl)
        | inr busy ↦
            let some_left : ltb 0 total ≡ true = ground arith in
            elim (Bool-cases f) [
              | inl there ↦
                  rw (busy, some_left, there, run_scene_refine)
                    (finish-IsLeft total ends waiting refined)
              | inr missing ↦
                  rw (busy, some_left, missing, run_scene_refine)
                    (idle-IsLeft total ends waiting refined (handle_error c stored)
                      (refining-handle c stored))
            ]
      ]
