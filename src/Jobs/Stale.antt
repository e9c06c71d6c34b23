-- ===== src/Jobs/Stale.antt =====
-- A write of an older run never reaches the row.
use yeson_meet.Prelude.{
  ℕ, List, [], ◌∷◌, text_eq, ◌==◌, some, ◌+◌, ◌<◌, ◌≡◌, if◌then◌else◌, arith, Bool, Option,
  Option-cases, false, get_elem?, inl, inr, refl, true, ◌++◌, none,
}
use yeson_meet.Prelude.Dict.{get, get-put, get-beq}
use yeson_meet.Prelude.Text.{Str}
use yeson_meet.Jobs.{
  VideoJob, Registry, current_generation, bump_generation, start_job_task, task_done,
  cancel_job_task, set_status, begin_progress, commit_progress, write_progress, try_set_error,
  Event, bumps, starts, finishes, cancels, sets_status, begins_progress, commits_progress,
  sets_error, step, run,
}

-- How many of the events raise the generation of the job: a run that has its semaphore, or a
-- cancellation. To start a task does not: its run waits for the semaphore first.
unfoldable pub renewals : Str → List Event → ℕ
renewals key [] = 0
renewals key (bumps k ∷ es) = (if k == key then 1 else 0) + renewals key es
renewals key (cancels k ∷ es) = (if k == key then 1 else 0) + renewals key es
renewals key (_ ∷ es) = renewals key es

first-append :
    (ws vs : List (Str × ℕ)) (w : Str × ℕ)
    → get_elem? ws 0 ≡ some w
    → get_elem? (ws ++ vs) 0 ≡ some w
first-append [] vs w h = absurd (ground arith)
first-append (v ∷ ws) vs w h = h

current_generation-run :
    (key : Str) (r : Registry) (es : List Event)
    → current_generation key (run r es) ≡ current_generation key r + renewals key es
unfolding run step renewals current_generation bump_generation start_job_task task_done
    cancel_job_task set_status begin_progress commit_progress write_progress try_set_error
current_generation-run key r [] = omega arith
current_generation-run key r (bumps k ∷ es) = ground (
  arith,
  current_generation-run key (step r (bumps k)) es,
  get-put k key (current_generation k r + 1) r.job_generation,
  get-beq k key r.job_generation,
)
current_generation-run key r (cancels k ∷ es) = ground (
  arith,
  current_generation-run key (step r (cancels k)) es,
  get-put k key (current_generation k r + 1) r.job_generation,
  get-beq k key r.job_generation,
)
current_generation-run key r (starts k id ∷ es) =
    current_generation-run key (step r (starts k id)) es
current_generation-run key r (finishes k id ∷ es) =
    ground (arith, current_generation-run key (step r (finishes k id)) es)
current_generation-run key r (sets_status k s e ∷ es) =
    ground (arith, current_generation-run key (step r (sets_status k s e)) es)
current_generation-run key r (begins_progress k p g ∷ es) =
    ground (arith, current_generation-run key (step r (begins_progress k p g)) es)
current_generation-run key r (commits_progress i ∷ es) =
    ground (arith, current_generation-run key (step r (commits_progress i)) es)
current_generation-run key r (sets_error k m ∷ es) =
    ground (arith, current_generation-run key (step r (sets_error k m)) es)

-- Whatever happens after a run took its generation: once the generation was raised, by another run of
-- the job behind its semaphore or by a cancellation, a write that the run begins is dropped.
pub begin_progress_stale :
    (key : Str) (r : Registry) (es : List Event) (pct : ℕ)
    → 0 < renewals key es
    → begin_progress key pct (current_generation key r) (run r es) ≡ run r es
unfolding begin_progress
begin_progress_stale key r es pct renewed = ground (arith, current_generation-run key r es)

-- None of the events commits a write.
unfoldable pub no_commits : List Event → Bool
no_commits [] = true
no_commits (commits_progress i ∷ es) = false
no_commits (_ ∷ es) = no_commits es

-- The oldest write stays until it is committed.
writes-step :
    (r : Registry) (e : Event) (w : Str × ℕ)
    → no_commits (e ∷ []) ≡ true
    → get_elem? r.writes 0 ≡ some w
    → get_elem? (step r e).writes 0 ≡ some w
unfolding no_commits step bump_generation start_job_task task_done cancel_job_task set_status
    begin_progress try_set_error
writes-step r (bumps k) w none_of h = h
writes-step r (starts k id) w none_of h = h
writes-step r (finishes k id) w none_of h = ground (arith, h)
writes-step r (cancels k) w none_of h = ground (arith, h)
writes-step r (sets_status k st e) w none_of h = ground (arith, h)
writes-step r (begins_progress k p g) w none_of h =
    ground (arith, first-append r.writes ((k, p) ∷ []) w h)
writes-step r (commits_progress i) w none_of h = absurd (ground arith)
writes-step r (sets_error k m) w none_of h = ground (arith, h)

no_commits-cons :
    (e : Event) (es : List Event)
    → no_commits (e ∷ es) ≡ true
    → (no_commits (e ∷ []) ≡ true) × (no_commits es ≡ true)
unfolding no_commits
no_commits-cons (bumps k) es h = (refl, h)
no_commits-cons (starts k id) es h = (refl, h)
no_commits-cons (finishes k id) es h = (refl, h)
no_commits-cons (cancels k) es h = (refl, h)
no_commits-cons (sets_status k st e) es h = (refl, h)
no_commits-cons (begins_progress k p g) es h = (refl, h)
no_commits-cons (commits_progress i) es h = absurd (ground arith)
no_commits-cons (sets_error k m) es h = (refl, h)

writes-run :
    (r : Registry) (es : List Event) (w : Str × ℕ)
    → no_commits es ≡ true
    → get_elem? r.writes 0 ≡ some w
    → get_elem? (run r es).writes 0 ≡ some w
unfolding run
writes-run r [] w none_of h = h
writes-run r (e ∷ es) w none_of h =
    let (one, rest) = no_commits-cons e es none_of in
    writes-run (step r e) es w rest (writes-step r e w one h)

-- A row, if there is one, with that progress.
abbrev pub with_progress : ℕ → Option VideoJob → Option VideoJob
with_progress pct none = none
with_progress pct (some job) = some (record job { progress = pct })

pub commit_progress-late :
    (key : Str) (r : Registry) (es : List Event) (pct : ℕ)
    → r.writes ≡ []
    → no_commits es ≡ true
    → let after = run (begin_progress key pct (current_generation key r) r) es in
      get key (commit_progress 0 after).jobs ≡ with_progress pct (get key after.jobs)
unfolding commit_progress write_progress
commit_progress-late key r es pct idle none_of =
    let begun = begin_progress key pct (current_generation key r) r in
    let after = run begun es in
    let waits : get_elem? begun.writes 0 ≡ some (key, pct) =
      unfold begin_progress in ground (arith, idle) in
    let found = writes-run begun es (key, pct) none_of waits in
    elim (Option-cases (get key after.jobs)) [
      | inl gone ↦ ground (arith, found)
      | inr (job, there) ↦
          let same = (text_eq.same_iff key key).1 refl in
          ground (arith, found, same, get-put key key (record job { progress = pct }) after.jobs)
    ]
