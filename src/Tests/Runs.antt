-- ===== src/Tests/Runs.antt =====
-- A run of a job that was cancelled.
use yeson_meet.Prelude.{List, [], ◌∷◌, none, refl, text_eq, ◌≡◌, ◌<◌, arith}
use yeson_meet.Prelude.Dict.{get}
use yeson_meet.Prelude.Text.{Str, codes}
use yeson_meet.Jobs.{
  Registry, current_generation, begin_progress, Event, commit_progress, starts, cancels,
  sets_status, run,
}
use yeson_meet.Jobs.Stale.{
  renewals, begin_progress_stale, commit_progress-late, with_progress, no_commits,
}

abbrev job : Str
job = codes "job"

abbrev registry : Registry
registry = record {
  job_generation = (job, 3) ∷ [];
  job_tasks = [];
  jobs = (job, record { status = codes "burning"; progress = 40; error = none }) ∷ [];
  writes = [];
}

abbrev events : List Event
events = starts job 7 ∷ cancels job ∷ sets_status job (codes "queued") none ∷ []

was_renewed : 0 < renewals job events
unfolding renewals
was_renewed = omega arith

begin_progress_stale_example :
    begin_progress job 55 (current_generation job registry) (run registry events)
    ≡ run registry events
begin_progress_stale_example = begin_progress_stale job registry events 55 was_renewed

commit_progress-late_example :
    get job (commit_progress 0 (run (begin_progress job 55 3 registry) events)).jobs
    ≡ with_progress 55 (get job (run (begin_progress job 55 3 registry) events).jobs)
unfolding no_commits current_generation get
commit_progress-late_example = commit_progress-late job registry events 55 refl refl
