-- ===== src/Jobs.antt =====
-- apps/server/domain/video_captions/job_tasks.py: the runs of the video jobs (the tasks, the
-- generation that tells a stale write, the rows' status and progress). A task is a number. The row
-- of a job is its entry in the database. What `kill_active` does to ffmpeg is outside the model.
pub mod Stale
use yeson_meet.Prelude.{
  ℕ, Bool, true, false, List, [], ◌∷◌, Option, none, some, text_eq, ℕ_eq, nat_eq, if◌then◌else◌,
  ◌+◌, ◌++◌, get_elem?, take, drop,
}
use yeson_meet.Prelude.Dict.{Dict, get, put, pop}
use yeson_meet.Prelude.Text.{Str, codes}

-- The columns of `VideoJob` that these operations write.
pub record VideoJob : Type 0 where
  pub status : Str
  pub progress : ℕ
  pub error : Option Str

-- A task, and whether `cancel` was called on it.
pub record Task : Type 0 where
  pub id : ℕ
  pub is_done : Bool
  pub is_cancelled : Bool

-- `_job_generation`, `_job_tasks`, the database's rows, and the progress that `_set_progress` is about
-- to write: it awaits the database between its check and its commit.
pub record Registry : Type 0 where
  pub job_generation : Dict Str ℕ
  pub job_tasks : Dict Str Task
  pub jobs : Dict Str VideoJob
  pub writes : List (Str × ℕ)

-- `_PROGRESS`
abbrev pub progress_table : Dict Str ℕ
progress_table =
    (codes "queued", 0)
    ∷ (codes "ingesting", 5)
    ∷ (codes "extracting", 15)
    ∷ (codes "transcribing", 0)
    ∷ (codes "translating", 0)
    ∷ (codes "review", 100)
    ∷ (codes "burning", 0)
    ∷ (codes "done", 100)
    ∷ []

unfoldable pub current_generation : Str → Registry → ℕ
current_generation key r = elim (get key r.job_generation) [ none ↦ 0 | some gen ↦ gen ]

unfoldable pub bump_generation : Str → Registry → Registry
unfolding current_generation
bump_generation key r = record r {
  job_generation = put key (current_generation key r + 1) r.job_generation;
}

unfoldable pub start_job_task : Str → ℕ → Registry → Registry
start_job_task key id r = record r {
  job_tasks = put key (record { id = id; is_done = false; is_cancelled = false }) r.job_tasks;
}

-- The callback of a task that ended.
unfoldable pub task_done : Str → ℕ → Registry → Registry
task_done key id r = elim (get key r.job_tasks) [
  | none ↦ r
  | some task ↦ if nat_eq task.id id then record r { job_tasks = pop key r.job_tasks } else r
]

unfoldable pub cancel_job_task : Str → Registry → Bool × Registry
unfolding bump_generation
cancel_job_task key r =
    let bumped = bump_generation key r in
    elim (get key bumped.job_tasks) [
      | none ↦ (false, bumped)
      | some task ↦ elim task.is_done [
        | true ↦ (false, bumped)
        | false ↦ (
          true,
          record bumped {
            job_tasks = put key (record task { is_cancelled = true }) bumped.job_tasks;
          },
        )
      ]
    ]

-- `_set_status`, on the row that `_load_job` reads: no row is an error (none).
unfoldable pub set_status : Str → Str → Option Str → Registry → Option Registry
set_status key status error r = elim (get key r.jobs) [
  | none ↦ none
  | some job ↦ some (record r {
    jobs =
        put key
          (record {
            status = status;
            progress = elim (get status progress_table) [ none ↦ job.progress | some p ↦ p ];
            error = error;
          })
          r.jobs;
  })
]

-- `_set_progress` up to its first await: the generation is checked.
unfoldable pub begin_progress : Str → ℕ → ℕ → Registry → Registry
begin_progress key pct generation r =
    if nat_eq generation (current_generation key r)
    then record r { writes = r.writes ++ (key, pct) ∷ [] }
    else r

-- Its commit, which writes the one column: an error, when there is no row, is logged and swallowed.
unfoldable pub write_progress : Str → ℕ → Registry → Registry
write_progress key pct r = elim (get key r.jobs) [
  | none ↦ r
  | some job ↦ record r { jobs = put key (record job { progress = pct }) r.jobs }
]

-- The writes commit in any order: this is the one at a position.
unfoldable pub commit_progress : ℕ → Registry → Registry
unfolding write_progress
commit_progress i r = elim (get_elem? r.writes i) [
  | none ↦ r
  | some (key, pct) ↦
      write_progress key pct (record r { writes = take i r.writes ++ drop (i + 1) r.writes })
]

-- `_try_set_error`
unfoldable pub try_set_error : Str → Str → Registry → Registry
unfolding set_status
try_set_error key message r = elim (set_status key (codes "error") (some message) r) [
  | none ↦ r
  | some s ↦ s
]

pub data Event : Type 0 where
  bumps : Str → Event
  starts : Str → ℕ → Event
  finishes : Str → ℕ → Event
  cancels : Str → Event
  sets_status : Str → Str → Option Str → Event
  begins_progress : Str → ℕ → ℕ → Event
  commits_progress : ℕ → Event
  sets_error : Str → Str → Event

unfoldable pub step : Registry → Event → Registry
unfolding bump_generation start_job_task task_done cancel_job_task set_status begin_progress
    commit_progress try_set_error
step r (bumps key) = bump_generation key r
step r (starts key id) = start_job_task key id r
step r (finishes key id) = task_done key id r
step r (cancels key) = (cancel_job_task key r).1
step r (sets_status key status error) = elim (set_status key status error r) [
  | none ↦ r
  | some s ↦ s
]
step r (begins_progress key pct generation) = begin_progress key pct generation r
step r (commits_progress i) = commit_progress i r
step r (sets_error key message) = try_set_error key message r

unfoldable pub run : Registry → List Event → Registry
unfolding step
run r [] = r
run r (e ∷ es) = run (step r e) es
