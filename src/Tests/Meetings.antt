-- ===== src/Tests/Meetings.antt =====
-- The end of a meeting that lost its sidecar.
use yeson_meet.Prelude.{ℕ, List, [], ◌∷◌, none, some, ◌≡◌, ◌⊎◌, ◌+◌}
use yeson_meet.Ops.Safety.{
  live, ended, Meeting, Limits, Event, sweeps, disconnects, startup_ends, run,
}
use yeson_meet.Ops.Safety.Ending.{publications, run-announced_once}

abbrev limits : Limits
limits = record { max_duration = some 1000; disconnect_grace = some 60 }

abbrev meeting : Meeting
meeting = record {
  external_id = 1;
  status = live;
  started_at = 10;
  ended_at = none;
  disconnected_at = some 100;
}

abbrev events : List Event
events =
    sweeps 120 121 ∷ disconnects 130 ∷ sweeps 170 171 ∷ startup_ends 180 ∷ sweeps 2000 2001 ∷ []

run-announced_once_example :
    (publications (run limits meeting events).1 ≡ 0)
    ⊎ ((publications (run limits meeting events).1 ≡ 1)
        × ((run limits meeting events).0.status ≡ ended))
run-announced_once_example = run-announced_once limits meeting events

abbrev clock : ℕ → ℕ × ℕ
clock i = (170 + i, 170 + i)
