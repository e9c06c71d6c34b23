-- ===== src/Ops/Safety.antt =====
-- apps/server/ops/session_safety.py and session_safety_scheduler.py: a live meeting is ended when it
-- lasts too long or its sidecar stays away too long. Times are ticks of one clock; a limit that is
-- switched off (`timedelta.max`) is `none`. What a handler does outside the meeting's row is a list of
-- effects, in order.
pub mod Ending
use yeson_meet.Prelude.{
  ℕ, Bool, List, Option, [], false, if◌then◌else◌, leb, none, not, some, true, ◌+◌, ◌∷◌, ◌++◌,
}

pub data Status : Type 0 where
  live ended : Status

pub record Meeting : Type 0 where
  pub external_id : ℕ
  pub status : Status
  pub started_at : ℕ
  pub ended_at : Option ℕ
  pub disconnected_at : Option ℕ

pub record Limits : Type 0 where
  pub max_duration : Option ℕ
  pub disconnect_grace : Option ℕ

pub data Effect : Type 0 where
  commits : Effect
  emits_report : ℕ → Effect
  raises_duration_alert : ℕ → Effect
  raises_disconnect_alert : ℕ → Effect
  -- `SessionEnded` on the bus, with the time of the end
  publishes_end : ℕ → ℕ → Effect

-- `now - since >= limit`
unfoldable pub exceeds : Option ℕ → ℕ → ℕ → Bool
exceeds none since now = false
exceeds (some limit) since now = leb (since + limit) now

unfoldable pub is_live : Status → Bool
is_live live = true
is_live ended = false

pub record Outcome : Type 0 where
  pub meeting : Meeting
  pub was_ended : Bool
  pub effects : List Effect

abbrev pub unchanged : Meeting → Outcome
unchanged m = record { meeting = m; was_ended = false; effects = [] }

unfoldable pub enforce_meeting_duration_limit : Limits → Meeting → ℕ → Outcome
unfolding exceeds is_live
enforce_meeting_duration_limit limits m now =
    if not (is_live m.status)
    then unchanged m
    else if not (exceeds limits.max_duration m.started_at now)
    then unchanged m
    else record {
      meeting = record m { status = ended; ended_at = some now };
      was_ended = true;
      effects =
          commits
          ∷ emits_report m.external_id
          ∷ raises_duration_alert m.external_id
          ∷ publishes_end m.external_id now
          ∷ [];
    }

unfoldable pub enforce_sidecar_disconnect_limit : Limits → Meeting → ℕ → Outcome
unfolding exceeds is_live
enforce_sidecar_disconnect_limit limits m now =
    if not (is_live m.status) then unchanged m else elim m.disconnected_at [
      | none ↦ unchanged m
      | some since ↦
          if not (exceeds limits.disconnect_grace since now) then unchanged m else record {
            meeting = record m { status = ended; ended_at = some now };
            was_ended = true;
            effects =
                commits
                ∷ emits_report m.external_id
                ∷ raises_disconnect_alert m.external_id
                ∷ publishes_end m.external_id now
                ∷ [];
          }
    ]

-- One meeting of the sweep: the second limit is looked at if the first did not end the meeting. Each
-- reads the clock.
unfoldable pub sweep_meeting : Limits → Meeting → ℕ → ℕ → Outcome
unfolding enforce_meeting_duration_limit enforce_sidecar_disconnect_limit
sweep_meeting limits m now later =
    let first = enforce_meeting_duration_limit limits m now in
    if first.was_ended then first else enforce_sidecar_disconnect_limit limits first.meeting later

-- The sweep visits the rows that are live when it selects them; `clock i` has the two readings at row
-- `i`. The result has all rows and the number of meetings that were ended.
unfoldable pub sweep_once : Limits → (ℕ → ℕ × ℕ) → ℕ → List Meeting → List Meeting × ℕ
unfolding sweep_meeting
sweep_once limits clock i [] = ([], 0)
sweep_once limits clock i (m ∷ ms) =
    let rest = sweep_once limits clock (i + 1) ms in
    let o = sweep_meeting limits m (clock i).0 (clock i).1 in
    if is_live m.status
    then (o.meeting ∷ rest.0, (if o.was_ended then 1 else 0) + rest.1)
    else (m ∷ rest.0, rest.1)

unfoldable pub stamp_sidecar_disconnected : Meeting → ℕ → Meeting
stamp_sidecar_disconnected m now =
    if is_live m.status then record m { disconnected_at = some now } else m

-- At startup: live rows with no time of disconnection get one.
unfoldable pub stamp_live_sessions_disconnected : ℕ → List Meeting → List Meeting × ℕ
stamp_live_sessions_disconnected now [] = ([], 0)
stamp_live_sessions_disconnected now (m ∷ ms) =
    let rest = stamp_live_sessions_disconnected now ms in
    if is_live m.status
    then elim m.disconnected_at [
      | none ↦ (record m { disconnected_at = some now } ∷ rest.0, rest.1 + 1)
      | some t ↦ (m ∷ rest.0, rest.1)
    ]
    else (m ∷ rest.0, rest.1)

abbrev pub first_time : Option ℕ → ℕ → ℕ
first_time none now = now
first_time (some t) now = t

-- At startup: every live row is ended.
unfoldable pub end_live_sessions_at_startup : ℕ → List Meeting → List Meeting × ℕ
end_live_sessions_at_startup now [] = ([], 0)
end_live_sessions_at_startup now (m ∷ ms) =
    let rest = end_live_sessions_at_startup now ms in
    if is_live m.status
    then (
      record m { status = ended; ended_at = some (first_time m.ended_at now) } ∷ rest.0,
      rest.1 + 1,
    )
    else (m ∷ rest.0, rest.1)

-- What can happen to one row while servers come and go.
pub data Event : Type 0 where
  sweeps : ℕ → ℕ → Event
  disconnects : ℕ → Event
  startup_stamps : ℕ → Event
  startup_ends : ℕ → Event

abbrev pub row : Meeting → List Meeting → Meeting
row m [] = m
row m (r ∷ rs) = r

unfoldable pub step : Limits → Meeting → Event → Outcome
unfolding sweep_meeting stamp_sidecar_disconnected stamp_live_sessions_disconnected
    end_live_sessions_at_startup
step limits m (sweeps now later) = sweep_meeting limits m now later
step limits m (disconnects now) = unchanged (stamp_sidecar_disconnected m now)
step limits m (startup_stamps now) =
    unchanged (row m (stamp_live_sessions_disconnected now (m ∷ [])).0)
step limits m (startup_ends now) = unchanged (row m (end_live_sessions_at_startup now (m ∷ [])).0)

-- The row after some events, and all effects of the sweeps.
unfoldable pub run : Limits → Meeting → List Event → Meeting × List Effect
unfolding step
run limits m [] = (m, [])
run limits m (e ∷ es) =
    let o = step limits m e in let rest = run limits o.meeting es in (rest.0, o.effects ++ rest.1)
