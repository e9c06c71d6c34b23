-- ===== src/Ops/Safety/Ending.antt =====
-- When a meeting is ended, and that it is ended once.
use yeson_meet.Prelude.{
  ℕ, Bool, List, [], false, if◌then◌else◌, none, not, some, suc, ◌&&◌, ◌||◌, ◌∷◌, ◌≡◌, arith, inl,
  refl, ◌⊎◌, ap, inr, ◌++◌, ◌+◌, ◌∙◌,
}
use yeson_meet.Ops.Safety.{
  Meeting, Limits, Effect, exceeds, is_live, publishes_end, sweep_meeting, Event, disconnects,
  ended, enforce_sidecar_disconnect_limit, run, startup_ends, startup_stamps, step, sweeps, commits,
  emits_report, raises_disconnect_alert, raises_duration_alert, sweep_once,
}

-- The meeting is over one of the limits: by the first reading of the clock in its length, by the
-- second in the absence of its sidecar.
abbrev pub is_over : Limits → Meeting → ℕ → ℕ → Bool
is_over limits m now later =
    exceeds limits.max_duration m.started_at now || elim m.disconnected_at [
      | none ↦ false
      | some since ↦ exceeds limits.disconnect_grace since later
    ]

abbrev pub publications : List Effect → ℕ
publications [] = 0
publications (publishes_end s t ∷ es) = suc (publications es)
publications (e ∷ es) = publications es

abbrev disconnect_over : Limits → Meeting → ℕ → Bool
disconnect_over limits m later = elim m.disconnected_at [
  | none ↦ false
  | some since ↦ exceeds limits.disconnect_grace since later
]

disconnect_lem :
    (limits : Limits) (m : Meeting) (now : ℕ)
    → let o = enforce_sidecar_disconnect_limit limits m now in
      (o.was_ended ≡ (is_live m.status && disconnect_over limits m now))
      × (is_live o.meeting.status ≡ (is_live m.status && not (disconnect_over limits m now)))
      × (publications o.effects ≡ (if o.was_ended then 1 else 0))
      × (o.meeting ≡ (if o.was_ended then o.meeting else m))
unfolding enforce_sidecar_disconnect_limit
disconnect_lem limits m now = (ground arith, ground arith, ground arith, ground arith)

-- The sweep ends a live meeting exactly if it is over a limit, and announces it once; no other
-- meeting is touched.
pub sweep_meeting_iff :
    (limits : Limits) (m : Meeting) (now later : ℕ)
    → let o = sweep_meeting limits m now later in
      (o.was_ended ≡ (is_live m.status && is_over limits m now later))
      × (is_live o.meeting.status ≡ (is_live m.status && not (is_over limits m now later)))
      × (publications o.effects ≡ (if o.was_ended then 1 else 0))
      × (o.meeting ≡ (if o.was_ended then o.meeting else m))
unfolding sweep_meeting
sweep_meeting_iff limits m now later = (
  ground (arith, disconnect_lem limits m later),
  ground (arith, disconnect_lem limits m later),
  ground (arith, disconnect_lem limits m later),
  ground (arith, disconnect_lem limits m later),
)

-- An ended row is never touched again.
step_ended :
    (limits : Limits) (m : Meeting) (e : Event)
    → m.status ≡ ended
    → ((step limits m e).meeting ≡ m) × ((step limits m e).effects ≡ [])
unfolding step
step_ended limits m (sweeps now later) h = (ground arith, ground arith)
step_ended limits m (disconnects now) h = (ground arith, ground arith)
step_ended limits m (startup_stamps now) h = (ground arith, ground arith)
step_ended limits m (startup_ends now) h = (ground arith, ground arith)

publications-append :
    (es fs : List Effect) → publications (es ++ fs) ≡ publications es + publications fs
publications-append [] fs = omega arith
publications-append (commits ∷ es) fs = publications-append es fs
publications-append (emits_report s ∷ es) fs = publications-append es fs
publications-append (raises_duration_alert s ∷ es) fs = publications-append es fs
publications-append (raises_disconnect_alert s ∷ es) fs = publications-append es fs
publications-append (publishes_end s t ∷ es) fs = omega (arith, publications-append es fs)

-- A step announces nothing, or it ends the meeting and announces that once.
step_announces :
    (limits : Limits) (m : Meeting) (e : Event)
    → (publications (step limits m e).effects ≡ 0)
      ⊎ ((publications (step limits m e).effects ≡ 1) × ((step limits m e).meeting.status ≡ ended))
unfolding step
step_announces limits m (sweeps now later) = ground (arith, sweep_meeting_iff limits m now later)
step_announces limits m (disconnects now) = inl refl
step_announces limits m (startup_stamps now) = inl refl
step_announces limits m (startup_ends now) = inl refl

run_ended :
    (limits : Limits) (m : Meeting) (es : List Event)
    → m.status ≡ ended
    → ((run limits m es).0 ≡ m) × (publications (run limits m es).1 ≡ 0)
unfolding run
run_ended limits m [] h = (refl, refl)
run_ended limits m (e ∷ es) h =
    let (same, quiet) = step_ended limits m e h in
    let (rest, none_sent) =
      run_ended limits (step limits m e).meeting es (ap (λ (r : Meeting). r.status) same ∙ h) in
    (rest ∙ same, rw quiet none_sent)

-- Whatever sweeps, disconnections and restarts a meeting lives through, its end is announced at most
-- once, and an announced meeting is ended.
pub run-announced_once :
    (limits : Limits) (m : Meeting) (es : List Event)
    → (publications (run limits m es).1 ≡ 0)
      ⊎ ((publications (run limits m es).1 ≡ 1) × ((run limits m es).0.status ≡ ended))
unfolding run
run-announced_once limits m [] = inl refl
run-announced_once limits m (e ∷ es) =
    let o = step limits m e in
    let parts = publications-append o.effects (run limits o.meeting es).1 in
    elim (step_announces limits m e) [
      | inl quiet ↦ elim (run-announced_once limits o.meeting es) [
        | inl none_sent ↦ inl (omega arith)
        | inr (sent, over) ↦ inr (omega arith, over)
      ]
      | inr (sent, over) ↦
          let (same, none_sent) = run_ended limits o.meeting es over in
          inr (omega arith, rw same over)
    ]

abbrev pub live_count : List Meeting → ℕ
live_count [] = 0
live_count (m ∷ ms) = (if is_live m.status then 1 else 0) + live_count ms

-- The number that a sweep reports is the number of live meetings that it ended.
pub sweep_once-count :
    (limits : Limits) (clock : ℕ → ℕ × ℕ) (i : ℕ) (ms : List Meeting)
    → let swept = sweep_once limits clock i ms in live_count swept.0 + swept.1 ≡ live_count ms
unfolding sweep_once
sweep_once-count limits clock i [] = refl
sweep_once-count limits clock i (m ∷ ms) = ground (
  arith,
  sweep_once-count limits clock (i + 1) ms,
  sweep_meeting_iff limits m (clock i).0 (clock i).1,
)
