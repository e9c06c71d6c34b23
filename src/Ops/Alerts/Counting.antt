-- ===== src/Ops/Alerts/Counting.antt =====
-- What the buffer holds of one code, against the calls for that code.
use yeson_meet.Prelude.{
  ℕ, Bool, List, [], ◌∷◌, Option, none, some, text_eq, ◌+◌, true, false, ◌≡◌, arith, refl, ◌==◌,
}
use yeson_meet.Prelude.Dict.{get, get-beq, get-put}
use yeson_meet.Prelude.Text.{Str}
use yeson_meet.Ops.Alerts.{
  OperatorAlert, OperatorAlertStore, raise_alert, resolve_alert, resolve, is_active, reset, Call,
  raises, resolves, resets, step, run,
}

-- How often a code was raised since the last reset, and whether it is raised.
pub record Tally : Type 0 where
  pub times : ℕ
  pub is_open : Bool

-- The specification: one counter for the code, which no call for another code touches.
unfoldable pub tally : Str → Option Tally → List Call → Option Tally
tally code now [] = now
tally code now (resets ∷ cs) = tally code none cs
tally code now (raises t c s m ∷ cs) = elim (c == code) [
  | false ↦ tally code now cs
  | true ↦ elim now [
    | none ↦ tally code (some (record { times = 1; is_open = true })) cs
    | some n ↦ tally code (some (record { times = n.times + 1; is_open = true })) cs
  ]
]
tally code now (resolves t c ∷ cs) = elim (c == code) [
  | false ↦ tally code now cs
  | true ↦ elim now [
    | none ↦ tally code none cs
    | some n ↦ tally code (some (record { times = n.times; is_open = false })) cs
  ]
]

-- What the buffer's entry says of its code.
unfoldable pub view : Option OperatorAlert → Option Tally
view none = none
view (some a) = some (record { times = a.count; is_open = is_active a })

get-nil : (code : Str) → get code (reset []) ≡ none
unfolding get reset
get-nil code = refl

view-get-run :
    (code : Str) (alerts : OperatorAlertStore) (cs : List Call)
    → view (get code (run alerts cs)) ≡ tally code (view (get code alerts)) cs
unfolding run step raise_alert resolve resolve_alert reset view tally is_active
view-get-run code alerts [] = refl
view-get-run code alerts (resets ∷ cs) = ground (arith, get-nil code, view-get-run code [] cs)
view-get-run code alerts (raises t c s m ∷ cs) =
    grind
      (arith, get-put, get-beq c code alerts, view-get-run code (step alerts (raises t c s m)) cs)
view-get-run code alerts (resolves t c ∷ cs) =
    grind (arith, get-put, get-beq c code alerts, view-get-run code (step alerts (resolves t c)) cs)

-- After any calls on an empty buffer, what it holds of a code is the number of times that code was
-- raised since the last reset, and it is active just when the last of them was not resolved.
pub view-run_alerts :
    (code : Str) (cs : List Call) → view (get code (run [] cs)) ≡ tally code none cs
unfolding get view
view-run_alerts code cs = view-get-run code [] cs
