-- ===== src/Refine/Search.antt =====
-- What the search finds.
use yeson_meet.Prelude.{
  ℕ, Bool, arith, false, max, suc, true, zero, ◌*◌, ◌+◌, ◌-◌, ◌/◌, ◌<◌, ◌≡◌, ◌≤◌, leb, some,
  Bool-cases, Option, if◌then◌else◌, inl, inr, min, none, not, ◌&&◌, leb→le, not_leb→lt, sym, ◌∙◌,
}
use yeson_meet.Refine.{at_target, bisect, widen, Window, search_window}

-- A change of the slate at `x`, up to 20 ms: the target shows at `x`, and some time in the 20 ms
-- before it does not.
abbrev pub IsChange : (ℕ → Bool) → ℕ → ℕ → Type 0
IsChange at_target lo x =
    (at_target x ≡ true) × ((y : ℕ) × (lo ≤ y) × (y < x) × (x ≤ y + 20) × (at_target y ≡ false))

module _ (at_target : ℕ → Bool) where
  -- With `hi - lo` rounds the loop ends by its test, and it keeps the target at its right end only.
  bisect_lem :
      (fuel lo hi : ℕ)
      → hi ≤ lo + fuel
      → lo < hi
      → at_target lo ≡ false
      → at_target hi ≡ true
      → let r = bisect fuel at_target lo hi in
        (lo ≤ r.0)
        × (r.0 < r.1)
        × (r.1 ≤ hi)
        × (r.1 ≤ r.0 + 20)
        × (at_target r.0 ≡ false)
        × (at_target r.1 ≡ true)
  unfolding bisect
  bisect_lem zero lo hi enough lt no_lo yes_hi = absurd (omega arith)
  bisect_lem (suc fuel) lo hi enough lt no_lo yes_hi =
      ground (arith, bisect_lem fuel lo ((lo + hi) / 2), bisect_lem fuel ((lo + hi) / 2) hi)

  widen_bounds :
      (n floor interval lo : ℕ)
      → floor ≤ lo
      → (floor ≤ widen n at_target floor interval lo) × (widen n at_target floor interval lo ≤ lo)
  unfolding widen
  widen_bounds zero floor interval lo h = omega arith
  widen_bounds (suc n) floor interval lo h =
      ground (arith, widen_bounds n floor interval (max floor (lo - 2 * interval)))

  lt_of_differ : (lo hi : ℕ) → at_target lo ≡ false → at_target hi ≡ true → lo ≤ hi → lo < hi
  lt_of_differ lo hi no_lo yes_hi le = ground arith

  -- The answer for a window `[lo, hi]`.
  abbrev answer : ℕ → ℕ → Option ℕ
  answer lo hi =
      if at_target hi && not (at_target lo) then some (bisect (hi - lo) at_target lo hi).1 else none

  answer_found :
      (floor lo hi : ℕ)
      → floor ≤ lo
      → lo ≤ hi
      → at_target lo ≡ false
      → at_target hi ≡ true
      → (x : ℕ) × (answer lo hi ≡ some x) × (x ≤ hi) × IsChange at_target floor x
  answer_found floor lo hi fl le no_lo yes_hi =
      let found =
        bisect_lem (hi - lo) lo hi (omega arith) (lt_of_differ lo hi no_lo yes_hi le) no_lo
          yes_hi in
      let r = bisect (hi - lo) at_target lo hi in
      (
        r.1,
        rw (no_lo, yes_hi),
        omega (arith, found),
        (found.5, (r.0, omega (arith, found), omega (arith, found), omega (arith, found), found.4)),
      )

  answer-IsChange :
      (floor lo hi x : ℕ)
      → floor ≤ lo
      → lo ≤ hi
      → answer lo hi ≡ some x
      → (x ≤ hi) × IsChange at_target floor x
  answer-IsChange floor lo hi x fl le h = elim (Bool-cases (at_target lo)) [
    | inl yes_lo ↦ absurd (ground arith)
    | inr no_lo ↦ elim (Bool-cases (at_target hi)) [
      | inr no_hi ↦ absurd (ground arith)
      | inl yes_hi ↦
          let (x', e, below, change) = answer_found floor lo hi fl le no_lo yes_hi in
          let same : x' ≡ x = ground arith in rw (← same) (below, change)
    ]
  ]

  -- A result is a change of the slate within the limits of the boundary: the new label shows at `x`,
  -- and does not at some time in the 20 ms before it.
  pub search_window-IsChange :
      (interval : ℕ) (w : Window) (x : ℕ)
      → w.floor ≤ w.b
      → w.b ≤ w.ceil_ms
      → search_window at_target interval w ≡ some x
      → (x ≤ min w.ceil_ms (w.b + interval)) × IsChange at_target w.floor x
  unfolding search_window
  search_window-IsChange interval w x le ge h =
      let b = widen_bounds 8 w.floor interval (max w.floor (w.b - interval)) (omega arith) in
      answer-IsChange w.floor _ (min w.ceil_ms (w.b + interval)) x b.0 (omega (arith, b)) h

  -- Where the oracle sees one change, the left end gets before it after enough rounds.
  widen_reaches :
      (n floor interval lo change : ℕ)
      → ((t_ms : ℕ) → at_target t_ms ≡ leb change t_ms)
      → floor < change
      → floor ≤ lo
      → lo < change + n * (2 * interval)
      → at_target (widen n at_target floor interval lo) ≡ false
  unfolding widen
  widen_reaches zero floor interval lo change mono fl le h = rw mono (ground arith)
  widen_reaches (suc n) floor interval lo change mono fl le h = ground (
    arith,
    mono lo,
    widen_reaches n floor interval (max floor (lo - 2 * interval)) change mono fl (omega arith)
        (grind arith),
  )

  -- If the slate changes once, within the limits of the boundary and not more than one interval after
  -- it or seventeen before it, the search has a result, less than 20 ms after the change.
  pub search_window_finds :
      (interval : ℕ) (w : Window) (change : ℕ)
      → ((t_ms : ℕ) → at_target t_ms ≡ leb change t_ms)
      → w.floor ≤ w.b
      → w.b ≤ w.ceil_ms
      → w.floor < change
      → change ≤ w.ceil_ms
      → change ≤ w.b + interval
      → w.b < change + 17 * interval
      → (x : ℕ) × (search_window at_target interval w ≡ some x) × (change ≤ x) × (x < change + 20)
  unfolding search_window
  search_window_finds interval w change mono le ge fl ceil after before =
      let start = max w.floor (w.b - interval) in
      let b = widen_bounds 8 w.floor interval start (omega arith) in
      let lo = widen 8 at_target w.floor interval start in
      let hi = min w.ceil_ms (w.b + interval) in
      let (x, e, below, (yes_x, (y, ge_y, lt_y, near, no_y))) =
        answer_found w.floor lo hi b.0 (omega (arith, b))
          (widen_reaches 8 w.floor interval start change mono fl (omega arith) (omega arith))
          (rw mono (ground arith)) in
      let reached = leb→le change x (sym (mono x) ∙ yes_x) in
      let missed = not_leb→lt change y (sym (mono y) ∙ no_y) in (x, e, reached, omega arith)
