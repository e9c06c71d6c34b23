-- ===== src/Auth/RateLimit/Size.antt =====
-- The bound on the memory of the limiter.
use yeson_meet.Prelude.{
  ℕ, suc, ◌+◌, ◌≤◌, ◌≡◌, refl, true, List, [], ◌∷◌, some, max, if◌then◌else◌, text_eq, arith,
  length, ◌-◌, ◌∙◌, nat_eq,
}
use yeson_meet.Prelude.Dict.{Dict, get, put, pop}
use yeson_meet.Prelude.Text.{Str, CharTable}
use yeson_meet.Auth.RateLimit.{
  Entry, LoginRateLimiter, Call, resets, checks, fails, succeeds, is_locked, evict, evict_if_full,
  count_failure, key, check, record_failure, record_success, reset, step, run,
}

-- How many entries are not locked.
unfoldable pub unlocked : Dict Str Entry → ℕ
unlocked [] = 0
unlocked ((k, e) ∷ d) = if is_locked e then unlocked d else suc (unlocked d)

-- How many have the time of a lock, which may be past.
unfoldable pub locked : Dict Str Entry → ℕ
locked [] = 0
locked ((k, e) ∷ d) = if nat_eq e.locked_until 0 then locked d else suc (locked d)

length-locked : (d : Dict Str Entry) → length d ≡ locked d + unlocked d
unfolding locked unlocked is_locked
length-locked [] = omega arith
length-locked ((k, e) ∷ d) = ground (arith, length-locked d)

unlocked-evict : (d : Dict Str Entry) → unlocked (evict d) ≤ unlocked d - 1
unfolding evict unlocked
unlocked-evict [] = omega arith
unlocked-evict ((k, e) ∷ d) = ground (arith, unlocked-evict d)

unlocked-pop : (k : Str) (d : Dict Str Entry) → unlocked (pop k d) ≤ unlocked d
unfolding pop unlocked
unlocked-pop k [] = omega arith
unlocked-pop k ((j, e) ∷ d) = ground (arith, unlocked-pop k d)

unlocked-put_new :
    (k : Str) (e : Entry) (d : Dict Str Entry) → unlocked (put k e d) ≤ unlocked d + 1
unfolding put unlocked
unlocked-put_new k e [] = ground arith
unlocked-put_new k e ((j, f) ∷ d) = ground (arith, unlocked-put_new k e d)

-- A failure never unlocks the entry.
is_locked-count_failure :
    (m lockout now : ℕ) (e : Entry)
    → is_locked e ≡ true
    → is_locked (count_failure m lockout now e) ≡ true
unfolding count_failure is_locked
is_locked-count_failure m lockout now e h = ground arith

unlocked-put_old :
    (k : Str) (m lockout now : ℕ) (e : Entry) (d : Dict Str Entry)
    → get k d ≡ some e
    → unlocked (put k (count_failure m lockout now e) d) ≤ unlocked d
unfolding put get unlocked
unlocked-put_old k m lockout now e [] h = cc
unlocked-put_old k m lockout now e ((j, f) ∷ d) h =
    ground (arith, unlocked-put_old k m lockout now e d, is_locked-count_failure m lockout now e)

-- At most `max_entries` entries (one, if that is 0) are not locked.
abbrev pub IsBounded : LoginRateLimiter → Type 0
IsBounded l = unlocked l.entries ≤ max l.max_entries 1

module _ (t : CharTable) where
  step-IsBounded : (l : LoginRateLimiter) (c : Call) → IsBounded l → IsBounded (step t l c)
  unfolding step check record_failure record_success reset evict_if_full
  step-IsBounded l resets h = unfold unlocked in omega arith
  step-IsBounded l (checks now email) h = ground (arith, unlocked-pop (key t email) l.entries)
  step-IsBounded l (succeeds email) h = ground (arith, unlocked-pop (key t email) l.entries)
  step-IsBounded l (fails now email) h =
      grind (
        arith,
        unlocked-put_new,
        unlocked-put_old,
        unlocked-evict l.entries,
        length-locked l.entries,
      )

  max_entries-step : (l : LoginRateLimiter) (c : Call) → (step t l c).max_entries ≡ l.max_entries
  unfolding step check record_failure record_success reset
  max_entries-step l resets = refl
  max_entries-step l (checks now email) = ground arith
  max_entries-step l (fails now email) = ground arith
  max_entries-step l (succeeds email) = ground arith

  run-IsBounded : (l : LoginRateLimiter) (cs : List Call) → IsBounded l → IsBounded (run t l cs)
  unfolding run
  run-IsBounded l [] h = h
  run-IsBounded l (c ∷ cs) h = run-IsBounded (step t l c) cs (step-IsBounded l c h)

  max_entries-run :
      (l : LoginRateLimiter) (cs : List Call) → (run t l cs).max_entries ≡ l.max_entries
  unfolding run
  max_entries-run l [] = refl
  max_entries-run l (c ∷ cs) = max_entries-run (step t l c) cs ∙ max_entries-step l c

  -- Whatever calls are made on an empty limiter, its entries outnumber those that have the time of a
  -- lock, past or not, by at most `max_entries` (by at most one, if that is 0).
  pub length-run :
      (l : LoginRateLimiter) (cs : List Call)
      → l.entries ≡ []
      → length (run t l cs).entries ≤ locked (run t l cs).entries + max l.max_entries 1
  length-run l cs empty = omega (
    arith,
    length-locked (run t l cs).entries,
    max_entries-run l cs,
    run-IsBounded l cs (rw empty (unfold unlocked in omega arith)),
  )
