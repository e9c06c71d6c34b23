-- ===== src/Auth/RateLimit/Lock.antt =====
-- Locks: when an account is locked, and for how long it stays so.
use yeson_meet.Prelude.{
  ℕ, ◌+◌, ◌-◌, ◌<◌, ◌≡◌, ◌∙◌, true, false, List, [], ◌∷◌, Option, none, some, ltb, if◌then◌else◌,
  text_eq, beq_refl, ◌==◌, arith, All, length,
}
use yeson_meet.Prelude.Dict.{Dict, get, put, pop, get-put, get-pop_ne, get-beq}
use yeson_meet.Prelude.Text.{Str, CharTable}
use yeson_meet.Auth.RateLimit.{
  Entry, LoginRateLimiter, Call, resets, checks, fails, succeeds, is_locked, evict, evict_if_full,
  count_failure, key, check, record_failure, record_success, step, run,
}

-- The end of the lock on a key, 0 for an entry that is not locked.
abbrev pub lock_end : Str → Dict Str Entry → Option ℕ
lock_end k d = elim (get k d) [ none ↦ none | some e ↦ some e.locked_until ]

-- Eviction removes no locked entry.
get-evict :
    (k : Str) (e : Entry) (d : Dict Str Entry)
    → is_locked e ≡ true
    → get k d ≡ some e
    → get k (evict d) ≡ some e
unfolding get evict
get-evict k e [] lock h = cc
get-evict k e ((j, f) ∷ d) lock h = ground (arith, get-evict k e d lock)

lock_end-evict :
    (k : Str) (until : ℕ) (d : Dict Str Entry)
    → 0 < until
    → lock_end k d ≡ some until
    → lock_end k (evict d) ≡ some until
unfolding get evict is_locked
lock_end-evict k until [] p h = cc
lock_end-evict k until ((j, f) ∷ d) p h = ground (arith, lock_end-evict k until d p)

lock_end-put :
    (k j : Str) (e : Entry) (d : Dict Str Entry)
    → lock_end j (put k e d) ≡ (if k == j then some e.locked_until else lock_end j d)
lock_end-put k j e d = ground (arith, get-put k j e d)

lock_end-pop_ne :
    (k j : Str) (d : Dict Str Entry) → (k == j) ≡ false → lock_end j (pop k d) ≡ lock_end j d
lock_end-pop_ne k j d h = ground (arith, get-pop_ne k j d h)

-- A failure leaves the end of a lock alone.
locked_until-count_failure :
    (m lockout now : ℕ) (e : Entry)
    → 0 < e.locked_until
    → (count_failure m lockout now e).locked_until ≡ e.locked_until
unfolding count_failure
locked_until-count_failure m lockout now e h = ground arith

module _ (t : CharTable) (email : Str) (until : ℕ) where
  abbrev pub IsLocked : LoginRateLimiter → Type 0
  IsLocked l = (0 < until) × (lock_end (key t email) l.entries ≡ some until)

  -- The calls that cannot end the lock: all that read the clock before its end, but a success of the
  -- account and a reset.
  abbrev pub Spares : Call → Type 0
  Spares resets = ⊥
  Spares (checks now other) = now < until
  Spares (fails now other) = Unit
  Spares (succeeds other) = (key t other == key t email) ≡ false

  check-IsLocked :
      (l : LoginRateLimiter) (now : ℕ) (other : Str)
      → now < until
      → IsLocked l
      → IsLocked (check t l now other).1
  unfolding check is_locked
  check-IsLocked l now other h (p, at) = grind (
    arith,
    lock_end-pop_ne (key t other) (key t email) l.entries,
    get-beq (key t other) (key t email) l.entries,
  )

  fails-IsLocked :
      (l : LoginRateLimiter) (now : ℕ) (other : Str)
      → IsLocked l
      → IsLocked (record_failure t l now other)
  unfolding record_failure evict_if_full
  fails-IsLocked l now other (p, at) = grind (
    arith,
    lock_end-put,
    get-beq (key t other) (key t email) l.entries,
    locked_until-count_failure,
    lock_end-evict (key t email) until l.entries,
  )

  step-IsLocked : (l : LoginRateLimiter) (c : Call) → Spares c → IsLocked l → IsLocked (step t l c)
  unfolding step record_success
  step-IsLocked l resets h p = absurd h
  step-IsLocked l (checks now other) h p = check-IsLocked l now other h p
  step-IsLocked l (fails now other) h p = fails-IsLocked l now other p
  step-IsLocked l (succeeds other) h p =
      (p.0, lock_end-pop_ne (key t other) (key t email) l.entries h ∙ p.1)

  run-IsLocked :
      (l : LoginRateLimiter) (cs : List Call) → All Spares cs → IsLocked l → IsLocked (run t l cs)
  unfolding run
  run-IsLocked l [] h p = p
  run-IsLocked l (c ∷ cs) h p = run-IsLocked (step t l c) cs h.1 (step-IsLocked l c h.0 p)

  -- A locked account stays locked until the end of its lock, with the time that is left as the
  -- answer, whatever calls come before: checks and failures of any account, evictions included, and
  -- successes of other accounts.
  pub check-run_locked :
      (l : LoginRateLimiter) (cs : List Call) (now : ℕ)
      → lock_end (key t email) l.entries ≡ some until
      → All Spares cs
      → now < until
      → (check t (run t l cs) now email).0 ≡ some (until - now)
  unfolding check
  check-run_locked l cs now at h lt = ground (arith, run-IsLocked l cs h (omega arith, at))

module _ (t : CharTable) (email : Str) where
  -- Failures of one account, at the given times.
  abbrev pub failures : LoginRateLimiter → List ℕ → LoginRateLimiter
  failures l [] = l
  failures l (now ∷ times) = failures (record_failure t l now email) times

  abbrev start : Entry
  start = record { fails = 0; locked_until = 0 }

  abbrev pub entry_or_new : LoginRateLimiter → Entry
  entry_or_new l = elim (get (key t email) l.entries) [ none ↦ start | some e ↦ e ]

  get-record_failure :
      (l : LoginRateLimiter) (now : ℕ)
      → get (key t email) (record_failure t l now email).entries
        ≡ some (count_failure l.max_fails l.lockout_seconds now (entry_or_new l))
  unfolding record_failure
  get-record_failure l now = grind (arith, get-put, beq_refl (key t email))

  same_config :
      (l : LoginRateLimiter) (now : ℕ)
      → (((record_failure t l now email).max_fails ≡ l.max_fails)
          × ((record_failure t l now email).lockout_seconds ≡ l.lockout_seconds))
  unfolding record_failure
  same_config l now = ground arith

  entry-count_failure :
      (m lockout now n : ℕ)
      → n + 1 < m
      → count_failure m lockout now (record { fails = n; locked_until = 0 })
        ≡ record { fails = n + 1; locked_until = 0 }
  unfolding count_failure
  entry-count_failure m lockout now n h = ground arith

  next_counted :
      (l : LoginRateLimiter) (n now : ℕ)
      → entry_or_new l ≡ record { fails = n; locked_until = 0 }
      → n + 1 < l.max_fails
      → entry_or_new (record_failure t l now email) ≡ record { fails = n + 1; locked_until = 0 }
  next_counted l n now h lt =
      ground
        (arith, get-record_failure l now, entry-count_failure l.max_fails l.lockout_seconds now n)

  -- Short of the limit each failure is counted, and nothing is locked.
  failures_counted :
      (l : LoginRateLimiter) (n : ℕ) (times : List ℕ)
      → entry_or_new l ≡ record { fails = n; locked_until = 0 }
      → n + length times < l.max_fails
      → (entry_or_new (failures l times) ≡ record { fails = n + length times; locked_until = 0 })
        × ((failures l times).max_fails ≡ l.max_fails)
        × ((failures l times).lockout_seconds ≡ l.lockout_seconds)
  failures_counted l n [] h lt = ground arith
  failures_counted l n (now ∷ times) h lt = ground (
    arith,
    same_config l now,
    failures_counted (record_failure t l now email) (n + 1) times
        (next_counted l n now h (omega arith)) (omega (arith, same_config l now)),
  )

  -- An account with no entry answers no lock through `max_fails - 1` failures; the next failure locks
  -- it for `lockout_seconds`: until then a check answers the time that is left.
  pub check-failures :
      (l : LoginRateLimiter) (times : List ℕ) (last now : ℕ)
      → get (key t email) l.entries ≡ none
      → length times + 1 ≡ l.max_fails
      → ((check t (failures l times) now email).0 ≡ none)
        × ((check t (record_failure t (failures l times) last email) now email).0 ≡ (
            if ltb now (last + l.lockout_seconds)
            then some (last + l.lockout_seconds - now)
            else none))
  unfolding check count_failure
  check-failures l times last now new h =
      let counted = failures_counted l 0 times (ground arith) (omega arith) in
      (ground arith, ground (arith, get-record_failure (failures l times) last))
