-- ===== src/Auth/RateLimit.antt =====
-- apps/server/auth/login_rate_limit.py: `LoginRateLimiter`. The clock is an argument of each call
-- that reads it, in ticks since the start of the clock; a text is a list of code points.
pub mod Lock
pub mod Size
use yeson_meet.Prelude.{
  ℕ, ◌+◌, ◌-◌, Bool, ◌&&◌, List, [], ◌∷◌, Option, none, some, ltb, leb, nat_eq, not, if◌then◌else◌,
  length, text_eq,
}
use yeson_meet.Prelude.Dict
use yeson_meet.Prelude.Dict.{Dict, get, put, pop}
use yeson_meet.Prelude.Text.{Str, CharTable, strip, to_lower}

-- `locked_until` is 0 while the account is not locked.
pub record Entry : Type 0 where
  pub fails : ℕ
  pub locked_until : ℕ

pub record LoginRateLimiter : Type 0 where
  pub max_fails : ℕ
  pub lockout_seconds : ℕ
  pub max_entries : ℕ
  pub entries : Dict Str Entry

unfoldable pub is_locked : Entry → Bool
is_locked e = not (nat_eq e.locked_until 0)

-- The loop over the entries deletes the first one that is not locked.
unfoldable pub evict : Dict Str Entry → Dict Str Entry
evict [] = []
evict ((k, e) ∷ d) = if is_locked e then (k, e) ∷ evict d else d

unfoldable pub evict_if_full : LoginRateLimiter → LoginRateLimiter
evict_if_full l =
    if ltb (length l.entries) l.max_entries then l else record l { entries = evict l.entries }

-- One more failure of an entry; the failure that reaches the limit starts the lock.
unfoldable pub count_failure : ℕ → ℕ → ℕ → Entry → Entry
count_failure max_fails lockout now e =
    if leb max_fails (e.fails + 1) && nat_eq e.locked_until 0
    then record { fails = e.fails + 1; locked_until = now + lockout }
    else record e { fails = e.fails + 1 }

module _ (t : CharTable) where
  unfoldable pub key : Str → Str
  key email = to_lower t (strip t email)

  unfoldable pub check : LoginRateLimiter → ℕ → Str → Option ℕ × LoginRateLimiter
  check l now email = elim (get (key email) l.entries) [
    | none ↦ (none, l)
    | some e ↦
        if ltb now e.locked_until
        then (some (e.locked_until - now), l)
        else if is_locked e
        then (none, record l { entries = pop (key email) l.entries })
        else (none, l)
  ]

  unfoldable pub record_failure : LoginRateLimiter → ℕ → Str → LoginRateLimiter
  record_failure l now email = elim (get (key email) l.entries) [
    | some e ↦ record l {
      entries = put (key email) (count_failure l.max_fails l.lockout_seconds now e) l.entries;
    }
    | none ↦ record l {
      entries =
          put (key email)
            (count_failure l.max_fails l.lockout_seconds now
              (record { fails = 0; locked_until = 0 }))
            (evict_if_full l).entries;
    }
  ]

  unfoldable pub record_success : LoginRateLimiter → Str → LoginRateLimiter
  record_success l email = record l { entries = pop (key email) l.entries }

unfoldable pub reset : LoginRateLimiter → LoginRateLimiter
reset l = record l { entries = [] }

-- The calls on a limiter, each with the clock that it reads.
pub data Call : Type 0 where
  resets : Call
  checks : ℕ → Str → Call
  fails : ℕ → Str → Call
  succeeds : Str → Call

module _ (t : CharTable) where
  unfoldable pub step : LoginRateLimiter → Call → LoginRateLimiter
  step l resets = reset l
  step l (checks now email) = (check t l now email).1
  step l (fails now email) = record_failure t l now email
  step l (succeeds email) = record_success t l email

  unfoldable pub run : LoginRateLimiter → List Call → LoginRateLimiter
  run l [] = l
  run l (c ∷ cs) = run (step l c) cs
