-- ===== src/Tests/Limiter.antt =====
-- Two accounts at the login.
use yeson_meet.Prelude.{
  List, [], ◌∷◌, text_eq, none, some, ◌≡◌, ◌≤◌, ◌+◌, ◌-◌, max, ltb, if◌then◌else◌, length, refl,
  arith, false, ◌==◌,
}
use yeson_meet.Prelude.Text.{Str, codes, to_lower, strip}
use yeson_meet.Prelude.Dict.{get}
use yeson_meet.Auth.RateLimit.{
  LoginRateLimiter, Call, checks, fails, succeeds, key, check, record_failure, run,
}
use yeson_meet.Auth.RateLimit.Lock.{lock_end, check-run_locked, failures, check-failures}
use yeson_meet.Auth.RateLimit.Size.{locked, length-run}
use yeson_meet.Tests.{ascii}

abbrev email : Str
email = codes "Kim@x"

abbrev other : Str
other = codes "lee@x"

abbrev empty : LoginRateLimiter
empty = record { max_fails = 2; lockout_seconds = 300; max_entries = 1; entries = [] }

abbrev locked_out : LoginRateLimiter
locked_out = record empty {
  entries = (codes "kim@x", record { fails = 0; locked_until = 400 }) ∷ [];
}

abbrev calls : List Call
calls = fails 120 other ∷ fails 130 other ∷ succeeds other ∷ fails 140 email ∷ checks 150 email ∷ []

is_locked_out : lock_end (key ascii email) locked_out.entries ≡ some 400
unfolding key to_lower strip get
is_locked_out = refl

other-key : (key ascii other == key ascii email) ≡ false
unfolding key to_lower strip
other-key = refl

check-run_locked_example : (check ascii (run ascii locked_out calls) 200 email).0 ≡ some (400 - 200)
check-run_locked_example =
    check-run_locked ascii email 400 locked_out calls 200 is_locked_out (ground (arith, other-key))
      (omega arith)

unknown : get (key ascii email) empty.entries ≡ none
unfolding get
unknown = refl

check-failures_example :
    ((check ascii (failures ascii email empty (100 ∷ [])) 120 email).0 ≡ none)
    × ((check ascii
          (record_failure ascii (failures ascii email empty (100 ∷ [])) 110 email)
          120
          email).0
        ≡ (if ltb 120 (110 + 300) then some (110 + 300 - 120) else none))
check-failures_example = check-failures ascii email empty (100 ∷ []) 110 120 unknown refl

length-run_example :
    length (run ascii empty calls).entries ≤ locked (run ascii empty calls).entries + max 1 1
length-run_example = length-run ascii empty calls refl
