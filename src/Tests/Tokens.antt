-- ===== src/Tests/Tokens.antt =====
-- The capture tokens of two meetings.
use yeson_meet.Prelude.{List, [], ◌∷◌, ℕ_eq, text_eq, ◌==◌, ◌≡◌, ◌+◌, ltb, ◌&&◌, refl, true}
use yeson_meet.Prelude.Text.{Str, codes}
use yeson_meet.Auth.CaptureTokens.{
  CaptureTokenStore, Call, issues, validates, revokes, step, run, validate,
}
use yeson_meet.Auth.CaptureTokens.Validity.{leaves, all_leave, validate-run-issue}

-- A hash for the example: the token with a letter in front.
abbrev hash : Str → Str
hash token = 104 ∷ token

abbrev store : CaptureTokenStore
store = record { ttl = 100; by_session = [] }

abbrev calls : List Call
calls = issues 20 (codes "b") 2 ∷ validates 30 (codes "x") 1 ∷ revokes 2 ∷ []

quiet : all_leave 1 (10 + 100) calls ≡ true
unfolding all_leave leaves
quiet = refl

validate-run-issue_example :
    (validate hash 50 (codes "a") 1 (run hash (step hash store (issues 10 (codes "a") 1)) calls)).0
    ≡ ltb 50 (10 + 100) && (hash (codes "a") == hash (codes "a"))
validate-run-issue_example =
    validate-run-issue hash store 10 50 1 (codes "a") (codes "a") calls quiet
