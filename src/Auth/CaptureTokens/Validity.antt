-- ===== src/Auth/CaptureTokens/Validity.antt =====
-- How long a token is good, and for what.
use yeson_meet.Prelude.{
  ℕ, Bool, true, false, List, [], ◌∷◌, some, ℕ_eq, text_eq, ◌==◌, ltb, not, ◌||◌, ◌&&◌, ◌≡◌, ◌+◌,
  arith,
}
use yeson_meet.Prelude.Dict.{get, get-put, get-beq, get-pop_ne}
use yeson_meet.Prelude.Text.{Str}
use yeson_meet.Auth.CaptureTokens.{
  Issued, CaptureTokenStore, revoke_session, reset, issue, validate, Call, issues, validates,
  revokes, resets, step, run,
}

-- The call leaves the token of the meeting alone: it is neither a new token nor a revocation for
-- that meeting, and it does not come at or after the expiry.
unfoldable pub leaves : ℕ → ℕ → Call → Bool
leaves session limit (issues now token s) = not (s == session)
leaves session limit (validates now token s) = not (s == session) || ltb now limit
leaves session limit (revokes s) = not (s == session)
leaves session limit resets = false

unfoldable pub all_leave : ℕ → ℕ → List Call → Bool
unfolding leaves
all_leave session limit [] = true
all_leave session limit (c ∷ cs) = leaves session limit c && all_leave session limit cs

module _ (hash : Str → Str) (session : ℕ) (entry : Issued) where
  get-step :
      (store : CaptureTokenStore) (c : Call)
      → get session store.by_session ≡ some entry
      → leaves session entry.expires_at c ≡ true
      → get session (step hash store c).by_session ≡ some entry
  unfolding step issue validate revoke_session reset leaves
  get-step store (issues now token s) h quiet = grind (arith, get-put)
  get-step store (validates now token s) h quiet =
      ground (arith, get-pop_ne s session store.by_session, get-beq s session store.by_session)
  get-step store (revokes s) h quiet = ground (arith, get-pop_ne s session store.by_session)
  get-step store resets h quiet = cc

  get-run :
      (store : CaptureTokenStore) (cs : List Call)
      → get session store.by_session ≡ some entry
      → all_leave session entry.expires_at cs ≡ true
      → get session (run hash store cs).by_session ≡ some entry
  unfolding run all_leave
  get-run store [] h quiet = h
  get-run store (c ∷ cs) h quiet =
      ground (arith, get-step store c h, get-run (step hash store c) cs)

-- After a token is issued, and calls that neither replace nor revoke it nor come after its expiry, a
-- token is valid for the meeting just when the time is before the expiry and its hash is that of the
-- token that was issued.
pub validate-run-issue :
    (hash : Str → Str) (store : CaptureTokenStore) (t0 now session : ℕ) (token other : Str)
    (cs : List Call)
    → all_leave session (t0 + store.ttl) cs ≡ true
    → (validate hash now other session (run hash (step hash store (issues t0 token session)) cs)).0
      ≡ ltb now (t0 + store.ttl) && (hash token == hash other)
unfolding validate step issue
validate-run-issue hash store t0 now session token other cs quiet =
    let e : Issued = record { token_hash = hash token; expires_at = t0 + store.ttl } in
    ground (
      arith,
      get-put session session e store.by_session,
      get-run hash session e (step hash store (issues t0 token session)) cs,
    )
