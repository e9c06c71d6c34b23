-- ===== src/Auth/CaptureTokens.antt =====
-- apps/server/auth/capture_tokens.py: the capture token of each meeting. The hash (SHA-256) is a
-- parameter, the random token and the clock's reading are arguments of the operations. Meetings are
-- numbers, and so are times.
pub mod Validity
use yeson_meet.Prelude.{
  ℕ, Bool, false, List, [], ◌∷◌, none, some, ℕ_eq, text_eq, ◌==◌, leb, if◌then◌else◌, ◌+◌,
}
use yeson_meet.Prelude.Dict.{Dict, get, put, pop}
use yeson_meet.Prelude.Text.{Str}

-- `_Entry`
pub record Issued : Type 0 where
  pub token_hash : Str
  pub expires_at : ℕ

pub record CaptureTokenStore : Type 0 where
  pub ttl : ℕ
  pub by_session : Dict ℕ Issued

unfoldable pub revoke_session : ℕ → CaptureTokenStore → CaptureTokenStore
revoke_session session store = record store { by_session = pop session store.by_session }

unfoldable pub reset : CaptureTokenStore → CaptureTokenStore
reset store = record store { by_session = [] }

pub data Call : Type 0 where
  issues : ℕ → Str → ℕ → Call
  validates : ℕ → Str → ℕ → Call
  revokes : ℕ → Call
  resets : Call

module _ (hash : Str → Str) where
  -- `issue`, for the token that `secrets.token_urlsafe` gives: the token, its expiry, the new store.
  unfoldable pub issue : ℕ → Str → ℕ → CaptureTokenStore → Str × ℕ × CaptureTokenStore
  issue now token session store =
      let expires_at = now + store.ttl in
      (
        token,
        expires_at,
        record store {
          by_session =
              put session (record { token_hash = hash token; expires_at = expires_at })
                store.by_session;
        },
      )

  unfoldable pub validate : ℕ → Str → ℕ → CaptureTokenStore → Bool × CaptureTokenStore
  validate now token session store = elim (get session store.by_session) [
    | none ↦ (false, store)
    | some entry ↦
        if leb entry.expires_at now
        then (false, record store { by_session = pop session store.by_session })
        else (entry.token_hash == hash token, store)
  ]

  unfoldable pub step : CaptureTokenStore → Call → CaptureTokenStore
  unfolding issue validate revoke_session reset
  step store (issues now token session) = (issue now token session store).2
  step store (validates now token session) = (validate now token session store).1
  step store (revokes session) = revoke_session session store
  step store resets = reset store

  unfoldable pub run : CaptureTokenStore → List Call → CaptureTokenStore
  unfolding step
  run store [] = store
  run store (c ∷ cs) = run (step store c) cs
