-- ===== src/Ops/Alerts/Config.antt =====
-- The alerts of the configuration and of the meetings that were ended.
use yeson_meet.Prelude.{
  if◌then◌else◌, ℕ, Bool, true, false, not, none, some, text_eq, ◌==◌, ◌≡◌, arith,
}
use yeson_meet.Prelude.Dict.{get, get-put, get-beq}
use yeson_meet.Prelude.Text.{Str}
use yeson_meet.Ops.Alerts.{
  OperatorAlertStore, raise_alert, resolve_alert, resolve, is_active, gemini_api_key_missing,
  sync_gemini_config_alert,
}

unfoldable pub is_raised : Str → OperatorAlertStore → Bool
is_raised code alerts = elim (get code alerts) [ none ↦ false | some alert ↦ is_active alert ]

-- After the configuration was looked at, the alert of the missing key is active exactly if there is no
-- key, and every other alert is active exactly if it was.
pub is_raised-sync_gemini_config_alert :
    (now : ℕ) (configured : Bool) (alerts : OperatorAlertStore) (code : Str)
    → is_raised code (sync_gemini_config_alert now configured alerts)
      ≡ (if gemini_api_key_missing == code then not configured else is_raised code alerts)
unfolding is_raised sync_gemini_config_alert raise_alert resolve resolve_alert is_active
is_raised-sync_gemini_config_alert now true alerts code =
    grind (arith, get-put, get-beq gemini_api_key_missing code alerts)
is_raised-sync_gemini_config_alert now false alerts code =
    grind (arith, get-put, get-beq gemini_api_key_missing code alerts)
