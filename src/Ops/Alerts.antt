-- ===== src/Ops/Alerts.antt =====
-- apps/server/ops/alerts.py: the buffer of operator alerts. A time is a number; the clock's reading
-- is an argument of the operations that read it.
pub mod Counting
pub mod Config
use yeson_meet.Prelude.{
  ℕ, Bool, List, [], ◌∷◌, Option, none, some, ◌++◌, text_eq, ◌+◌, false, true, not,
}
use yeson_meet.Prelude.Dict.{Dict, get, put}
use yeson_meet.Prelude.Text.{Str, codes}

pub data Severity : Type 0 where
  warning : Severity
  critical : Severity

pub record OperatorAlert : Type 0 where
  pub code : Str
  pub severity : Severity
  pub message : Str
  pub created_at : ℕ
  pub last_seen_at : ℕ
  pub count : ℕ
  pub resolved_at : Option ℕ

-- `_alerts`
abbrev pub OperatorAlertStore : Type 0
OperatorAlertStore = Dict Str OperatorAlert

unfoldable pub raise_alert : ℕ → Str → Severity → Str → OperatorAlertStore → OperatorAlertStore
raise_alert now code severity message alerts = elim (get code alerts) [
  | none ↦
      put code
        (record {
          code = code;
          severity = severity;
          message = message;
          created_at = now;
          last_seen_at = now;
          count = 1;
          resolved_at = none;
        })
        alerts
  | some alert ↦
      put code
        (record alert {
          severity = severity;
          message = message;
          last_seen_at = now;
          count = alert.count + 1;
          resolved_at = none;
        })
        alerts
]

unfoldable pub resolve_alert : ℕ → OperatorAlert → OperatorAlert
resolve_alert now alert = elim alert.resolved_at [
  | none ↦ record alert { resolved_at = some now }
  | some t ↦ alert
]

unfoldable pub resolve : ℕ → Str → OperatorAlertStore → OperatorAlertStore
unfolding resolve_alert
resolve now code alerts = elim (get code alerts) [
  | none ↦ alerts
  | some alert ↦ put code (resolve_alert now alert) alerts
]

unfoldable pub is_active : OperatorAlert → Bool
is_active alert = elim alert.resolved_at [ none ↦ Bool.true | some t ↦ Bool.false ]

unfoldable pub active : OperatorAlertStore → List OperatorAlert
active [] = []
active ((code, alert) ∷ alerts) = elim (is_active alert) [
  | Bool.true ↦ alert ∷ active alerts
  | Bool.false ↦ active alerts
]

unfoldable pub reset : OperatorAlertStore → OperatorAlertStore
reset alerts = []

pub data Call : Type 0 where
  raises : ℕ → Str → Severity → Str → Call
  resolves : ℕ → Str → Call
  resets : Call

unfoldable pub step : OperatorAlertStore → Call → OperatorAlertStore
unfolding raise_alert resolve reset
step alerts (raises now code severity message) = raise_alert now code severity message alerts
step alerts (resolves now code) = resolve now code alerts
step alerts resets = reset alerts

unfoldable pub run : OperatorAlertStore → List Call → OperatorAlertStore
unfolding step
run alerts [] = alerts
run alerts (c ∷ cs) = run (step alerts c) cs

abbrev pub gemini_api_key_missing : Str
gemini_api_key_missing = codes "gemini_api_key_missing"

abbrev pub meeting_max_duration_exceeded : Str
meeting_max_duration_exceeded = codes "meeting_max_duration_exceeded"

abbrev pub meeting_sidecar_disconnected : Str
meeting_sidecar_disconnected = codes "meeting_sidecar_disconnected"

unfoldable pub sync_gemini_config_alert : ℕ → Bool → OperatorAlertStore → OperatorAlertStore
unfolding resolve raise_alert
sync_gemini_config_alert now configured alerts = elim configured [
  | Bool.true ↦ resolve now gemini_api_key_missing alerts
  | Bool.false ↦
      raise_alert now gemini_api_key_missing critical
        (codes "Gemini Live disabled: GEMINI_API_KEY is not configured on the server.") alerts
]

-- A session's own code: the kind of alert, a colon, the session.
unfoldable pub code_of : Str → Str → Str
code_of kind session_id = kind ++ (58 ∷ session_id)

unfoldable pub raise_meeting_max_duration_alert : ℕ → Str → OperatorAlertStore → OperatorAlertStore
unfolding raise_alert code_of
raise_meeting_max_duration_alert now session_id =
    raise_alert now (code_of meeting_max_duration_exceeded session_id) critical (
      codes
        "Meeting exceeded YESON_MEETING_MAX_DURATION_HOURS and was automatically ended: session="
      ++ (session_id ++ codes "."))

unfoldable pub raise_meeting_disconnect_alert : ℕ → Str → OperatorAlertStore → OperatorAlertStore
unfolding raise_alert code_of
raise_meeting_disconnect_alert now session_id =
    raise_alert now (code_of meeting_sidecar_disconnected session_id) critical (
      codes
        "Meeting sidecar disconnected past YESON_MEETING_DISCONNECT_GRACE_SECONDS and the meeting was automatically ended: session="
      ++ (session_id ++ codes "."))
