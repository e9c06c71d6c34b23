-- ===== src/Live/Handshake.antt =====
-- apps/server/ws/sidecar.py: `ws_sidecar`, who may stream a meeting. The rows of the meetings are a
-- list; the device with an API key, and the reading of a session's UUID, are parameters, as is the
-- clock. The stream that follows an accepted socket is outside this module.
pub mod Exclusive
use yeson_meet.Prelude.{
  ℕ, Bool, true, false, List, [], ◌∷◌, Option, none, some, nat_eq, leb, not, ◌&&◌, if◌then◌else◌,
}
use yeson_meet.Prelude.Text.{Str}
use yeson_meet.Ops.Safety.{ended, Meeting, Limits, is_live, enforce_meeting_duration_limit}

-- A row of `sessions`: what the safety limits read of it, and its device.
pub record Row : Type 0 where
  pub meeting : Meeting
  pub device_id : Option ℕ

abbrev pub id_of : Row → ℕ
id_of r = r.meeting.external_id

unfoldable pub find_row : ℕ → List Row → Option Row
find_row id [] = none
find_row id (r ∷ rs) = if nat_eq (id_of r) id then some r else find_row id rs

-- An object of the database session that is changed in place.
unfoldable pub update_row : ℕ → (Row → Row) → List Row → List Row
update_row id f [] = []
update_row id f (r ∷ rs) = (if nat_eq (id_of r) id then f r else r) ∷ update_row id f rs

unfoldable pub has_device : ℕ → Row → Bool
has_device device r = elim r.device_id [ none ↦ false | some d ↦ nat_eq d device ]

unfoldable pub is_active_for : ℕ → ℕ → Row → Bool
unfolding has_device
is_active_for device id r =
    has_device device r && (is_live r.meeting.status && not (nat_eq (id_of r) id))

-- The live rows of the device other than `id`.
unfoldable pub active_for_device : ℕ → ℕ → List Row → List Row
unfolding is_active_for
active_for_device device id [] = []
active_for_device device id (r ∷ rs) = elim (is_active_for device id r) [
  | true ↦ r ∷ active_for_device device id rs
  | false ↦ active_for_device device id rs
]

unfoldable pub end_row : ℕ → Row → Row
end_row now r = record r { meeting = record r.meeting { status = ended; ended_at = some now } }

-- `_mark_stale_device_session_ended`: none, if the other meeting is not older.
unfoldable pub mark_stale_device_session_ended : ℕ → Row → Row → List Row → Option (List Row)
unfolding end_row update_row
mark_stale_device_session_ended now other replacement rows =
    if leb replacement.meeting.started_at other.meeting.started_at
    then none
    else some (update_row (id_of other) (end_row now) rows)

-- Several live meetings of the device are an error of the query.
pub data Reply : Type 0 where
  closes : Reply
  accepts : Reply
  fails : Reply

unfoldable pub bind_device : ℕ → Row → Row
bind_device device r = record r {
  device_id = elim r.device_id [ none ↦ some device | some d ↦ some d ];
  meeting = record r.meeting { disconnected_at = none };
}

-- From the device and the meeting on, when no other live meeting is in the way: the device is
-- written if there is none, the time of disconnection is cleared, and the duration is checked.
unfoldable pub admit : Limits → ℕ → ℕ → Row → List Row → Reply × List Row
unfolding bind_device update_row
admit limits now device r rows =
    let bound = bind_device device r in
    let o = enforce_meeting_duration_limit limits bound.meeting now in
    (
      (if o.was_ended then closes else accepts),
      update_row (id_of r) (λ s. record (bind_device device s) { meeting = o.meeting }) rows,
    )

-- The meeting may be streamed by the device: it is not ended, and has no other device.
unfoldable pub may_stream : ℕ → Row → Bool
unfolding has_device
may_stream device r = elim r.meeting.status [
  | ended ↦ false
  | _ ↦ elim r.device_id [ none ↦ true | some d ↦ nat_eq d device ]
]

unfoldable pub take_over : Limits → ℕ → ℕ → Row → List Row → Reply × List Row
unfolding admit active_for_device mark_stale_device_session_ended
take_over limits now device r rows = elim (active_for_device device (id_of r) rows) [
  | [] ↦ admit limits now device r rows
  | other ∷ [] ↦ elim (mark_stale_device_session_ended now other r rows) [
    | none ↦ (closes, rows)
    | some rows' ↦ admit limits now device r rows'
  ]
  | other ∷ another ∷ more ↦ (fails, rows)
]

module _ (parse_uuid : Str → Option ℕ) (device_with_key : Str → Option ℕ) where
  unfoldable pub ws_sidecar : Limits → ℕ → Str → Str → List Row → Reply × List Row
  unfolding take_over may_stream find_row
  ws_sidecar limits now [] session rows = (closes, rows)
  ws_sidecar limits now (c ∷ key) [] rows = (closes, rows)
  ws_sidecar limits now (c ∷ key) (d ∷ session) rows = elim (parse_uuid (d ∷ session)) [
    | none ↦ (closes, rows)
    | some id ↦ elim (device_with_key (c ∷ key)) [
      | none ↦ (closes, rows)
      | some device ↦ elim (find_row id rows) [
        | none ↦ (closes, rows)
        | some r ↦
            if may_stream device r then take_over limits now device r rows else (closes, rows)
      ]
    ]
  ]
