-- ===== src/Tests/Handshakes.antt =====
-- A device that moves to its next meeting.
use yeson_meet.Prelude.{List, [], ◌∷◌, none, some, ◌≡◌, refl}
use yeson_meet.Prelude.Text.{codes}
use yeson_meet.Ops.Safety.{live, Limits, enforce_meeting_duration_limit}
use yeson_meet.Live.Handshake.{
  Row, accepts, ws_sidecar, find_row, may_stream, active_for_device, take_over, admit,
  mark_stale_device_session_ended,
}
use yeson_meet.Live.Handshake.Exclusive.{IsAccepted, ws_sidecar-accepts}

abbrev limits : Limits
limits = record { max_duration = some 1000; disconnect_grace = some 60 }

abbrev old_meeting : Row
old_meeting = record {
  meeting = record {
    external_id = 1;
    status = live;
    started_at = 10;
    ended_at = none;
    disconnected_at = some 50;
  };
  device_id = some 7;
}

abbrev new_meeting : Row
new_meeting = record {
  meeting = record {
    external_id = 2;
    status = live;
    started_at = 90;
    ended_at = none;
    disconnected_at = none;
  };
  device_id = none;
}

abbrev rows : List Row
rows = old_meeting ∷ new_meeting ∷ []

accepted :
    (ws_sidecar (λ s. some 2) (λ k. some 7) limits 100 (codes "key") (codes "uuid") rows).0
    ≡ accepts
unfolding ws_sidecar find_row may_stream take_over active_for_device admit
    mark_stale_device_session_ended enforce_meeting_duration_limit
accepted = refl

ws_sidecar-accepts_example :
    IsAccepted
      (λ s. some 2)
      (λ k. some 7)
      rows
      (codes "key")
      (codes "uuid")
      (ws_sidecar (λ s. some 2) (λ k. some 7) limits 100 (codes "key") (codes "uuid") rows).1
ws_sidecar-accepts_example =
    ws_sidecar-accepts (λ s. some 2) (λ k. some 7) rows limits 100 (codes "key") (codes "uuid")
      accepted
