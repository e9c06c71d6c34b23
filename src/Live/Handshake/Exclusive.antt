-- ===== src/Live/Handshake/Exclusive.antt =====
-- A device streams one meeting.
use yeson_meet.Prelude.{
  ℕ, List, [], ◌∷◌, ◌≡◌, refl, arith, All, Bool-cases, Option, Option-cases, inl, inr, some, true,
  false, none, nat_eq, ◌⊎◌, ◌≢◌, ◌++◌, ap,
}
use yeson_meet.Prelude.Text.{Str}
use yeson_meet.Ops.Safety.{Status, live, ended, Limits, is_live, enforce_meeting_duration_limit}
use yeson_meet.Live.Handshake.{
  Row, id_of, update_row, is_active_for, active_for_device, end_row, accepts, take_over, admit,
  bind_device, mark_stale_device_session_ended, find_row, may_stream, ws_sidecar, has_device,
}

Status-cases : (st : Status) → (st ≡ live) ⊎ (st ≡ ended)
Status-cases live = inl refl
Status-cases ended = inr refl

-- To change row `id` leaves the other live rows of a device as they are.
active-update_self :
    (device id : ℕ) (f : Row → Row) (rows : List Row)
    → ((r : Row) → id_of r ≡ id → id_of (f r) ≡ id)
    → active_for_device device id (update_row id f rows) ≡ active_for_device device id rows
unfolding active_for_device update_row is_active_for
active-update_self device id f [] keeps = refl
active-update_self device id f (r ∷ rows) keeps =
    ground (arith, keeps r, active-update_self device id f rows keeps)

-- To end the rows `k` leaves none of them among the live ones.
active-end_row :
    (device id k now : ℕ) (rows : List Row)
    → All (λ r. id_of r ≡ k) (active_for_device device id rows)
    → active_for_device device id (update_row k (end_row now) rows) ≡ []
unfolding active_for_device update_row is_active_for end_row is_live
active-end_row device id k now [] h = refl
active-end_row device id k now (r ∷ rows) h = ground (arith, active-end_row device id k now rows)

module _ (limits : Limits) (now device : ℕ) (r : Row) where
  admit-active :
      (rows : List Row)
      → active_for_device device (id_of r) (admit limits now device r rows).1
        ≡ active_for_device device (id_of r) rows
  unfolding admit bind_device enforce_meeting_duration_limit
  admit-active rows = active-update_self device (id_of r) _ rows (λ s e. ground arith)

  by_others :
      (rows others : List Row)
      → active_for_device device (id_of r) rows ≡ others
      → (take_over limits now device r rows).0 ≡ accepts
      → active_for_device device (id_of r) (take_over limits now device r rows).1 ≡ []
  unfolding take_over mark_stale_device_session_ended
  by_others rows [] e ok = ground (arith, admit-active rows)
  by_others rows (other ∷ []) e ok =
      let ended_rows = update_row (id_of other) (end_row now) rows in
      ground (
        arith,
        admit-active ended_rows,
        active-end_row device (id_of r) (id_of other) now rows (rw e (refl, tt)),
      )
  by_others rows (other ∷ another ∷ more) e ok = ground arith

  -- Where the device is let in, no other live meeting of the rows is the device's: an older one is
  -- ended, a newer one or several keep it out.
  pub take_over-active :
      (rows : List Row)
      → (take_over limits now device r rows).0 ≡ accepts
      → active_for_device device (id_of r) (take_over limits now device r rows).1 ≡ []
  take_over-active rows ok = by_others rows (active_for_device device (id_of r) rows) refl ok

-- The row is one of the rows and has that number.
abbrev pub IsNamed : ℕ → List Row → Row → Type 0
IsNamed id rows r =
    (id_of r ≡ id) × ((before : List Row) × (after : List Row) × (rows ≡ before ++ r ∷ after))

find_row-IsNamed :
    (id : ℕ) (rows : List Row) (r : Row) → find_row id rows ≡ some r → IsNamed id rows r
unfolding find_row
find_row-IsNamed id [] r h = absurd (ground arith)
find_row-IsNamed id (s ∷ rows) r h = elim (Bool-cases (nat_eq (id_of s) id)) [
  | inl same ↦ let hit : s ≡ r = ground arith in (ground arith, ([], rows, ap (λ q. q ∷ rows) hit))
  | inr other ↦
      let (named, (before, after, split)) = find_row-IsNamed id rows r (ground arith) in
      (named, (s ∷ before, after, ap (λ qs. s ∷ qs) split))
]

-- The meeting has not ended, and it has no device or this one.
abbrev pub IsOpenTo : ℕ → Row → Type 0
IsOpenTo device r = (r.meeting.status ≡ live) × ((r.device_id ≡ none) ⊎ (r.device_id ≡ some device))

may_stream-IsOpenTo : (device : ℕ) (r : Row) → may_stream device r ≡ true → IsOpenTo device r
unfolding may_stream
may_stream-IsOpenTo device r h = elim (Status-cases r.meeting.status) [
  | inr over ↦ absurd (ground arith)
  | inl going ↦ elim (Option-cases r.device_id) [
    | inl free ↦ (going, inl free)
    | inr (d, bound) ↦ (going, inr (ground arith))
  ]
]

-- The row is that meeting, or not of the device, or it has ended.
abbrev pub IsAside : ℕ → ℕ → Row → Type 0
IsAside device id r = (id_of r ≡ id) ⊎ ((r.device_id ≢ some device) ⊎ (r.meeting.status ≡ ended))

active-IsAside : (device id : ℕ) (r : Row) → is_active_for device id r ≡ false → IsAside device id r
unfolding is_active_for has_device is_live
active-IsAside device id r h = elim (Bool-cases (nat_eq (id_of r) id)) [
  | inl same ↦ inl (ground arith)
  | inr other ↦ elim (Status-cases r.meeting.status) [
    | inr over ↦ inr (inr over)
    | inl going ↦ inr (inl (λ e. ground (arith, e)))
  ]
]

active-All :
    (device id : ℕ) (rows : List Row)
    → active_for_device device id rows ≡ []
    → All (IsAside device id) rows
unfolding active_for_device
active-All device id [] h = tt
active-All device id (r ∷ rows) h = elim (Bool-cases (is_active_for device id r)) [
  | inl active ↦ absurd (ground arith)
  | inr aside ↦ (active-IsAside device id r aside, active-All device id rows (ground arith))
]

module _ (parse_uuid : Str → Option ℕ) (device_with_key : Str → Option ℕ) (rows : List Row) where
  -- The session names a meeting of the rows and the key is of a device; the meeting has not ended and
  -- has no other device. No other meeting of the rows afterwards is live and that device's.
  abbrev pub IsAccepted : Str → Str → List Row → Type 0
  IsAccepted key session after =
      (id : ℕ) × ((device : ℕ) × ((r : Row) × (parse_uuid session ≡ some id)
          × (device_with_key key ≡ some device)
          × IsNamed id rows r
          × IsOpenTo device r
          × All (IsAside device (id_of r)) after))

  pub ws_sidecar-accepts :
      (limits : Limits) (now : ℕ) (key session : Str)
      → (ws_sidecar parse_uuid device_with_key limits now key session rows).0 ≡ accepts
      → IsAccepted key session (ws_sidecar parse_uuid device_with_key limits now key session rows).1
  unfolding ws_sidecar
  ws_sidecar-accepts limits now [] session ok = absurd (ground arith)
  ws_sidecar-accepts limits now (c ∷ key) [] ok = absurd (ground arith)
  ws_sidecar-accepts limits now (c ∷ key) (d ∷ session) ok =
      elim (Option-cases (parse_uuid (d ∷ session))) [
        | inl miss ↦ absurd (ground arith)
        | inr (id, named) ↦ elim (Option-cases (device_with_key (c ∷ key))) [
          | inl miss ↦ absurd (ground arith)
          | inr (device, known) ↦ elim (Option-cases (find_row id rows)) [
            | inl miss ↦ absurd (ground arith)
            | inr (r, found) ↦ elim (Bool-cases (may_stream device r)) [
              | inr barred ↦ absurd (ground arith)
              | inl may ↦ (
                id,
                (
                  device,
                  (
                    r,
                    named,
                    known,
                    find_row-IsNamed id rows r found,
                    may_stream-IsOpenTo device r may,
                    active-All device (id_of r) _
                        (ground (arith, take_over-active limits now device r rows)),
                  ),
                ),
              )
            ]
          ]
        ]
      ]
